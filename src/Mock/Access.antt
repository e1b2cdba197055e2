-- ===== src/Mock/Access.antt =====
-- The reads of a mock unit (src/modbus_connection/mock.py) that is open and has no failure set.
use modbus_connection.Prelude.{
  ℕ, zero, suc, ap, range_from, ◌+◌, ◌≡◌, refl, true, false, none, List, [], ◌∷◌, map,
}
use modbus_connection.Const.{Space, holding, input, coil, discrete}
use modbus_connection.Errors.{ok}
use modbus_connection.Unit.{reader}
use modbus_connection.Reading.Values.{slice}
use modbus_connection.Execution.Requests.{Serves}
use modbus_connection.Mock.{
  MockModbusUnit, Store, first_failure, dispatch_read, record_read, read_holding_registers,
  read_input_registers, read_coils, read_discrete_inputs, read_registers, read_bits,
}
use modbus_connection.Mock.Memory.{
  memory_of, latest, as_word, as_bit, value_at-as_word, value_at-as_bit,
}
use modbus_connection.Mock.Writes.{mock_unit}

-- An open unit with no failure set, whose stores are those of `m`.
pub record IsReady (m n : MockModbusUnit) : Type 0 where
  pub opened : n.closed ≡ false
  pub no_failure : n.request_failure ≡ none
  pub no_read_failure : n.read_failures ≡ []
  pub same_holding : n.holding_store ≡ m.holding_store
  pub same_input : n.input_store ≡ m.input_store
  pub same_coil : n.coil_store ≡ m.coil_store
  pub same_discrete : n.discrete_store ≡ m.discrete_store

pub first_failure-nil : (s : Space) (a count : ℕ) → first_failure [] s a count ≡ none
unfolding first_failure
first_failure-nil s a zero = refl
first_failure-nil s a (suc n) = first_failure-nil s (a + 1) n

-- A read of an open unit with no failure set is let through, and leaves the unit as it was but for
-- the connection and the recorded event.
recorded : MockModbusUnit → Space → ℕ → ℕ → MockModbusUnit
unfolding record_read
recorded n s a count = (record_read s a count (record n { connected = true })).1

dispatch_read-recorded :
    (m n : MockModbusUnit) (s : Space) (a count : ℕ)
    → IsReady m n
    → dispatch_read s a count n ≡ (ok tt, recorded n s a count)
unfolding dispatch_read recorded
dispatch_read-recorded m n s a count r =
    let none_set : first_failure n.read_failures s a count ≡ none =
      rw r.no_read_failure (first_failure-nil s a count) in
    rw (r.opened, r.no_failure, none_set) refl

recorded-IsReady :
    (m n : MockModbusUnit) (s : Space) (a count : ℕ)
    → IsReady m n
    → IsReady m (recorded n s a count)
unfolding recorded
recorded-IsReady m n s a count r = record {
  opened = r.opened;
  no_failure = r.no_failure;
  no_read_failure = r.no_read_failure;
  same_holding = r.same_holding;
  same_input = r.same_input;
  same_coil = r.same_coil;
  same_discrete = r.same_discrete;
}

same_values : (f g : ℕ → ℕ) (xs : List ℕ) → ((x : ℕ) → f x ≡ g x) → map f xs ≡ map g xs
same_values f g [] h = refl
same_values f g (x ∷ xs) h = rw (h x, same_values f g xs h) refl

read_registers-as_word :
    (store : Store) (a count : ℕ)
    → read_registers store a count ≡ map (λ x. as_word (latest store x)) (range_from a count)
unfolding read_registers
read_registers-as_word store a count = same_values _ _ (range_from a count) (value_at-as_word store)

read_bits-as_bit :
    (store : Store) (a count : ℕ)
    → read_bits store a count ≡ map (λ x. as_bit (latest store x)) (range_from a count)
unfolding read_bits
read_bits-as_bit store a count = same_values _ _ (range_from a count) (value_at-as_bit store)

-- A mock unit that is open and has no failure set serves the memory that its stores stand for: of the
-- entries that name an address the last one counts, a list runs on from its base, and what no entry
-- names is 0.
pub mock-Serves : (m : MockModbusUnit) → Serves mock_unit (memory_of m) (IsReady m)
unfolding reader read_holding_registers read_input_registers read_coils read_discrete_inputs
    memory_of recorded
mock-Serves m = record { answers = answer }
  where
    answer :
        (s : Space) (a count : ℕ) (n : MockModbusUnit)
        → IsReady m n
        → ((reader mock_unit s a count n).0 ≡ ok (slice (memory_of m) s a count))
          × IsReady m (reader mock_unit s a count n).1
    answer holding a count n r = (
      rw (dispatch_read-recorded m n holding a count r, r.same_holding)
          (ap ok (read_registers-as_word m.holding_store a count)),
      rw (dispatch_read-recorded m n holding a count r) (recorded-IsReady m n holding a count r),
    )
    answer input a count n r = (
      rw (dispatch_read-recorded m n input a count r, r.same_input)
          (ap ok (read_registers-as_word m.input_store a count)),
      rw (dispatch_read-recorded m n input a count r) (recorded-IsReady m n input a count r),
    )
    answer coil a count n r = (
      rw (dispatch_read-recorded m n coil a count r, r.same_coil)
          (ap ok (read_bits-as_bit m.coil_store a count)),
      rw (dispatch_read-recorded m n coil a count r) (recorded-IsReady m n coil a count r),
    )
    answer discrete a count n r = (
      rw (dispatch_read-recorded m n discrete a count r, r.same_discrete)
          (ap ok (read_bits-as_bit m.discrete_store a count)),
      rw (dispatch_read-recorded m n discrete a count r) (recorded-IsReady m n discrete a count r),
    )
