-- ===== src/Writing/Stored.antt =====
-- Writing a field to a mock unit and reading it back (src/modbus_connection/model/_writing.py and
-- src/modbus_connection/mock.py).
use modbus_connection.Prelude.{
  ℕ, All, ◌+◌, ◌≡◌, refl, ◌∙◌, inl, inr, false, Option, none, some, List, [], ◌∷◌, map, arith,
  length, range_from, ◌==◌, Bool-cases,
}
use modbus_connection.Const.{holding}
use modbus_connection.Errors.{Result, ok}
use modbus_connection.Unit.{ModbusUnit, reader}
use modbus_connection.Reading.Values.{Memory}
use modbus_connection.Execution.Requests.{Serves}
use modbus_connection.Mock.{Store, WriteEvent, MockModbusUnit, value_at, put_values, read_registers}
use modbus_connection.Mock.Stores.{IsFlat, written, value_at-put_values, written_before}
use modbus_connection.Mock.Writes.{write_register}
use modbus_connection.Writing.{RegisterField, packed, write_encoding}

-- The reads of a run see the words of the run, one after the other.
written_run :
    (f : ℕ → ℕ) (a : ℕ) (vs : List ℕ)
    → ((x v : ℕ) → written a vs x ≡ some v → f x ≡ v)
    → map f (range_from a (length vs)) ≡ vs
written_run f a [] h = refl
written_run f a (v ∷ vs) h =
    rw (h a v (ground arith), written_run f (a + 1) vs λ x w e. h x w (later x w e)) refl
  where
    later : (x w : ℕ) → written (a + 1) vs x ≡ some w → written a (v ∷ vs) x ≡ some w
    later x w e = elim (Bool-cases (a == x)) [
      | inl k ↦ ground (arith, k, e, written_before (a + 1) vs x)
      | inr k ↦ rw k e
    ]

-- After words are written to a store of single values with each address set once, reading as many
-- registers from the same address gives the words.
pub read_registers-put_values :
    (a : ℕ) (ws : List ℕ) (d : Store)
    → IsFlat d
    → read_registers (put_values a ws d) a (length ws) ≡ ws
unfolding read_registers
read_registers-put_values a ws d flat =
    written_run (value_at (λ v. v) (put_values a ws d)) a ws
      λ x v e. value_at-put_values (λ v. v) a ws d x flat ∙ rw e refl

-- The word of a packed field is read first, and what is written is the merge into what the device
-- holds: the bits that the field does not own keep the device's value.
pub write_encoding-packed :
    {S V : Type 0} (u : ModbusUnit S) (mem : Memory) (Ready : S → Type 0) (field : RegisterField V)
    (merge : ℕ → V → Result ℕ) (address word : ℕ) (value : V) (scale_address : Option ℕ) (st : S)
    → Serves u mem Ready
    → Ready st
    → merge (mem holding address) value ≡ ok word
    → (now : S) × Ready now
      × (write_encoding u field (packed merge) address value scale_address st
          ≡ u.write_register address word now)
unfolding write_encoding reader
write_encoding-packed u mem Ready field merge address word value scale_address st serves ready
      merged =
    let (answer, stays) = serves.answers holding address 1 st ready in
    ((u.read_holding_registers address 1 st).1, stays, rw (answer, merged) refl)

-- An open unit with no failure set for a write and no callback that raises, whose holding registers
-- are single values.
pub record IsWritable (m : MockModbusUnit) : Type 0 where
  pub opened : m.closed ≡ false
  pub no_failure : m.request_failure ≡ none
  pub no_write_failure : m.write_failures ≡ []
  pub flat : IsFlat m.holding_store
  pub quiet : All (λ callback. (event : WriteEvent) → callback event ≡ ok tt) m.write_callbacks

-- The write went through and the registers hold the words.
abbrev pub Holds : ℕ → List ℕ → Result (Unit {0}) × MockModbusUnit → Type 0
Holds address ws p = (p.0 ≡ ok tt) × (read_registers p.1.holding_store address (length ws) ≡ ws)
