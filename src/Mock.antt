-- ===== src/Mock.antt =====
-- src/modbus_connection/mock.py: the in-memory unit. A callable in a store is taken by the value that
-- it returns; a bit is the number 0 or 1. A write callback may raise, and does nothing else here;
-- `write_log` is what each call of one was given, in order. Timeouts, spacing and canned responses are left out here.
pub mod Writes
pub mod Stores
pub mod Memory
pub mod Access
pub mod Failures
use modbus_connection.Prelude.{
  ℕ, zero, suc, ◌+◌, Bool, true, ◌&&◌, Option, none, some, List, [], ◌∷◌, ◌++◌, map, ◌==◌,
  if◌then◌else◌, range_from,
}
use modbus_connection.Const.{Space, holding, input, coil, discrete, space_eq}
use modbus_connection.Errors.{Result, ok, err, Error, modbus, client_closed_error}
use modbus_connection.Dict
use modbus_connection.Dict.{Dict}
use modbus_connection.Unit.{Action, ◌>>=◌, ◌>>◌}

-- `RegisterSpec` and `CoilSpec`
pub data Spec : Type 0 where
  one : ℕ → Spec
  many : List ℕ → Spec

abbrev pub Store : Type 0
Store = Dict ℕ Spec

pub record WriteEvent : Type 0 where
  pub register_type : Space
  pub address : ℕ
  pub values : List ℕ
  pub function_code : ℕ

pub record ReadEvent : Type 0 where
  pub register_type : Space
  pub address : ℕ
  pub count : ℕ

abbrev pub Key : Type 0
Key = Space × ℕ

abbrev pub eq_key : Key → Key → Bool
eq_key (s, a) (t, b) = space_eq s t && a == b

pub record MockModbusUnit : Type 0 where
  pub closed : Bool
  pub connected : Bool
  pub holding_store : Store
  pub input_store : Store
  pub coil_store : Store
  pub discrete_store : Store
  pub write_failures : Dict Key Error
  pub read_failures : Dict Key Error
  pub request_failure : Option Error
  pub read_events : List ReadEvent
  pub write_callbacks : List (WriteEvent → Result (Unit {0}))
  pub write_log : List WriteEvent

-- `bool(value)`, as a number.
abbrev pub to_bit : ℕ → ℕ
to_bit zero = 0
to_bit (suc n) = 1

-- `out[base + offset] = convert(item)`: the newest entry of an address stands first.
unfoldable pub put_run : (ℕ → ℕ) → ℕ → List ℕ → Dict ℕ ℕ → Dict ℕ ℕ
put_run convert base [] out = out
put_run convert base (v ∷ vs) out = put_run convert (base + 1) vs ((base, convert v) ∷ out)

unfoldable pub put_spec : (ℕ → ℕ) → ℕ → Spec → Dict ℕ ℕ → Dict ℕ ℕ
unfolding put_run
put_spec convert base (one v) out = (base, convert v) ∷ out
put_spec convert base (many vs) out = put_run convert base vs out

-- `_materialize`
unfoldable pub materialize : (ℕ → ℕ) → Store → Dict ℕ ℕ → Dict ℕ ℕ
unfolding put_spec
materialize convert [] out = out
materialize convert ((base, spec) ∷ space) out =
    materialize convert space (put_spec convert base spec out)

abbrev pub or_zero : Option ℕ → ℕ
or_zero none = 0
or_zero (some v) = v

-- One address of `_read_registers` and `_read_bits`.
unfoldable pub value_at : (ℕ → ℕ) → Store → ℕ → ℕ
unfolding materialize Dict.lookup
value_at convert space a = or_zero (Dict.lookup ◌==◌ a (materialize convert space []))

unfoldable pub read_registers : Store → ℕ → ℕ → List ℕ
unfolding value_at
read_registers space address count = map (value_at (λ v. v) space) (range_from address count)

unfoldable pub read_bits : Store → ℕ → ℕ → List ℕ
unfolding value_at
read_bits space address count = map (value_at to_bit space) (range_from address count)

abbrev closed_error : Error
closed_error = modbus (record { class = client_closed_error; exception_code = none; block = none })

-- `connect`, which a mock connection completes at once.
unfoldable pub ensure_connected : Action MockModbusUnit (Unit {0})
ensure_connected m =
    if m.closed then (err closed_error, m) else (ok tt, record m { connected = true })

-- The first failure set for one of `count` addresses.
unfoldable pub first_failure : Dict Key Error → Space → ℕ → ℕ → Option Error
unfolding Dict.lookup
first_failure failures s address zero = none
first_failure failures s address (suc n) =
    let rest = first_failure failures s (address + 1) n in
    elim (Dict.lookup eq_key (s, address) failures) [ some e ↦ some e | none ↦ rest ]

abbrev pub raised : Option Error → Result (Unit {0})
raised none = ok tt
raised (some e) = err e

abbrev first_of_two : Option Error → Option Error → Option Error
first_of_two (some e) other = some e
first_of_two none other = other

unfoldable pub raise_if_write_fails : Space → ℕ → ℕ → Action MockModbusUnit (Unit {0})
unfolding first_failure
raise_if_write_fails s address count m =
    (raised (first_of_two m.request_failure (first_failure m.write_failures s address count)), m)

unfoldable pub raise_if_read_fails : Space → ℕ → ℕ → Action MockModbusUnit (Unit {0})
unfolding first_failure
raise_if_read_fails s address count m =
    (raised (first_of_two m.request_failure (first_failure m.read_failures s address count)), m)

unfoldable pub record_read : Space → ℕ → ℕ → Action MockModbusUnit (Unit {0})
record_read s address count m = (
  ok tt,
  record m {
    read_events =
        m.read_events ++ record { register_type = s; address = address; count = count } ∷ [];
  },
)

-- `_dispatch_read`
unfoldable pub dispatch_read : Space → ℕ → ℕ → Action MockModbusUnit (Unit {0})
unfolding ensure_connected record_read raise_if_read_fails
dispatch_read s address count = do
  ensure_connected
  record_read s address count
  raise_if_read_fails s address count

abbrev gets {ℓ} : {A : Type ℓ} → (MockModbusUnit → A) → MockModbusUnit → Result A × MockModbusUnit
gets f m = (ok (f m), m)

unfoldable pub read_holding_registers : ℕ → ℕ → Action MockModbusUnit (List ℕ)
unfolding dispatch_read
read_holding_registers a n = do
  dispatch_read holding a n
  gets (λ m. read_registers m.holding_store a n)

unfoldable pub read_input_registers : ℕ → ℕ → Action MockModbusUnit (List ℕ)
unfolding dispatch_read
read_input_registers a n = do dispatch_read input a n; gets (λ m. read_registers m.input_store a n)

unfoldable pub read_coils : ℕ → ℕ → Action MockModbusUnit (List ℕ)
unfolding dispatch_read
read_coils a n = do dispatch_read coil a n; gets (λ m. read_bits m.coil_store a n)

unfoldable pub read_discrete_inputs : ℕ → ℕ → Action MockModbusUnit (List ℕ)
unfolding dispatch_read
read_discrete_inputs a n = do dispatch_read discrete a n; gets (λ m. read_bits m.discrete_store a n)

-- `for offset, value in enumerate(values): store[address + offset] = value`
unfoldable pub put_values : ℕ → List ℕ → Store → Store
unfolding Dict.insert
put_values address [] store = store
put_values address (v ∷ vs) store =
    put_values (address + 1) vs (Dict.insert ◌==◌ address (one v) store)
