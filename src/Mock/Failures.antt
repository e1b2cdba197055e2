-- ===== src/Mock/Failures.antt =====
-- The failures that a test sets on a mock unit (src/modbus_connection/mock.py).
use modbus_connection.Prelude.{
  ℕ, zero, suc, ◌+◌, ◌≡◌, refl, Bool, true, false, ◌&&◌, Option, none, some, [], ◌∷◌, ◌++◌, arith,
  ltb, leb, if◌then◌else◌,
}
use modbus_connection.Const.{Space, space_eq}
use modbus_connection.Errors.{Result, ok, err, Error}
use modbus_connection.Dict
use modbus_connection.Dict.{Dict}
use modbus_connection.Mock.{MockModbusUnit, Key, eq_key, first_failure, dispatch_read, raised}

-- `None` takes the failure off.
unfoldable pub set_failure : Key → Option Error → Dict Key Error → Dict Key Error
unfolding Dict.insert Dict.remove
set_failure key none failures = Dict.remove eq_key key failures
set_failure key (some error) failures = Dict.insert eq_key key error failures

unfoldable pub fail_write : ℕ → Option Error → Space → MockModbusUnit → MockModbusUnit
unfolding set_failure
fail_write address error s m = record m {
  write_failures = set_failure (s, address) error m.write_failures;
}

unfoldable pub fail_read : ℕ → Option Error → Space → MockModbusUnit → MockModbusUnit
unfolding set_failure
fail_read address error s m = record m {
  read_failures = set_failure (s, address) error m.read_failures;
}

unfoldable pub fail_requests : Option Error → MockModbusUnit → MockModbusUnit
fail_requests error m = record m { request_failure = error }

-- The address is one of `count` from `start` on, in the same space.
abbrev pub hits : Space → ℕ → ℕ → Space → ℕ → Bool
hits s start count t address = space_eq s t && (leb start address && ltb address (start + count))

first_failure-single :
    (s : Space) (start count : ℕ) (t : Space) (a : ℕ) (e : Error)
    → first_failure (((t, a), e) ∷ []) s start count
      ≡ (if hits s start count t a then some e else none)
unfolding first_failure Dict.lookup
first_failure-single s start zero t a e = ground arith
first_failure-single s start (suc n) t a e =
    ground (arith, first_failure-single s (start + 1) n t a e)

-- On an open unit with no other failure, a read raises the error that was set for an address exactly
-- when it covers the address in its space, and goes through otherwise; either way the read was
-- recorded first.
pub fail_read-hits :
    (m : MockModbusUnit) (t : Space) (a : ℕ) (e : Error) (s : Space) (start count : ℕ)
    → m.closed ≡ false
    → m.request_failure ≡ none
    → m.read_failures ≡ []
    → ((dispatch_read s start count (fail_read a (some e) t m)).0
        ≡ (if hits s start count t a then err e else ok tt))
      × ((dispatch_read s start count (fail_read a (some e) t m)).1.read_events
          ≡ m.read_events ++ record { register_type = s; address = start; count = count } ∷ [])
unfolding dispatch_read fail_read
fail_read-hits m t a e s start count opened quiet none_set = (
  rw (opened, quiet, none_set, first_failure-single s start count t a e)
      (shown (hits s start count t a)),
  rw (opened) refl,
)
  where
    shown : (b : Bool) → raised (if b then some e else none) ≡ (if b then err e else ok tt)
    shown true = refl
    shown false = refl

-- A write of an open unit that raises and changes nothing but the connection.
abbrev pub Refused : {A : Type 0} → Error → Result A × MockModbusUnit → MockModbusUnit → Type 0
Refused e run m = run ≡ (err e, record m { connected = true })
