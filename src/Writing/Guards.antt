-- ===== src/Writing/Guards.antt =====
-- The guards of src/modbus_connection/model/_writing.py: when a write makes no request.
use modbus_connection.Prelude.{◌≡◌, ◌≢◌, ◌⊎◌}
use modbus_connection.Const.{Space, holding, space_eq}
use modbus_connection.Errors.{ok, attribute_error, guard}
use modbus_connection.Unit.{Action, ◌>>=◌, ◌>>◌, lift}
use modbus_connection.Writing.{Writable, read_only, vetted, may_write}

-- Nobody may write the field there.
abbrev pub Closed : {V : Type 0} → Writable V → Space → Type 0
Closed access space = (access ≡ read_only) ⊎ (space ≢ holding)

-- What the guards let through: the value to write, and the write of it.
abbrev pub Admitted : {V : Type 0} → Writable V → Space → V → V → Type 0
Admitted access space value v =
    (access ≢ read_only) × (space ≡ holding) × (vetted access value ≡ ok v)

-- The guards before any action `k` of the vetted value.
abbrev guarded_step :
    {S V : Type 0} → Writable V → Space → V → (V → Action S (Unit {0})) → Action S (Unit {0})
guarded_step access space value k = do
  lift (guard (may_write access) attribute_error)
  lift (guard (space_eq space holding) attribute_error)
  v ← lift (vetted access value)
  k v
