-- ===== src/Examples/Units.antt =====
-- The theorems on the mock unit (src/modbus_connection/mock.py) at concrete inputs.
use modbus_connection.Prelude.{◌≡◌, refl, true, false, none, [], if◌then◌else◌, some, ◌∷◌}
use modbus_connection.Dict.{lookup}
use modbus_connection.Execution.Requests.{Serves}
use modbus_connection.Mock.{
  dispatch_read, MockModbusUnit, one, many, value_at, put_values, materialize,
}
use modbus_connection.Const.{holding}
use modbus_connection.Errors.{ok, err, value_error}
use modbus_connection.Mock.Failures.{fail_read, hits, fail_read-hits}
use modbus_connection.Mock.Writes.{mock_unit}
use modbus_connection.Mock.Stores.{shadowed_write}
use modbus_connection.Mock.Memory.{memory_of}
use modbus_connection.Mock.Access.{IsReady, mock-Serves}

abbrev closed_unit : MockModbusUnit
closed_unit = record {
  closed = true;
  connected = false;
  holding_store = (0, one 5) ∷ [];
  input_store = [];
  coil_store = [];
  discrete_store = [];
  write_failures = [];
  read_failures = [];
  request_failure = none;
  read_events = [];
  write_callbacks = [];
  write_log = [];
}

shadowed_write_example :
    value_at (λ v. v) (put_values 1 (9 ∷ []) ((1, one 5) ∷ (0, many (10 ∷ 11 ∷ [])) ∷ [])) 1 ≡ 11
unfolding materialize lookup
shadowed_write_example = shadowed_write (λ v. v) 1 5 9 11 ((0, many (10 ∷ 11 ∷ [])) ∷ []) refl

abbrev open_unit : MockModbusUnit
open_unit = record closed_unit { closed = false }

-- An open unit whose only register is 5 at address 0.
mock-Serves_example : Serves mock_unit (memory_of open_unit) (IsReady open_unit)
mock-Serves_example = mock-Serves open_unit

fail_read-hits_example :
    ((dispatch_read holding 0 4 (fail_read 2 (some value_error) holding open_unit)).0
      ≡ (if hits holding 0 4 holding 2 then err value_error else ok tt))
    × ((dispatch_read holding 0 4 (fail_read 2 (some value_error) holding open_unit)).1.read_events
        ≡ record { register_type = holding; address = 0; count = 4 } ∷ [])
fail_read-hits_example = fail_read-hits open_unit holding 2 value_error holding 0 4 refl refl refl
