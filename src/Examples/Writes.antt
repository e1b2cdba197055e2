-- ===== src/Examples/Writes.antt =====
-- The theorems on field writes (src/modbus_connection/model/_writing.py) at concrete inputs.
use modbus_connection.Prelude.{refl, false, none, [], ◌∷◌, ℤ}
use modbus_connection.Const.{big}
use modbus_connection.Codec.{encode_int}
use modbus_connection.Mock.{MockModbusUnit, one}
use modbus_connection.Mock.Access.{IsReady}
use modbus_connection.Writing.{RegisterField, writable, encoded}

abbrev relay : MockModbusUnit
relay = record {
  closed = false;
  connected = false;
  holding_store = (3, one 0xF0) ∷ [];
  input_store = [];
  coil_store = [];
  discrete_store = [];
  write_failures = [];
  read_failures = [];
  request_failure = none;
  read_events = [];
  write_callbacks = [];
  write_log = [];
}

relay-IsReady : IsReady relay relay
relay-IsReady = record {
  opened = refl;
  no_failure = refl;
  no_read_failure = refl;
  same_holding = refl;
  same_input = refl;
  same_coil = refl;
  same_discrete = refl;
}

abbrev setpoint : RegisterField ℤ
setpoint = record {
  access = writable;
  encoding = encoded (λ v exponent. encode_int v 2 big);
  has_scale = false;
  force_fc16 = false;
}
