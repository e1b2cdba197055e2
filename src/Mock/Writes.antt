-- ===== src/Mock/Writes.antt =====
-- The writes of `MockModbusUnit` (src/modbus_connection/mock.py), and the unit as the model layer's
-- interface. A Python `~mask` is negative; `or_mask & ~and_mask` is what `or_mask` has outside
-- `and_mask`.
use Prim.Native.Nat.{bit_and, bit_or}
use modbus_connection.Prelude.{ℕ, ◌-◌, Bool, true, false, List, [], ◌∷◌, ◌++◌, map, length}
use modbus_connection.Const.{holding, coil}
use modbus_connection.Errors.{Result, ok, err}
use modbus_connection.Unit.{Action, ModbusUnit, ◌>>◌}
use modbus_connection.Mock.{
  MockModbusUnit, WriteEvent, value_at, ensure_connected, raise_if_write_fails, put_values,
  read_holding_registers, read_input_registers, read_coils, read_discrete_inputs,
}

abbrev pub bit_of : Bool → ℕ
bit_of true = 1
bit_of false = 0

-- The loop of `_fire_write`: a callback that raises ends it.
unfoldable pub run_callbacks :
    List (WriteEvent → Result (Unit {0})) → WriteEvent → Action MockModbusUnit (Unit {0})
run_callbacks [] event m = (ok tt, m)
run_callbacks (callback ∷ callbacks) event m =
    let told = record m { write_log = m.write_log ++ event ∷ [] } in
    let rest = run_callbacks callbacks event told in
    elim (callback event) [ ok _ ↦ rest | err e ↦ (err e, told) ]

-- `_fire_write`
unfoldable pub fire_write : WriteEvent → Action MockModbusUnit (Unit {0})
unfolding run_callbacks
fire_write event m = run_callbacks m.write_callbacks event m

-- The words are stored, and then the callbacks are told.
unfoldable pub store_holding : ℕ → List ℕ → ℕ → Action MockModbusUnit (Unit {0})
unfolding fire_write
store_holding address values code m =
    fire_write
      (record { register_type = holding; address = address; values = values; function_code = code })
      (record m { holding_store = put_values address values m.holding_store })

unfoldable pub store_coils : ℕ → List ℕ → ℕ → Action MockModbusUnit (Unit {0})
unfolding fire_write
store_coils address values code m =
    fire_write
      (record { register_type = coil; address = address; values = values; function_code = code })
      (record m { coil_store = put_values address values m.coil_store })

unfoldable pub write_register : ℕ → ℕ → Action MockModbusUnit (Unit {0})
unfolding ensure_connected raise_if_write_fails store_holding put_values
write_register address value = do
  ensure_connected
  raise_if_write_fails holding address 1
  store_holding address (value ∷ []) 0x06

unfoldable pub write_registers : ℕ → List ℕ → Action MockModbusUnit (Unit {0})
unfolding ensure_connected raise_if_write_fails store_holding put_values
write_registers address values = do
  ensure_connected
  raise_if_write_fails holding address (length values)
  store_holding address values 0x10

unfoldable pub write_coil : ℕ → Bool → Action MockModbusUnit (Unit {0})
unfolding ensure_connected raise_if_write_fails store_coils put_values
write_coil address value = do
  ensure_connected
  raise_if_write_fails coil address 1
  store_coils address (bit_of value ∷ []) 0x05

unfoldable pub write_coils : ℕ → List Bool → Action MockModbusUnit (Unit {0})
unfolding ensure_connected raise_if_write_fails store_coils put_values
write_coils address values = do
  ensure_connected
  raise_if_write_fails coil address (length values)
  store_coils address (map bit_of values) 0x0F

unfoldable pub masked : ℕ → ℕ → ℕ → ℕ
masked current and_mask or_mask =
    bit_or (bit_and current and_mask) (or_mask - bit_and or_mask and_mask)

unfoldable pub store_masked : ℕ → ℕ → ℕ → Action MockModbusUnit (Unit {0})
unfolding masked value_at store_holding
store_masked address and_mask or_mask m =
    store_holding address (masked (value_at (λ v. v) m.holding_store address) and_mask or_mask ∷ [])
      0x16 m

unfoldable pub mask_write_register : ℕ → ℕ → ℕ → Action MockModbusUnit (Unit {0})
unfolding ensure_connected raise_if_write_fails store_masked
mask_write_register address and_mask or_mask = do
  ensure_connected
  raise_if_write_fails holding address 1
  store_masked address and_mask or_mask

unfoldable pub read_write_registers : ℕ → ℕ → ℕ → List ℕ → Action MockModbusUnit (List ℕ)
unfolding write_registers read_holding_registers
read_write_registers read_address read_count write_address write_values = do
  write_registers write_address write_values
  read_holding_registers read_address read_count

abbrev pub mock_unit : ModbusUnit MockModbusUnit
mock_unit = record {
  read_holding_registers = read_holding_registers;
  read_input_registers = read_input_registers;
  read_coils = read_coils;
  read_discrete_inputs = read_discrete_inputs;
  write_register = write_register;
  write_registers = write_registers;
  write_coil = write_coil;
}
