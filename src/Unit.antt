-- ===== src/Unit.antt =====
-- src/modbus_connection/_protocol.py: what the model layer asks of a unit. A unit acts on a state,
-- the device and the link behind it; each backend implements the interface. The function codes that
-- the model layer does not use, the timing requirements and the connection callbacks are left out.
use modbus_connection.Prelude.{ℕ, Bool, List}
use modbus_connection.Const.{Space, holding, input, coil, discrete}
use modbus_connection.Errors.{Result, ok, err, Error}

-- A coroutine that acts on a state and returns or raises. What it did before it raised stays done.
abbrev pub Action {ℓ} : Type ℓ → Type ℓ → Type ℓ
Action S A = S → Result A × S

pub record ModbusUnit (S : Type 0) : Type 0 where
  pub read_holding_registers : ℕ → ℕ → Action S (List ℕ)
  pub read_input_registers : ℕ → ℕ → Action S (List ℕ)
  pub read_coils : ℕ → ℕ → Action S (List ℕ)
  pub read_discrete_inputs : ℕ → ℕ → Action S (List ℕ)
  pub write_register : ℕ → ℕ → Action S (Unit {0})
  pub write_registers : ℕ → List ℕ → Action S (Unit {0})
  pub write_coil : ℕ → Bool → Action S (Unit {0})

abbrev pub after {ℓ} : {S A B : Type ℓ} → Result A → (A → Action S B) → Action S B
after (ok a) f s = f a s
after (err e) f s = (err e, s)

infixl 5 ◌>>=◌ ◌>>◌
abbrev pub ◌>>=◌ {ℓ} : {S A B : Type ℓ} → Action S A → (A → Action S B) → Action S B
◌>>=◌ m f s = after (m s).0 f (m s).1

abbrev pub ◌>>◌ : {S B : Type 0} → Action S (Unit {0}) → Action S B → Action S B
m >> k = m >>= λ _. k

abbrev pub pure {ℓ} : {S A : Type ℓ} → A → Action S A
pure a s = (ok a, s)

abbrev pub raise {ℓ} : {S A : Type ℓ} → Error → Action S A
raise e s = (err e, s)

abbrev pub lift {ℓ} : {S A : Type ℓ} → Result A → Action S A
lift r s = (r, s)

-- `_reader` of src/modbus_connection/model/_planning.py
unfoldable pub reader : {S : Type 0} → ModbusUnit S → Space → ℕ → ℕ → Action S (List ℕ)
reader u holding = u.read_holding_registers
reader u input = u.read_input_registers
reader u coil = u.read_coils
reader u discrete = u.read_discrete_inputs
