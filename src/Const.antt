-- ===== src/Const.antt =====
-- src/modbus_connection/model/_const.py and _types.py: address spaces, ranges and planning defaults.
use modbus_connection.Prelude.{ℕ, ◌≡◌, ◌↔◌, Bool, true, false, arith}

-- The four address spaces. A bit is stored as the number 0 or 1, as Python's `bool` is an `int`.
pub data Space : Type 0 where
  holding input coil discrete : Space

pub data WordOrder : Type 0 where
  big little : WordOrder

-- An inclusive (low, high) range of addresses.
abbrev pub Range : Type 0
Range = ℕ × ℕ

abbrev pub default_max_gap : ℕ
default_max_gap = 16

abbrev pub default_max_span : ℕ
default_max_span = 125

abbrev pub space_eq : Space → Space → Bool
space_eq holding holding = true
space_eq input input = true
space_eq coil coil = true
space_eq discrete discrete = true
space_eq _ _ = false

pub space_eq_iff : (a b : Space) → (space_eq a b ≡ true) ↔ (a ≡ b)
space_eq_iff a b = ground arith
