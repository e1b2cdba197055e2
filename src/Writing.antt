-- ===== src/Writing.antt =====
-- src/modbus_connection/model/_writing.py: writing a field. `V` is the type of values. A field is what a
-- write uses of it: who may write, and how the value becomes words, which each field class implements.
pub mod Guards
pub mod Stored
use modbus_connection.Prelude.{
  ℕ, Bool, true, false, Option, none, some, List, [], ◌∷◌, ℤ, if◌then◌else◌, ◌||◌,
}
use modbus_connection.Const.{Space, holding, big, space_eq}
use modbus_connection.Errors.{Result, ok, err, attribute_error, value_error, index_error, guard}
use modbus_connection.Codec.{decode_int}
use modbus_connection.Unit.{Action, ModbusUnit, ◌>>=◌, ◌>>◌, pure, lift}

-- `writable`: a flag, or a validator that returns what to write or raises.
pub data Writable (V : Type 0) : Type 0 where
  read_only : Writable V
  writable : Writable V
  validated : (V → Result V) → Writable V

-- `packed merge` for a `PackedBitsField`; every other field encodes its value.
pub data Encoding (V : Type 0) : Type 0 where
  packed : (ℕ → V → Result ℕ) → Encoding V
  encoded : (V → Option ℤ → Result (List ℕ)) → Encoding V

pub record RegisterField (V : Type 0) : Type 0 where
  pub access : Writable V
  pub encoding : Encoding V
  pub has_scale : Bool
  pub force_fc16 : Bool

-- `not field.writable`
abbrev pub may_write : {V : Type 0} → Writable V → Bool
may_write read_only = false
may_write writable = true
may_write (validated f) = true

-- `value = field.writable(value)` where it is callable.
abbrev pub vetted : {V : Type 0} → Writable V → V → Result V
vetted read_only value = ok value
vetted writable value = ok value
vetted (validated f) value = f value

-- `(word,) = words`
abbrev pub only_word : List ℕ → Result ℕ
only_word (w ∷ []) = ok w
only_word _ = err value_error

module _ {S : Type 0} (u : ModbusUnit S) where
  -- The exponent of the scale register, read where the field has one and its address is known.
  unfoldable pub read_exponent : Bool → Option ℕ → Action S (Option ℤ)
  unfolding decode_int
  read_exponent true (some address) = do
    words ← u.read_holding_registers address 1
    word ← lift (only_word words)
    exponent ← lift (decode_int (word ∷ []) true big)
    pure (some exponent)
  read_exponent true none = pure none
  read_exponent false scale_address = pure none

  -- `words[0]` raises `IndexError` where there is none.
  unfoldable pub write_words : Bool → ℕ → List ℕ → Action S (Unit {0})
  write_words force address [] st =
      if force then u.write_registers address [] st else (err index_error, st)
  write_words force address (w ∷ []) st =
      if force then u.write_registers address (w ∷ []) st else u.write_register address w st
  write_words force address (w ∷ x ∷ ws) st = u.write_registers address (w ∷ x ∷ ws) st

module _ {S V : Type 0} (u : ModbusUnit S) where
  unfoldable pub write_encoding :
      RegisterField V → Encoding V → ℕ → V → Option ℕ → Action S (Unit {0})
  unfolding read_exponent write_words
  write_encoding field (packed merge) address value scale_address = do
    words ← u.read_holding_registers address 1
    word ← lift (only_word words)
    merged_word ← lift (merge word value)
    u.write_register address merged_word
  write_encoding field (encoded encode) address value scale_address = do
    exponent ← read_exponent u field.has_scale scale_address
    words ← lift (encode value exponent)
    write_words u field.force_fc16 address words

  unfoldable pub write_register_field :
      RegisterField V → ℕ → Space → V → Option ℕ → Action S (Unit {0})
  unfolding write_encoding
  write_register_field field address space value scale_address = do
    lift (guard (may_write field.access) attribute_error)
    lift (guard (space_eq space holding) attribute_error)
    v ← lift (vetted field.access value)
    write_encoding field field.encoding address v scale_address

  -- `to_bool` is Python's `bool` of a value.
  unfoldable pub write_bit_field : (V → Bool) → Writable V → ℕ → V → Action S (Unit {0})
  write_bit_field to_bool access address value = do
    lift (guard (may_write access) attribute_error)
    v ← lift (vetted access value)
    u.write_coil address (to_bool v)
