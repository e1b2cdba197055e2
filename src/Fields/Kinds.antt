-- ===== src/Fields/Kinds.antt =====
-- The field classes' constructors and the helpers that declare a field, of
-- src/modbus_connection/model/fields.py. A helper's keyword arguments that every field has stand in
-- `Options`.
pub mod Helpers
pub mod Wide
use modbus_connection.Prelude.{
  ℕ, Bool, true, false, ◌&&◌, Option, none, some, List, ◌∷◌, ◌==◌, if◌then◌else◌, ℤ,
}
use modbus_connection.Const.{WordOrder}
use modbus_connection.Errors.{Result, ok, ◌>>=◌}
use modbus_connection.Codec.Widths.{Format, decode_float, encode_float}
use modbus_connection.Fields.{
  Register, make_register, Floats, Scaling, make_scaling, Scalar, real, scale_value, factor,
  as_float, is_identity,
}
use modbus_connection.Fields.Numbers.{
  NumberField, Sentinel, nan_values, Converter, chosen_converter,
}

-- The keyword arguments of `NumberField`.
pub record Arguments (F C V : Type 0) : Type 0 where
  pub register : Register V
  pub scale : F
  pub offset : F
  pub nan : Sentinel
  pub exponent_range : Option (ℤ × ℤ)
  pub is_signed : Bool
  pub convert : Option (Converter C)
  pub enum_type : Option (Converter C)
  pub word_order : WordOrder

abbrev pub has_some {ℓ} : {A : Type ℓ} → Option A → Bool
has_some none = false
has_some (some a) = true

pub record FloatField (F V : Type 0) : Type 0 where
  pub register : Register V
  pub scaling : Scaling F
  pub word_order : WordOrder

module _ (fl : Floats) where
  open fl use {Float}

  -- What is packed: `struct` packs an `int` as the float it converts to.
  abbrev pub unscaled_real : Scaling Float → Scalar Float → Float → Result Float
  unscaled_real s value f = do
    x ← as_float fl value
    if is_identity fl s f then ok x else fl.over (fl.minus x s.offset) f

module _ (fl : Floats) {V : Type 0} where
  open fl use {Float}

  -- `NumberField.__init__`
  unfoldable pub make_number : {C : Type 0} → Arguments Float C V → Result (NumberField Float C V)
  unfolding make_register make_scaling nan_values chosen_converter
  make_number a = do
    register ← make_register a.register
    scaling ← make_scaling fl a.scale a.offset (has_some a.register.scale_register) a.exponent_range
    converter ← chosen_converter a.convert a.enum_type
    ok (record {
      register = register;
      scaling = scaling;
      nan = nan_values a.nan;
      is_signed = a.is_signed;
      convert = converter;
      word_order = a.word_order;
    })

  -- `FloatField.__init__`
  unfoldable pub make_float : Register V → Float → Float → WordOrder → Result (FloatField Float V)
  unfolding make_register make_scaling
  make_float r scale offset order = do
    register ← make_register r
    scaling ← make_scaling fl scale offset (has_some r.scale_register) none
    ok (record { register = register; scaling = scaling; word_order = order })

  module _ (float32_format float64_format : Format Float) where
    -- `decode_float64 if self.count == 4 else decode_float32`
    abbrev pub format_of : FloatField Float V → Format Float
    format_of field = if field.register.count == 4 then float64_format else float32_format

    -- `FloatField.decode`
    unfoldable pub decode_real :
        FloatField Float V → List ℕ → Option ℤ → Result (Option (Scalar Float))
    unfolding decode_float scale_value
    decode_real field words exponent = do
      value ← decode_float (format_of field) words field.word_order
      if fl.is_nan value then ok none else scale_value fl field.scaling (real value) exponent

    -- `FloatField.encode`
    unfoldable pub encode_real : FloatField Float V → Scalar Float → Option ℤ → Result (List ℕ)
    unfolding encode_float factor
    encode_real field value exponent = do
      f ← factor fl field.scaling exponent
      x ← unscaled_real fl field.scaling value f
      encode_float (format_of field) x field.word_order
