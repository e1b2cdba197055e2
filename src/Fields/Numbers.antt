-- ===== src/Fields/Numbers.antt =====
-- `NumberField`, `RawField` and `StringField` of src/modbus_connection/model/fields.py. A field's state
-- is the raw values that it has warned about, newest first.
pub mod Warnings
pub mod Roundtrip
use modbus_connection.Prelude.{
  ℕ, ◌*◌, Bool, true, false, ◌||◌, ◌&&◌, Option, none, some, List, [], ◌∷◌, length, if◌then◌else◌,
  ℤ, pos,
}
use modbus_connection.Const.{WordOrder}
use modbus_connection.Errors.{Result, ok, err, value_error, ◌>>=◌, ◌>>◌}
use modbus_connection.Codec.{combine_words, signed, encode_int, encode_string}
use modbus_connection.Fields.{
  Register, Floats, Scaling, Scalar, whole, eq_int, factor, scale_value, unscale,
}

-- `nan`: absent, one raw value, or several.
pub data Sentinel : Type 0 where
  absent : Sentinel
  one : ℤ → Sentinel
  several : List ℤ → Sentinel

abbrev or_absent : List ℤ → Option (List ℤ)
or_absent [] = none
or_absent (v ∷ vs) = some (v ∷ vs)

-- `_nan_values`
unfoldable pub nan_values : Sentinel → Option (List ℤ)
nan_values absent = none
nan_values (one v) = some (v ∷ [])
nan_values (several vs) = or_absent vs

unfoldable pub contains_int : ℤ → List ℤ → Bool
contains_int v [] = false
contains_int v (w ∷ ws) = eq_int v w || contains_int v ws

-- A callable, which may raise, or a mapping.
pub data Converter (C : Type 0) : Type 0 where
  calling : (ℤ → Result C) → Converter C
  mapping : List (ℤ × C) → Converter C

unfoldable pub look_up : {C : Type 0} → ℤ → List (ℤ × C) → Option C
look_up v [] = none
look_up v ((w, c) ∷ m) = if eq_int v w then some c else look_up v m

-- What a number field decodes to where it is not `None`.
pub data Decoded (F C : Type 0) : Type 0 where
  scalar : Scalar F → Decoded F C
  converted : C → Decoded F C

pub record NumberField (F C V : Type 0) : Type 0 where
  pub register : Register V
  pub scaling : Scaling F
  pub nan : Option (List ℤ)
  pub is_signed : Bool
  pub convert : Option (Converter C)
  pub word_order : WordOrder

-- An enum class is a converter; it and `convert` are not both given.
unfoldable pub chosen_converter :
    {C : Type 0} → Option (Converter C) → Option (Converter C) → Result (Option (Converter C))
chosen_converter convert none = ok convert
chosen_converter none (some enum_type) = ok (some enum_type)
chosen_converter (some convert) (some enum_type) = err value_error

-- A warning is logged where the value is new.
unfoldable pub warn_unknown : ℤ → List ℤ → List ℤ
unfolding contains_int
warn_unknown raw warned = if contains_int raw warned then warned else raw ∷ warned

module _ {C : Type 0} where
  -- What the converter makes of the value: `none` for a missing key or a `ValueError`.
  unfoldable pub apply_converter : Converter C → ℤ → Result (Option C)
  unfolding look_up
  apply_converter (mapping m) raw = ok (look_up raw m)
  apply_converter (calling f) raw = elim (f raw) [
    | ok c ↦ ok (some c)
    | err value_error ↦ ok none
    | err e ↦ err e
  ]

  abbrev pub noted :
      {F : Type 0} → ℤ → List ℤ → Result (Option C) → Result (Option (Decoded F C)) × List ℤ
  noted raw warned (ok (some c)) = (ok (some (converted c)), warned)
  noted raw warned (ok none) = (ok none, warn_unknown raw warned)
  noted raw warned (err e) = (err e, warned)

  -- `_convert`
  unfoldable pub convert_value :
      {F : Type 0} → Converter C → ℤ → List ℤ → Result (Option (Decoded F C)) × List ℤ
  unfolding apply_converter warn_unknown
  convert_value c raw warned = noted raw warned (apply_converter c raw)

abbrev pub is_sentinel : Option (List ℤ) → ℕ → Bool
is_sentinel none raw = false
is_sentinel (some vs) raw = contains_int (pos raw) vs

abbrev pub folded : Bool → ℕ → ℕ → Result ℤ
folded true raw bits = signed raw bits
folded false raw bits = ok (pos raw)

module _ (fl : Floats) {C : Type 0} where
  open fl use {Float}

  abbrev pub as_decoded : Result (Option (Scalar Float)) → Result (Option (Decoded Float C))
  as_decoded (ok none) = ok none
  as_decoded (ok (some v)) = ok (some (scalar v))
  as_decoded (err e) = err e

  abbrev pub read_value :
      Option (Converter C)
      → Scaling Float
      → Option ℤ
      → List ℤ
      → Result ℤ
      → Result (Option (Decoded Float C)) × List ℤ
  read_value convert scaling exponent warned (err e) = (err e, warned)
  read_value none scaling exponent warned (ok v) =
      (as_decoded (scale_value fl scaling (whole v) exponent), warned)
  read_value (some c) scaling exponent warned (ok v) = convert_value c v warned

  -- `NumberField.decode`
  unfoldable pub decode_number :
      {V : Type 0}
      → NumberField Float C V
      → List ℕ
      → Option ℤ
      → List ℤ
      → Result (Option (Decoded Float C)) × List ℤ
  unfolding combine_words signed scale_value convert_value contains_int
  decode_number field words exponent warned =
      let raw = combine_words words field.word_order in
      if is_sentinel field.nan raw
      then (ok none, warned)
      else read_value field.convert field.scaling exponent warned
          (folded field.is_signed raw (16 * length words))

  -- `NumberField.encode`
  unfoldable pub encode_number :
      {V : Type 0} → NumberField Float C V → Scalar Float → Option ℤ → Result (List ℕ)
  unfolding factor unscale encode_int
  encode_number field value exponent = do
    f ← factor fl field.scaling exponent
    raw ← unscale fl field.scaling value f
    encode_int raw field.register.count field.word_order

-- `RawField` and `StringField`, after `int(value)` and `str(value)`.
unfoldable pub decode_raw : WordOrder → List ℕ → Result ℕ
unfolding combine_words
decode_raw order words = ok (combine_words words order)

unfoldable pub encode_raw : {V : Type 0} → Register V → WordOrder → ℤ → Result (List ℕ)
unfolding encode_int
encode_raw register order value = encode_int value register.count order

unfoldable pub encode_text : {V : Type 0} → Register V → List ℕ → List ℕ
unfolding encode_string
encode_text register value = encode_string value register.count
