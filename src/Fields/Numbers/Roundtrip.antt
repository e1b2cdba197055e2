-- ===== src/Fields/Numbers/Roundtrip.antt =====
-- Writing an unscaled number field of src/modbus_connection/model/fields.py and reading it back.
use modbus_connection.Prelude.{
  ℕ, suc, ◌*◌, ◌≡◌, refl, Bool, true, false, none, some, List, length, ap, ◌∙◌, ℤ,
}
use modbus_connection.Const.{WordOrder}
use modbus_connection.Errors.{ok}
use modbus_connection.Codec.{decode_int, combine_words}
use modbus_connection.Codec.Integers.{ReadBack, decode_int-encode_int}
use modbus_connection.Fields.{is_identity, Floats, Scaling, whole, factor, scale_value, unscale}
use modbus_connection.Fields.Numbers.{
  NumberField, scalar, decode_number, encode_number, folded, read_value,
}

-- Nothing is scaled, mapped or a sentinel.
pub record IsPlain (fl : Floats) {C V : Type 0} (field : NumberField fl.Float C V) : Type 0 where
  pub unscaled : field.scaling.scale ≡ fl.one
  pub unshifted : field.scaling.offset ≡ fl.nought
  pub no_register : field.scaling.has_scale_register ≡ false
  pub no_sentinel : field.nan ≡ none
  pub unmapped : field.convert ≡ none

-- `1.0 == 1.0` and `0.0 == 0.0`
pub record ComparesConstants (fl : Floats) : Type 0 where
  pub one_same : fl.same fl.one fl.one ≡ true
  pub nought_same : fl.same fl.nought fl.nought ≡ true

identity :
    (fl : Floats) (s : Scaling fl.Float)
    → ComparesConstants fl
    → s.scale ≡ fl.one
    → s.offset ≡ fl.nought
    → is_identity fl s s.scale ≡ true
identity fl s law a b = rw (a, b, law.one_same, law.nought_same) refl

module _ (fl : Floats) (s : Scaling fl.Float) (law : ComparesConstants fl)
    (unscaled : s.scale ≡ fl.one) (unshifted : s.offset ≡ fl.nought)
    (no_register : s.has_scale_register ≡ false) where
  plain_factor : factor fl s none ≡ ok s.scale
  unfolding factor
  plain_factor = rw no_register refl

  plain_unscale : (v : ℤ) → unscale fl s (whole v) s.scale ≡ ok v
  unfolding unscale
  plain_unscale v = rw (identity fl s law unscaled unshifted) refl

  plain_scale_value : (v : ℤ) → scale_value fl s (whole v) none ≡ ok (some (whole v))
  unfolding scale_value
  plain_scale_value v = rw (plain_factor, identity fl s law unscaled unshifted) refl

folded-decode_int :
    (sign : Bool) (ws : List ℕ) (order : WordOrder)
    → folded sign (combine_words ws order) (16 * length ws) ≡ decode_int ws sign order
unfolding decode_int
folded-decode_int true ws order = refl
folded-decode_int false ws order = refl

decode_number-read_value :
    (fl : Floats) {C V : Type 0} (field : NumberField fl.Float C V) (ws : List ℕ) (warned : List ℤ)
    → field.nan ≡ none
    → decode_number fl field ws none warned
      ≡ read_value fl field.convert field.scaling none warned
          (decode_int ws field.is_signed field.word_order)
unfolding decode_number
decode_number-read_value fl field ws warned e = rw e (
    ap (read_value fl field.convert field.scaling none warned)
      (folded-decode_int field.is_signed ws field.word_order))

-- A plain number field of n + 1 registers encodes every value that fits it, as a signed or an unsigned
-- field, in either word order, and decodes the words to the same value without a warning.
pub decode_number-encode_number :
    (fl : Floats) {C V : Type 0} (field : NumberField fl.Float C V) (n : ℕ) (v : ℤ)
    (warned : List ℤ)
    → ComparesConstants fl
    → IsPlain fl field
    → field.register.count ≡ suc n
    → ReadBack field.is_signed n v
    → (ws : List ℕ) × (encode_number fl field (whole v) none ≡ ok ws)
      × (decode_number fl field ws none warned ≡ (ok (some (scalar (whole v))), warned))
decode_number-encode_number fl field n v warned law plain wide fits =
    let (ws, encoded, decoded) = decode_int-encode_int v n field.word_order field.is_signed fits in
    (
      ws,
      unfold encode_number in
          rw
            (
              plain_factor fl field.scaling law plain.unscaled plain.unshifted plain.no_register,
              plain_unscale fl field.scaling law plain.unscaled plain.unshifted plain.no_register v,
              wide,
            )
            encoded,
      decode_number-read_value fl field ws warned plain.no_sentinel
          ∙ rw
              (
                plain.unmapped,
                decoded,
                plain_scale_value fl field.scaling law plain.unscaled plain.unshifted
                    plain.no_register v,
              )
              refl,
    )
