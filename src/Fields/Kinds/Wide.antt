-- ===== src/Fields/Kinds/Wide.antt =====
-- What the helpers `uint32`, `int32`, `uint64` and `int64` of src/modbus_connection/model/fields.py
-- declare, and what writing such a field and reading it back gives.
use modbus_connection.Prelude.{
  ℕ, suc, ◌≡◌, refl, sym, ap, ◌∙◌, Bool, true, false, not, ◌&&◌, none, some, List, ℤ,
}
use modbus_connection.Const.{WordOrder}
use modbus_connection.Errors.{Result, ok, guard, value_error, >>=-eq-ok, ok-injective}
use modbus_connection.Codec.Integers.{ReadBack}
use modbus_connection.Fields.{Register, make_register, Floats, make_scaling, max_decimals, whole}
use modbus_connection.Fields.Numbers.{
  NumberField, scalar, decode_number, encode_number, absent, nan_values, chosen_converter,
}
use modbus_connection.Fields.Numbers.Roundtrip.{
  IsPlain, ComparesConstants, decode_number-encode_number,
}
use modbus_connection.Fields.Kinds.{Arguments, make_number, has_some}
use modbus_connection.Fields.Kinds.Helpers.{
  Options, wide, number_at, register_at, uint32, uint64, int32, int64,
}
use modbus_connection.Writing.{may_write}

make_register-ok : {V : Type 0} (r s : Register V) → make_register r ≡ ok s → s ≡ r
unfolding make_register
make_register-ok r s e =
    let (u, checked, same) =
      >>=-eq-ok (guard (not (r.force_fc16 && not (may_write r.access))) value_error) (λ _. ok r)
        e in
    cc

-- What the arguments of a number field have become.
record Keeps (fl : Floats) {C V : Type 0} (a : Arguments fl.Float C V)
    (field : NumberField fl.Float C V) : Type 0 where
  pub register : field.register ≡ a.register
  pub scale : field.scaling.scale ≡ a.scale
  pub offset : field.scaling.offset ≡ a.offset
  pub has_register : field.scaling.has_scale_register ≡ has_some a.register.scale_register
  pub nan : field.nan ≡ nan_values a.nan
  pub is_signed : field.is_signed ≡ a.is_signed
  pub convert : ok field.convert ≡ chosen_converter a.convert a.enum_type

make_number-Keeps :
    (fl : Floats) {C V : Type 0} (a : Arguments fl.Float C V) (field : NumberField fl.Float C V)
    → make_number fl a ≡ ok field
    → Keeps fl a field
unfolding make_number make_scaling
make_number-Keeps fl {C} {V} a field e =
    let (r, checked, e1) = >>=-eq-ok (make_register a.register) _ e in
    let (s, made, e2) =
      >>=-eq-ok
        (make_scaling fl a.scale a.offset (has_some a.register.scale_register) a.exponent_range) _
        e1 in
    let (c, chosen, e3) = >>=-eq-ok (chosen_converter a.convert a.enum_type) _ e2 in
    let (d, measured, e4) = >>=-eq-ok (max_decimals fl a.scale a.offset) _ made in
    let p = ok-injective e3 in
    let q = ok-injective e4 in
    record {
      register = ap (λ f. f.register) (sym p) ∙ make_register-ok a.register r checked;
      scale = ap (λ f. f.scaling.scale) (sym p) ∙ ap (λ t. t.scale) (sym q);
      offset = ap (λ f. f.scaling.offset) (sym p) ∙ ap (λ t. t.offset) (sym q);
      has_register =
          ap (λ f. f.scaling.has_scale_register) (sym p) ∙ ap (λ t. t.has_scale_register) (sym q);
      nan = ap (λ f. f.nan) (sym p);
      is_signed = ap (λ f. f.is_signed) (sym p);
      convert = ap (λ (f : NumberField fl.Float C V). ok f.convert) (sym p) ∙ sym chosen;
    }

-- The four helpers.
pub data Helper : Type 0 where
  unsigned32 signed32 unsigned64 signed64 : Helper

abbrev pub declare :
    (fl : Floats) {C V : Type 0}
    → Helper
    → ℕ
    → WordOrder
    → Options V
    → Result (NumberField fl.Float C V)
declare fl unsigned32 address order o = uint32 fl address fl.one fl.nought absent order o
declare fl signed32 address order o = int32 fl address fl.one fl.nought absent order o
declare fl unsigned64 address order o = uint64 fl address fl.one fl.nought absent order o
declare fl signed64 address order o = int64 fl address fl.one fl.nought absent order o

abbrev pub reads_signed : Helper → Bool
reads_signed unsigned32 = false
reads_signed signed32 = true
reads_signed unsigned64 = false
reads_signed signed64 = true

-- One less than the registers.
abbrev pub registers_below : Helper → ℕ
registers_below unsigned32 = 1
registers_below signed32 = 1
registers_below unsigned64 = 3
registers_below signed64 = 3

module _ (fl : Floats) {C V : Type 0} (a : Arguments fl.Float C V)
    (field : NumberField fl.Float C V) (made : make_number fl a ≡ ok field) where
  kept : Keeps fl a field
  kept = make_number-Keeps fl a field made

  -- The arguments scale nothing, map nothing and name no sentinel.
  IsPlain-arguments :
      a.scale ≡ fl.one
      → a.offset ≡ fl.nought
      → a.register.scale_register ≡ none
      → a.nan ≡ absent
      → a.convert ≡ none
      → a.enum_type ≡ none
      → IsPlain fl field
  unfolding nan_values chosen_converter
  IsPlain-arguments unscaled unshifted no_register no_nan unmapped no_enum = record {
    unscaled = kept.scale ∙ unscaled;
    unshifted = kept.offset ∙ unshifted;
    no_register = kept.has_register ∙ ap has_some no_register;
    no_sentinel = kept.nan ∙ ap nan_values no_nan;
    unmapped = ok-injective (kept.convert ∙ rw (unmapped, no_enum) refl);
  }

-- What is declared over several registers.
module _ (fl : Floats) {C V : Type 0} (sign : Bool) (count address : ℕ) (order : WordOrder)
    (o : Options V) where
  abbrev arguments : Arguments fl.Float C V
  arguments = record (number_at fl (register_at address count o)) {
    scale = fl.one;
    offset = fl.nought;
    nan = absent;
    is_signed = sign;
    word_order = order;
  }

  wide_lem :
      (field : NumberField fl.Float C V)
      → wide fl sign count address fl.one fl.nought absent order o ≡ ok field
      → IsPlain fl field × (field.register.count ≡ count) × (field.is_signed ≡ sign)
  wide_lem field made =
      let k = kept fl arguments field made in
      (
        IsPlain-arguments fl arguments field made refl refl refl refl refl refl,
        ap (λ r. r.count) k.register,
        k.is_signed,
      )

declare_lem :
    (fl : Floats) {C V : Type 0} (helper : Helper) (address : ℕ) (order : WordOrder) (o : Options V)
    (field : NumberField fl.Float C V)
    → declare fl helper address order o ≡ ok field
    → IsPlain fl field
      × (field.register.count ≡ suc (registers_below helper))
      × (field.is_signed ≡ reads_signed helper)
unfolding uint32 int32 uint64 int64
declare_lem fl unsigned32 address order o = wide_lem fl false 2 address order o
declare_lem fl signed32 address order o = wide_lem fl true 2 address order o
declare_lem fl unsigned64 address order o = wide_lem fl false 4 address order o
declare_lem fl signed64 address order o = wide_lem fl true 4 address order o

-- A field that `uint32`, `int32`, `uint64` or `int64` declares without a scale, an offset or a sentinel,
-- at any address, in either word order and with any other options, encodes every value of its width, and
-- decodes the words to the same value without a warning.
pub declare-roundtrip :
    (fl : Floats) {C V : Type 0} (helper : Helper) (address : ℕ) (order : WordOrder) (o : Options V)
    (field : NumberField fl.Float C V) (v : ℤ) (warned : List ℤ)
    → ComparesConstants fl
    → declare fl helper address order o ≡ ok field
    → ReadBack (reads_signed helper) (registers_below helper) v
    → (ws : List ℕ) × (encode_number fl field (whole v) none ≡ ok ws)
      × (decode_number fl field ws none warned ≡ (ok (some (scalar (whole v))), warned))
declare-roundtrip fl helper address order o field v warned law made fits =
    let (plain, several, sign) = declare_lem fl helper address order o field made in
    decode_number-encode_number fl field (registers_below helper) v warned law plain several
      (rw sign fits)
