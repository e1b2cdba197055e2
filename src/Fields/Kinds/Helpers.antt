-- ===== src/Fields/Kinds/Helpers.antt =====
-- The helpers of src/modbus_connection/model/fields.py that declare a field: `gauge` to `boolean`.
use modbus_connection.Prelude.{ℕ, Bool, true, false, Option, none, some, List, [], ◌∷◌, ℤ, pos}
use modbus_connection.Const.{WordOrder, big}
use modbus_connection.Errors.{Result}
use modbus_connection.Fields.{Register, make_register, Floats}
use modbus_connection.Fields.Numbers.{NumberField, Sentinel, absent, calling, mapping}
use modbus_connection.Fields.Packed.{PackedBitsField, make_packed}
use modbus_connection.Fields.Kinds.{Arguments, FloatField, make_number, make_float}
use modbus_connection.Writing.{Writable}

pub record Options (V : Type 0) : Type 0 where
  pub stride : ℕ
  pub access : Writable V
  pub force_fc16 : Bool

abbrev pub register_at : {V : Type 0} → ℕ → ℕ → Options V → Register V
register_at address count o = record {
  address = address;
  count = count;
  access = o.access;
  stride = o.stride;
  scale_register = none;
  scale_register_stride = 0;
  force_fc16 = o.force_fc16;
}

module _ {V : Type 0} where
  -- With a scale register and its stride.
  abbrev pub scaled_by : Option ℕ → ℕ → Register V → Register V
  scaled_by scale_register stride r = record r {
    scale_register = scale_register;
    scale_register_stride = stride;
  }

  -- `RawField` of one word and `StringField`: only the register is checked.
  unfoldable pub raw_register : ℕ → Options V → Result (Register V)
  unfolding make_register
  raw_register address o = make_register (register_at address 1 o)

  unfoldable pub string : ℕ → ℕ → Options V → Result (Register V)
  unfolding make_register
  string address length o = make_register (register_at address length o)

  unfoldable pub bit : ℕ → ℕ → Writable V → ℕ → Result (PackedBitsField V)
  unfolding make_packed
  bit address index access stride = make_packed address index 1 access stride

  unfoldable pub bits : ℕ → ℕ → ℕ → Writable V → ℕ → Result (PackedBitsField V)
  unfolding make_packed
  bits address start width access stride = make_packed address start width access stride

module _ (fl : Floats) {C V : Type 0} where
  open fl use {Float}

  -- A number field that neither scales nor converts.
  abbrev pub number_at : Register V → Arguments Float C V
  number_at r = record {
    register = r;
    scale = fl.one;
    offset = fl.nought;
    nan = absent;
    exponent_range = none;
    is_signed = true;
    convert = none;
    enum_type = none;
    word_order = big;
  }

  unfoldable pub gauge :
      ℕ
      → Float
      → Float
      → Bool
      → Sentinel
      → Option ℕ
      → ℕ
      → Options V
      → Result (NumberField Float C V)
  unfolding make_number
  gauge address scale offset is_signed nan scale_register scale_stride o =
      make_number fl
        (record (number_at (scaled_by scale_register scale_stride (register_at address 1 o))) {
          scale = scale;
          offset = offset;
          is_signed = is_signed;
          nan = nan;
        })

  unfoldable pub integer :
      ℕ → Float → Bool → Sentinel → Option ℕ → ℕ → Options V → Result (NumberField Float C V)
  unfolding make_number
  integer address offset is_signed nan scale_register scale_stride o =
      make_number fl
        (record (number_at (scaled_by scale_register scale_stride (register_at address 1 o))) {
          offset = offset;
          is_signed = is_signed;
          nan = nan;
        })

  -- Several registers in a word order.
  abbrev pub wide :
      Bool
      → ℕ
      → ℕ
      → Float
      → Float
      → Sentinel
      → WordOrder
      → Options V
      → Result (NumberField Float C V)
  wide is_signed count address scale offset nan order o =
      make_number fl (record (number_at (register_at address count o)) {
        scale = scale;
        offset = offset;
        nan = nan;
        is_signed = is_signed;
        word_order = order;
      })

  unfoldable pub uint32 :
      ℕ → Float → Float → Sentinel → WordOrder → Options V → Result (NumberField Float C V)
  unfolding make_number
  uint32 = wide false 2

  unfoldable pub int32 :
      ℕ → Float → Float → Sentinel → WordOrder → Options V → Result (NumberField Float C V)
  unfolding make_number
  int32 = wide true 2

  unfoldable pub uint64 :
      ℕ → Float → Float → Sentinel → WordOrder → Options V → Result (NumberField Float C V)
  unfolding make_number
  uint64 = wide false 4

  unfoldable pub int64 :
      ℕ → Float → Float → Sentinel → WordOrder → Options V → Result (NumberField Float C V)
  unfolding make_number
  int64 = wide true 4

  -- `enum` and `flags`: the type is called on the value.
  unfoldable pub enum :
      ℕ
      → (ℤ → Result C)
      → ℕ
      → Bool
      → WordOrder
      → Sentinel
      → Options V
      → Result (NumberField Float C V)
  unfolding make_number
  enum address enum_type count is_signed order nan o =
      make_number fl (record (number_at (register_at address count o)) {
        is_signed = is_signed;
        convert = some (calling enum_type);
        word_order = order;
        nan = nan;
      })

  unfoldable pub flags :
      ℕ
      → (ℤ → Result C)
      → ℕ
      → Bool
      → WordOrder
      → Sentinel
      → Options V
      → Result (NumberField Float C V)
  unfolding make_number
  flags address flag_type count is_signed order nan o =
      make_number fl (record (number_at (register_at address count o)) {
        is_signed = is_signed;
        convert = some (calling flag_type);
        word_order = order;
        nan = nan;
      })

abbrev pub boolean_codes : List (ℤ × Bool)
boolean_codes = (pos 0, false) ∷ (pos 1, true) ∷ []

module _ (fl : Floats) {V : Type 0} where
  open fl use {Float}

  unfoldable pub boolean : ℕ → Sentinel → Options V → Result (NumberField Float Bool V)
  unfolding make_number
  boolean address nan o = make_number fl (record (number_at fl (register_at address 1 o)) {
    is_signed = false;
    convert = some (mapping boolean_codes);
    nan = nan;
  })

  unfoldable pub float32 : ℕ → Float → Float → WordOrder → Options V → Result (FloatField Float V)
  unfolding make_float
  float32 address scale offset order o = make_float fl (register_at address 2 o) scale offset order

  unfoldable pub float64 : ℕ → Float → Float → WordOrder → Options V → Result (FloatField Float V)
  unfolding make_float
  float64 address scale offset order o = make_float fl (register_at address 4 o) scale offset order
