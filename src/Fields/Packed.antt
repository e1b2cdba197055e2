-- ===== src/Fields/Packed.antt =====
-- `PackedBitsField`, `PackedBitField` and the bit fields of src/modbus_connection/model/fields.py.
-- `word & ~mask` is what `word` has outside `mask`.
pub mod Words
pub mod Merging
use Prim.Native.Nat.{bit_and, bit_or}
use modbus_connection.Prelude.{
  ℕ, ◌+◌, ◌-◌, ◌*◌, ◌/◌, ◌^◌, Bool, true, false, not, none, ◌&&◌, ◌||◌, List, [], ◌∷◌, ltb, ◌==◌,
  if◌then◌else◌, ℤ, pos, negsuc,
}
use modbus_connection.Const.{Space}
use modbus_connection.Errors.{Result, ok, err, value_error, index_error, ◌>>=◌, ◌>>◌, guard}
use modbus_connection.Fields.{Register, make_register}
use modbus_connection.Writing.{Writable}

pub record PackedBitsField (V : Type 0) : Type 0 where
  pub register : Register V
  pub start : ℕ
  pub width : ℕ

-- `self.mask`
abbrev pub mask_of : ℕ → ℕ → ℕ
mask_of start width = (2 ^ width - 1) * 2 ^ start

-- `PackedBitsField.__init__`
unfoldable pub make_packed : {V : Type 0} → ℕ → ℕ → ℕ → Writable V → ℕ → Result (PackedBitsField V)
unfolding make_register
make_packed address start width access stride = do
  guard (not (ltb width 1 || ltb 16 (start + width))) value_error
  register ← make_register (record {
    address = address;
    count = 1;
    access = access;
    stride = stride;
    scale_register = none;
    scale_register_stride = 0;
    force_fc16 = false;
  })
  ok (record { register = register; start = start; width = width })

abbrev pub first_word : List ℕ → Result ℕ
first_word [] = err index_error
first_word (w ∷ ws) = ok w

abbrev pub is_set : ℕ → Bool
is_set raw = not (raw == 0)

abbrev pub bit_value : Bool → ℤ
bit_value true = pos 1
bit_value false = pos 0

module _ {V : Type 0} where
  unfoldable pub bits_of : PackedBitsField V → ℕ → ℕ
  bits_of f word = bit_and word (mask_of f.start f.width) / 2 ^ f.start

  -- `PackedBitsField.decode`
  unfoldable pub decode_packed : PackedBitsField V → List ℕ → Result ℕ
  unfolding bits_of
  decode_packed f words = do w ← first_word words; ok (bits_of f w)

  unfoldable pub put_bits : PackedBitsField V → ℕ → ℕ → ℕ
  put_bits f word raw = bit_or (word - bit_and word (mask_of f.start f.width)) (raw * 2 ^ f.start)

  -- `PackedBitsField.merge`, after `int(value)`
  unfoldable pub merge_packed : PackedBitsField V → ℕ → ℤ → Result ℕ
  unfolding put_bits
  merge_packed f word (negsuc n) = err value_error
  merge_packed f word (pos raw) = do
    guard (ltb raw (2 ^ f.width)) value_error
    ok (put_bits f word raw)

  -- `PackedBitField.decode` and `PackedBitField.merge`, after `bool(value)`
  unfoldable pub decode_packed_bit : PackedBitsField V → List ℕ → Result Bool
  unfolding decode_packed
  decode_packed_bit f words = do raw ← decode_packed f words; ok (is_set raw)

  unfoldable pub merge_packed_bit : PackedBitsField V → ℕ → Bool → Result ℕ
  unfolding merge_packed
  merge_packed_bit f word value = merge_packed f word (bit_value value)

-- `_BitField` and its two kinds: a coil, which may be written, and a discrete input.
pub record BitField (V : Type 0) : Type 0 where
  pub space : Space
  pub address : ℕ
  pub access : Writable V
  pub stride : ℕ

-- `_BitField.decode`
unfoldable pub decode_bit : List ℕ → Result Bool
decode_bit words = do w ← first_word words; ok (not (w == 0))
