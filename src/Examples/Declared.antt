-- ===== src/Examples/Declared.antt =====
-- The theorems on fields (src/modbus_connection/model/fields.py) and floats at concrete inputs. The
-- floats here are natural numbers.
use modbus_connection.Prelude.{
  ℕ, ◌+◌, ◌-◌, ◌*◌, ◌/◌, ◌%◌, ◌^◌, ◌<◌, ◌≡◌, refl, ◌⊎◌, inr, Bool, true, false, Option, none, some,
  List, [], ◌∷◌, ◌==◌, if◌then◌else◌, ℤ, pos, negsuc, arith,
}
use modbus_connection.Const.{big, little}
use modbus_connection.Errors.{Result, ok, err, value_error, overflow_error}
use modbus_connection.Codec.Widths.{Format, encode_float, decode_float}
use modbus_connection.Codec.Floats.{decode_float-encode_float}
use modbus_connection.Fields.{Floats, whole}
use modbus_connection.Fields.Numbers.{NumberField, mapping, scalar, decode_number, encode_number}
use modbus_connection.Fields.Kinds.Helpers.{Options, boolean_codes, register_at, int32}
use modbus_connection.Fields.Kinds.Wide.{signed32, declare, declare-roundtrip}
use modbus_connection.Fields.Packed.{PackedBitsField, merge_packed, decode_packed}
use modbus_connection.Fields.Packed.Merging.{TooWide, merge_packed_cases, merge_packed-Apart}
use modbus_connection.Writing.{writable}

abbrev from_int : ℤ → Result ℕ
from_int (pos n) = ok n
from_int (negsuc n) = err value_error

abbrev ten_to : ℤ → Option ℕ
ten_to (pos n) = some (10 ^ n)
ten_to (negsuc n) = none

abbrev counting : Floats
counting = record {
  Float = ℕ;
  one = 1;
  nought = 0;
  same = ◌==◌;
  times = ◌*◌;
  plus = ◌+◌;
  minus = ◌-◌;
  over = λ a b. if b == 0 then err value_error else ok (a / b);
  of_int = from_int;
  to_int = λ n. ok (pos n);
  round_to = λ x d. x;
  round_whole = λ n. ok (pos n);
  is_finite = λ x. true;
  is_nan = λ x. false;
  power_of_ten = ten_to;
  fixed = λ x. (b'0' + x % 10) ∷ b'.' ∷ b'0' ∷ [];
}

abbrev plain_options : Options ℕ
plain_options = record { stride = 0; access = writable; force_fc16 = false }

abbrev power_field : NumberField ℕ ℕ ℕ
power_field = record {
  register = register_at 7 2 plain_options;
  scaling = record {
    scale = 1;
    offset = 0;
    has_scale_register = false;
    exponent_range = none;
    decimals = 0;
  };
  nan = none;
  is_signed = true;
  convert = none;
  word_order = little;
}

power_field_declared : declare counting {C = ℕ} signed32 7 little plain_options ≡ ok power_field
unfolding int32
power_field_declared = refl

declare-roundtrip_example :
    (ws : List ℕ) × (encode_number counting power_field (whole (negsuc 4)) none ≡ ok ws)
    × (decode_number counting power_field ws none [] ≡ (ok (some (scalar (whole (negsuc 4)))), []))
declare-roundtrip_example =
    declare-roundtrip counting signed32 7 little plain_options power_field (negsuc 4) []
      (record { one_same = refl; nought_same = refl }) power_field_declared (omega arith)

-- A 0/1 register that holds a 2.
abbrev switch_field : NumberField ℕ Bool ℕ
switch_field = record {
  register = register_at 3 1 plain_options;
  scaling = record {
    scale = 1;
    offset = 0;
    has_scale_register = false;
    exponent_range = none;
    decimals = 0;
  };
  nan = some (pos 65535 ∷ []);
  is_signed = false;
  convert = some (mapping boolean_codes);
  word_order = big;
}

-- Bits 2 to 4, and bit 7 of the same register.
abbrev mode_bits : PackedBitsField ℕ
mode_bits = record { register = register_at 9 1 plain_options; start = 2; width = 3 }

abbrev alarm_bit : PackedBitsField ℕ
alarm_bit = record { register = register_at 9 1 plain_options; start = 7; width = 1 }

merge_packed_cases_example :
    ((raw : ℕ) × (word : ℕ) × (pos 5 ≡ pos raw)
      × (raw < 8)
      × (merge_packed mode_bits 0xFFE3 (pos 5) ≡ ok word)
      × (word < 65536)
      × (decode_packed mode_bits (word ∷ []) ≡ ok raw))
    ⊎ (TooWide 3 (pos 5) × (merge_packed mode_bits 0xFFE3 (pos 5) ≡ err value_error))
merge_packed_cases_example = merge_packed_cases mode_bits 0xFFE3 (pos 5) (omega arith) (omega arith)

mode_written : merge_packed mode_bits 0x80 (pos 5) ≡ ok 0x94
unfolding merge_packed
mode_written = refl

merge_packed-Apart_example :
    decode_packed alarm_bit (0x94 ∷ []) ≡ decode_packed alarm_bit (0x80 ∷ [])
merge_packed-Apart_example =
    merge_packed-Apart mode_bits alarm_bit 0x80 (pos 5) 0x94 (inr (omega arith)) mode_written

-- A format of four bytes for numbers below 256 only.
abbrev four_bytes : Format ℕ
four_bytes = record {
  pack = λ n. if n / 256 == 0 then ok (0 ∷ 0 ∷ 0 ∷ n ∷ []) else err overflow_error;
  unpack = last;
}
  where
    last : List ℕ → Result ℕ
    last (a ∷ b ∷ c ∷ d ∷ []) = ok d
    last _ = err value_error

decode_float-encode_float_example :
    (ws : List ℕ) × (encode_float four_bytes 77 little ≡ ok ws)
    × (decode_float four_bytes ws little ≡ ok 77)
decode_float-encode_float_example = decode_float-encode_float four_bytes 2 77 77 little (record {
  raw = 0 ∷ 0 ∷ 0 ∷ 77 ∷ [];
  packed = refl;
  wide = refl;
  bytes = (omega arith, (omega arith, (omega arith, (omega arith, tt))));
  unpacked = refl;
})
