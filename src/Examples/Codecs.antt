-- ===== src/Examples/Codecs.antt =====
-- The theorems on codecs and exceptions (src/modbus_connection/model/codec.py and
-- src/modbus_connection/exceptions.py) at concrete inputs.
use modbus_connection.Prelude.{
  ℕ, ◌≡◌, ◌↔◌, ◌⊎◌, true, none, some, List, [], ◌∷◌, arith, All, negsuc, length, take,
}
use modbus_connection.Const.{big, little}
use modbus_connection.Errors.{
  ok, err, overflow_error, from_code, coded, illegal_data_address, code_value,
}
use modbus_connection.Errors.Coded.{from_code-class_iff}
use modbus_connection.Codec.{
  split_words, encode_int, decode_int, encode_string, decode_string, strip_nulls, ascii_only,
}
use modbus_connection.Codec.Words.{IsWord, split_words-IsWord}
use modbus_connection.Codec.Integers.{Encodable, encode_int_cases, decode_int-encode_int}
use modbus_connection.Codec.Strings.{decode_string-encode_string}

split_words-IsWord_example :
    (length (split_words 0x12345678 2 little) ≡ 2) × All IsWord (split_words 0x12345678 2 little)
split_words-IsWord_example = split_words-IsWord 0x12345678 2 little

encode_int_cases_example :
    (Encodable 1 (negsuc 4)
      × ((ws : List ℕ) × (encode_int (negsuc 4) 2 big ≡ ok ws) × (length ws ≡ 2) × All IsWord ws))
    ⊎ (¬ Encodable 1 (negsuc 4) × (encode_int (negsuc 4) 2 big ≡ err overflow_error))
encode_int_cases_example = encode_int_cases (negsuc 4) 1 big

decode_int-encode_int_example :
    (ws : List ℕ) × (encode_int (negsuc 4) 2 little ≡ ok ws)
    × (decode_int ws true little ≡ ok (negsuc 4))
decode_int-encode_int_example = decode_int-encode_int (negsuc 4) 1 little true (omega arith)

decode_string-encode_string_example :
    (decode_string (encode_string (72 ∷ 233 ∷ 105 ∷ 0 ∷ []) 2)
      ≡ strip_nulls (take 4 (ascii_only (72 ∷ 233 ∷ 105 ∷ 0 ∷ []))))
    × (length (encode_string (72 ∷ 233 ∷ 105 ∷ 0 ∷ []) 2) ≡ 2)
decode_string-encode_string_example = decode_string-encode_string (72 ∷ 233 ∷ 105 ∷ 0 ∷ []) 2

from_code-class_iff_example :
    ((from_code (some 2) none).class ≡ coded illegal_data_address)
    ↔ (2 ≡ code_value illegal_data_address)
from_code-class_iff_example = from_code-class_iff 2 none illegal_data_address
