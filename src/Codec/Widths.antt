-- ===== src/Codec/Widths.antt =====
-- The fixed widths of src/modbus_connection/encode.py and decode.py, floats and hardware addresses.
-- `struct` packs a float into its bytes, the highest first, and unpacks it.
use modbus_connection.Prelude.{
  ℕ, ◌+◌, ◌/◌, ◌%◌, ◌^◌, List, [], ◌∷◌, ◌++◌, ltb, if◌then◌else◌, ℤ, map, range_from, ◌-◌,
}
use modbus_connection.Const.{WordOrder, big}
use modbus_connection.Errors.{Result, ok, ◌>>=◌}
use modbus_connection.Codec.{
  ordered, combine_words, signed, encode_int, words_of_bytes, bytes_of_words,
}

-- One register, two and four.
unfoldable pub decode_uint16 : List ℕ → ℕ
unfolding combine_words
decode_uint16 words = combine_words words big

unfoldable pub decode_uint32 : List ℕ → WordOrder → ℕ
unfolding combine_words
decode_uint32 words order = combine_words words order

unfoldable pub decode_int32 : List ℕ → WordOrder → Result ℤ
unfolding combine_words signed
decode_int32 words order = signed (combine_words words order) 32

unfoldable pub decode_uint64 : List ℕ → WordOrder → ℕ
unfolding combine_words
decode_uint64 words order = combine_words words order

unfoldable pub decode_int64 : List ℕ → WordOrder → Result ℤ
unfolding combine_words signed
decode_int64 words order = signed (combine_words words order) 64

unfoldable pub encode_uint16 : ℤ → Result (List ℕ)
unfolding encode_int
encode_uint16 value = encode_int value 1 big

unfoldable pub encode_int16 : ℤ → Result (List ℕ)
unfolding encode_int
encode_int16 value = encode_int value 1 big

unfoldable pub encode_uint32 : ℤ → WordOrder → Result (List ℕ)
unfolding encode_int
encode_uint32 value order = encode_int value 2 order

unfoldable pub encode_int32 : ℤ → WordOrder → Result (List ℕ)
unfolding encode_int
encode_int32 value order = encode_int value 2 order

unfoldable pub encode_uint64 : ℤ → WordOrder → Result (List ℕ)
unfolding encode_int
encode_uint64 value order = encode_int value 4 order

unfoldable pub encode_int64 : ℤ → WordOrder → Result (List ℕ)
unfolding encode_int
encode_int64 value order = encode_int value 4 order

-- `struct.pack` and `struct.unpack` of one format.
pub record Format (F : Type 0) : Type 0 where
  pub pack : F → Result (List ℕ)
  pub unpack : List ℕ → Result F

module _ {F : Type 0} (format : Format F) where
  -- `decode_float32` and `decode_float64`
  unfoldable pub decode_float : List ℕ → WordOrder → Result F
  unfolding bytes_of_words
  decode_float words order = format.unpack (bytes_of_words (ordered order words))

  -- `encode_float32` and `encode_float64`
  unfoldable pub encode_float : F → WordOrder → Result (List ℕ)
  unfolding words_of_bytes
  encode_float value order = do raw ← format.pack value; ok (ordered order (words_of_bytes raw))

-- The digits of `f"{b:02x}"`.
abbrev hex_digit : ℕ → ℕ
hex_digit n = if ltb n 10 then b'0' + n else b'a' + (n - 10)

abbrev hex_byte : ℕ → List ℕ
hex_byte b = hex_digit (b / 16) ∷ hex_digit (b % 16) ∷ []

-- `":".join(...)`
unfoldable pub join_bytes : List ℕ → List ℕ
join_bytes [] = []
join_bytes (b ∷ []) = hex_byte b
join_bytes (b ∷ c ∷ bs) = hex_byte b ++ b':' ∷ join_bytes (c ∷ bs)

-- The six bytes of a number below 2 ** 48, the highest first.
abbrev octets : ℕ → List ℕ
octets raw = map (λ i. raw / 256 ^ (5 - i) % 256) (range_from 0 6)

unfoldable pub decode_eui48 : List ℕ → List ℕ
unfolding combine_words join_bytes
decode_eui48 words = join_bytes (octets (combine_words words big % 2 ^ 48))
