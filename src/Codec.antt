-- ===== src/Codec.antt =====
-- src/modbus_connection/encode.py and decode.py: register words and the integers and strings in
-- them. `x >> 16 * k` is a division by a power of two, `x & 0xFFFF` the remainder by 2 ^ 16, and the
-- `|` of `combine_words`, whose operands share no bit, a sum. A string is the list of its code
-- points. Floating-point encodings are `struct`'s and are left out.
pub mod Words
pub mod Integers
pub mod Strings
pub mod Widths
pub mod Floats
use modbus_connection.Prelude.{
  ℕ, zero, suc, ◌+◌, ◌-◌, ◌*◌, ◌/◌, ◌%◌, ◌^◌, Bool, true, false, ◌&&◌, List, [], ◌∷◌, ◌++◌, map,
  reverse, ltb, leb, ◌==◌, if◌then◌else◌, length, take, replicate, range_from, ℤ, pos, negsuc,
  sub_ℕ,
}
use modbus_connection.Const.{WordOrder, big, little}
use modbus_connection.Errors.{Result, ok, err, value_error, overflow_error, ◌>>=◌, ◌>>◌, guard}

abbrev pub word_size : ℕ
word_size = 65536

-- `words if word_order == "big" else list(reversed(words))`
abbrev pub ordered : WordOrder → List ℕ → List ℕ
ordered big words = words
ordered little words = reverse words

-- `(raw >> (16 * k)) & 0xFFFF`
abbrev pub word_at : ℕ → ℕ → ℕ
word_at raw k = raw / 2 ^ (16 * k) % word_size

unfoldable pub split_words : ℕ → ℕ → WordOrder → List ℕ
split_words raw count order =
    ordered order (map (λ i. word_at raw (count - 1 - i)) (range_from 0 count))

-- The loop of `combine_words`.
unfoldable pub combine_from : ℕ → List ℕ → ℕ
combine_from raw [] = raw
combine_from raw (word ∷ words) = combine_from (raw * word_size + word % word_size) words

unfoldable pub combine_words : List ℕ → WordOrder → ℕ
unfolding combine_from
combine_words words order = combine_from 0 (ordered order words)

-- `-(1 << (bits - 1)) <= raw < (1 << bits)`
unfoldable pub fits : ℤ → ℕ → Bool
fits (pos n) bits = ltb n (2 ^ bits)
fits (negsuc n) bits = leb (suc n) (2 ^ (bits - 1))

-- `raw + (1 << bits) if raw < 0 else raw`, for a value that fits.
unfoldable pub to_unsigned : ℤ → ℕ → ℕ
to_unsigned (pos n) bits = n
to_unsigned (negsuc n) bits = 2 ^ bits - suc n

-- With no registers `1 << -1` raises `ValueError`.
unfoldable pub encode_int : ℤ → ℕ → WordOrder → Result (List ℕ)
unfolding fits to_unsigned split_words
encode_int value zero order = err value_error
encode_int value (suc n) order = do
  guard (fits value (16 * suc n)) overflow_error
  ok (split_words (to_unsigned value (16 * suc n)) (suc n) order)

-- `_signed`
unfoldable pub signed : ℕ → ℕ → Result ℤ
signed raw zero = err value_error
signed raw (suc b) = ok (if leb (2 ^ b) raw then sub_ℕ raw (2 ^ suc b) else pos raw)

unfoldable pub decode_int : List ℕ → Bool → WordOrder → Result ℤ
unfolding combine_words signed
decode_int words true order = signed (combine_words words order) (16 * length words)
decode_int words false order = ok (pos (combine_words words order))

unfoldable pub decode_int16 : List ℕ → Result ℤ
unfolding combine_words signed
decode_int16 words = signed (combine_words words big) 16

-- `errors="ignore"` drops what is not ASCII.
unfoldable pub ascii_only : List ℕ → List ℕ
ascii_only [] = []
ascii_only (c ∷ cs) = let rest = ascii_only cs in if ltb c 128 then c ∷ rest else rest

-- `raw.ljust(n, b"\x00")`
unfoldable pub left_justify : ℕ → List ℕ → List ℕ
left_justify n raw = raw ++ replicate (n - length raw) 0

-- `[int.from_bytes(raw[i : i + 2], "big") for i in range(0, len(raw), 2)]`
unfoldable pub words_of_bytes : List ℕ → List ℕ
words_of_bytes [] = []
words_of_bytes (b ∷ []) = b ∷ []
words_of_bytes (b ∷ c ∷ raw) = (b * 256 + c) ∷ words_of_bytes raw

unfoldable pub encode_string : List ℕ → ℕ → List ℕ
unfolding ascii_only left_justify words_of_bytes
encode_string value count =
    words_of_bytes (left_justify (count * 2) (take (count * 2) (ascii_only value)))

-- `b"".join((w & 0xFFFF).to_bytes(2, "big") for w in words)`
unfoldable pub bytes_of_words : List ℕ → List ℕ
bytes_of_words [] = []
bytes_of_words (w ∷ ws) = (w % word_size / 256) ∷ (w % 256) ∷ bytes_of_words ws

-- `rstrip("\x00")`: a null goes if nothing is left behind it.
abbrev before_stripped : ℕ → List ℕ → List ℕ
before_stripped c [] = if c == 0 then [] else c ∷ []
before_stripped c (d ∷ ds) = c ∷ d ∷ ds

unfoldable pub strip_nulls : List ℕ → List ℕ
strip_nulls [] = []
strip_nulls (c ∷ cs) = before_stripped c (strip_nulls cs)

unfoldable pub decode_string : List ℕ → List ℕ
unfolding ascii_only bytes_of_words strip_nulls
decode_string words = strip_nulls (ascii_only (bytes_of_words words))
