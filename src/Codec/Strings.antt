-- ===== src/Codec/Strings.antt =====
-- `encode_string` and `decode_string` of src/modbus_connection/encode.py and decode.py.
use modbus_connection.Prelude.{
  ℕ, zero, suc, ◌+◌, ◌-◌, ◌*◌, ◌/◌, ◌%◌, ◌≤◌, ◌<◌, ◌≡◌, refl, ap, ◌∙◌, List, [], ◌∷◌, ◌++◌, arith,
  length, length-append, take, replicate, All, All-append, All-mono,
}
use modbus_connection.Codec.{
  ascii_only, left_justify, words_of_bytes, encode_string, bytes_of_words, strip_nulls,
  before_stripped, decode_string,
}

abbrev pub IsAscii : ℕ → Type 0
IsAscii c = c < 128

ascii_only-IsAscii : (cs : List ℕ) → All IsAscii (ascii_only cs)
unfolding ascii_only
ascii_only-IsAscii [] = tt
ascii_only-IsAscii (c ∷ cs) = ground (arith, ascii_only-IsAscii cs)

ascii_only-id : (cs : List ℕ) → All IsAscii cs → ascii_only cs ≡ cs
unfolding ascii_only
ascii_only-id [] h = refl
ascii_only-id (c ∷ cs) h = ground (arith, ascii_only-id cs h.1)

All-take : (P : ℕ → Type 0) (n : ℕ) (cs : List ℕ) → All P cs → All P (take n cs)
All-take P zero cs h = tt
All-take P (suc n) [] h = tt
All-take P (suc n) (c ∷ cs) h = (h.0, All-take P n cs h.1)

length-take-le : (n : ℕ) (cs : List ℕ) → length (take n cs) ≤ n
length-take-le zero cs = omega arith
length-take-le (suc n) [] = omega arith
length-take-le (suc n) (c ∷ cs) = omega (arith, length-take-le n cs)

take_all : (n : ℕ) (cs : List ℕ) → length cs ≤ n → take n cs ≡ cs
take_all zero [] h = refl
take_all zero (c ∷ cs) h = absurd (omega arith)
take_all (suc n) [] h = refl
take_all (suc n) (c ∷ cs) h = ap (λ r. c ∷ r) (take_all n cs (omega arith))

All-replicate : (P : ℕ → Type 0) (n c : ℕ) → P c → All P (replicate n c)
All-replicate P zero c h = tt
All-replicate P (suc n) c h = (h, All-replicate P n c h)

length-replicate : (n c : ℕ) → length (replicate n c) ≡ n
length-replicate zero c = refl
length-replicate (suc n) c = ap suc (length-replicate n c)

-- An even number of bytes survives the packing into words.
pub bytes_of_words-words_of_bytes :
    (k : ℕ) (bs : List ℕ)
    → length bs ≡ k * 2
    → All (λ b. b < 256) bs
    → (bytes_of_words (words_of_bytes bs) ≡ bs) × (length (words_of_bytes bs) ≡ k)
unfolding bytes_of_words words_of_bytes
bytes_of_words-words_of_bytes k [] e h = (refl, omega arith)
bytes_of_words-words_of_bytes k (b ∷ []) e h = absurd (omega arith)
bytes_of_words-words_of_bytes zero (b ∷ c ∷ bs) e h = absurd (omega arith)
bytes_of_words-words_of_bytes (suc k) (b ∷ c ∷ bs) e h =
    let (same, len) = bytes_of_words-words_of_bytes k bs (omega arith) h.1.1 in
    let high : (b * 256 + c) % 65536 / 256 ≡ b = omega (arith, h.0, h.1.0) in
    let low : (b * 256 + c) % 256 ≡ c = omega (arith, h.1.0) in
    (rw (high, low, same) refl, ap suc len)

strip_nulls-zeros : (n : ℕ) → strip_nulls (replicate n 0) ≡ []
unfolding strip_nulls
strip_nulls-zeros zero = refl
strip_nulls-zeros (suc n) = rw (strip_nulls-zeros n) refl

strip_nulls-append : (cs : List ℕ) (n : ℕ) → strip_nulls (cs ++ replicate n 0) ≡ strip_nulls cs
unfolding strip_nulls
strip_nulls-append [] n = strip_nulls-zeros n
strip_nulls-append (c ∷ cs) n = ap (before_stripped c) (strip_nulls-append cs n)

-- A string of `count` registers comes back as its ASCII characters, cut at the registers' capacity
-- and without the nulls at its end; and it takes exactly `count` registers.
pub decode_string-encode_string :
    (value : List ℕ) (count : ℕ)
    → (decode_string (encode_string value count)
        ≡ strip_nulls (take (count * 2) (ascii_only value)))
      × (length (encode_string value count) ≡ count)
unfolding encode_string decode_string
decode_string-encode_string value count = (
  rw packed.0 (
      ap strip_nulls (ascii_only-id padded padded-IsAscii)
      ∙ strip_nulls-append chars (count * 2 - length chars)),
  packed.1,
)
  where
    chars : List ℕ
    chars = take (count * 2) (ascii_only value)

    padded : List ℕ
    padded = left_justify (count * 2) chars

    padded-IsAscii : All IsAscii padded
    padded-IsAscii =
        All-append IsAscii chars (replicate (count * 2 - length chars) 0)
          (All-take IsAscii (count * 2) (ascii_only value) (ascii_only-IsAscii value))
          (All-replicate IsAscii (count * 2 - length chars) 0 (omega arith))

    padded-length : length padded ≡ count * 2
    padded-length = omega (
      arith,
      length-append chars (replicate (count * 2 - length chars) 0),
      length-replicate (count * 2 - length chars) 0,
      length-take-le (count * 2) (ascii_only value),
    )

    packed :
        (bytes_of_words (words_of_bytes padded) ≡ padded) × (length (words_of_bytes padded) ≡ count)
    packed =
        bytes_of_words-words_of_bytes count padded padded-length
          (All-mono IsAscii (λ b. b < 256) (λ c h. omega arith) padded padded-IsAscii)

-- An ASCII string that fits the registers and does not end in a null is read back as written.
pub string_roundtrip :
    (value : List ℕ) (count : ℕ)
    → All IsAscii value
    → length value ≤ count * 2
    → strip_nulls value ≡ value
    → decode_string (encode_string value count) ≡ value
string_roundtrip value count ascii fit clean =
    (decode_string-encode_string value count).0
    ∙ ap strip_nulls
        (ap (take (count * 2)) (ascii_only-id value ascii) ∙ take_all (count * 2) value fit)
    ∙ clean
