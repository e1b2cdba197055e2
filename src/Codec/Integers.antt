-- ===== src/Codec/Integers.antt =====
-- `encode_int` and `decode_int` of src/modbus_connection/encode.py and decode.py.
use native.Mathlib.Nat.{pow-suc, one-le-pow, div-lt_iff_lt-mul}
use modbus_connection.Prelude.{
  ◌⊎◌, inl, inr, ℕ, suc, ◌+◌, ◌-◌, ◌*◌, ◌^◌, ◌≤◌, ◌<◌, ◌≡◌, ◌↔◌, refl, ap, ◌∙◌, Bool, true, false,
  List, ◌∷◌, arith, length, All, leb, Bool-cases, ℤ, pos, negsuc,
}
use modbus_connection.Const.{WordOrder}
use modbus_connection.Errors.{ok, err, overflow_error}
use modbus_connection.Codec.{
  ordered, split_words, combine_from, combine_words, fits, to_unsigned, encode_int, signed,
  decode_int,
}
use modbus_connection.Codec.Words.{
  IsWord, combine_words-split_words, split_words-combine_words, split_words-IsWord,
  combine_from-div, length-ordered,
}

two_pow_pos : (n : ℕ) → 0 < 2 ^ n
two_pow_pos n = one-le-pow n 2 (omega arith)

pub combine_words-lt :
    (ws : List ℕ) (order : WordOrder) → combine_words ws order < 2 ^ (16 * length ws)
unfolding combine_words
combine_words-lt ws order = rw (← length-ordered order ws) (
    omega (
      arith,
      (div-lt_iff_lt-mul {x = combine_from 0 (ordered order ws)} {y = 1}
            (two_pow_pos (16 * length (ordered order ws)))).0
          (omega (arith, combine_from-div 0 (ordered order ws))),
    ))

-- The bits of n + 1 registers but the top one.
abbrev low : ℕ → ℕ
low n = 16 * n + 15

bits_suc : (n : ℕ) → 16 * suc n ≡ suc (low n)
bits_suc n = omega arith

bits_pow : (n : ℕ) → 2 ^ suc (low n) ≡ 2 ^ low n * 2
bits_pow n = pow-suc 2 (low n)

-- What n + 1 registers hold: a value of either sign.
abbrev pub Encodable : ℕ → ℤ → Type 0
Encodable n (pos v) = v < 2 ^ (16 * suc n)
Encodable n (negsuc v) = suc v ≤ 2 ^ (16 * suc n - 1)

-- What they hold when the top bit is the sign.
abbrev pub SignedRange : ℕ → ℤ → Type 0
SignedRange n (pos v) = v < 2 ^ (16 * suc n - 1)
SignedRange n (negsuc v) = suc v ≤ 2 ^ (16 * suc n - 1)

fits_iff : (v : ℤ) (n : ℕ) → (fits v (16 * suc n) ≡ true) ↔ Encodable n v
unfolding fits
fits_iff (pos v) n = ground arith
fits_iff (negsuc v) n = ground arith

to_unsigned-lt : (v : ℤ) (n : ℕ) → Encodable n v → to_unsigned v (16 * suc n) < 2 ^ (16 * suc n)
unfolding to_unsigned
to_unsigned-lt (pos v) n h = h
to_unsigned-lt (negsuc v) n h = omega (arith, two_pow_pos (16 * suc n))

encode_int-ok :
    (v : ℤ) (n : ℕ) (order : WordOrder)
    → Encodable n v
    → encode_int v (suc n) order ≡ ok (split_words (to_unsigned v (16 * suc n)) (suc n) order)
unfolding encode_int
encode_int-ok v n order h = rw ((fits_iff v n).1 h) refl

-- A value is encoded, into n + 1 words of 16 bits, exactly when it is in range; otherwise
-- `OverflowError` is raised.
pub encode_int_cases :
    (v : ℤ) (n : ℕ) (order : WordOrder)
    → (Encodable n v
        × ((ws : List ℕ) × (encode_int v (suc n) order ≡ ok ws)
            × (length ws ≡ suc n)
            × All IsWord ws))
      ⊎ (¬ Encodable n v × (encode_int v (suc n) order ≡ err overflow_error))
encode_int_cases v n order = elim (Bool-cases (fits v (16 * suc n))) [
  | inl e ↦
      let h = (fits_iff v n).0 e in
      let (len, words) = split_words-IsWord (to_unsigned v (16 * suc n)) (suc n) order in
      inl (
        h,
        (
          split_words (to_unsigned v (16 * suc n)) (suc n) order,
          encode_int-ok v n order h,
          len,
          words,
        ),
      )
  | inr e ↦
      inr
        ((λ h. let k = (fits_iff v n).1 h in ground (arith, e, k)), unfold encode_int in rw e refl)
]

-- `Bits b v`: v in two's complement over suc b bits.
abbrev Bits : ℕ → ℤ → Type 0
Bits b (pos v) = v < 2 ^ b
Bits b (negsuc v) = suc v ≤ 2 ^ b

signed-to_unsigned : (v : ℤ) (b : ℕ) → Bits b v → signed (to_unsigned v (suc b)) (suc b) ≡ ok v
unfolding signed to_unsigned
signed-to_unsigned (pos v) b h = ground arith
signed-to_unsigned (negsuc v) b h = ground (arith, pow-suc 2 b)

to_unsigned-signed :
    (raw b : ℕ)
    → raw < 2 ^ suc b
    → (v : ℤ) × (signed raw (suc b) ≡ ok v) × Bits b v × (to_unsigned v (suc b) ≡ raw)
unfolding signed to_unsigned
to_unsigned-signed raw b h = elim (Bool-cases (leb (2 ^ b) raw)) [
  | inl e ↦ (
    negsuc (2 ^ suc b - raw - 1),
    ground (arith, pow-suc 2 b),
    ground (arith, pow-suc 2 b),
    ground (arith, pow-suc 2 b),
  )
  | inr e ↦ (pos raw, ground arith, ground arith, refl)
]

Encodable-of_signed : (v : ℤ) (n : ℕ) → SignedRange n v → Encodable n v
Encodable-of_signed (pos v) n h =
    let low_bits : 16 * suc n - 1 ≡ low n = omega arith in
    rw (bits_suc n, bits_pow n) (omega (arith, rw low_bits at h, two_pow_pos (low n)))
Encodable-of_signed (negsuc v) n h = h

Bits-of_signed : (v : ℤ) (n : ℕ) → SignedRange n v → Bits (low n) v
Bits-of_signed (pos v) n h = let e : 16 * suc n - 1 ≡ low n = omega arith in rw e at h
Bits-of_signed (negsuc v) n h = let e : 16 * suc n - 1 ≡ low n = omega arith in rw e at h

SignedRange-of_Bits : (v : ℤ) (n : ℕ) → Bits (low n) v → SignedRange n v
SignedRange-of_Bits (pos v) n h = let e : 16 * suc n - 1 ≡ low n = omega arith in rw e h
SignedRange-of_Bits (negsuc v) n h = let e : 16 * suc n - 1 ≡ low n = omega arith in rw e h

-- What is read back, for a signed and for an unsigned read.
abbrev pub ReadBack : Bool → ℕ → ℤ → Type 0
ReadBack true n v = SignedRange n v
ReadBack false n (pos u) = Encodable n (pos u)
ReadBack false n (negsuc u) = ⊥

ReadBack-Encodable : (sign : Bool) (n : ℕ) (v : ℤ) → ReadBack sign n v → Encodable n v
ReadBack-Encodable true n (pos v) h =
    let e : 16 * suc n ≡ suc (16 * suc n - 1) = omega arith in
    rw e (omega (arith, pow-suc 2 (16 * suc n - 1), h))
ReadBack-Encodable true n (negsuc v) h = h
ReadBack-Encodable false n (pos u) h = h
ReadBack-Encodable false n (negsuc u) h = elim h [ ]

-- What is encoded decodes to itself: read as signed if the sign bit has room for it, read as unsigned
-- if it is not negative and fits.
pub decode_int-encode_int :
    (v : ℤ) (n : ℕ) (order : WordOrder) (sign : Bool)
    → ReadBack sign n v
    → (ws : List ℕ) × (encode_int v (suc n) order ≡ ok ws) × (decode_int ws sign order ≡ ok v)
unfolding decode_int to_unsigned
decode_int-encode_int v n order sign h =
    (ws, encode_int-ok v n order encodable, decoded sign v h combined)
  where
    encodable : Encodable n v
    encodable = ReadBack-Encodable sign n v h

    ws : List ℕ
    ws = split_words (to_unsigned v (16 * suc n)) (suc n) order

    combined : combine_words ws order ≡ to_unsigned v (16 * suc n)
    combined =
        combine_words-split_words (to_unsigned v (16 * suc n)) (suc n) order
          (to_unsigned-lt v n encodable)

    len : length ws ≡ suc n
    len = (split_words-IsWord (to_unsigned v (16 * suc n)) (suc n) order).0

    decoded :
        (sign : Bool) (x : ℤ)
        → ReadBack sign n x
        → combine_words ws order ≡ to_unsigned x (16 * suc n)
        → decode_int ws sign order ≡ ok x
    decoded true x h c =
        rw (len, c, bits_suc n) (signed-to_unsigned x (low n) (Bits-of_signed x n h))
    decoded false (pos u) h c = rw c refl
    decoded false (negsuc u) h c = elim h [ ]

encode_same :
    (v : ℤ) (ws : List ℕ) (n : ℕ) (order : WordOrder)
    → length ws ≡ suc n
    → All IsWord ws
    → Encodable n v
    → to_unsigned v (16 * suc n) ≡ combine_words ws order
    → encode_int v (suc n) order ≡ ok ws
encode_same v ws n order len words h e =
    encode_int-ok v n order h ∙ ap ok (rw (e, ← len) (split_words-combine_words ws order words))

-- One or more words of 16 bits decode, signed or not, to a value that is encoded as the same words
-- again.
pub encode_int-decode_int :
    (w : ℕ) (ws : List ℕ) (sign : Bool) (order : WordOrder)
    → All IsWord (w ∷ ws)
    → (v : ℤ) × (decode_int (w ∷ ws) sign order ≡ ok v)
      × (encode_int v (length (w ∷ ws)) order ≡ ok (w ∷ ws))
unfolding decode_int to_unsigned
encode_int-decode_int w ws false order h = (
  pos (combine_words (w ∷ ws) order),
  refl,
  encode_same (pos (combine_words (w ∷ ws) order)) (w ∷ ws) (length ws) order refl h
      (combine_words-lt (w ∷ ws) order) refl,
)
encode_int-decode_int w ws true order h =
    let n = length ws in
    let below : combine_words (w ∷ ws) order < 2 ^ suc (low n) =
      rw (bits_suc n) at (combine_words-lt (w ∷ ws) order) in
    let (v, decoded, range, same) =
      to_unsigned-signed (combine_words (w ∷ ws) order) (low n) below in
    (
      v,
      rw (bits_suc n) decoded,
      encode_same v (w ∷ ws) n order refl h
          (Encodable-of_signed v n (SignedRange-of_Bits v n range)) (rw (bits_suc n) same),
    )
