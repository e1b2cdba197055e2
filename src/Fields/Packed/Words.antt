-- ===== src/Fields/Packed/Words.antt =====
-- A word of a register in three parts: the bits of a field, those below and those above.
use Prim.Native.Nat.{bit_and, bit_or}
use native.Mathlib.Nat.{
  pow-suc, one-le-pow, mod-lt, div-add-mod', mul-div_cancel, mul-add-div_right,
  mul-add-mod_self_right, div-eq_of_lt, div-div-eq-div-mul, mul_assoc, add-mul, div-lt_iff_lt-mul,
}
use modbus_connection.Prelude.{
  ℕ, zero, suc, ◌+◌, ◌-◌, ◌*◌, ◌/◌, ◌%◌, ◌^◌, ◌<◌, ◌≡◌, refl, sym, ap, ◌∙◌, arith,
}
use modbus_connection.Bits.{bit_and_ones, bit_and_shifted, bit_or_shifted, bit_or_low}
use modbus_connection.Fields.Packed.{mask_of}

pow-add : (m n : ℕ) → 2 ^ (m + n) ≡ 2 ^ m * 2 ^ n
pow-add zero n = let e : 0 + n ≡ n = omega arith in rw e (omega arith)
pow-add (suc m) n =
    let e : suc m + n ≡ suc (m + n) = omega arith in
    let twice : 2 ^ suc m * 2 ^ n ≡ 2 * (2 ^ m * 2 ^ n) =
      ap (λ (t : ℕ). t * 2 ^ n) (omega (arith, pow-suc 2 m)) ∙ mul_assoc 2 (2 ^ m) (2 ^ n) in
    rw e (omega (arith, pow-suc 2 (m + n), pow-add m n, twice))

pub pow_pos : (k : ℕ) → 0 < 2 ^ k
pow_pos k = omega (arith, one-le-pow k 2)

-- A word in three parts: `low` is below bit `s`, `mid` the `k` bits from there, and `high` the rest.
abbrev pub parts : ℕ → ℕ → ℕ → ℕ → ℕ → ℕ
parts s k high mid low = (high * 2 ^ k + mid) * 2 ^ s + low

module _ (s k : ℕ) where
  pub high_of : ℕ → ℕ
  high_of w = w / 2 ^ s / 2 ^ k

  pub mid_of : ℕ → ℕ
  mid_of w = w / 2 ^ s % 2 ^ k

  pub low_of : ℕ → ℕ
  low_of w = w % 2 ^ s

  pub parts_lem : (w : ℕ) → w ≡ parts s k (high_of w) (mid_of w) (low_of w)
  unfolding high_of mid_of low_of
  parts_lem w = rw (div-add-mod' (w / 2 ^ s) (2 ^ k)) (sym (div-add-mod' w (2 ^ s)))

  pub mid-lt : (w : ℕ) → mid_of w < 2 ^ k
  unfolding mid_of
  mid-lt w = mod-lt (w / 2 ^ s) (pow_pos k)

  pub low-lt : (w : ℕ) → low_of w < 2 ^ s
  unfolding low_of
  low-lt w = mod-lt w (pow_pos s)

  mask-parts :
      (high mid low : ℕ)
      → mid < 2 ^ k
      → low < 2 ^ s
      → bit_and (parts s k high mid low) (mask_of s k) ≡ mid * 2 ^ s
  mask-parts high mid low m l =
      bit_and_shifted s (high * 2 ^ k + mid) low (2 ^ k - 1) l
      ∙ ap (λ (t : ℕ). t * 2 ^ s) (bit_and_ones k high mid m)

  -- The bits of a field are the middle part.
  mask-mid : (w : ℕ) → bit_and w (mask_of s k) ≡ mid_of w * 2 ^ s
  mask-mid w =
      ap (λ (t : ℕ). bit_and t (mask_of s k)) (parts_lem w)
      ∙ mask-parts (high_of w) (mid_of w) (low_of w) (mid-lt w) (low-lt w)

  cleared : (w : ℕ) → w - bit_and w (mask_of s k) ≡ high_of w * 2 ^ k * 2 ^ s + low_of w
  cleared w =
      rw (mask-mid w) (omega (arith, parts_lem w, add-mul (high_of w * 2 ^ k) (mid_of w) (2 ^ s)))

  pub put-parts :
      (w raw : ℕ)
      → raw < 2 ^ k
      → bit_or (w - bit_and w (mask_of s k)) (raw * 2 ^ s) ≡ parts s k (high_of w) raw (low_of w)
  put-parts w raw h =
      rw
        (
          cleared w,
          bit_or_shifted s (high_of w * 2 ^ k) (low_of w) raw (low-lt w),
          bit_or_low k (high_of w) raw h,
        )
        refl

  div-parts : (high mid low : ℕ) → low < 2 ^ s → parts s k high mid low / 2 ^ s ≡ high * 2 ^ k + mid
  div-parts high mid low l =
      rw (mul-add-div_right (pow_pos s) (high * 2 ^ k + mid) low, div-eq_of_lt l) (omega arith)

  pub bits-parts :
      (high mid low : ℕ)
      → mid < 2 ^ k
      → low < 2 ^ s
      → bit_and (parts s k high mid low) (mask_of s k) / 2 ^ s ≡ mid
  bits-parts high mid low m l = rw (mask-parts high mid low m l) (mul-div_cancel mid (pow_pos s))

  -- A field's bits, without the mask.
  pub bits_lem : (w : ℕ) → bit_and w (mask_of s k) / 2 ^ s ≡ w / 2 ^ s % 2 ^ k
  unfolding mid_of
  bits_lem w = rw (mask-mid w) (mul-div_cancel (mid_of w) (pow_pos s))

  -- Bits above the middle part do not depend on it.
  above :
      (d high mid low : ℕ)
      → mid < 2 ^ k
      → low < 2 ^ s
      → parts s k high mid low / 2 ^ (s + k + d) ≡ high / 2 ^ d
  above d high mid low m l =
      rw
        (
          pow-add (s + k) d,
          pow-add s k,
          ← div-div-eq-div-mul (parts s k high mid low) (2 ^ s * 2 ^ k) (2 ^ d),
          ← div-div-eq-div-mul (parts s k high mid low) (2 ^ s) (2 ^ k),
          div-parts high mid low l,
          mul-add-div_right (pow_pos k) high mid,
          div-eq_of_lt m,
        )
        (ap (λ (t : ℕ). t / 2 ^ d) (omega arith))

reorder : (q t g d : ℕ) → q * (t * g * d) ≡ q * d * g * t
reorder q t g d = grind arith

-- Neither do bits below it.
below :
    (t g d q low : ℕ)
    → low < 2 ^ (t + g + d)
    → (q * 2 ^ (t + g + d) + low) / 2 ^ t % 2 ^ g ≡ low / 2 ^ t % 2 ^ g
below t g d q low l =
    let split : q * 2 ^ (t + g + d) ≡ q * 2 ^ d * 2 ^ g * 2 ^ t =
      rw (pow-add (t + g) d, pow-add t g) (reorder q (2 ^ t) (2 ^ g) (2 ^ d)) in
    rw
      (
        split,
        mul-add-div_right (pow_pos t) (q * 2 ^ d * 2 ^ g) low,
        mul-add-mod_self_right (q * 2 ^ d) (2 ^ g) (low / 2 ^ t),
      )
      refl

pub below_at :
    (s t g d q low : ℕ)
    → s ≡ t + g + d
    → low < 2 ^ s
    → (q * 2 ^ s + low) / 2 ^ t % 2 ^ g ≡ low / 2 ^ t % 2 ^ g
below_at s t g d q low e l = rw e (below t g d q low (rw e at l))

pub above_at :
    (s k t d w raw : ℕ)
    → t ≡ s + k + d
    → raw < 2 ^ k
    → parts s k (high_of s k w) raw (low_of s k w) / 2 ^ t ≡ w / 2 ^ t
above_at s k t d w raw e h = rw e (
    above s k d (high_of s k w) raw (low_of s k w) h (low-lt s k w)
    ∙ sym (above s k d (high_of s k w) (mid_of s k w) (low_of s k w) (mid-lt s k w) (low-lt s k w))
    ∙ ap (λ (x : ℕ). x / 2 ^ (s + k + d)) (sym (parts_lem s k w)))

row-lt : (a b m n : ℕ) → a < m → b < n → a * n + b < m * n
row-lt a b m n h k = grind arith

high-lt : (s k d w : ℕ) → w < 2 ^ d * 2 ^ k * 2 ^ s → high_of s k w < 2 ^ d
unfolding high_of
high-lt s k d w h = (div-lt_iff_lt-mul (pow_pos k)).1 ((div-lt_iff_lt-mul (pow_pos s)).1 h)

-- With other bits in the middle a word of `top` bits stays one.
pub parts-lt :
    (top s k d w raw : ℕ)
    → top ≡ s + k + d
    → raw < 2 ^ k
    → w < 2 ^ top
    → parts s k (high_of s k w) raw (low_of s k w) < 2 ^ top
parts-lt top s k d w raw e h word =
    let size : 2 ^ top ≡ 2 ^ d * 2 ^ k * 2 ^ s =
      rw (e, pow-add (s + k) d, pow-add s k) (reorder_three (2 ^ s) (2 ^ k) (2 ^ d)) in
    rw size (
      row-lt (high_of s k w * 2 ^ k + raw) (low_of s k w) (2 ^ d * 2 ^ k) (2 ^ s)
        (row-lt (high_of s k w) raw (2 ^ d) (2 ^ k) (high-lt s k d w (rw size at word)) h)
        (low-lt s k w))
  where
    reorder_three : (a b c : ℕ) → a * b * c ≡ c * b * a
    reorder_three a b c = grind arith
