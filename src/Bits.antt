-- ===== src/Bits.antt =====
-- `&` with a run of ones and `|` of disjoint fields, as arithmetic.
use Prim.Native.Nat.{min, max, digits, bit_and, bit_or, bit_and-bitwise, bit_or-bitwise}
use native.Mathlib.Nat.{pow-suc, one-le-pow}
use modbus_connection.Prelude.{
  ℕ, zero, suc, ◌+◌, ◌-◌, ◌*◌, ◌/◌, ◌%◌, ◌^◌, ◌≤◌, ◌<◌, ◌≡◌, refl, arith, ap,
}

-- The fuel of the digit recursion does not matter where it is enough.
module _ (rest : ℕ → ℕ) (digit : ℕ → ℕ → ℕ) where
  digits-same : (f g x y : ℕ) → x ≤ f → x ≤ g → digits rest digit f x y ≡ digits rest digit g x y
  digits-same (suc f) (suc g) zero y u v = refl
  digits-same (suc f) (suc g) (suc x) y u v =
      rw (digits-same f g (suc x / 2) (y / 2) (omega arith) (omega arith))
  digits-same zero zero zero y u v = refl
  digits-same zero zero (suc x) y u v = absurd (omega arith)
  digits-same zero (suc g) zero y u v = refl
  digits-same zero (suc g) (suc x) y u v = absurd (omega arith)
  digits-same (suc f) zero zero y u v = refl
  digits-same (suc f) zero (suc x) y u v = absurd (omega arith)

-- The lowest digit of `|` and `&`, and the others.
pub bit_or_step : (x y : ℕ) → bit_or x y ≡ max (x % 2) (y % 2) + bit_or (x / 2) (y / 2) * 2
bit_or_step zero y = simp bit_or-bitwise (omega arith)
bit_or_step (suc x) y =
    let half = suc x / 2 in
    let halves = digits-same (λ (d : ℕ). d) max x half half (y / 2) (omega arith) (omega arith) in
    omega (arith, halves, bit_or-bitwise half (y / 2), bit_or-bitwise (suc x) y)

pub bit_and_step : (x y : ℕ) → bit_and x y ≡ min (x % 2) (y % 2) + bit_and (x / 2) (y / 2) * 2
bit_and_step zero y = simp bit_and-bitwise (omega arith)
bit_and_step (suc x) y =
    let half = suc x / 2 in
    let halves = digits-same (λ (d : ℕ). 0) min x half half (y / 2) (omega arith) (omega arith) in
    omega (arith, halves, bit_and-bitwise half (y / 2), bit_and-bitwise (suc x) y)

bit_or-zero_within : (n a : ℕ) → a ≤ n → bit_or a 0 ≡ a
bit_or-zero_within n zero h = refl
bit_or-zero_within zero (suc a) h = absurd (omega arith)
bit_or-zero_within (suc n) (suc a) h =
    omega (arith, bit_or_step (suc a) 0, bit_or-zero_within n (suc a / 2) (omega arith))

bit_and-zero_within : (n a : ℕ) → a ≤ n → bit_and a 0 ≡ 0
bit_and-zero_within n zero h = refl
bit_and-zero_within zero (suc a) h = absurd (omega arith)
bit_and-zero_within (suc n) (suc a) h =
    omega (arith, bit_and_step (suc a) 0, bit_and-zero_within n (suc a / 2) (omega arith))

times_pow-suc : (q k : ℕ) → q * 2 ^ suc k ≡ 2 * (q * 2 ^ k)
times_pow-suc q k = omega (arith, ap (λ (t : ℕ). q * t) (pow-suc 2 k))

-- A run of `k` ones keeps the lowest `k` bits.
pub bit_and_ones : (k q r : ℕ) → r < 2 ^ k → bit_and (q * 2 ^ k + r) (2 ^ k - 1) ≡ r
bit_and_ones zero q r h =
    rw (bit_and-zero_within (q * 2 ^ 0 + r) (q * 2 ^ 0 + r) (omega arith)) (omega arith)
bit_and_ones (suc k) q r h = ground (
  arith,
  bit_and_step (q * 2 ^ suc k + r) (2 ^ suc k - 1),
  times_pow-suc q k,
  pow-suc 2 k,
  one-le-pow k 2,
  bit_and_ones k q (r / 2) (omega (arith, pow-suc 2 k)),
)

-- A mask that is shifted by `s` does not see the lowest `s` bits.
pub bit_and_shifted :
    (s q r m : ℕ) → r < 2 ^ s → bit_and (q * 2 ^ s + r) (m * 2 ^ s) ≡ bit_and q m * 2 ^ s
bit_and_shifted zero q r m h =
    let low : q * 2 ^ 0 + r ≡ q = omega arith in
    let mask : m * 2 ^ 0 ≡ m = omega arith in rw (low, mask) (omega arith)
bit_and_shifted (suc s) q r m h = ground (
  arith,
  bit_and_step (q * 2 ^ suc s + r) (m * 2 ^ suc s),
  times_pow-suc q s,
  times_pow-suc m s,
  times_pow-suc (bit_and q m) s,
  pow-suc 2 s,
  bit_and_shifted s q (r / 2) m (omega (arith, pow-suc 2 s)),
)

-- `|` of something shifted by `s` leaves the lowest `s` bits alone.
pub bit_or_shifted :
    (s q r m : ℕ) → r < 2 ^ s → bit_or (q * 2 ^ s + r) (m * 2 ^ s) ≡ bit_or q m * 2 ^ s + r
bit_or_shifted zero q r m h =
    let low : q * 2 ^ 0 + r ≡ q = omega arith in
    let mask : m * 2 ^ 0 ≡ m = omega arith in rw (low, mask) (omega arith)
bit_or_shifted (suc s) q r m h = ground (
  arith,
  bit_or_step (q * 2 ^ suc s + r) (m * 2 ^ suc s),
  times_pow-suc q s,
  times_pow-suc m s,
  times_pow-suc (bit_or q m) s,
  pow-suc 2 s,
  bit_or_shifted s q (r / 2) m (omega (arith, pow-suc 2 s)),
)

-- `(q << k) | r` where `r` fits in `k` bits.
pub bit_or_low : (k q r : ℕ) → r < 2 ^ k → bit_or (q * 2 ^ k) r ≡ q * 2 ^ k + r
bit_or_low zero q r h =
    let e : r ≡ 0 = omega arith in
    rw (e, bit_or-zero_within (q * 2 ^ 0) (q * 2 ^ 0) (omega arith)) (omega arith)
bit_or_low (suc k) q r h = ground (
  arith,
  bit_or_step (q * 2 ^ suc k) r,
  times_pow-suc q k,
  pow-suc 2 k,
  bit_or_low k q (r / 2) (omega (arith, pow-suc 2 k)),
)
