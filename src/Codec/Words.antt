-- ===== src/Codec/Words.antt =====
-- `split_words` and `combine_words` of src/modbus_connection/encode.py and decode.py.
use native.Mathlib.Nat.{pow-suc, add-suc, add-zero, div-div-eq-div-mul, div-one, div-eq_of_lt}
use mathlib.Core.List.{reverse-reverse, reverse-cons}
use modbus_connection.Prelude.{
  ℕ, zero, suc, ◌+◌, ◌-◌, ◌*◌, ◌/◌, ◌%◌, ◌^◌, ◌<◌, ◌≡◌, refl, sym, ap, ◌∙◌, List, [], ◌∷◌, map,
  reverse, arith, length, length-append, range_from, All, All-append,
}
use modbus_connection.Const.{WordOrder, big, little}
use modbus_connection.Codec.{ordered, word_at, split_words, combine_from, combine_words}

abbrev pub IsWord : ℕ → Type 0
IsWord w = w < 65536

pow_add : (m n : ℕ) → 2 ^ (m + n) ≡ 2 ^ m * 2 ^ n
pow_add m zero = rw add-zero (omega arith)
pow_add m (suc n) =
    rw (add-suc m n, pow-suc 2 (m + n), pow-suc 2 n)
      (omega (arith, ap (λ (t : ℕ). t * 2) (pow_add m n)))

pub pow16-suc : (k : ℕ) → 2 ^ (16 * suc k) ≡ 2 ^ (16 * k) * 65536
pow16-suc k =
    ap (λ t. 2 ^ t) (let e : 16 * suc k ≡ 16 * k + 16 = omega arith in e) ∙ pow_add (16 * k) 16

-- The words of the number from the k-th down.
falling : ℕ → ℕ → List ℕ
falling raw zero = []
falling raw (suc k) = word_at raw k ∷ falling raw k

map-falling :
    (raw count i n : ℕ)
    → i + n ≡ count
    → map (λ j. word_at raw (count - 1 - j)) (range_from i n) ≡ falling raw n
unfolding falling
map-falling raw count i zero e = refl
map-falling raw count i (suc n) e =
    let here : count - 1 - i ≡ n = omega arith in
    rw (here, map-falling raw count (i + 1) n (omega arith)) refl

split_words_lem :
    (raw count : ℕ) (order : WordOrder)
    → split_words raw count order ≡ ordered order (falling raw count)
unfolding split_words
split_words_lem raw count order = rw (map-falling raw count 0 count (omega arith)) refl

combine_from-falling : (raw k : ℕ) → combine_from (raw / 2 ^ (16 * k)) (falling raw k) ≡ raw
unfolding combine_from falling
combine_from-falling raw zero = div-one raw
combine_from-falling raw (suc k) = rw (combine_from, step) (combine_from-falling raw k)
  where
    step : raw / 2 ^ (16 * suc k) * 65536 + raw / 2 ^ (16 * k) % 65536 % 65536 ≡ raw / 2 ^ (16 * k)
    step = rw (pow16-suc k, ← div-div-eq-div-mul raw (2 ^ (16 * k)) 65536) (omega arith)

pub combine_from-div : (acc : ℕ) (ws : List ℕ) → combine_from acc ws / 2 ^ (16 * length ws) ≡ acc
unfolding combine_from
combine_from-div acc [] = div-one acc
combine_from-div acc (w ∷ ws) =
    rw
      (
        pow16-suc (length ws),
        ← div-div-eq-div-mul (combine_from (acc * 65536 + w % 65536) ws) (2 ^ (16 * length ws))
            65536,
        combine_from-div (acc * 65536 + w % 65536) ws,
      )
      (omega arith)

falling-combine_from :
    (acc : ℕ) (ws : List ℕ) → All IsWord ws → falling (combine_from acc ws) (length ws) ≡ ws
unfolding combine_from falling
falling-combine_from acc [] h = refl
falling-combine_from acc (w ∷ ws) h =
    rw
      (
        combine_from-div (acc * 65536 + w % 65536) ws,
        falling-combine_from (acc * 65536 + w % 65536) ws h.1,
      )
      (ap (λ v. v ∷ ws) (omega (arith, h.0)))

pub ordered-ordered : (order : WordOrder) (ws : List ℕ) → ordered order (ordered order ws) ≡ ws
ordered-ordered big ws = refl
ordered-ordered little ws = reverse-reverse ws

length-reverse : (ws : List ℕ) → length (reverse ws) ≡ length ws
length-reverse [] = refl
length-reverse (w ∷ ws) =
    rw (reverse-cons w ws) (omega (arith, length-append (reverse ws) (w ∷ []), length-reverse ws))

pub length-ordered : (order : WordOrder) (ws : List ℕ) → length (ordered order ws) ≡ length ws
length-ordered big ws = refl
length-ordered little ws = length-reverse ws

All-reverse : (P : ℕ → Type 0) (ws : List ℕ) → All P ws → All P (reverse ws)
All-reverse P [] h = tt
All-reverse P (w ∷ ws) h =
    rw (reverse-cons w ws) (All-append P (reverse ws) (w ∷ []) (All-reverse P ws h.1) (h.0, tt))

All-ordered :
    (P : ℕ → Type 0) (order : WordOrder) (ws : List ℕ) → All P ws → All P (ordered order ws)
All-ordered P big ws h = h
All-ordered P little ws h = All-reverse P ws h

length-falling : (raw k : ℕ) → length (falling raw k) ≡ k
unfolding falling
length-falling raw zero = refl
length-falling raw (suc k) = ap suc (length-falling raw k)

falling-IsWord : (raw k : ℕ) → All IsWord (falling raw k)
unfolding falling
falling-IsWord raw zero = tt
falling-IsWord raw (suc k) = (omega arith, falling-IsWord raw k)

-- Splitting gives as many words as asked for, each of 16 bits.
pub split_words-IsWord :
    (raw count : ℕ) (order : WordOrder)
    → (length (split_words raw count order) ≡ count) × All IsWord (split_words raw count order)
split_words-IsWord raw count order = rw split_words_lem (
  length-ordered order (falling raw count) ∙ length-falling raw count,
  All-ordered IsWord order (falling raw count) (falling-IsWord raw count),
)

-- Combining the words of a number that fits into them gives the number back, in both orders.
pub combine_words-split_words :
    (raw count : ℕ) (order : WordOrder)
    → raw < 2 ^ (16 * count)
    → combine_words (split_words raw count order) order ≡ raw
unfolding combine_words
combine_words-split_words raw count order h =
    rw (split_words_lem raw count order, ordered-ordered order (falling raw count))
      (ap (λ a. combine_from a (falling raw count)) (sym (div-eq_of_lt h))
        ∙ combine_from-falling raw count)

-- Splitting what words of 16 bits combine to gives the words back, in both orders.
pub split_words-combine_words :
    (ws : List ℕ) (order : WordOrder)
    → All IsWord ws
    → split_words (combine_words ws order) (length ws) order ≡ ws
unfolding combine_words
split_words-combine_words ws order h =
    rw
      (
        split_words_lem (combine_from 0 (ordered order ws)) (length ws) order,
        ← length-ordered order ws,
        falling-combine_from 0 (ordered order ws) (All-ordered IsWord order ws h),
      )
      (ordered-ordered order ws)
