-- ===== src/Component/Restriction/Reshaped/Cuts.antt =====
-- Sets of addresses, and a span in what is left of a range when addresses outside the span are cut out.
use modbus_connection.Prelude.{
  ℕ, zero, suc, ◌+◌, ◌≤◌, ◌<◌, ◌⊎◌, some, List, [], ◌∷◌, range_from, arith, All, Any, In,
  contains-In, In-contains, All-In, Any-flat_map, Any-mono, sort_numbers, sort_numbers-In, All-get,
}
use modbus_connection.Const.{Range}
use modbus_connection.Ranges.{ranges_excluding, exclude_from, covered_cuts, cut_out}
use modbus_connection.Ranges.Excluding.{covered_cuts-In}
use modbus_connection.Planning.{Span}
use modbus_connection.Claims.Served.{HeldBy}
use modbus_connection.Component.Restriction.{without}

pub range_from-In : (x start n : ℕ) → In x (range_from start n) → (start ≤ x) × (x < start + n)
range_from-In x start zero h = elim h [ ]
range_from-In x start (suc n) h = ground (arith, range_from-In x (start + 1) n)

pub In-range_from : (x start n : ℕ) → start ≤ x → x < start + n → In x (range_from start n)
In-range_from x start zero h k = omega arith
In-range_from x start (suc n) h k = ground (arith, In-range_from x (start + 1) n)

pub without-In :
    (x : ℕ) (excluded served : List ℕ)
    → In x (without excluded served)
    → In x excluded × ¬ In x served
unfolding without
without-In x [] served h = elim h [ ]
without-In x (a ∷ excluded) served h =
    ground (arith, without-In x excluded served, In-contains a served)

pub In-without :
    (x : ℕ) (excluded served : List ℕ)
    → In x excluded
    → ¬ In x served
    → In x (without excluded served)
unfolding without
In-without x [] served h n = h
In-without x (a ∷ excluded) served h n =
    ground (arith, In-without x excluded served, contains-In a served)

-- No cut is one of the span's addresses.
abbrev pub Avoids : Span → List ℕ → Type 0
Avoids p = All (λ (a : ℕ). (a < p.0) ⊎ (p.0 + p.1 ≤ a))

cut_out-holds :
    (p : Span) (start high : ℕ) (cuts : List ℕ)
    → 0 < p.1
    → start ≤ p.0
    → p.0 + p.1 ≤ high + 1
    → Avoids p cuts
    → Any (λ (r : Range). (r.0 ≤ p.0) × (p.0 + p.1 ≤ r.1 + 1)) (cut_out start high cuts)
unfolding cut_out
cut_out-holds p start high [] w h k a = ground arith
cut_out-holds p start high (cut ∷ cuts) w h k a =
    ground (arith, cut_out-holds p (cut + 1) high cuts)

exclude_from-holds :
    (p : Span) (excluded : List ℕ) (r : Range)
    → 0 < p.1
    → Avoids p excluded
    → (r.0 ≤ p.0) × (p.0 + p.1 ≤ r.1 + 1)
    → HeldBy (some (exclude_from excluded r)) p
unfolding exclude_from
exclude_from-holds p excluded r w a h =
    let cuts = sort_numbers (covered_cuts r excluded) in
    cut_out-holds p r.0 r.1 cuts w h.0 h.1 (
      All-In _ cuts (λ cut m.
        All-get _ cut excluded a
          (covered_cuts-In cut r excluded (sort_numbers-In cut (covered_cuts r excluded) m)).0))

-- A span that a range holds is held by what is left of the ranges when only addresses outside the span
-- are cut out.
pub ranges_excluding-holds :
    (p : Span) (rs : List Range) (excluded : List ℕ)
    → 0 < p.1
    → Avoids p excluded
    → HeldBy (some rs) p
    → HeldBy (some (ranges_excluding rs excluded)) p
unfolding ranges_excluding
ranges_excluding-holds p rs excluded w a h =
    Any-flat_map _ (exclude_from excluded) rs
      (Any-mono _ _ (λ r k. exclude_from-holds p excluded r w a k) rs h)
