-- ===== src/Ranges/Excluding.antt =====
-- `_ranges_excluding` of src/modbus_connection/model/_ranges.py.
use modbus_connection.Prelude.{
  ℕ, ◌+◌, ◌≤◌, ◌<◌, ◌↔◌, inl, inr, List, [], ◌∷◌, arith, All, Any, In, All-mono, sort_numbers,
  sort_numbers-In, In-sort_numbers, sort_numbers-IsIncreasing, IsIncreasing, All-sort_numbers,
  Any-flat_map, flat_map-Any, Any-mono, flat_map, ◌≢◌, refl, All-flat_map, All-get, All-In,
  Any-find, Any-intro,
}
use modbus_connection.Const.{Range}
use modbus_connection.Ranges.{cut_out, covered_cuts, exclude_from, ranges_excluding}
use modbus_connection.Ranges.View.{Inside, Covers}

abbrev Below : ℕ → List ℕ → Type 0
Below n = All (λ c. n ≤ c)

Below-cut : (cut : ℕ) (cuts : List ℕ) → All (λ c. cut < c) cuts → Below (cut + 1) cuts
Below-cut cut = All-mono (λ c. cut < c) (λ c. cut + 1 ≤ c) (λ c h. omega arith)

abbrev Spares : ℕ → List ℕ → Type 0
Spares x = All (λ c. x ≢ c)

Spares-not_In : (x : ℕ) (cs : List ℕ) → Spares x cs → ¬ In x cs
Spares-not_In x cs h m = All-get (λ c. x ≢ c) x cs h m refl

not_In-Spares : (x : ℕ) (cs : List ℕ) → ¬ In x cs → Spares x cs
not_In-Spares x [] n = tt
not_In-Spares x (c ∷ cs) n = ((λ e. n (inl e)), not_In-Spares x cs (λ m. n (inr m)))

Spares-above : (x : ℕ) (cs : List ℕ) → All (λ c. x < c) cs → Spares x cs
Spares-above x = All-mono (λ c. x < c) (λ c. x ≢ c) (λ c h. omega arith)

-- One interval from `start` on: what is left is what the cuts spare.
Covers-cut_out :
    (x start high : ℕ) (cuts : List ℕ)
    → IsIncreasing cuts
    → Below start cuts
    → All (λ c. c ≤ high) cuts
    → Covers x (cut_out start high cuts)
    → (start ≤ x) × (x ≤ high) × Spares x cuts
unfolding cut_out
Covers-cut_out x start high [] inc below le h = ground arith
Covers-cut_out x start high (cut ∷ cuts) inc below le h = ground (
  arith,
  Covers-cut_out x (cut + 1) high cuts inc.1 (Below-cut cut cuts inc.0) le.1,
  All-mono (λ c. cut < c) (λ c. cut ≤ c) (λ c h. omega arith) cuts inc.0,
  λ (lt : x < cut).
      Spares-above x cuts (All-mono (λ c. cut < c) (λ c. x < c) (λ c h. omega arith) cuts inc.0),
)

cut_out-Covers :
    (x start high : ℕ) (cuts : List ℕ)
    → start ≤ x
    → x ≤ high
    → Spares x cuts
    → Covers x (cut_out start high cuts)
unfolding cut_out
cut_out-Covers x start high [] h k n = ground arith
cut_out-Covers x start high (cut ∷ cuts) h k n =
    ground (arith, cut_out-Covers x (cut + 1) high cuts)

pub covered_cuts-In :
    (x : ℕ) (r : Range) (cs : List ℕ) → In x (covered_cuts r cs) → In x cs × Inside x r
unfolding covered_cuts
covered_cuts-In x r [] h = elim h [ ]
covered_cuts-In x r (c ∷ cs) h = ground (arith, covered_cuts-In x r cs)

In-covered_cuts :
    (x : ℕ) (r : Range) (cs : List ℕ) → In x cs → Inside x r → In x (covered_cuts r cs)
unfolding covered_cuts
In-covered_cuts x r [] h i = h
In-covered_cuts x r (c ∷ cs) h i = ground (arith, In-covered_cuts x r cs)

exclude_from_iff :
    (x : ℕ) (excluded : List ℕ) (r : Range)
    → Covers x (exclude_from excluded r) ↔ (Inside x r × ¬ In x excluded)
unfolding exclude_from
exclude_from_iff x excluded r = (kept, keeps)
  where
    cuts : List ℕ
    cuts = sort_numbers (covered_cuts r excluded)

    cut_of : (c : ℕ) → In c cuts → In c excluded × Inside c r
    cut_of c m = covered_cuts-In c r excluded (sort_numbers-In c (covered_cuts r excluded) m)

    kept : Covers x (cut_out r.0 r.1 cuts) → Inside x r × ¬ In x excluded
    kept h =
        let (from, to, spared) =
          Covers-cut_out x r.0 r.1 cuts (sort_numbers-IsIncreasing (covered_cuts r excluded))
            (All-In (λ c. r.0 ≤ c) cuts (λ c m. (cut_of c m).1.0))
            (All-In (λ c. c ≤ r.1) cuts (λ c m. (cut_of c m).1.1)) h in
        (
          (from, to),
          λ m. Spares-not_In x cuts spared (
              In-sort_numbers x (covered_cuts r excluded)
                (In-covered_cuts x r excluded m (from, to))),
        )

    keeps : Inside x r × ¬ In x excluded → Covers x (cut_out r.0 r.1 cuts)
    keeps (i, n) =
        cut_out-Covers x r.0 r.1 cuts i.0 i.1 (not_In-Spares x cuts (λ m. n (cut_of x m).0))

-- Exactly the addresses of the intervals that are not excluded stay readable.
pub ranges_excluding_iff :
    (x : ℕ) (intervals : List Range) (excluded : List ℕ)
    → Covers x (ranges_excluding intervals excluded) ↔ (Covers x intervals × ¬ In x excluded)
unfolding ranges_excluding
ranges_excluding_iff x intervals excluded = (kept, keeps)
  where
    kept :
        Covers x (flat_map (exclude_from excluded) intervals) → Covers x intervals × ¬ In x excluded
    kept h =
        let found =
          Any-find (λ (r : Range). Covers x (exclude_from excluded r)) intervals
            (flat_map-Any (Inside x) (exclude_from excluded) intervals h) in
        let here = (exclude_from_iff x excluded found.0).0 found.2 in
        (Any-intro (Inside x) found.0 intervals found.1 here.0, here.1)

    keeps :
        Covers x intervals × ¬ In x excluded → Covers x (flat_map (exclude_from excluded) intervals)
    keeps (h, n) = Any-flat_map (Inside x) (exclude_from excluded) intervals (
        Any-mono (Inside x) (λ (r : Range). Covers x (exclude_from excluded r))
          (λ r i. (exclude_from_iff x excluded r).1 (i, n)) intervals h)

-- A run of what is left of an interval.
abbrev Within : ℕ → ℕ → Range → Type 0
Within start high q = (start ≤ q.0) × (q.0 ≤ q.1) × (q.1 ≤ high)

cut_out-Within :
    (start high : ℕ) (cuts : List ℕ)
    → Below start cuts
    → IsIncreasing cuts
    → All (λ c. c ≤ high) cuts
    → All (Within start high) (cut_out start high cuts)
unfolding cut_out
cut_out-Within start high [] below inc le = ground arith
cut_out-Within start high (cut ∷ cuts) below inc le =
    let rest : All (Within start high) (cut_out (cut + 1) high cuts) =
      All-mono (Within (cut + 1) high) (Within start high) (λ q h. omega (arith, below.0))
        (cut_out (cut + 1) high cuts)
        (cut_out-Within (cut + 1) high cuts (Below-cut cut cuts inc.0) inc.1 le.1) in
    ground (arith, rest)

exclude_from-Within :
    (excluded : List ℕ) (r : Range) → All (Within r.0 r.1) (exclude_from excluded r)
unfolding exclude_from
exclude_from-Within excluded r =
    cut_out-Within r.0 r.1 (sort_numbers cuts)
      (All-sort_numbers (λ c. r.0 ≤ c) cuts (from_cut (λ c. r.0 ≤ c) (λ c i. i.0)))
      (sort_numbers-IsIncreasing cuts)
      (All-sort_numbers (λ c. c ≤ r.1) cuts (from_cut (λ c. c ≤ r.1) (λ c i. i.1)))
  where
    cuts : List ℕ
    cuts = covered_cuts r excluded

    from_cut : (P : ℕ → Type 0) → ((c : ℕ) → Inside c r → P c) → All P cuts
    from_cut P f = All-In P cuts (λ c m. f c (covered_cuts-In c r excluded m).1)

-- No run is empty, and none reaches out of the interval that it was cut from: the result only
-- splits the input.
pub ranges_excluding-splits :
    (intervals : List Range) (excluded : List ℕ)
    → All
        (λ (q : Range). (q.0 ≤ q.1) × Any (λ (r : Range). (r.0 ≤ q.0) × (q.1 ≤ r.1)) intervals)
        (ranges_excluding intervals excluded)
unfolding ranges_excluding
ranges_excluding-splits intervals excluded = All-flat_map _ (exclude_from excluded) intervals λ r m.
    All-mono (Within r.0 r.1) _
      (λ q w. (w.1, Any-intro (λ (s : Range). (s.0 ≤ q.0) × (q.1 ≤ s.1)) r intervals m (w.0, w.2)))
      (exclude_from excluded r) (exclude_from-Within excluded r)
