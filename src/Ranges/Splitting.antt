-- ===== src/Ranges/Splitting.antt =====
-- The cut of the merged runs at every declared edge, in `DeviceRanges.merged` of
-- src/modbus_connection/model/_ranges.py.
use modbus_connection.Prelude.{
  ℕ, ◌-◌, ◌≤◌, ◌<◌, ◌⊎◌, inl, inr, List, [], ◌∷◌, ◌++◌, arith, ltb, leb, ◌&&◌, All, All-mono,
  All-mono₂, All-append, IsIncreasing, Bool-cases, flat_map, Any-find, Any-All,
}
use modbus_connection.Const.{Range}
use modbus_connection.Ranges.{split_run}
use modbus_connection.Ranges.View.{Inside, Covers, IsForward, IsSeparated}

abbrev pub Within : ℕ → ℕ → Range → Type 0
Within start high q = (start ≤ q.0) × (q.0 ≤ q.1) × (q.1 ≤ high)

-- A read of the run would go across the cut.
abbrev pub Crosses : ℕ → Range → Type 0
Crosses cut q = (q.0 < cut) × (cut ≤ q.1)

pub split_run-Within :
    (start high : ℕ) (cuts : List ℕ)
    → start ≤ high
    → All (Within start high) (split_run start high cuts)
unfolding split_run
split_run-Within start high [] h = ground arith
split_run-Within start high (cut ∷ cuts) h = elim (Bool-cases (ltb start cut && leb cut high)) [
  | inl e ↦
      let lt : start < cut = ground arith in
      let le : cut ≤ high = ground arith in
      rw e (
        (omega arith, omega arith, omega arith),
        All-mono (Within cut high) (Within start high) (λ q k. omega arith)
            (split_run cut high cuts) (split_run-Within cut high cuts le),
      )
  | inr e ↦ rw e (split_run-Within start high cuts h)
]

pub Covers-split_run :
    (x start high : ℕ) (cuts : List ℕ) → start ≤ x → x ≤ high → Covers x (split_run start high cuts)
unfolding split_run
Covers-split_run x start high [] h k = ground arith
Covers-split_run x start high (cut ∷ cuts) h k =
    ground (arith, Covers-split_run x cut high cuts, Covers-split_run x start high cuts)

pub split_run-Covers :
    (x start high : ℕ) (cuts : List ℕ)
    → start ≤ high
    → Covers x (split_run start high cuts)
    → Inside x (start, high)
split_run-Covers x start high cuts h c =
    let (q, w, i) =
      Any-find (λ (q : Range). Inside x q × Within start high q) (split_run start high cuts)
        (Any-All (Inside x) (Within start high) (split_run start high cuts)
          (split_run-Within start high cuts h) c) in
    omega arith

abbrev pub Spared : List ℕ → Range → Type 0
Spared cuts q = All (λ c. ¬ Crosses c q) cuts

-- No piece goes across any of the cuts.
pub split_run-not_Crosses :
    (start high : ℕ) (cuts : List ℕ)
    → IsIncreasing cuts
    → start ≤ high
    → All (Spared cuts) (split_run start high cuts)
unfolding split_run
split_run-not_Crosses start high [] inc h = (tt, tt)
split_run-not_Crosses start high (cut ∷ cuts) inc h =
    elim (Bool-cases (ltb start cut && leb cut high)) [
      | inl e ↦
          let lt : start < cut = ground arith in
          let le : cut ≤ high = ground arith in
          rw e (
            (
              omega arith,
              All-mono (λ c. cut < c) (λ c. ¬ Crosses c (start, cut - 1)) (λ c k. omega arith) cuts
                  inc.0,
            ),
            All-mono₂ (Within cut high) (Spared cuts) (Spared (cut ∷ cuts))
                (λ q w s. (omega arith, s)) (split_run cut high cuts)
                (split_run-Within cut high cuts le) (split_run-not_Crosses cut high cuts inc.1 le),
          )
      | inr e ↦
          let out : (cut ≤ start) ⊎ (high < cut) = ground arith in
          rw e (
            All-mono₂ (Within start high) (Spared cuts) (Spared (cut ∷ cuts))
              (λ q w s. (omega arith, s)) (split_run start high cuts)
              (split_run-Within start high cuts h) (split_run-not_Crosses start high cuts inc.1 h))
    ]

pub split_run-IsSeparated :
    (start high : ℕ) (cuts : List ℕ) → start ≤ high → IsSeparated (split_run start high cuts)
unfolding split_run
split_run-IsSeparated start high [] h = (h, tt, tt)
split_run-IsSeparated start high (cut ∷ cuts) h =
    elim (Bool-cases (ltb start cut && leb cut high)) [
      | inl e ↦
          let lt : start < cut = ground arith in
          let le : cut ≤ high = ground arith in
          rw e (
            omega arith,
            All-mono (Within cut high) (λ (q : Range). cut - 1 < q.0) (λ q k. omega arith)
                (split_run cut high cuts) (split_run-Within cut high cuts le),
            split_run-IsSeparated cut high cuts le,
          )
      | inr e ↦ rw e (split_run-IsSeparated start high cuts h)
    ]

IsSeparated-append :
    (rs qs : List Range)
    → IsSeparated rs
    → IsSeparated qs
    → All (λ (r : Range). All (λ (q : Range). r.1 < q.0) qs) rs
    → IsSeparated (rs ++ qs)
IsSeparated-append [] qs hr hq b = hq
IsSeparated-append (r ∷ rs) qs hr hq b = (
  hr.0,
  All-append (λ (q : Range). r.1 < q.0) rs qs hr.1 b.0,
  IsSeparated-append rs qs hr.2 hq b.1,
)

-- Separated runs cut into separated pieces are separated.
pub IsSeparated-flat_map :
    (f : Range → List Range) (rs : List Range)
    → ((r : Range) → IsForward r → IsSeparated (f r) × All (Within r.0 r.1) (f r))
    → IsSeparated rs
    → IsSeparated (flat_map f rs)
IsSeparated-flat_map f [] h s = tt
IsSeparated-flat_map f (r ∷ rs) h s =
    IsSeparated-append (f r) (flat_map f rs) (h r s.0).0 (IsSeparated-flat_map f rs h s.2) (
      All-mono (Within r.0 r.1) (λ (p : Range). All (λ (q : Range). p.1 < q.0) (flat_map f rs))
        (λ p w.
          All-mono (λ (q : Range). r.1 < q.0) (λ q. p.1 < q.0) (λ q k. omega arith) (flat_map f rs)
            (starts_after rs s.1 s.2))
        (f r) (h r s.0).1)
  where
    starts_after :
        (qs : List Range)
        → All (λ (q : Range). r.1 < q.0) qs
        → IsSeparated qs
        → All (λ (q : Range). r.1 < q.0) (flat_map f qs)
    starts_after [] a k = tt
    starts_after (q ∷ qs) a k =
        All-append (λ (p : Range). r.1 < p.0) (f q) (flat_map f qs)
          (All-mono (Within q.0 q.1) (λ p. r.1 < p.0) (λ p w. omega (arith, a.0)) (f q) (h q k.0).1)
          (starts_after qs a.1 k.2)
