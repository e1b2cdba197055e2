-- ===== src/Ranges/Validity.antt =====
-- `_validate_ranges` and `_range_of` of src/modbus_connection/model/_ranges.py.
use modbus_connection.Prelude.{
  ℕ, ◌≤◌, ◌<◌, ◌≡◌, ◌↔◌, refl, sym, inl, inr, some, List, [], ◌∷◌, arith, All, In, All-mono,
  Any-sort, All-sort, sort, sort-IsAscending, IsAscending, Bool-cases, All-In, All-get, Any-intro,
  ◌∙◌, ap,
}
use modbus_connection.Const.{Range}
use modbus_connection.Errors.{ok}
use modbus_connection.Ranges.{
  check_reversed, check_overlap, validate_ranges, contains_address, find_range, range_of,
}
use modbus_connection.Ranges.View.{Inside, Covers, IsForward, IsSeparated}

check_reversed-IsForward : (rs : List Range) → check_reversed rs ≡ ok tt → All IsForward rs
unfolding check_reversed
check_reversed-IsForward [] h = tt
check_reversed-IsForward (r ∷ rs) h = (ground arith, check_reversed-IsForward rs (ground arith))

IsForward-check_reversed : (rs : List Range) → All IsForward rs → check_reversed rs ≡ ok tt
unfolding check_reversed
IsForward-check_reversed [] h = refl
IsForward-check_reversed (r ∷ rs) h = ground (arith, IsForward-check_reversed rs h.1)

-- The test of neighbours is enough, since the ranges are sorted by their lower ends.
check_overlap-IsSeparated :
    (rs : List Range)
    → IsAscending rs
    → All IsForward rs
    → check_overlap rs ≡ ok tt
    → IsSeparated rs
unfolding check_overlap
check_overlap-IsSeparated [] a f h = tt
check_overlap-IsSeparated (r ∷ []) a f h = (f.0, tt, tt)
check_overlap-IsSeparated (r ∷ s ∷ rs) a f h =
    let lt : r.1 < s.0 = ground arith in
    (
      f.0,
      (lt, All-mono (λ q. s.0 ≤ q.0) (λ q. r.1 < q.0) (λ q k. omega arith) rs a.1.0),
      check_overlap-IsSeparated (s ∷ rs) a.1 f.1 (ground arith),
    )

IsSeparated-check_overlap : (rs : List Range) → IsSeparated rs → check_overlap rs ≡ ok tt
unfolding check_overlap
IsSeparated-check_overlap [] h = refl
IsSeparated-check_overlap (r ∷ []) h = refl
IsSeparated-check_overlap (r ∷ s ∷ rs) h = ground (arith, IsSeparated-check_overlap (s ∷ rs) h.2)

pub IsSeparated-IsForward : (rs : List Range) → IsSeparated rs → All IsForward rs
IsSeparated-IsForward [] h = tt
IsSeparated-IsForward (r ∷ rs) h = (h.0, IsSeparated-IsForward rs h.2)

All-sort_back : (P : Range → Type 0) (rs : List Range) → All P (sort rs) → All P rs
All-sort_back P rs h = All-In P rs (λ a m. All-get P a (sort rs) h (Any-sort (λ x. a ≡ x) rs m))

-- Validation accepts exactly the lists whose sorted ranges are forward and pairwise disjoint.
pub validate_ranges-ok_iff :
    (rs : List Range) → (validate_ranges rs ≡ ok tt) ↔ IsSeparated (sort rs)
unfolding validate_ranges
validate_ranges-ok_iff rs = (accepted, separated)
  where
    accepted : validate_ranges rs ≡ ok tt → IsSeparated (sort rs)
    accepted h =
        let forward : All IsForward rs = check_reversed-IsForward rs (ground arith) in
        check_overlap-IsSeparated (sort rs) (sort-IsAscending rs) (All-sort IsForward rs forward)
          (ground arith)

    separated : IsSeparated (sort rs) → validate_ranges rs ≡ ok tt
    separated h =
        let forward : All IsForward rs =
          All-sort_back IsForward rs (IsSeparated-IsForward (sort rs) h) in
        ground (arith, IsForward-check_reversed rs forward, IsSeparated-check_overlap (sort rs) h)

-- In separated ranges an address has one home.
pub IsSeparated-unique :
    (x : ℕ) (r q : Range) (rs : List Range)
    → IsSeparated rs
    → In r rs
    → In q rs
    → Inside x r
    → Inside x q
    → r ≡ q
IsSeparated-unique x r q [] h mr mq ir iq = elim mr [ ]
IsSeparated-unique x r q (s ∷ rs) h (inl er) (inl eq) ir iq = er ∙ sym eq
IsSeparated-unique x r q (s ∷ rs) h (inl er) (inr mq) ir iq =
    let lt : s.1 < q.0 = All-get (λ (p : Range). s.1 < p.0) q rs h.1 mq in absurd (grind arith)
IsSeparated-unique x r q (s ∷ rs) h (inr mr) (inl eq) ir iq =
    let lt : s.1 < r.0 = All-get (λ (p : Range). s.1 < p.0) r rs h.1 mr in absurd (grind arith)
IsSeparated-unique x r q (s ∷ rs) h (inr mr) (inr mq) ir iq =
    IsSeparated-unique x r q rs h.2 mr mq ir iq

-- What the search finds is in the list and holds the address.
pub find_range-some :
    (x : ℕ) (rs : List Range) (r : Range) → find_range x rs ≡ some r → In r rs × Inside x r
unfolding find_range
find_range-some x [] r h = cc
find_range-some x (s ∷ rs) r h = elim (Bool-cases (contains_address x s)) [
  | inl e ↦ unfold contains_address in ground arith
  | inr e ↦ let (m, i) = find_range-some x rs r (rw e at h) in (inr m, i)
]

pub find_range-total :
    (x : ℕ) (rs : List Range) → Covers x rs → (r : Range) × (find_range x rs ≡ some r)
unfolding find_range contains_address
find_range-total x [] h = elim h [ ]
find_range-total x (s ∷ rs) (inl i) = (s, ground arith)
find_range-total x (s ∷ rs) (inr h) = elim (Bool-cases (contains_address x s)) [
  | inl e ↦ (s, rw e)
  | inr e ↦ rw e (find_range-total x rs h)
]

-- On a valid list `_range_of` answers the one range that holds the address, wherever it stands.
pub range_of_iff :
    (x : ℕ) (rs : List Range) (r : Range)
    → validate_ranges rs ≡ ok tt
    → (range_of x (some rs) ≡ some r) ↔ (In r rs × Inside x r)
unfolding range_of
range_of_iff x rs r valid = (find_range-some x rs r, located)
  where
    located : In r rs × Inside x r → find_range x rs ≡ some r
    located (m, i) =
        let (q, found) = find_range-total x rs (Any-intro (Inside x) r rs m i) in
        let (mq, iq) = find_range-some x rs q found in
        found
        ∙ ap some (
            IsSeparated-unique x q r (sort rs) ((validate_ranges-ok_iff rs).0 valid)
              (Any-sort (λ s. q ≡ s) rs mq) (Any-sort (λ s. r ≡ s) rs m) iq i)
