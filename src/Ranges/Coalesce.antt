-- ===== src/Ranges/Coalesce.antt =====
-- `_coalesce` of src/modbus_connection/model/_ranges.py.
use modbus_connection.Prelude.{
  ℕ, ◌+◌, ◌≤◌, ◌<◌, ◌↔◌, inl, inr, List, [], ◌∷◌, arith, max, leb, All, All-mono, Any-sort,
  sort-Any, All-sort, sort, sort-IsAscending, IsAscending, Bool-cases,
}
use modbus_connection.Const.{Range}
use modbus_connection.Ranges.{join_runs, join_sorted, coalesce}
use modbus_connection.Ranges.View.{Inside, Covers, IsForward, IsSeparated}
use modbus_connection.Ranges.Validity.{IsSeparated-IsForward}

-- Separated with an address to spare between neighbours: nothing is left to join.
abbrev pub IsApart : List Range → Type 0
IsApart [] = Unit
IsApart (r ∷ rs) = IsForward r × All (λ (q : Range). r.1 + 1 < q.0) rs × IsApart rs

pub IsApart-IsSeparated : (rs : List Range) → IsApart rs → IsSeparated rs
IsApart-IsSeparated [] h = tt
IsApart-IsSeparated (r ∷ rs) h = (
  h.0,
  All-mono (λ (q : Range). r.1 + 1 < q.0) (λ q. r.1 < q.0) (λ q k. omega arith) rs h.1,
  IsApart-IsSeparated rs h.2,
)

join_runs-from :
    (n : ℕ) (last : Range) (rs : List Range)
    → n ≤ last.0
    → All (λ (q : Range). n ≤ q.0) rs
    → All (λ (q : Range). n ≤ q.0) (join_runs last rs)
unfolding join_runs
join_runs-from n last [] h a = (h, tt)
join_runs-from n last (r ∷ rs) h a =
    ground
      (arith, join_runs-from n (last.0, max last.1 r.1) rs h a.1, join_runs-from n r rs a.0 a.1)

join_runs-IsApart :
    (last : Range) (rs : List Range)
    → IsAscending (last ∷ rs)
    → IsForward last
    → All IsForward rs
    → IsApart (join_runs last rs)
unfolding join_runs
join_runs-IsApart last [] a f fs = (f, tt, tt)
join_runs-IsApart last (r ∷ rs) a f fs = elim (Bool-cases (leb r.0 (last.1 + 1))) [
  | inl e ↦ rw e (join_runs-IsApart (last.0, max last.1 r.1) rs (a.0.1, a.1.1) (omega arith) fs.1)
  | inr e ↦
      let lt : last.1 + 1 < r.0 = ground arith in
      rw e (
        f,
        All-mono (λ (q : Range). r.0 ≤ q.0) (λ q. last.1 + 1 < q.0) (λ q k. omega arith)
            (join_runs r rs) (join_runs-from r.0 r rs (omega arith) a.1.0),
        join_runs-IsApart r rs a.1 fs.0 fs.1,
      )
]

join_runs-Covers :
    (x : ℕ) (last : Range) (rs : List Range)
    → IsAscending (last ∷ rs)
    → Covers x (last ∷ rs)
    → Covers x (join_runs last rs)
unfolding join_runs
join_runs-Covers x last [] a h = h
join_runs-Covers x last (r ∷ rs) a h = ground (
  arith,
  join_runs-Covers x (last.0, max last.1 r.1) rs (a.0.1, a.1.1),
  join_runs-Covers x r rs a.1,
)

Covers-join_runs :
    (x : ℕ) (last : Range) (rs : List Range)
    → IsAscending (last ∷ rs)
    → All IsForward rs
    → Covers x (join_runs last rs)
    → Covers x (last ∷ rs)
unfolding join_runs
Covers-join_runs x last [] a f h = h
Covers-join_runs x last (r ∷ rs) a f h = ground (
  arith,
  Covers-join_runs x (last.0, max last.1 r.1) rs (a.0.1, a.1.1) f.1,
  Covers-join_runs x r rs a.1 f.1,
)

-- For ranges that are not reversed, the result covers the same addresses, and no two of its ranges
-- touch or overlap.
pub coalesce_lem :
    (rs : List Range)
    → All IsForward rs
    → IsApart (coalesce rs) × ((x : ℕ) → Covers x (coalesce rs) ↔ Covers x rs)
unfolding coalesce join_sorted
coalesce_lem rs f =
    sorted_case (sort rs) (sort-IsAscending rs) (All-sort IsForward rs f)
      (λ x. Any-sort (Inside x) rs) (λ x. sort-Any (Inside x) rs)
  where
    sorted_case :
        (s : List Range)
        → IsAscending s
        → All IsForward s
        → ((x : ℕ) → Covers x rs → Covers x s)
        → ((x : ℕ) → Covers x s → Covers x rs)
        → IsApart (join_sorted s) × ((x : ℕ) → Covers x (join_sorted s) ↔ Covers x rs)
    sorted_case [] a fs to from = (tt, λ x. (from x, to x))
    sorted_case (r ∷ s) a fs to from = (
      join_runs-IsApart r s a fs.0 fs.1,
      λ x. (
        (λ h. from x (Covers-join_runs x r s a fs.1 h)),
        (λ h. join_runs-Covers x r s a (to x h)),
      ),
    )

pub coalesce-IsForward : (rs : List Range) → All IsForward rs → All IsForward (coalesce rs)
coalesce-IsForward rs f =
    IsSeparated-IsForward (coalesce rs) (IsApart-IsSeparated (coalesce rs) (coalesce_lem rs f).0)
