-- ===== src/Ranges/Conflicts.antt =====
-- When the declarations of `DeviceRanges.merged` (src/modbus_connection/model/_ranges.py) conflict.
use modbus_connection.Prelude.{
  ℕ, ◌≤◌, ◌<◌, ◌≡◌, ◌↔◌, refl, inl, inr, true, List, [], ◌∷◌, arith, All, In, All-get, All-In,
  Any-sort, Any-sort_set, sort_set-Any, flat_map, sort, sort_set, sort-id, sort_set-IsStrict,
  IsStrict, lt_pair, leb, Bool-cases,
}
use modbus_connection.Const.{Range}
use modbus_connection.Errors.{ok}
use modbus_connection.Ranges.{validate_ranges, coalesce, joint_ranges}
use modbus_connection.Ranges.View.{Inside, IsForward, IsSeparated}
use modbus_connection.Ranges.Validity.{validate_ranges-ok_iff, IsSeparated-unique}
use modbus_connection.Ranges.Merging.{AllForward, joint_ranges-IsForward}

-- Ranges that share an address are the same range.
abbrev pub Agree : List Range → Type 0
Agree rs = (x : ℕ) (r q : Range) → In r rs → In q rs → Inside x r → Inside x q → r ≡ q

strict_ne : (r q : Range) → lt_pair r q ≡ true → ¬ (r ≡ q)
strict_ne r q h e = ground arith

IsStrict-IsSeparated :
    (rs : List Range) → IsStrict rs → All IsForward rs → Agree rs → IsSeparated rs
IsStrict-IsSeparated [] s f a = tt
IsStrict-IsSeparated (r ∷ rs) s f a = (
  f.0,
  All-In (λ (q : Range). r.1 < q.0) rs after,
  IsStrict-IsSeparated rs s.1 f.1 (λ x p q mp mq. a x p q (inr mp) (inr mq)),
)
  where
    after : (q : Range) → In q rs → r.1 < q.0
    after q m = elim (Bool-cases (leb q.0 r.1)) [
      | inl e ↦
          let lt : lt_pair r q ≡ true = All-get (λ y. lt_pair r y ≡ true) q rs s.0 m in
          let forward : q.0 ≤ q.1 = All-get IsForward q rs f.1 m in
          absurd (
            strict_ne r q lt
              (a q.0 r q (inl refl) (inr m) (ground arith, ground arith) (omega arith, forward)))
      | inr e ↦ ground arith
    ]

-- The joint map is accepted exactly when the coalesced declarations agree wherever they overlap.
pub joint_ranges-ok_iff :
    (maps : List (List Range))
    → AllForward maps
    → (validate_ranges (joint_ranges maps) ≡ ok tt) ↔ Agree (flat_map coalesce maps)
unfolding joint_ranges
joint_ranges-ok_iff maps f = (agree, accept)
  where
    all : List Range
    all = flat_map coalesce maps

    agree : validate_ranges (sort_set all) ≡ ok tt → Agree all
    agree h x r q mr mq =
        IsSeparated-unique x r q (sort (sort_set all)) ((validate_ranges-ok_iff (sort_set all)).0 h)
          (Any-sort (λ y. r ≡ y) (sort_set all) (Any-sort_set (λ y. r ≡ y) all mr))
          (Any-sort (λ y. q ≡ y) (sort_set all) (Any-sort_set (λ y. q ≡ y) all mq))

    accept : Agree all → validate_ranges (sort_set all) ≡ ok tt
    accept a = (validate_ranges-ok_iff (sort_set all)).1 (
        rw (sort-id (sort_set all) (sort_set-IsStrict all)) (
          IsStrict-IsSeparated (sort_set all) (sort_set-IsStrict all)
            (joint_ranges-IsForward maps f)
            (λ x r q mr mq.
              a x r q (sort_set-Any (λ y. r ≡ y) all mr) (sort_set-Any (λ y. q ≡ y) all mq))))
