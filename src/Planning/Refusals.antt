-- ===== src/Planning/Refusals.antt =====
-- `_plan_blocks` of src/modbus_connection/model/_planning.py: when it raises `ValueError`.
use modbus_connection.Prelude.{
  ℕ, ◌≤◌, ◌≡◌, ◌↔◌, refl, ◌⊎◌, inl, inr, true, Option, none, some, List, [], ◌∷◌, arith, All, Any,
  All-mono, Any-intro, Any-find, All-mono₂, sort, sort_set, All-sort_set,
}
use modbus_connection.Const.{Range}
use modbus_connection.Errors.{Result, ok, err, value_error}
use modbus_connection.Ranges.{validate_ranges, check_reversed, check_overlap}
use modbus_connection.Ranges.Validity.{range_of_iff}
use modbus_connection.Planning.{
  Span, Block, Limits, span_end, validate_map, fits_map, check_spans, group_sorted, plan_blocks,
}
use modbus_connection.Planning.Blocks.{IsPositive}
use modbus_connection.Planning.Plans.{
  Checked, check_spans_iff, sorted_back, valid, checked, fits_map-Home,
}

-- A map that validation accepts, where there is one.
abbrev pub IsValid : Option (List Range) → Type 0
IsValid none = Unit
IsValid (some ranges) = validate_ranges ranges ≡ ok tt

-- The span lies in one range of the map, where there is one.
abbrev pub IsServed : Option (List Range) → Span → Type 0
IsServed none p = Unit
IsServed (some ranges) p = Any (λ (r : Range). (r.0 ≤ p.0) × (span_end p ≤ r.1)) ranges

Served-fits_map :
    (ranges : Option (List Range)) (p : Span)
    → IsValid ranges
    → IsPositive p
    → IsServed ranges p
    → fits_map ranges p ≡ true
unfolding fits_map
Served-fits_map none p v pos s = refl
Served-fits_map (some ranges) p v pos s =
    let (r, m, i) = Any-find (λ (r : Range). (r.0 ≤ p.0) × (span_end p ≤ r.1)) ranges s in
    let first = (range_of_iff p.0 ranges r v).1 (m, omega arith) in
    let last = (range_of_iff (span_end p) ranges r v).1 (m, omega arith) in
    rw (first, last) (ground arith)

fits_map-Served :
    (ranges : Option (List Range)) (p : Span) → fits_map ranges p ≡ true → IsServed ranges p
fits_map-Served none p h = tt
fits_map-Served (some ranges) p h =
    let home = fits_map-Home ranges p h in
    Any-intro (λ (r : Range). (r.0 ≤ p.0) × (span_end p ≤ r.1)) home.range ranges home.member
      (home.from, home.to)

validate_map_iff : (ranges : Option (List Range)) → (validate_map ranges ≡ ok tt) ↔ IsValid ranges
unfolding validate_map
validate_map_iff none = ((λ h. tt), (λ h. refl))
validate_map_iff (some ranges) = ((λ h. h), (λ h. h))

-- A check returns nothing, or raises `ValueError`.
abbrev Checks : Result (Unit {0}) → Type 0
Checks m = (m ≡ ok tt) ⊎ (m ≡ err value_error)

check_reversed-Checks : (rs : List Range) → Checks (check_reversed rs)
unfolding check_reversed
check_reversed-Checks [] = inl refl
check_reversed-Checks (r ∷ rs) = ground (arith, check_reversed-Checks rs)

check_overlap-Checks : (rs : List Range) → Checks (check_overlap rs)
unfolding check_overlap
check_overlap-Checks [] = inl refl
check_overlap-Checks (r ∷ []) = inl refl
check_overlap-Checks (r ∷ s ∷ rs) = ground (arith, check_overlap-Checks (s ∷ rs))

validate_map-Checks : (ranges : Option (List Range)) → Checks (validate_map ranges)
unfolding validate_map validate_ranges
validate_map-Checks none = inl refl
validate_map-Checks (some ranges) =
    ground (arith, check_reversed-Checks ranges, check_overlap-Checks (sort ranges))

check_spans-Checks :
    (ranges : Option (List Range)) (max_span : ℕ) (spans : List Span)
    → Checks (check_spans ranges max_span spans)
unfolding check_spans
check_spans-Checks ranges max_span [] = inl refl
check_spans-Checks ranges max_span (p ∷ spans) =
    ground (arith, check_spans-Checks ranges max_span spans)

-- What a plan needs: a valid map, and every span within the request limit and in one range.
abbrev pub Plannable : List Span → Option (List Range) → Limits → Type 0
Plannable spans ranges limits =
    IsValid ranges × All (λ p. (p.1 ≤ limits.max_span) × IsServed ranges p) spans

module _ (spans : List Span) (ranges : Option (List Range)) (limits : Limits)
    (positive : All IsPositive spans) where
  planned-Plannable :
      (blocks : List Block)
      → plan_blocks spans ranges limits ≡ ok blocks
      → Plannable spans ranges limits
  planned-Plannable blocks planned = (
    (validate_map_iff ranges).0 (valid spans ranges limits positive planned),
    sorted_back (λ p. (p.1 ≤ limits.max_span) × IsServed ranges p) spans
        (All-mono (Checked ranges limits.max_span)
          (λ p. (p.1 ≤ limits.max_span) × IsServed ranges p)
          (λ p c. (c.0, fits_map-Served ranges p c.1)) (sort_set spans)
          (checked spans ranges limits positive planned)),
  )

  checks_pass :
      Plannable spans ranges limits → check_spans ranges limits.max_span (sort_set spans) ≡ ok tt
  checks_pass (v, served) = (check_spans_iff ranges limits.max_span (sort_set spans)).1 (
      All-sort_set (Checked ranges limits.max_span) spans (
        All-mono₂ IsPositive (λ p. (p.1 ≤ limits.max_span) × IsServed ranges p)
          (Checked ranges limits.max_span) (λ p pos s. (s.0, Served-fits_map ranges p v pos s.1))
          spans positive served))

  -- For spans of positive width, either the map is valid and every span is within the request limit
  -- and inside one readable range, and a plan is made; or this is not so, and `ValueError` is raised.
  pub plan_blocks_cases :
      (Plannable spans ranges limits
        × ((blocks : List Block) × (plan_blocks spans ranges limits ≡ ok blocks)))
      ⊎ (¬ Plannable spans ranges limits × (plan_blocks spans ranges limits ≡ err value_error))
  plan_blocks_cases = elim outcome [
    | inl (blocks, p) ↦ inl (planned-Plannable blocks p, (blocks, p))
    | inr e ↦ inr ((λ p. differ e (plans p)), e)
  ]
    where
      plans :
          Plannable spans ranges limits
          → plan_blocks spans ranges limits ≡ ok (group_sorted ranges limits (sort_set spans))
      plans p = unfold plan_blocks in rw ((validate_map_iff ranges).1 p.0, checks_pass p) refl

      differ : {bs : List Block} {r : Result (List Block)} → r ≡ err value_error → r ≡ ok bs → ⊥
      differ e o = ground (arith, e, o)

      outcome :
          ((blocks : List Block) × (plan_blocks spans ranges limits ≡ ok blocks))
          ⊎ (plan_blocks spans ranges limits ≡ err value_error)
      outcome = elim (validate_map-Checks ranges) [
        | inr e ↦ inr (unfold plan_blocks in rw e refl)
        | inl v ↦ elim (check_spans-Checks ranges limits.max_span (sort_set spans)) [
          | inr e ↦ inr (unfold plan_blocks in rw (v, e) refl)
          | inl c ↦
              inl
                (group_sorted ranges limits (sort_set spans), unfold plan_blocks in rw (v, c) refl)
        ]
      ]
