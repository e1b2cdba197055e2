-- ===== src/Planning/Plans.antt =====
-- `_plan_blocks` of src/modbus_connection/model/_planning.py: what its plan guarantees, and when it
-- raises.
use modbus_connection.Prelude.{
  ℕ, ◌+◌, ◌-◌, ◌≤◌, ◌<◌, ◌≡◌, ◌↔◌, refl, sym, ap, ◌∙◌, true, Option, none, some, List, [], ◌∷◌,
  arith, max, All, Any, In, All-mono₂, All-get, All-In, Any-intro, sort_set, All-sort_set,
  Any-sort_set, sort_set-IsAscending, eq_pair,
}
use modbus_connection.Const.{Range}
use modbus_connection.Errors.{ok}
use modbus_connection.Ranges.{range_of}
use modbus_connection.Ranges.Validity.{find_range-some}
use modbus_connection.Planning.{
  Span, Block, Limits, span_end, validate_map, fits_map, fits_range, check_spans, mergeable,
  close_block, group_sorted, plan_blocks,
}
use modbus_connection.Planning.Blocks.{
  InBlock, IsPositive, Reads, joins, group_sorted-covers, group_sorted-All,
}

-- What the checks of the plan ask of one span.
abbrev pub Checked : Option (List Range) → ℕ → Span → Type 0
Checked ranges max_span p = (p.1 ≤ max_span) × (fits_map ranges p ≡ true)

pub check_spans_iff :
    (ranges : Option (List Range)) (max_span : ℕ) (spans : List Span)
    → (check_spans ranges max_span spans ≡ ok tt) ↔ All (Checked ranges max_span) spans
unfolding check_spans
check_spans_iff ranges max_span [] = ((λ h. tt), (λ h. refl))
check_spans_iff ranges max_span (p ∷ spans) = (
  (λ h. ground (arith, (check_spans_iff ranges max_span spans).0)),
  λ h. ground (arith, (check_spans_iff ranges max_span spans).1),
)

pub sorted_back : (P : Span → Type 0) (spans : List Span) → All P (sort_set spans) → All P spans
sorted_back P spans h =
    All-In P spans (λ p m. All-get P p (sort_set spans) h (Any-sort_set (λ q. p ≡ q) spans m))

eq_pair→eq : (r q : Range) → eq_pair r q ≡ true → r ≡ q
eq_pair→eq r q h = ground arith

-- The span lies in one range of the map, the one that its first address is looked up in.
pub record Home (ranges : List Range) (p : Span) : Type 0 where
  pub range : Range
  pub found : range_of p.0 (some ranges) ≡ some range
  pub member : In range ranges
  pub from : range.0 ≤ p.0
  pub to : span_end p ≤ range.1

same-Home :
    (ranges : List Range) (p : Span) (a b : Option Range)
    → range_of p.0 (some ranges) ≡ a
    → range_of (span_end p) (some ranges) ≡ b
    → fits_range a b ≡ true
    → Home ranges p
unfolding range_of
same-Home ranges p none b ea eb h = cc
same-Home ranges p (some r) none ea eb h = cc
same-Home ranges p (some r) (some q) ea eb h =
    let (member, inside) = find_range-some p.0 ranges r ea in
    let (_, ends) = find_range-some (span_end p) ranges r (eb ∙ ap some (sym (eq_pair→eq r q h))) in
    record { range = r; found = ea; member = member; from = inside.0; to = ends.1 }

pub fits_map-Home :
    (ranges : List Range) (p : Span) → fits_map (some ranges) p ≡ true → Home ranges p
unfolding fits_map
fits_map-Home ranges p h =
    same-Home ranges p (range_of p.0 (some ranges)) (range_of (span_end p) (some ranges)) refl refl
      h

-- The open block stays inside the range that it began in.
record OpenIn (ranges : List Range) (s e : ℕ) (r : Option Range) : Type 0 where
  range : Range
  same : r ≡ some range
  member : In range ranges
  from : range.0 ≤ s
  forward : s ≤ e
  to : e ≤ range.1

OpenIn-keeps :
    (ranges : List Range) (limits : Limits) (s e : ℕ) (r : Option Range) (p : Span)
    → OpenIn ranges s e r
    → Home ranges p
    → joins (some ranges) limits s e r p ≡ true
    → OpenIn ranges s (max e (span_end p)) r
unfolding mergeable
OpenIn-keeps ranges limits s e r p o home j =
    let same : o.range ≡ home.range = ground (arith, o.same, home.found) in
    record {
      range = o.range;
      same = o.same;
      member = o.member;
      from = o.from;
      forward = omega (arith, o.forward);
      to = let bound : span_end p ≤ o.range.1 = rw same home.to in omega (arith, o.to, bound);
    }

-- A block inside one range of the map.
abbrev pub InRange : List Range → Block → Type 0
InRange ranges b = Any (λ (r : Range). (r.0 ≤ b.0) × (b.0 + b.1 ≤ r.1 + 1)) ranges

module _ (spans : List Span) (ranges : Option (List Range)) (limits : Limits)
    (positive : All IsPositive spans) {blocks : List Block}
    (planned : plan_blocks spans ranges limits ≡ ok blocks) where
  pub valid : validate_map ranges ≡ ok tt
  unfolding plan_blocks
  valid = ground arith

  pub checked : All (Checked ranges limits.max_span) (sort_set spans)
  unfolding plan_blocks
  checked = (check_spans_iff ranges limits.max_span (sort_set spans)).0 (ground arith)

  pub grouped : blocks ≡ group_sorted ranges limits (sort_set spans)
  unfolding plan_blocks
  grouped = ground arith

  pub sorted_positive : All IsPositive (sort_set spans)
  sorted_positive = All-sort_set IsPositive spans positive

  -- In the plan of spans of positive width every span is read whole by one block.
  pub plan_blocks-Reads : Reads blocks spans
  plan_blocks-Reads = rw grouped (
      sorted_back (λ p. Any (InBlock p) (group_sorted ranges limits (sort_set spans))) spans
        (group_sorted-covers ranges limits (sort_set spans) (sort_set-IsAscending spans)
          sorted_positive))

  -- In the plan of spans of positive width no block is empty or wider than the request limit.
  pub plan_blocks-le : All (λ (b : Block). (0 < b.1) × (b.1 ≤ limits.max_span)) blocks
  unfolding close_block
  plan_blocks-le = rw grouped (
      group_sorted-All ranges limits (λ p. IsPositive p × Checked ranges limits.max_span p)
        (λ s e r. (s ≤ e) × (e + 1 - s ≤ limits.max_span))
        (λ b. (0 < b.1) × (b.1 ≤ limits.max_span)) (λ p g. omega (arith, g.0, g.1.0))
        (λ s e r p o g above j. ground arith) (λ s e r o. omega arith) (sort_set spans)
        (sort_set-IsAscending spans)
        (All-mono₂ IsPositive (Checked ranges limits.max_span) _ (λ p a b. (a, b)) (sort_set spans)
          sorted_positive checked))

-- In the plan of spans of positive width on a mapped space every block lies inside one range of the
-- map.
pub plan_blocks-InRange :
    (spans : List Span) (ranges : List Range) (limits : Limits) {blocks : List Block}
    → All IsPositive spans
    → plan_blocks spans (some ranges) limits ≡ ok blocks
    → All (InRange ranges) blocks
unfolding close_block
plan_blocks-InRange spans ranges limits positive planned =
    rw (grouped spans (some ranges) limits positive planned) (
      group_sorted-All (some ranges) limits (λ p. IsPositive p × Home ranges p) (OpenIn ranges)
        (InRange ranges)
        (λ p g. record {
          range = g.1.range;
          same = g.1.found;
          member = g.1.member;
          from = g.1.from;
          forward = omega (arith, g.0);
          to = g.1.to;
        })
        (λ s e r p o g above j. OpenIn-keeps ranges limits s e r p o g.1 j)
        (λ s e r o.
          Any-intro (λ (q : Range). (q.0 ≤ s) × (s + (e + 1 - s) ≤ q.1 + 1)) o.range ranges o.member
            (o.from, omega (arith, o.forward, o.to)))
        (sort_set spans) (sort_set-IsAscending spans)
        (All-mono₂ IsPositive (Checked (some ranges) limits.max_span) _
          (λ p a b. (a, fits_map-Home ranges p b.1)) (sort_set spans)
          (sorted_positive spans (some ranges) limits positive planned)
          (checked spans (some ranges) limits positive planned)))
