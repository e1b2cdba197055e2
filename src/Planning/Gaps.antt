-- ===== src/Planning/Gaps.antt =====
-- `_plan_blocks` of src/modbus_connection/model/_planning.py: how little its blocks read beside the
-- spans.
use modbus_connection.Prelude.{
  ℕ, ◌+◌, ◌-◌, ◌≤◌, ◌<◌, ◌≡◌, refl, ◌⊎◌, inl, inr, true, Option, none, List, arith, max, leb, All,
  Any, In, All-mono₂, All-In, Any-find, Any-intro, Any-mono, sort_set, sort_set-Any,
  sort_set-IsAscending, Bool-cases,
}
use modbus_connection.Const.{Range}
use modbus_connection.Errors.{ok}
use modbus_connection.Planning.{Span, Block, Limits, span_end, mergeable, close_block, plan_blocks}
use modbus_connection.Planning.Blocks.{IsPositive, joins, group_sorted-All}
use modbus_connection.Planning.Plans.{grouped, sorted_positive}

-- The address is in a span, or fewer than `gap` addresses behind its last one.
abbrev pub NearSpan : ℕ → ℕ → Span → Type 0
NearSpan gap x p = (p.0 ≤ x) × ((x < p.0 + p.1) ⊎ (x + 1 < p.0 + p.1 + gap))

abbrev pub Near : List Span → ℕ → ℕ → Type 0
Near spans gap x = Any (NearSpan gap x) spans

abbrev EndsAt : List Span → ℕ → Type 0
EndsAt spans e = Any (λ (p : Span). (p.0 ≤ e) × (p.0 + p.1 ≡ e + 1)) spans

record OpenNear (spans : List Span) (gap s e : ℕ) : Type 0 where
  forward : s ≤ e
  near : (x : ℕ) → s ≤ x → x ≤ e → Near spans gap x
  ends : EndsAt spans e

OpenNear-alone :
    (spans : List Span) (gap : ℕ) (p : Span)
    → In p spans
    → IsPositive p
    → OpenNear spans gap p.0 (span_end p)
OpenNear-alone spans gap p m pos = record {
  forward = omega arith;
  near = λ x h k. Any-intro (NearSpan gap x) p spans m (omega arith, inl (omega arith));
  ends =
      Any-intro (λ (q : Span). (q.0 ≤ span_end p) × (q.0 + q.1 ≡ span_end p + 1)) p spans m
        (omega arith);
}

Near-joined :
    (spans : List Span) (limits : Limits) (s e : ℕ) (r : Option Range) (p : Span)
    → OpenNear spans limits.max_gap s e
    → In p spans
    → joins none limits s e r p ≡ true
    → (x : ℕ) → s ≤ x
    → x ≤ max e (span_end p)
    → Near spans limits.max_gap x
unfolding mergeable
Near-joined spans limits s e r p o m j x h k = elim (Bool-cases (leb x e)) [
  | inl old ↦ o.near x h (ground arith)
  | inr new ↦ elim (Bool-cases (leb p.0 x)) [
    | inl in_span ↦ Any-intro (NearSpan limits.max_gap x) p spans m (ground arith)
    | inr in_gap ↦
        let (q, mq, ends) = Any-find (λ (q : Span). (q.0 ≤ e) × (q.0 + q.1 ≡ e + 1)) spans o.ends in
        Any-intro (NearSpan limits.max_gap x) q spans mq (ground arith)
  ]
]

ends_joined :
    (spans : List Span) (e : ℕ) (p : Span)
    → EndsAt spans e
    → In p spans
    → IsPositive p
    → EndsAt spans (max e (span_end p))
ends_joined spans e p ends m pos = elim (Bool-cases (leb (span_end p) e)) [
  | inl old ↦ let same : max e (span_end p) ≡ e = ground arith in rw same ends
  | inr new ↦
      Any-intro (λ (q : Span). (q.0 ≤ max e (span_end p)) × (q.0 + q.1 ≡ max e (span_end p) + 1)) p
        spans m (ground arith)
]

-- In the plan of spans of positive width on an unmapped space, every address that a block reads is in
-- a span, or behind one by fewer than `max_gap` addresses.
pub plan_blocks-Near :
    (spans : List Span) (limits : Limits) {blocks : List Block}
    → All IsPositive spans
    → plan_blocks spans none limits ≡ ok blocks
    → All (λ (b : Block). (x : ℕ) → b.0 ≤ x → x < b.0 + b.1 → Near spans limits.max_gap x) blocks
unfolding close_block
plan_blocks-Near spans limits positive planned = rw (grouped spans none limits positive planned) (
    group_sorted-All none limits (λ p. IsPositive p × In p spans)
      (λ s e r. OpenNear spans limits.max_gap s e)
      (λ b. (x : ℕ) → b.0 ≤ x → x < b.0 + b.1 → Near spans limits.max_gap x)
      (λ p g. OpenNear-alone spans limits.max_gap p g.1 g.0)
      (λ s e r p o g above j. record {
        forward = omega (arith, o.forward);
        near = Near-joined spans limits s e r p o g.1 j;
        ends = ends_joined spans e p o.ends g.1 g.0;
      })
      (λ s e r o x h k. o.near x h (omega (arith, o.forward))) (sort_set spans)
      (sort_set-IsAscending spans)
      (All-mono₂ IsPositive (λ p. In p spans) _ (λ p a b. (a, b)) (sort_set spans)
        (sorted_positive spans none limits positive planned)
        (All-In (λ p. In p spans) (sort_set spans) (λ p m. sort_set-Any (λ q. p ≡ q) spans m))))

abbrev StartsAt : List Span → ℕ → Type 0
StartsAt spans s = Any (λ (p : Span). p.0 ≡ s) spans

-- In the plan of spans of positive width every block starts where a span starts and ends where a
-- span ends, with and without a map.
pub plan_blocks-tight :
    (spans : List Span) (ranges : Option (List Range)) (limits : Limits) {blocks : List Block}
    → All IsPositive spans
    → plan_blocks spans ranges limits ≡ ok blocks
    → All
        (λ (b : Block).
          Any (λ (p : Span). p.0 ≡ b.0) spans × Any (λ (p : Span). p.0 + p.1 ≡ b.0 + b.1) spans)
        blocks
unfolding close_block
plan_blocks-tight spans ranges limits positive planned =
    rw (grouped spans ranges limits positive planned) (
      group_sorted-All ranges limits (λ p. IsPositive p × In p spans)
        (λ s e r. (s ≤ e) × StartsAt spans s × EndsAt spans e)
        (λ b. StartsAt spans b.0 × Any (λ (p : Span). p.0 + p.1 ≡ b.0 + b.1) spans)
        (λ p g. (
          omega (arith, g.0),
          Any-intro (λ (q : Span). q.0 ≡ p.0) p spans g.1 refl,
          Any-intro (λ (q : Span). (q.0 ≤ span_end p) × (q.0 + q.1 ≡ span_end p + 1)) p spans g.1
              (omega (arith, g.0)),
        ))
        (λ s e r p o g above j. (omega (arith, o.0), o.1, ends_joined spans e p o.2 g.1 g.0))
        (λ s e r o. (o.1, closed_end s e o.0 o.2)) (sort_set spans) (sort_set-IsAscending spans)
        (All-mono₂ IsPositive (λ p. In p spans) _ (λ p a b. (a, b)) (sort_set spans)
          (sorted_positive spans ranges limits positive planned)
          (All-In (λ p. In p spans) (sort_set spans) (λ p m. sort_set-Any (λ q. p ≡ q) spans m))))
  where
    closed_end :
        (s e : ℕ) → s ≤ e → EndsAt spans e → Any (λ (p : Span). p.0 + p.1 ≡ s + (e + 1 - s)) spans
    closed_end s e le ends =
        Any-mono (λ (p : Span). (p.0 ≤ e) × (p.0 + p.1 ≡ e + 1)) (λ p. p.0 + p.1 ≡ s + (e + 1 - s))
          (λ p h. omega arith) spans ends
