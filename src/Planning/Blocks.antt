-- ===== src/Planning/Blocks.antt =====
-- `_plan_blocks` of src/modbus_connection/model/_planning.py: the blocks that it returns.
use modbus_connection.Prelude.{
  ℕ, ◌+◌, ◌-◌, ◌≤◌, ◌<◌, ◌≡◌, sym, inl, inr, Bool, true, false, ◌&&◌, Option, List, [], ◌∷◌, arith,
  max, leb, All, Any, All-mono, IsAscending, Bool-cases,
}
use mathlib.Core.Path.{subst}
use modbus_connection.Const.{Range}
use modbus_connection.Ranges.{range_of}
use modbus_connection.Planning.{
  Span, Block, Limits, span_end, mergeable, close_block, group_spans, group_sorted,
}

-- The block reads every address of the span.
abbrev pub InBlock : Span → Block → Type 0
InBlock span block = (block.0 ≤ span.0) × (span.0 + span.1 ≤ block.0 + block.1)

abbrev pub IsPositive : Span → Type 0
IsPositive span = 0 < span.1

-- Every span is read whole by one of the blocks.
abbrev pub Reads : List Block → List Span → Type 0
Reads blocks = All (λ p. Any (InBlock p) blocks)

-- The test under which a span joins the open block.
abbrev pub joins : Option (List Range) → Limits → ℕ → ℕ → Option Range → Span → Bool
joins ranges limits s e r span =
    mergeable ranges limits e r span && leb (span_end span + 1 - s) limits.max_span

module _ (ranges : Option (List Range)) (limits : Limits) where
  group-Any :
      (target : Span) (s e : ℕ) (r : Option Range) (rest : List Span)
      → s ≤ target.0
      → target.0 + target.1 ≤ e + 1
      → Any (InBlock target) (group_spans ranges limits s e r rest)
  unfolding group_spans
  group-Any target s e r [] h k = inl (h, omega arith)
  group-Any target s e r (p ∷ rest) h k =
      ground (arith, group-Any target s (max e (span_end p)) r rest h)

  next_block : Span → List Span → List Block
  next_block p rest = group_spans ranges limits p.0 (span_end p) (range_of p.0 ranges) rest

  group-joined :
      (s e : ℕ) (r : Option Range) (p : Span) (rest : List Span)
      → joins ranges limits s e r p ≡ true
      → group_spans ranges limits s e r (p ∷ rest)
        ≡ group_spans ranges limits s (max e (span_end p)) r rest
  unfolding group_spans
  group-joined s e r p rest j = rw j

  group-closed :
      (s e : ℕ) (r : Option Range) (p : Span) (rest : List Span)
      → joins ranges limits s e r p ≡ false
      → group_spans ranges limits s e r (p ∷ rest) ≡ close_block s e ∷ next_block p rest
  unfolding group_spans next_block
  group-closed s e r p rest j = rw j

  group-rest :
      (s e : ℕ) (r : Option Range) (rest : List Span)
      → All (λ (p : Span). s ≤ p.0) rest
      → IsAscending rest
      → All IsPositive rest
      → Reads (group_spans ranges limits s e r rest) rest
  unfolding next_block
  group-rest s e r [] above asc pos = tt
  group-rest s e r (p ∷ rest) above asc pos = elim (Bool-cases (joins ranges limits s e r p)) [
    | inl j ↦
        subst (λ blocks. Reads blocks (p ∷ rest)) (sym (group-joined s e r p rest j))
          (
            group-Any p s (max e (span_end p)) r rest above.0 (omega (arith, pos.0)),
            group-rest s (max e (span_end p)) r rest above.1 asc.1 pos.1,
          )
    | inr j ↦
        subst (λ blocks. Reads blocks (p ∷ rest)) (sym (group-closed s e r p rest j))
          (
            inr (
                group-Any p p.0 (span_end p) (range_of p.0 ranges) rest (omega arith)
                  (omega (arith, pos.0))),
            All-mono (λ q. Any (InBlock q) (next_block p rest))
                (λ q. Any (InBlock q) (close_block s e ∷ next_block p rest)) (λ q m. inr m) rest
                (group-rest p.0 (span_end p) (range_of p.0 ranges) rest asc.0 asc.1 pos.1),
          )
  ]

  pub group_sorted-covers :
      (spans : List Span)
      → IsAscending spans
      → All IsPositive spans
      → Reads (group_sorted ranges limits spans) spans
  unfolding group_sorted
  group_sorted-covers [] asc pos = tt
  group_sorted-covers (p ∷ rest) asc pos = (
    group-Any p p.0 (span_end p) (range_of p.0 ranges) rest (omega arith) (omega (arith, pos.0)),
    group-rest p.0 (span_end p) (range_of p.0 ranges) rest asc.0 asc.1 pos.1,
  )

-- An invariant of the open block: it holds of a span alone, and a span that joins keeps it. What it
-- gives for a block that is closed holds of every block.
module _ (ranges : Option (List Range)) (limits : Limits) (Good : Span → Type 0)
    (Open : ℕ → ℕ → Option Range → Type 0) (Closed : Block → Type 0)
    (alone : (p : Span) → Good p → Open p.0 (span_end p) (range_of p.0 ranges))
    (keeps : (s e : ℕ) (r : Option Range) (p : Span)
      → Open s e r
      → Good p
      → s ≤ p.0
      → joins ranges limits s e r p ≡ true
      → Open s (max e (span_end p)) r)
    (closes : (s e : ℕ) (r : Option Range) → Open s e r → Closed (close_block s e)) where
  group-All :
      (s e : ℕ) (r : Option Range) (rest : List Span)
      → All (λ (p : Span). s ≤ p.0) rest
      → IsAscending rest
      → All Good rest
      → Open s e r
      → All Closed (group_spans ranges limits s e r rest)
  unfolding group_spans
  group-All s e r [] above asc good o = (closes s e r o, tt)
  group-All s e r (p ∷ rest) above asc good o = elim (Bool-cases (joins ranges limits s e r p)) [
    | inl j ↦ rw j (
        group-All s (max e (span_end p)) r rest above.1 asc.1 good.1
          (keeps s e r p o good.0 above.0 j))
    | inr j ↦ rw j (
      closes s e r o,
      group-All p.0 (span_end p) (range_of p.0 ranges) rest asc.0 asc.1 good.1 (alone p good.0),
    )
  ]

  pub group_sorted-All :
      (spans : List Span)
      → IsAscending spans
      → All Good spans
      → All Closed (group_sorted ranges limits spans)
  unfolding group_sorted
  group_sorted-All [] asc good = tt
  group_sorted-All (p ∷ rest) asc good =
      group-All p.0 (span_end p) (range_of p.0 ranges) rest asc.0 asc.1 good.1 (alone p good.0)
