-- ===== src/Planning.antt =====
-- src/modbus_connection/model/_planning.py: grouping addresses into block reads.
-- Widths are positive where it matters (a field spans one register or more), so `address + width - 1`
-- is what Python computes.
pub mod Blocks
pub mod Plans
pub mod Gaps
pub mod Refusals
use modbus_connection.Prelude.{
  ℕ, ◌+◌, ◌-◌, Bool, true, false, ◌&&◌, Option, none, some, List, [], ◌∷◌, max, leb, if◌then◌else◌,
  sort_set, eq_pair,
}
use modbus_connection.Const.{Range}
use modbus_connection.Errors.{Result, ok, value_error, ◌>>=◌, ◌>>◌, guard}
use modbus_connection.Ranges.{validate_ranges, range_of}

-- An (address, width) pair; a block is a (start, count) pair.
abbrev pub Span : Type 0
Span = ℕ × ℕ

abbrev pub Block : Type 0
Block = ℕ × ℕ

pub record Limits : Type 0 where
  pub max_gap : ℕ
  pub max_span : ℕ

-- The last address of a span.
abbrev pub span_end : Span → ℕ
span_end (address, width) = address + width - 1

unfoldable pub validate_map : Option (List Range) → Result (Unit {0})
validate_map none = ok tt
validate_map (some ranges) = validate_ranges ranges

abbrev pub same_range : Option Range → Option Range → Bool
same_range none none = true
same_range (some r) (some q) = eq_pair r q
same_range _ _ = false

-- `span_range is not None and span_range == _range_of(end)`
abbrev pub fits_range : Option Range → Option Range → Bool
fits_range none q = false
fits_range (some r) q = same_range (some r) q

unfoldable pub fits_map : Option (List Range) → Span → Bool
fits_map none span = true
fits_map (some ranges) span =
    fits_range (range_of span.0 (some ranges)) (range_of (span_end span) (some ranges))

-- The loop that raises for a span that is too wide or that no range holds.
unfoldable pub check_spans : Option (List Range) → ℕ → List Span → Result (Unit {0})
unfolding fits_map
check_spans ranges max_span [] = ok tt
check_spans ranges max_span (span ∷ spans) = do
  guard (leb span.1 max_span) value_error
  guard (fits_map ranges span) value_error
  check_spans ranges max_span spans

-- `mergeable`
unfoldable pub mergeable : Option (List Range) → Limits → ℕ → Option Range → Span → Bool
mergeable none limits block_end block_range span = leb (span.0 - block_end) limits.max_gap
mergeable (some ranges) limits block_end block_range span =
    same_range (range_of span.0 (some ranges)) block_range

unfoldable pub close_block : ℕ → ℕ → Block
close_block block_start block_end = (block_start, block_end + 1 - block_start)

-- The loop over the spans behind the first, with `block_start`, `block_end` and `block_range`.
unfoldable pub group_spans :
    Option (List Range) → Limits → ℕ → ℕ → Option Range → List Span → List Block
unfolding mergeable close_block
group_spans ranges limits block_start block_end block_range [] =
    close_block block_start block_end ∷ []
group_spans ranges limits block_start block_end block_range (span ∷ spans) =
    let extended =
      group_spans ranges limits block_start (max block_end (span_end span)) block_range spans in
    let closed =
      close_block block_start block_end
      ∷ group_spans ranges limits span.0 (span_end span) (range_of span.0 ranges) spans in
    if mergeable ranges limits block_end block_range span
      && leb (span_end span + 1 - block_start) limits.max_span
    then extended
    else closed

unfoldable pub group_sorted : Option (List Range) → Limits → List Span → List Block
unfolding group_spans
group_sorted ranges limits [] = []
group_sorted ranges limits (span ∷ spans) =
    group_spans ranges limits span.0 (span_end span) (range_of span.0 ranges) spans

-- `_plan_blocks`
unfoldable pub plan_blocks : List Span → Option (List Range) → Limits → Result (List Block)
unfolding validate_map check_spans group_sorted
plan_blocks spans ranges limits = do
  validate_map ranges
  check_spans ranges limits.max_span (sort_set spans)
  ok (group_sorted ranges limits (sort_set spans))
