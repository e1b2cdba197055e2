-- ===== src/Claims.antt =====
-- `unmapped_items` and `claimed_ranges` of src/modbus_connection/model/_planning.py: what a component
-- without a readable map claims when it is pooled with others.
pub mod Served
use modbus_connection.Prelude.{
  ◌+◌, ◌-◌, Option, none, some, List, [], ◌∷◌, map, if◌then◌else◌, Bool, true, false,
}
use modbus_connection.Const.{Space, Range, space_eq}
use modbus_connection.Errors.{Result, ok, ◌>>=◌}
use modbus_connection.Ranges.{DeviceRanges, for_space, claims}
use modbus_connection.Planning.{Block, Limits, plan_blocks}
use modbus_connection.Reading.{ReadItem, SpaceSpans, spans_from}

abbrev is_none : Option (List Range) → Bool
is_none none = true
is_none (some rs) = false

unfoldable pub unmapped_items : {V : Type 0} → DeviceRanges → List (ReadItem V) → List (ReadItem V)
unfolding for_space
unmapped_items ranges [] = []
unmapped_items ranges (i ∷ is) =
    let rest = unmapped_items ranges is in
    if is_none (for_space ranges i.space) then i ∷ rest else rest

-- `(start, start + count - 1)`
abbrev pub block_range : Block → Range
block_range (start, count) = (start, start + count - 1)

unfoldable pub claim_spaces : Limits → SpaceSpans → Result (List (Space × List Range))
claim_spaces limits [] = ok []
claim_spaces limits ((s, spans) ∷ m) = do
  blocks ← plan_blocks spans none limits
  rest ← claim_spaces limits m
  ok ((s, map block_range blocks) ∷ rest)

-- What the dictionary holds for a space.
unfoldable pub claim_at : List (Space × List Range) → Space → Option (List Range)
claim_at [] s = none
claim_at ((t, rs) ∷ m) s = if space_eq s t then some rs else claim_at m s

-- `claimed_ranges`
unfoldable pub claimed_ranges : {V : Type 0} → List (ReadItem V) → Limits → Result DeviceRanges
unfolding claim_spaces spans_from
claimed_ranges items limits = do
  ranges ← claim_spaces limits (spans_from [] items)
  ok (claims (claim_at ranges))
