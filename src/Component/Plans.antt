-- ===== src/Component/Plans.antt =====
-- The readable ranges and the read plan of a component of src/modbus_connection/model/component.py.
use modbus_connection.Prelude.{
  ◌+◌, Bool, true, false, not, ◌||◌, Option, none, some, List, [], ◌∷◌, ◌++◌, map, if◌then◌else◌,
  flat_map,
}
use modbus_connection.Const.{Space, holding, input, coil, discrete, space_eq, Range}
use modbus_connection.Errors.{Result, ok, ◌>>=◌}
use modbus_connection.Ranges.{DeviceRanges, SpaceMap, option_map, shift, merged, for_space}
use modbus_connection.Planning.{Limits}
use modbus_connection.Claims.{claimed_ranges, unmapped_items}
use modbus_connection.Reading.{ReadItem, ReadPlan, build}
use modbus_connection.Component.{Component, own_items, in_spaces}

-- The ranges of a component or an instance, and what it reads.
abbrev pub Part : Type 0 → Type 0
Part V = DeviceRanges × List (ReadItem V)

abbrev pub is_none : Option (List Range) → Bool
is_none none = true
is_none (some rs) = false

module _ {V : Type 0} where
  abbrev pub stated_map : Component V → Space → Option (List Range) → Option SpaceMap
  stated_map c s =
      option_map λ rs. record { ranges = rs; declared = not (in_spaces s c.claimed_spaces) }

  -- What a component states of a space.
  abbrev pub stated_ranges : Component V → Space → Option (List Range)
  stated_ranges c holding = if space_eq c.register_space holding then c.register_ranges else none
  stated_ranges c input = if space_eq c.register_space input then c.register_ranges else none
  stated_ranges c coil = c.coil_ranges
  stated_ranges c discrete = c.discrete_ranges

  -- `_resolved_ranges`, without the instances
  unfoldable pub shifted_ranges : Component V → DeviceRanges
  unfolding shift in_spaces
  shifted_ranges c =
      shift (record { maps = λ s. stated_map c s (stated_ranges c s) })
        (c.base_offset + c.instance_offset)

  unfoldable pub is_constrained : List (Part V) → Space → Bool
  unfolding for_space
  is_constrained [] s = false
  is_constrained ((ranges, items) ∷ parts) s =
      not (is_none (for_space ranges s)) || is_constrained parts s

  unfoldable pub constrained_items : List (Part V) → List (ReadItem V) → List (ReadItem V)
  unfolding is_constrained
  constrained_items parts [] = []
  constrained_items parts (i ∷ is) =
      let rest = constrained_items parts is in
      if is_constrained parts i.space then i ∷ rest else rest

  unfoldable pub unmapped_of : List (Part V) → List (ReadItem V)
  unfolding unmapped_items
  unmapped_of [] = []
  unmapped_of ((ranges, items) ∷ parts) = unmapped_items ranges items ++ unmapped_of parts

  -- The maps of the parts, and the claims of those that have none for a space that another maps.
  unfoldable pub merge_parts : Limits → List (Part V) → Result DeviceRanges
  unfolding constrained_items unmapped_of claimed_ranges merged
  merge_parts limits parts = do
    claims ← claimed_ranges (constrained_items parts (unmapped_of parts)) limits
    merged (map (λ (p : Part V). p.0) parts ++ claims ∷ [])

  -- `_with_instance_ranges`
  unfoldable pub with_instance_ranges : Limits → Part V → List (Part V) → Result DeviceRanges
  unfolding merge_parts
  with_instance_ranges limits own [] = ok own.0
  with_instance_ranges limits own (i ∷ is) = merge_parts limits (own ∷ i ∷ is)

module _ {V : Type 0} (of_bool : Bool → V) where
  -- `_resolved_ranges`
  unfoldable pub resolved_ranges : Component V → List (Part V) → Result DeviceRanges
  unfolding with_instance_ranges shifted_ranges own_items
  resolved_ranges c instances =
      with_instance_ranges c.limits (shifted_ranges c, own_items of_bool c) instances

  -- `_read_items`
  unfoldable pub read_items : Component V → List (Part V) → List (ReadItem V)
  unfolding own_items
  read_items c instances = own_items of_bool c ++ flat_map (λ (p : Part V). p.1) instances

  -- `_build_plan`
  unfoldable pub build_plan : Component V → List (Part V) → Result (ReadPlan V)
  unfolding resolved_ranges read_items build
  build_plan c instances = do
    ranges ← resolved_ranges c instances
    build (read_items c instances) ranges c.limits
