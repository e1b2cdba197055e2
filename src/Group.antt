-- ===== src/Group.antt =====
-- src/modbus_connection/model/component_group.py: the pooled plan of several components on one unit. A
-- member is what the pool uses of a component: its ranges, what it reads and its limits.
pub mod Bounded
pub mod Occupied
use modbus_connection.Prelude.{ℕ, Bool, true, ◌&&◌, List, [], ◌∷◌, ◌++◌, ◌==◌, if◌then◌else◌}
use modbus_connection.Const.{default_max_span}
use modbus_connection.Errors.{Result, ok, err, value_error, ◌>>=◌, ◌>>◌}
use modbus_connection.Ranges.{DeviceRanges, merged}
use modbus_connection.Planning.{Limits}
use modbus_connection.Claims.{claimed_ranges, unmapped_items}
use modbus_connection.Reading.{ReadItem, ReadPlan, build}

pub record Member (V : Type 0) : Type 0 where
  pub ranges : DeviceRanges
  pub items : List (ReadItem V)
  pub limits : Limits

module _ {V : Type 0} where
  -- What a member claims on its own where it has no map.
  unfoldable pub member_claims : Member V → Result DeviceRanges
  unfolding claimed_ranges unmapped_items
  member_claims m = claimed_ranges (unmapped_items m.ranges m.items) m.limits

  unfoldable pub group_parts : List (Member V) → Result (List DeviceRanges)
  unfolding member_claims
  group_parts [] = ok []
  group_parts (m ∷ ms) = do
    claims ← member_claims m
    rest ← group_parts ms
    ok (m.ranges ∷ claims ∷ rest)

  -- `_ranges_by_space`
  unfoldable pub ranges_by_space : List (Member V) → Result DeviceRanges
  unfolding group_parts merged
  ranges_by_space members = do parts ← group_parts members; merged parts

  unfoldable pub all_share : ℕ → List (Member V) → Bool
  all_share max_span [] = true
  all_share max_span (m ∷ ms) = m.limits.max_span == max_span && all_share max_span ms

  -- `_shared("max_span", _MAX_SPAN)`
  unfoldable pub shared_max_span : List (Member V) → Result ℕ
  unfolding all_share
  shared_max_span [] = ok default_max_span
  shared_max_span (m ∷ ms) =
      if all_share m.limits.max_span ms then ok m.limits.max_span else err value_error

  unfoldable pub group_items : List (Member V) → List (ReadItem V)
  group_items [] = []
  group_items (m ∷ ms) = m.items ++ group_items ms

  -- `ComponentGroup.__init__` and `_build_plan`
  unfoldable pub build_group_plan : List (Member V) → Result (ReadPlan V)
  unfolding ranges_by_space shared_max_span group_items build
  build_group_plan members = do
    ranges ← ranges_by_space members
    max_span ← shared_max_span members
    build (group_items members) ranges (record { max_gap = 0; max_span = max_span })
