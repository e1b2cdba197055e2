-- ===== src/Ranges.antt =====
-- src/modbus_connection/model/_ranges.py: readable address ranges and the maps of a device.
-- Addresses, widths and offsets are natural numbers. A Python set is a list; what the source
-- computes from one is sorted first or does not depend on the order.
pub mod View
pub mod Validity
pub mod Coalesce
pub mod Excluding
pub mod Splitting
pub mod Merging
pub mod Conflicts
pub mod Collecting
pub mod Devices
use modbus_connection.Prelude.{
  ℕ, ◌+◌, ◌-◌, Bool, true, false, ◌&&◌, ◌||◌, Option, none, some, List, [], ◌∷◌, ◌++◌, map, max,
  ltb, leb, ◌==◌, if◌then◌else◌, sort, sort_set, sort_numbers, eq_pair, flat_map,
}
use modbus_connection.Const.{Space, holding, input, coil, discrete, Range}
use modbus_connection.Errors.{Result, ok, err, value_error, ◌>>=◌, ◌>>◌}

-- `_range_of`
unfoldable pub contains_address : ℕ → Range → Bool
contains_address address (low, high) = leb low address && leb address high

unfoldable pub find_range : ℕ → List Range → Option Range
unfolding contains_address
find_range address [] = none
find_range address (r ∷ rs) = if contains_address address r then some r else find_range address rs

unfoldable pub range_of : ℕ → Option (List Range) → Option Range
unfolding find_range
range_of address none = none
range_of address (some rs) = find_range address rs

-- `_validate_ranges`
unfoldable pub check_reversed : List Range → Result (Unit {0})
check_reversed [] = ok tt
check_reversed ((low, high) ∷ rs) = if ltb high low then err value_error else check_reversed rs

unfoldable pub check_overlap : List Range → Result (Unit {0})
check_overlap [] = ok tt
check_overlap (r ∷ []) = ok tt
check_overlap (r ∷ s ∷ rs) = if leb s.0 r.1 then err value_error else check_overlap (s ∷ rs)

unfoldable pub validate_ranges : List Range → Result (Unit {0})
unfolding check_reversed check_overlap
validate_ranges ranges = do check_reversed ranges; check_overlap (sort ranges)

-- `_coalesce`: `last` is the entry that the loop still extends.
unfoldable pub join_runs : Range → List Range → List Range
join_runs last [] = last ∷ []
join_runs last (r ∷ rs) =
    let extended = join_runs (last.0, max last.1 r.1) rs in
    let closed = last ∷ join_runs r rs in if leb r.0 (last.1 + 1) then extended else closed

unfoldable pub join_sorted : List Range → List Range
unfolding join_runs
join_sorted [] = []
join_sorted (r ∷ rs) = join_runs r rs

unfoldable pub coalesce : List Range → List Range
unfolding join_sorted
coalesce ranges = join_sorted (sort ranges)

-- `_ranges_excluding`
unfoldable pub cut_out : ℕ → ℕ → List ℕ → List Range
cut_out start high [] = if leb start high then (start, high) ∷ [] else []
cut_out start high (cut ∷ cuts) =
    let rest = cut_out (cut + 1) high cuts in
    if ltb start cut then (start, cut - 1) ∷ rest else rest

unfoldable pub covered_cuts : Range → List ℕ → List ℕ
unfolding contains_address
covered_cuts r [] = []
covered_cuts r (a ∷ rest) =
    if contains_address a r then a ∷ covered_cuts r rest else covered_cuts r rest

unfoldable pub exclude_from : List ℕ → Range → List Range
unfolding cut_out covered_cuts
exclude_from excluded r = cut_out r.0 r.1 (sort_numbers (covered_cuts r excluded))

unfoldable pub ranges_excluding : List Range → List ℕ → List Range
unfolding exclude_from
ranges_excluding intervals excluded = flat_map (exclude_from excluded) intervals

pub record SpaceMap : Type 0 where
  pub ranges : List Range
  pub declared : Bool

-- A space that is absent from the mapping is as one mapped to `None`.
pub record DeviceRanges : Type 0 where
  pub maps : Space → Option SpaceMap

abbrev pub option_map {ℓ κ} : {A : Type ℓ} {B : Type κ} → (A → B) → Option A → Option B
option_map f none = none
option_map f (some a) = some (f a)

abbrev declared_map : List Range → SpaceMap
declared_map rs = record { ranges = rs; declared = true }

abbrev pub claimed_map : List Range → SpaceMap
claimed_map rs = record { ranges = rs; declared = false }

-- `DeviceRanges.declared` and `DeviceRanges.claims`
unfoldable pub declared : (Space → Option (List Range)) → DeviceRanges
declared ranges = record { maps = λ s. option_map declared_map (ranges s) }

unfoldable pub claims : (Space → Option (List Range)) → DeviceRanges
claims ranges = record { maps = λ s. option_map claimed_map (ranges s) }

unfoldable pub for_space : DeviceRanges → Space → Option (List Range)
for_space d s = option_map (λ (m : SpaceMap). m.ranges) (d.maps s)

abbrev pub shift_map : ℕ → SpaceMap → SpaceMap
shift_map offset m = record m {
  ranges = map (λ (r : Range). (r.0 + offset, r.1 + offset)) m.ranges;
}

-- `DeviceRanges.shift`
unfoldable pub shift : DeviceRanges → ℕ → DeviceRanges
shift d offset =
    if offset == 0 then d else record { maps = λ s. option_map (shift_map offset) (d.maps s) }

-- `DeviceRanges.merged`: the range tuples that the devices declare, or claim, for a space.
abbrev pub eq_ranges : List Range → List Range → Bool
eq_ranges [] [] = true
eq_ranges (r ∷ rs) (q ∷ qs) = eq_pair r q && eq_ranges rs qs
eq_ranges _ _ = false

-- `set.add`
unfoldable pub add_ranges : List Range → List (List Range) → List (List Range)
add_ranges rs [] = rs ∷ []
add_ranges rs (q ∷ qs) = if eq_ranges rs q then q ∷ qs else q ∷ add_ranges rs qs

abbrev pub same_kind : Bool → Bool → Bool
same_kind true true = true
same_kind false false = true
same_kind _ _ = false

unfoldable pub add_kind : Bool → Option SpaceMap → List (List Range) → List (List Range)
unfolding add_ranges
add_kind kind none seen = seen
add_kind kind (some m) seen = if same_kind kind m.declared then add_ranges m.ranges seen else seen

unfoldable pub collect : Bool → Space → List DeviceRanges → List (List Range)
unfolding add_kind
collect kind s [] = []
collect kind s (d ∷ ds) = add_kind kind (d.maps s) (collect kind s ds)

abbrev pub edges : Range → List ℕ
edges (low, high) = low ∷ (high + 1) ∷ []

-- A run cut at every declared edge inside it.
unfoldable pub split_run : ℕ → ℕ → List ℕ → List Range
split_run start high [] = (start, high) ∷ []
split_run start high (cut ∷ cuts) =
    let cut_here = (start, cut - 1) ∷ split_run cut high cuts in
    let uncut = split_run start high cuts in
    if ltb start cut && leb cut high then cut_here else uncut

unfoldable pub joint_ranges : List (List Range) → List Range
joint_ranges maps = sort_set (flat_map coalesce maps)

unfoldable pub merged_runs : List (List Range) → List (List Range) → List Range
unfolding split_run joint_ranges
merged_runs declares claimeds =
    flat_map (λ (r : Range). split_run r.0 r.1 (sort_numbers (flat_map (flat_map edges) declares)))
      (coalesce (joint_ranges declares ++ flat_map (λ (rs : List Range). rs) claimeds))

-- `bool(maps)`
abbrev pub non_empty : List (List Range) → Bool
non_empty [] = false
non_empty (rs ∷ rest) = true

unfoldable pub merge_space : List (List Range) → List (List Range) → Result (Option SpaceMap)
unfolding joint_ranges merged_runs
merge_space declares claimeds =
    if non_empty declares || non_empty claimeds
    then (do
      validate_ranges (joint_ranges declares)
      ok (some (record { ranges = merged_runs declares claimeds; declared = non_empty declares })))
    else ok none

abbrev pub by_space {ℓ} : {A : Type ℓ} → A → A → A → A → Space → A
by_space h i c d holding = h
by_space h i c d input = i
by_space h i c d coil = c
by_space h i c d discrete = d

unfoldable pub merged : List DeviceRanges → Result DeviceRanges
unfolding merge_space collect
merged ds = do
  h ← merge_space (collect true holding ds) (collect false holding ds)
  i ← merge_space (collect true input ds) (collect false input ds)
  c ← merge_space (collect true coil ds) (collect false coil ds)
  d ← merge_space (collect true discrete ds) (collect false discrete ds)
  ok (record { maps = by_space h i c d })
