-- ===== src/Component/Restriction.antt =====
-- `restrict_fields` of src/modbus_connection/model/component.py: the fields that are left, and the ranges.
pub mod Reshaped
use Prim.Native.String.{String}
use modbus_connection.Prelude.{
  ℕ, ◌+◌, ◌-◌, ◌*◌, Bool, true, false, ◌&&◌, ◌||◌, Option, none, some, List, [], ◌∷◌, ◌++◌, map,
  if◌then◌else◌, flat_map, range_from, contains,
}
use modbus_connection.Dict.{Dict, remove}
use modbus_connection.Const.{Space, coil, discrete, space_eq, Range}
use modbus_connection.Errors.{Result, ok, err, value_error, guard}
use modbus_connection.Ranges.{ranges_excluding}
use modbus_connection.Planning.{Span, Limits, plan_blocks}
use modbus_connection.Claims.{block_range}
use modbus_connection.Unit.{Action, ◌>>=◌, ◌>>◌, lift}
use modbus_connection.Fields.Packed.{BitField}
use modbus_connection.Component.{
  Component, Place, register_place, bit_place, RegisterField, declared_address, eq_name,
}

abbrev pub addresses_of : Span → List ℕ
addresses_of (start, count) = range_from start count

-- `excluded.difference_update(range(start, start + count))` for each span
unfoldable pub without : List ℕ → List ℕ → List ℕ
unfolding contains
without [] served = []
without (a ∷ excluded) served =
    let rest = without excluded served in if contains a served then rest else a ∷ rest

-- `f"{space}_ranges"` and `register_ranges` are what is read and set.
abbrev pub set_ranges : {V : Type 0} → Space → Option (List Range) → Component V → Component V
set_ranges coil ranges c = record c { coil_ranges = ranges }
set_ranges discrete ranges c = record c { discrete_ranges = ranges }
set_ranges _ ranges c = record c { register_ranges = ranges }

-- A declaration that was synthesised is a claim.
abbrev pub claimed_too :
    {V : Type 0} → Space → Option (List Range) → Option (List Range) → Component V → Component V
claimed_too s none (some rs) c = record c { claimed_spaces = s ∷ c.claimed_spaces }
claimed_too s before after c = c

abbrev pub reshape :
    Limits → List Span → List ℕ → Option (List Range) → Result (Option (List Range))
reshape limits spans [] declared = ok declared
reshape limits spans (a ∷ excluded) (some ranges) =
    ok (some (ranges_excluding ranges (a ∷ excluded)))
reshape limits [] (a ∷ excluded) none = ok none
reshape limits (p ∷ spans) (a ∷ excluded) none = elim (plan_blocks (p ∷ spans) none limits) [
  | ok blocks ↦ ok (some (ranges_excluding (map block_range blocks) (a ∷ excluded)))
  | err e ↦ err e
]

unfoldable pub contains_name : String → List String → Bool
contains_name name [] = false
contains_name name (n ∷ names) = eq_name name n || contains_name name names

-- `_partition`: the kept and the dropped fields.
unfoldable pub partition :
    {F : Type 0} → Dict String F → List String → Dict String F × Dict String F
unfolding contains_name
partition [] keep = ([], [])
partition ((name, field) ∷ fields) keep =
    let (kept, dropped) = partition fields keep in
    if contains_name name keep
    then ((name, field) ∷ kept, dropped)
    else (kept, (name, field) ∷ dropped)

unfoldable pub has_key : {F : Type 0} → String → Dict String F → Bool
has_key name [] = false
has_key name ((n, f) ∷ fields) = eq_name name n || has_key name fields

abbrev pub is_nil : {F : Type 0} → List F → Bool
is_nil [] = true
is_nil (f ∷ fs) = false

module _ {V : Type 0} where
  abbrev pub scale_span : Component V → Place → Option ℕ → List Span
  scale_span c p none = []
  scale_span c p (some r) = (r + p.scale_register_stride * (c.index - 1), 1) ∷ []

  -- What a kept field reads.
  unfoldable pub kept_spans : Component V → List Place → List Span
  unfolding declared_address
  kept_spans c [] = []
  kept_spans c (p ∷ ps) =
      (declared_address c p, p.count) ∷ scale_span c p p.scale_register ++ kept_spans c ps

  unfoldable pub dropped_addresses : Component V → List Place → List ℕ
  unfolding declared_address
  dropped_addresses c ps = flat_map (λ (p : Place). range_from (declared_address c p) p.count) ps

  -- The addresses that only dropped fields have.
  unfoldable pub excluded_addresses : Component V → List Place → List Place → List ℕ
  unfolding without kept_spans dropped_addresses
  excluded_addresses c kept dropped =
      without (dropped_addresses c dropped) (flat_map addresses_of (kept_spans c kept))

  -- `_reshaped_ranges`
  unfoldable pub reshaped_ranges :
      Component V → Option (List Range) → List Place → List Place → Result (Option (List Range))
  unfolding excluded_addresses kept_spans plan_blocks ranges_excluding
  reshaped_ranges c declared kept dropped =
      reshape c.limits (kept_spans c kept) (excluded_addresses c kept dropped) declared

  -- No name is unknown.
  unfoldable pub all_known : Component V → List String → Bool
  unfolding has_key
  all_known c [] = true
  all_known c (name ∷ names) =
      (has_key name c.register_fields || has_key name c.bit_fields) && all_known c names

  abbrev pub register_places : Dict String (RegisterField V) → List Place
  register_places = map (λ (e : String × RegisterField V). register_place e.1.register)

  -- The bits of one space.
  unfoldable pub bit_places : Space → Dict String (BitField V) → List Place
  bit_places s [] = []
  bit_places s ((name, b) ∷ fields) =
      let rest = bit_places s fields in if space_eq b.space s then bit_place b ∷ rest else rest

  -- The ranges of one space are reshaped and set.
  unfoldable pub reshape_space :
      Space
      → (Component V → Option (List Range))
      → List Place
      → List Place
      → Action (Component V) (Unit {0})
  unfolding reshaped_ranges
  reshape_space s stated kept dropped c = elim (reshaped_ranges c (stated c) kept dropped) [
    | ok reshaped ↦ (ok tt, claimed_too s (stated c) reshaped (set_ranges s reshaped c))
    | err e ↦ (err e, c)
  ]

  unfoldable pub drop_values : {F : Type 0} → Dict String F → Dict String V → Dict String V
  unfolding remove
  drop_values [] values = values
  drop_values ((name, f) ∷ dropped) values = drop_values dropped (remove eq_name name values)

  -- The fields that are left, and the values that were read of them.
  unfoldable pub narrow : List String → Component V → Component V
  unfolding partition drop_values
  narrow keep c =
      let (registers, dropped_registers) = partition c.register_fields keep in
      let (bits, dropped_bits) = partition c.bit_fields keep in
      record c {
        register_fields = registers;
        bit_fields = bits;
        values = drop_values dropped_registers c.values;
        bits = drop_values dropped_bits c.bits;
      }

  -- `restrict_fields`; what was set before it raised stays.
  unfoldable pub restrict_fields : List String → Action (Component V) (Unit {0})
  unfolding partition all_known bit_places reshape_space narrow
  restrict_fields keep c =
      let registers = partition c.register_fields keep in
      let bits = partition c.bit_fields keep in
      (do
        lift (guard (is_nil c.static_groups && is_nil c.repeating_fields) value_error)
        lift (guard (all_known c keep) value_error)
        reshape_space c.register_space (λ d. d.register_ranges) (register_places registers.0)
            (register_places registers.1)
        reshape_space coil (λ d. d.coil_ranges) (bit_places coil bits.0) (bit_places coil bits.1)
        reshape_space discrete (λ d. d.discrete_ranges) (bit_places discrete bits.0)
            (bit_places discrete bits.1)
        λ d. (ok tt, narrow keep d))
        c
