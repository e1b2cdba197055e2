-- ===== src/Group/Bounded.antt =====
-- The addresses that the pooled plan of src/modbus_connection/model/component_group.py requests.
use modbus_connection.Prelude.{
  ℕ, ◌≡◌, ◌≢◌, refl, ap, ◌⊎◌, inl, inr, Option, none, some, List, [], ◌∷◌, arith, All, Any, In,
  All-get, All-In, Any-find, All-append, Any-append_cases, Option-cases,
}
use modbus_connection.Const.{Space, Range}
use modbus_connection.Errors.{ok, >>=-eq-ok, ok-injective}
use modbus_connection.Ranges.{DeviceRanges, SpaceMap, for_space, merged, option_map}
use modbus_connection.Ranges.Collecting.{ForwardDevice, Readable}
use modbus_connection.Ranges.Devices.{merged-Readable_iff, merged-unmapped}
use modbus_connection.Planning.{Span, Block, Limits}
use modbus_connection.Execution.Requests.{Planned}
use modbus_connection.Reading.{ReadItem, ReadPlan, build, spans_from, plan_spaces}
use modbus_connection.Reading.Items.{Needs, HasWidth, spans_from-AllPositive}
use modbus_connection.Claims.{unmapped_items}
use modbus_connection.Claims.Served.{HeldBy, claimed_ranges-holds}
use modbus_connection.Group.{
  Member, member_claims, group_parts, ranges_by_space, shared_max_span, group_items,
  build_group_plan,
}
use modbus_connection.Group.Occupied.{
  spans_from-Occupied, plan_spaces-Readable, claimed_ranges-Forward, claimed_ranges-Occupied,
}

not_held :
    (o : Option SpaceMap) (p : Span)
    → o ≡ none
    → HeldBy (option_map (λ (m : SpaceMap). m.ranges) o) p
    → ⊥
not_held none p e h = h
not_held (some m) p e h = cc

mapped_space :
    (ranges : DeviceRanges) (s : Space)
    → ranges.maps s ≢ none
    → (rs : List Range) × (for_space ranges s ≡ some rs)
unfolding for_space
mapped_space ranges s n = elim (Option-cases (ranges.maps s)) [
  | inl e ↦ absurd (n e)
  | inr (m, e) ↦ (m.ranges, rw e refl)
]

module _ {V : Type 0} where
  -- Fields have a width, and the member's map no reversed range.
  pub record IsMember (m : Member V) : Type 0 where
    pub widths : All HasWidth m.items
    pub forward : ForwardDevice m.ranges

  -- The member may read the address: its map of the space has it, or it has no map of the space and
  -- claims the address by itself.
  pub MayRead : Space → ℕ → Member V → Type 0
  MayRead s x m =
      Readable x (m.ranges.maps s)
      ⊎ ((m.ranges.maps s ≡ none)
          × ((d : DeviceRanges) × (member_claims m ≡ ok d) × Readable x (d.maps s)))

  unmapped-unmapped :
      (ranges : DeviceRanges) (items : List (ReadItem V))
      → All (λ i. ranges.maps i.space ≡ none) (unmapped_items ranges items)
  unfolding unmapped_items for_space
  unmapped-unmapped ranges [] = tt
  unmapped-unmapped ranges (i ∷ is) = elim (Option-cases (ranges.maps i.space)) [
    | inl e ↦ rw e (e, unmapped-unmapped ranges is)
    | inr (m, e) ↦ rw e (unmapped-unmapped ranges is)
  ]

  -- A member claims nothing in a space that it has a map of.
  claims_unmapped :
      (m : Member V) {d : DeviceRanges} (s : Space) (x : ℕ)
      → member_claims m ≡ ok d
      → Readable x (d.maps s)
      → m.ranges.maps s ≡ none
  unfolding member_claims
  claims_unmapped m s x e r =
      let items = unmapped_items m.ranges m.items in
      let (i, here, same) =
        Any-find (λ i. i.space ≡ s) items (claimed_ranges-Occupied items m.limits e s x r) in
      rw (← same) (
        All-get (λ i. m.ranges.maps i.space ≡ none) i items (unmapped-unmapped m.ranges m.items)
          here)

  unmapped-All :
      (P : ReadItem V → Type 0) (ranges : DeviceRanges) (items : List (ReadItem V))
      → All P items
      → All P (unmapped_items ranges items)
  unfolding unmapped_items
  unmapped-All P ranges [] h = tt
  unmapped-All P ranges (i ∷ is) h = ground (arith, unmapped-All P ranges is h.1)

  In-unmapped :
      (ranges : DeviceRanges) (items : List (ReadItem V)) (i : ReadItem V)
      → In i items
      → ranges.maps i.space ≡ none
      → In i (unmapped_items ranges items)
  unfolding unmapped_items for_space
  In-unmapped ranges [] i h e = h
  In-unmapped ranges (j ∷ is) i (inl same) e =
      let here : ranges.maps j.space ≡ none = rw (← same) e in rw here (inl same)
  In-unmapped ranges (j ∷ is) i (inr h) e =
      let rest = In-unmapped ranges is i h e in
      elim (Option-cases (ranges.maps j.space)) [
        | inl here ↦ rw here (inr rest)
        | inr (m, here) ↦ rw here rest
      ]

  -- The parts that are merged, when they are known.
  parts-Forward :
      (members : List (Member V)) (parts : List DeviceRanges)
      → All IsMember members
      → group_parts members ≡ ok parts
      → All ForwardDevice parts
  unfolding group_parts member_claims
  parts-Forward [] parts h e = rw (← ok-injective e) tt
  parts-Forward (m ∷ ms) parts h e =
      let (d, claimed, e') = >>=-eq-ok (member_claims m) _ e in
      let (rest, later, e'') = >>=-eq-ok (group_parts ms) _ e' in
      rw (← ok-injective e'') (
        h.0.forward,
        (
          claimed_ranges-Forward (unmapped_items m.ranges m.items) m.limits
              (unmapped-All HasWidth m.ranges m.items h.0.widths) claimed,
          parts-Forward ms rest h.1 later,
        ),
      )

  -- What some part has, some member may read.
  parts-MayRead :
      (members : List (Member V)) (parts : List DeviceRanges) (s : Space) (x : ℕ)
      → group_parts members ≡ ok parts
      → Any (λ d. Readable x (d.maps s)) parts
      → Any (MayRead s x) members
  unfolding group_parts MayRead
  parts-MayRead [] parts s x e h = elim (rw (← ok-injective e) at h) [ ]
  parts-MayRead (m ∷ ms) parts s x e h =
      let (d, claimed, e') = >>=-eq-ok (member_claims m) _ e in
      let (rest, later, e'') = >>=-eq-ok (group_parts ms) _ e' in
      elim (rw (← ok-injective e'') at h) [
        | inl k ↦ inl (inl k)
        | inr (inl k) ↦ inl (inr (claims_unmapped m s x claimed k, (d, claimed, k)))
        | inr (inr k) ↦ inr (parts-MayRead ms rest s x later k)
      ]

  -- A member that reads the space maps it, or claims of it: not all its parts leave it out.
  parts-mapped :
      (members : List (Member V)) (parts : List DeviceRanges) (i : ReadItem V)
      → All IsMember members
      → group_parts members ≡ ok parts
      → In i (group_items members)
      → All (λ d. d.maps i.space ≡ none) parts
      → ⊥
  unfolding group_parts member_claims group_items for_space
  parts-mapped [] parts i h e m none_at = elim m [ ]
  parts-mapped (k ∷ ks) parts i h e m none_at =
      let (d, claimed, e') = >>=-eq-ok (member_claims k) _ e in
      let (rest, later, e'') = >>=-eq-ok (group_parts ks) _ e' in
      let nothing : All (λ d. d.maps i.space ≡ none) (k.ranges ∷ d ∷ rest) =
        rw (← ok-injective e'') at none_at in
      elim (Any-append_cases (λ j. i ≡ j) k.items (group_items ks) m) [
        | inl own ↦
            let held =
              All-get (Needs (λ s p. HeldBy (for_space d s) p)) i (unmapped_items k.ranges k.items)
                (claimed_ranges-holds (unmapped_items k.ranges k.items) k.limits
                  (unmapped-All HasWidth k.ranges k.items h.0.widths) claimed)
                (In-unmapped k.ranges k.items i own nothing.0) in
            not_held (d.maps i.space) (i.address, i.count) nothing.1.0 held.words
        | inr other ↦ parts-mapped ks rest i h.1 later other nothing.1.1
      ]

  items-HasWidth :
      (members : List (Member V)) → All IsMember members → All HasWidth (group_items members)
  unfolding group_items
  items-HasWidth [] h = tt
  items-HasWidth (m ∷ ms) h =
      All-append HasWidth m.items (group_items ms) h.0.widths (items-HasWidth ms h.1)

  pooled-MayRead :
      (members : List (Member V)) (parts : List DeviceRanges) (ranges : DeviceRanges)
      (limits : Limits) (blocks : List (Space × List Block))
      → All IsMember members
      → group_parts members ≡ ok parts
      → merged parts ≡ ok ranges
      → plan_spaces ranges limits (spans_from [] (group_items members)) ≡ ok blocks
      → (s : Space) (x : ℕ) → Planned s x blocks
      → Any (MayRead s x) members
  pooled-MayRead members parts ranges limits blocks h gathered joined built s x planned =
      let forward = parts-Forward members parts h gathered in
      let items = group_items members in
      let mapped =
        All-In (λ i. (rs : List Range) × (for_space ranges i.space ≡ some rs)) items
          λ i m. mapped_space ranges i.space (λ e.
            parts-mapped members parts i h gathered m
              (merged-unmapped parts ranges forward joined i.space e)) in
      parts-MayRead members parts s x gathered (
        (merged-Readable_iff parts ranges forward joined s x).0 (
          plan_spaces-Readable ranges limits (spans_from [] items)
            (spans_from-AllPositive [] items (items-HasWidth members h) tt)
            (spans_from-Occupied _ [] items mapped tt) built s x planned))

-- Every address that a pooled plan requests may be read by one of the members: it is in the member's
-- own map of the space, or the member has no map of the space and claims the address by itself. This is
-- where members have fields of positive width and no reversed range.
pub build_group_plan-MayRead :
    {V : Type 0} (members : List (Member V)) {plan : ReadPlan V}
    → All IsMember members
    → build_group_plan members ≡ ok plan
    → (s : Space) (x : ℕ) → Planned s x plan.blocks
    → Any (MayRead s x) members
unfolding build_group_plan ranges_by_space build
build_group_plan-MayRead members {plan} h e s x planned =
    let (ranges, by_space, e1) = >>=-eq-ok (ranges_by_space members) _ e in
    let (max_span, shared, e2) = >>=-eq-ok (shared_max_span members) _ e1 in
    let (parts, gathered, joined) = >>=-eq-ok (group_parts members) _ by_space in
    let (blocks, built, e3) =
      >>=-eq-ok (plan_spaces ranges _ (spans_from [] (group_items members))) _ e2 in
    let same : blocks ≡ plan.blocks = ap (λ p. p.blocks) (ok-injective e3) in
    pooled-MayRead members parts ranges _ blocks h gathered joined built s x (rw same planned)
