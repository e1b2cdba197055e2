-- ===== src/Group/Occupied.antt =====
-- The spaces of the spans of items (`_spans` of src/modbus_connection/model/_planning.py), and the maps
-- of spaces that nothing states.
use modbus_connection.Prelude.{
  ℕ, ◌≤◌, ◌<◌, ◌≡◌, inl, inr, Option, none, some, List, [], ◌∷◌, map, arith, All, All-get, refl,
  Any, Any-intro, All-In, Any-mono, Any-find, Bool-cases,
}
use modbus_connection.Const.{Space, Range, space_eq, space_eq_iff}
use modbus_connection.Errors.{ok, >>=-eq-ok, ok-injective, some-injective}
use modbus_connection.Ranges.{DeviceRanges, SpaceMap, for_space, claims, option_map, claimed_map}
use modbus_connection.Ranges.View.{Covers, IsForward}
use modbus_connection.Ranges.Collecting.{ForwardDevice, ForwardMap, Readable}
use modbus_connection.Planning.{Span, Block, Limits, plan_blocks}
use modbus_connection.Planning.Blocks.{IsPositive}
use modbus_connection.Planning.Plans.{plan_blocks-le, plan_blocks-InRange, InRange}
use modbus_connection.Execution.Requests.{Planned, InBlocks}
use modbus_connection.Reading.{
  ReadItem, SpaceSpans, add_span, add_scale, add_item, spans_from, plan_spaces,
}
use modbus_connection.Reading.Items.{AllPositive, HasWidth, spans_from-AllPositive}
use modbus_connection.Claims.{block_range, claim_spaces, claim_at, claimed_ranges}

module _ (P : Space → Type 0) where
  -- Every space of the dictionary satisfies the predicate.
  abbrev pub Occupied : SpaceSpans → Type 0
  Occupied = All (λ (e : Space × List Span). P e.0)

  add_span-Occupied :
      (s : Space) (p : Span) (m : SpaceSpans) → P s → Occupied m → Occupied (add_span s p m)
  unfolding add_span
  add_span-Occupied s p [] h hs = (h, tt)
  add_span-Occupied s p ((t, ps) ∷ m) h hs = elim (Bool-cases (space_eq s t)) [
    | inl e ↦ rw e hs
    | inr e ↦ rw e (hs.0, add_span-Occupied s p m h hs.1)
  ]

  add_scale-Occupied :
      (s : Space) (o : Option ℕ) (m : SpaceSpans) → P s → Occupied m → Occupied (add_scale s o m)
  unfolding add_scale
  add_scale-Occupied s none m h hs = hs
  add_scale-Occupied s (some a) m h hs = add_span-Occupied s (a, 1) m h hs

  pub spans_from-Occupied :
      {V : Type 0} (m : SpaceSpans) (items : List (ReadItem V))
      → All (λ i. P i.space) items
      → Occupied m
      → Occupied (spans_from m items)
  unfolding spans_from add_item
  spans_from-Occupied m [] h hs = hs
  spans_from-Occupied m (i ∷ is) h hs = spans_from-Occupied (add_item i m) is h.1 (
      add_scale-Occupied i.space i.scale_address (add_span i.space (i.address, i.count) m) h.0
        (add_span-Occupied i.space (i.address, i.count) m h.0 hs))

Covers-Readable :
    (o : Option SpaceMap) (rs : List Range) (x : ℕ)
    → option_map (λ (m : SpaceMap). m.ranges) o ≡ some rs
    → Covers x rs
    → Readable x o
Covers-Readable none rs x e h = cc
Covers-Readable (some m) rs x e h = rw (some-injective e) h

-- What the blocks of one mapped space touch is in its map.
blocks-Readable :
    (ranges : DeviceRanges) (limits : Limits) (s : Space) (ps : List Span) (rs : List Range)
    (own : List Block)
    → All IsPositive ps
    → for_space ranges s ≡ some rs
    → plan_blocks ps (for_space ranges s) limits ≡ ok own
    → (x : ℕ) → InBlocks x own
    → Readable x (ranges.maps s)
unfolding for_space
blocks-Readable ranges limits s ps rs own pos mapped planned x h =
    let inside = plan_blocks-InRange ps rs limits pos (rw mapped at planned) in
    let (b, m, t) = Any-find _ own h in
    Covers-Readable (ranges.maps s) rs x mapped (
      Any-mono _ _ (λ (r : Range) k. (omega (arith, k.0, t.0), omega (arith, k.1, t.1))) rs
        (All-get (InRange rs) b own inside m))

-- The addresses that a plan reads are in the maps, where every space that it reads is mapped.
pub plan_spaces-Readable :
    (ranges : DeviceRanges) (limits : Limits) (m : SpaceSpans) {blocks : List (Space × List Block)}
    → AllPositive m
    → Occupied (λ s. (rs : List Range) × (for_space ranges s ≡ some rs)) m
    → plan_spaces ranges limits m ≡ ok blocks
    → (s : Space) (x : ℕ) → Planned s x blocks
    → Readable x (ranges.maps s)
unfolding plan_spaces
plan_spaces-Readable ranges limits [] {blocks} pos occ e s x h =
    elim (rw (← ok-injective e) at h) [ ]
plan_spaces-Readable ranges limits ((t, ps) ∷ m) {blocks} pos occ e s x h =
    let (own, planned, e') = >>=-eq-ok (plan_blocks ps (for_space ranges t) limits) _ e in
    let (rest, later, e'') = >>=-eq-ok (plan_spaces ranges limits m) _ e' in
    let (rs, mapped) = occ.0 in
    elim (rw (← ok-injective e'') at h) [
      | inl k ↦ rw (← k.0) (blocks-Readable ranges limits t ps rs own pos.0 mapped planned x k.1)
      | inr k ↦ plan_spaces-Readable ranges limits m pos.1 occ.1 later s x k
    ]

-- A claim has no reversed range.
claim_spaces-Forward :
    (limits : Limits) (m : SpaceSpans) (ranges : List (Space × List Range))
    → AllPositive m
    → claim_spaces limits m ≡ ok ranges
    → All (λ (e : Space × List Range). All IsForward e.1) ranges
unfolding claim_spaces
claim_spaces-Forward limits [] ranges pos e = rw (← ok-injective e) tt
claim_spaces-Forward limits ((t, ps) ∷ m) ranges pos e =
    let (own, planned, e') = >>=-eq-ok (plan_blocks ps none limits) _ e in
    let (rest, later, e'') = >>=-eq-ok (claim_spaces limits m) _ e' in
    rw (← ok-injective e'') (
      forward own (plan_blocks-le ps none limits pos.0 planned),
      claim_spaces-Forward limits m rest pos.1 later,
    )
  where
    forward :
        (bs : List Block)
        → All (λ (b : Block). (0 < b.1) × (b.1 ≤ limits.max_span)) bs
        → All IsForward (map block_range bs)
    forward [] h = tt
    forward (b ∷ bs) h = (omega (arith, h.0.0), forward bs h.1)

claim_at-Forward :
    (ranges : List (Space × List Range)) (s : Space)
    → All (λ (e : Space × List Range). All IsForward e.1) ranges
    → ForwardMap (option_map claimed_map (claim_at ranges s))
unfolding claim_at
claim_at-Forward [] s h = tt
claim_at-Forward ((t, qs) ∷ m) s h = elim (Bool-cases (space_eq s t)) [
  | inl q ↦ rw q h.0
  | inr q ↦ rw q (claim_at-Forward m s h.1)
]

pub claimed_ranges-Forward :
    {V : Type 0} (items : List (ReadItem V)) (limits : Limits) {d : DeviceRanges}
    → All HasWidth items
    → claimed_ranges items limits ≡ ok d
    → ForwardDevice d
unfolding claimed_ranges claims
claimed_ranges-Forward items limits {d} widths e s =
    let (ranges, claimed, e') = >>=-eq-ok (claim_spaces limits (spans_from [] items)) _ e in
    rw (← ok-injective e') (
      claim_at-Forward ranges s (
        claim_spaces-Forward limits (spans_from [] items) ranges
          (spans_from-AllPositive [] items widths tt) claimed))

module _ (P : Space → Type 0) where
  claim_spaces-Occupied :
      (limits : Limits) (m : SpaceSpans) (ranges : List (Space × List Range))
      → Occupied P m
      → claim_spaces limits m ≡ ok ranges
      → All (λ (e : Space × List Range). P e.0) ranges
  unfolding claim_spaces
  claim_spaces-Occupied limits [] ranges occ e = rw (← ok-injective e) tt
  claim_spaces-Occupied limits ((t, ps) ∷ m) ranges occ e =
      let (own, planned, e') = >>=-eq-ok (plan_blocks ps none limits) _ e in
      let (rest, later, e'') = >>=-eq-ok (claim_spaces limits m) _ e' in
      rw (← ok-injective e'') (occ.0, claim_spaces-Occupied limits m rest occ.1 later)

  claim_at-Occupied :
      (ranges : List (Space × List Range)) (s : Space) (x : ℕ)
      → All (λ (e : Space × List Range). P e.0) ranges
      → Readable x (option_map claimed_map (claim_at ranges s))
      → P s
  unfolding claim_at
  claim_at-Occupied [] s x h r = elim r [ ]
  claim_at-Occupied ((t, qs) ∷ m) s x h r = elim (Bool-cases (space_eq s t)) [
    | inl q ↦ rw ((space_eq_iff s t).0 q) h.0
    | inr q ↦ claim_at-Occupied m s x h.1 (rw q at r)
  ]

-- Where items claim an address, one of them is in its space.
pub claimed_ranges-Occupied :
    {V : Type 0} (items : List (ReadItem V)) (limits : Limits) {d : DeviceRanges}
    → claimed_ranges items limits ≡ ok d
    → (s : Space) (x : ℕ) → Readable x (d.maps s)
    → Any (λ i. i.space ≡ s) items
unfolding claimed_ranges claims
claimed_ranges-Occupied items limits {d} e s x r =
    let (ranges, claimed, e') = >>=-eq-ok (claim_spaces limits (spans_from [] items)) _ e in
    let here : All (λ i. Any (λ j. j.space ≡ i.space) items) items =
      All-In _ items (λ i m. Any-intro (λ j. j.space ≡ i.space) i items m refl) in
    let occupied = spans_from-Occupied (λ t. Any (λ j. j.space ≡ t) items) [] items here tt in
    claim_at-Occupied (λ t. Any (λ j. j.space ≡ t) items) ranges s x
      (claim_spaces-Occupied (λ t. Any (λ j. j.space ≡ t) items) limits (spans_from [] items) ranges
        occupied claimed)
      (rw (← ok-injective e') at r)
