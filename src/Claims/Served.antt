-- ===== src/Claims/Served.antt =====
-- What `claimed_ranges` of src/modbus_connection/model/_planning.py claims.
use modbus_connection.Prelude.{
  ℕ, ◌+◌, ◌≤◌, ◌≡◌, ◌≢◌, sym, inl, inr, false, Option, none, some, List, [], ◌∷◌, map, arith, All,
  Any, All-get, All-In, Bool-cases,
}
use modbus_connection.Const.{Space, Range, space_eq, space_eq_iff}
use modbus_connection.Errors.{ok, >>=-eq-ok}
use modbus_connection.Ranges.{DeviceRanges, SpaceMap, for_space, claims, option_map, claimed_map}
use modbus_connection.Planning.{Span, Block, Limits, plan_blocks}
use modbus_connection.Planning.Blocks.{InBlock, IsPositive}
use modbus_connection.Planning.Plans.{plan_blocks-Reads}
use modbus_connection.Reading.{ReadItem, SpaceSpans, add_span, add_scale, add_item, spans_from}
use modbus_connection.Reading.Items.{
  Needs, HasWidth, Listed, AllPositive, spans_from-Needs, spans_from-AllPositive,
}
use modbus_connection.Claims.{block_range, claim_spaces, claim_at, claimed_ranges}

-- The span lies in one range of the map.
abbrev pub HeldBy : Option (List Range) → Span → Type 0
HeldBy none p = ⊥
HeldBy (some rs) p = Any (λ (r : Range). (r.0 ≤ p.0) × (p.0 + p.1 ≤ r.1 + 1)) rs

abbrev Fresh : {A : Type 0} → Space → List (Space × A) → Type 0
Fresh s = All (λ e. s ≢ e.0)

-- The keys of a dictionary: each space once.
abbrev Distinct : {A : Type 0} → List (Space × A) → Type 0
Distinct [] = Unit
Distinct (e ∷ m) = Fresh e.0 m × Distinct m

add_span-Fresh :
    (r s : Space) (p : Span) (m : SpaceSpans) → r ≢ s → Fresh r m → Fresh r (add_span s p m)
unfolding add_span
add_span-Fresh r s p [] n h = (n, tt)
add_span-Fresh r s p ((t, ps) ∷ m) n h = elim (Bool-cases (space_eq s t)) [
  | inl e ↦ rw e h
  | inr e ↦ rw e (h.0, add_span-Fresh r s p m n h.1)
]

add_span-Distinct : (s : Space) (p : Span) (m : SpaceSpans) → Distinct m → Distinct (add_span s p m)
unfolding add_span
add_span-Distinct s p [] h = (tt, tt)
add_span-Distinct s p ((t, ps) ∷ m) h = elim (Bool-cases (space_eq s t)) [
  | inl e ↦ rw e h
  | inr e ↦ rw e (add_span-Fresh t s p m (differ e) h.0, add_span-Distinct s p m h.1)
]
  where
    differ : space_eq s t ≡ false → t ≢ s
    differ e q = let k = (space_eq_iff s t).1 (sym q) in ground (arith, e, k)

add_scale-Distinct :
    (s : Space) (o : Option ℕ) (m : SpaceSpans) → Distinct m → Distinct (add_scale s o m)
unfolding add_scale
add_scale-Distinct s none m h = h
add_scale-Distinct s (some a) m h = add_span-Distinct s (a, 1) m h

spans_from-Distinct :
    {V : Type 0} (m : SpaceSpans) (items : List (ReadItem V))
    → Distinct m
    → Distinct (spans_from m items)
unfolding spans_from add_item
spans_from-Distinct m [] h = h
spans_from-Distinct m (i ∷ is) h = spans_from-Distinct (add_item i m) is (
    add_scale-Distinct i.space i.scale_address (add_span i.space (i.address, i.count) m)
      (add_span-Distinct i.space (i.address, i.count) m h))

-- A block that reads a span is claimed as a range that holds it.
block_range-HeldBy :
    (p : Span) (blocks : List Block)
    → IsPositive p
    → Any (InBlock p) blocks
    → HeldBy (some (map block_range blocks)) p
block_range-HeldBy p [] pos h = h
block_range-HeldBy p (b ∷ bs) pos (inl h) = inl (omega (arith, h, pos), omega (arith, h, pos))
block_range-HeldBy p (b ∷ bs) pos (inr h) = inr (block_range-HeldBy p bs pos h)

Fresh-Listed : (s : Space) (p : Span) (m : SpaceSpans) → Fresh s m → Listed s p m → ⊥
Fresh-Listed s p [] h l = l
Fresh-Listed s p ((t, ps) ∷ m) h (inl k) = h.0 (sym k.0)
Fresh-Listed s p ((t, ps) ∷ m) h (inr k) = Fresh-Listed s p m h.1 k

claim_spaces-HeldBy :
    (limits : Limits) (m : SpaceSpans) (ranges : List (Space × List Range))
    → AllPositive m
    → Distinct m
    → claim_spaces limits m ≡ ok ranges
    → (s : Space) (p : Span) → IsPositive p
    → Listed s p m
    → HeldBy (claim_at ranges s) p
unfolding claim_spaces claim_at
claim_spaces-HeldBy limits [] ranges pos d h s p w l = elim l [ ]
claim_spaces-HeldBy limits ((t, ps) ∷ m) ranges pos d h s p w l =
    let (own, planned, h') = >>=-eq-ok (plan_blocks ps none limits) _ h in
    let (rest, claimed, e) = >>=-eq-ok (claim_spaces limits m) _ h' in
    let same : ranges ≡ (t, map block_range own) ∷ rest = ground arith in
    rw same (elim l [
      | inl k ↦ rw ((space_eq_iff s t).1 (sym k.0)) (
          block_range-HeldBy p own w (
            All-get (λ q. Any (InBlock q) own) p ps (plan_blocks-Reads ps none limits pos.0 planned)
              k.1))
      | inr k ↦ elim (Bool-cases (space_eq s t)) [
        | inl q ↦ absurd (Fresh-Listed s p m (rw (← (space_eq_iff s t).0 q) at d.0) k)
        | inr q ↦ rw q (claim_spaces-HeldBy limits m rest pos.1 d.1 claimed s p w k)
      ]
    ])

claims-HeldBy :
    (f : Space → Option (List Range)) (d : DeviceRanges)
    → d ≡ claims f
    → (s : Space) (p : Span) → HeldBy (f s) p
    → HeldBy (for_space d s) p
unfolding claims for_space
claims-HeldBy f d e s p h = rw e (shown (f s) h)
  where
    shown :
        (o : Option (List Range))
        → HeldBy o p
        → HeldBy (option_map (λ (m : SpaceMap). m.ranges) (option_map claimed_map o)) p
    shown none h = h
    shown (some rs) h = h

-- What a component of items of positive width claims holds each item's words in one range, and the
-- item's scale register, where it has one.
pub claimed_ranges-holds :
    {V : Type 0} (items : List (ReadItem V)) (limits : Limits) {d : DeviceRanges}
    → All HasWidth items
    → claimed_ranges items limits ≡ ok d
    → All (Needs (λ s p. HeldBy (for_space d s) p)) items
unfolding claimed_ranges for_space claims
claimed_ranges-holds items limits {d} widths claimed =
    let (ranges, planned, e) = >>=-eq-ok (claim_spaces limits (spans_from [] items)) _ claimed in
    let same : d ≡ claims (claim_at ranges) = ground arith in
    let held =
      claim_spaces-HeldBy limits (spans_from [] items) ranges
        (spans_from-AllPositive [] items widths tt) (spans_from-Distinct [] items tt) planned in
    let moved : (s : Space) (p : Span)
        → IsPositive p
        → Listed s p (spans_from [] items)
        → HeldBy (for_space d s) p =
      λ s p w l. claims-HeldBy (claim_at ranges) d same s p (held s p w l) in
    All-In (Needs (λ s p. HeldBy (for_space d s) p)) items λ i m.
      let needs = spans_from-Needs [] items i m in
      record {
        words = moved i.space (i.address, i.count) (All-get HasWidth i items widths m) needs.words;
        scale = λ a q. moved i.space (a, 1) (omega arith) (needs.scale a q);
      }
