-- ===== src/Component/Restriction/Reshaped.antt =====
-- What `_reshaped_ranges` of src/modbus_connection/model/component.py keeps and what it cuts out.
pub mod Cuts
pub mod Steps
use modbus_connection.Prelude.{
  ℕ, ◌+◌, ◌≤◌, ◌<◌, ◌≡◌, ◌↔◌, ◌⊎◌, Option, none, some, List, [], ◌∷◌, ◌++◌, flat_map, arith, All,
  Any, In, ◌-◌, ◌*◌, inl, inr, refl, Any-append_cases, Any-append_left, Any-append_right,
  All-append, Any-flat_map, flat_map-Any, All-In, Any-mono, Any-intro, Any-find, All-get,
}
use modbus_connection.Const.{Range}
use modbus_connection.Errors.{ok}
use modbus_connection.Ranges.View.{Covers}
use modbus_connection.Planning.{Span, Block, plan_blocks}
use modbus_connection.Planning.Blocks.{IsPositive}
use modbus_connection.Planning.Plans.{plan_blocks-InRange, InRange}
use modbus_connection.Component.{Component, Place, declared_address}
use modbus_connection.Component.Restriction.{
  addresses_of, scale_span, kept_spans, dropped_addresses, excluded_addresses, reshaped_ranges,
}
use modbus_connection.Component.Restriction.Reshaped.Cuts.{
  In-range_from, range_from-In, without-In, In-without, Avoids,
}
use modbus_connection.Component.Restriction.Reshaped.Steps.{
  Touches, Allowed, Names, Reshapes, reshape-Reshapes, reshape-none, InRange-Covers,
  nothing_planned,
}

-- The range a span's addresses run over, as a set of addresses.
In-addresses :
    (x : ℕ) (spans : List Span) → Any (Touches x) spans → In x (flat_map addresses_of spans)
In-addresses x spans h = Any-flat_map _ addresses_of spans (
    Any-mono (Touches x) (λ p. In x (addresses_of p)) (λ p t. In-range_from x p.0 p.1 t.0 t.1) spans
      h)

addresses-In :
    (x : ℕ) (spans : List Span) → In x (flat_map addresses_of spans) → Any (Touches x) spans
addresses-In x spans h =
    Any-mono (λ p. In x (addresses_of p)) (Touches x) (λ p m. range_from-In x p.0 p.1 m) spans
      (flat_map-Any _ addresses_of spans h)

module _ {V : Type 0} (c : Component V) where
  -- What the field at a place reads: its words, and its scale register.
  abbrev pub PlaceReads : Place → Span → Type 0
  PlaceReads p q =
      (q ≡ (p.address + p.stride * (c.index - 1), p.count))
      ⊎ ((r : ℕ) × (p.scale_register ≡ some r)
          × (q ≡ (r + p.scale_register_stride * (c.index - 1), 1)))

  scale_span-PlaceReads :
      (p : Place) (o : Option ℕ) (q : Span)
      → p.scale_register ≡ o
      → In q (scale_span c p o)
      → PlaceReads p q
  scale_span-PlaceReads p none q e h = elim h [ ]
  scale_span-PlaceReads p (some r) q e (inl same) = inr (r, e, same)
  scale_span-PlaceReads p (some r) q e (inr h) = elim h [ ]

  kept_spans-PlaceReads :
      (ps : List Place) (q : Span) → In q (kept_spans c ps) → Any (λ p. PlaceReads p q) ps
  unfolding kept_spans declared_address
  kept_spans-PlaceReads [] q h = elim h [ ]
  kept_spans-PlaceReads (p ∷ ps) q (inl same) = inl (inl same)
  kept_spans-PlaceReads (p ∷ ps) q (inr h) =
      elim (Any-append_cases (λ s. q ≡ s) (scale_span c p p.scale_register) (kept_spans c ps) h) [
        | inl own ↦ inl (scale_span-PlaceReads p p.scale_register q refl own)
        | inr other ↦ inr (kept_spans-PlaceReads ps q other)
      ]

  PlaceReads-kept_spans :
      (ps : List Place) (q : Span) → Any (λ p. PlaceReads p q) ps → In q (kept_spans c ps)
  unfolding kept_spans declared_address
  PlaceReads-kept_spans [] q h = elim h [ ]
  PlaceReads-kept_spans (p ∷ ps) q (inl (inl same)) = inl same
  PlaceReads-kept_spans (p ∷ ps) q (inl (inr (r, e, same))) = inr (
      Any-append_left (λ s. q ≡ s) (scale_span c p p.scale_register) (kept_spans c ps)
        (rw e (inl same)))
  PlaceReads-kept_spans (p ∷ ps) q (inr h) = inr (
      Any-append_right (λ s. q ≡ s) (scale_span c p p.scale_register) (kept_spans c ps)
        (PlaceReads-kept_spans ps q h))

  scale_span-AllPositive : (p : Place) (o : Option ℕ) → All IsPositive (scale_span c p o)
  scale_span-AllPositive p none = tt
  scale_span-AllPositive p (some r) = (omega arith, tt)

  kept_spans-AllPositive :
      (ps : List Place) → All (λ p. 0 < p.count) ps → All IsPositive (kept_spans c ps)
  unfolding kept_spans
  kept_spans-AllPositive [] h = tt
  kept_spans-AllPositive (p ∷ ps) h = (
    h.0,
    All-append IsPositive (scale_span c p p.scale_register) (kept_spans c ps)
        (scale_span-AllPositive p p.scale_register) (kept_spans-AllPositive ps h.1),
  )

module _ {V : Type 0} (c : Component V) (kept dropped : List Place) where
  -- The address is of a dropped field, and no kept field reads it, not as its scale register either.
  unfoldable pub OnlyDropped : ℕ → Type 0
  OnlyDropped x =
      Any (λ (p : Place). Touches x (p.address + p.stride * (c.index - 1), p.count)) dropped
      × ¬ ((q : Span) × Any (λ p. PlaceReads c p q) kept × Touches x q)

  excluded-OnlyDropped : (x : ℕ) → In x (excluded_addresses c kept dropped) → OnlyDropped x
  unfolding OnlyDropped excluded_addresses dropped_addresses declared_address
  excluded-OnlyDropped x h =
      let (m, served) =
        without-In x (dropped_addresses c dropped) (flat_map addresses_of (kept_spans c kept)) h in
      (
        Any-mono _ _ (λ (p : Place) k. range_from-In x (declared_address c p) p.count k) dropped
            (flat_map-Any _ _ dropped m),
        λ (q, m, t). served (
            In-addresses x (kept_spans c kept)
              (Any-intro (Touches x) q (kept_spans c kept) (PlaceReads-kept_spans c kept q m) t)),
      )

  OnlyDropped-excluded : (x : ℕ) → OnlyDropped x → In x (excluded_addresses c kept dropped)
  unfolding OnlyDropped excluded_addresses dropped_addresses declared_address
  OnlyDropped-excluded x h =
      In-without x (dropped_addresses c dropped) (flat_map addresses_of (kept_spans c kept))
        (Any-flat_map _ _ dropped (
          Any-mono _ _ (λ (p : Place) k. In-range_from x (declared_address c p) p.count k.0 k.1)
            dropped h.0))
        (λ m.
          let (q, i, t) =
            Any-find (Touches x) (kept_spans c kept) (addresses-In x (kept_spans c kept) m) in
          h.1 (q, kept_spans-PlaceReads c kept q i, t))

  -- No excluded address is one of a kept span's.
  kept-Avoids : (p : Span) → In p (kept_spans c kept) → Avoids p (excluded_addresses c kept dropped)
  unfolding OnlyDropped
  kept-Avoids p m =
      All-In _ _ λ x k.
        outside x (λ t. (excluded-OnlyDropped x k).1 (p, kept_spans-PlaceReads c kept p m, t))
    where
      outside : (x : ℕ) → ¬ Touches x p → (x < p.0) ⊎ (p.0 + p.1 ≤ x)
      outside x n = ground arith

module _ {V : Type 0} (c : Component V) (declared : Option (List Range)) (kept dropped : List Place)
    {reshaped : Option (List Range)} (widths : All (λ (p : Place). 0 < p.count) kept)
    (returned : reshaped_ranges c declared kept dropped ≡ ok reshaped) where
  -- Where kept fields have a width, reshaping the ranges of a space takes nothing away that a kept field
  -- reads, its words and its scale register: each of these spans that may be read before may be read
  -- after it, and where no ranges were declared and some are made, they hold it. It takes every address
  -- away that only dropped fields have, and adds no address to declared ranges.
  pub reshaped_ranges-keeps :
      ((q : Span) → Any (λ p. PlaceReads c p q) kept → Allowed declared q → Allowed reshaped q)
      × ((x : ℕ) → OnlyDropped c kept dropped x → ¬ Names x reshaped)
      × ((rs : List Range) (x : ℕ) → declared ≡ some rs → Names x reshaped → Covers x rs)
  unfolding reshaped_ranges Reshapes
  reshaped_ranges-keeps =
      let (allowed, cut, added) =
        reshape-Reshapes c.limits (kept_spans c kept) (excluded_addresses c kept dropped) declared
          reshaped (kept_spans-AllPositive c kept widths)
          (All-In _ (kept_spans c kept) (kept-Avoids c kept dropped)) returned in
      (
        (λ q m.
            All-get (λ p. Allowed declared p → Allowed reshaped p) q (kept_spans c kept) allowed
              (PlaceReads-kept_spans c kept q m)),
        (λ x h. cut x (OnlyDropped-excluded c kept dropped x h)),
        added,
      )

  -- Where kept fields have a width, whatever plan is then made of them under the reshaped ranges, it requests no address that
  -- only dropped fields have.
  pub reshaped_ranges-spares :
      {blocks : List Block}
      → plan_blocks (kept_spans c kept) reshaped c.limits ≡ ok blocks
      → (x : ℕ) → OnlyDropped c kept dropped x
      → ¬ Any (Touches x) blocks
  unfolding reshaped_ranges
  reshaped_ranges-spares {blocks} planned x only touched =
      go reshaped returned planned (reshaped_ranges-keeps.1 x only)
    where
      excluded : In x (excluded_addresses c kept dropped)
      excluded = OnlyDropped-excluded c kept dropped x only

      go :
          (o : Option (List Range))
          → reshaped_ranges c declared kept dropped ≡ ok o
          → plan_blocks (kept_spans c kept) o c.limits ≡ ok blocks
          → ¬ Names x o
          → ⊥
      go none e planned n =
          let nothing : kept_spans c kept ≡ [] = reshape-none c.limits _ _ declared x excluded e in
          let same : blocks ≡ [] = nothing_planned (kept_spans c kept) c.limits nothing planned in
          absurd (rw same at touched)
      go (some rs) e planned n =
          let (b, m, t) = Any-find (Touches x) blocks touched in
          n (
            InRange-Covers rs x b
              (All-get (InRange rs) b blocks
                (plan_blocks-InRange (kept_spans c kept) rs c.limits
                  (kept_spans-AllPositive c kept widths) planned)
                m)
              t)
