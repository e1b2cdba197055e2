-- ===== src/Component/Restriction/Reshaped/Steps.antt =====
-- The branches of `_reshaped_ranges` of src/modbus_connection/model/component.py, on spans and
-- addresses.
use modbus_connection.Prelude.{
  ℕ, ◌+◌, ◌≤◌, ◌<◌, ◌≡◌, ◌↔◌, refl, ◌⊎◌, inl, inr, Option, none, some, List, [], ◌∷◌, ◌++◌, map,
  arith, All, Any, In, All-In, Any-mono, All-mono₂, sym,
}
use modbus_connection.Const.{Range}
use modbus_connection.Errors.{err-ok, some-injective, Result-cases, ok, ok-injective}
use modbus_connection.Ranges.{ranges_excluding}
use modbus_connection.Ranges.View.{Covers}
use modbus_connection.Ranges.Excluding.{ranges_excluding_iff}
use modbus_connection.Planning.{Span, Block, Limits, plan_blocks}
use modbus_connection.Planning.Blocks.{IsPositive, InBlock, Reads}
use modbus_connection.Planning.Plans.{plan_blocks-Reads, InRange}
use modbus_connection.Claims.{block_range}
use modbus_connection.Claims.Served.{HeldBy}
use modbus_connection.Component.Restriction.{reshape}
use modbus_connection.Component.Restriction.Reshaped.Cuts.{ranges_excluding-holds, Avoids}

-- The address is one of the span's.
abbrev pub Touches : ℕ → Span → Type 0
Touches x p = (p.0 ≤ x) × (x < p.0 + p.1)

-- The span may be read: nothing is stated, or one range holds it.
abbrev pub Allowed : Option (List Range) → Span → Type 0
Allowed none p = Unit
Allowed (some rs) p = HeldBy (some rs) p

-- The map names the address.
abbrev pub Names : ℕ → Option (List Range) → Type 0
Names x none = ⊥
Names x (some rs) = Covers x rs

-- The three things that hold of the reshaped ranges.
unfoldable pub Reshapes : List Span → List ℕ → Option (List Range) → Option (List Range) → Type 0
Reshapes spans excluded declared reshaped =
    All (λ p. Allowed declared p → Allowed reshaped p) spans
    × ((x : ℕ) → In x excluded → ¬ Names x reshaped)
    × ((rs : List Range) (x : ℕ) → declared ≡ some rs → Names x reshaped → Covers x rs)

Reshapes-cut :
    (spans : List Span) (excluded : List ℕ) (rs : List Range)
    → All IsPositive spans
    → All (λ p. Avoids p excluded) spans
    → Reshapes spans excluded (some rs) (some (ranges_excluding rs excluded))
unfolding Reshapes
Reshapes-cut spans excluded rs positive avoids = (
  All-mono₂ IsPositive (λ p. Avoids p excluded) _
      (λ p w a h. ranges_excluding-holds p rs excluded w a h) spans positive avoids,
  (λ x m n. ((ranges_excluding_iff x rs excluded).0 n).1 m),
  λ qs x e n. rw (← some-injective e) (((ranges_excluding_iff x rs excluded).0 n).0),
)

-- The blocks of a plan hold the spans.
Reads-holds :
    (blocks : List Block) (spans : List Span)
    → All IsPositive spans
    → Reads blocks spans
    → All (HeldBy (some (map block_range blocks))) spans
Reads-holds blocks spans =
    All-mono₂ IsPositive (λ p. Any (InBlock p) blocks) (HeldBy (some (map block_range blocks)))
      (λ p w h. held p w blocks h) spans
  where
    held :
        (p : Span)
        → IsPositive p
        → (bs : List Block) → Any (InBlock p) bs
        → HeldBy (some (map block_range bs)) p
    held p w [] h = h
    held p w (b ∷ bs) (inl h) = inl (h.0, omega (arith, h.1, w))
    held p w (b ∷ bs) (inr h) = inr (held p w bs h)

Reshapes-planned :
    (limits : Limits) (spans : List Span) (excluded : List ℕ) (blocks : List Block)
    → All IsPositive spans
    → All (λ p. Avoids p excluded) spans
    → plan_blocks spans none limits ≡ ok blocks
    → Reshapes spans excluded none (some (ranges_excluding (map block_range blocks) excluded))
unfolding Reshapes
Reshapes-planned limits spans excluded blocks positive avoids planned =
    let held =
      Reads-holds blocks spans positive (plan_blocks-Reads spans none limits positive planned) in
    let ranges = map block_range blocks in
    (
      All-mono₂ (λ p. IsPositive p × Avoids p excluded) (HeldBy (some ranges)) _
          (λ p g h _. ranges_excluding-holds p ranges excluded g.0 g.1 h) spans
          (All-mono₂ IsPositive (λ p. Avoids p excluded) _ (λ p a b. (a, b)) spans positive avoids)
          held,
      (λ x m n. ((ranges_excluding_iff x ranges excluded).0 n).1 m),
      λ qs x e n. cc,
    )

Reshapes-same :
    (spans : List Span) (declared : Option (List Range)) → Reshapes spans [] declared declared
unfolding Reshapes
Reshapes-same spans declared =
    (All-In _ spans (λ p m h. h), (λ x m. elim m [ ]), λ rs x e n. names x rs declared e n)
  where
    names :
        (x : ℕ) (rs : List Range) (o : Option (List Range)) → o ≡ some rs → Names x o → Covers x rs
    names x rs none e n = elim n [ ]
    names x rs (some qs) e n = rw (← some-injective e) n

Reshapes-nothing : (excluded : List ℕ) → Reshapes [] excluded none none
unfolding Reshapes
Reshapes-nothing excluded = (tt, (λ x m n. n), λ rs x e n. elim n [ ])

pub reshape-Reshapes :
    (limits : Limits) (spans : List Span) (excluded : List ℕ)
    (declared reshaped : Option (List Range))
    → All IsPositive spans
    → All (λ p. Avoids p excluded) spans
    → reshape limits spans excluded declared ≡ ok reshaped
    → Reshapes spans excluded declared reshaped
reshape-Reshapes limits spans [] declared reshaped positive avoids e =
    rw (← ok-injective e) (Reshapes-same spans declared)
reshape-Reshapes limits spans (a ∷ excluded) (some rs) reshaped positive avoids e =
    rw (← ok-injective e) (Reshapes-cut spans (a ∷ excluded) rs positive avoids)
reshape-Reshapes limits [] (a ∷ excluded) none reshaped positive avoids e =
    rw (← ok-injective e) (Reshapes-nothing (a ∷ excluded))
reshape-Reshapes limits (p ∷ spans) (a ∷ excluded) none reshaped positive avoids e =
    elim (Result-cases (plan_blocks (p ∷ spans) none limits)) [
      | inl (blocks, planned) ↦
          let same : some (ranges_excluding (map block_range blocks) (a ∷ excluded)) ≡ reshaped =
            ok-injective (rw (reshape, planned) at e) in
          rw (← same)
            (Reshapes-planned limits (p ∷ spans) (a ∷ excluded) blocks positive avoids planned)
      | inr (x, raised) ↦ absurd (err-ok (rw (reshape, raised) at e))
    ]

-- Nothing is stated after a cut only where nothing is read.
pub reshape-none :
    (limits : Limits) (spans : List Span) (excluded : List ℕ) (declared : Option (List Range))
    (x : ℕ)
    → In x excluded
    → reshape limits spans excluded declared ≡ ok none
    → spans ≡ []
reshape-none limits spans [] declared x m e = elim m [ ]
reshape-none limits spans (a ∷ excluded) (some rs) x m e = cc
reshape-none limits [] (a ∷ excluded) none x m e = refl
reshape-none limits (p ∷ spans) (a ∷ excluded) none x m e =
    elim (Result-cases (plan_blocks (p ∷ spans) none limits)) [
      | inl (blocks, planned) ↦ absurd (some_other (rw (reshape, planned) at e))
      | inr (y, raised) ↦ absurd (err-ok (rw (reshape, raised) at e))
    ]
  where
    some_other : {rs : List Range} → ¬ (ok (some rs) ≡ ok none)
    some_other q = cc

-- A block that touches an address of no range is in none.
pub InRange-Covers :
    (rs : List Range) (x : ℕ) (b : Block) → InRange rs b → Touches x b → Covers x rs
InRange-Covers rs x b h t =
    Any-mono _ _ (λ (r : Range) k. (omega (arith, k.0, t.0), omega (arith, k.1, t.1))) rs h

pub nothing_planned :
    (spans : List Span) (limits : Limits) {blocks : List Block}
    → spans ≡ []
    → plan_blocks spans none limits ≡ ok blocks
    → blocks ≡ []
unfolding plan_blocks modbus_connection.Prelude.sort_set
nothing_planned [] limits e planned = ok-injective (sym planned)
nothing_planned (p ∷ spans) limits e planned = cc
