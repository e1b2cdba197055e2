-- ===== src/Reading/Items.antt =====
-- `_spans` and `ReadPlan.build` of src/modbus_connection/model/_planning.py: the plan reads every
-- address that an item needs.
use modbus_connection.Prelude.{
  ℕ, ◌<◌, ◌≡◌, refl, sym, inl, inr, Option, none, some, List, [], ◌∷◌, arith, All, Any, In,
  All-append, All-get, Any-append_left, Any-append_right, Bool-cases,
}
use modbus_connection.Const.{Space, space_eq, space_eq_iff}
use modbus_connection.Errors.{ok, >>=-eq-ok}
use modbus_connection.Ranges.{DeviceRanges, for_space}
use modbus_connection.Planning.{Span, Block, Limits, plan_blocks}
use modbus_connection.Planning.Blocks.{InBlock, IsPositive}
use modbus_connection.Planning.Plans.{plan_blocks-Reads}
use modbus_connection.Reading.{
  ReadItem, ReadPlan, SpaceSpans, add_span, add_scale, add_item, spans_from, plan_spaces, build,
}

-- The span is planned for the space.
abbrev pub Listed : Space → Span → SpaceSpans → Type 0
Listed s p = Any (λ (e : Space × List Span). (e.0 ≡ s) × In p e.1)

abbrev pub AllPositive : SpaceSpans → Type 0
AllPositive = All (λ (e : Space × List Span). All IsPositive e.1)

add_span-Listed : (s : Space) (p : Span) (m : SpaceSpans) → Listed s p (add_span s p m)
unfolding add_span
add_span-Listed s p [] = inl (refl, inl refl)
add_span-Listed s p ((t, ps) ∷ m) = elim (Bool-cases (space_eq s t)) [
  | inl e ↦
      rw e
        (inl (sym ((space_eq_iff s t).0 e), Any-append_right (λ q. p ≡ q) ps (p ∷ []) (inl refl)))
  | inr e ↦ rw e (inr (add_span-Listed s p m))
]

Listed-add_span :
    (s : Space) (p : Span) (t : Space) (q : Span) (m : SpaceSpans)
    → Listed t q m
    → Listed t q (add_span s p m)
unfolding add_span
Listed-add_span s p t q [] h = elim h [ ]
Listed-add_span s p t q ((r, ps) ∷ m) h = elim (Bool-cases (space_eq s r)) [
  | inl e ↦
      rw e
        (elim h [ inl k ↦ inl (k.0, Any-append_left (λ z. q ≡ z) ps (p ∷ []) k.1) | inr k ↦ inr k ])
  | inr e ↦ rw e (elim h [ inl k ↦ inl k | inr k ↦ inr (Listed-add_span s p t q m k) ])
]

add_span-AllPositive :
    (s : Space) (p : Span) (m : SpaceSpans)
    → IsPositive p
    → AllPositive m
    → AllPositive (add_span s p m)
unfolding add_span
add_span-AllPositive s p [] pos h = ((pos, tt), tt)
add_span-AllPositive s p ((t, ps) ∷ m) pos h = elim (Bool-cases (space_eq s t)) [
  | inl e ↦ rw e (All-append IsPositive ps (p ∷ []) h.0 (pos, tt), h.1)
  | inr e ↦ rw e (h.0, add_span-AllPositive s p m pos h.1)
]

add_scale-Listed :
    (s : Space) (o : Option ℕ) (m : SpaceSpans) (a : ℕ)
    → o ≡ some a
    → Listed s (a, 1) (add_scale s o m)
unfolding add_scale
add_scale-Listed s none m a e = cc
add_scale-Listed s (some b) m a e =
    let same : a ≡ b = ground arith in rw same (add_span-Listed s (b, 1) m)

Listed-add_scale :
    (s : Space) (o : Option ℕ) (t : Space) (q : Span) (m : SpaceSpans)
    → Listed t q m
    → Listed t q (add_scale s o m)
unfolding add_scale
Listed-add_scale s none t q m h = h
Listed-add_scale s (some a) t q m h = Listed-add_span s (a, 1) t q m h

add_scale-AllPositive :
    (s : Space) (o : Option ℕ) (m : SpaceSpans) → AllPositive m → AllPositive (add_scale s o m)
unfolding add_scale
add_scale-AllPositive s none m h = h
add_scale-AllPositive s (some a) m h = add_span-AllPositive s (a, 1) m (omega arith) h

-- What an item needs read: its own words, and its scale register.
pub record Needs {V : Type 0} (P : Space → Span → Type 0) (i : ReadItem V) : Type 0 where
  pub words : P i.space (i.address, i.count)
  pub scale : (a : ℕ) → i.scale_address ≡ some a → P i.space (a, 1)

abbrev pub HasWidth : {V : Type 0} → ReadItem V → Type 0
HasWidth i = 0 < i.count

abbrev ListedIn : SpaceSpans → Space → Span → Type 0
ListedIn m s p = Listed s p m

module _ {V : Type 0} where
  add_item-Listed : (i : ReadItem V) (m : SpaceSpans) → Needs (ListedIn (add_item i m)) i
  unfolding add_item
  add_item-Listed i m =
      let own = add_span i.space (i.address, i.count) m in
      record {
        words =
            Listed-add_scale i.space i.scale_address i.space (i.address, i.count) own
              (add_span-Listed i.space (i.address, i.count) m);
        scale = λ a e. add_scale-Listed i.space i.scale_address own a e;
      }

  Listed-add_item :
      (i : ReadItem V) (t : Space) (q : Span) (m : SpaceSpans)
      → Listed t q m
      → Listed t q (add_item i m)
  unfolding add_item
  Listed-add_item i t q m h =
      Listed-add_scale i.space i.scale_address t q (add_span i.space (i.address, i.count) m)
        (Listed-add_span i.space (i.address, i.count) t q m h)

  add_item-AllPositive :
      (i : ReadItem V) (m : SpaceSpans) → HasWidth i → AllPositive m → AllPositive (add_item i m)
  unfolding add_item
  add_item-AllPositive i m pos h =
      add_scale-AllPositive i.space i.scale_address (add_span i.space (i.address, i.count) m)
        (add_span-AllPositive i.space (i.address, i.count) m pos h)

  Listed-spans_from :
      (t : Space) (q : Span) (m : SpaceSpans) (is : List (ReadItem V))
      → Listed t q m
      → Listed t q (spans_from m is)
  unfolding spans_from
  Listed-spans_from t q m [] h = h
  Listed-spans_from t q m (i ∷ is) h =
      Listed-spans_from t q (add_item i m) is (Listed-add_item i t q m h)

  pub spans_from-AllPositive :
      (m : SpaceSpans) (is : List (ReadItem V))
      → All HasWidth is
      → AllPositive m
      → AllPositive (spans_from m is)
  unfolding spans_from
  spans_from-AllPositive m [] w h = h
  spans_from-AllPositive m (i ∷ is) w h =
      spans_from-AllPositive (add_item i m) is w.1 (add_item-AllPositive i m w.0 h)

  pub spans_from-Needs :
      (m : SpaceSpans) (is : List (ReadItem V))
      → (i : ReadItem V) → In i is
      → Needs (ListedIn (spans_from m is)) i
  unfolding spans_from
  spans_from-Needs m [] i h = elim h [ ]
  spans_from-Needs m (j ∷ is) i (inl e) =
      let needs = add_item-Listed j m in
      rw e (record {
        words = Listed-spans_from j.space (j.address, j.count) (add_item j m) is needs.words;
        scale = λ a s. Listed-spans_from j.space (a, 1) (add_item j m) is (needs.scale a s);
      })
  spans_from-Needs m (j ∷ is) i (inr h) = spans_from-Needs (add_item j m) is i h

-- The plan has a block of the space that reads the whole span.
abbrev pub ReadIn : List (Space × List Block) → Space → Span → Type 0
ReadIn blocks s p = Any (λ (e : Space × List Block). (e.0 ≡ s) × Any (InBlock p) e.1) blocks

plan_spaces-ReadIn :
    (ranges : DeviceRanges) (limits : Limits) (m : SpaceSpans) (blocks : List (Space × List Block))
    → AllPositive m
    → plan_spaces ranges limits m ≡ ok blocks
    → (s : Space) (p : Span) → Listed s p m
    → ReadIn blocks s p
unfolding plan_spaces
plan_spaces-ReadIn ranges limits [] blocks pos h s p l = elim l [ ]
plan_spaces-ReadIn ranges limits ((t, ps) ∷ m) blocks pos h s p l =
    let (own, planned, h') = >>=-eq-ok (plan_blocks ps (for_space ranges t) limits) _ h in
    let (rest, planned', e) = >>=-eq-ok (plan_spaces ranges limits m) _ h' in
    let same : blocks ≡ (t, own) ∷ rest = ground arith in
    rw same (elim l [
      | inl k ↦ inl (
        k.0,
        All-get (λ q. Any (InBlock q) own) p ps
            (plan_blocks-Reads ps (for_space ranges t) limits pos.0 planned) k.1,
      )
      | inr k ↦ inr (plan_spaces-ReadIn ranges limits m rest pos.1 planned' s p k)
    ])

-- Whatever else it reads, a plan that was built reads the words and the scale register of each item,
-- each in one request.
pub build-Needs :
    {V : Type 0} (items : List (ReadItem V)) (ranges : DeviceRanges) (limits : Limits)
    {plan : ReadPlan V}
    → All HasWidth items
    → build items ranges limits ≡ ok plan
    → (plan.items ≡ items) × ((i : ReadItem V) → In i items → Needs (ReadIn plan.blocks) i)
unfolding build
build-Needs items ranges limits {plan} widths built =
    let (blocks, planned, e) =
      >>=-eq-ok (plan_spaces ranges limits (spans_from [] items)) _ built in
    let same : plan ≡ record { items = items; blocks = blocks } = ground arith in
    let read =
      plan_spaces-ReadIn ranges limits (spans_from [] items) blocks
        (spans_from-AllPositive [] items widths tt) planned in
    rw same (
      refl,
      λ i m.
          let needs = spans_from-Needs [] items i m in
          record {
            words = read i.space (i.address, i.count) needs.words;
            scale = λ a s. read i.space (a, 1) (needs.scale a s);
          },
    )
