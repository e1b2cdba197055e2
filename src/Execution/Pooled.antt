-- ===== src/Execution/Pooled.antt =====
-- `ReadPlan.execute` of src/modbus_connection/model/_planning.py against its specification: a pooled
-- read stores what a separate request for each field would have given.
use modbus_connection.Prelude.{
  ℕ, ◌+◌, ◌≤◌, ◌<◌, ◌≡◌, refl, ap, inl, inr, Bool, Option, none, some, List, [], ◌∷◌, arith, All,
  Any, In, ℤ, Any-mono, All-In,
}
use modbus_connection.Const.{Space}
use modbus_connection.Errors.{Result, ok, err, ◌>>=◌, Result-cases}
use modbus_connection.Codec.{decode_int16}
use modbus_connection.Ranges.{DeviceRanges}
use modbus_connection.Planning.{Block, Span, Limits}
use modbus_connection.Planning.Blocks.{InBlock}
use modbus_connection.Unit.{ModbusUnit}
use modbus_connection.Reading.{
  ReadItem, ReadPlan, Stored, Values, build, scale_exponent, decode_item, store_items,
}
use modbus_connection.Reading.Values.{Memory, slice, Has, Faithful, find_value-Has, gather-slice}
use modbus_connection.Reading.Items.{Needs, HasWidth, ReadIn, build-Needs}
use modbus_connection.Execution.{World, execute, finish, store_values, read_spaces}
use modbus_connection.Execution.Requests.{Serves, Planned, InBlocks, read_spaces-Has}

-- The specification: the exponent, the value and the stores from the device's memory alone.
unfoldable pub direct_exponent : Memory → Space → Option ℕ → Result (Option ℤ)
direct_exponent mem s none = ok none
direct_exponent mem s (some a) = do x ← decode_int16 (mem s a ∷ []); ok (some x)

scale_exponent-direct :
    (mem : Memory) (s : Space) (o : Option ℕ) (vs : Values)
    → Faithful mem vs
    → ((a : ℕ) → o ≡ some a → Has s a vs)
    → scale_exponent s o vs ≡ direct_exponent mem s o
unfolding scale_exponent direct_exponent
scale_exponent-direct mem s none vs f h = refl
scale_exponent-direct mem s (some a) vs f h = rw (find_value-Has mem s a vs f (h a refl)) refl

module _ {V : Type 0} (mem : Memory) where
  unfoldable pub direct_item : ReadItem V → Result (Stored V)
  unfolding direct_exponent
  direct_item i = do
    exponent ← direct_exponent mem i.space i.scale_address
    v ← i.field.decode (slice mem i.space i.address i.count) exponent
    ok (record { store = i.store; name = i.field.name; value = v })

  -- Each field on its own, in order, up to the first that cannot be decoded.
  unfoldable pub direct_items :
      List (ReadItem V) → List (Stored V) → Result (Unit {0}) × List (Stored V)
  unfolding direct_item
  direct_items [] stores = (ok tt, stores)
  direct_items (i ∷ is) stores = elim (direct_item i) [
    | ok v ↦ direct_items is (v ∷ stores)
    | err e ↦ (err e, stores)
  ]

  -- Every address that the item needs was read.
  abbrev pub Present : Values → ReadItem V → Type 0
  Present vs i =
      ((x : ℕ) → i.address ≤ x → x < i.address + i.count → Has i.space x vs)
      × ((a : ℕ) → i.scale_address ≡ some a → Has i.space a vs)

  decode_item-direct :
      (i : ReadItem V) (vs : Values)
      → Faithful mem vs
      → Present vs i
      → decode_item i vs ≡ direct_item i
  unfolding decode_item direct_item
  decode_item-direct i vs f p =
      rw
        (
          gather-slice mem i.space i.address i.count vs f p.0,
          scale_exponent-direct mem i.space i.scale_address vs f p.1,
        )
        refl

  store_items-direct :
      (items : List (ReadItem V)) (vs : Values) (stores : List (Stored V))
      → Faithful mem vs
      → All (Present vs) items
      → store_items items vs stores ≡ direct_items items stores
  unfolding store_items direct_items
  store_items-direct [] vs stores f p = refl
  store_items-direct (i ∷ is) vs stores f p = elim (Result-cases (direct_item i)) [
    | inl (v, e) ↦
        ground
          (arith, decode_item-direct i vs f p.0, e, store_items-direct is vs (v ∷ stores) f p.1)
    | inr (x, e) ↦ ground (arith, decode_item-direct i vs f p.0, e)
  ]

ReadIn-Planned :
    (blocks : List (Space × List Block)) (s : Space) (p : Span) (x : ℕ)
    → p.0 ≤ x
    → x < p.0 + p.1
    → ReadIn blocks s p
    → Planned s x blocks
ReadIn-Planned blocks s p x l r =
    Any-mono (λ (e : Space × List Block). (e.0 ≡ s) × Any (InBlock p) e.1)
      (λ (e : Space × List Block). (e.0 ≡ s) × InBlocks x e.1)
      (λ e h. (
        h.0,
        Any-mono (InBlock p) (λ (b : Block). (b.0 ≤ x) × (x < b.0 + b.1)) (λ b k. omega arith) e.1
            h.1,
      ))
      blocks

store_values-direct :
    {S V : Type 0} (collect_raw : Bool) (items : List (ReadItem V)) (r : Result Values)
    (vs : Values) (w : World S V) (d : Result (Unit {0}) × List (Stored V))
    → r ≡ ok vs
    → store_items items vs w.stores ≡ d
    → ((store_values collect_raw items r w).0 ≡ finish collect_raw vs d.0)
      × ((store_values collect_raw items r w).1.stores ≡ d.1)
unfolding store_values
store_values-direct collect_raw items r vs w d e s = (
  rw (store_values, e) (ap (λ p. finish collect_raw vs p.0) s),
  rw (store_values, e) (ap (λ p. p.1) s),
)

module _ {S V : Type 0} (u : ModbusUnit S) (mem : Memory) (Ready : S → Type 0)
    (serves : Serves u mem Ready) where
  Needs-Present :
      (blocks : List (Space × List Block)) (vs : Values)
      → ((s : Space) (x : ℕ) → Planned s x blocks → Has s x vs)
      → (i : ReadItem V) → Needs (ReadIn blocks) i
      → Present mem vs i
  Needs-Present blocks vs has i n = (
    λ x l r. has i.space x (ReadIn-Planned blocks i.space (i.address, i.count) x l r n.words),
    λ a e.
        has i.space a
          (ReadIn-Planned blocks i.space (a, 1) a (omega arith) (omega arith) (n.scale a e)),
  )

  execute-run :
      (is : List (ReadItem V)) (blocks : List (Space × List Block)) (collect_raw : Bool)
      (w : World S V)
      → Ready w.device
      → ((i : ReadItem V) → In i is → Needs (ReadIn blocks) i)
      → (vs : Values) × Faithful mem vs
        × All (Present mem vs) is
        × ((execute u (record { items = is; blocks = blocks }) collect_raw w).0
            ≡ finish collect_raw vs (direct_items mem is w.stores).0)
        × ((execute u (record { items = is; blocks = blocks }) collect_raw w).1.stores
            ≡ (direct_items mem is w.stores).1)
  unfolding execute
  execute-run [] blocks collect_raw w ready needs =
      ([], tt, tt, unfold direct_items in ground arith, unfold direct_items in refl)
  execute-run (i ∷ is) blocks collect_raw w ready needs =
      let (vs, read, grows, has, _) =
        read_spaces-Has u mem Ready serves blocks [] w.device tt ready in
      let present : All (Present mem vs) (i ∷ is) =
        All-In (Present mem vs) (i ∷ is) (λ j m. Needs-Present blocks vs has j (needs j m)) in
      let stored = store_items-direct mem (i ∷ is) vs w.stores grows.faithful present in
      let (result, kept) =
        store_values-direct collect_raw (i ∷ is) (read_spaces u blocks [] w.device).0 vs
          (record w { device = (read_spaces u blocks [] w.device).1 })
          (direct_items mem (i ∷ is) w.stores) read stored in
      (vs, grows.faithful, present, result, kept)

-- Executing the plan built for items of positive width, on a unit that answers every read from one
-- memory, returns and stores what decoding each item from that memory on its own does, in order, up
-- to the first item that cannot be decoded; the values read hold every address that an item needs,
-- and only what the memory holds.
pub execute-direct :
    {S V : Type 0} (u : ModbusUnit S) (mem : Memory) (Ready : S → Type 0)
    (items : List (ReadItem V)) (ranges : DeviceRanges) (limits : Limits) (plan : ReadPlan V)
    (collect_raw : Bool) (w : World S V)
    → Serves u mem Ready
    → Ready w.device
    → All HasWidth items
    → build items ranges limits ≡ ok plan
    → (vs : Values) × Faithful mem vs
      × All (Present mem vs) items
      × ((execute u plan collect_raw w).0
          ≡ finish collect_raw vs (direct_items mem items w.stores).0)
      × ((execute u plan collect_raw w).1.stores ≡ (direct_items mem items w.stores).1)
execute-direct u mem Ready items ranges limits plan collect_raw w serves ready widths built =
    let (same, needs) = build-Needs items ranges limits widths built in
    let plan_eq : plan ≡ record { items = items; blocks = plan.blocks } =
      λ i. record { items = same i; blocks = plan.blocks } in
    rw plan_eq (execute-run u mem Ready serves items plan.blocks collect_raw w ready needs)
