-- ===== src/Execution/Requests.antt =====
-- The request loop of `ReadPlan.execute` (src/modbus_connection/model/_planning.py) against a device
-- that answers.
use modbus_connection.Prelude.{ℕ, ◌+◌, ◌≤◌, ◌<◌, ◌≡◌, refl, inl, inr, List, [], ◌∷◌, Any}
use modbus_connection.Const.{Space}
use modbus_connection.Errors.{ok}
use modbus_connection.Planning.{Block}
use modbus_connection.Unit.{ModbusUnit, reader}
use modbus_connection.Reading.{Values}
use modbus_connection.Reading.Values.{
  Memory, slice, Has, Faithful, Grows, Grows-refl, Grows-trans, store_words-Has,
}
use modbus_connection.Execution.{read_block, read_blocks, read_spaces}

-- The address is in one of the blocks.
abbrev pub InBlocks : ℕ → List Block → Type 0
InBlocks x = Any (λ (b : Block). (b.0 ≤ x) × (x < b.0 + b.1))

-- The plan reads the address of the space.
abbrev pub Planned : Space → ℕ → List (Space × List Block) → Type 0
Planned s x = Any (λ (e : Space × List Block). (e.0 ≡ s) × InBlocks x e.1)

-- From a ready state the unit answers every read with what its memory holds, and stays ready.
pub record Serves {S : Type 0} (u : ModbusUnit S) (mem : Memory) (Ready : S → Type 0) : Type 0 where
  pub answers :
      (s : Space) (a count : ℕ) (st : S)
      → Ready st
      → ((reader u s a count st).0 ≡ ok (slice mem s a count)) × Ready (reader u s a count st).1

module _ {S : Type 0} (u : ModbusUnit S) (mem : Memory) (Ready : S → Type 0)
    (serves : Serves u mem Ready) where
  read_block-Has :
      (s : Space) (b : Block) (vs : Values) (st : S)
      → Faithful mem vs
      → Ready st
      → (vs' : Values) × ((read_block u s b vs st).0 ≡ ok vs')
        × Grows mem vs vs'
        × ((x : ℕ) → b.0 ≤ x → x < b.0 + b.1 → Has s x vs')
        × Ready (read_block u s b vs st).1
  unfolding read_block
  read_block-Has s b vs st f r =
      let (vs', stored, grows, has) = store_words-Has mem s b.0 b.1 vs f in
      let (answer, stays) = serves.answers s b.0 b.1 st r in
      (vs', rw answer stored, grows, has, stays)

  read_blocks-Has :
      (s : Space) (bs : List Block) (vs : Values) (st : S)
      → Faithful mem vs
      → Ready st
      → (vs' : Values) × ((read_blocks u s bs vs st).0 ≡ ok vs')
        × Grows mem vs vs'
        × ((x : ℕ) → InBlocks x bs → Has s x vs')
        × Ready (read_blocks u s bs vs st).1
  unfolding read_blocks
  read_blocks-Has s [] vs st f r = (vs, refl, Grows-refl mem vs f, (λ x h. elim h [ ]), r)
  read_blocks-Has s (b ∷ bs) vs st f r =
      let (mid, first, grow, has, stays) = read_block-Has s b vs st f r in
      let (last, rest, grow', has', stays') =
        read_blocks-Has s bs mid (read_block u s b vs st).1 grow.faithful stays in
      (
        last,
        rw first rest,
        Grows-trans mem vs mid last grow grow',
        (λ x h. elim h [ inl i ↦ grow'.keeps s x (has x i.0 i.1) | inr k ↦ has' x k ]),
        rw first stays',
      )

  -- With a device that answers, the loop ends with every planned address read.
  pub read_spaces-Has :
      (m : List (Space × List Block)) (vs : Values) (st : S)
      → Faithful mem vs
      → Ready st
      → (vs' : Values) × ((read_spaces u m vs st).0 ≡ ok vs')
        × Grows mem vs vs'
        × ((s : Space) (x : ℕ) → Planned s x m → Has s x vs')
        × Ready (read_spaces u m vs st).1
  unfolding read_spaces
  read_spaces-Has [] vs st f r = (vs, refl, Grows-refl mem vs f, (λ s x h. elim h [ ]), r)
  read_spaces-Has ((t, bs) ∷ m) vs st f r =
      let (mid, first, grow, has, stays) = read_blocks-Has t bs vs st f r in
      let (last, rest, grow', has', stays') =
        read_spaces-Has m mid (read_blocks u t bs vs st).1 grow.faithful stays in
      (
        last,
        rw first rest,
        Grows-trans mem vs mid last grow grow',
        (λ s x h. elim h [ inl i ↦ grow'.keeps s x (rw (← i.0) (has x i.1)) | inr k ↦ has' s x k ]),
        rw first stays',
      )
