-- ===== src/Reading.antt =====
-- src/modbus_connection/model/_planning.py: the read plan of a component, and what is done with the
-- words that its blocks read.
-- `V` is the type of decoded values. A field is what a read uses of it: the name it is stored under
-- and its decoder, which each field class implements.
pub mod Values
pub mod Items
use Prim.Native.String.{String}
use modbus_connection.Prelude.{
  ℕ, zero, suc, ◌+◌, ◌&&◌, Option, none, some, List, [], ◌∷◌, ◌++◌, ◌==◌, if◌then◌else◌, ℤ,
}
use modbus_connection.Const.{Space, space_eq}
use modbus_connection.Errors.{
  Result, ok, err, Error, key_error, index_error, modbus, from_code, is_exception_response, ◌>>=◌,
}
use modbus_connection.Codec.{decode_int16}
use modbus_connection.Ranges.{DeviceRanges, for_space}
use modbus_connection.Planning.{Span, Block, Limits, plan_blocks}
use modbus_connection.Unit.{Action}

pub record Field (V : Type 0) : Type 0 where
  pub name : String
  pub decode : List ℕ → Option ℤ → Result V

pub record ResolvedField (V : Type 0) : Type 0 where
  pub field : Field V
  pub address : ℕ
  pub count : ℕ
  pub scale_address : Option ℕ
  pub space : Space

-- `store` says which component's dictionary the value goes to.
pub record ReadItem (V : Type 0) : Type 0 where
  pub resolved : ResolvedField V
  pub open resolved use *
  pub store : ℕ

-- What each space's spans are, in the order in which the spaces are first seen.
abbrev pub SpaceSpans : Type 0
SpaceSpans = List (Space × List Span)

-- `spans.setdefault(space, []).append(span)`
unfoldable pub add_span : Space → Span → SpaceSpans → SpaceSpans
add_span s p [] = (s, p ∷ []) ∷ []
add_span s p ((t, ps) ∷ m) =
    if space_eq s t then (t, ps ++ p ∷ []) ∷ m else (t, ps) ∷ add_span s p m

unfoldable pub add_scale : Space → Option ℕ → SpaceSpans → SpaceSpans
add_scale s none m = m
add_scale s (some a) m = add_span s (a, 1) m

-- One entry of the values dictionary: the word or bit at an address.
pub record Reading : Type 0 where
  pub space : Space
  pub address : ℕ
  pub value : ℕ

-- Newest first, as a later entry replaces an earlier one.
abbrev pub Values : Type 0
Values = List Reading

unfoldable pub find_value : Space → ℕ → Values → Result ℕ
find_value s a [] = err key_error
find_value s a (v ∷ vs) =
    if space_eq s v.space && a == v.address then ok v.value else find_value s a vs

-- `for offset in range(count): values[(space, start + offset)] = got[offset]`
unfoldable pub store_words : Space → ℕ → ℕ → List ℕ → Values → Result Values
store_words s start zero got vs = ok vs
store_words s start (suc n) [] vs = err index_error
store_words s start (suc n) (w ∷ ws) vs =
    store_words s (start + 1) n ws (record { space = s; address = start; value = w } ∷ vs)

-- `except ModbusExceptionError as err: raise ModbusExceptionError.from_code(...)`
unfoldable pub name_block : Space → Block → Error → Error
name_block s b (modbus e) =
    if is_exception_response (modbus e)
    then modbus
        (from_code e.exception_code (some (record { space = s; address = b.0; count = b.1 })))
    else modbus e
name_block s b e = e

-- `[values[(space, address + offset)] for offset in range(count)]`
unfoldable pub gather : Space → ℕ → ℕ → Values → Result (List ℕ)
unfolding find_value
gather s a zero vs = ok []
gather s a (suc n) vs = do w ← find_value s a vs; ws ← gather s (a + 1) n vs; ok (w ∷ ws)

unfoldable pub scale_exponent : Space → Option ℕ → Values → Result (Option ℤ)
unfolding find_value
scale_exponent s none vs = ok none
scale_exponent s (some a) vs = do w ← find_value s a vs; x ← decode_int16 (w ∷ []); ok (some x)

module _ {V : Type 0} where
  unfoldable pub add_item : ReadItem V → SpaceSpans → SpaceSpans
  unfolding add_span add_scale
  add_item i m = add_scale i.space i.scale_address (add_span i.space (i.address, i.count) m)

  -- `_spans`
  unfoldable pub spans_from : SpaceSpans → List (ReadItem V) → SpaceSpans
  unfolding add_item
  spans_from m [] = m
  spans_from m (i ∷ is) = spans_from (add_item i m) is

-- One `_plan_blocks` call for each space.
unfoldable pub plan_spaces : DeviceRanges → Limits → SpaceSpans → Result (List (Space × List Block))
plan_spaces ranges limits [] = ok []
plan_spaces ranges limits ((s, ps) ∷ m) = do
  blocks ← plan_blocks ps (for_space ranges s) limits
  rest ← plan_spaces ranges limits m
  ok ((s, blocks) ∷ rest)

pub record ReadPlan (V : Type 0) : Type 0 where
  pub items : List (ReadItem V)
  pub blocks : List (Space × List Block)

-- A value that was stored: in which dictionary, and under which name. Newest first.
pub record Stored (V : Type 0) : Type 0 where
  pub store : ℕ
  pub name : String
  pub value : V

module _ {V : Type 0} where
  -- `ReadPlan.build`
  unfoldable pub build : List (ReadItem V) → DeviceRanges → Limits → Result (ReadPlan V)
  unfolding spans_from plan_spaces
  build items ranges limits = do
    blocks ← plan_spaces ranges limits (spans_from [] items)
    ok (record { items = items; blocks = blocks })

  -- The value of one item from the words that were read.
  unfoldable pub decode_item : ReadItem V → Values → Result (Stored V)
  unfolding gather scale_exponent
  decode_item i vs = do
    words ← gather i.space i.address i.count vs
    exponent ← scale_exponent i.space i.scale_address vs
    v ← i.field.decode words exponent
    ok (record { store = i.store; name = i.field.name; value = v })

  -- The loop that stores each item; what was stored before an item raised stays.
  unfoldable pub store_items : List (ReadItem V) → Values → Action (List (Stored V)) (Unit {0})
  unfolding decode_item
  store_items [] vs stores = (ok tt, stores)
  store_items (i ∷ is) vs stores = elim (decode_item i vs) [
    | ok v ↦ store_items is vs (v ∷ stores)
    | err e ↦ (err e, stores)
  ]

-- What came of one block's request.
unfoldable pub take_block : Space → Block → Values → Result (List ℕ) → Result Values
unfolding store_words name_block
take_block s b vs (ok got) = store_words s b.0 b.1 got vs
take_block s b vs (err e) = err (name_block s b e)
