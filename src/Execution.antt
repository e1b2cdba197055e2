-- ===== src/Execution.antt =====
-- `ReadPlan.execute` of src/modbus_connection/model/_planning.py: the requests of a plan, block by
-- block, and the storing of the decoded values.
pub mod Requests
pub mod Pooled
use modbus_connection.Prelude.{Bool, List, [], ◌∷◌, if◌then◌else◌}
use modbus_connection.Const.{Space}
use modbus_connection.Errors.{Result, ok, err}
use modbus_connection.Planning.{Block}
use modbus_connection.Unit.{ModbusUnit, Action, reader, ◌>>=◌}
use modbus_connection.Reading.{ReadItem, ReadPlan, Stored, Values, take_block, store_items}

module _ {S : Type 0} (u : ModbusUnit S) where
  unfoldable pub read_block : Space → Block → Values → Action S Values
  unfolding take_block reader
  read_block s b vs st = let (got, st') = reader u s b.0 b.1 st in (take_block s b vs got, st')

  unfoldable pub read_blocks : Space → List Block → Values → Action S Values
  unfolding read_block
  read_blocks s [] vs st = (ok vs, st)
  read_blocks s (b ∷ bs) vs st = (read_block s b vs >>= λ vs'. read_blocks s bs vs') st

  unfoldable pub read_spaces : List (Space × List Block) → Values → Action S Values
  unfolding read_blocks
  read_spaces [] vs st = (ok vs, st)
  read_spaces ((s, bs) ∷ m) vs st = (read_blocks s bs vs >>= λ vs'. read_spaces m vs') st

-- The device and the component dictionaries that an execution acts on.
pub record World (S V : Type 0) : Type 0 where
  pub device : S
  pub stores : List (Stored V)

-- The raw map of `collect_raw=True`; an empty one without it.
abbrev pub raw_of : Bool → Values → Values
raw_of collect_raw vs = if collect_raw then vs else []

abbrev pub finish : Bool → Values → Result (Unit {0}) → Result Values
finish collect_raw vs (ok _) = ok (raw_of collect_raw vs)
finish collect_raw vs (err e) = err e

module _ {S V : Type 0} where
  unfoldable pub store_values :
      Bool → List (ReadItem V) → Result Values → World S V → Result Values × World S V
  unfolding store_items
  store_values collect_raw items (err e) w = (err e, w)
  store_values collect_raw items (ok vs) w =
      let (r, stores) = store_items items vs w.stores in
      (finish collect_raw vs r, record w { stores = stores })

  -- `ReadPlan.execute`
  unfoldable pub execute : ModbusUnit S → ReadPlan V → Bool → Action (World S V) Values
  unfolding read_spaces store_values
  execute u plan collect_raw w = elim plan.items [
    | [] ↦ (ok [], w)
    | i ∷ is ↦
        let (values, device) = read_spaces u plan.blocks [] w.device in
        store_values collect_raw plan.items values (record w { device = device })
  ]
