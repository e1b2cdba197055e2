-- ===== src/Examples/Reads.antt =====
-- The theorems on plans and their execution (src/modbus_connection/model/_planning.py) at concrete
-- inputs.
use modbus_connection.Prelude.{
  ℕ, ◌+◌, ◌≤◌, ◌<◌, ◌≡◌, refl, ◌⊎◌, true, false, none, some, List, [], ◌∷◌, arith, All, Any, ℤ, pos,
  negsuc, sort, sort_set,
}
use modbus_connection.Const.{holding, Range}
use modbus_connection.Errors.{ok, err, value_error}
use modbus_connection.Codec.{decode_int, decode_int16}
use modbus_connection.Const.{big}
use modbus_connection.Ranges.{DeviceRanges, claims, validate_ranges, range_of, for_space}
use modbus_connection.Planning.{Span, Block, Limits, plan_blocks}
use modbus_connection.Planning.Blocks.{IsPositive, Reads}
use modbus_connection.Planning.Plans.{
  plan_blocks-Reads, plan_blocks-le, plan_blocks-InRange, InRange,
}
use modbus_connection.Planning.Gaps.{plan_blocks-Near, plan_blocks-tight, Near}
use modbus_connection.Planning.Refusals.{plan_blocks_cases, Plannable}
use modbus_connection.Reading.{ResolvedField, ReadItem, ReadPlan, Values, build}
use modbus_connection.Reading.Items.{Needs}
use modbus_connection.Reading.Values.{Faithful}
use modbus_connection.Execution.{World, execute, finish}
use modbus_connection.Execution.Pooled.{Present, direct_items, execute-direct}
use modbus_connection.Claims.{claim_at, claimed_ranges}
use modbus_connection.Claims.Served.{HeldBy, claimed_ranges-holds}
use modbus_connection.Mock.{MockModbusUnit, one, many, read_holding_registers, read_registers}
use modbus_connection.Mock.Writes.{mock_unit}
use modbus_connection.Mock.Memory.{memory_of}
use modbus_connection.Mock.Access.{IsReady, mock-Serves}

abbrev some_spans : List Span
some_spans = (40, 2) ∷ (0, 2) ∷ (3, 1) ∷ (20, 2) ∷ []

abbrev small : Limits
small = record { max_gap = 4; max_span = 10 }

abbrev wide_map : List Range
wide_map = (0, 9) ∷ (20, 60) ∷ []

abbrev mapped_blocks : List Block
mapped_blocks = (0, 4) ∷ (20, 2) ∷ (40, 2) ∷ []

abbrev all_positive : All IsPositive some_spans
all_positive = (omega arith, (omega arith, (omega arith, (omega arith, tt))))

mapped : plan_blocks some_spans (some wide_map) small ≡ ok mapped_blocks
unfolding plan_blocks validate_ranges sort sort_set range_of
mapped = refl

unmapped : plan_blocks some_spans none small ≡ ok mapped_blocks
unfolding plan_blocks sort_set
unmapped = refl

plan_blocks_cases_example :
    (Plannable some_spans (some wide_map) small
      × ((blocks : List Block) × (plan_blocks some_spans (some wide_map) small ≡ ok blocks)))
    ⊎ (¬ Plannable some_spans (some wide_map) small
        × (plan_blocks some_spans (some wide_map) small ≡ err value_error))
plan_blocks_cases_example = plan_blocks_cases some_spans (some wide_map) small all_positive

plan_blocks-Reads_example : Reads mapped_blocks some_spans
plan_blocks-Reads_example = plan_blocks-Reads some_spans (some wide_map) small all_positive mapped

plan_blocks-le_example : All (λ (b : Block). (0 < b.1) × (b.1 ≤ 10)) mapped_blocks
plan_blocks-le_example = plan_blocks-le some_spans (some wide_map) small all_positive mapped

plan_blocks-InRange_example : All (InRange wide_map) mapped_blocks
plan_blocks-InRange_example = plan_blocks-InRange some_spans wide_map small all_positive mapped

plan_blocks-Near_example :
    All (λ (b : Block). (x : ℕ) → b.0 ≤ x → x < b.0 + b.1 → Near some_spans 4 x) mapped_blocks
plan_blocks-Near_example = plan_blocks-Near some_spans small all_positive unmapped

plan_blocks-tight_example :
    All
      (λ (b : Block).
        Any (λ (p : Span). p.0 ≡ b.0) some_spans
        × Any (λ (p : Span). p.0 + p.1 ≡ b.0 + b.1) some_spans)
      mapped_blocks
plan_blocks-tight_example = plan_blocks-tight some_spans none small all_positive unmapped

abbrev counter : ResolvedField ℤ
counter = record {
  field = record { name = "counter"; decode = λ ws exponent. decode_int ws false big };
  address = 4;
  count = 2;
  scale_address = some 9;
  space = holding;
}

abbrev alarm : ResolvedField ℤ
alarm = record {
  field = record { name = "alarm"; decode = λ ws exponent. decode_int ws true big };
  address = 0;
  count = 1;
  scale_address = none;
  space = holding;
}

abbrev two_items : List (ReadItem ℤ)
two_items = record { resolved = counter; store = 0 } ∷ record { resolved = alarm; store = 1 } ∷ []

abbrev any_device : DeviceRanges
any_device = record { maps = λ s. none }

abbrev one_request : ReadPlan ℤ
one_request = record { items = two_items; blocks = (holding, (0, 6) ∷ (9, 1) ∷ []) ∷ [] }

built_example : build two_items any_device (record { max_gap = 4; max_span = 8 }) ≡ ok one_request
unfolding build plan_blocks for_space sort_set
built_example = refl

abbrev meter : MockModbusUnit
meter = record {
  closed = false;
  connected = false;
  holding_store = (0, one 0xFFFE) ∷ (4, many (1 ∷ 2 ∷ [])) ∷ [];
  input_store = [];
  coil_store = [];
  discrete_store = [];
  write_failures = [];
  read_failures = [];
  request_failure = none;
  read_events = [];
  write_callbacks = [];
  write_log = [];
}

meter-IsReady : IsReady meter meter
meter-IsReady = record {
  opened = refl;
  no_failure = refl;
  no_read_failure = refl;
  same_holding = refl;
  same_input = refl;
  same_coil = refl;
  same_discrete = refl;
}

abbrev empty_world : World MockModbusUnit ℤ
empty_world = record { device = meter; stores = [] }

execute-direct_example :
    (vs : Values) × Faithful (memory_of meter) vs
    × All (Present (memory_of meter) vs) two_items
    × ((execute mock_unit one_request true empty_world).0
        ≡ finish true vs (direct_items (memory_of meter) two_items []).0)
    × ((execute mock_unit one_request true empty_world).1.stores
        ≡ (direct_items (memory_of meter) two_items []).1)
execute-direct_example =
    execute-direct mock_unit (memory_of meter) (IsReady meter) two_items any_device
      (record { max_gap = 4; max_span = 8 }) one_request true empty_world (mock-Serves meter)
      meter-IsReady (omega arith, (omega arith, tt)) built_example

-- The run stores the signed alarm and the wide counter.
execute_test :
    (execute mock_unit one_request true empty_world).1.stores
    ≡ record { store = 1; name = "alarm"; value = negsuc 1 }
      ∷ record { store = 0; name = "counter"; value = pos 65538 }
      ∷ []
unfolding execute decode_int read_holding_registers read_registers decode_int16
execute_test = refl

abbrev claimed_device : DeviceRanges
claimed_device = claims (claim_at ((holding, (0, 5) ∷ (9, 9) ∷ []) ∷ []))

claimed_example :
    claimed_ranges two_items (record { max_gap = 4; max_span = 8 }) ≡ ok claimed_device
unfolding claimed_ranges plan_blocks sort_set
claimed_example = refl

claimed_ranges-holds_example : All (Needs (λ s p. HeldBy (for_space claimed_device s) p)) two_items
claimed_ranges-holds_example =
    claimed_ranges-holds two_items (record { max_gap = 4; max_span = 8 })
      (omega arith, (omega arith, tt)) claimed_example
