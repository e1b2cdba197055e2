-- ===== src/Examples/Pools.antt =====
-- The theorems on scanning (src/modbus_connection/model/sunspec/scan.py), on restricted components
-- (src/modbus_connection/model/component.py) and on groups (component_group.py) at concrete inputs.
use modbus_connection.Prelude.{
  ℕ, ◌<◌, ◌≡◌, refl, ◌⊎◌, inl, inr, true, false, none, some, List, [], ◌∷◌, arith, All, Any, length,
  sort, sort_set, sort_numbers,
}
use modbus_connection.Const.{holding, input, coil, discrete, Range}
use modbus_connection.Errors.{ok, err, sunspec_error}
use modbus_connection.Planning.{Span, plan_blocks}
use modbus_connection.Ranges.{
  by_space, exclude_from, merged, validate_ranges, coalesce, merged_runs, claims, range_of, collect,
}
use modbus_connection.Ranges.View.{Covers}
use modbus_connection.Mock.{MockModbusUnit, many}
use modbus_connection.Mock.Writes.{mock_unit}
use modbus_connection.Mock.Memory.{memory_of}
use modbus_connection.Mock.Access.{IsReady, mock-Serves}
use modbus_connection.Sunspec.{SunSpecModel, SunSpecModels, scan, chain, max_models}
use modbus_connection.Sunspec.Scanning.{Laid, Finds, Marked, scan_cases}
use modbus_connection.Component.{Component, Place}
use modbus_connection.Component.Restriction.{kept_spans, reshaped_ranges}
use modbus_connection.Component.Restriction.Reshaped.{
  OnlyDropped, PlaceReads, reshaped_ranges-keeps, reshaped_ranges-spares,
}
use modbus_connection.Component.Restriction.Reshaped.Steps.{Touches, Allowed, Names}
use modbus_connection.Reading.{ReadItem, ReadPlan}
use modbus_connection.Claims.{claim_at}
use modbus_connection.Group.{Member, build_group_plan}
use modbus_connection.Group.Bounded.{IsMember, MayRead, build_group_plan-MayRead}

-- A marker, one block of two words, and the end.
abbrev sunspec_unit : MockModbusUnit
sunspec_unit = record {
  closed = false;
  connected = false;
  holding_store = (40000, many (0x5375 ∷ 0x6E53 ∷ 1 ∷ 2 ∷ 7 ∷ 8 ∷ 0xFFFF ∷ 0 ∷ [])) ∷ [];
  input_store = [];
  coil_store = [];
  discrete_store = [];
  write_failures = [];
  read_failures = [];
  request_failure = none;
  read_events = [];
  write_callbacks = [];
  write_log = [];
}

scan_cases_example :
    (Marked (memory_of sunspec_unit) 40000
        × ((ms : List SunSpecModel) × (models : SunSpecModels) × Laid
              (memory_of sunspec_unit)
              40002
              ms
            × (length ms < max_models)
            × ((scan mock_unit 40000 sunspec_unit).0 ≡ ok models)
            × (chain models ≡ ms)
            × Finds models ms)
      ⊎ ((Marked (memory_of sunspec_unit) 40000
            → (ms : List SunSpecModel) → Laid (memory_of sunspec_unit) 40002 ms
            → length ms < max_models
            → ⊥)
          × ((scan mock_unit 40000 sunspec_unit).0 ≡ err sunspec_error)))
    × IsReady sunspec_unit (scan mock_unit 40000 sunspec_unit).1
scan_cases_example =
    scan_cases (memory_of sunspec_unit) (IsReady sunspec_unit) mock_unit (mock-Serves sunspec_unit)
      40000 sunspec_unit
      (record {
        opened = refl;
        no_failure = refl;
        no_read_failure = refl;
        same_holding = refl;
        same_input = refl;
        same_coil = refl;
        same_discrete = refl;
      })

-- Fields at 10 and 12 are kept and the one at 11 is dropped.
abbrev one_word : ℕ → Place
one_word address = record {
  address = address;
  count = 1;
  stride = 0;
  scale_register = none;
  scale_register_stride = 0;
}

abbrev meter : Component ℕ
meter = record {
  index = 1;
  base_offset = 100;
  instance_offset = 0;
  scale_in_block = false;
  register_space = holding;
  register_fields = [];
  bit_fields = [];
  declared_fields = [];
  static_groups = [];
  repeating_fields = [];
  register_ranges = some ((10, 20) ∷ []);
  coil_ranges = none;
  discrete_ranges = none;
  claimed_spaces = [];
  limits = record { max_gap = 16; max_span = 125 };
  values = [];
  bits = [];
}

abbrev kept_fields : List Place
kept_fields = one_word 10 ∷ one_word 12 ∷ []

abbrev dropped_fields : List Place
dropped_fields = one_word 11 ∷ []

meter_reshaped :
    reshaped_ranges meter (some ((10, 20) ∷ [])) kept_fields dropped_fields
    ≡ ok (some ((10, 10) ∷ (12, 20) ∷ []))
unfolding reshaped_ranges exclude_from sort_numbers
meter_reshaped = refl

reshaped_ranges-keeps_example :
    ((q : Span)
      → Any (λ p. PlaceReads meter p q) kept_fields
      → Allowed (some ((10, 20) ∷ [])) q
      → Allowed (some ((10, 10) ∷ (12, 20) ∷ [])) q)
    × ((x : ℕ)
        → OnlyDropped meter kept_fields dropped_fields x
        → ¬ Names x (some ((10, 10) ∷ (12, 20) ∷ [])))
    × ((rs : List Range) (x : ℕ)
        → some ((10, 20) ∷ []) ≡ some rs
        → Names x (some ((10, 10) ∷ (12, 20) ∷ []))
        → Covers x rs)
reshaped_ranges-keeps_example =
    reshaped_ranges-keeps meter (some ((10, 20) ∷ [])) kept_fields dropped_fields
      (omega arith, (omega arith, tt)) meter_reshaped

meter_planned :
    plan_blocks (kept_spans meter kept_fields) (some ((10, 10) ∷ (12, 20) ∷ [])) meter.limits
    ≡ ok ((10, 1) ∷ (12, 1) ∷ [])
unfolding kept_spans plan_blocks sort sort_set validate_ranges range_of
meter_planned = refl

eleven_dropped : OnlyDropped meter kept_fields dropped_fields 11
unfolding OnlyDropped
eleven_dropped = (inl (omega arith, omega arith), λ (q, reads, touched). no_kept q reads touched)
  where
    no_kept : (q : Span) → Any (λ p. PlaceReads meter p q) kept_fields → ¬ Touches 11 q
    no_kept q (inl (inl e)) t = ground (arith, e, t)
    no_kept q (inl (inr (r, e, same))) t = cc
    no_kept q (inr (inl (inl e))) t = ground (arith, e, t)
    no_kept q (inr (inl (inr (r, e, same)))) t = cc
    no_kept q (inr (inr h)) t = elim h [ ]

reshaped_ranges-spares_example : ¬ Any (Touches 11) ((10, 1) ∷ (12, 1) ∷ [])
reshaped_ranges-spares_example =
    reshaped_ranges-spares meter (some ((10, 20) ∷ [])) kept_fields dropped_fields
      (omega arith, (omega arith, tt)) meter_reshaped meter_planned 11 eleven_dropped

-- A member with a map and one without.
abbrev word_item : ℕ → ReadItem ℕ
word_item address = record {
  resolved = record {
    field = record { name = "word"; decode = λ ws exponent. ok 0 };
    address = address;
    count = 1;
    scale_address = none;
    space = holding;
  };
  store = 0;
}

abbrev mapped_member : Member ℕ
mapped_member = record {
  ranges = record {
    maps = by_space (some (record { ranges = (0, 9) ∷ []; declared = true })) none none none;
  };
  items = word_item 4 ∷ [];
  limits = record { max_gap = 16; max_span = 125 };
}

abbrev claiming_member : Member ℕ
claiming_member = record {
  ranges = record { maps = by_space none none none none };
  items = word_item 12 ∷ [];
  limits = record { max_gap = 16; max_span = 125 };
}

abbrev pooled : ReadPlan ℕ
pooled = record {
  items = word_item 4 ∷ word_item 12 ∷ [];
  blocks = (holding, (4, 1) ∷ (12, 1) ∷ []) ∷ [];
}

pooled_built : build_group_plan (mapped_member ∷ claiming_member ∷ []) ≡ ok pooled
unfolding build_group_plan merged validate_ranges sort_set coalesce sort sort_numbers merged_runs
    collect plan_blocks claims claim_at range_of
pooled_built = refl

members : All IsMember (mapped_member ∷ claiming_member ∷ [])
members = (
  record {
    widths = (omega arith, tt);
    forward = elim [ holding ↦ (omega arith, tt) | input ↦ tt | coil ↦ tt | discrete ↦ tt ];
  },
  (
    record {
      widths = (omega arith, tt);
      forward = elim [ holding ↦ tt | input ↦ tt | coil ↦ tt | discrete ↦ tt ];
    },
    tt,
  ),
)

build_group_plan-MayRead_example : Any (MayRead holding 12) (mapped_member ∷ claiming_member ∷ [])
build_group_plan-MayRead_example =
    build_group_plan-MayRead (mapped_member ∷ claiming_member ∷ []) members pooled_built holding 12
      (inl (refl, inr (inl (omega arith, omega arith))))
