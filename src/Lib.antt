-- ===== src/Lib.antt =====
-- modbus-connection: pooled reads of Modbus registers, as checked definitions.
--
-- The program describes a device as components whose fields lie at register addresses. To read them
-- it plans a few block requests (model/_planning.py) inside the ranges that the device serves
-- (model/_ranges.py), sends them through a unit of a connection (_protocol.py), and decodes each
-- field's words (decode.py) into the component's dictionary, as the field says (model/fields.py). A
-- refused block is raised as an exception of its code (exceptions.py). A group pools the reads of its
-- components, a device polls its components by name, and a SunSpec scan finds where components lie.
-- All of them share one connection (_client.py), which connects on demand and is torn down once.
-- mock.py is an in-memory unit. Paths here are from src/modbus_connection/.
--
-- Files:
--   * Const: _types.py and model/_const.py, the address spaces, word orders and planning limits.
--   * Errors (Coded): exceptions.py. A coded class is `coded` of its code; `Result` is what a
--     function returns or raises.
--   * Codec (Words, Integers, Strings): encode.py and decode.py.
--   * Ranges: model/_ranges.py. Validity is about `_validate_ranges` and `_range_of`, Coalesce about
--     `_coalesce`, Excluding about `_ranges_excluding`; Splitting, Merging, Conflicts, Collecting and
--     Devices are about `DeviceRanges.merged`.
--   * Planning: `_plan_blocks` of model/_planning.py. Blocks and Plans say what a plan reads, Gaps
--     what it reads besides, Refusals when there is none.
--   * Unit: _protocol.py, an interface record over the state of a device.
--   * Reading: `_spans`, `ReadPlan.build` and the decoding half of `ReadPlan.execute`.
--   * Execution: the request half, and `ReadPlan.execute` as a whole; Pooled states its
--     specification, in which each field is read on its own.
--   * Mock (Writes, Stores, Memory, Access, Failures): `MockModbusUnit` of mock.py, which fills the
--     interface of Unit; Memory describes what its stores stand for, entry by entry.
--   * Dict: a Python dictionary in insertion order.
--   * Prelude: shared names, Boolean tests, lists, sorting and integers; Examples: concrete inputs.
--   * Claims (Served): `unmapped_items` and `claimed_ranges` of model/_planning.py.
--   * Writing (Guards, Stored): model/_writing.py, over any unit.
--   * Pacing (Gaps): the gaps between requests of _pacing.py, on a clock of natural numbers.
--   * Codec.Widths, Codec.Floats: the fixed widths, floats and hardware addresses of encode.py and
--     decode.py.
--   * Fields: `RegisterField` and scaling of model/fields.py. Numbers (Warnings, Roundtrip) is about
--     `NumberField`, Packed (Words, Merging) about the bit fields, Kinds (Helpers, Wide) about the
--     helpers that declare a field. Bits: masks and disjoint `|` as arithmetic.
--   * Component: addresses of model/component.py and model/_component_base.py; Plans is about
--     `_resolved_ranges`, `_read_items` and `_build_plan`; Restriction (Reshaped, with Cuts and Steps)
--     is about `restrict_fields` and `_reshaped_ranges`.
--   * Group (Bounded, Occupied): the pooled plan of model/component_group.py.
--   * Device (Polling, with Settling): `async_poll` of model/device.py.
--   * Sunspec (Chain, Scanning, with Layout): model/sunspec/scan.py.
--   * Client: the state of `BaseModbusConnection` of _client.py. Events is a function from an event
--     and a state to the next state; Invariants (Soundness) says what holds of every reachable state,
--     Closing and Draining (Work) how a closed connection ends, Requirements what the units ask of the
--     timeout and the connect delay.
--
-- Bounds: addresses, counts, words and times are natural numbers. Loops are structural recursion. The
-- scan of a SunSpec chain has the 100 rounds of the source, and what a longer chain gives is stated;
-- the run of a connection to its end is bounded by the work that is left. Words wrap at 2 ^ 16 where
-- the source masks them. Field widths are positive, which is a hypothesis where it matters, since
-- `address + width - 1` is then what Python computes. Components are numbered from 1.
--
-- Coroutines are functions on a state: a component's refresh is run without another task between its
-- requests. A connection is modelled stretch by stretch instead, so that its coroutines interleave.
-- Sets are lists that the source's `sorted` puts in order. Messages of exceptions are left out.
-- Floating-point arithmetic and `struct` are parameters, and a field's decoder is one of the read.
--
-- Not modelled: the calls of the third-party backends (pymodbus, tmodbus), the parameter classes of
-- _client.py, the command line and the test plugin, which are input and output; the code generator and
-- the points of model/sunspec/; `ManualComponent`; the refresh that places repeating groups, of which
-- only the count items and the ranges of given instances are here; listeners; `ipaddress` fields.
pub mod Bits
pub mod Claims
pub mod Client
pub mod Codec
pub mod Component
pub mod Const
pub mod Device
pub mod Dict
pub mod Errors
pub mod Examples
pub mod Execution
pub mod Fields
pub mod Group
pub mod Mock
pub mod Pacing
pub mod Planning
pub mod Prelude
pub mod Ranges
pub mod Reading
pub mod Sunspec
pub mod Unit
pub mod Writing
