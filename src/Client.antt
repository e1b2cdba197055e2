-- ===== src/Client.antt =====
-- src/modbus_connection/_client.py: the shared connection. A state is what a `BaseModbusConnection` is
-- between two awaits; an event is one stretch of a coroutine from one await to the next. Clients and
-- connect flights are numbered in the order in which they are made. Times are natural numbers.
-- Nothing cancels a flight, which is shielded; a teardown that is cancelled is left out.
pub mod Events
pub mod Requirements
pub mod Invariants
pub mod Draining
pub mod Closing
use modbus_connection.Prelude.{
  ℕ, ◌+◌, Bool, true, false, ◌&&◌, ◌||◌, Option, none, some, List, [], ◌∷◌, ◌++◌, ◌==◌, ltb,
  if◌then◌else◌, max, ℤ, pos, negsuc,
}
use modbus_connection.Dict
use modbus_connection.Dict.{Dict}
use modbus_connection.Errors.{Result, ok, err, value_error}

abbrev pub default_timeout : ℕ
default_timeout = 10

-- Where `_do_connect` is: not yet begun; in `_connect_client`; in the sleep of the connect delay; in
-- `_close_client` of a client that it disposes of; or ended, with `_connect_done` still to be called.
pub data Phase : Type 0 where
  created dialing : Phase
  settling : ℕ → Phase
  disposing : ℕ → Phase
  ended : Phase

-- `_connect_task`
pub record Flight : Type 0 where
  pub id : ℕ
  pub phase : Phase

-- Where a `disconnect` is: its task has not begun, it awaits a flight, or the lock of the pacer, which
-- it has in bounded time.
pub data Teardown : Type 0 where
  scheduled : Teardown
  awaiting : ℕ → Teardown
  locking : Teardown

pub record Connection : Type 0 where
  pub closed : Bool
  pub client : Option ℕ
  pub flight : Option Flight
  pub teardowns : List Teardown
  -- The clients that `_connect_client` returned and that were neither given to `_close_client` nor lost.
  pub open_clients : List ℕ
  pub clients_made : ℕ
  pub flights_made : ℕ
  pub base_timeout : Option ℕ
  pub base_connect_delay : Option ℕ
  pub unit_timeouts : Dict ℕ ℕ
  pub unit_connect_delays : Dict ℕ ℕ
  pub timeout : ℕ
  pub client_timeout : ℕ
  pub connect_delay : ℕ

abbrev pub or_default : Option ℕ → ℕ → ℕ
or_default none default = default
or_default (some seconds) default = seconds

-- `BaseModbusConnection.__init__`
unfoldable pub new_connection : Option ℕ → Option ℕ → Connection
new_connection timeout connect_delay = record {
  closed = false;
  client = none;
  flight = none;
  teardowns = [];
  open_clients = [];
  clients_made = 0;
  flights_made = 0;
  base_timeout = timeout;
  base_connect_delay = connect_delay;
  unit_timeouts = [];
  unit_connect_delays = [];
  timeout = or_default timeout default_timeout;
  client_timeout = or_default timeout default_timeout;
  connect_delay = or_default connect_delay 0;
}

-- `_record`
unfoldable pub record_requirement : Dict ℕ ℕ → ℕ → Option ℕ → Dict ℕ ℕ
unfolding Dict.insert Dict.remove
record_requirement required unit_id none = Dict.remove ◌==◌ unit_id required
record_requirement required unit_id (some seconds) = Dict.insert ◌==◌ unit_id seconds required

unfoldable pub asked_values : Dict ℕ ℕ → List ℕ
asked_values [] = []
asked_values ((unit_id, seconds) ∷ required) = seconds ∷ asked_values required

unfoldable pub max_from : ℕ → List ℕ → ℕ
max_from m [] = m
max_from m (x ∷ xs) = max_from (max m x) xs

-- `max(asked, default=default)`
unfoldable pub max_or : ℕ → List ℕ → ℕ
unfolding max_from
max_or default [] = default
max_or default (x ∷ xs) = max_from x xs

abbrev pub with_base : Option ℕ → List ℕ → List ℕ
with_base none asked = asked
with_base (some seconds) asked = asked ++ seconds ∷ []

-- `_resolved`
unfoldable pub resolved : Option ℕ → Dict ℕ ℕ → ℕ → ℕ
unfolding asked_values max_or
resolved base required default = max_or default (with_base base (asked_values required))

-- `connected`
abbrev pub is_some {ℓ} : {A : Type ℓ} → Option A → Bool
is_some none = false
is_some (some a) = true

unfoldable pub connected : Connection → Bool
connected s = is_some s.client

-- A flight that a teardown finds is awaited first.
abbrev pub begun : Option Flight → Teardown
begun none = locking
begun (some f) = awaiting f.id

-- `disconnect` up to its first await
unfoldable pub disconnect : Connection → Connection
disconnect s = record s { teardowns = s.teardowns ++ begun s.flight ∷ [] }

-- `close`
unfoldable pub close : Connection → Connection
unfolding disconnect
close s = disconnect (record s { closed = true })

abbrev pub checked_seconds : Option ℤ → Result (Option ℕ)
checked_seconds none = ok none
checked_seconds (some (pos n)) = ok (some n)
checked_seconds (some (negsuc n)) = err value_error

-- A raised timeout needs a new client, where there is one or one is being connected.
abbrev pub is_outdated : Connection → Bool
is_outdated s = ltb s.client_timeout s.timeout && (is_some s.client || is_some s.flight)

-- `create_task(self.disconnect())`: the task looks for a flight when it begins.
abbrev pub recycled : Connection → Connection
recycled s = if is_outdated s then record s { teardowns = s.teardowns ++ scheduled ∷ [] } else s

abbrev pub with_timeout : ℕ → Connection → Option ℕ → Connection
with_timeout unit_id s seconds =
    let required = record_requirement s.unit_timeouts unit_id seconds in
    record s {
      unit_timeouts = required;
      timeout = resolved s.base_timeout required default_timeout;
    }

abbrev pub accept_timeout : ℕ → Result (Option ℕ) → Connection → Result (Unit {0}) × Connection
accept_timeout unit_id (ok accepted) s = (ok tt, recycled (with_timeout unit_id s accepted))
accept_timeout unit_id (err e) s = (err e, s)

-- `_require_timeout`
unfoldable pub require_timeout : ℕ → Option ℤ → Connection → Result (Unit {0}) × Connection
unfolding record_requirement resolved
require_timeout unit_id seconds s = accept_timeout unit_id (checked_seconds seconds) s

abbrev pub with_connect_delay : ℕ → Connection → Option ℕ → Connection
with_connect_delay unit_id s seconds =
    let required = record_requirement s.unit_connect_delays unit_id seconds in
    record s {
      unit_connect_delays = required;
      connect_delay = resolved s.base_connect_delay required 0;
    }

abbrev pub accept_connect_delay :
    ℕ → Result (Option ℕ) → Connection → Result (Unit {0}) × Connection
accept_connect_delay unit_id (ok accepted) s = (ok tt, with_connect_delay unit_id s accepted)
accept_connect_delay unit_id (err e) s = (err e, s)

-- `_require_connect_delay`
unfoldable pub require_connect_delay : ℕ → Option ℤ → Connection → Result (Unit {0}) × Connection
unfolding record_requirement resolved
require_connect_delay unit_id seconds s = accept_connect_delay unit_id (checked_seconds seconds) s
