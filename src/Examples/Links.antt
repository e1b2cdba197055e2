-- ===== src/Examples/Links.antt =====
-- The theorems on the connection (src/modbus_connection/_client.py) and on polling a device
-- (src/modbus_connection/model/device.py) at concrete inputs.
use Prim.Native.String.{String}
use modbus_connection.Prelude.{
  ℕ, ◌<◌, ◌≡◌, refl, true, Option, none, some, [], ◌∷◌, pos, Option-elim, ◌+◌, if◌then◌else◌,
}
use modbus_connection.Errors.{ok, err, Error, modbus, timeout_error}
use modbus_connection.Unit.{Action}
use modbus_connection.Component.{eq_name}
use modbus_connection.Client.{Connection, new_connection, require_timeout}
use modbus_connection.Client.Events.{Event, connect_called, close_called, advanced, step}
use modbus_connection.Client.Invariants.{IsSound, Reaches, start, next, reaches-IsSound}
use modbus_connection.Client.Closing.{Closes, closed-Closes}
use modbus_connection.Client.Draining.{
  IsTornDown, Runs, Enabled, work, step-work, closed-IsTornDown,
}
use modbus_connection.Client.Requirements.{IsHonoured, Replaced, require_timeout-IsHonoured}
use modbus_connection.Device.{Poll, async_poll}
use modbus_connection.Device.Polling.{PollEnds, async_poll-PollEnds}

after_event : Event → Connection → Connection
after_event e s = elim (step e s) [ none ↦ s | some t ↦ t ]

after_event-Reaches : (r s : Connection) (e : Event) → Reaches r s → Reaches r (after_event e s)
unfolding after_event
after_event-Reaches r s e h = Option-elim (Reaches r) (step e s) (λ _. h) (λ t q. next s t e h q)

-- `close` is called while the connect delay runs.
abbrev fresh_connection : Connection
fresh_connection = new_connection none (some 2)

dialed_state : Connection
dialed_state =
    after_event (advanced true)
      (after_event (advanced true) (after_event connect_called fresh_connection))

closed_early : Connection
unfolding dialed_state
closed_early = after_event close_called dialed_state

closed_early-Reaches : Reaches fresh_connection closed_early
unfolding closed_early dialed_state
closed_early-Reaches = after_event-Reaches fresh_connection dialed_state close_called (
    after_event-Reaches fresh_connection _ (advanced true) (
      after_event-Reaches fresh_connection _ (advanced true)
        (after_event-Reaches fresh_connection fresh_connection connect_called start)))

closed_early_closed : closed_early.closed ≡ true
unfolding closed_early dialed_state after_event step
closed_early_closed = refl

reaches-IsSound_example : IsSound closed_early
reaches-IsSound_example = reaches-IsSound none (some 2) closed_early closed_early-Reaches

-- The flight ends its delay.
disposing_state : Connection
disposing_state = after_event (advanced true) closed_early

closed-Closes_example : Closes closed_early disposing_state
unfolding disposing_state
closed-Closes_example =
    closed-Closes closed_early disposing_state closed_early_closed
      (after_event-Reaches closed_early closed_early (advanced true) start)

disposing_stepped : step (advanced true) closed_early ≡ some disposing_state
unfolding disposing_state closed_early dialed_state after_event step new_connection
disposing_stepped = refl

step-work_example : work disposing_state < work closed_early
step-work_example = step-work (advanced true) closed_early disposing_state tt disposing_stepped

closed-IsTornDown_example :
    ((t : Connection) × Runs closed_early t × IsTornDown t)
    × (¬ Enabled closed_early → IsTornDown closed_early)
closed-IsTornDown_example =
    closed-IsTornDown none (some 2) closed_early closed_early-Reaches closed_early_closed

require_timeout-IsHonoured_example :
    ((require_timeout 3 (some (pos 30)) dialed_state).0 ≡ ok tt)
    × IsHonoured (require_timeout 3 (some (pos 30)) dialed_state).1 3 30
    × Replaced (require_timeout 3 (some (pos 30)) dialed_state).1
require_timeout-IsHonoured_example = require_timeout-IsHonoured 3 30 dialed_state

-- A meter that answers and a battery that times out, and no inverter.
abbrev timed_out : Error
timed_out = modbus (record { class = timeout_error; exception_code = none; block = none })

abbrev plant : String → Option (Action ℕ (Unit {0}))
plant name =
    if eq_name name "meter"
    then some (λ s. (ok tt, s + 1))
    else if eq_name name "battery"
    then some (λ s. (err timed_out, s + 1))
    else none

abbrev idle_poll : Poll ℕ
idle_poll = record {
  device = 0;
  report = record { updated = []; failed = [] };
  notified = [];
  setup_done = true;
}

async_poll-PollEnds_example :
    PollEnds plant
      ("meter" ∷ "battery" ∷ "inverter" ∷ [])
      idle_poll
      (async_poll plant (λ s. (ok tt, s)) ("meter" ∷ "battery" ∷ "inverter" ∷ []) idle_poll)
async_poll-PollEnds_example =
    async_poll-PollEnds plant (λ s. (ok tt, s)) ("meter" ∷ "battery" ∷ "inverter" ∷ []) idle_poll
      refl
