-- ===== src/Client/Invariants.antt =====
-- What holds of every state that a connection of src/modbus_connection/_client.py can reach.
pub mod Soundness
use modbus_connection.Prelude.{
  ℕ, ◌≡◌, ◌≢◌, refl, ◌∙◌, ◌⊎◌, inr, Bool, Option, none, some, List, [], ◌∷◌, ◌++◌, ◌==◌, if-elim,
}
use modbus_connection.Errors.{Result, ok, err, some-injective}
use modbus_connection.Client.{
  is_outdated, scheduled, begun, Connection, Flight, Teardown, awaiting, locking, require_timeout,
  require_connect_delay, new_connection, with_timeout, accept_timeout, accept_connect_delay,
  checked_seconds,
}
use modbus_connection.Client.Events.{
  started, start_teardown, Event, connect_called, disconnect_called, close_called, link_lost,
  advanced, awaited, locked, timeout_required, connect_delay_required, step, advance_flight,
  await_flight, drop_link, pick, still_flying,
}
pub use modbus_connection.Client.Invariants.Soundness.{
  held, IsSound, disconnect-IsSound, close-IsSound, take_client-IsSound, lose_link-IsSound,
  connect-IsSound, advance-IsSound,
}

middle-not_nil : (ts us : List Teardown) (t : Teardown) → ts ++ t ∷ us ≢ []
middle-not_nil [] us t e = cc
middle-not_nil (u ∷ ts) us t e = cc

-- Teardowns may be there or more: what else the invariant says is about the rest.
unfoldable pub Maybe : (Connection → Type 0) → Option Connection → Type 0
Maybe P none = Unit
Maybe P (some s) = P s

start_teardown-IsSound :
    (o : Option (List Teardown × Teardown × List Teardown)) (s : Connection)
    → IsSound s
    → Maybe IsSound (start_teardown o s)
unfolding start_teardown Maybe
start_teardown-IsSound none s h = tt
start_teardown-IsSound (some (before, locking, behind)) s h = tt
start_teardown-IsSound (some (before, awaiting id, behind)) s h = tt
start_teardown-IsSound (some (before, scheduled, behind)) s h = record {
  open_held = h.open_held;
  exclusive = h.exclusive;
  closing = λ _ _. middle-not_nil before behind (begun s.flight);
}

await_flight-IsSound :
    (o : Option (List Teardown × Teardown × List Teardown)) (s : Connection)
    → IsSound s
    → Maybe IsSound (await_flight o s)
unfolding await_flight Maybe
await_flight-IsSound none s h = tt
await_flight-IsSound (some (before, locking, behind)) s h = tt
await_flight-IsSound (some (before, scheduled, behind)) s h = tt
await_flight-IsSound (some (before, awaiting id, behind)) s h =
    if-elim (Maybe IsSound) (still_flying id s.flight) (λ _. tt)
      (λ _. record {
        open_held = h.open_held;
        exclusive = h.exclusive;
        closing = λ _ _. middle-not_nil before behind locking;
      })

drop_link-IsSound :
    (o : Option (List Teardown × Teardown × List Teardown)) (s : Connection)
    → IsSound s
    → Maybe IsSound (drop_link o s)
unfolding drop_link Maybe
drop_link-IsSound none s h = tt
drop_link-IsSound (some (before, awaiting id, behind)) s h = tt
drop_link-IsSound (some (before, scheduled, behind)) s h = tt
drop_link-IsSound (some (before, locking, behind)) s h = take_client-IsSound s (before ++ behind) h

require_timeout-IsSound :
    (unit_id : ℕ) (r : Result (Option ℕ)) (s : Connection)
    → IsSound s
    → IsSound (accept_timeout unit_id r s).1
require_timeout-IsSound unit_id (err e) s h = h
require_timeout-IsSound unit_id (ok accepted) s h =
    if-elim IsSound (is_outdated (with_timeout unit_id s accepted))
      (λ _. record {
        open_held = h.open_held;
        exclusive = h.exclusive;
        closing = λ _ _. middle-not_nil s.teardowns [] scheduled;
      })
      (λ _. kept)
  where
    kept : IsSound (with_timeout unit_id s accepted)
    kept = record { open_held = h.open_held; exclusive = h.exclusive; closing = h.closing }

require_connect_delay-IsSound :
    (unit_id : ℕ) (r : Result (Option ℕ)) (s : Connection)
    → IsSound s
    → IsSound (accept_connect_delay unit_id r s).1
require_connect_delay-IsSound unit_id (err e) s h = h
require_connect_delay-IsSound unit_id (ok accepted) s h = record {
  open_held = h.open_held;
  exclusive = h.exclusive;
  closing = h.closing;
}

advance_flight-IsSound :
    (o : Option Flight) (dialed : Bool) (s : Connection)
    → s.flight ≡ o
    → IsSound s
    → Maybe IsSound (advance_flight o dialed s)
unfolding Maybe
advance_flight-IsSound none dialed s e h = tt
advance_flight-IsSound (some f) dialed s e h = advance-IsSound f.phase dialed f s refl e h

pub step-IsSound : (e : Event) (s : Connection) → IsSound s → Maybe IsSound (step e s)
unfolding step Maybe require_timeout require_connect_delay
step-IsSound connect_called s h = connect-IsSound s h
step-IsSound disconnect_called s h = disconnect-IsSound s h
step-IsSound close_called s h = close-IsSound s h
step-IsSound link_lost s h = lose_link-IsSound s h
step-IsSound (advanced dialed) s h = advance_flight-IsSound s.flight dialed s refl h
step-IsSound (started i) s h = start_teardown-IsSound (pick i s.teardowns) s h
step-IsSound (awaited i) s h = await_flight-IsSound (pick i s.teardowns) s h
step-IsSound (locked i) s h = drop_link-IsSound (pick i s.teardowns) s h
step-IsSound (timeout_required unit_id seconds) s h =
    require_timeout-IsSound unit_id (checked_seconds seconds) s h
step-IsSound (connect_delay_required unit_id seconds) s h =
    require_connect_delay-IsSound unit_id (checked_seconds seconds) s h

-- One event after another, from a new connection.
pub data Reaches (s : Connection) : Connection → Type 0 where
  start : Reaches s s
  next : (t u : Connection) (e : Event) → Reaches s t → step e t ≡ some u → Reaches s u

pub Maybe-some :
    (P : Connection → Type 0) (o : Option Connection) (s : Connection)
    → o ≡ some s
    → Maybe P o
    → P s
unfolding Maybe
Maybe-some P none s e h = cc
Maybe-some P (some t) s e h = rw (← some-injective e) h

-- Whatever is called, and in whatever order its coroutines go on, every client that was connected and
-- neither lost nor given to be closed is the published one, or is held by the one flight that is about
-- to publish it, and never both: there is at most one, and none is forgotten. While a closed connection
-- still has a published client, a teardown is under way.
pub reaches-IsSound :
    (timeout connect_delay : Option ℕ) (s : Connection)
    → Reaches (new_connection timeout connect_delay) s
    → IsSound s
unfolding new_connection
reaches-IsSound timeout connect_delay _ start = record {
  open_held = refl;
  exclusive = inr refl;
  closing = λ _ n. absurd (n refl);
}
reaches-IsSound timeout connect_delay _ (next t u e r q) =
    Maybe-some IsSound (step e t) u q (step-IsSound e t (reaches-IsSound timeout connect_delay t r))
