-- ===== src/Client/Events.antt =====
-- The events of a connection of src/modbus_connection/_client.py, and what each does.
use modbus_connection.Prelude.{
  ℕ, zero, suc, Bool, false, Option, none, some, List, [], ◌∷◌, ◌++◌, ◌==◌, if◌then◌else◌, ℤ,
}
use modbus_connection.Client.{
  Connection, Flight, Phase, created, dialing, settling, disposing, ended, Teardown, scheduled,
  awaiting, locking, begun, is_some, disconnect, close, require_timeout, require_connect_delay,
}

-- What a caller of `connect` meets: it is refused, finds a link, or awaits a flight.
pub data Answer : Type 0 where
  refused linked : Answer
  awaits : ℕ → Answer

abbrev new_flight : Connection → Answer × Connection
new_flight s = (
  awaits s.flights_made,
  record s {
    flight = some (record { id = s.flights_made; phase = created });
    flights_made = suc s.flights_made;
  },
)

abbrev pub joined : Option Flight → Connection → Answer × Connection
joined none s = new_flight s
joined (some f) s = (awaits f.id, s)

-- `connect` up to its await
unfoldable pub connect : Connection → Answer × Connection
connect s =
    if s.closed then (refused, s) else if is_some s.client then (linked, s) else joined s.flight s

-- The events. `advanced dialed` is the flight's, whatever it waits for; `dialed` says whether `_connect_client`
-- returned. `started i`, `awaited i` and `locked i` are the i-th teardown's, when its task begins, when its
-- flight has ended and when it may go on under the lock.
pub data Event : Type 0 where
  connect_called disconnect_called close_called link_lost : Event
  advanced : Bool → Event
  started awaited locked : ℕ → Event
  timeout_required connect_delay_required : ℕ → Option ℤ → Event

abbrev pub in_phase : Flight → Phase → Connection → Connection
in_phase f phase s = record s { flight = some (record f { phase = phase }) }

unfoldable pub without : ℕ → List ℕ → List ℕ
without c [] = []
without c (d ∷ ds) = let rest = without c ds in if c == d then rest else d ∷ rest

-- The end of `_do_connect`: the client is published, or disposed of where the connection was closed.
unfoldable pub publish : Flight → ℕ → Connection → Connection
unfolding without
publish f c s =
    if s.closed
    then in_phase f (disposing c) (record s { open_clients = without c s.open_clients })
    else in_phase f ended (record s { client = some c })

abbrev pub with_new_client : Connection → Connection
with_new_client s = record s {
  clients_made = suc s.clients_made;
  open_clients = s.clients_made ∷ s.open_clients;
}

-- `_connect_client` returned a client; there is a sleep where there is a delay.
unfoldable pub client_connected : Flight → Connection → Connection
unfolding publish
client_connected f s =
    if s.connect_delay == 0
    then publish f s.clients_made (with_new_client s)
    else in_phase f (settling s.clients_made) (with_new_client s)

-- What a flight in this phase does next.
unfoldable pub advance : Phase → Bool → Flight → Connection → Connection
unfolding client_connected publish
advance created dialed f s = in_phase f dialing (record s { client_timeout = s.timeout })
advance dialing dialed f s = if dialed then client_connected f s else in_phase f ended s
advance (settling c) dialed f s = publish f c s
advance (disposing c) dialed f s = in_phase f ended s
advance ended dialed f s = record s { flight = none }

abbrev pub advance_flight : Option Flight → Bool → Connection → Option Connection
advance_flight none dialed s = none
advance_flight (some f) dialed s = some (advance f.phase dialed f s)

-- The flight that a teardown awaits has not ended.
unfoldable pub still_flying : ℕ → Option Flight → Bool
still_flying id none = false
still_flying id (some f) = elim f.phase [ ended ↦ false | _ ↦ f.id == id ]

-- The i-th teardown, and the ones before and behind it.
unfoldable pub pick : ℕ → List Teardown → Option (List Teardown × Teardown × List Teardown)
pick i [] = none
pick zero (t ∷ ts) = some ([], t, ts)
pick (suc i) (t ∷ ts) = elim (pick i ts) [
  | none ↦ none
  | some (before, u, behind) ↦ some (t ∷ before, u, behind)
]

-- The end of `disconnect`: the client is unpublished and closed.
unfoldable pub take_client : Connection → Connection
unfolding without
take_client s = elim s.client [
  | none ↦ s
  | some c ↦ record s { client = none; open_clients = without c s.open_clients }
]

-- A task of `disconnect` begins.
unfoldable pub start_teardown :
    Option (List Teardown × Teardown × List Teardown) → Connection → Option Connection
start_teardown (some (before, scheduled, behind)) s =
    some (record s { teardowns = before ++ begun s.flight ∷ behind })
start_teardown _ s = none

unfoldable pub await_flight :
    Option (List Teardown × Teardown × List Teardown) → Connection → Option Connection
unfolding still_flying
await_flight (some (before, awaiting id, behind)) s =
    if still_flying id s.flight
    then none
    else some (record s { teardowns = before ++ locking ∷ behind })
await_flight _ s = none

unfoldable pub drop_link :
    Option (List Teardown × Teardown × List Teardown) → Connection → Option Connection
unfolding take_client
drop_link (some (before, locking, behind)) s =
    some (take_client (record s { teardowns = before ++ behind }))
drop_link _ s = none

-- The backend's hook for a link that the transport takes away.
unfoldable pub lose_link : Connection → Connection
unfolding take_client
lose_link s = if s.closed then s else take_client s

-- One event: `none` where it cannot occur.
unfoldable pub step : Event → Connection → Option Connection
unfolding connect disconnect close require_timeout require_connect_delay advance pick start_teardown
    await_flight drop_link lose_link
step connect_called s = some (connect s).1
step disconnect_called s = some (disconnect s)
step close_called s = some (close s)
step link_lost s = some (lose_link s)
step (started i) s = start_teardown (pick i s.teardowns) s
step (awaited i) s = await_flight (pick i s.teardowns) s
step (locked i) s = drop_link (pick i s.teardowns) s
step (timeout_required unit_id seconds) s = some (require_timeout unit_id seconds s).1
step (connect_delay_required unit_id seconds) s = some (require_connect_delay unit_id seconds s).1
step (advanced dialed) s = advance_flight s.flight dialed s
