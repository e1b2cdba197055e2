-- ===== src/Client/Draining/Work.antt =====
-- The work that the coroutines of a connection of src/modbus_connection/_client.py have left.
use modbus_connection.Prelude.{
  ℕ, zero, suc, ◌+◌, ◌<◌, ◌≡◌, refl, ap, Bool, Option, none, some, List, [], ◌∷◌, ◌++◌, ◌==◌, arith,
  if-elim, Option-elim,
}
use modbus_connection.Client.{
  scheduled, begun, Connection, Flight, Phase, created, dialing, settling, disposing, ended,
  Teardown, awaiting, locking,
}
use modbus_connection.Client.Events.{
  started, start_teardown, Event, connect_called, disconnect_called, close_called, link_lost,
  advanced, awaited, locked, timeout_required, connect_delay_required, step, advance,
  advance_flight, publish, client_connected, with_new_client, take_client, await_flight, drop_link,
  pick, still_flying,
}
use modbus_connection.Client.Invariants.{Maybe, Maybe-some}

-- The events of coroutines that are under way, as opposed to new calls and to what the link does.
abbrev pub IsInternal : Event → Type 0
IsInternal (advanced dialed) = Unit
IsInternal (started i) = Unit
IsInternal (awaited i) = Unit
IsInternal (locked i) = Unit
IsInternal _ = ⊥

-- How many stretches a flight and the teardowns have left at most.
abbrev phase_work : Phase → ℕ
phase_work created = 5
phase_work dialing = 4
phase_work (settling c) = 3
phase_work (disposing c) = 2
phase_work ended = 1

abbrev flight_work : Option Flight → ℕ
flight_work none = 0
flight_work (some f) = phase_work f.phase

teardown_work : List Teardown → ℕ
teardown_work [] = 0
teardown_work (scheduled ∷ ts) = 3 + teardown_work ts
teardown_work (awaiting id ∷ ts) = 2 + teardown_work ts
teardown_work (locking ∷ ts) = 1 + teardown_work ts

pub work : Connection → ℕ
work s = flight_work s.flight + teardown_work s.teardowns

-- The flight's own events.
publish-work :
    (f : Flight) (c : ℕ) (s : Connection)
    → ((flight_work (publish f c s).flight < 3) × ((publish f c s).teardowns ≡ s.teardowns))
unfolding publish
publish-work f c s =
    if-elim (λ (t : Connection). (flight_work t.flight < 3) × (t.teardowns ≡ s.teardowns)) s.closed
      (λ _. (omega arith, refl)) (λ _. (omega arith, refl))

client_connected-work :
    (f : Flight) (s : Connection)
    → (flight_work (client_connected f s).flight < 4)
      × ((client_connected f s).teardowns ≡ s.teardowns)
unfolding client_connected
client_connected-work f s =
    if-elim (λ (t : Connection). (flight_work t.flight < 4) × (t.teardowns ≡ s.teardowns))
      (s.connect_delay == 0)
      (λ _. let (a, b) = publish-work f s.clients_made (with_new_client s) in (omega (arith, a), b))
      (λ _. (omega arith, refl))

advance-work :
    (p : Phase) (dialed : Bool) (f : Flight) (s : Connection)
    → (flight_work (advance p dialed f s).flight < phase_work p)
      × ((advance p dialed f s).teardowns ≡ s.teardowns)
unfolding advance
advance-work created dialed f s = (omega arith, refl)
advance-work dialing dialed f s =
    if-elim (λ (t : Connection). (flight_work t.flight < 4) × (t.teardowns ≡ s.teardowns)) dialed
      (λ _. client_connected-work f s) (λ _. (omega arith, refl))
advance-work (settling c) dialed f s = publish-work f c s
advance-work (disposing c) dialed f s = (omega arith, refl)
advance-work ended dialed f s = (omega arith, refl)

teardown_work-append :
    (ts us : List Teardown) → teardown_work (ts ++ us) ≡ teardown_work ts + teardown_work us
unfolding teardown_work
teardown_work-append [] us = omega arith
teardown_work-append (scheduled ∷ ts) us = omega (arith, teardown_work-append ts us)
teardown_work-append (awaiting id ∷ ts) us = omega (arith, teardown_work-append ts us)
teardown_work-append (locking ∷ ts) us = omega (arith, teardown_work-append ts us)

abbrev Pick : Type 0
Pick = List Teardown × Teardown × List Teardown

-- What was picked is a part of the list.
Joined : List Teardown → Option Pick → Type 0
Joined ts none = Unit
Joined ts (some (before, t, behind)) = ts ≡ before ++ t ∷ behind

pick-Joined : (i : ℕ) (ts : List Teardown) → Joined ts (pick i ts)
unfolding pick Joined
pick-Joined i [] = tt
pick-Joined zero (u ∷ ts) = refl
pick-Joined (suc i) (u ∷ ts) = behind_first (pick i ts) (pick-Joined i ts)
  where
    behind_first :
        (o : Option Pick)
        → Joined ts o
        → Joined
            (u ∷ ts)
            (elim o [ none ↦ none | some (before, t, behind) ↦ some (u ∷ before, t, behind) ])
    behind_first none h = tt
    behind_first (some (before, t, behind)) h = ap (λ r. u ∷ r) h

Less : Connection → Connection → Type 0
Less s t = work t < work s

begun_work :
    (o : Option Flight) (ts : List Teardown) → teardown_work (begun o ∷ ts) < 3 + teardown_work ts
unfolding teardown_work
begun_work none ts = omega arith
begun_work (some f) ts = omega arith

start_teardown-work :
    (o : Option Pick) (s : Connection) → Joined s.teardowns o → Maybe (Less s) (start_teardown o s)
unfolding start_teardown Maybe Joined Less work teardown_work
start_teardown-work none s h = tt
start_teardown-work (some (before, locking, behind)) s h = tt
start_teardown-work (some (before, awaiting id, behind)) s h = tt
start_teardown-work (some (before, scheduled, behind)) s h =
    let less = begun_work s.flight behind in
    rw
      (
        h,
        teardown_work-append before (scheduled ∷ behind),
        teardown_work-append before (begun s.flight ∷ behind),
      )
      (omega (arith, less))

await_flight-work :
    (o : Option Pick) (s : Connection) → Joined s.teardowns o → Maybe (Less s) (await_flight o s)
unfolding await_flight Maybe Joined Less work teardown_work
await_flight-work none s h = tt
await_flight-work (some (before, locking, behind)) s h = tt
await_flight-work (some (before, scheduled, behind)) s h = tt
await_flight-work (some (before, awaiting id, behind)) s h =
    if-elim (Maybe (Less s)) (still_flying id s.flight) (λ _. tt)
      λ _.
        rw
          (
            h,
            teardown_work-append before (awaiting id ∷ behind),
            teardown_work-append before (locking ∷ behind),
          )
          (omega arith)

take_client-same :
    (s : Connection)
    → ((take_client s).flight ≡ s.flight) × ((take_client s).teardowns ≡ s.teardowns)
unfolding take_client
take_client-same s =
    Option-elim (λ (t : Connection). (t.flight ≡ s.flight) × (t.teardowns ≡ s.teardowns)) s.client
      (λ _. (refl, refl)) (λ c _. (refl, refl))

drop_link-work :
    (o : Option Pick) (s : Connection) → Joined s.teardowns o → Maybe (Less s) (drop_link o s)
unfolding drop_link Maybe Joined Less work teardown_work
drop_link-work none s h = tt
drop_link-work (some (before, awaiting id, behind)) s h = tt
drop_link-work (some (before, scheduled, behind)) s h = tt
drop_link-work (some (before, locking, behind)) s h =
    let (f, t) = take_client-same (record s { teardowns = before ++ behind }) in
    rw (f, t, h, teardown_work-append before (locking ∷ behind), teardown_work-append before behind)
      (omega arith)

advance_flight-work :
    (o : Option Flight) (dialed : Bool) (s : Connection)
    → s.flight ≡ o
    → Maybe (Less s) (advance_flight o dialed s)
unfolding Maybe Less work
advance_flight-work none dialed s e = tt
advance_flight-work (some f) dialed s e =
    let (less, same) = advance-work f.phase dialed f s in
    let had : flight_work s.flight ≡ phase_work f.phase = ap flight_work e in
    omega (arith, less, had, ap teardown_work same)

internal-work : (e : Event) (s : Connection) → IsInternal e → Maybe (Less s) (step e s)
unfolding step
internal-work connect_called s h = elim h [ ]
internal-work disconnect_called s h = elim h [ ]
internal-work close_called s h = elim h [ ]
internal-work link_lost s h = elim h [ ]
internal-work (advanced dialed) s h = advance_flight-work s.flight dialed s refl
internal-work (started i) s h =
    start_teardown-work (pick i s.teardowns) s (pick-Joined i s.teardowns)
internal-work (awaited i) s h = await_flight-work (pick i s.teardowns) s (pick-Joined i s.teardowns)
internal-work (locked i) s h = drop_link-work (pick i s.teardowns) s (pick-Joined i s.teardowns)
internal-work (timeout_required unit_id seconds) s h = elim h [ ]
internal-work (connect_delay_required unit_id seconds) s h = elim h [ ]

-- Without new calls the coroutines of a connection come to an end: every event of theirs lessens the
-- work that is left.
pub step-work : (e : Event) (s t : Connection) → IsInternal e → step e s ≡ some t → work t < work s
unfolding Less
step-work e s t h q = Maybe-some (Less s) (step e s) t q (internal-work e s h)
