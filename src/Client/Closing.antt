-- ===== src/Client/Closing.antt =====
-- A connection of src/modbus_connection/_client.py after `close` was called.
use modbus_connection.Prelude.{
  ℕ, ◌≡◌, refl, ◌∙◌, ◌⊎◌, inl, inr, Bool, true, false, Option, none, some, List, ◌++◌, ◌==◌,
  if-elim, Option-elim,
}
use modbus_connection.Errors.{Result, ok, err}
use modbus_connection.Client.{
  Connection, Flight, Phase, created, dialing, settling, disposing, ended, Teardown, scheduled,
  awaiting, locking, disconnect, close, require_timeout, require_connect_delay, accept_timeout,
  accept_connect_delay, with_timeout, recycled, is_outdated, checked_seconds,
}
use modbus_connection.Client.Events.{
  Event, connect_called, disconnect_called, close_called, link_lost, advanced, started, awaited,
  locked, timeout_required, connect_delay_required, step, advance, advance_flight, publish,
  client_connected, with_new_client, take_client, lose_link, connect, Answer, start_teardown,
  await_flight, drop_link, pick, still_flying,
}
use modbus_connection.Client.Invariants.{Maybe, Maybe-some, Reaches, start, next}

-- Still closed, and no client but the one there was is published.
pub record Closes (s t : Connection) : Type 0 where
  pub closed : t.closed ≡ true
  pub kept_or_gone : (t.client ≡ s.client) ⊎ (t.client ≡ none)

-- Neither touched.
Closes-same :
    (s t : Connection) → s.closed ≡ true → t.closed ≡ s.closed → t.client ≡ s.client → Closes s t
Closes-same s t c e k = record { closed = e ∙ c; kept_or_gone = inl k }

take_client-Closes :
    (s : Connection) (ts : List Teardown)
    → s.closed ≡ true
    → Closes s (take_client (record s { teardowns = ts }))
unfolding take_client
take_client-Closes s ts c =
    Option-elim (Closes s) s.client (λ e. Closes-same s _ c refl refl)
      (λ k e. record { closed = c; kept_or_gone = inr refl })

publish-Closes :
    (f : Flight) (k : ℕ) (s t : Connection)
    → s.closed ≡ true
    → t.closed ≡ s.closed
    → t.client ≡ s.client
    → Closes s (publish f k t)
unfolding publish
publish-Closes f k s t c e q =
    if-elim (Closes s) t.closed (λ _. Closes-same s _ c e q) (λ n. absurd (differ n))
  where
    differ : t.closed ≡ false → ⊥
    differ n = cc

advance-Closes :
    (p : Phase) (dialed : Bool) (f : Flight) (s : Connection)
    → s.closed ≡ true
    → Closes s (advance p dialed f s)
unfolding advance client_connected
advance-Closes created dialed f s c = Closes-same s _ c refl refl
advance-Closes dialing dialed f s c =
    if-elim (Closes s) dialed
      (λ _.
        if-elim (Closes s) (s.connect_delay == 0)
          (λ _. publish-Closes f s.clients_made s (with_new_client s) c refl refl)
          (λ _. Closes-same s _ c refl refl))
      (λ _. Closes-same s _ c refl refl)
advance-Closes (settling k) dialed f s c = publish-Closes f k s s c refl refl
advance-Closes (disposing k) dialed f s c = Closes-same s _ c refl refl
advance-Closes ended dialed f s c = Closes-same s _ c refl refl

refused-same : (s : Connection) → s.closed ≡ true → (connect s).1 ≡ s
unfolding connect
refused-same s c =
    if-elim (λ (p : Answer × Connection). p.1 ≡ s) s.closed (λ _. refl) (λ n. absurd (differ n))
  where
    differ : s.closed ≡ false → ⊥
    differ n = cc

lost-same : (s : Connection) → s.closed ≡ true → lose_link s ≡ s
unfolding lose_link
lost-same s c = if-elim (λ t. t ≡ s) s.closed (λ _. refl) (λ n. absurd (differ n))
  where
    differ : s.closed ≡ false → ⊥
    differ n = cc

recycled-Closes :
    (s t : Connection)
    → s.closed ≡ true
    → t.closed ≡ s.closed
    → t.client ≡ s.client
    → Closes s (recycled t)
recycled-Closes s t c e q =
    if-elim (Closes s) (is_outdated t) (λ _. Closes-same s _ c e q) (λ _. Closes-same s t c e q)

accept_timeout-Closes :
    (unit_id : ℕ) (r : Result (Option ℕ)) (s : Connection)
    → s.closed ≡ true
    → Closes s (accept_timeout unit_id r s).1
accept_timeout-Closes unit_id (err e) s c = Closes-same s s c refl refl
accept_timeout-Closes unit_id (ok seconds) s c =
    recycled-Closes s (with_timeout unit_id s seconds) c refl refl

accept_connect_delay-Closes :
    (unit_id : ℕ) (r : Result (Option ℕ)) (s : Connection)
    → s.closed ≡ true
    → Closes s (accept_connect_delay unit_id r s).1
accept_connect_delay-Closes unit_id (err e) s c = Closes-same s s c refl refl
accept_connect_delay-Closes unit_id (ok seconds) s c = Closes-same s _ c refl refl

start_teardown-Closes :
    (o : Option (List Teardown × Teardown × List Teardown)) (s : Connection)
    → s.closed ≡ true
    → Maybe (Closes s) (start_teardown o s)
unfolding start_teardown Maybe
start_teardown-Closes none s c = tt
start_teardown-Closes (some (before, locking, behind)) s c = tt
start_teardown-Closes (some (before, awaiting id, behind)) s c = tt
start_teardown-Closes (some (before, scheduled, behind)) s c = Closes-same s _ c refl refl

await_flight-Closes :
    (o : Option (List Teardown × Teardown × List Teardown)) (s : Connection)
    → s.closed ≡ true
    → Maybe (Closes s) (await_flight o s)
unfolding await_flight Maybe
await_flight-Closes none s c = tt
await_flight-Closes (some (before, locking, behind)) s c = tt
await_flight-Closes (some (before, scheduled, behind)) s c = tt
await_flight-Closes (some (before, awaiting id, behind)) s c =
    if-elim (Maybe (Closes s)) (still_flying id s.flight) (λ _. tt)
      (λ _. Closes-same s _ c refl refl)

drop_link-Closes :
    (o : Option (List Teardown × Teardown × List Teardown)) (s : Connection)
    → s.closed ≡ true
    → Maybe (Closes s) (drop_link o s)
unfolding drop_link Maybe
drop_link-Closes none s c = tt
drop_link-Closes (some (before, awaiting id, behind)) s c = tt
drop_link-Closes (some (before, scheduled, behind)) s c = tt
drop_link-Closes (some (before, locking, behind)) s c = take_client-Closes s (before ++ behind) c

advance_flight-Closes :
    (o : Option Flight) (dialed : Bool) (s : Connection)
    → s.closed ≡ true
    → Maybe (Closes s) (advance_flight o dialed s)
unfolding Maybe
advance_flight-Closes none dialed s c = tt
advance_flight-Closes (some f) dialed s c = advance-Closes f.phase dialed f s c

pub step-Closes : (e : Event) (s : Connection) → s.closed ≡ true → Maybe (Closes s) (step e s)
unfolding step Maybe disconnect close require_timeout require_connect_delay
step-Closes connect_called s c = rw (refused-same s c) (Closes-same s s c refl refl)
step-Closes disconnect_called s c = Closes-same s _ c refl refl
step-Closes close_called s c = record { closed = refl; kept_or_gone = inl refl }
step-Closes link_lost s c = rw (lost-same s c) (Closes-same s s c refl refl)
step-Closes (advanced dialed) s c = advance_flight-Closes s.flight dialed s c
step-Closes (started i) s c = start_teardown-Closes (pick i s.teardowns) s c
step-Closes (awaited i) s c = await_flight-Closes (pick i s.teardowns) s c
step-Closes (locked i) s c = drop_link-Closes (pick i s.teardowns) s c
step-Closes (timeout_required unit_id seconds) s c =
    accept_timeout-Closes unit_id (checked_seconds seconds) s c
step-Closes (connect_delay_required unit_id seconds) s c =
    accept_connect_delay-Closes unit_id (checked_seconds seconds) s c

Closes-next : (s t u : Connection) → Closes s t → Closes t u → Closes s u
Closes-next s t u a b = record {
  closed = b.closed;
  kept_or_gone = elim b.kept_or_gone [
    | inr gone ↦ inr gone
    | inl same ↦ elim a.kept_or_gone [ inl kept ↦ inl (same ∙ kept) | inr gone ↦ inr (same ∙ gone) ]
  ];
}

-- A closed connection stays closed, whatever is called and in whatever order its coroutines go on, and
-- no client is published on it: what was published stays at most until it is taken away.
pub closed-Closes : (s t : Connection) → s.closed ≡ true → Reaches s t → Closes s t
closed-Closes s _ c start = Closes-same s s c refl refl
closed-Closes s _ c (next t u e r q) =
    let before = closed-Closes s t c r in
    Closes-next s t u before (Maybe-some (Closes t) (step e t) u q (step-Closes e t before.closed))
