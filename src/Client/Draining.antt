-- ===== src/Client/Draining.antt =====
-- How the coroutines of a connection of src/modbus_connection/_client.py come to an end, and what a
-- closed connection comes to.
pub mod Work
use modbus_connection.Prelude.{
  ℕ, zero, suc, ◌+◌, ◌<◌, ◌≡◌, refl, ◌∙◌, ◌⊎◌, inl, inr, true, Option, none, some, List, [], ◌∷◌,
  ◌++◌, ◌==◌, arith, Option-cases,
}
use modbus_connection.Client.{
  scheduled, begun, Connection, new_connection, Flight, Teardown, awaiting, locking,
}
use modbus_connection.Client.Events.{
  started, start_teardown, Event, advanced, awaited, locked, step, advance, take_client,
  await_flight, drop_link, pick, still_flying,
}
use modbus_connection.Client.Invariants.{
  IsSound, Maybe-some, Reaches, reaches-IsSound, step-IsSound,
}
use modbus_connection.Client.Closing.{Closes, step-Closes}
pub use modbus_connection.Client.Draining.Work.{IsInternal, work, step-work}

-- Something can go on while anything is under way.
unfoldable pub Enabled : Connection → Type 0
Enabled s = (e : Event) × IsInternal e × (t : Connection) × (step e s ≡ some t)

flight-Enabled : (s : Connection) (f : Flight) → s.flight ≡ some f → Enabled s
unfolding step Enabled
flight-Enabled s f e = (advanced true, tt, advance f.phase true f s, rw e refl)

teardown-Enabled :
    (s : Connection) (t : Teardown) (ts : List Teardown)
    → s.flight ≡ none
    → s.teardowns ≡ t ∷ ts
    → Enabled s
unfolding step Enabled pick start_teardown await_flight drop_link still_flying
teardown-Enabled s scheduled ts e q =
    (started 0, tt, record s { teardowns = begun s.flight ∷ ts }, rw q refl)
teardown-Enabled s (awaiting id) ts e q =
    (awaited 0, tt, record s { teardowns = locking ∷ ts }, rw (q, e) refl)
teardown-Enabled s locking ts e q =
    (locked 0, tt, take_client (record s { teardowns = ts }), rw q refl)

List-cases : {A : Type 0} (xs : List A) → (xs ≡ []) ⊎ ((x : A) × (ys : List A) × (xs ≡ x ∷ ys))
List-cases [] = inl refl
List-cases (x ∷ xs) = inr (x, xs, refl)

-- Either something can go on, or nothing can.
pub Enabled-cases : (s : Connection) → Enabled s ⊎ ((s.flight ≡ none) × (s.teardowns ≡ []))
Enabled-cases s = elim (Option-cases s.flight) [
  | inr (f, e) ↦ inl (flight-Enabled s f e)
  | inl e ↦ elim (List-cases s.teardowns) [
    | inr (t, ts, q) ↦ inl (teardown-Enabled s t ts e q)
    | inl q ↦ inr (e, q)
  ]
]

-- A connection that has been torn down has no flight, no teardown, no client and no open transport.
pub record IsTornDown (s : Connection) : Type 0 where
  pub no_flight : s.flight ≡ none
  pub no_teardowns : s.teardowns ≡ []
  pub no_client : s.client ≡ none
  pub none_open : s.open_clients ≡ []

quiet-IsTornDown :
    (s : Connection)
    → IsSound s
    → s.closed ≡ true
    → s.flight ≡ none
    → s.teardowns ≡ []
    → IsTornDown s
quiet-IsTornDown s h c f t = record {
  no_flight = f;
  no_teardowns = t;
  no_client = gone;
  none_open = h.open_held ∙ rw (gone, f) refl;
}
  where
    differ : {k : ℕ} → s.client ≡ some k → s.client ≡ none → ⊥
    differ a b = cc

    gone : s.client ≡ none
    gone = elim (Option-cases s.client) [
      | inl e ↦ e
      | inr (k, e) ↦ absurd (h.closing c (λ q. differ e q) t)
    ]

-- A run of coroutines that are under way, with no new call.
pub data Runs : Connection → Connection → Type 0 where
  stays : (s : Connection) → Runs s s
  goes_on :
      (s t u : Connection) (e : Event) → IsInternal e → step e s ≡ some t → Runs t u → Runs s u

drains :
    (n : ℕ) (s : Connection)
    → work s < n
    → IsSound s
    → s.closed ≡ true
    → (t : Connection) × Runs s t × IsTornDown t
unfolding Enabled
drains zero s less h c = absurd (omega (arith, less))
drains (suc n) s less h c = elim (Enabled-cases s) [
  | inr (f, t) ↦ (s, stays s, quiet-IsTornDown s h c f t)
  | inl (e, internal, t, q) ↦
      let closed = (Maybe-some (Closes s) (step e s) t q (step-Closes e s c)).closed in
      let sound = Maybe-some IsSound (step e s) t q (step-IsSound e s h) in
      let lessened : work t < work s = step-work e s t internal q in
      let (u, run, down) = drains n t (omega (arith, lessened, less)) sound closed in
      (u, goes_on s t u e internal q run, down)
]

-- From every state that a closed connection can reach, the coroutines under way can run to their end
-- without a new call, and then there is no flight, no teardown, no published client and no open
-- transport. They can do nothing else: a state in which none can go on is such a state.
pub closed-IsTornDown :
    (timeout connect_delay : Option ℕ) (s : Connection)
    → Reaches (new_connection timeout connect_delay) s
    → s.closed ≡ true
    → ((t : Connection) × Runs s t × IsTornDown t) × (¬ Enabled s → IsTornDown s)
closed-IsTornDown timeout connect_delay s r c =
    let h = reaches-IsSound timeout connect_delay s r in
    (
      drains (suc (work s)) s (omega arith) h c,
      λ n. elim (Enabled-cases s) [
        | inl e ↦ absurd (n e)
        | inr (f, t) ↦ quiet-IsTornDown s h c f t
      ],
    )
