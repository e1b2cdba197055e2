-- ===== src/Client/Invariants/Soundness.antt =====
-- A state of a connection of src/modbus_connection/_client.py in which no client is forgotten, and what
-- keeps it so.
use modbus_connection.Prelude.{
  ℕ, ◌≡◌, ◌≢◌, refl, sym, ap, ◌∙◌, ◌⊎◌, inl, inr, Bool, true, false, Option, none, some, List, [],
  ◌∷◌, ◌++◌, ◌==◌, arith, if-elim, Option-elim,
}
use modbus_connection.Client.{
  Connection, Flight, Phase, created, dialing, settling, disposing, ended, Teardown, is_some,
  disconnect, close,
}
use modbus_connection.Client.Events.{
  connect, publish, client_connected, with_new_client, advance, Answer, take_client, lose_link,
  without, joined,
}

-- No flight, or one that has ended.
abbrev pub IsIdle : Option Flight → Type 0
IsIdle none = Unit
IsIdle (some f) = f.phase ≡ ended

-- The clients that somebody has still to close: the published one, and the one that a flight is about
-- to publish.
abbrev pub settling_client : Phase → List ℕ
settling_client (settling c) = c ∷ []
settling_client _ = []

abbrev pub held : Option ℕ → Option Flight → List ℕ
held (some c) f = c ∷ []
held none none = []
held none (some f) = settling_client f.phase

pub record IsSound (s : Connection) : Type 0 where
  pub open_held : s.open_clients ≡ held s.client s.flight
  pub exclusive : IsIdle s.flight ⊎ (s.client ≡ none)
  pub closing : s.closed ≡ true → s.client ≢ none → s.teardowns ≢ []

without-own : (c : ℕ) → without c (c ∷ []) ≡ []
unfolding without
without-own c = ground arith

snoc-not_nil : (ts : List Teardown) (t : Teardown) → ts ++ t ∷ [] ≢ []
snoc-not_nil [] t e = cc
snoc-not_nil (u ∷ ts) t e = cc

pub disconnect-IsSound : (s : Connection) → IsSound s → IsSound (disconnect s)
unfolding disconnect
disconnect-IsSound s h = record {
  open_held = h.open_held;
  exclusive = h.exclusive;
  closing = λ _ _. snoc-not_nil s.teardowns _;
}

pub close-IsSound : (s : Connection) → IsSound s → IsSound (close s)
unfolding close disconnect
close-IsSound s h = record {
  open_held = h.open_held;
  exclusive = h.exclusive;
  closing = λ _ _. snoc-not_nil s.teardowns _;
}

idle-held : (o : Option Flight) → IsIdle o → held none o ≡ []
idle-held none h = refl
idle-held (some f) h = rw h refl

-- A published client leaves no flight that would publish another.
published-IsIdle : (s : Connection) (c : ℕ) → IsSound s → s.client ≡ some c → IsIdle s.flight
published-IsIdle s c h e = elim h.exclusive [ inl idle ↦ idle | inr n ↦ absurd (differ n e) ]
  where
    differ : s.client ≡ none → s.client ≡ some c → ⊥
    differ a b = cc

published-open :
    (s : Connection) (c : ℕ) → IsSound s → s.client ≡ some c → without c s.open_clients ≡ []
published-open s c h e = rw (h.open_held, e) (without-own c)

pub take_client-IsSound :
    (s : Connection) (ts : List Teardown)
    → IsSound s
    → IsSound (take_client (record s { teardowns = ts }))
unfolding take_client
take_client-IsSound s ts h =
    Option-elim IsSound s.client
      (λ e. record { open_held = h.open_held; exclusive = inr e; closing = λ _ n. absurd (n e) })
      (λ c e. record {
        open_held = published-open s c h e ∙ sym (idle-held s.flight (published-IsIdle s c h e));
        exclusive = inr refl;
        closing = λ _ n. absurd (n refl);
      })

pub lose_link-IsSound : (s : Connection) → IsSound s → IsSound (lose_link s)
unfolding lose_link
lose_link-IsSound s h = if-elim IsSound s.closed (λ _. h) (λ _. take_client-IsSound s s.teardowns h)

not_published : (o : Option ℕ) → is_some o ≡ false → o ≡ none
not_published none e = refl
not_published (some c) e = cc

-- A flight is made only where there is neither a client nor a flight.
pub connect-IsSound : (s : Connection) → IsSound s → IsSound (connect s).1
unfolding connect
connect-IsSound s h =
    if-elim (λ (p : Answer × Connection). IsSound p.1) s.closed (λ _. h)
      λ _.
        if-elim (λ (p : Answer × Connection). IsSound p.1) (is_some s.client) (λ _. h)
          λ e. joined-IsSound s.flight refl (not_published s.client e)
  where
    joined-IsSound : (o : Option Flight) → s.flight ≡ o → s.client ≡ none → IsSound (joined o s).1
    joined-IsSound none e n = record {
      open_held = h.open_held ∙ rw (n, e) refl;
      exclusive = inr n;
      closing = h.closing;
    }
    joined-IsSound (some f) e n = h

publish-IsSound :
    (f : Flight) (c : ℕ) (s : Connection)
    → s.client ≡ none
    → s.open_clients ≡ c ∷ []
    → IsSound (publish f c s)
unfolding publish
publish-IsSound f c s n o =
    if-elim IsSound s.closed
      (λ e. record {
        open_held = rw (o, n) (without-own c);
        exclusive = inr n;
        closing = λ _ m. absurd (m n);
      })
      (λ e. record { open_held = o; exclusive = inl refl; closing = λ e' _. absurd (differ e e') })
  where
    differ : s.closed ≡ false → s.closed ≡ true → ⊥
    differ a b = cc

client_connected-IsSound :
    (f : Flight) (s : Connection)
    → s.client ≡ none
    → s.open_clients ≡ []
    → IsSound (client_connected f s)
unfolding client_connected
client_connected-IsSound f s n o =
    let c = s.clients_made in
    if-elim IsSound (s.connect_delay == 0)
      (λ _. publish-IsSound f c (with_new_client s) n (ap (λ l. c ∷ l) o))
      (λ _. record { open_held = rw (o, n) refl; exclusive = inr n; closing = λ _ m. absurd (m n) })

-- A flight that has not ended has no published client beside it.
flying-unpublished :
    (s : Connection) (f : Flight)
    → IsSound s
    → s.flight ≡ some f
    → f.phase ≢ ended
    → s.client ≡ none
flying-unpublished s f h e flying = elim h.exclusive [
  | inl idle ↦ absurd (flying (rw e at idle))
  | inr n ↦ n
]

pub advance-IsSound :
    (p : Phase) (dialed : Bool) (f : Flight) (s : Connection)
    → f.phase ≡ p
    → s.flight ≡ some f
    → IsSound s
    → IsSound (advance p dialed f s)
unfolding advance
advance-IsSound created dialed f s e g h =
    let n = flying-unpublished s f h g (λ q. cc) in
    record { open_held = h.open_held ∙ rw (n, g, e) refl; exclusive = inr n; closing = h.closing }
advance-IsSound dialing dialed f s e g h =
    let n = flying-unpublished s f h g (λ q. cc) in
    if-elim IsSound dialed (λ _. client_connected-IsSound f s n (h.open_held ∙ rw (n, g, e) refl))
      (λ _. record {
        open_held = h.open_held ∙ rw (n, g, e) refl;
        exclusive = inr n;
        closing = h.closing;
      })
advance-IsSound (settling c) dialed f s e g h =
    let n = flying-unpublished s f h g (λ q. cc) in
    publish-IsSound f c s n (h.open_held ∙ rw (n, g, e) refl)
advance-IsSound (disposing c) dialed f s e g h =
    let n = flying-unpublished s f h g (λ q. cc) in
    record { open_held = h.open_held ∙ rw (n, g, e) refl; exclusive = inr n; closing = h.closing }
advance-IsSound ended dialed f s e g h = record {
  open_held = h.open_held ∙ same s.client;
  exclusive = inl tt;
  closing = h.closing;
}
  where
    same : (o : Option ℕ) → held o s.flight ≡ held o none
    same none = rw (g, e) refl
    same (some c) = refl
