-- ===== src/Device/Polling.antt =====
-- What `async_poll` of src/modbus_connection/model/device.py returns, raises and records, against the
-- sequence of updates that it makes.
pub mod Settling
use Prim.Native.String.{String}
use modbus_connection.Prelude.{
  ◌≡◌, ◌↔◌, refl, sym, ap, ◌∙◌, ◌⊎◌, inl, inr, true, false, Bool, Option, none, some, List, [], ◌∷◌,
  ◌++◌, if-elim, if◌then◌else◌,
}
use mathlib.Core.List.{append_assoc, append-nil}
use modbus_connection.Errors.{Result, ok, err, Error}
use modbus_connection.Unit.{Action, after}
use modbus_connection.Device.{UpdateReport, Poll, poll_one, poll_names, async_poll, ensure_setup}
pub use modbus_connection.Device.Polling.Settling.{
  Outcome, succeeded, latest_failure, failure_after, Succeeds, Told, reported, Tolerated, Escapes,
  IsNoted, Settled, settle-Settled,
}

-- The components of these names are updated one after the other, from one state of the device to
-- another, with these outcomes. A name without a component is passed over.
pub data Ran {S : Type 0} (component : String → Option (Action S (Unit {0})))
    : List String → S → List Outcome → S → Type 0 where
  nothing : (s : S) → Ran component [] s [] s
  skipped :
      (name : String) (names : List String) (s t : S) (os : List Outcome)
      → component name ≡ none
      → Ran component names s os t
      → Ran component (name ∷ names) s os t
  updated :
      (name : String) (names : List String) (s t : S) (os : List Outcome)
      (update : Action S (Unit {0}))
      → component name ≡ some update
      → Ran component names (update s).1 os t
      → Ran component (name ∷ names) s ((name, (update s).0) ∷ os) t

-- The same up to an update that raises this error.
pub data RanUntil {S : Type 0} (component : String → Option (Action S (Unit {0})))
    : List String → S → List Outcome → Error → S → Type 0 where
  stopped :
      (name : String) (names : List String) (s : S) (update : Action S (Unit {0})) (e : Error)
      → component name ≡ some update
      → (update s).0 ≡ err e
      → RanUntil component (name ∷ names) s [] e (update s).1
  skipped_before :
      (name : String) (names : List String) (s t : S) (os : List Outcome) (e : Error)
      → component name ≡ none
      → RanUntil component names s os e t
      → RanUntil component (name ∷ names) s os e t
  updated_before :
      (name : String) (names : List String) (s t : S) (os : List Outcome) (e : Error)
      (update : Action S (Unit {0}))
      → component name ≡ some update
      → RanUntil component names (update s).1 os e t
      → RanUntil component (name ∷ names) s ((name, (update s).0) ∷ os) e t

Told-nil : (r : UpdateReport) → Told [] r r
Told-nil r = record {
  updated = λ other. ((λ h. inl h), λ h. elim h [ inl m ↦ m | inr k ↦ elim k [ ] ]);
  failed = λ other. refl;
}

Told-next :
    (o : Outcome) (os : List Outcome) (r t u : UpdateReport)
    → Told (o ∷ []) r t
    → Told os t u
    → Told (o ∷ os) r u
Told-next o os r t u a b = record {
  updated = λ other. (
    (λ h. elim ((b.updated other).0 h) [
      | inr later ↦ inr (inr later)
      | inl m ↦ elim ((a.updated other).0 m) [
        | inl before ↦ inl before
        | inr (inl here) ↦ inr (inl here)
        | inr (inr k) ↦ elim k [ ]
      ]
    ]),
    λ h. elim h [
      | inl before ↦ (b.updated other).1 (inl ((a.updated other).1 (inl before)))
      | inr (inl here) ↦ (b.updated other).1 (inl ((a.updated other).1 (inr (inl here))))
      | inr (inr later) ↦ (b.updated other).1 (inr later)
    ],
  );
  failed = λ other. b.failed other ∙ ap (latest_failure other os) (a.failed other);
}

Tolerated-next :
    (b : Bool) (o : Outcome) (os : List Outcome)
    → Tolerated b (o ∷ [])
    → Tolerated true os
    → Tolerated b (o ∷ os)
Tolerated-next b (name, ok u) os h hs = hs
Tolerated-next b (name, err e) os h hs = (h.0, hs)

succeeded-next :
    (o : Outcome) (os : List Outcome) → succeeded (o ∷ []) ++ succeeded os ≡ succeeded (o ∷ os)
succeeded-next (name, ok u) os = refl
succeeded-next (name, err e) os = refl

module _ {S : Type 0} (component : String → Option (Action S (Unit {0}))) where
  -- What the loop over these names comes to.
  Looped : List String → List String → Poll S → Result (List String) × Poll S → Type 0
  Looped names before p (ok now, q) =
      (os : List Outcome) × Ran component names p.device os q.device
      × Tolerated (reported p.report) os
      × Told os p.report q.report
      × (q.notified ≡ p.notified)
      × (now ≡ before ++ succeeded os)
  Looped names before p (err e, q) =
      (os : List Outcome) × RanUntil component names p.device os e q.device
      × Tolerated (reported p.report) os
      × Told os p.report q.report
      × (q.notified ≡ p.notified)
      × Escapes e (reported q.report)

  Looped-skipped :
      (name : String) (names before : List String) (p : Poll S)
      (run : Result (List String) × Poll S)
      → component name ≡ none
      → Looped names before p run
      → Looped (name ∷ names) before p run
  unfolding Looped
  Looped-skipped name names before p (ok now, q) e (os, ran, a, b, c, d) =
      (os, skipped name names p.device q.device os e ran, a, b, c, d)
  Looped-skipped name names before p (err x, q) e (os, ran, a, b, c, d) =
      (os, skipped_before name names p.device q.device os x e ran, a, b, c, d)

  Looped-updated :
      (name : String) (names before : List String) (update : Action S (Unit {0})) (p t : Poll S)
      (run : Result (List String) × Poll S)
      → component name ≡ some update
      → t.device ≡ (update p.device).1
      → t.notified ≡ p.notified
      → IsNoted (name, (update p.device).0) p.report t.report
      → Looped names (before ++ succeeded ((name, (update p.device).0) ∷ [])) t run
      → Looped (name ∷ names) before p run
  unfolding Looped
  Looped-updated name names before update p t (ok now, q) e d n noted
        (os, ran, tol, told, quiet, all) =
      let o : Outcome = (name, (update p.device).0) in
      (
        o ∷ os,
        updated name names p.device q.device os update e (rw (← d) ran),
        Tolerated-next (reported p.report) o os noted.tolerated (rw noted.some_reported at tol),
        Told-next o os p.report t.report q.report noted.told told,
        quiet ∙ n,
        all
            ∙ (append_assoc before (succeeded (o ∷ [])) (succeeded os)
                ∙ ap (λ ys. before ++ ys) (succeeded-next o os)),
      )
  Looped-updated name names before update p t (err x, q) e d n noted
        (os, ran, tol, told, quiet, esc) =
      let o : Outcome = (name, (update p.device).0) in
      (
        o ∷ os,
        updated_before name names p.device q.device os x update e (rw (← d) ran),
        Tolerated-next (reported p.report) o os noted.tolerated (rw noted.some_reported at tol),
        Told-next o os p.report t.report q.report noted.told told,
        quiet ∙ n,
        esc,
      )

  one_name :
      (name : String) (names before : List String) (p : Poll S) (o : Option (Action S (Unit {0})))
      → component name ≡ o
      → ((now : List String) (q : Poll S) → Looped names now q (poll_names component names now q))
      → Looped (name ∷ names) before p (
          after
            (poll_one component name o before p).0
            (λ now. poll_names component names now)
            (poll_one component name o before p).1)
  one_name name names before p none e rest =
      Looped-skipped name names before p (poll_names component names before p) e (rest before p)
  one_name name names before p (some update) e rest =
      elim (settle-Settled name (update p.device) before p) [
        | inl (t, run, d, n, noted) ↦
            rw run (Looped-updated name names before update p t _ e d n noted (rest _ t))
        | inr (x, raised, run, esc) ↦ rw run (
            unfold Looped in
            ([], stopped name names p.device update x e raised, tt, Told-nil p.report, refl, esc))
      ]

  poll_names-Looped :
      (names before : List String) (p : Poll S)
      → Looped names before p (poll_names component names before p)
  unfolding poll_names
  poll_names-Looped [] before p =
      unfold Looped in ([], nothing p.device, tt, Told-nil p.report, refl, sym (append-nil before))
  poll_names-Looped (name ∷ names) before p =
      one_name name names before p (component name) refl (λ now q. poll_names-Looped names now q)

  -- What a whole poll returns or raises, on a device whose setup is done.
  pub PollEnds : List String → Poll S → Result UpdateReport × Poll S → Type 0
  PollEnds names p (ok report, q) =
      (os : List Outcome) × Ran component names p.device os q.device
      × Tolerated (reported p.report) os
      × Told os p.report report
      × (q.report ≡ report)
      × (q.notified ≡ p.notified ++ succeeded os)
  PollEnds names p (err e, q) =
      (os : List Outcome) × RanUntil component names p.device os e q.device
      × Tolerated (reported p.report) os
      × Told os p.report q.report
      × Escapes e (reported q.report)
      × (q.notified ≡ p.notified)

  ended_poll :
      (names : List String) (p : Poll S) (run : Result (List String) × Poll S)
      → Looped names [] p run
      → PollEnds names p (
          after run.0
            (λ updated r. (ok r.report, record r { notified = r.notified ++ updated }))
            run.1)
  unfolding Looped PollEnds
  ended_poll names p (ok now, q) (os, ran, tol, told, quiet, all) =
      (os, ran, tol, told, refl, rw (quiet, all) refl)
  ended_poll names p (err e, q) (os, ran, tol, told, quiet, esc) = (os, ran, tol, told, esc, quiet)

  -- A poll of a device whose setup is done updates the components of the names one after the other, and
  -- passes over a name without a component. It returns once all are updated and none raised an error
  -- that leaves the poll: a lost or closed connection, no modbus error, or a timeout while nothing was
  -- reported. Then those whose update returned, in order, are notified. It raises at the first such
  -- error, and nobody is notified. Either way `updated` has the names that the report had and those
  -- whose update returned, and `failed` has for each name the latest error that its update raised and
  -- that did not leave the poll, or what was there.
  pub async_poll-PollEnds :
      (setup : Action S (Unit {0})) (names : List String) (p : Poll S)
      → p.setup_done ≡ true
      → PollEnds names p (async_poll component setup names p)
  unfolding async_poll ensure_setup
  async_poll-PollEnds setup names p done =
      let ready : ensure_setup setup p ≡ (ok tt, p) =
        if-elim (λ t. t ≡ (ok tt, p)) p.setup_done (λ _. refl) (λ e. absurd (differ e)) in
      rw ready (ended_poll names p (poll_names component names [] p) (poll_names-Looped names [] p))
    where
      differ : p.setup_done ≡ false → ⊥
      differ e = cc
