-- ===== src/Device/Polling/Settling.antt =====
-- The update of one component in a poll of src/modbus_connection/model/device.py: what the report says
-- after it, and which errors leave the poll.
use Prim.Native.String.{String}
use text.Mathlib.TextPositions.{compare_refl}
use text.Mathlib.TextEquality.{path_by_compare}
use modbus_connection.Prelude.{
  ◌≡◌, ◌↔◌, refl, sym, ◌∙◌, ap, ◌⊎◌, inl, inr, true, false, not, ◌&&◌, Bool, Option, none, some,
  List, [], ◌∷◌, ◌++◌, Any, In, Bool-cases, if◌then◌else◌,
}
use modbus_connection.Dict.{Dict, lookup, insert, lookup-insert}
use modbus_connection.Errors.{Result, ok, err, Error}
use modbus_connection.Component.{eq_name}
use modbus_connection.Device.{
  UpdateReport, Handler, connection, timeout, other_modbus, unhandled, handler_of, add_name,
  record_failure, Poll, settle, is_nil,
}

eq_name_refl : (n : String) → eq_name n n ≡ true
eq_name_refl n = rw (eq_name, compare_refl n) refl

eq_name_iff : (a b : String) → (eq_name a b ≡ true) ↔ (a ≡ b)
eq_name_iff a b = (by_order (Prim.Native.String.compare a b) refl, λ e. rw e (eq_name_refl b))
  where
    by_order :
        (o : Prim.Native.Nat.Ordering)
        → Prim.Native.String.compare a b ≡ o
        → elim o [ Prim.Native.Nat.Ordering.eq ↦ true | _ ↦ false ] ≡ true
        → a ≡ b
    by_order Prim.Native.Nat.Ordering.eq e h = path_by_compare a b e
    by_order Prim.Native.Nat.Ordering.lt e h = cc
    by_order Prim.Native.Nat.Ordering.gt e h = cc

-- A component's name, and what its update returned or raised.
abbrev pub Outcome : Type 0
Outcome = String × Result (Unit {0})

-- The names whose update returned, in order.
abbrev pub succeeded : List Outcome → List String
succeeded [] = []
succeeded ((name, ok _) ∷ os) = name ∷ succeeded os
succeeded ((name, err e) ∷ os) = succeeded os

-- The error that stands for a name after one more outcome, and after several: the latest one.
abbrev pub failure_after : String → Outcome → Option Error → Option Error
failure_after other (name, ok _) before = before
failure_after other (name, err e) before = if eq_name name other then some e else before

abbrev pub latest_failure : String → List Outcome → Option Error → Option Error
latest_failure other [] before = before
latest_failure other (o ∷ os) before = latest_failure other os (failure_after other o before)

abbrev pub Succeeds : String → Outcome → Type 0
Succeeds other o = (o.0 ≡ other) × (o.1 ≡ ok tt)

-- What the report says after these outcomes: `updated` has the names that it had and those whose update
-- returned, and `failed` has for each name the latest error.
pub record Told (outcomes : List Outcome) (before now : UpdateReport) : Type 0 where
  pub updated :
      (other : String)
      → In other now.updated ↔ (In other before.updated ⊎ Any (Succeeds other) outcomes)
  pub failed :
      (other : String)
      → lookup eq_name other now.failed
        ≡ latest_failure other outcomes (lookup eq_name other before.failed)

-- Something has been reported.
abbrev pub reported : UpdateReport → Bool
reported r = not (is_nil r.updated && is_nil r.failed)

-- No outcome is an error that leaves the poll; `answered` says whether anything was reported before.
abbrev pub Tolerated : Bool → List Outcome → Type 0
Tolerated answered [] = Unit
Tolerated answered ((name, ok _) ∷ os) = Tolerated true os
Tolerated answered ((name, err e) ∷ os) =
    ((handler_of e ≡ other_modbus) ⊎ ((handler_of e ≡ timeout) × (answered ≡ true)))
    × Tolerated true os

-- The errors that leave a poll: a lost or closed connection, what is no modbus error, and a timeout
-- while nothing has been reported.
abbrev pub Escapes : Error → Bool → Type 0
Escapes e answered =
    (handler_of e ≡ connection)
    ⊎ (handler_of e ≡ unhandled)
    ⊎ ((handler_of e ≡ timeout) × (answered ≡ false))

In-add_name :
    (name other : String) (names : List String)
    → In other (add_name name names) ↔ (In other names ⊎ (name ≡ other))
unfolding add_name
In-add_name name other [] = (
  (λ h. elim h [ inl e ↦ inr (sym e) | inr h ↦ inl h ]),
  λ h. elim h [ inl h ↦ inr h | inr e ↦ inl (sym e) ],
)
In-add_name name other (n ∷ names) = elim (Bool-cases (eq_name name n)) [
  | inl e ↦
      let same = (eq_name_iff name n).0 e in
      rw e ((λ h. inl h), λ h. elim h [ inl h ↦ h | inr q ↦ inl (sym q ∙ same) ])
  | inr e ↦
      let rest = In-add_name name other names in
      rw e (
        (λ h. elim h [
          | inl q ↦ inl (inl q)
          | inr k ↦ elim (rest.0 k) [ inl m ↦ inl (inr m) | inr q ↦ inr q ]
        ]),
        λ h. elim h [
          | inl (inl q) ↦ inl q
          | inl (inr m) ↦ inr (rest.1 (inl m))
          | inr q ↦ inr (rest.1 (inr q))
        ],
      )
]

add_name-not_nil : (name : String) (names : List String) → is_nil (add_name name names) ≡ false
unfolding add_name
add_name-not_nil name [] = refl
add_name-not_nil name (n ∷ names) = elim (Bool-cases (eq_name name n)) [
  | inl e ↦ rw e refl
  | inr e ↦ rw e refl
]

insert-not_nil :
    (name : String) (e : Error) (failed : Dict String Error)
    → is_nil (insert eq_name name e failed) ≡ false
unfolding insert
insert-not_nil name e [] = refl
insert-not_nil name e ((n, x) ∷ failed) = elim (Bool-cases (eq_name name n)) [
  | inl q ↦ rw q refl
  | inr q ↦ rw q refl
]

-- One outcome that stays in the poll.
pub record IsNoted (o : Outcome) (before now : UpdateReport) : Type 0 where
  pub told : Told (o ∷ []) before now
  pub some_reported : reported now ≡ true
  pub tolerated : Tolerated (reported before) (o ∷ [])

updated-IsNoted :
    (name : String) (u : Unit {0}) (r : UpdateReport)
    → IsNoted (name, ok u) r (record r { updated = add_name name r.updated })
updated-IsNoted name u r = record {
  told = record {
    updated = λ other.
        let noted = In-add_name name other r.updated in
        (
          (λ h. elim (noted.0 h) [ inl m ↦ inl m | inr q ↦ inr (inl (q, refl)) ]),
          λ h. elim h [
            | inl m ↦ noted.1 (inl m)
            | inr (inl (q, _)) ↦ noted.1 (inr q)
            | inr (inr k) ↦ elim k [ ]
          ],
        );
    failed = λ other. refl;
  };
  some_reported = rw (add_name-not_nil name r.updated) refl;
  tolerated = tt;
}

failed-IsNoted :
    (name : String) (e : Error) (r : UpdateReport)
    → ((handler_of e ≡ other_modbus) ⊎ ((handler_of e ≡ timeout) × (reported r ≡ true)))
    → IsNoted (name, err e) r (record r { failed = insert eq_name name e r.failed })
failed-IsNoted name e r allowed = record {
  told = record {
    updated = λ other. (
      (λ h. inl h),
      λ h. elim h [
        | inl m ↦ m
        | inr (inl (_, q)) ↦ absurd (differ (err e) refl q)
        | inr (inr k) ↦ elim k [ ]
      ],
    );
    failed = λ other. lookup-insert eq_name eq_name_iff name other e r.failed;
  };
  some_reported = not_empty (is_nil r.updated) (insert-not_nil name e r.failed);
  tolerated = (allowed, tt);
}
  where
    differ : (r : Result (Unit {0})) → r ≡ err e → r ≡ ok tt → ⊥
    differ r a b = cc

    not_empty : {b : Bool} (a : Bool) → b ≡ false → not (a && b) ≡ true
    not_empty true h = rw h refl
    not_empty false h = refl

Recorded : String → Error → UpdateReport → Option UpdateReport → Type 0
Recorded name e r none = Escapes e (reported r)
Recorded name e r (some t) = IsNoted (name, err e) r t

record_failure-Recorded :
    (name : String) (e : Error) (r : UpdateReport) → Recorded name e r (record_failure name e r)
unfolding record_failure Recorded
record_failure-Recorded name e r = by_handler (handler_of e) refl
  where
    by_timeout :
        (b : Bool)
        → (is_nil r.updated && is_nil r.failed) ≡ b
        → handler_of e ≡ timeout
        → Recorded name e r
            (if b then none else some (record r { failed = insert eq_name name e r.failed }))
    by_timeout true q h = inr (inr (h, ap not q))
    by_timeout false q h = failed-IsNoted name e r (inr (h, ap not q))

    by_handler :
        (k : Handler)
        → handler_of e ≡ k
        → Recorded name e r (elim k [
          | connection ↦ none
          | unhandled ↦ none
          | timeout ↦
              if is_nil r.updated && is_nil r.failed
              then none
              else some (record r { failed = insert eq_name name e r.failed })
          | other_modbus ↦ some (record r { failed = insert eq_name name e r.failed })
        ])
    by_handler connection q = inl q
    by_handler unhandled q = inr (inl q)
    by_handler other_modbus q = failed-IsNoted name e r (inl q)
    by_handler timeout q = by_timeout (is_nil r.updated && is_nil r.failed) refl q

-- One component's update is noted in the report, and no listener is told; or its error leaves the poll
-- with the report as it was.
abbrev pub Settled :
    {S : Type 0}
    → String
    → Result (Unit {0}) × S
    → List String
    → Poll S
    → Result (List String) × Poll S
    → Type 0
Settled {S} name outcome updated p run =
    ((q : Poll S) × (run ≡ (ok (updated ++ succeeded ((name, outcome.0) ∷ [])), q))
      × (q.device ≡ outcome.1)
      × (q.notified ≡ p.notified)
      × IsNoted (name, outcome.0) p.report q.report)
    ⊎ ((e : Error) × (outcome.0 ≡ err e)
        × (run ≡ (err e, record p { device = outcome.1 }))
        × Escapes e (reported p.report))

pub settle-Settled :
    {S : Type 0} (name : String) (outcome : Result (Unit {0}) × S) (updated : List String)
    (p : Poll S)
    → Settled name outcome updated p (settle name outcome updated p)
settle-Settled name (ok u, t) updated p = inl (
  record p { device = t; report = record p.report { updated = add_name name p.report.updated } },
  refl,
  refl,
  refl,
  updated-IsNoted name u p.report,
)
settle-Settled {S} name (err e, t) updated p =
    by_record (record_failure name e p.report) (record_failure-Recorded name e p.report)
  where
    no_more : (xs : List String) → xs ≡ xs ++ []
    no_more [] = refl
    no_more (x ∷ xs) = ap (λ ys. x ∷ ys) (no_more xs)

    by_record :
        (o : Option UpdateReport)
        → Recorded name e p.report o
        → Settled {S = S} name
            (err e, t)
            updated
            p
            (elim o [
              | none ↦ (err e, record p { device = t })
              | some report ↦ (ok updated, record p { device = t; report = report })
            ])
    by_record none h = unfold Recorded in inr (e, refl, refl, h)
    by_record (some report) h =
        unfold Recorded in
        inl (
          record p { device = t; report = report },
          ap (λ ys. (ok ys, record p { device = t; report = report })) (no_more updated),
          refl,
          refl,
          h,
        )
