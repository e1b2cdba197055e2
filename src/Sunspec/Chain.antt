-- ===== src/Sunspec/Chain.antt =====
-- The lookups of `SunSpecModels` (src/modbus_connection/model/sunspec/scan.py), as models are added in
-- the order of their addresses.
use mathlib.Core.List.{append_assoc, append-nil}
use modbus_connection.Prelude.{
  ℕ, ◌<◌, ◌≡◌, refl, ap, ◌∙◌, ◌↔◌, inl, inr, Bool, true, false, Option, none, some, List, [], ◌∷◌,
  ◌++◌, ◌==◌, ltb, if◌then◌else◌, arith, All, Bool-cases, ==_iff,
}
use modbus_connection.Dict.{lookup, insert, lookup-insert}
use modbus_connection.Sunspec.{
  SunSpecModel, SunSpecModels, add_model, all_models, insert_by_address, sort_by_address, chain,
  or_empty, first, head_or, at, find_at, eq_id,
}

-- Every model is below the address.
abbrev pub AllBelow : ℕ → List SunSpecModel → Type 0
AllBelow a = All (λ (m : SunSpecModel). m.address < a)

AllBelow-insert :
    (a : ℕ) (x : SunSpecModel) (ys : List SunSpecModel)
    → x.address < a
    → AllBelow a ys
    → AllBelow a (insert_by_address x ys)
unfolding insert_by_address
AllBelow-insert a x [] h hs = (h, tt)
AllBelow-insert a x (y ∷ ys) h hs = ground (arith, AllBelow-insert a x ys h hs.1)

AllBelow-sort : (a : ℕ) (xs : List SunSpecModel) → AllBelow a xs → AllBelow a (sort_by_address xs)
unfolding sort_by_address
AllBelow-sort a [] h = tt
AllBelow-sort a (x ∷ xs) h = AllBelow-insert a x (sort_by_address xs) h.0 (AllBelow-sort a xs h.1)

-- The model with the highest address goes to the end, and stays there.
insert-last :
    (x : SunSpecModel) (ys : List SunSpecModel)
    → AllBelow x.address ys
    → insert_by_address x ys ≡ ys ++ x ∷ []
unfolding insert_by_address
insert-last x [] h = refl
insert-last x (y ∷ ys) h =
    let below : ltb y.address x.address ≡ true = ground (arith, h.0) in
    rw below (ap (λ r. y ∷ r) (insert-last x ys h.1))

insert-before :
    (x y : SunSpecModel) (ys : List SunSpecModel)
    → y.address < x.address
    → insert_by_address y (ys ++ x ∷ []) ≡ insert_by_address y ys ++ x ∷ []
unfolding insert_by_address
insert-before x y [] h = let above : ltb x.address y.address ≡ false = ground arith in rw above refl
insert-before x y (z ∷ ys) h = elim (Bool-cases (ltb z.address y.address)) [
  | inl e ↦ rw e (ap (λ r. z ∷ r) (insert-before x y ys h))
  | inr e ↦ rw e refl
]

sort-last :
    (x : SunSpecModel) (ys zs : List SunSpecModel)
    → AllBelow x.address (ys ++ zs)
    → sort_by_address (ys ++ x ∷ zs) ≡ sort_by_address (ys ++ zs) ++ x ∷ []
unfolding sort_by_address
sort-last x [] zs h = insert-last x (sort_by_address zs) (AllBelow-sort x.address zs h)
sort-last x (y ∷ ys) zs h =
    ap (insert_by_address y) (sort-last x ys zs h.1)
    ∙ insert-before x y (sort_by_address (ys ++ zs)) h.0

-- The new list is the old one with the model put in somewhere.
Extends : SunSpecModel → List SunSpecModel → List SunSpecModel → Type 0
Extends x old new =
    (ys : List SunSpecModel) × (zs : List SunSpecModel) × (old ≡ ys ++ zs) × (new ≡ ys ++ x ∷ zs)

Extends-append :
    (x : SunSpecModel) (w old new : List SunSpecModel)
    → Extends x old new
    → Extends x (w ++ old) (w ++ new)
unfolding Extends
Extends-append x w old new (ys, zs, e, e') =
    (w ++ ys, zs, rw (e, append_assoc w ys zs) refl, rw (e', append_assoc w ys (x ∷ zs)) refl)

all_models-insert :
    (x : SunSpecModel) (v : List SunSpecModel) (models : SunSpecModels)
    → v ≡ or_empty (lookup eq_id x.model_id models) ++ x ∷ []
    → Extends x (all_models models) (all_models (insert eq_id x.model_id v models))
unfolding all_models Extends lookup insert
all_models-insert x v [] e = ([], [], refl, rw e refl)
all_models-insert x v ((id, found) ∷ models) e =
    go (λ same. all_models-insert x v models same) (eq_id x.model_id id) refl
  where
    go :
        (v ≡ or_empty (lookup eq_id x.model_id models) ++ x ∷ []
          → Extends x (all_models models) (all_models (insert eq_id x.model_id v models)))
        → (b : Bool) → eq_id x.model_id id ≡ b
        → Extends x
            (found ++ all_models models)
            (all_models (insert eq_id x.model_id v ((id, found) ∷ models)))
    go further true here =
        let same : v ≡ found ++ x ∷ [] = e ∙ rw here refl in
        (
          found,
          all_models models,
          refl,
          rw (here, same) (append_assoc found (x ∷ []) (all_models models)),
        )
    go further false here =
        let same : v ≡ or_empty (lookup eq_id x.model_id models) ++ x ∷ [] = e ∙ rw here refl in
        rw here (
          Extends-append x found (all_models models) (all_models (insert eq_id x.model_id v models))
            (further same))

all_models-add_model :
    (x : SunSpecModel) (models : SunSpecModels)
    → Extends x (all_models models) (all_models (add_model x models))
unfolding add_model
all_models-add_model x models = all_models-insert x _ models refl

-- A model that comes after all others is the last of the chain.
pub chain-add_model :
    (x : SunSpecModel) (models : SunSpecModels)
    → AllBelow x.address (all_models models)
    → chain (add_model x models) ≡ chain models ++ x ∷ []
unfolding chain Extends
chain-add_model x models h =
    let (ys, zs, old, new) = all_models-add_model x models in
    rw (new, old) (sort-last x ys zs (rw (← old) h))

AllBelow-put :
    (a : ℕ) (x : SunSpecModel) (ys zs : List SunSpecModel)
    → x.address < a
    → AllBelow a (ys ++ zs)
    → AllBelow a (ys ++ x ∷ zs)
AllBelow-put a x [] zs h hs = (h, hs)
AllBelow-put a x (y ∷ ys) zs h hs = (hs.0, AllBelow-put a x ys zs h hs.1)

pub AllBelow-add_model :
    (a : ℕ) (x : SunSpecModel) (models : SunSpecModels)
    → x.address < a
    → AllBelow a (all_models models)
    → AllBelow a (all_models (add_model x models))
unfolding Extends
AllBelow-add_model a x models h hs =
    let (ys, zs, old, new) = all_models-add_model x models in
    rw new (AllBelow-put a x ys zs h (rw (← old) hs))

-- The models of the list with the identity, in its order.
pub with_id : ℕ → List SunSpecModel → List SunSpecModel
with_id id [] = []
with_id id (m ∷ ms) = let rest = with_id id ms in if m.model_id == id then m ∷ rest else rest

with_id-snoc :
    (id : ℕ) (x : SunSpecModel) (ms : List SunSpecModel)
    → with_id id (ms ++ x ∷ [])
      ≡ (if x.model_id == id then with_id id ms ++ x ∷ [] else with_id id ms)
unfolding with_id
with_id-snoc id x [] = refl
with_id-snoc id x (m ∷ ms) = ground (arith, with_id-snoc id x ms)

-- The dictionary holds the models of each identity in the order of the list.
pub ById : SunSpecModels → List SunSpecModel → Type 0
ById models ms = (id : ℕ) → or_empty (lookup eq_id id models) ≡ with_id id ms

pub ById-nil : ById [] []
unfolding ById with_id lookup
ById-nil id = refl

eq_id_iff : (a b : ℕ) → (eq_id a b ≡ true) ↔ (a ≡ b)
eq_id_iff a b = ==_iff a b

pub ById-add_model :
    (x : SunSpecModel) (models : SunSpecModels) (ms : List SunSpecModel)
    → ById models ms
    → ById (add_model x models) (ms ++ x ∷ [])
unfolding ById add_model
ById-add_model x models ms h id =
    let e =
      lookup-insert eq_id eq_id_iff x.model_id id
        (or_empty (lookup eq_id x.model_id models) ++ x ∷ []) models in
    elim (Bool-cases (eq_id x.model_id id)) [
      | inl same ↦
          let at_id : x.model_id ≡ id = (eq_id_iff x.model_id id).0 same in
          rw (e, with_id-snoc id x ms, same, at_id, h id) refl
      | inr other ↦ rw (e, with_id-snoc id x ms, other) (h id)
    ]

-- The first model of the first identity that the list has.
pub first_with : List ℕ → List SunSpecModel → Option SunSpecModel
first_with [] ms = none
first_with (id ∷ ids) ms = head_or (with_id id ms) (first_with ids ms)

pub first-ById :
    (ids : List ℕ) (models : SunSpecModels) (ms : List SunSpecModel)
    → ById models ms
    → first ids models ≡ first_with ids ms
unfolding first first_with ById
first-ById [] models ms h = refl
first-ById (id ∷ ids) models ms h = rw (h id, first-ById ids models ms h) refl

-- Where all models are below an address, a model there is the only one, wherever it stands.
find_at-put :
    (a : ℕ) (x : SunSpecModel) (ys zs : List SunSpecModel)
    → AllBelow x.address (ys ++ zs)
    → find_at a (ys ++ x ∷ zs) ≡ (if x.address == a then some x else find_at a (ys ++ zs))
unfolding find_at
find_at-put a x [] zs h = refl
find_at-put a x (y ∷ ys) zs h = ground (arith, find_at-put a x ys zs h.1, h.0)

-- A lookup by address is a lookup in the list.
pub ByAddress : SunSpecModels → List SunSpecModel → Type 0
ByAddress models ms = (a : ℕ) → at a models ≡ find_at a ms

pub ByAddress-nil : ByAddress [] []
unfolding ByAddress at all_models
ByAddress-nil a = refl

pub ByAddress-add_model :
    (x : SunSpecModel) (models : SunSpecModels) (ms : List SunSpecModel)
    → chain models ≡ ms
    → AllBelow x.address (all_models models)
    → ByAddress models ms
    → ByAddress (add_model x models) (ms ++ x ∷ [])
unfolding ByAddress at chain Extends
ByAddress-add_model x models ms e below h a =
    let (ys, zs, old, new) = all_models-add_model x models in
    let ms_below : AllBelow x.address (ms ++ []) =
      rw (append-nil ms, ← e) (AllBelow-sort x.address (all_models models) below) in
    rw
      (
        new,
        find_at-put a x ys zs (rw (← old) below),
        find_at-put a x ms [] ms_below,
        append-nil ms,
        ← h a,
        old,
      )
      refl
