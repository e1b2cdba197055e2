-- ===== src/Mock/Stores.antt =====
-- The stores of a mock unit (src/modbus_connection/mock.py): when a read sees what was written.
use modbus_connection.Prelude.{
  ℕ, ◌+◌, ◌<◌, ◌≡◌, ◌≢◌, refl, ap, inl, inr, Option, none, some, List, [], ◌∷◌, arith, All, ◌==◌,
  ==_iff, if◌then◌else◌, Bool-cases,
}
use modbus_connection.Dict
use modbus_connection.Dict.{Dict, lookup-insert}
use modbus_connection.Mock.{
  Spec, one, many, Store, materialize, put_spec, put_run, value_at, or_zero, put_values,
}

abbrev pub find : {V : Type 0} → ℕ → Dict ℕ V → Option V
find = Dict.lookup ◌==◌

abbrev or_else : Option ℕ → Option ℕ → Option ℕ
or_else (some v) other = some v
or_else none other = other

-- What a later entry says wins over what is already there.
put_run-find :
    (convert : ℕ → ℕ) (a base : ℕ) (vs : List ℕ) (out : Dict ℕ ℕ)
    → find a (put_run convert base vs out)
      ≡ or_else (find a (put_run convert base vs [])) (find a out)
unfolding put_run Dict.lookup
put_run-find convert a base [] out = refl
put_run-find convert a base (v ∷ vs) out = ground (
  arith,
  put_run-find convert a (base + 1) vs ((base, convert v) ∷ out),
  put_run-find convert a (base + 1) vs ((base, convert v) ∷ []),
)

put_spec-find :
    (convert : ℕ → ℕ) (a base : ℕ) (spec : Spec) (out : Dict ℕ ℕ)
    → find a (put_spec convert base spec out)
      ≡ or_else (find a (put_spec convert base spec [])) (find a out)
unfolding put_spec Dict.lookup
put_spec-find convert a base (one v) out = ground arith
put_spec-find convert a base (many vs) out = put_run-find convert a base vs out

materialize-find :
    (convert : ℕ → ℕ) (a : ℕ) (space : Store) (out : Dict ℕ ℕ)
    → find a (materialize convert space out)
      ≡ or_else (find a (materialize convert space [])) (find a out)
unfolding materialize Dict.lookup
materialize-find convert a [] out = refl
materialize-find convert a ((base, spec) ∷ space) out = ground (
  arith,
  materialize-find convert a space (put_spec convert base spec out),
  materialize-find convert a space (put_spec convert base spec []),
  put_spec-find convert a base spec out,
)

-- A store of single values, with each address set once: what writes alone produce.
abbrev pub IsFlat : Store → Type 0
IsFlat [] = Unit
IsFlat ((k, one v) ∷ d) = All (λ (e : ℕ × Spec). k ≢ e.0) d × IsFlat d
IsFlat ((k, many vs) ∷ d) = ⊥

abbrev pub converted : (ℕ → ℕ) → Option Spec → Option ℕ
converted convert none = none
converted convert (some (one v)) = some (convert v)
converted convert (some (many vs)) = none

absent : (a : ℕ) (d : Store) → All (λ (e : ℕ × Spec). a ≢ e.0) d → find a d ≡ none
unfolding Dict.lookup
absent a [] h = refl
absent a ((k, s) ∷ d) h = ground (arith, absent a d h.1, h.0)

flat-find :
    (convert : ℕ → ℕ) (a : ℕ) (d : Store)
    → IsFlat d
    → find a (materialize convert d []) ≡ converted convert (find a d)
unfolding materialize put_spec Dict.lookup
flat-find convert a [] f = refl
flat-find convert a ((k, one v) ∷ d) f = ground (
  arith,
  materialize-find convert a d ((k, convert v) ∷ []),
  flat-find convert a d f.1,
  λ (e : a ≡ k). absent a d (rw e f.0),
)
flat-find convert a ((k, many vs) ∷ d) f = elim f [ ]

pub value_at-flat :
    (convert : ℕ → ℕ) (a : ℕ) (d : Store)
    → IsFlat d
    → value_at convert d a ≡ or_zero (converted convert (find a d))
unfolding value_at
value_at-flat convert a d f = ap or_zero (flat-find convert a d f)

insert-absent :
    (j k v : ℕ) (d : Store)
    → j ≢ k
    → All (λ (e : ℕ × Spec). j ≢ e.0) d
    → All (λ (e : ℕ × Spec). j ≢ e.0) (Dict.insert ◌==◌ k (one v) d)
unfolding Dict.insert
insert-absent j k v [] n h = (n, tt)
insert-absent j k v ((i, s) ∷ d) n h = ground (arith, insert-absent j k v d n h.1, h.0)

insert-IsFlat : (k v : ℕ) (d : Store) → IsFlat d → IsFlat (Dict.insert ◌==◌ k (one v) d)
unfolding Dict.insert
insert-IsFlat k v [] f = (tt, tt)
insert-IsFlat k v ((i, one w) ∷ d) f = elim (Bool-cases (k == i)) [
  | inl e ↦ rw e f
  | inr e ↦
      rw e
        (insert-absent i k v d (λ (p : i ≡ k). ground (arith, p, e)) f.0, insert-IsFlat k v d f.1)
]
insert-IsFlat k v ((i, many ws) ∷ d) f = elim f [ ]

pub put_values-IsFlat : (a : ℕ) (vs : List ℕ) (d : Store) → IsFlat d → IsFlat (put_values a vs d)
unfolding put_values
put_values-IsFlat a [] d f = f
put_values-IsFlat a (v ∷ vs) d f =
    put_values-IsFlat (a + 1) vs (Dict.insert ◌==◌ a (one v) d) (insert-IsFlat a v d f)

-- The value of an address after `vs` are written from `a` on.
abbrev pub written : ℕ → List ℕ → ℕ → Option ℕ
written a [] x = none
written a (v ∷ vs) x = if a == x then some v else written (a + 1) vs x

pub written_before : (a : ℕ) (vs : List ℕ) (x : ℕ) → x < a → written a vs x ≡ none
written_before a [] x h = refl
written_before a (v ∷ vs) x h = ground (arith, written_before (a + 1) vs x (omega arith))

abbrev as_spec : Option ℕ → Option Spec → Option Spec
as_spec none old = old
as_spec (some v) old = some (one v)

find-put_values :
    (a : ℕ) (vs : List ℕ) (d : Store) (x : ℕ)
    → find x (put_values a vs d) ≡ as_spec (written a vs x) (find x d)
unfolding put_values
find-put_values a [] d x = refl
find-put_values a (v ∷ vs) d x = ground (
  arith,
  find-put_values (a + 1) vs (Dict.insert ◌==◌ a (one v) d) x,
  lookup-insert ◌==◌ ==_iff a x (one v) d,
  λ (e : a ≡ x). written_before (a + 1) vs x (omega (arith, e)),
)

abbrev pub read_back : (ℕ → ℕ) → Option ℕ → ℕ → ℕ
read_back convert none old = old
read_back convert (some v) old = convert v

-- After a write to a store of single values with each address set once, an address written reads as
-- the value written there, and any other address as before.
pub value_at-put_values :
    (convert : ℕ → ℕ) (a : ℕ) (vs : List ℕ) (d : Store) (x : ℕ)
    → IsFlat d
    → value_at convert (put_values a vs d) x
      ≡ read_back convert (written a vs x) (value_at convert d x)
value_at-put_values convert a vs d x f = ground (
  arith,
  value_at-flat convert x (put_values a vs d) (put_values-IsFlat a vs d f),
  value_at-flat convert x d f,
  find-put_values a vs d x,
)

-- Where entries that stand later in the store hold the address of its first entry too, such as a list
-- set at a lower base, a read after a write to that address still gives what the later entries hold.
pub shadowed_write :
    (convert : ℕ → ℕ) (a v w u : ℕ) (d : Store)
    → find a (materialize convert d []) ≡ some u
    → value_at convert (put_values a (w ∷ []) ((a, one v) ∷ d)) a ≡ u
unfolding value_at put_values materialize put_spec Dict.insert Dict.lookup
shadowed_write convert a v w u d later =
    ground (arith, materialize-find convert a d ((a, convert w) ∷ []), later)
