-- ===== src/Mock/Memory.antt =====
-- The memory that the stores of a mock unit stand for (src/modbus_connection/mock.py), described entry
-- by entry: of the entries that name an address, the last one of the store counts.
use modbus_connection.Prelude.{
  false, ℕ, zero, suc, ◌+◌, ◌-◌, ◌<◌, ◌≡◌, refl, ◌∙◌, Option, none, some, List, [], ◌∷◌, arith,
  ◌==◌, leb, if◌then◌else◌, inl, inr, Bool-cases,
}
use modbus_connection.Const.{holding, input, coil, discrete}
use modbus_connection.Dict
use modbus_connection.Dict.{Dict}
use modbus_connection.Reading.Values.{Memory}
use modbus_connection.Mock.{
  MockModbusUnit, Spec, one, many, Store, materialize, put_spec, put_run, value_at, or_zero, to_bit,
}

-- The i-th number of a list, from 0.
abbrev pub item : ℕ → List ℕ → Option ℕ
item i [] = none
item zero (v ∷ vs) = some v
item (suc i) (v ∷ vs) = item i vs

-- What one entry says of an address: a list runs on from its base.
abbrev pub entry_at : ℕ → Spec → ℕ → Option ℕ
entry_at base (one v) a = if a == base then some v else none
entry_at base (many vs) a = if leb base a then item (a - base) vs else none

abbrev pub latest : Store → ℕ → Option ℕ
latest [] a = none
latest ((base, spec) ∷ store) a = elim (latest store a) [
  | some v ↦ some v
  | none ↦ entry_at base spec a
]

-- A register that no entry names is 0, and a bit is 0 or 1.
abbrev pub as_word : Option ℕ → ℕ
as_word none = 0
as_word (some v) = v

abbrev pub as_bit : Option ℕ → ℕ
as_bit none = 0
as_bit (some zero) = 0
as_bit (some (suc v)) = 1

unfoldable pub memory_of : MockModbusUnit → Memory
memory_of m holding a = as_word (latest m.holding_store a)
memory_of m input a = as_word (latest m.input_store a)
memory_of m coil a = as_bit (latest m.coil_store a)
memory_of m discrete a = as_bit (latest m.discrete_store a)

abbrev find : ℕ → Dict ℕ ℕ → Option ℕ
find = Dict.lookup ◌==◌

-- The first, as converted, and otherwise the second.
abbrev over : (ℕ → ℕ) → Option ℕ → Option ℕ → Option ℕ
over convert (some v) other = some (convert v)
over convert none other = other

module _ (convert : ℕ → ℕ) where
  find-put_run_before :
      (a base : ℕ) (vs : List ℕ) (out : Dict ℕ ℕ)
      → a < base
      → find a (put_run convert base vs out) ≡ find a out
  unfolding put_run Dict.lookup
  find-put_run_before a base [] out h = refl
  find-put_run_before a base (v ∷ vs) out h =
      ground
        (arith, find-put_run_before a (base + 1) vs ((base, convert v) ∷ out) (omega (arith, h)))

  find-put_run :
      (i base : ℕ) (vs : List ℕ) (out : Dict ℕ ℕ)
      → find (base + i) (put_run convert base vs out)
        ≡ over convert (item i vs) (find (base + i) out)
  unfolding put_run Dict.lookup
  find-put_run i base [] out = refl
  find-put_run zero base (v ∷ vs) out =
      ground (
        arith,
        find-put_run_before (base + 0) (base + 1) vs ((base, convert v) ∷ out) (omega arith),
      )
  find-put_run (suc i) base (v ∷ vs) out =
      let moved : base + suc i ≡ base + 1 + i = omega arith in
      let apart : (base + 1 + i == base) ≡ false = ground arith in
      rw moved (find-put_run i (base + 1) vs ((base, convert v) ∷ out) ∙ rw apart refl)

  find-put_spec :
      (a base : ℕ) (spec : Spec) (out : Dict ℕ ℕ)
      → find a (put_spec convert base spec out) ≡ over convert (entry_at base spec a) (find a out)
  unfolding put_spec Dict.lookup
  find-put_spec a base (one v) out = ground arith
  find-put_spec a base (many vs) out = elim (Bool-cases (leb base a)) [
    | inl e ↦
        let same : base + (a - base) ≡ a = ground (arith, e) in
        rw (e) (rw same at (find-put_run (a - base) base vs out))
    | inr e ↦ rw e (find-put_run_before a base vs out (ground (arith, e)))
  ]

  find-materialize :
      (a : ℕ) (store : Store) (out : Dict ℕ ℕ)
      → find a (materialize convert store out) ≡ over convert (latest store a) (find a out)
  unfolding materialize
  find-materialize a [] out = refl
  find-materialize a ((base, spec) ∷ store) out =
      find-materialize a store (put_spec convert base spec out)
      ∙ rw (find-put_spec a base spec out) (later (latest store a))
    where
      later :
          (o : Option ℕ)
          → over convert o (over convert (entry_at base spec a) (find a out))
            ≡ over convert (elim o [ some v ↦ some v | none ↦ entry_at base spec a ]) (find a out)
      later none = refl
      later (some v) = refl

-- What a read of one register, and of one bit, looks up.
pub value_at-as_word :
    (store : Store) (a : ℕ) → value_at (λ v. v) store a ≡ as_word (latest store a)
unfolding value_at Dict.lookup
value_at-as_word store a = rw (find-materialize (λ v. v) a store []) (shown (latest store a))
  where
    shown : (o : Option ℕ) → or_zero (over (λ v. v) o none) ≡ as_word o
    shown none = refl
    shown (some v) = refl

pub value_at-as_bit : (store : Store) (a : ℕ) → value_at to_bit store a ≡ as_bit (latest store a)
unfolding value_at Dict.lookup
value_at-as_bit store a = rw (find-materialize to_bit a store []) (shown (latest store a))
  where
    shown : (o : Option ℕ) → or_zero (over to_bit o none) ≡ as_bit o
    shown none = refl
    shown (some zero) = refl
    shown (some (suc v)) = refl
