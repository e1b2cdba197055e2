-- ===== src/Reading/Values.antt =====
-- The values dictionary of `ReadPlan.execute` (src/modbus_connection/model/_planning.py), filled from
-- a device whose memory is `mem`.
use modbus_connection.Prelude.{
  ℕ, zero, suc, ◌+◌, ◌≤◌, ◌<◌, ◌≡◌, refl, sym, ap, inl, inr, true, false, ◌&&◌, List, [], ◌∷◌, map,
  arith, All, Any, ◌==◌, range_from, Bool-cases,
}
use modbus_connection.Const.{Space, space_eq, space_eq_iff}
use modbus_connection.Errors.{ok}
use modbus_connection.Reading.{Reading, Values, find_value, store_words, gather}

abbrev pub Memory : Type 0
Memory = Space → ℕ → ℕ

-- What the device answers for `count` addresses from `a` on.
abbrev pub slice : Memory → Space → ℕ → ℕ → List ℕ
slice mem s a count = map (mem s) (range_from a count)

-- There is an entry for the address.
abbrev pub Has : Space → ℕ → Values → Type 0
Has s a = Any (λ (v : Reading). (v.space ≡ s) × (v.address ≡ a))

module _ (mem : Memory) where
  -- Every entry is what the memory holds at its address.
  abbrev pub Faithful : Values → Type 0
  Faithful = All (λ (v : Reading). v.value ≡ mem v.space v.address)

  same_key :
      (s : Space) (a : ℕ) (v : Reading)
      → (space_eq s v.space && a == v.address) ≡ true
      → v.value ≡ mem v.space v.address
      → v.value ≡ mem s a
  same_key s a v h e =
      let space : s ≡ v.space = (space_eq_iff s v.space).0 (ground arith) in
      let address : a ≡ v.address = ground arith in rw (space, address) e

  pub find_value-Has :
      (s : Space) (a : ℕ) (vs : Values)
      → Faithful vs
      → Has s a vs
      → find_value s a vs ≡ ok (mem s a)
  unfolding find_value
  find_value-Has s a [] f h = elim h [ ]
  find_value-Has s a (v ∷ vs) f h = elim (Bool-cases (space_eq s v.space && a == v.address)) [
    | inl e ↦ rw e (ap ok (same_key s a v e f.0))
    | inr e ↦ rw e (find_value-Has s a vs f.1 (behind e h))
  ]
    where
      behind : (space_eq s v.space && a == v.address) ≡ false → Has s a (v ∷ vs) → Has s a vs
      behind e (inl k) = absurd (ground (arith, (space_eq_iff s v.space).1 (sym k.0), k.1, e))
      behind e (inr k) = k

  -- What is there after a step: still faithful, with nothing lost.
  pub record Grows (vs vs' : Values) : Type 0 where
    pub faithful : Faithful vs'
    pub keeps : (s : Space) (a : ℕ) → Has s a vs → Has s a vs'

  pub Grows-refl : (vs : Values) → Faithful vs → Grows vs vs
  Grows-refl vs f = record { faithful = f; keeps = λ s a h. h }

  pub Grows-trans : (a b c : Values) → Grows a b → Grows b c → Grows a c
  Grows-trans a b c g h = record {
    faithful = h.faithful;
    keeps = λ s x k. h.keeps s x (g.keeps s x k);
  }

  -- A block that the device answers is stored whole.
  pub store_words-Has :
      (s : Space) (start count : ℕ) (vs : Values)
      → Faithful vs
      → (vs' : Values) × (store_words s start count (slice mem s start count) vs ≡ ok vs')
        × Grows vs vs'
        × ((x : ℕ) → start ≤ x → x < start + count → Has s x vs')
  unfolding store_words
  store_words-Has s start zero vs f = (vs, refl, Grows-refl vs f, λ x h k. absurd (omega arith))
  store_words-Has s start (suc n) vs f =
      let first : Reading = record { space = s; address = start; value = mem s start } in
      let (vs', stored, grows, has) = store_words-Has s (start + 1) n (first ∷ vs) (refl, f) in
      (
        vs',
        stored,
        Grows-trans vs (first ∷ vs) vs' (record { faithful = (refl, f); keeps = λ t y h. inr h })
            grows,
        λ x h k. elim (Bool-cases (start == x)) [
          | inl e ↦ grows.keeps s x (inl (refl, ground arith))
          | inr e ↦ has x (ground arith) (ground arith)
        ],
      )

  pub gather-slice :
      (s : Space) (a count : ℕ) (vs : Values)
      → Faithful vs
      → ((x : ℕ) → a ≤ x → x < a + count → Has s x vs)
      → gather s a count vs ≡ ok (slice mem s a count)
  unfolding gather
  gather-slice s a zero vs f h = refl
  gather-slice s a (suc n) vs f h =
      rw
        (
          find_value-Has s a vs f (h a (omega arith) (omega arith)),
          gather-slice s (a + 1) n vs f (λ x l r. h x (omega arith) (omega arith)),
        )
        refl
