-- ===== src/Prelude/Sorting.antt =====
-- Python's `sorted` and `sorted(set(...))` on pairs of numbers, which it compares lexicographically.
use Prim.Native.Nat.{ℕ, ◌≤◌}
use mathlib.Core.Path.{◌≡◌, refl}
use mathlib.Core.Logic.{◌⊎◌, inl, inr}
use mathlib.Core.Bool.{Bool, true, false, ◌&&◌, ◌||◌}
use mathlib.Core.List.{List, [], ◌∷◌}
use native.Mathlib.Omega.{arith}
use modbus_connection.Prelude.Tests.{ltb, ◌==◌, if◌then◌else◌, Bool-cases}
use modbus_connection.Prelude.Predicates.{All, Any, All-mono}

abbrev Pair : Type 0
Pair = ℕ × ℕ

abbrev pub lt_pair : Pair → Pair → Bool
lt_pair (a, b) (c, d) = ltb a c || (a == c && ltb b d)

abbrev pub eq_pair : Pair → Pair → Bool
eq_pair (a, b) (c, d) = a == c && b == d

insert : Pair → List Pair → List Pair
insert x [] = x ∷ []
insert x (y ∷ ys) = if lt_pair y x then y ∷ insert x ys else x ∷ y ∷ ys

-- `sorted(xs)`
unfoldable pub sort : List Pair → List Pair
unfolding insert
sort [] = []
sort (x ∷ xs) = insert x (sort xs)

insert_new : Pair → List Pair → List Pair
insert_new x [] = x ∷ []
insert_new x (y ∷ ys) =
    if eq_pair x y then y ∷ ys else if lt_pair y x then y ∷ insert_new x ys else x ∷ y ∷ ys

-- `sorted(set(xs))`
unfoldable pub sort_set : List Pair → List Pair
unfolding insert_new
sort_set [] = []
sort_set (x ∷ xs) = insert_new x (sort_set xs)

-- Ordered by the first component, with no claim about pairs that agree in it.
abbrev pub IsAscending : List Pair → Type 0
IsAscending [] = Unit
IsAscending (x ∷ xs) = All (λ y. x.0 ≤ y.0) xs × IsAscending xs

eq_pair→eq : (x y : Pair) → eq_pair x y ≡ true → x ≡ y
eq_pair→eq x y h = ground arith

module _ (P : Pair → Type 0) where
  All-insert : (x : Pair) (ys : List Pair) → P x → All P ys → All P (insert x ys)
  unfolding insert
  All-insert x [] p h = (p, tt)
  All-insert x (y ∷ ys) p h =
      elim (lt_pair y x) as (λ b. All P (if b then y ∷ insert x ys else x ∷ y ∷ ys)) [
        | true ↦ (h.0, All-insert x ys p h.1)
        | false ↦ (p, h)
      ]

  All-insert_new : (x : Pair) (ys : List Pair) → P x → All P ys → All P (insert_new x ys)
  unfolding insert_new
  All-insert_new x [] p h = (p, tt)
  All-insert_new x (y ∷ ys) p h = ground (arith, All-insert_new x ys p h.1)

  pub All-sort : (xs : List Pair) → All P xs → All P (sort xs)
  unfolding sort
  All-sort [] h = tt
  All-sort (x ∷ xs) h = All-insert x (sort xs) h.0 (All-sort xs h.1)

  pub All-sort_set : (xs : List Pair) → All P xs → All P (sort_set xs)
  unfolding sort_set
  All-sort_set [] h = tt
  All-sort_set (x ∷ xs) h = All-insert_new x (sort_set xs) h.0 (All-sort_set xs h.1)

  -- Sorting neither loses nor adds an entry, whatever is asked of the entries.
  Any-insert : (x : Pair) (ys : List Pair) → (P x ⊎ Any P ys) → Any P (insert x ys)
  unfolding insert
  Any-insert x [] h = h
  Any-insert x (y ∷ ys) h =
      elim (lt_pair y x) as (λ b. Any P (if b then y ∷ insert x ys else x ∷ y ∷ ys)) [
        | true ↦ ground (arith, Any-insert x ys)
        | false ↦ h
      ]

  insert-Any : (x : Pair) (ys : List Pair) → Any P (insert x ys) → P x ⊎ Any P ys
  unfolding insert
  insert-Any x [] h = h
  insert-Any x (y ∷ ys) h = ground (arith, insert-Any x ys)

  Any-insert_new : (x : Pair) (ys : List Pair) → (P x ⊎ Any P ys) → Any P (insert_new x ys)
  unfolding insert_new
  Any-insert_new x [] h = h
  Any-insert_new x (y ∷ ys) h = ground (arith, Any-insert_new x ys, eq_pair→eq x y)

  insert_new-Any : (x : Pair) (ys : List Pair) → Any P (insert_new x ys) → P x ⊎ Any P ys
  unfolding insert_new
  insert_new-Any x [] h = h
  insert_new-Any x (y ∷ ys) h = ground (arith, insert_new-Any x ys)

  pub Any-sort : (xs : List Pair) → Any P xs → Any P (sort xs)
  unfolding sort
  Any-sort [] h = h
  Any-sort (x ∷ xs) (inl h) = Any-insert x (sort xs) (inl h)
  Any-sort (x ∷ xs) (inr h) = Any-insert x (sort xs) (inr (Any-sort xs h))

  pub sort-Any : (xs : List Pair) → Any P (sort xs) → Any P xs
  unfolding sort
  sort-Any [] h = h
  sort-Any (x ∷ xs) h = elim (insert-Any x (sort xs) h) [
    | inl p ↦ inl p
    | inr q ↦ inr (sort-Any xs q)
  ]

  pub Any-sort_set : (xs : List Pair) → Any P xs → Any P (sort_set xs)
  unfolding sort_set
  Any-sort_set [] h = h
  Any-sort_set (x ∷ xs) (inl h) = Any-insert_new x (sort_set xs) (inl h)
  Any-sort_set (x ∷ xs) (inr h) = Any-insert_new x (sort_set xs) (inr (Any-sort_set xs h))

  pub sort_set-Any : (xs : List Pair) → Any P (sort_set xs) → Any P xs
  unfolding sort_set
  sort_set-Any [] h = h
  sort_set-Any (x ∷ xs) h = elim (insert_new-Any x (sort_set xs) h) [
    | inl p ↦ inl p
    | inr q ↦ inr (sort_set-Any xs q)
  ]

above :
    (x y : Pair) (zs : List Pair) → x.0 ≤ y.0 → All (λ z. y.0 ≤ z.0) zs → All (λ z. x.0 ≤ z.0) zs
above x y zs h = All-mono (λ z. y.0 ≤ z.0) (λ z. x.0 ≤ z.0) (λ z k. omega arith) zs

insert-IsAscending : (x : Pair) (ys : List Pair) → IsAscending ys → IsAscending (insert x ys)
unfolding insert
insert-IsAscending x [] h = (tt, tt)
insert-IsAscending x (y ∷ ys) h = elim (Bool-cases (lt_pair y x)) [
  | inl e ↦ rw e (All-insert (λ z. y.0 ≤ z.0) x ys (ground arith) h.0, insert-IsAscending x ys h.1)
  | inr e ↦ let le : x.0 ≤ y.0 = ground arith in rw e ((le, above x y ys le h.0), h)
]

insert_new-IsAscending :
    (x : Pair) (ys : List Pair) → IsAscending ys → IsAscending (insert_new x ys)
unfolding insert_new
insert_new-IsAscending x [] h = (tt, tt)
insert_new-IsAscending x (y ∷ ys) h = elim (Bool-cases (eq_pair x y)) [
  | inl e ↦ rw e h
  | inr n ↦ elim (Bool-cases (lt_pair y x)) [
    | inl e ↦
        rw (n, e)
          (All-insert_new (λ z. y.0 ≤ z.0) x ys (ground arith) h.0, insert_new-IsAscending x ys h.1)
    | inr e ↦ let le : x.0 ≤ y.0 = ground arith in rw (n, e) ((le, above x y ys le h.0), h)
  ]
]

pub sort-IsAscending : (xs : List Pair) → IsAscending (sort xs)
unfolding sort
sort-IsAscending [] = tt
sort-IsAscending (x ∷ xs) = insert-IsAscending x (sort xs) (sort-IsAscending xs)

pub sort_set-IsAscending : (xs : List Pair) → IsAscending (sort_set xs)
unfolding sort_set
sort_set-IsAscending [] = tt
sort_set-IsAscending (x ∷ xs) = insert_new-IsAscending x (sort_set xs) (sort_set-IsAscending xs)

-- Strictly ascending in the lexicographic order.
abbrev pub IsStrict : List Pair → Type 0
IsStrict [] = Unit
IsStrict (x ∷ xs) = All (λ y. lt_pair x y ≡ true) xs × IsStrict xs

lt_pair_trans : (x y z : Pair) → lt_pair x y ≡ true → lt_pair y z ≡ true → lt_pair x z ≡ true
lt_pair_trans x y z h k = ground arith

lt_pair_total : (x y : Pair) → eq_pair x y ≡ false → lt_pair y x ≡ false → lt_pair x y ≡ true
lt_pair_total x y h k = ground arith

insert_new-IsStrict : (x : Pair) (ys : List Pair) → IsStrict ys → IsStrict (insert_new x ys)
unfolding insert_new
insert_new-IsStrict x [] h = (tt, tt)
insert_new-IsStrict x (y ∷ ys) h = elim (Bool-cases (eq_pair x y)) [
  | inl e ↦ rw e h
  | inr n ↦ elim (Bool-cases (lt_pair y x)) [
    | inl e ↦
        rw (n, e)
          (All-insert_new (λ z. lt_pair y z ≡ true) x ys e h.0, insert_new-IsStrict x ys h.1)
    | inr e ↦
        let lt : lt_pair x y ≡ true = lt_pair_total x y n e in
        rw (n, e)
          (
            (
              lt,
              All-mono (λ z. lt_pair y z ≡ true) (λ z. lt_pair x z ≡ true)
                  (λ z k. lt_pair_trans x y z lt k) ys h.0,
            ),
            h,
          )
  ]
]

pub sort_set-IsStrict : (xs : List Pair) → IsStrict (sort_set xs)
unfolding sort_set
sort_set-IsStrict [] = tt
sort_set-IsStrict (x ∷ xs) = insert_new-IsStrict x (sort_set xs) (sort_set-IsStrict xs)

-- `sorted` leaves a sorted list as it is.
pub sort-id : (xs : List Pair) → IsStrict xs → sort xs ≡ xs
unfolding sort insert
sort-id [] h = refl
sort-id (x ∷ xs) h = rw (sort-id xs h.1) (insert_first x xs h.0)
  where
    insert_first :
        (x : Pair) (ys : List Pair) → All (λ y. lt_pair x y ≡ true) ys → insert x ys ≡ x ∷ ys
    insert_first x [] k = refl
    insert_first x (y ∷ ys) k = ground arith
