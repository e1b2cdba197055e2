-- ===== src/Prelude/Numbers.antt =====
-- Python's `sorted(set(...))` on numbers, and membership in a list of numbers.
use Prim.Native.Nat.{ℕ, ◌<◌}
use mathlib.Core.Path.{◌≡◌}
use mathlib.Core.Logic.{◌⊎◌, inl, inr}
use mathlib.Core.Bool.{Bool, true, false, ◌||◌}
use mathlib.Core.List.{List, [], ◌∷◌}
use native.Mathlib.Omega.{arith}
use modbus_connection.Prelude.Tests.{ltb, ◌==◌, if◌then◌else◌, Bool-cases}
use modbus_connection.Prelude.Predicates.{All, In, All-mono}

-- `x in xs`
unfoldable pub contains : ℕ → List ℕ → Bool
contains x [] = false
contains x (y ∷ ys) = x == y || contains x ys

pub contains-In : (x : ℕ) (ys : List ℕ) → contains x ys ≡ true → In x ys
unfolding contains
contains-In x [] h = cc
contains-In x (y ∷ ys) h = ground (arith, contains-In x ys)

pub In-contains : (x : ℕ) (ys : List ℕ) → In x ys → contains x ys ≡ true
unfolding contains
In-contains x [] h = elim h [ ]
In-contains x (y ∷ ys) h = ground (arith, In-contains x ys)

insert_number : ℕ → List ℕ → List ℕ
insert_number x [] = x ∷ []
insert_number x (y ∷ ys) =
    if x == y then y ∷ ys else if ltb y x then y ∷ insert_number x ys else x ∷ y ∷ ys

-- `sorted(set(xs))`
unfoldable pub sort_numbers : List ℕ → List ℕ
unfolding insert_number
sort_numbers [] = []
sort_numbers (x ∷ xs) = insert_number x (sort_numbers xs)

abbrev pub IsIncreasing : List ℕ → Type 0
IsIncreasing [] = Unit
IsIncreasing (x ∷ xs) = All (λ y. x < y) xs × IsIncreasing xs

module _ (P : ℕ → Type 0) where
  All-insert_number : (x : ℕ) (ys : List ℕ) → P x → All P ys → All P (insert_number x ys)
  unfolding insert_number
  All-insert_number x [] p h = (p, tt)
  All-insert_number x (y ∷ ys) p h = ground (arith, All-insert_number x ys p h.1)

  pub All-sort_numbers : (xs : List ℕ) → All P xs → All P (sort_numbers xs)
  unfolding sort_numbers
  All-sort_numbers [] h = tt
  All-sort_numbers (x ∷ xs) h = All-insert_number x (sort_numbers xs) h.0 (All-sort_numbers xs h.1)

insert_number-In : (a x : ℕ) (ys : List ℕ) → In a (insert_number x ys) → (a ≡ x) ⊎ In a ys
unfolding insert_number
insert_number-In a x [] h = h
insert_number-In a x (y ∷ ys) h = ground (arith, insert_number-In a x ys)

In-insert_number : (a x : ℕ) (ys : List ℕ) → (a ≡ x) ⊎ In a ys → In a (insert_number x ys)
unfolding insert_number
In-insert_number a x [] h = h
In-insert_number a x (y ∷ ys) h = ground (arith, In-insert_number a x ys)

pub sort_numbers-In : (a : ℕ) (xs : List ℕ) → In a (sort_numbers xs) → In a xs
unfolding sort_numbers
sort_numbers-In a [] h = h
sort_numbers-In a (x ∷ xs) h = elim (insert_number-In a x (sort_numbers xs) h) [
  | inl p ↦ inl p
  | inr q ↦ inr (sort_numbers-In a xs q)
]

pub In-sort_numbers : (a : ℕ) (xs : List ℕ) → In a xs → In a (sort_numbers xs)
unfolding sort_numbers
In-sort_numbers a [] h = h
In-sort_numbers a (x ∷ xs) (inl h) = In-insert_number a x (sort_numbers xs) (inl h)
In-sort_numbers a (x ∷ xs) (inr h) =
    In-insert_number a x (sort_numbers xs) (inr (In-sort_numbers a xs h))

above : (x y : ℕ) (zs : List ℕ) → x < y → All (λ z. y < z) zs → All (λ z. x < z) zs
above x y zs h = All-mono (λ z. y < z) (λ z. x < z) (λ z k. omega arith) zs

insert_number-IsIncreasing :
    (x : ℕ) (ys : List ℕ) → IsIncreasing ys → IsIncreasing (insert_number x ys)
unfolding insert_number
insert_number-IsIncreasing x [] h = (tt, tt)
insert_number-IsIncreasing x (y ∷ ys) h = elim (Bool-cases (x == y)) [
  | inl e ↦ rw e h
  | inr n ↦ elim (Bool-cases (ltb y x)) [
    | inl e ↦
        rw (n, e)
          (
            All-insert_number (λ z. y < z) x ys (ground arith) h.0,
            insert_number-IsIncreasing x ys h.1,
          )
    | inr e ↦ let lt : x < y = ground arith in rw (n, e) ((lt, above x y ys lt h.0), h)
  ]
]

pub sort_numbers-IsIncreasing : (xs : List ℕ) → IsIncreasing (sort_numbers xs)
unfolding sort_numbers
sort_numbers-IsIncreasing [] = tt
sort_numbers-IsIncreasing (x ∷ xs) =
    insert_number-IsIncreasing x (sort_numbers xs) (sort_numbers-IsIncreasing xs)
