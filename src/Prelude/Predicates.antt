-- ===== src/Prelude/Predicates.antt =====
-- Predicates on lists by recursion: they compute to products and sums, which the tactics read.
use mathlib.Core.Path.{◌≡◌, refl}
use mathlib.Core.Logic.{◌⊎◌, inl, inr}
use mathlib.Core.List.{List, [], ◌∷◌, ◌++◌}
use modbus_connection.Prelude.Lists.{flat_map}

-- Every entry of the list satisfies the predicate.
abbrev pub All {ℓ κ} : {A : Type ℓ} → (A → Type κ) → List A → Type κ
All P [] = Unit
All P (x ∷ xs) = P x × All P xs

-- Some entry of the list does, and it is known which.
abbrev pub Any {ℓ} : {A : Type ℓ} → (A → Type 0) → List A → Type 0
Any P [] = ⊥
Any P (x ∷ xs) = P x ⊎ Any P xs

abbrev pub In : {A : Type 0} → A → List A → Type 0
In a = Any (λ x. a ≡ x)

module _ {A : Type 0} (P : A → Type 0) where
  pub Any-append_left : (xs ys : List A) → Any P xs → Any P (xs ++ ys)
  Any-append_left [] ys h = elim h [ ]
  Any-append_left (x ∷ xs) ys (inl h) = inl h
  Any-append_left (x ∷ xs) ys (inr h) = inr (Any-append_left xs ys h)

  pub Any-append_right : (xs ys : List A) → Any P ys → Any P (xs ++ ys)
  Any-append_right [] ys h = h
  Any-append_right (x ∷ xs) ys h = inr (Any-append_right xs ys h)

  pub Any-append_cases : (xs ys : List A) → Any P (xs ++ ys) → Any P xs ⊎ Any P ys
  Any-append_cases [] ys h = inr h
  Any-append_cases (x ∷ xs) ys (inl h) = inl (inl h)
  Any-append_cases (x ∷ xs) ys (inr h) = elim (Any-append_cases xs ys h) [
    | inl a ↦ inl (inr a)
    | inr b ↦ inr b
  ]

  pub All-append : (xs ys : List A) → All P xs → All P ys → All P (xs ++ ys)
  All-append [] ys hx hy = hy
  All-append (x ∷ xs) ys hx hy = (hx.0, All-append xs ys hx.1 hy)

module _ {A : Type 0} (P Q : A → Type 0) where
  pub Any-mono : ((a : A) → P a → Q a) → (xs : List A) → Any P xs → Any Q xs
  Any-mono f [] h = elim h [ ]
  Any-mono f (x ∷ xs) (inl h) = inl (f x h)
  Any-mono f (x ∷ xs) (inr h) = inr (Any-mono f xs h)

  pub All-mono : ((a : A) → P a → Q a) → (xs : List A) → All P xs → All Q xs
  All-mono f [] h = tt
  All-mono f (x ∷ xs) h = (f x h.0, All-mono f xs h.1)

  -- An entry that satisfies `P` satisfies also what all entries do.
  pub Any-All : (xs : List A) → All Q xs → Any P xs → Any (λ a. P a × Q a) xs
  Any-All [] q h = elim h [ ]
  Any-All (x ∷ xs) q (inl h) = inl (h, q.0)
  Any-All (x ∷ xs) q (inr h) = inr (Any-All xs q.1 h)

module _ {A : Type 0} (P : A → Type 0) where
  pub All-In : (xs : List A) → ((a : A) → In a xs → P a) → All P xs
  All-In [] f = tt
  All-In (x ∷ xs) f = (f x (inl refl), All-In xs (λ a h. f a (inr h)))

module _ {A B : Type 0} (P : B → Type 0) (f : A → List B) where
  pub Any-flat_map : (xs : List A) → Any (λ x. Any P (f x)) xs → Any P (flat_map f xs)
  Any-flat_map [] h = h
  Any-flat_map (x ∷ xs) (inl h) = Any-append_left P (f x) (flat_map f xs) h
  Any-flat_map (x ∷ xs) (inr h) = Any-append_right P (f x) (flat_map f xs) (Any-flat_map xs h)

  pub flat_map-Any : (xs : List A) → Any P (flat_map f xs) → Any (λ x. Any P (f x)) xs
  flat_map-Any [] h = h
  flat_map-Any (x ∷ xs) h = elim (Any-append_cases P (f x) (flat_map f xs) h) [
    | inl a ↦ inl a
    | inr b ↦ inr (flat_map-Any xs b)
  ]

module _ {A : Type 0} (P : A → Type 0) where
  pub All-get : (a : A) (xs : List A) → All P xs → In a xs → P a
  All-get a [] h m = elim m [ ]
  All-get a (x ∷ xs) h (inl e) = rw e h.0
  All-get a (x ∷ xs) h (inr m) = All-get a xs h.1 m

  -- The entry that satisfies `P`, with the proof that it is in the list.
  pub Any-find : (xs : List A) → Any P xs → (a : A) × In a xs × P a
  Any-find [] h = elim h [ ]
  Any-find (x ∷ xs) (inl h) = (x, inl refl, h)
  Any-find (x ∷ xs) (inr h) = let (a, m, p) = Any-find xs h in (a, inr m, p)

  pub Any-intro : (a : A) (xs : List A) → In a xs → P a → Any P xs
  Any-intro a [] m h = elim m [ ]
  Any-intro a (x ∷ xs) (inl e) h = inl (rw (← e) h)
  Any-intro a (x ∷ xs) (inr m) h = inr (Any-intro a xs m h)

module _ {A B : Type 0} (P : B → Type 0) (f : A → List B) where
  pub All-flat_map : (xs : List A) → ((a : A) → In a xs → All P (f a)) → All P (flat_map f xs)
  All-flat_map [] h = tt
  All-flat_map (x ∷ xs) h =
      All-append P (f x) (flat_map f xs) (h x (inl refl)) (All-flat_map xs (λ a m. h a (inr m)))

module _ {A : Type 0} (P Q R : A → Type 0) where
  pub All-mono₂ : ((a : A) → P a → Q a → R a) → (xs : List A) → All P xs → All Q xs → All R xs
  All-mono₂ f [] p q = tt
  All-mono₂ f (x ∷ xs) p q = (f x p.0 q.0, All-mono₂ f xs p.1 q.1)
