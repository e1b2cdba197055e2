-- ===== src/Client/Requirements.antt =====
-- What the units ask of a connection's timeout and connect delay (src/modbus_connection/_client.py).
use modbus_connection.Prelude.{
  ℕ, ◌≤◌, ◌<◌, ◌≡◌, ◌≢◌, refl, sym, ◌∙◌, ◌↔◌, ◌⊎◌, inl, inr, true, Option, none, some, List, [],
  ◌∷◌, ◌++◌, max, arith, All, In, Any-append_left, Any-append_right, ◌==◌, ==_iff, All-get, pos,
  if-elim,
}
use modbus_connection.Dict
use modbus_connection.Dict.{Dict}
use modbus_connection.Errors.{ok, some-injective}
use modbus_connection.Client.{
  Connection, Teardown, is_some, default_timeout, with_timeout, recycled, is_outdated,
  require_timeout, resolved, asked_values, max_or, max_from, with_base, record_requirement,
}

max_from-le : (m : ℕ) (xs : List ℕ) → (m ≤ max_from m xs) × All (λ x. x ≤ max_from m xs) xs
unfolding max_from
max_from-le m [] = (omega arith, tt)
max_from-le m (x ∷ xs) =
    let (above, rest) = max_from-le (max m x) xs in
    (omega (arith, above), (omega (arith, above), rest))

max_from-In : (m : ℕ) (xs : List ℕ) → In (max_from m xs) (m ∷ xs)
unfolding max_from
max_from-In m [] = inl refl
max_from-In m (x ∷ xs) = ground (arith, max_from-In (max m x) xs)

-- Where nothing was asked the default holds, and else the largest value that was asked, even if the
-- default is larger.
max_or_cases :
    (default : ℕ) (asked : List ℕ)
    → ((asked ≡ []) × (max_or default asked ≡ default))
      ⊎ (In (max_or default asked) asked × All (λ x. x ≤ max_or default asked) asked)
unfolding max_or
max_or_cases default [] = inl (refl, refl)
max_or_cases default (x ∷ xs) =
    let (above, rest) = max_from-le x xs in inr (max_from-In x xs, (above, rest))

-- A unit's requirement is among the values that are asked.
asked_values-lookup :
    (required : Dict ℕ ℕ) (unit_id seconds : ℕ)
    → Dict.lookup ◌==◌ unit_id required ≡ some seconds
    → In seconds (asked_values required)
unfolding asked_values Dict.lookup
asked_values-lookup [] unit_id seconds e = cc
asked_values-lookup ((u, x) ∷ required) unit_id seconds e =
    ground (arith, asked_values-lookup required unit_id seconds)

same_unit_iff : (a b : ℕ) → ((a == b) ≡ true) ↔ (a ≡ b)
same_unit_iff a b = ==_iff a b

-- What holds of a connection's requirements after a unit states its own.
pub record IsHonoured (s : Connection) (unit_id seconds : ℕ) : Type 0 where
  pub recorded : Dict.lookup ◌==◌ unit_id s.unit_timeouts ≡ some seconds
  pub units : (u x : ℕ) → Dict.lookup ◌==◌ u s.unit_timeouts ≡ some x → x ≤ s.timeout
  pub base : (x : ℕ) → s.base_timeout ≡ some x → x ≤ s.timeout

resolved-le :
    (base : Option ℕ) (required : Dict ℕ ℕ) (default x : ℕ)
    → In x (with_base base (asked_values required))
    → x ≤ resolved base required default
unfolding resolved
resolved-le base required default x m =
    elim (max_or_cases default (with_base base (asked_values required))) [
      | inl (none_asked, _) ↦ elim (rw none_asked at m) [ ]
      | inr (_, above) ↦ All-get (λ y. y ≤ _) x (with_base base (asked_values required)) above m
    ]

In-with_base : (base : Option ℕ) (asked : List ℕ) (x : ℕ) → In x asked → In x (with_base base asked)
In-with_base none asked x m = m
In-with_base (some b) asked x m = Any-append_left (λ y. x ≡ y) asked (b ∷ []) m

base-In : (base : Option ℕ) (asked : List ℕ) (x : ℕ) → base ≡ some x → In x (with_base base asked)
base-In none asked x e = cc
base-In (some b) asked x e =
    Any-append_right (λ y. x ≡ y) asked (b ∷ []) (inl (sym (some-injective e)))

with_timeout-IsHonoured :
    (unit_id seconds : ℕ) (s : Connection)
    → IsHonoured (with_timeout unit_id s (some seconds)) unit_id seconds
unfolding record_requirement
with_timeout-IsHonoured unit_id seconds s =
    let required = Dict.insert ◌==◌ unit_id seconds s.unit_timeouts in
    record {
      recorded =
          Dict.lookup-insert ◌==◌ same_unit_iff unit_id unit_id seconds s.unit_timeouts
          ∙ rw ((==_iff unit_id unit_id).1 refl) refl;
      units = λ u x e. resolved-le s.base_timeout required default_timeout x (
          In-with_base s.base_timeout (asked_values required) x
            (asked_values-lookup required u x e));
      base = λ x e.
          resolved-le s.base_timeout required default_timeout x
            (base-In s.base_timeout (asked_values required) x e);
    }

snoc-not_nil : (ts : List Teardown) (t : Teardown) → ts ++ t ∷ [] ≢ []
snoc-not_nil [] t e = cc
snoc-not_nil (u ∷ ts) t e = cc

-- A client that carries less than the timeout, published or still connecting, is on its way out.
pub Replaced : Connection → Type 0
Replaced s =
    s.client_timeout < s.timeout → ((s.client ≢ none) ⊎ (s.flight ≢ none)) → s.teardowns ≢ []

recycled-Replaced : (s : Connection) → Replaced (recycled s)
unfolding Replaced
recycled-Replaced s =
    if-elim Replaced (is_outdated s) (λ _ _ _. snoc-not_nil s.teardowns _)
      (λ e less published. absurd (elim published [
        | inl client ↦ ground (arith, e, less, there s.client client)
        | inr flight ↦ ground (arith, e, less, there s.flight flight)
      ]))
  where
    there : {A : Type 0} (o : Option A) → o ≢ none → is_some o ≡ true
    there none n = absurd (n refl)
    there (some c) n = refl

recycled-IsHonoured :
    (s : Connection) (unit_id seconds : ℕ)
    → IsHonoured s unit_id seconds
    → IsHonoured (recycled s) unit_id seconds
recycled-IsHonoured s unit_id seconds h =
    if-elim (λ t. IsHonoured t unit_id seconds) (is_outdated s)
      (λ _. record { recorded = h.recorded; units = h.units; base = h.base }) (λ _. h)

-- A unit that requires a timeout is recorded with it, and the timeout of the link is then no less than
-- it, nor than what any other unit or the connection's owner asked for. Where a
-- client is published or connecting and carries less, a teardown is under way.
pub require_timeout-IsHonoured :
    (unit_id seconds : ℕ) (s : Connection)
    → ((require_timeout unit_id (some (pos seconds)) s).0 ≡ ok tt)
      × IsHonoured (require_timeout unit_id (some (pos seconds)) s).1 unit_id seconds
      × Replaced (require_timeout unit_id (some (pos seconds)) s).1
unfolding require_timeout
require_timeout-IsHonoured unit_id seconds s =
    let t = with_timeout unit_id s (some seconds) in
    (
      refl,
      recycled-IsHonoured t unit_id seconds (with_timeout-IsHonoured unit_id seconds s),
      recycled-Replaced t,
    )
