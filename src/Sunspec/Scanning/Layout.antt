-- ===== src/Sunspec/Scanning/Layout.antt =====
-- A chain of models laid out in the registers that src/modbus_connection/model/sunspec/scan.py reads,
-- and the dictionary that holds it.
use modbus_connection.Prelude.{
  ℕ, ◌+◌, ◌<◌, ◌≡◌, ◌≢◌, refl, ◌∙◌, ◌⊎◌, inl, inr, List, [], ◌∷◌, ◌++◌, ◌==◌, arith, Bool-cases,
}
use modbus_connection.Const.{holding, big}
use modbus_connection.Codec.Widths.{decode_uint32}
use modbus_connection.Reading.Values.{Memory, slice}
use modbus_connection.Sunspec.{
  SunSpecModel, SunSpecModels, span, add_model, chain, sunspec_marker, end_model_id, all_models,
}
use modbus_connection.Sunspec.Chain.{
  AllBelow, ById, chain-add_model, AllBelow-add_model, ById-add_model, ByAddress,
  ByAddress-add_model,
}

-- From the address on, the holding registers are the blocks of these models, one behind the other, and
-- then the end marker.
unfoldable pub Laid : Memory → ℕ → List SunSpecModel → Type 0
Laid mem a [] = mem holding a ≡ end_model_id
Laid mem a (x ∷ xs) =
    (x.address ≡ a)
    × (x.model_id ≡ mem holding a)
    × (x.model_id ≢ end_model_id)
    × (x.length ≡ mem holding (a + 1))
    × Laid mem (a + span x) xs

-- The lookups by identity and by address find what the list has.
abbrev pub Finds : SunSpecModels → List SunSpecModel → Type 0
Finds models ms = ById models ms × ByAddress models ms

-- The dictionary holds these models, all below the address.
pub record Holds (models : SunSpecModels) (ms : List SunSpecModel) (a : ℕ) : Type 0 where
  pub in_order : chain models ≡ ms
  pub by_id : ById models ms
  pub by_address : ByAddress models ms
  pub below : AllBelow a (all_models models)

AllBelow-mono : (a b : ℕ) (xs : List SunSpecModel) → a < b → AllBelow a xs → AllBelow b xs
AllBelow-mono a b [] h hs = tt
AllBelow-mono a b (x ∷ xs) h hs = (omega (arith, h, hs.0), AllBelow-mono a b xs h hs.1)

pub Holds-add_model :
    (models : SunSpecModels) (ms : List SunSpecModel) (a : ℕ) (x : SunSpecModel)
    → x.address ≡ a
    → Holds models ms a
    → Holds (add_model x models) (ms ++ x ∷ []) (a + span x)
unfolding span
Holds-add_model models ms a x e h = record {
  in_order = chain-add_model x models (rw e h.below) ∙ rw (h.in_order) refl;
  by_id = ById-add_model x models ms h.by_id;
  by_address = ByAddress-add_model x models ms h.in_order (rw e h.below) h.by_address;
  below =
      AllBelow-add_model (a + span x) x models (omega (arith, e))
        (AllBelow-mono a (a + span x) (all_models models) (omega arith) h.below);
}

pub same_or_other : (k l : ℕ) → (k ≡ l) ⊎ (k ≢ l)
same_or_other k l = elim (Bool-cases (k == l)) [
  | inl e ↦ inl (ground (arith, e))
  | inr e ↦ inr (ground (arith, e))
]

abbrev pub Marked : Memory → ℕ → Type 0
Marked mem base = decode_uint32 (slice mem holding base 2) big ≡ sunspec_marker
