-- ===== src/Sunspec.antt =====
-- src/modbus_connection/model/sunspec/scan.py: the chain of SunSpec models in a device's registers.
pub mod Chain
pub mod Scanning
use modbus_connection.Prelude.{
  ℕ, zero, suc, ◌+◌, Bool, Option, none, some, List, [], ◌∷◌, ◌++◌, ◌==◌, ltb, if◌then◌else◌,
}
use modbus_connection.Dict.{Dict, lookup, insert}
use modbus_connection.Const.{big}
use modbus_connection.Errors.{Result, ok, err, guard, value_error, sunspec_error}
use modbus_connection.Codec.Widths.{decode_uint32}
use modbus_connection.Unit.{Action, ModbusUnit, ◌>>=◌, ◌>>◌, pure, lift, raise}

abbrev pub sunspec_marker : ℕ
sunspec_marker = 0x53756E53

abbrev pub end_model_id : ℕ
end_model_id = 0xFFFF

abbrev pub max_models : ℕ
max_models = 100

pub record SunSpecModel : Type 0 where
  pub model_id : ℕ
  pub address : ℕ
  pub length : ℕ

-- The two header words and the data.
unfoldable pub span : SunSpecModel → ℕ
span model = model.length + 2

abbrev pub SunSpecModels : Type 0
SunSpecModels = Dict ℕ (List SunSpecModel)

abbrev eq_id : ℕ → ℕ → Bool
eq_id a b = a == b

abbrev pub or_empty : Option (List SunSpecModel) → List SunSpecModel
or_empty none = []
or_empty (some found) = found

-- `models.setdefault(model_id, []).append(model)`
unfoldable pub add_model : SunSpecModel → SunSpecModels → SunSpecModels
unfolding lookup insert
add_model model models =
    insert eq_id model.model_id (or_empty (lookup eq_id model.model_id models) ++ model ∷ []) models

-- `(model for found in self.values() for model in found)`
unfoldable pub all_models : SunSpecModels → List SunSpecModel
all_models [] = []
all_models ((id, found) ∷ models) = found ++ all_models models

unfoldable pub insert_by_address : SunSpecModel → List SunSpecModel → List SunSpecModel
insert_by_address x [] = x ∷ []
insert_by_address x (y ∷ ys) =
    let rest = insert_by_address x ys in if ltb y.address x.address then y ∷ rest else x ∷ y ∷ ys

-- `sorted(..., key=lambda model: model.address)`, which is stable
unfoldable pub sort_by_address : List SunSpecModel → List SunSpecModel
unfolding insert_by_address
sort_by_address [] = []
sort_by_address (x ∷ xs) = insert_by_address x (sort_by_address xs)

unfoldable pub chain : SunSpecModels → List SunSpecModel
unfolding all_models sort_by_address
chain models = sort_by_address (all_models models)

unfoldable pub find_at : ℕ → List SunSpecModel → Option SunSpecModel
find_at address [] = none
find_at address (model ∷ found) =
    let rest = find_at address found in if model.address == address then some model else rest

-- `SunSpecModels.at`
unfoldable pub at : ℕ → SunSpecModels → Option SunSpecModel
unfolding all_models find_at
at address models = find_at address (all_models models)

abbrev pub head_or : List SunSpecModel → Option SunSpecModel → Option SunSpecModel
head_or [] other = other
head_or (model ∷ found) other = some model

-- `SunSpecModels.first`
unfoldable pub first : List ℕ → SunSpecModels → Option SunSpecModel
unfolding lookup
first [] models = none
first (id ∷ ids) models = head_or (or_empty (lookup eq_id id models)) (first ids models)

-- `model_id, length = words`
abbrev pub two_words : List ℕ → Result (ℕ × ℕ)
two_words (a ∷ b ∷ []) = ok (a, b)
two_words _ = err value_error

abbrev pub model_at : ℕ → ℕ × ℕ → SunSpecModel
model_at address header = record { model_id = header.0; address = address; length = header.1 }

module _ {S : Type 0} (unit : ModbusUnit S) where
  -- The `for` loop of `scan`.
  unfoldable pub walk : ℕ → ℕ → SunSpecModels → Action S SunSpecModels
  unfolding add_model span
  walk zero address models = raise sunspec_error
  walk (suc n) address models = do
    words ← unit.read_holding_registers address 2
    header ← lift (two_words words)
    if header.0 == end_model_id
        then pure models
        else walk n (address + span (model_at address header))
            (add_model (model_at address header) models)

  unfoldable pub scan : ℕ → Action S SunSpecModels
  unfolding decode_uint32 walk
  scan base_address = do
    marker ← unit.read_holding_registers base_address 2
    lift (guard (decode_uint32 marker big == sunspec_marker) sunspec_error)
    walk max_models (base_address + 2) []
