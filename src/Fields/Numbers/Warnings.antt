-- ===== src/Fields/Numbers/Warnings.antt =====
-- What a mapped number field of src/modbus_connection/model/fields.py warns about.
use modbus_connection.Prelude.{
  ℕ, ◌*◌, ◌≡◌, ◌≢◌, ◌↔◌, ◌⊎◌, true, Option, none, some, List, [], ◌∷◌, arith, All, In, length, ℤ,
  pos, negsuc,
}
use modbus_connection.Errors.{ok}
use modbus_connection.Codec.{combine_words}
use modbus_connection.Fields.{eq_int}
use modbus_connection.Fields.Numbers.{NumberField, Converter, apply_converter, folded}

pub eq_int_iff : (a b : ℤ) → (eq_int a b ≡ true) ↔ (a ≡ b)
eq_int_iff (pos a) (pos b) = ground arith
eq_int_iff (pos a) (negsuc b) = ground arith
eq_int_iff (negsuc a) (pos b) = ground arith
eq_int_iff (negsuc a) (negsuc b) = ground arith

-- Each value once.
abbrev pub IsDistinct : List ℤ → Type 0
IsDistinct [] = Unit
IsDistinct (v ∷ vs) = All (λ w. v ≢ w) vs × IsDistinct vs

-- The words are one of the values that mean that there is none.
abbrev pub IsAbsent : {F C V : Type 0} → NumberField F C V → List ℕ → Type 0
IsAbsent field words =
    (vs : List ℤ) × (field.nan ≡ some vs) × In (pos (combine_words words field.word_order)) vs

-- The value is among the warnings, each of which stands there once, and no other warning is new.
abbrev pub Warned : ℤ → List ℤ → List ℤ → Type 0
Warned v before now = In v now × IsDistinct now × ((now ≡ before) ⊎ (now ≡ v ∷ before))

-- The reading has a value that the converter of the field does not know.
abbrev pub Unmapped : {F C V : Type 0} → NumberField F C V → List ℕ → ℤ → Type 0
Unmapped {C} field words v =
    (folded field.is_signed (combine_words words field.word_order) (16 * length words) ≡ ok v)
    × ((c : Converter C) × (field.convert ≡ some c) × (apply_converter c v ≡ ok none))

-- What the converter of a field, if there is one, does not know.
abbrev Unknown : {C : Type 0} → Option (Converter C) → ℤ → Type 0
Unknown {C} convert v = (c : Converter C) × (convert ≡ some c) × (apply_converter c v ≡ ok none)
