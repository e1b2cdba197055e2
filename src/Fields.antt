-- ===== src/Fields.antt =====
-- src/modbus_connection/model/fields.py: what every register field has, and the scaling of a field.
-- Floating-point arithmetic is Python's: `Floats` is what the source uses of it. A field's unit of
-- measurement is a label and is left out.
pub mod Numbers
pub mod Kinds
pub mod Packed
use modbus_connection.Prelude.{
  ℕ, zero, suc, ◌+◌, ◌-◌, ◌≡◌, Bool, true, false, not, ◌&&◌, ◌||◌, Option, none, some, List, [],
  ◌∷◌, ◌==◌, leb, max, length, if◌then◌else◌, ℤ, pos, negsuc,
}
use modbus_connection.Errors.{Result, ok, err, value_error, index_error, ◌>>=◌, ◌>>◌, guard}
use modbus_connection.Writing.{Writable, may_write}

-- `RegisterField.__init__`
pub record Register (V : Type 0) : Type 0 where
  pub address : ℕ
  pub count : ℕ
  pub access : Writable V
  pub stride : ℕ
  pub scale_register : Option ℕ
  pub scale_register_stride : ℕ
  pub force_fc16 : Bool

unfoldable pub make_register : {V : Type 0} → Register V → Result (Register V)
make_register r = do guard (not (r.force_fc16 && not (may_write r.access))) value_error; ok r

-- Python's `float`. `over` and the conversions raise what Python raises; `power_of_ten` is `none` where
-- `10.0 ** e` raises `OverflowError`; `fixed x` is the text `f"{x:.10f}"`.
pub record Floats : Type 1 where
  pub Float : Type 0
  pub one : Float
  pub nought : Float
  pub same : Float → Float → Bool
  pub times : Float → Float → Float
  pub plus : Float → Float → Float
  pub minus : Float → Float → Float
  pub over : Float → Float → Result Float
  pub of_int : ℤ → Result Float
  pub to_int : Float → Result ℤ
  pub round_to : Float → ℕ → Float
  pub round_whole : Float → Result ℤ
  pub is_finite : Float → Bool
  pub is_nan : Float → Bool
  pub power_of_ten : ℤ → Option Float
  pub fixed : Float → List ℕ

-- `rstrip("0")`
abbrev kept_digit : ℕ → List ℕ → List ℕ
kept_digit c [] = if c == b'0' then [] else c ∷ []
kept_digit c (d ∷ ds) = c ∷ d ∷ ds

unfoldable pub strip_zeros : List ℕ → List ℕ
strip_zeros [] = []
strip_zeros (c ∷ cs) = kept_digit c (strip_zeros cs)

unfoldable pub before_dot : List ℕ → List ℕ
before_dot [] = []
before_dot (c ∷ cs) = let rest = before_dot cs in if c == b'.' then [] else c ∷ rest

-- `split(".")[1]`
unfoldable pub second_part : List ℕ → Result (List ℕ)
unfolding before_dot
second_part [] = err index_error
second_part (c ∷ cs) = let rest = second_part cs in if c == b'.' then ok (before_dot cs) else rest

-- `_exponent_in_range` compares signed integers.
abbrev pub leb_int : ℤ → ℤ → Bool
leb_int (pos a) (pos b) = leb a b
leb_int (pos a) (negsuc b) = false
leb_int (negsuc a) (pos b) = true
leb_int (negsuc a) (negsuc b) = leb b a

abbrev pub eq_int : ℤ → ℤ → Bool
eq_int (pos a) (pos b) = a == b
eq_int (negsuc a) (negsuc b) = a == b
eq_int _ _ = false

-- A decoded number: an `int` or a `float`.
pub data Scalar (F : Type 0) : Type 0 where
  whole : ℤ → Scalar F
  real : F → Scalar F

-- `_ScaledField`, without what every field has.
pub record Scaling (F : Type 0) : Type 0 where
  pub scale : F
  pub offset : F
  pub has_scale_register : Bool
  pub exponent_range : Option (ℤ × ℤ)
  pub decimals : ℕ

abbrev pub in_range : Option (ℤ × ℤ) → ℤ → Bool
in_range none e = true
in_range (some (low, high)) e = leb_int low e && leb_int e high

-- `except ValueError: return None`
abbrev pub unless_value_error {ℓ} :
    {A B : Type ℓ} → Result A → Result (Option B) → (A → Result (Option B)) → Result (Option B)
unless_value_error (ok a) other next = next a
unless_value_error (err value_error) other next = other
unless_value_error (err e) other next = err e

module _ (fl : Floats) where
  open fl use {Float}

  -- `_decimals`
  unfoldable pub decimals_of : Float → Result ℕ
  unfolding strip_zeros second_part
  decimals_of scale = do digits ← second_part (strip_zeros (fl.fixed scale)); ok (length digits)

  abbrev pub max_decimals : Float → Float → Result ℕ
  max_decimals a b = do m ← decimals_of a; n ← decimals_of b; ok (max m n)

  -- `_ScaledField.__init__`
  unfoldable pub make_scaling : Float → Float → Bool → Option (ℤ × ℤ) → Result (Scaling Float)
  unfolding decimals_of
  make_scaling scale offset has_scale_register exponent_range = do
    decimals ← max_decimals scale offset
    ok (record {
      scale = scale;
      offset = offset;
      has_scale_register = has_scale_register;
      exponent_range = exponent_range;
      decimals = decimals;
    })

  -- `10.0 ** e`, or 0.0 where it overflows; 0.0 is unusable.
  abbrev pub dynamic_factor : Option Float → Float → Result Float
  dynamic_factor none scale = err value_error
  dynamic_factor (some d) scale =
      if fl.same d fl.nought then err value_error else ok (fl.times scale d)

  -- `_factor`
  unfoldable pub factor : Scaling Float → Option ℤ → Result Float
  factor s none = if s.has_scale_register then err value_error else ok s.scale
  factor s (some e) = do
    guard (in_range s.exponent_range e) value_error
    dynamic_factor (fl.power_of_ten e) s.scale

  abbrev pub as_float : Scalar Float → Result Float
  as_float (whole n) = fl.of_int n
  as_float (real x) = ok x

  abbrev pub as_int : Scalar Float → Result ℤ
  as_int (whole n) = ok n
  as_int (real x) = fl.to_int x

  abbrev pub precision : Scaling Float → Option ℤ → Float → Result ℕ
  precision s none f = ok s.decimals
  precision s (some e) f = max_decimals f s.offset

  abbrev rounded : Float → ℕ → Result (Option (Scalar Float))
  rounded x zero = do n ← fl.to_int x; ok (some (whole n))
  rounded x (suc d) = ok (some (real (fl.round_to x (suc d))))

  -- Nothing is scaled: the factor is 1.0 and the offset 0.0.
  abbrev pub is_identity : Scaling Float → Float → Bool
  is_identity s f = fl.same f fl.one && fl.same s.offset fl.nought

  -- `_scale`
  unfoldable pub scale_value :
      Scaling Float → Scalar Float → Option ℤ → Result (Option (Scalar Float))
  unfolding factor decimals_of
  scale_value s value exponent = unless_value_error (factor s exponent) (ok none) λ f.
      if is_identity s f then ok (some value) else (do
        x ← as_float value
        let scaled = fl.plus (fl.times x f) s.offset
        if fl.is_finite scaled then (do d ← precision s exponent f; rounded scaled d) else ok none)

  -- The number that is encoded: what decoding would scale back.
  unfoldable pub unscale : Scaling Float → Scalar Float → Float → Result ℤ
  unfolding decimals_of
  unscale s value f = if is_identity s f then as_int value else (do
    d ← max_decimals f s.offset
    x ← as_float value
    q ← fl.over (fl.minus (fl.round_to x d) s.offset) f
    fl.round_whole q)
