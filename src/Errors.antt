-- ===== src/Errors.antt =====
-- src/modbus_connection/exceptions.py: the exception hierarchy and the exception of a code.
-- Messages are left out. `Result` is what a Python function returns or raises.
pub mod Coded
use modbus_connection.Prelude.{
  ℕ, ◌≡◌, refl, ◌⊎◌, inl, inr, Bool, true, false, Option, none, some, List, [], ◌∷◌, ◌==◌,
  if◌then◌else◌, ◌||◌,
}
use modbus_connection.Const.{Space}

-- The values of `ExceptionCode`, in the order of the source.
pub data ExceptionCode : Type 0 where
  illegal_function illegal_data_address illegal_data_value : ExceptionCode
  server_device_failure acknowledge server_device_busy : ExceptionCode
  memory_parity_error gateway_path_unavailable : ExceptionCode
  gateway_target_device_failed_to_respond : ExceptionCode

unfoldable pub code_value : ExceptionCode → ℕ
code_value illegal_function = 0x01
code_value illegal_data_address = 0x02
code_value illegal_data_value = 0x03
code_value server_device_failure = 0x04
code_value acknowledge = 0x05
code_value server_device_busy = 0x06
code_value memory_parity_error = 0x08
code_value gateway_path_unavailable = 0x0A
code_value gateway_target_device_failed_to_respond = 0x0B

pub record ReadBlock : Type 0 where
  pub space : Space
  pub address : ℕ
  pub count : ℕ

-- The classes below `ModbusError`. `coded c` is the subclass of `_CodedError` whose `code` is `c`.
pub data ErrorClass : Type 0 where
  modbus_error connection_error client_closed_error timeout_error : ErrorClass
  protocol_error desync_error exception_error : ErrorClass
  coded : ExceptionCode → ErrorClass

-- An instance: `exception_code` and `block` are set on exception responses only.
pub record ModbusError : Type 0 where
  pub class : ErrorClass
  pub exception_code : Option ℕ
  pub block : Option ReadBlock

pub data Error : Type 0 where
  value_error overflow_error attribute_error key_error index_error : Error
  not_implemented_error cancelled_error sunspec_error : Error
  modbus : ModbusError → Error

pub data Result {ℓ} (A : Type ℓ) : Type ℓ where
  ok : A → Result A
  err : Error → Result A

-- `if not test: raise error`
abbrev pub guard : Bool → Error → Result (Unit {0})
guard false error = err error
guard true error = ok tt

pub Result-cases {ℓ} :
    {A : Type ℓ} (r : Result A) → ((a : A) × (r ≡ ok a)) ⊎ ((e : Error) × (r ≡ err e))
Result-cases (ok a) = inl (a, refl)
Result-cases (err e) = inr (e, refl)

pub ok-injective : {A : Type 0} {x y : A} → ok x ≡ ok y → x ≡ y
ok-injective e = cc

pub some-injective : {A : Type 0} {x y : A} → some x ≡ some y → x ≡ y
some-injective e = cc

pub err-ok : {A : Type 0} {a : A} {error : Error} → err error ≡ ok a → ⊥
err-ok e = cc

-- What comes after a step that may raise.
infixl 5 ◌>>=◌ ◌>>◌
abbrev pub ◌>>=◌ {ℓ κ} : {A : Type ℓ} {B : Type κ} → Result A → (A → Result B) → Result B
ok value >>= next = next value
err error >>= next = err error

abbrev pub ◌>>◌ {κ} : {B : Type κ} → Result (Unit {0}) → Result B → Result B
first >> second = first >>= λ _. second

-- A chain that returned: both of its steps did.
pub >>=-eq-ok {ℓ κ} :
    {A : Type ℓ} {B : Type κ} {b : B} (step : Result A) (next : A → Result B)
    → (step >>= next) ≡ ok b
    → (a : A) × (step ≡ ok a) × (next a ≡ ok b)
>>=-eq-ok (ok value) next returned = (value, refl, returned)
>>=-eq-ok (err error) next returned = cc

-- The parent of a class in the hierarchy; `ModbusError` has none below `Exception`.
abbrev is_exception_error : ErrorClass → Bool
is_exception_error exception_error = true
is_exception_error (coded c) = true
is_exception_error _ = false

-- `isinstance(error, ModbusExceptionError)`
unfoldable pub is_exception_response : Error → Bool
is_exception_response (modbus e) = is_exception_error e.class
is_exception_response _ = false

-- `_CodedError.__subclasses__()`, in the order of their definition.
abbrev pub coded_classes : List ExceptionCode
coded_classes =
    illegal_function ∷ illegal_data_address ∷ illegal_data_value ∷ server_device_failure
    ∷ acknowledge ∷ server_device_busy ∷ memory_parity_error ∷ gateway_path_unavailable
    ∷ gateway_target_device_failed_to_respond ∷ []

-- `_CODED_ERRORS.get(code)`
find_coded : ℕ → List ExceptionCode → Option ExceptionCode
unfolding code_value
find_coded code [] = none
find_coded code (c ∷ cs) = if code_value c == code then some c else find_coded code cs

coded_class : Option ExceptionCode → ErrorClass
coded_class none = exception_error
coded_class (some c) = coded c

-- The constructors: a coded class fills in its own code where none is given.
construct : ErrorClass → Option ℕ → Option ReadBlock → ModbusError
unfolding code_value
construct (coded c) none block = record {
  class = coded c;
  exception_code = some (code_value c);
  block = block;
}
construct class code block = record { class = class; exception_code = code; block = block }

-- `ModbusExceptionError.from_code`
unfoldable pub from_code : Option ℕ → Option ReadBlock → ModbusError
unfolding find_coded coded_class construct
from_code none block = construct exception_error none block
from_code (some code) block =
    construct (coded_class (find_coded code coded_classes)) (some code) block
