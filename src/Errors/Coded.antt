-- ===== src/Errors/Coded.antt =====
-- `ModbusExceptionError.from_code` of src/modbus_connection/exceptions.py: the class of each code.
use modbus_connection.Prelude.{ℕ, ◌≡◌, ◌↔◌, true, Option, none, some, arith}
use modbus_connection.Errors.{
  ExceptionCode, coded, ReadBlock, modbus, code_value, is_exception_response, from_code,
}

-- The exception keeps the code and the refused block, and is always an exception response.
pub from_code-keeps :
    (code : Option ℕ) (block : Option ReadBlock)
    → ((from_code code block).exception_code ≡ code)
      × ((from_code code block).block ≡ block)
      × (is_exception_response (modbus (from_code code block)) ≡ true)
unfolding from_code is_exception_response
from_code-keeps none block = ground arith
from_code-keeps (some code) block = ground arith

-- The class is the coded one of `c` exactly for the standard code of `c`.
pub from_code-class_iff :
    (code : ℕ) (block : Option ReadBlock) (c : ExceptionCode)
    → ((from_code (some code) block).class ≡ coded c) ↔ (code ≡ code_value c)
unfolding from_code
from_code-class_iff code block c = (λ h. ground arith, λ h. ground arith)
