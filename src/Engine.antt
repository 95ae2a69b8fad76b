-- ===== src/Engine.antt =====
-- What src/buffer.cc, src/socket.cc and src/service.cc use of V8, which is no part of the
-- repository: the values of JavaScript and their conversions are parameters.
pub mod Samples
use v8h.Base.{ℕ, Bool, List, get_or}

pub record Engine : Type 1 where
  pub Value : Type 0
  pub undefined : Value
  -- `Uint32Value`, `Int32Value` (a bit pattern) and `IntegerValue` (a 64-bit pattern)
  pub uint32_value : Value → ℕ
  pub int32_value : Value → ℕ
  pub integer_value : Value → ℕ
  -- `NumberValue`, as the bit pattern of the `double`
  pub number_value : Value → ℕ
  pub is_uint32 : Value → Bool
  pub is_string : Value → Bool
  pub is_number : Value → Bool
  pub is_external : Value → Bool
  -- `ToString()->Utf8Length()`, and the bytes that `WriteUtf8` stores in so much room
  pub utf8_length : Value → ℕ
  pub write_utf8 : Value → ℕ → List ℕ
  -- `ToString()->Length()`, and the bytes that `WriteAscii` and `Write` store
  pub string_length : Value → ℕ
  pub write_ascii : Value → ℕ → List ℕ
  pub write_ucs2 : Value → List ℕ
  -- `String::New(data, n)`, `Integer::New`, `Integer::NewFromUnsigned`, `Number::New`
  pub new_string : List ℕ → Value
  pub new_int : ℕ → Value
  pub new_uint : ℕ → Value
  pub new_number : ℕ → Value
  -- `External::Wrap` of an offset in the block of an object's buffer
  pub wrap : ℕ → ℕ → Value
  -- `External::Wrap` and `External::Unwrap` of an address, `Null` and `Boolean::New`
  pub wrap_pointer : ℕ → Value
  pub unwrap : Value → ℕ
  pub null : Value
  pub new_boolean : Bool → Value
  -- objects by an identity
  pub to_object : Value → ℕ
  pub of_object : ℕ → Value

module _ (e : Engine) where
  -- `args[i]`: what is not given is undefined.
  abbrev pub arg : List e.Value → ℕ → e.Value
  arg args i = get_or args i e.undefined
