-- ===== src/Helper/Values.antt =====
-- The conversions of src/v8h_helper.h between the numbers of JavaScript and those of C++. A number of C++
-- is kept as its bit pattern.
use v8h.Base.{ℕ, ◌%◌, Bool, int_mod}
use v8h.Engine.{Engine}

module _ (e : Engine) where
  open e use {
    Value, int32_value, uint32_value, integer_value, number_value, new_int, new_uint, new_number,
    new_boolean,
  }

  abbrev pub to_int32 : Value → ℕ
  to_int32 = int32_value

  abbrev pub to_uint : Value → ℕ
  to_uint = uint32_value

  abbrev pub to_uint32 : Value → ℕ
  to_uint32 = uint32_value

  abbrev pub to_int64 : Value → ℕ
  to_int64 = integer_value

  abbrev pub to_double : Value → ℕ
  to_double = number_value

  abbrev pub v8_int : ℕ → Value
  v8_int = new_int

  -- A `size_t` that is given becomes an `unsigned int`.
  abbrev pub v8_uint : ℕ → Value
  v8_uint n = new_uint (n % int_mod)

  abbrev pub v8_boolean : Bool → Value
  v8_boolean = new_boolean

  -- `Int32::New`, `Uint32::New` and `Integer::New` are one function, which takes an `int32_t`.
  abbrev pub v8_int32 : ℕ → Value
  v8_int32 = new_int

  abbrev pub v8_uint32 : ℕ → Value
  v8_uint32 = new_int

  abbrev pub v8_int64 : ℕ → Value
  v8_int64 n = new_int (n % int_mod)

  abbrev pub v8_double : ℕ → Value
  v8_double = new_number
