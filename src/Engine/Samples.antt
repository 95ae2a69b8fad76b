-- ===== src/Engine/Samples.antt =====
-- A small engine for the tests of the modules that model src/c.h and src/socket.cc: its values are
-- undefined, numbers, pointers and texts.
use v8h.Base.{ℕ, List, [], ◌∷◌, Bool, true, false, if◌then◌else◌, length, take}
use v8h.Base.Text.{bytes_of}
use v8h.Engine.{Engine}

pub data Js : Type 0 where
  undefined : Js
  number : ℕ → Js
  pointer : ℕ → Js
  text : List ℕ → Js

abbrev pub bytes_of_text : Js → List ℕ
bytes_of_text (text l) = l
bytes_of_text (number n) = 48 ∷ []
bytes_of_text (pointer p) = []
bytes_of_text undefined = bytes_of "undefined"

abbrev pub number_of : Js → ℕ
number_of (number n) = n
number_of (pointer p) = 0
number_of (text l) = 0
number_of undefined = 0

abbrev pub address_of : Js → ℕ
address_of (pointer p) = p
address_of (number n) = n
address_of (text l) = 0
address_of undefined = 0

abbrev pub is_number : Js → Bool
is_number (number n) = true
is_number (pointer p) = false
is_number (text l) = false
is_number undefined = false

abbrev pub is_pointer : Js → Bool
is_pointer (pointer p) = true
is_pointer (number n) = false
is_pointer (text l) = false
is_pointer undefined = false

abbrev pub is_text : Js → Bool
is_text (text l) = true
is_text (number n) = false
is_text (pointer p) = false
is_text undefined = false

abbrev pub engine : Engine
engine = record {
  Value = Js;
  undefined = undefined;
  uint32_value = number_of;
  int32_value = number_of;
  integer_value = number_of;
  number_value = number_of;
  is_uint32 = is_number;
  is_string = is_text;
  is_number = is_number;
  is_external = is_pointer;
  utf8_length = λ v. length (bytes_of_text v);
  write_utf8 = λ v n. take n (bytes_of_text v);
  string_length = λ v. length (bytes_of_text v);
  write_ascii = λ v n. take n (bytes_of_text v);
  write_ucs2 = λ v. [];
  new_string = text;
  new_int = number;
  new_uint = number;
  new_number = number;
  wrap = λ id offset. undefined;
  wrap_pointer = pointer;
  unwrap = address_of;
  null = undefined;
  new_boolean = λ b. number (if b then 1 else 0);
  to_object = λ v. 0;
  of_object = λ id. undefined;
}
