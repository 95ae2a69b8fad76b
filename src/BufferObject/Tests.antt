-- ===== src/BufferObject/Tests.antt =====
-- The theorems about the functions of src/buffer.cc that V8 calls, at concrete objects.
use v8h.Base.{
  ℕ, ◌%◌, ◌^◌, tabulate, ◌≡◌, ◌≢◌, refl, List, [], ◌∷◌, Bool, true, false, arith, some, none,
  length, length-take, take,
}
use v8h.Base.Outcome.{ok, fault}
use v8h.Buffer.{Buffer}
use v8h.Buffer.Samples.{
  zeros, sample, token, sample-IsValid, token-IsValid, empty_buffer, empty_buffer-IsValid,
}
use v8h.Buffer.Valid.{IsValid, contents}
use v8h.Engine.{Engine}
use v8h.BufferObject.{
  Store, update, read_utf8, constructor, requested, write_int64, read_int64, write_uint32,
  read_uint32, peek_buffer, write_buffer, write_ucs2,
}
use v8h.BufferObject.Text.{read_utf8_lem, StoresUtf8}
use v8h.BufferObject.Integers.{read_int-write_int}
use v8h.BufferObject.Lifetime.{constructor-IsValid}
use v8h.BufferObject.Copy.{peek_buffer-fault}
use v8h.BufferObject.Append.{write_buffer_self-fault, write_ucs2-half}

-- the values that the tests use
data Js : Type 0 where
  undefined : Js
  number : ℕ → Js
  text : List ℕ → Js
  object : ℕ → Js

abbrev number_of : Js → ℕ
number_of (number n) = n
number_of _ = 0

abbrev bytes_of_text : Js → List ℕ
bytes_of_text (text l) = l
bytes_of_text _ = []

abbrev id_of : Js → ℕ
id_of (object id) = id
id_of _ = 0

abbrev is_number : Js → Bool
is_number (number n) = true
is_number _ = false

abbrev is_text : Js → Bool
is_text (text l) = true
is_text _ = false

-- ASCII texts as 16-bit units
abbrev wide : List ℕ → List ℕ
wide [] = []
wide (c ∷ l) = c ∷ 0 ∷ wide l

abbrev engine : Engine
engine = record {
  Value = Js;
  undefined = undefined;
  uint32_value = number_of;
  int32_value = number_of;
  integer_value = number_of;
  number_value = number_of;
  is_uint32 = is_number;
  is_string = is_text;
  is_number = is_number;
  is_external = λ v. false;
  utf8_length = λ v. length (bytes_of_text v);
  write_utf8 = λ v n. take n (bytes_of_text v);
  string_length = λ v. length (bytes_of_text v);
  write_ascii = λ v n. take n (bytes_of_text v);
  write_ucs2 = λ v. wide (bytes_of_text v);
  new_string = text;
  new_int = number;
  new_uint = number;
  new_number = number;
  wrap = λ id offset. undefined;
  wrap_pointer = λ p. undefined;
  unwrap = number_of;
  null = undefined;
  new_boolean = λ b. undefined;
  to_object = id_of;
  of_object = object;
}

-- objects 1 and 2 have buffers
abbrev two_objects : Store
two_objects = update (update (λ id. none) 1 (some sample)) 2 (some token)

abbrev small_buffer : Buffer
small_buffer = record {
  block = 97 ∷ 97 ∷ 0 ∷ 0 ∷ [];
  cursor = 0;
  size = 2;
  used = 2;
  reserve = 4;
  reported = 180;
}

abbrev half_full : Store
half_full = update (λ id. none) 4 (some small_buffer)

apart_1_2 : ◌≢◌ {A = ℕ} 1 2
apart_1_2 h = omega arith

stores : StoresUtf8 engine
stores (text l) = omega (arith, length-take (length l) l)
stores undefined = omega arith
stores (number n) = omega arith
stores (object n) = omega arith

read_utf8_lem_example :
    (b' : Buffer) × (read_utf8 engine two_objects 1 (number 3 ∷ [])
      ≡ ok (update two_objects 1 (some b'), text (97 ∷ 98 ∷ 99 ∷ [])))
    × IsValid b'
    × (contents b' ≡ 100 ∷ [])
read_utf8_lem_example =
    read_utf8_lem engine two_objects 1 sample refl sample-IsValid (number 3 ∷ [])

constructor-IsValid_example :
    (r : Store × Buffer) × (constructor engine zeros two_objects 3 (number 100 ∷ [])
      ≡ ok (r.0, object 3))
    × (r.0 3 ≡ some r.1)
    × ((id : ℕ) → id ≢ 3 → r.0 id ≡ two_objects id)
    × IsValid r.1
    × (contents r.1 ≡ [])
    × (r.1.reserve ≡ 100)
constructor-IsValid_example =
    constructor-IsValid engine zeros two_objects 3 (number 100) stores (λ h. refl) (omega arith)
      (omega arith)

peek_buffer-fault_example :
    peek_buffer engine zeros two_objects 1 (object 2 ∷ number 7 ∷ []) ≡ fault
unfolding requested
peek_buffer-fault_example =
    peek_buffer-fault engine zeros two_objects 1 2 sample token refl refl apart_1_2 sample-IsValid
      token-IsValid (object 2 ∷ number 7 ∷ []) refl (omega arith) (omega arith) (omega arith)

write_buffer_self-fault_example : write_buffer engine zeros two_objects 2 (object 2 ∷ []) ≡ fault
write_buffer_self-fault_example =
    write_buffer_self-fault engine zeros two_objects 2 token (object 2 ∷ []) refl refl token-IsValid
      (omega arith) (omega arith)

-- "h" in 16-bit units takes two bytes, and one of them is committed.
write_ucs2-half_example :
    (b' : Buffer) × (write_ucs2 engine zeros two_objects 1 (text (104 ∷ []) ∷ [])
      ≡ ok (update two_objects 1 (some b'), object 1))
    × (contents b' ≡ 97 ∷ 98 ∷ 99 ∷ 100 ∷ 104 ∷ [])
    × (b'.size ≡ 5)
write_ucs2-half_example =
    write_ucs2-half engine zeros two_objects 1 sample (text (104 ∷ []) ∷ []) refl sample-IsValid
      (omega arith) (omega arith) (omega arith)

abbrev zero_bytes : ℕ → List ℕ
zero_bytes n = tabulate zeros 0 n

-- `ToUint32` takes the lower 32 bits.
abbrev modular : Engine
modular = record engine { uint32_value = λ v. number_of v % 2 ^ 32 }

-- 2^32 + 2 comes back as 2.
read_int-write_int_example :
    let store = update two_objects 3 (some empty_buffer) in
    let v = number 4294967298 in
    ((store₁ : Store) × (store₂ : Store) × (write_int64 modular zeros store 3 (v ∷ [])
        ≡ ok (store₁, object 3))
      × (read_int64 modular (zero_bytes 8) store₁ 3 [] ≡ ok (store₂, number 2)))
    × ((store₁ : Store) × (store₂ : Store) × (write_uint32 modular zeros store 3 (v ∷ [])
          ≡ ok (store₁, object 3))
        × (read_uint32 modular (zero_bytes 4) store₁ 3 [] ≡ ok (store₂, number 2)))
read_int-write_int_example =
    read_int-write_int modular zeros (update two_objects 3 (some empty_buffer)) 3 empty_buffer
      (number 4294967298) refl empty_buffer-IsValid refl (zero_bytes 8) (zero_bytes 4) (omega arith)
      (omega arith) (omega arith) refl refl
