-- ===== src/Helper.antt =====
-- src/v8h_helper.h: the conversions of arguments, with the memory that `TO_PCHAR` takes for a text,
-- the results made of pointers, and the exceptions. V8 is a parameter.
pub mod Properties
pub mod SmartText
pub mod Throw
pub mod Values
mod Tests
use v8h.Base.{ℕ, ◌+◌, ◌-◌, List, [], ◌∷◌, ◌++◌, Bool, ◌||◌, ◌==◌, if◌then◌else◌, length, take}
use v8h.Base.Memory.{peek, poke}
use v8h.Base.Outcome.{Outcome, ok, ◌>>=◌}
use v8h.Engine.{Engine}
use v8h.Heap.{Heap, malloc, free, store}
use v8h.Forward.{Conversion, plain}

-- The memory, and what else the C functions work on.
pub record World (System : Type 0) : Type 0 where
  pub heap : Heap
  pub system : System

-- `sizeof(buffer)` of the two functions that throw
abbrev pub message_size : ℕ
message_size = 512

module _ (e : Engine) (fresh : ℕ → ℕ) where
  open e use {
    Value, is_external, is_number, unwrap, utf8_length, write_utf8, int32_value, uint32_value, null,
    wrap_pointer,
  }

  -- `SmartString`; the address is NULL until there is memory.
  pub record SmartString : Type 0 where
    pub value : Value
    pub address : ℕ

  unfoldable pub smart_string : Value → SmartString
  smart_string v = record { value = v; address = 0 }

  -- `~SmartString`: NULL is not freed.
  unfoldable pub destroy : SmartString → Heap → Outcome Heap
  destroy s h = if s.address == 0 then ok h else free s.address h

  -- `operator char*`: a pointer or a number is the address itself; any other value becomes a text in
  -- new memory, with a NUL behind it.
  unfoldable pub to_char_pointer : SmartString → Heap → Outcome (SmartString × ℕ × Heap)
  to_char_pointer s h =
      let length = utf8_length s.value in
      let (p, h₁) = malloc fresh (length + 1) h in
      let text = store p 0 (write_utf8 s.value length) h₁ >>= λ h₂.
      store p length (0 ∷ []) h₂ >>= λ h₃. ok (record s { address = p }, p, h₃) in
      if is_external s.value || is_number s.value then ok (s, unwrap s.value, h) else text

  module _ {System : Type 0} where
    -- `TO_PCHAR`
    unfoldable pub to_pchar : Conversion (World System) Value ℕ
    unfolding smart_string destroy to_char_pointer
    to_pchar = record {
      Temporary = SmartString;
      convert = λ v w.
          to_char_pointer (smart_string v) w.heap >>= λ (s, p, h). ok (s, p, record w { heap = h });
      destroy = λ s w. destroy s w.heap >>= λ h. ok (record w { heap = h });
    }

    unfoldable pub to_int : Conversion (World System) Value ℕ
    to_int = plain int32_value

    unfoldable pub to_uint : Conversion (World System) Value ℕ
    to_uint = plain uint32_value

    -- `TO_PTR`
    unfoldable pub to_ptr : Conversion (World System) Value ℕ
    to_ptr = plain unwrap

  -- `V8_PTR_OR_NULL`
  unfoldable pub pointer_or_null : ℕ → Value
  pointer_or_null p = if p == 0 then null else wrap_pointer p

-- `THROW_EXCEPTION`, where the format and its arguments have been put together: `vsnprintf` stores as
-- much of the message as there is room for in the static buffer, and a NUL, and returns the length
-- of the whole message, which is the length of the text that is thrown.
unfoldable pub throw_exception : List ℕ → List ℕ → Outcome (List ℕ × List ℕ)
throw_exception message buffer = do
  buffer' ← poke buffer 0 (take (message_size - 1) message ++ (0 ∷ []))
  text ← peek buffer' 0 (length message)
  ok (text, buffer')
