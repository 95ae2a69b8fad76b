-- ===== src/Classes/Init.antt =====
-- `System::init` of src/system.cc and `C::init` of src/c.h, which set functions, getters and constants on an
-- object that is there already.
use v8h.Base.{ℕ, List, [], ◌∷◌, none}
use v8h.Base.Outcome.{Outcome, ok, ◌>>=◌}
use v8h.Base.Text.{bytes_of}
use v8h.Exports.{system_functions, c_functions, c_constants}
use v8h.Realm.{Realm}
use v8h.Helper.Properties.{set_symbol, set_int_symbol, set_acc_symbol}
use v8h.Classes.{implement_all}

module _ (r : Realm) (callback : List ℕ → List ℕ → r.Callback) where
  open r use {Value, World, new_string, wrap_pointer}

  unfoldable pub system_init : Value → World → Outcome World
  unfolding implement_all
  system_init c w =
      let system = callback (bytes_of "System") in
      implement_all r system c system_functions w >>= λ w₁.
      let w₂ = (set_symbol r w₁ c (bytes_of "$emptyString") (new_string [])).1 in
      let w₃ =
        set_acc_symbol r w₂ c (bytes_of "$systemError") (system (bytes_of "get_system_error"))
          none in
      ok (
        set_acc_symbol r w₃ c (bytes_of "$systemErrno") (system (bytes_of "get_system_errno")) none)

  -- `V8H_CONSTANT_INT`
  abbrev pub set_constants : Value → List (List ℕ × ℕ) → World → World
  set_constants c [] w = w
  set_constants c ((name, value) ∷ constants) w =
      set_constants c constants (set_int_symbol r w c name value)

  -- `V8H_CONSTANT_PTR`
  abbrev pub set_pointers : Value → List (List ℕ × ℕ) → World → World
  set_pointers c [] w = w
  set_pointers c ((name, pointer) ∷ pointers) w =
      set_pointers c pointers (set_symbol r w c name (wrap_pointer pointer)).1

  unfoldable pub c_init : ℕ → ℕ → ℕ → Value → World → Outcome World
  unfolding implement_all
  c_init stdout stdin stderr c w =
      let w₁ =
        set_acc_symbol r w c (bytes_of "errno") (callback (bytes_of "C") (bytes_of "get_errno"))
          none in
      implement_all r (callback (bytes_of "C")) c c_functions w₁ >>= λ w₂. ok (
        set_pointers c
          ((bytes_of "stdout", stdout)
            ∷ (bytes_of "stdin", stdin)
            ∷ (bytes_of "stderr", stderr)
            ∷ [])
          (set_constants c c_constants w₂))
