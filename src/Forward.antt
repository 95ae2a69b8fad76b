-- ===== src/Forward.antt =====
-- The macros of src/v8h_function.h, which make a function for JavaScript of a C function or of a member
-- of the class behind an object, for up to five arguments. JavaScript's values, the objects behind
-- them and the memory are parameters.
pub mod Functions
pub mod Members
use v8h.Base.{List}
use v8h.Base.Outcome.{Outcome, ok, ◌>>=◌}

-- How an argument becomes a value of C: what the conversion may keep until the call is over (the
-- temporary object that C++ destroys then), and the value.
pub record Conversion (World Value : Type 0) (A : Type 0) : Type 1 where
  pub Temporary : Type 0
  pub convert : Value → World → Outcome (Temporary × A × World)
  pub destroy : Temporary → World → Outcome World

module _ {World Value : Type 0} where
  -- a conversion that leaves nothing to destroy
  abbrev pub plain : {A : Type 0} → (Value → A) → Conversion World Value A
  plain f = record { Temporary = Unit; convert = λ v w. ok (tt, f v, w); destroy = λ t w. ok w }

  -- A call with an argument: the temporary is there until the call has returned and its result has
  -- been converted.
  unfoldable pub with_arg :
      {A R : Type 0}
      → Conversion World Value A
      → Value
      → (A → World → Outcome (R × World))
      → World
      → Outcome (R × World)
  with_arg c v call w = do
    (t, a, w₁) ← c.convert v w
    (r, w₂) ← call a w₁
    w₃ ← c.destroy t w₂
    ok (r, w₃)

-- `This()`, the arguments, the state before, and the result with the state after
abbrev pub Callback : Type 0 → Type 0 → Type 0
Callback World Value = Value → List Value → World → Outcome (Value × World)

module _ {World Value : Type 0} where
  -- what is returned when the C function has returned
  abbrev pub returning : {R : Type 0} → (R → Value) → Outcome (R × World) → Outcome (Value × World)
  returning ret m = m >>= λ (r, w). ok (ret r, w)

  abbrev pub returning_this : Value → Outcome World → Outcome (Value × World)
  returning_this this m = m >>= λ w. ok (this, w)
