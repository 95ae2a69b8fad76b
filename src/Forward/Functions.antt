-- ===== src/Forward/Functions.antt =====
-- The macros `V8H_C_FUNCTION` of src/v8h_function.h: a function for JavaScript that calls a C function.
use v8h.Base.{get_or}
use v8h.Base.Outcome.{Outcome}
use v8h.Forward.{Conversion, Callback, with_arg, returning, returning_this}

-- The arguments are converted from the first to the last, an order that C++ leaves open. What is not
-- given is undefined.
module _ {World Value : Type 0} (undefined : Value) where
  -- With no argument: `V8H_C_FUNCTION_0_0` and `V8H_C_FUNCTION_0`
  unfoldable pub c_function_0_0 : (World → Outcome World) → Callback World Value
  c_function_0_0 f this args w = returning_this this (f w)

  -- `V8H_C_FUNCTION_0_1`
  unfoldable pub c_function_0_1 :
      {R : Type 0} → (R → Value) → (World → Outcome (R × World)) → Callback World Value
  c_function_0_1 ret f this args w = returning ret (f w)

  -- With one argument: `V8H_C_FUNCTION_1_0` and `V8H_C_FUNCTION_1`
  unfoldable pub c_function_1_0 :
      {A : Type 0} → Conversion World Value A → (A → World → Outcome World) → Callback World Value
  unfolding with_arg
  c_function_1_0 to_a f this args w =
      with_arg to_a (get_or args 0 undefined) (λ a w₁. returning_this this (f a w₁)) w

  -- `V8H_C_FUNCTION_1_1`
  unfoldable pub c_function_1_1 :
      {A R : Type 0}
      → Conversion World Value A
      → (R → Value)
      → (A → World → Outcome (R × World))
      → Callback World Value
  unfolding with_arg
  c_function_1_1 to_a ret f this args w =
      with_arg to_a (get_or args 0 undefined) (λ a w₁. returning ret (f a w₁)) w

  -- With two arguments: `V8H_C_FUNCTION_2_0` and `V8H_C_FUNCTION_2`
  unfoldable pub c_function_2_0 :
      {A B : Type 0}
      → Conversion World Value A
      → Conversion World Value B
      → (A → B → World → Outcome World)
      → Callback World Value
  unfolding with_arg
  c_function_2_0 to_a to_b f this args w =
      with_arg to_a (get_or args 0 undefined)
        (λ a. with_arg to_b (get_or args 1 undefined) (λ b w₁. returning_this this (f a b w₁))) w

  -- `V8H_C_FUNCTION_2_1`
  unfoldable pub c_function_2_1 :
      {A B R : Type 0}
      → Conversion World Value A
      → Conversion World Value B
      → (R → Value)
      → (A → B → World → Outcome (R × World))
      → Callback World Value
  unfolding with_arg
  c_function_2_1 to_a to_b ret f this args w =
      with_arg to_a (get_or args 0 undefined)
        (λ a. with_arg to_b (get_or args 1 undefined) (λ b w₁. returning ret (f a b w₁))) w

  -- With three arguments: `V8H_C_FUNCTION_3_0` and `V8H_C_FUNCTION_3`
  unfoldable pub c_function_3_0 :
      {A B C : Type 0}
      → Conversion World Value A
      → Conversion World Value B
      → Conversion World Value C
      → (A → B → C → World → Outcome World)
      → Callback World Value
  unfolding with_arg
  c_function_3_0 to_a to_b to_c f this args w =
      with_arg to_a (get_or args 0 undefined)
        (λ a.
          with_arg to_b (get_or args 1 undefined) (λ b.
            with_arg to_c (get_or args 2 undefined) (λ c w₁. returning_this this (f a b c w₁))))
        w

  -- `V8H_C_FUNCTION_3_1`
  unfoldable pub c_function_3_1 :
      {A B C R : Type 0}
      → Conversion World Value A
      → Conversion World Value B
      → Conversion World Value C
      → (R → Value)
      → (A → B → C → World → Outcome (R × World))
      → Callback World Value
  unfolding with_arg
  c_function_3_1 to_a to_b to_c ret f this args w =
      with_arg to_a (get_or args 0 undefined)
        (λ a.
          with_arg to_b (get_or args 1 undefined)
            (λ b. with_arg to_c (get_or args 2 undefined) (λ c w₁. returning ret (f a b c w₁))))
        w

  -- With four arguments: `V8H_C_FUNCTION_4_0` and `V8H_C_FUNCTION_4`
  unfoldable pub c_function_4_0 :
      {A B C D : Type 0}
      → Conversion World Value A
      → Conversion World Value B
      → Conversion World Value C
      → Conversion World Value D
      → (A → B → C → D → World → Outcome World)
      → Callback World Value
  unfolding with_arg
  c_function_4_0 to_a to_b to_c to_d f this args w =
      with_arg to_a (get_or args 0 undefined)
        (λ a. with_arg to_b (get_or args 1 undefined) (λ b.
          with_arg to_c (get_or args 2 undefined) (λ c.
            with_arg to_d (get_or args 3 undefined) (λ d w₁. returning_this this (f a b c d w₁)))))
        w

  -- `V8H_C_FUNCTION_4_1`
  unfoldable pub c_function_4_1 :
      {A B C D R : Type 0}
      → Conversion World Value A
      → Conversion World Value B
      → Conversion World Value C
      → Conversion World Value D
      → (R → Value)
      → (A → B → C → D → World → Outcome (R × World))
      → Callback World Value
  unfolding with_arg
  c_function_4_1 to_a to_b to_c to_d ret f this args w =
      with_arg to_a (get_or args 0 undefined)
        (λ a. with_arg to_b (get_or args 1 undefined) (λ b.
          with_arg to_c (get_or args 2 undefined)
            (λ c. with_arg to_d (get_or args 3 undefined) (λ d w₁. returning ret (f a b c d w₁)))))
        w

  -- With five arguments: `V8H_C_FUNCTION_5_0` and `V8H_C_FUNCTION_5`
  unfoldable pub c_function_5_0 :
      {A B C D E : Type 0}
      → Conversion World Value A
      → Conversion World Value B
      → Conversion World Value C
      → Conversion World Value D
      → Conversion World Value E
      → (A → B → C → D → E → World → Outcome World)
      → Callback World Value
  unfolding with_arg
  c_function_5_0 to_a to_b to_c to_d to_e f this args w =
      with_arg to_a (get_or args 0 undefined)
        (λ a. with_arg to_b (get_or args 1 undefined) (λ b.
          with_arg to_c (get_or args 2 undefined) (λ c.
            with_arg to_d (get_or args 3 undefined) (λ d.
              with_arg to_e (get_or args 4 undefined)
                (λ e w₁. returning_this this (f a b c d e w₁))))))
        w

  -- `V8H_C_FUNCTION_5_1`
  unfoldable pub c_function_5_1 :
      {A B C D E R : Type 0}
      → Conversion World Value A
      → Conversion World Value B
      → Conversion World Value C
      → Conversion World Value D
      → Conversion World Value E
      → (R → Value)
      → (A → B → C → D → E → World → Outcome (R × World))
      → Callback World Value
  unfolding with_arg
  c_function_5_1 to_a to_b to_c to_d to_e ret f this args w =
      with_arg to_a (get_or args 0 undefined)
        (λ a. with_arg to_b (get_or args 1 undefined) (λ b.
          with_arg to_c (get_or args 2 undefined) (λ c.
            with_arg to_d (get_or args 3 undefined) (λ d.
              with_arg to_e (get_or args 4 undefined) (λ e w₁. returning ret (f a b c d e w₁))))))
        w
