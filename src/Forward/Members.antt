-- ===== src/Forward/Members.antt =====
-- The macros `V8H_FORWARD_FUNCTION` of src/v8h_function.h: a function for JavaScript that calls a
-- member of the class behind the object.
use v8h.Base.{get_or}
use v8h.Base.Outcome.{Outcome, ok, ◌>>=◌}
use v8h.Forward.{Conversion, Callback, with_arg, returning, returning_this}

-- `get` finds the object behind `This()`, and a member may change it.
module _ {World Value Self : Type 0} (undefined : Value) (get : Value → World → Outcome Self)
    (set : Value → Self → World → World) where
  -- the object put back after a member
  abbrev changed : Value → Outcome (Self × World) → Outcome World
  changed this m = m >>= λ (instance', w). ok (set this instance' w)

  abbrev changed_with : {R : Type 0} → Value → Outcome (R × Self × World) → Outcome (R × World)
  changed_with this m = m >>= λ (r, instance', w). ok (r, set this instance' w)

  -- With no argument: `V8H_FORWARD_FUNCTION_0`, `V8H_FORWARD_FUNCTION_WITH_CLASS_0_0` and
  -- `V8H_FORWARD_FUNCTION_WITH_CLASS_0`
  unfoldable pub forward_function_0_0 :
      (Self → World → Outcome (Self × World)) → Callback World Value
  forward_function_0_0 f this args w =
      get this w >>= λ instance. returning_this this (changed this (f instance w))

  -- `V8H_FORWARD_FUNCTION_0_1` and `V8H_FORWARD_FUNCTION_WITH_CLASS_0_1`
  unfoldable pub forward_function_0_1 :
      {R : Type 0}
      → (R → Value)
      → (Self → World → Outcome (R × Self × World))
      → Callback World Value
  forward_function_0_1 ret f this args w =
      get this w >>= λ instance. returning ret (changed_with this (f instance w))

  -- With one argument: `V8H_FORWARD_FUNCTION_1`, `V8H_FORWARD_FUNCTION_WITH_CLASS_1_0` and
  -- `V8H_FORWARD_FUNCTION_WITH_CLASS_1`
  unfoldable pub forward_function_1_0 :
      {A : Type 0}
      → Conversion World Value A
      → (A → Self → World → Outcome (Self × World))
      → Callback World Value
  unfolding with_arg
  forward_function_1_0 to_a f this args w = get this w >>= λ instance.
      with_arg to_a (get_or args 0 undefined)
        (λ a w₁. returning_this this (changed this (f a instance w₁))) w

  -- `V8H_FORWARD_FUNCTION_1_1` and `V8H_FORWARD_FUNCTION_WITH_CLASS_1_1`
  unfoldable pub forward_function_1_1 :
      {A R : Type 0}
      → Conversion World Value A
      → (R → Value)
      → (A → Self → World → Outcome (R × Self × World))
      → Callback World Value
  unfolding with_arg
  forward_function_1_1 to_a ret f this args w = get this w >>= λ instance.
      with_arg to_a (get_or args 0 undefined)
        (λ a w₁. returning ret (changed_with this (f a instance w₁))) w

  -- With two arguments: `V8H_FORWARD_FUNCTION_2`, `V8H_FORWARD_FUNCTION_WITH_CLASS_2_0` and
  -- `V8H_FORWARD_FUNCTION_WITH_CLASS_2`
  unfoldable pub forward_function_2_0 :
      {A B : Type 0}
      → Conversion World Value A
      → Conversion World Value B
      → (A → B → Self → World → Outcome (Self × World))
      → Callback World Value
  unfolding with_arg
  forward_function_2_0 to_a to_b f this args w = get this w >>= λ instance.
      with_arg to_a (get_or args 0 undefined)
        (λ a.
          with_arg to_b (get_or args 1 undefined)
            (λ b w₁. returning_this this (changed this (f a b instance w₁))))
        w

  -- `V8H_FORWARD_FUNCTION_2_1` and `V8H_FORWARD_FUNCTION_WITH_CLASS_2_1`
  unfoldable pub forward_function_2_1 :
      {A B R : Type 0}
      → Conversion World Value A
      → Conversion World Value B
      → (R → Value)
      → (A → B → Self → World → Outcome (R × Self × World))
      → Callback World Value
  unfolding with_arg
  forward_function_2_1 to_a to_b ret f this args w = get this w >>= λ instance.
      with_arg to_a (get_or args 0 undefined)
        (λ a.
          with_arg to_b (get_or args 1 undefined)
            (λ b w₁. returning ret (changed_with this (f a b instance w₁))))
        w

  -- With three arguments: `V8H_FORWARD_FUNCTION_3`, `V8H_FORWARD_FUNCTION_WITH_CLASS_3_0` and
  -- `V8H_FORWARD_FUNCTION_WITH_CLASS_3`
  unfoldable pub forward_function_3_0 :
      {A B C : Type 0}
      → Conversion World Value A
      → Conversion World Value B
      → Conversion World Value C
      → (A → B → C → Self → World → Outcome (Self × World))
      → Callback World Value
  unfolding with_arg
  forward_function_3_0 to_a to_b to_c f this args w = get this w >>= λ instance.
      with_arg to_a (get_or args 0 undefined)
        (λ a. with_arg to_b (get_or args 1 undefined) (λ b.
          with_arg to_c (get_or args 2 undefined)
            (λ c w₁. returning_this this (changed this (f a b c instance w₁)))))
        w

  -- `V8H_FORWARD_FUNCTION_3_1` and `V8H_FORWARD_FUNCTION_WITH_CLASS_3_1`
  unfoldable pub forward_function_3_1 :
      {A B C R : Type 0}
      → Conversion World Value A
      → Conversion World Value B
      → Conversion World Value C
      → (R → Value)
      → (A → B → C → Self → World → Outcome (R × Self × World))
      → Callback World Value
  unfolding with_arg
  forward_function_3_1 to_a to_b to_c ret f this args w = get this w >>= λ instance.
      with_arg to_a (get_or args 0 undefined)
        (λ a. with_arg to_b (get_or args 1 undefined) (λ b.
          with_arg to_c (get_or args 2 undefined)
            (λ c w₁. returning ret (changed_with this (f a b c instance w₁)))))
        w

  -- With four arguments: `V8H_FORWARD_FUNCTION_4`, `V8H_FORWARD_FUNCTION_WITH_CLASS_4_0` and
  -- `V8H_FORWARD_FUNCTION_WITH_CLASS_4`
  unfoldable pub forward_function_4_0 :
      {A B C D : Type 0}
      → Conversion World Value A
      → Conversion World Value B
      → Conversion World Value C
      → Conversion World Value D
      → (A → B → C → D → Self → World → Outcome (Self × World))
      → Callback World Value
  unfolding with_arg
  forward_function_4_0 to_a to_b to_c to_d f this args w = get this w >>= λ instance.
      with_arg to_a (get_or args 0 undefined)
        (λ a. with_arg to_b (get_or args 1 undefined) (λ b.
          with_arg to_c (get_or args 2 undefined) (λ c.
            with_arg to_d (get_or args 3 undefined)
              (λ d w₁. returning_this this (changed this (f a b c d instance w₁))))))
        w

  -- `V8H_FORWARD_FUNCTION_4_1` and `V8H_FORWARD_FUNCTION_WITH_CLASS_4_1`
  unfoldable pub forward_function_4_1 :
      {A B C D R : Type 0}
      → Conversion World Value A
      → Conversion World Value B
      → Conversion World Value C
      → Conversion World Value D
      → (R → Value)
      → (A → B → C → D → Self → World → Outcome (R × Self × World))
      → Callback World Value
  unfolding with_arg
  forward_function_4_1 to_a to_b to_c to_d ret f this args w = get this w >>= λ instance.
      with_arg to_a (get_or args 0 undefined)
        (λ a. with_arg to_b (get_or args 1 undefined) (λ b.
          with_arg to_c (get_or args 2 undefined) (λ c.
            with_arg to_d (get_or args 3 undefined)
              (λ d w₁. returning ret (changed_with this (f a b c d instance w₁))))))
        w

  -- With five arguments: `V8H_FORWARD_FUNCTION_5`, `V8H_FORWARD_FUNCTION_WITH_CLASS_5_0` and
  -- `V8H_FORWARD_FUNCTION_WITH_CLASS_5`
  unfoldable pub forward_function_5_0 :
      {A B C D E : Type 0}
      → Conversion World Value A
      → Conversion World Value B
      → Conversion World Value C
      → Conversion World Value D
      → Conversion World Value E
      → (A → B → C → D → E → Self → World → Outcome (Self × World))
      → Callback World Value
  unfolding with_arg
  forward_function_5_0 to_a to_b to_c to_d to_e f this args w = get this w >>= λ instance.
      with_arg to_a (get_or args 0 undefined)
        (λ a. with_arg to_b (get_or args 1 undefined) (λ b.
          with_arg to_c (get_or args 2 undefined) (λ c.
            with_arg to_d (get_or args 3 undefined) (λ d.
              with_arg to_e (get_or args 4 undefined)
                (λ e w₁. returning_this this (changed this (f a b c d e instance w₁)))))))
        w

  -- `V8H_FORWARD_FUNCTION_5_1` and `V8H_FORWARD_FUNCTION_WITH_CLASS_5_1`
  unfoldable pub forward_function_5_1 :
      {A B C D E R : Type 0}
      → Conversion World Value A
      → Conversion World Value B
      → Conversion World Value C
      → Conversion World Value D
      → Conversion World Value E
      → (R → Value)
      → (A → B → C → D → E → Self → World → Outcome (R × Self × World))
      → Callback World Value
  unfolding with_arg
  forward_function_5_1 to_a to_b to_c to_d to_e ret f this args w = get this w >>= λ instance.
      with_arg to_a (get_or args 0 undefined)
        (λ a. with_arg to_b (get_or args 1 undefined) (λ b.
          with_arg to_c (get_or args 2 undefined) (λ c.
            with_arg to_d (get_or args 3 undefined) (λ d.
              with_arg to_e (get_or args 4 undefined)
                (λ e w₁. returning ret (changed_with this (f a b c d e instance w₁)))))))
        w
