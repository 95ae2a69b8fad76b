-- ===== src/Bindings/Arguments.antt =====
-- Calls through the macros of src/v8h_function.h that src/c.h uses, with arguments that may take
-- memory.
use v8h.Base.{◌<◌, ◌≡◌, List}
use v8h.Base.Outcome.{Outcome, ok, fault, spin}
use v8h.Forward.{Conversion, returning, returning_this}
use v8h.Forward.Functions.{c_function_1_0, c_function_1_1, c_function_2_1, c_function_4_1}
use v8h.Helper.{World}
use v8h.Bindings.Tidy.{live, Tidy, IsScoped, with_arg-Tidy}

-- the same for a function without a result
abbrev pub TidyVoid : {S : Type 0} → World S → Outcome (World S) → Type 0
TidyVoid w fault = Unit
TidyVoid w spin = Unit
TidyVoid w (ok w') = live w' ≡ live w

module _ {S Value : Type 0} where
  returning-Tidy :
      {R : Type 0} (ret : R → Value) (w : World S) (m : Outcome (R × World S))
      → Tidy w m
      → Tidy w (returning ret m)
  returning-Tidy ret w fault h = tt
  returning-Tidy ret w spin h = tt
  returning-Tidy ret w (ok r) h = h

  returning_this-Tidy :
      (this : Value) (w : World S) (m : Outcome (World S))
      → TidyVoid w m
      → Tidy w (returning_this this m)
  returning_this-Tidy this w fault h = tt
  returning_this-Tidy this w spin h = tt
  returning_this-Tidy this w (ok w') h = h

  module _ {A : Type 0} (a : Conversion (World S) Value A) (scoped : IsScoped a)
      (this undefined : Value) (args : List Value) (w : World S) (pos : 0 < w.heap.next) where
    pub c_function_1_0-Tidy :
        (f : A → World S → Outcome (World S))
        → ((x : A) (w : World S) → TidyVoid w (f x w))
        → Tidy w (c_function_1_0 undefined a f this args w)
    unfolding c_function_1_0
    c_function_1_0-Tidy f tidy =
        with_arg-Tidy a _ _ w scoped (λ x w' p. returning_this-Tidy this w' (f x w') (tidy x w'))
          pos

    module _ {R : Type 0} (ret : R → Value) where
      pub c_function_1_1-Tidy :
          (f : A → World S → Outcome (R × World S))
          → ((x : A) (w : World S) → Tidy w (f x w))
          → Tidy w (c_function_1_1 undefined a ret f this args w)
      unfolding c_function_1_1
      c_function_1_1-Tidy f tidy =
          with_arg-Tidy a _ _ w scoped (λ x w' p. returning-Tidy ret w' (f x w') (tidy x w')) pos

      module _ {B : Type 0} (b : Conversion (World S) Value B) (scoped_b : IsScoped b) where
        pub c_function_2_1-Tidy :
            (f : A → B → World S → Outcome (R × World S))
            → ((x : A) (y : B) (w : World S) → Tidy w (f x y w))
            → Tidy w (c_function_2_1 undefined a b ret f this args w)
        unfolding c_function_2_1
        c_function_2_1-Tidy f tidy =
            with_arg-Tidy a _ _ w scoped
              (λ x w₁ p.
                with_arg-Tidy b _ _ w₁ scoped_b
                  (λ y w₂ q. returning-Tidy ret w₂ (f x y w₂) (tidy x y w₂)) p)
              pos

        module _ {C D : Type 0} (c : Conversion (World S) Value C) (scoped_c : IsScoped c)
            (d : Conversion (World S) Value D) (scoped_d : IsScoped d) where
          pub c_function_4_1-Tidy :
              (f : A → B → C → D → World S → Outcome (R × World S))
              → ((x : A) (y : B) (z : C) (u : D) (w : World S) → Tidy w (f x y z u w))
              → Tidy w (c_function_4_1 undefined a b c d ret f this args w)
          unfolding c_function_4_1
          c_function_4_1-Tidy f tidy =
              with_arg-Tidy a _ _ w scoped
                (λ x w₁ p₁.
                  with_arg-Tidy b _ _ w₁ scoped_b
                    (λ y w₂ p₂.
                      with_arg-Tidy c _ _ w₂ scoped_c
                        (λ z w₃ p₃.
                          with_arg-Tidy d _ _ w₃ scoped_d
                            (λ u w₄ p₄. returning-Tidy ret w₄ (f x y z u w₄) (tidy x y z u w₄)) p₃)
                        p₂)
                    p₁)
                pos
