-- ===== src/BufferObject/Macros.antt =====
-- The functions of src/buffer.cc that the macros of src/v8h_function.h make of members of `Buffer`.
use v8h.Base.{ℕ, ◌≡◌, refl, ◌∙◌, List}
use v8h.Base.Outcome.{Outcome, ok, fault, spin, ◌>>=◌}
use v8h.Buffer.{Buffer}
use v8h.Base.{some}
use v8h.Engine.{Engine, arg}
use v8h.Forward.{plain}
use v8h.Forward.Members.{
  forward_function_0_0, forward_function_1_0, forward_function_0_1, forward_function_1_1,
}
use v8h.BufferObject.{
  Store, update, get_internal, forward_0_0, forward_1_0, forward_0_1, forward_1_1,
}

module _ (e : Engine) where
  -- what is behind an object, and a member's effect on it
  abbrev pub behind : e.Value → Store → Outcome Buffer
  behind this store = get_internal store (e.to_object this)

  abbrev pub put_back : e.Value → Buffer → Store → Store
  put_back this b store = update store (e.to_object this) (some b)

  abbrev pub swap : Outcome (e.Value × Store) → Outcome (Store × e.Value)
  swap m = m >>= λ (v, store). ok (store, v)

  abbrev pub void : Outcome Buffer → Store → Outcome (Buffer × Store)
  void m store = m >>= λ b. ok (b, store)

  abbrev pub with_result :
      {B : Type 0} → Outcome (Buffer × B) → Store → Outcome (B × Buffer × Store)
  with_result m store = m >>= λ (b, r). ok (r, b, store)

  module _ (store : Store) (self : ℕ) where
    abbrev pub this : e.Value
    this = e.of_object self

    void_same :
        (m : Outcome Buffer)
        → (m >>= λ b. ok (update store self (some b), this))
          ≡ swap ((void m store >>= λ (b, s). ok (update s self (some b))) >>= λ s. ok (this, s))
    void_same fault = refl
    void_same spin = refl
    void_same (ok b) = refl

    result_same :
        {B : Type 0} (to_value : B → e.Value) (m : Outcome (Buffer × B))
        → (m >>= λ (b, r). ok (update store self (some b), to_value r))
          ≡ swap (
              (with_result m store >>= λ (r, b, s). ok (r, update s self (some b))) >>= λ (r, s).
              ok (to_value r, s))
    result_same to_value fault = refl
    result_same to_value spin = refl
    result_same to_value (ok r) = refl

    -- The same code behind the object.
    behind_same :
        (m : Outcome Buffer) (call : Buffer → Outcome (Store × e.Value))
        → (general : Buffer → Outcome (e.Value × Store))
        → ((b : Buffer) → call b ≡ swap (general b))
        → (m >>= call) ≡ swap (m >>= general)
    behind_same fault call general h = refl
    behind_same spin call general h = refl
    behind_same (ok b) call general h = h b

    closed_same :
        (m : Outcome (e.Value × Store)) → swap m ≡ swap (m >>= λ (r, s). (ok s >>= λ s. ok (r, s)))
    closed_same fault = refl
    closed_same spin = refl
    closed_same (ok r) = refl

    -- The functions of `Buffer` that the macros of no or one argument make are what the general macros
    -- make, with an object's `Buffer` behind `This()`, and arguments that leave nothing to destroy.
    pub forward-forward_function :
        {A B : Type 0} (to_arg : e.Value → A) (to_value : B → e.Value) (args : List e.Value)
        → (f₀ : Buffer → Outcome Buffer) (f₁ : Buffer → A → Outcome Buffer)
        → (g₀ : Buffer → Outcome (Buffer × B)) (g₁ : Buffer → A → Outcome (Buffer × B))
        → e.to_object this ≡ self
        → (forward_0_0 e f₀ store self args
            ≡ swap (
                forward_function_0_0 e.undefined behind put_back
                  (λ b s. void (f₀ b) s)
                  this
                  args
                  store))
          × (forward_1_0 e to_arg f₁ store self args
              ≡ swap (
                  forward_function_1_0 e.undefined behind put_back
                    (plain to_arg)
                    (λ a b s. void (f₁ b a) s)
                    this
                    args
                    store))
          × (forward_0_1 e to_value g₀ store self args
              ≡ swap (
                  forward_function_0_1 e.undefined behind put_back to_value
                    (λ b s. with_result (g₀ b) s)
                    this
                    args
                    store))
          × (forward_1_1 e to_arg to_value g₁ store self args
              ≡ swap (
                  forward_function_1_1 e.undefined behind put_back
                    (plain to_arg)
                    to_value
                    (λ a b s. with_result (g₁ b a) s)
                    this
                    args
                    store))
    unfolding forward_0_0 forward_1_0 forward_0_1 forward_1_1 forward_function_0_0
        forward_function_1_0 forward_function_0_1 forward_function_1_1
    forward-forward_function to_arg to_value args f₀ f₁ g₀ g₁ same = (
      rw same (behind_same (get_internal store self) _ _ (λ b. void_same (f₀ b))),
      rw same (
          behind_same (get_internal store self) _ _
            (λ b. void_same (f₁ b (to_arg (arg e args 0))) ∙ closed_same _)),
      rw same (behind_same (get_internal store self) _ _ (λ b. result_same to_value (g₀ b))),
      rw same (
          behind_same (get_internal store self) _ _
            (λ b. result_same to_value (g₁ b (to_arg (arg e args 0))) ∙ closed_same _)),
    )
