-- ===== src/Start/Begin.antt =====
-- The first part of `main` of src/v8h.cc from the new context on: what `init` of `System` and `C` leave,
-- and where the first objects come from.
use v8h.Base.{ℕ, ◌≡◌, ◌≢◌, refl, sym, ap, ◌∙◌, List, [], ◌∷◌, some, none, Option}
use v8h.Base.Outcome.{Outcome, ok, ◌>>=◌}
use v8h.Base.Text.{bytes_of}
use v8h.Exports.{system_functions, c_functions, c_constants}
use v8h.Exports.Keys.{
  buffer_functions-IsConvertible, system_functions-IsConvertible, c_functions-IsConvertible,
}
use v8h.Realm.{Realm}
use v8h.Helper.Properties.{set_callback, set_acc_symbol}
use v8h.Classes.{Class, Statics, no_statics, create, global, buffer_class}
use v8h.Classes.Init.{system_init, c_init, set_constants, set_pointers}
use v8h.Classes.Once.{create-Runs, global-Runs, IsStatics, IsInstance}
use v8h.Start.Setup.{prepare}
use v8h.Start.Shown.{IsGlobal}
use v8h.Start.Frame.{implement_all-keeps, implement_all-Shows, create-other, create-run, global-run}

none-some : {A : Type 0} (a : A) → ◌≡◌ {A = Option A} none (some a) → ⊥
none-some a h = cc

some-injective : {A : Type 0} (a b : A) → ◌≡◌ {A = Option A} (some a) (some b) → a ≡ b
some-injective a b h = cc

then-run :
    {A B : Type 0} (m : Outcome A) (g : A → B) {a : A} → m ≡ ok a → (m >>= λ x. ok (g x)) ≡ ok (g a)
then-run m g {a} h = rw h refl

module _ (r : Realm) (callback : List ℕ → List ℕ → r.Callback) where
  open r use {Value, World, instantiate}

  -- the function of a class, and the object of a class's `global`
  abbrev pub FunctionOf : Class r.Callback → Value → Type 0
  FunctionOf k f =
      (s : Statics r) × (w : World) × (s' : Statics r) × (w' : World) × (create r k s w
        ≡ ok (f, s', w'))

  abbrev pub GlobalOf : Class r.Callback → Value → Type 0
  GlobalOf k o =
      (s : Statics r) × (w : World) × (s' : Statics r) × (w' : World) × (global r k s w
        ≡ ok (o, s', w'))

  -- `temp` is an instance of the function `buffer`.
  abbrev pub Instance : Value → Value → Type 0
  Instance buffer temp = (w : World) × (w' : World) × (instantiate w buffer ≡ ok (temp, w'))

  pub unset-IsStatics : (k : Class r.Callback) → IsStatics r k (no_statics r)
  unset-IsStatics k o e = absurd (none-some o e)

  Instance-of :
      (k : Class r.Callback) (s : Statics r) (f o : Value)
      → s.function ≡ some f
      → IsInstance r k s o
      → Instance f o
  Instance-of k s f o is (g, w, w', is', run) =
      let same : g ≡ f = some-injective g f (sym is' ∙ is) in
      (w, w', ap (instantiate w) (sym same) ∙ run)

  prepare-run :
      (stdout stdin stderr : ℕ) (object buffer temp : Value) (s s' : Statics r)
      → (w w₁ w₂ w₃ w₅ : World) → system_init r callback object w ≡ ok w₁
      → create r (buffer_class callback) (no_statics r) w₁ ≡ ok (buffer, s, w₂)
      → global r (buffer_class callback) s w₂ ≡ ok (temp, s', w₃)
      → c_init r callback stdout stdin stderr (r.new_object w₃).0 (r.new_object w₃).1 ≡ ok w₅
      → prepare r callback stdout stdin stderr object w
        ≡ ok ((buffer, temp, (r.new_object w₃).0), w₅)
  unfolding prepare
  prepare-run stdout stdin stderr object buffer temp s s' w w₁ w₂ w₃ w₅ a b c d = rw (a, b, c, d)

  module _ (object : Value) (Exists : World → Type 0) (g : IsGlobal r object Exists) where
    set_own_callback :
        (w : World) (key : List ℕ) (c : r.Callback)
        → Exists w
        → Exists (set_callback r w object key c).1
    set_own_callback w key c e =
        let (_, _, made, _) = g.make_function w c 0 e in g.still_set _ _ key made.0

    system_init-Exists :
        (w : World)
        → Exists w
        → (w' : World) × (system_init r callback object w ≡ ok w') × Exists w'
    unfolding system_init
    system_init-Exists w e =
        let (w', run, e') =
          implement_all-keeps r Exists (callback (bytes_of "System")) object set_own_callback
            system_functions w system_functions-IsConvertible e in
        (
          _,
          then-run _ _ run,
          g.still_set_accessor _ _ _ _ _
              (g.still_set_accessor _ _ _ _ _ (g.still_set _ _ (bytes_of "$emptyString") e')),
        )

    module _ (c : Value) (other : c ≢ object) where
      set_constants-Exists :
          (constants : List (List ℕ × ℕ)) (w : World)
          → Exists w
          → Exists (set_constants r callback c constants w)
      set_constants-Exists [] w e = e
      set_constants-Exists ((name, value) ∷ constants) w e =
          set_constants-Exists constants _ (g.set_another w c (r.new_int value) name other e).0

      set_pointers-Exists :
          (pointers : List (List ℕ × ℕ)) (w : World)
          → Exists w
          → Exists (set_pointers r callback c pointers w)
      set_pointers-Exists [] w e = e
      set_pointers-Exists ((name, pointer) ∷ pointers) w e =
          set_pointers-Exists pointers _ (g.set_another w c (r.wrap_pointer pointer) name other e).0

      c_init-Exists :
          (stdout stdin stderr : ℕ) (w : World)
          → Exists w
          → (w' : World) × (c_init r callback stdout stdin stderr c w ≡ ok w') × Exists w'
      unfolding c_init
      c_init-Exists stdout stdin stderr w e =
          let (w', run, same) =
            implement_all-Shows r object Exists g (callback (bytes_of "C")) c c_functions
              (set_acc_symbol r w c (bytes_of "errno")
                (callback (bytes_of "C") (bytes_of "get_errno")) none)
              other c_functions-IsConvertible (g.still_set_accessor _ _ _ _ _ e) in
          (
            _,
            then-run _ _ run,
            set_pointers-Exists
                ((bytes_of "stdout", stdout)
                  ∷ (bytes_of "stdin", stdin)
                  ∷ (bytes_of "stderr", stderr)
                  ∷ [])
                _ (set_constants-Exists c_constants w' same.0),
          )

    -- what stands after the first part
    pub record Begun (buffer temp c : Value) (w : World) : Type 0 where
      pub present : Exists w
      pub buffer_function : FunctionOf (buffer_class callback) buffer
      pub temp_global : GlobalOf (buffer_class callback) temp
      pub temp_instance : Instance buffer temp
      pub buffer_other : buffer ≢ object
      pub c_new : (w₀ : World) × ((r.new_object w₀).0 ≡ c)

    pub prepare-Begun :
        (total : (w : World) (f : Value)
          → (o : Value) × (w' : World) × (instantiate w f ≡ ok (o, w')))
        → (stdout stdin stderr : ℕ) (w : World) → Exists w
        → (buffer : Value) × (temp : Value) × (c : Value) × (w' : World) × (prepare r callback
              stdout stdin stderr object w
            ≡ ok ((buffer, temp, c), w'))
          × Begun buffer temp c w'
    prepare-Begun total stdout stdin stderr w e =
        let (w₁, first, e₁) = system_init-Exists w e in
        let k : Class r.Callback = buffer_class callback in
        let named = buffer_functions-IsConvertible in
        let (buffer, s, w₂, made, _, valid, is) =
          create-Runs r k named total (no_statics r) w₁ (unset-IsStatics k) in
        let same₂ = create-run r object Exists g k named total (no_statics r) w₁ made e₁ in
        let (temp, s', w₃, made', x, _, (_, instance')) = global-Runs r k named total s w₂ valid in
        let same₃ = global-run r object Exists g k named total s w₂ made' same₂.0 in
        let (other, same₄) = g.new_object w₃ same₃.0 in
        let (w₅, last, e₅) =
          c_init-Exists (r.new_object w₃).0 other stdout stdin stderr (r.new_object w₃).1 same₄.0 in
        (
          buffer,
          temp,
          (r.new_object w₃).0,
          w₅,
          prepare-run stdout stdin stderr object buffer temp s s' w w₁ w₂ w₃ w₅ first made made'
              last,
          record {
            present = e₅;
            buffer_function = (no_statics r, w₁, s, w₂, made);
            temp_global = (s, w₂, s', w₃, made');
            temp_instance = Instance-of k s' buffer temp (x.0 buffer is) instance';
            buffer_other =
                create-other r object Exists g k named total (no_statics r) w₁ refl e₁ made;
            c_new = (w₃, refl);
          },
        )
