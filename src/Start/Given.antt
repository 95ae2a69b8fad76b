-- ===== src/Start/Given.antt =====
-- The last part of `main` of src/v8h.cc before the first script: the rest of the globals.
use v8h.Base.{ℕ, ◌≡◌, ◌≢◌, refl, sym, ◌∙◌, List, [], ◌∷◌, ◌++◌, some, Option}
use mathlib.Core.Path.{subst}
use v8h.Base.Outcome.{ok}
use v8h.Base.Text.{bytes_of, text_eq}
use v8h.Exports.Keys.{
  service_functions-IsConvertible, socket_functions-IsConvertible, file_functions-IsConvertible,
}
use v8h.Realm.{Realm}
use v8h.Classes.{
  Class, Statics, no_statics, create, global, service_class, socket_class, file_class,
  console_class,
}
use v8h.Classes.Once.{create-Runs, global-Runs}
use v8h.Start.Setup.{set_globals, set_all}
use v8h.Start.Shown.{Shows, Shows-then, IsGlobal, set_all-Shows}
use v8h.Start.Frame.{create-run, global-run}
use v8h.Start.Begin.{FunctionOf, GlobalOf, unset-IsStatics}

some-injective : {A : Type 0} (a b : A) → ◌≡◌ {A = Option A} (some a) (some b) → a ≡ b
some-injective a b h = cc

module _ (r : Realm) (callback : List ℕ → List ℕ → r.Callback) where
  open r use {Value, World}

  -- what `set_globals` sets between the calls of the classes
  module _ (object : Value) (made : Value × Value × Value) (arrays : Value × Value) where
    abbrev first_pairs : Value → List (List ℕ × Value)
    first_pairs config =
        (bytes_of "global", object)
        ∷ (bytes_of "$includePath", arrays.0)
        ∷ (bytes_of "c", made.2)
        ∷ (bytes_of "$argv", arrays.1)
        ∷ (bytes_of "$config", config)
        ∷ []

    abbrev last_pairs : Value → List (List ℕ × Value)
    last_pairs file =
        (bytes_of "File", file) ∷ (bytes_of "Buffer", made.0) ∷ (bytes_of "tempBuffer", made.1) ∷ []

    abbrev last_world : Value → World → World
    last_world file w = set_all r object ((bytes_of "tempBuffer", made.1) ∷ []) (
        set_all r made.0 ((bytes_of "temp", made.1) ∷ [])
          (set_all r object ((bytes_of "File", file) ∷ (bytes_of "Buffer", made.0) ∷ []) w))

    set_globals-run :
        (config service console socket file : Value) (k k₁ k₂ k₃ k₄ : Statics r)
        → (w w₁ w₃ w₅ w₇ w₉ : World)
        → global r (console_class callback) (no_statics r) w ≡ ok (config, k, w₁)
        → global r
            (service_class callback)
            (no_statics r)
            (set_all r object (first_pairs config) w₁)
          ≡ ok (service, k₁, w₃)
        → global r
            (console_class callback)
            k
            (set_all r object ((bytes_of "service", service) ∷ []) w₃)
          ≡ ok (console, k₂, w₅)
        → create r
            (socket_class callback)
            (no_statics r)
            (set_all r object ((bytes_of "console", console) ∷ []) w₅)
          ≡ ok (socket, k₃, w₇)
        → create r
            (file_class callback)
            (no_statics r)
            (set_all r object ((bytes_of "Socket", socket) ∷ []) w₇)
          ≡ ok (file, k₄, w₉)
        → set_globals r callback object made arrays w ≡ ok (last_world file w₉)
    unfolding set_globals
    set_globals-run config service console socket file k k₁ k₂ k₃ k₄ w w₁ w₃ w₅ w₇ w₉ a b c d e =
        rw (a, b, c, d, e) refl

  module _ (object : Value) (Exists : World → Type 0) (g : IsGlobal r object Exists)
      (total : (w : World) (f : Value)
        → (o : Value) × (w' : World) × (r.instantiate w f ≡ ok (o, w'))) where
    -- where the last values come from, and what has been set
    pub record Given (made : Value × Value × Value) (arrays : Value × Value) (w w' : World)
        : Type 0 where
      pub service : Value
      pub console : Value
      pub socket : Value
      pub file : Value
      pub service_global : GlobalOf r callback (service_class callback) service
      pub console_global : GlobalOf r callback (console_class callback) console
      pub socket_function : FunctionOf r callback (socket_class callback) socket
      pub file_function : FunctionOf r callback (file_class callback) file
      pub given :
          Shows r object Exists w
            ((bytes_of "global", object)
              ∷ (bytes_of "$includePath", arrays.0)
              ∷ (bytes_of "c", made.2)
              ∷ (bytes_of "$argv", arrays.1)
              ∷ (bytes_of "$config", console)
              ∷ (bytes_of "service", service)
              ∷ (bytes_of "console", console)
              ∷ (bytes_of "Socket", socket)
              ∷ (bytes_of "File", file)
              ∷ (bytes_of "Buffer", made.0)
              ∷ (bytes_of "tempBuffer", made.1)
              ∷ [])
            w'

    last_world-Shows :
        (made : Value × Value × Value) (arrays : Value × Value) (file : Value) (w : World)
        → made.0 ≢ object
        → Exists w
        → Shows r object Exists w
            (last_pairs object made arrays file)
            (last_world object made arrays file w)
    unfolding text_eq
    last_world-Shows made arrays file w other e =
        let two : List (List ℕ × Value) =
          (bytes_of "File", file) ∷ (bytes_of "Buffer", made.0) ∷ [] in
        let a = set_all-Shows r object Exists g two w (refl, (refl, tt)) e in
        let b = g.set_another (set_all r object two w) made.0 made.1 (bytes_of "temp") other a.0 in
        let c =
          set_all-Shows r object Exists g ((bytes_of "tempBuffer", made.1) ∷ [])
            (set_all r made.0 ((bytes_of "temp", made.1) ∷ []) (set_all r object two w)) (refl, tt)
            b.0 in
        Shows-then r object Exists w two ((bytes_of "tempBuffer", made.1) ∷ [])
          (Shows-then r object Exists w two [] a b) c

    pub set_globals-Given :
        (made : Value × Value × Value) (arrays : Value × Value) (w : World)
        → made.0 ≢ object
        → Exists w
        → (w' : World) × (set_globals r callback object made arrays w ≡ ok w')
          × Given made arrays w w'
    unfolding text_eq
    set_globals-Given made arrays w other e =
        let console_k : Class r.Callback = console_class callback in
        let service_k : Class r.Callback = service_class callback in
        let socket_k : Class r.Callback = socket_class callback in
        let file_k : Class r.Callback = file_class callback in
        let none_yet = no_statics r in
        let (config, k, w₁, run₁, _, valid, is) =
          global-Runs r console_k tt total none_yet w (unset-IsStatics r callback console_k) in
        let s₁ = global-run r object Exists g console_k tt total none_yet w run₁ e in
        let p₂ = first_pairs object made arrays config in
        let s₂ =
          set_all-Shows r object Exists g p₂ w₁ (refl, (refl, (refl, (refl, (refl, tt))))) s₁.0 in
        let (service, k₁, w₃, run₃, _, _, _) =
          global-Runs r service_k service_functions-IsConvertible total none_yet
            (set_all r object p₂ w₁) (unset-IsStatics r callback service_k) in
        let s₃ =
          global-run r object Exists g service_k service_functions-IsConvertible total none_yet
            (set_all r object p₂ w₁) run₃ s₂.0 in
        let p₄ : List (List ℕ × Value) = (bytes_of "service", service) ∷ [] in
        let s₄ = set_all-Shows r object Exists g p₄ w₃ (refl, tt) s₃.0 in
        let (console, k₂, w₅, run₅, x, _, is') =
          global-Runs r console_k tt total k (set_all r object p₄ w₃) valid in
        let s₅ =
          global-run r object Exists g console_k tt total k (set_all r object p₄ w₃) run₅ s₄.0 in
        let p₆ : List (List ℕ × Value) = (bytes_of "console", console) ∷ [] in
        let s₆ = set_all-Shows r object Exists g p₆ w₅ (refl, tt) s₅.0 in
        let (socket, k₃, w₇, run₇, _, _, _) =
          create-Runs r socket_k socket_functions-IsConvertible total none_yet
            (set_all r object p₆ w₅) (unset-IsStatics r callback socket_k) in
        let s₇ =
          create-run r object Exists g socket_k socket_functions-IsConvertible total none_yet
            (set_all r object p₆ w₅) run₇ s₆.0 in
        let p₈ : List (List ℕ × Value) = (bytes_of "Socket", socket) ∷ [] in
        let s₈ = set_all-Shows r object Exists g p₈ w₇ (refl, tt) s₇.0 in
        let (file, k₄, w₉, run₉, _, _, _) =
          create-Runs r file_k file_functions-IsConvertible total none_yet (set_all r object p₈ w₇)
            (unset-IsStatics r callback file_k) in
        let s₉ =
          create-run r object Exists g file_k file_functions-IsConvertible total none_yet
            (set_all r object p₈ w₇) run₉ s₈.0 in
        let s₁₀ = last_world-Shows made arrays file w₉ other s₉.0 in
        let same : config ≡ console =
          some-injective config console (sym (x.1 config is.0) ∙ is'.0) in
        let q₄ = p₂ ++ p₄ in
        let q₆ = q₄ ++ p₆ in
        let q₈ = q₆ ++ p₈ in
        let t₂ = Shows-then r object Exists w [] p₂ s₁ s₂ in
        let t₄ = Shows-then r object Exists w p₂ p₄ (Shows-then r object Exists w p₂ [] t₂ s₃) s₄ in
        let t₆ = Shows-then r object Exists w q₄ p₆ (Shows-then r object Exists w q₄ [] t₄ s₅) s₆ in
        let t₈ = Shows-then r object Exists w q₆ p₈ (Shows-then r object Exists w q₆ [] t₆ s₇) s₈ in
        let t =
          Shows-then r object Exists w q₈ (last_pairs object made arrays file)
            (Shows-then r object Exists w q₈ [] t₈ s₉) s₁₀ in
        let p = p₄ ++ p₆ ++ p₈ ++ last_pairs object made arrays file in
        let w' = last_world object made arrays file w₉ in
        (
          w',
          set_globals-run object made arrays config service console socket file k k₁ k₂ k₃ k₄ w w₁
              w₃ w₅ w₇ w₉ run₁ run₃ run₅ run₇ run₉,
          record {
            service = service;
            console = console;
            socket = socket;
            file = file;
            service_global = (_, _, _, _, run₃);
            console_global = (_, _, _, _, run₅);
            socket_function = (_, _, _, _, run₇);
            file_function = (_, _, _, _, run₉);
            given =
                subst (λ v. Shows r object Exists w (first_pairs object made arrays v ++ p) w') same
                  t;
          },
        )
