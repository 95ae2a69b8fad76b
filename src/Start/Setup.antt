-- ===== src/Start/Setup.antt =====
-- `main` of src/v8h.cc from the new context on: the classes that it makes, and what it sets on the global
-- object before the first script runs. V8's objects are a parameter.
use v8h.Base.{ℕ, suc, List, [], ◌∷◌}
use v8h.Base.Outcome.{Outcome, ok, ◌>>=◌}
use v8h.Base.Text.{bytes_of}
use v8h.Realm.{Realm}
use v8h.Helper.Properties.{set_symbol, set_index}
use v8h.Classes.{
  Statics, no_statics, create, global, buffer_class, service_class, socket_class, file_class,
  console_class,
}
use v8h.Classes.Init.{system_init, c_init}

module _ (r : Realm) where
  open r use {Value, World, new_string, new_array}

  -- texts as the elements of an array, from the one on whose number is given
  abbrev pub fill : Value → ℕ → List (List ℕ) → World → World
  fill array i [] w = w
  fill array i (text ∷ texts) w =
      fill array (suc i) texts (set_index r w array i (new_string text)).1

  unfoldable pub array_of : List (List ℕ) → World → Value × World
  array_of texts w = let (array, w') = new_array w in (array, fill array 0 texts w')

  abbrev pub set_all : Value → List (List ℕ × Value) → World → World
  set_all object [] w = w
  set_all object ((name, value) ∷ rest) w = set_all object rest (set_symbol r w object name value).1

module _ (r : Realm) (callback : List ℕ → List ℕ → r.Callback) where
  open r use {Value, World, new_string, new_object}

  -- the static variables of the classes, before anything has been called
  abbrev pub unset : Statics r
  unset = no_statics r

  -- The three parts: the classes and objects before the paths are known,
  unfoldable pub prepare : ℕ → ℕ → ℕ → Value → World → Outcome ((Value × Value × Value) × World)
  unfolding system_init c_init create global
  prepare stdout stdin stderr object w = do
    w₁ ← system_init r callback object w
    (buffer, s, w₂) ← create r (buffer_class callback) unset w₁
    (temp, s', w₃) ← global r (buffer_class callback) s w₂
    let (c, w₄) = new_object w₃
    w₅ ← c_init r callback stdout stdin stderr c w₄
    ok ((buffer, temp, c), w₅)

  -- the arrays and `$workingDir`,
  unfoldable pub set_paths :
      Value → List (List ℕ) → List ℕ → List (List ℕ) → World → (Value × Value) × World
  unfolding array_of
  set_paths object include working arguments w =
      let (include_path, w₁) = array_of r include w in
      let (_, w₂) = set_symbol r w₁ object (bytes_of "$workingDir") (new_string working) in
      let (argv, w₃) = array_of r arguments w₂ in ((include_path, argv), w₃)

  -- and the rest of the globals.
  unfoldable pub set_globals : Value → Value × Value × Value → Value × Value → World → Outcome World
  unfolding create global
  set_globals object (buffer, temp, c) (include_path, argv) w = do
    (config, k, w₁) ← global r (console_class callback) unset w
    let w₂ =
        set_all r object
          ((bytes_of "global", object)
            ∷ (bytes_of "$includePath", include_path)
            ∷ (bytes_of "c", c)
            ∷ (bytes_of "$argv", argv)
            ∷ (bytes_of "$config", config)
            ∷ [])
          w₁
    (service, _, w₃) ← global r (service_class callback) unset w₂
    let w₄ = set_all r object ((bytes_of "service", service) ∷ []) w₃
    (console, _, w₅) ← global r (console_class callback) k w₄
    let w₆ = set_all r object ((bytes_of "console", console) ∷ []) w₅
    (socket, _, w₇) ← create r (socket_class callback) unset w₆
    let w₈ = set_all r object ((bytes_of "Socket", socket) ∷ []) w₇
    (file, _, w₉) ← create r (file_class callback) unset w₈
    let w₁₀ = set_all r object ((bytes_of "File", file) ∷ (bytes_of "Buffer", buffer) ∷ []) w₉
    let w₁₁ = set_all r buffer ((bytes_of "temp", temp) ∷ []) w₁₀
    ok (set_all r object ((bytes_of "tempBuffer", temp) ∷ []) w₁₁)

  unfoldable pub setup :
      ℕ → ℕ → ℕ → Value → List (List ℕ) → List ℕ → List (List ℕ) → World → Outcome World
  unfolding prepare set_paths set_globals
  setup stdout stdin stderr object include working arguments w = do
    (made, w₁) ← prepare stdout stdin stderr object w
    let (arrays, w₂) = set_paths object include working arguments w₁
    set_globals object made arrays w₂
