-- ===== src/Start/Shown.antt =====
-- The properties of the global object, while `main` of src/v8h.cc prepares it.
use v8h.Base.{
  ℕ, suc, ◌≡◌, ◌≢◌, refl, sym, ap, ◌∙◌, List, [], ◌∷◌, ◌++◌, Bool, true, false, ◌||◌, Option,
  if◌then◌else◌, All,
}
use v8h.Base.Outcome.{ok}
use v8h.Base.Text.{bytes_of, text_eq}
use v8h.Realm.{Realm}
use v8h.Start.Setup.{set_all, array_of, fill}

-- the names that `main` sets
abbrev pub names : List (List ℕ)
names =
    bytes_of "global"
    ∷ bytes_of "$includePath"
    ∷ bytes_of "c"
    ∷ bytes_of "$argv"
    ∷ bytes_of "$config"
    ∷ bytes_of "service"
    ∷ bytes_of "console"
    ∷ bytes_of "Socket"
    ∷ bytes_of "File"
    ∷ bytes_of "Buffer"
    ∷ bytes_of "tempBuffer"
    ∷ bytes_of "$workingDir"
    ∷ []

abbrev pub has_text : List (List ℕ) → List ℕ → Bool
has_text [] k = false
has_text (j ∷ rest) k = text_eq j k || has_text rest k

-- what a name has been given last, or else what it had before
abbrev pub last_of : {A : Type 0} → List (List ℕ × A) → List ℕ → A → A
last_of [] j d = d
last_of ((k, v) ∷ rest) j d = last_of rest j (if text_eq j k then v else d)

module _ (r : Realm) (object : r.Value) (Exists : r.World → Type 0) where
  open r use {Value, World}

  -- a property of the global object
  abbrev pub shown : World → List ℕ → Value
  shown w j = (r.get w object (r.symbol j)).0

  -- From one world to the next, these properties and no others get these values, in this order.
  abbrev pub Shows : World → List (List ℕ × Value) → World → Type 0
  Shows w pairs w' = Exists w' × ((j : List ℕ) → shown w' j ≡ last_of pairs j (shown w j))

  -- What is documented of a global object that exists, before any JavaScript has run: its properties are
  -- those that have been set, and what is done to other objects leaves them. New objects are other
  -- objects, and so is the prototype of a new function. The constructors of C++ that `NewInstance` calls
  -- leave the global object.
  pub record IsGlobal : Type 0 where
    pub set_own :
        (w : World) (v : Value) (k : List ℕ)
        → has_text names k ≡ true
        → Exists w
        → Shows w ((k, v) ∷ []) (r.set w object (r.symbol k) v)
    pub set_another :
        (w : World) (o v : Value) (k : List ℕ)
        → o ≢ object
        → Exists w
        → Shows w [] (r.set w o (r.symbol k) v)
    pub set_index :
        (w : World) (o v : Value) (i : ℕ) → o ≢ object → Exists w → Shows w [] (r.set_index w o i v)
    pub make_function :
        (w : World) (c : r.Callback) (fields : ℕ)
        → Exists w
        → let (f, w₁) = r.make_function w c fields in
          let (p, w₂) = r.get w₁ f (r.symbol (bytes_of "prototype")) in
          (f ≢ object) × (r.to_object p ≢ object) × Shows w [] w₁ × Shows w [] w₂
    pub instantiate :
        (w w' : World) (f o : Value) → r.instantiate w f ≡ ok (o, w') → Exists w → Shows w [] w'
    pub new_object :
        (w : World) → Exists w → let (o, w') = r.new_object w in (o ≢ object) × Shows w [] w'
    pub new_array :
        (w : World) → Exists w → let (o, w') = r.new_array w in (o ≢ object) × Shows w [] w'
    pub still_set :
        (w : World) (v : Value) (k : List ℕ) → Exists w → Exists (r.set w object (r.symbol k) v)
    pub still_set_accessor :
        (w : World) (o k : Value) (getter : r.Callback) (setter : Option r.Callback)
        → Exists w
        → Exists (r.set_accessor w o k getter setter)

  last_of-append :
      (p q : List (List ℕ × Value)) (j : List ℕ) (d : Value)
      → last_of (p ++ q) j d ≡ last_of q j (last_of p j d)
  last_of-append [] q j d = refl
  last_of-append ((k, v) ∷ p) q j d = last_of-append p q j (if text_eq j k then v else d)

  pub Shows-then :
      (w : World) {w' w'' : World} (p q : List (List ℕ × Value))
      → Shows w p w'
      → Shows w' q w''
      → Shows w (p ++ q) w''
  Shows-then w p q a b =
      (b.0, λ j. b.1 j ∙ ap (last_of q j) (a.1 j) ∙ sym (last_of-append p q j (shown w j)))

  module _ (g : IsGlobal) where
    pub set_all-Shows :
        (pairs : List (List ℕ × Value)) (w : World)
        → All (λ p. has_text names p.0 ≡ true) pairs
        → Exists w
        → Shows w pairs (set_all r object pairs w)
    set_all-Shows [] w h e = (e, λ j. refl)
    set_all-Shows ((k, v) ∷ pairs) w h e =
        let first = g.set_own w v k h.0 e in
        Shows-then w ((k, v) ∷ []) pairs first
          (set_all-Shows pairs (r.set w object (r.symbol k) v) h.1 first.0)

    fill-Shows :
        (array : Value) (i : ℕ) (texts : List (List ℕ)) (w : World)
        → array ≢ object
        → Exists w
        → Shows w [] (fill r array i texts w)
    fill-Shows array i [] w ne e = (e, λ j. refl)
    fill-Shows array i (text ∷ texts) w ne e =
        let first = g.set_index w array (r.new_string text) i ne e in
        Shows-then w [] [] first (fill-Shows array (suc i) texts _ ne first.0)

    pub array_of-Shows :
        (texts : List (List ℕ)) (w : World) → Exists w → Shows w [] (array_of r texts w).1
    unfolding array_of
    array_of-Shows texts w e =
        let (ne, first) = g.new_array w e in
        Shows-then w [] [] first (fill-Shows (r.new_array w).0 0 texts (r.new_array w).1 ne first.0)
