-- ===== src/Classes/Lookup.antt =====
-- What JavaScript finds under the names that `create` has set.
use v8h.Base.{
  ℕ, ◌≡◌, ◌≢◌, refl, sym, ap, ◌∙◌, List, [], ◌∷◌, ◌++◌, some, Bool-cases, inl, inr, Option,
  if◌then◌else◌, All,
}
use mathlib.Core.Path.{subst}
use v8h.Base.Outcome.{ok}
use v8h.Base.Text.{bytes_of}
use v8h.Algorithm.{underline_to_camel}
use v8h.Algorithm.Names.{to_snake}
use v8h.Exports.Table.{IsName, implement-name}
use v8h.Realm.{Realm, IsRealm}
use v8h.Helper.Properties.{set_callback, get_obj_symbol}
use v8h.Classes.{Class, no_statics, implement_all, make_class, create}

module _ (r : Realm) (Lives : r.World → r.Value → Type 0)
    (calls : r.World → r.Value → Option r.Callback) (l : IsRealm r Lives calls)
    (function : List ℕ → r.Callback) (target : r.Value) where
  open r use {Value, World, Callback, get, set, symbol, make_function}

  -- what is left behind by one name
  abbrev after : World → List ℕ → List ℕ → World
  after w key name = (set_callback r w target key (function name)).1

  after-Lives : (w : World) (key name : List ℕ) (x : Value) → Lives w x → Lives (after w key name) x
  after-Lives w key name x h =
      l.Lives-set _ target _ x key (l.Lives-make_function w x (function name) 0 h)

  after-calls :
      (w : World) (key name : List ℕ) (x : Value)
      → Lives w x
      → calls (after w key name) x ≡ calls w x
  after-calls w key name x h =
      l.calls-set _ target _ x key ∙ l.calls-make_function w x (function name) 0 h

  after-other :
      (w : World) (key name other : List ℕ)
      → Lives w target
      → other ≢ key
      → (get (after w key name) target (symbol other)).0 ≡ (get w target (symbol other)).0
  after-other w key name other h ne =
      l.get-set_other _ target _ key other (l.Lives-make_function w target (function name) 0 h) ne
      ∙ l.get-make_function w target other (function name) 0 h

  -- Names that are not this one leave what is found under its key.
  implement_all-others :
      (names : List (List ℕ)) (w : World) (name key : List ℕ) (x : Value)
      → All IsName names
      → All (λ n. n ≢ name) names
      → to_snake key ≡ name
      → Lives w target
      → Lives w x
      → (w' : World) × (implement_all r function target names w ≡ ok w')
        × ((get w' target (symbol key)).0 ≡ (get w target (symbol key)).0)
        × (calls w' x ≡ calls w x)
  unfolding implement_all
  implement_all-others [] w name key x named other back h hx = (w, refl, refl, refl)
  implement_all-others (n ∷ names) w name key x named other back h hx =
      let (key', found, back') = implement-name n named.0 in
      let ne : key ≢ key' = λ e. other.0 (sym back' ∙ sym (ap to_snake e) ∙ back) in
      let (w', run, same, called) =
        implement_all-others names (after w key' n) name key x named.1 other.1 back
          (after-Lives w key' n target h) (after-Lives w key' n x hx) in
      (w', rw found run, same ∙ after-other w key' n key h ne, called ∙ after-calls w key' n x hx)

  -- The last of the names that are this one is what is found.
  implement_all-finds :
      (before behind : List (List ℕ)) (w : World) (name : List ℕ)
      → All IsName (before ++ name ∷ behind)
      → All (λ n. n ≢ name) behind
      → Lives w target
      → (w' : World) × (key : List ℕ) × (implement_all r function target (before ++ name ∷ behind) w
          ≡ ok w')
        × (underline_to_camel name ≡ ok key)
        × (calls w' (get w' target (symbol key)).0 ≡ some (function name))
  unfolding implement_all
  implement_all-finds [] behind w name named other h =
      let (key, found, back) = implement-name name named.0 in
      let (f, w₁) = make_function w (function name) 0 in
      let (lives, called) = l.made w (function name) 0 in
      let lives_target = l.Lives-make_function w target (function name) 0 h in
      let w₂ = set w₁ target (symbol key) f in
      let (w', run, same, kept) =
        implement_all-others behind w₂ name key f named.1 other back
          (l.Lives-set w₁ target f target key lives_target) (l.Lives-set w₁ target f f key lives) in
      (
        w',
        key,
        rw found run,
        found,
        ap (calls w') (same ∙ l.get-set w₁ target f key lives_target)
            ∙ kept
            ∙ l.calls-set w₁ target f f key
            ∙ called,
      )
  implement_all-finds (n ∷ before) behind w name named other h =
      let (key', found', _) = implement-name n named.0 in
      let (w', key, run, found, called) =
        implement_all-finds before behind (after w key' n) name named.1 other
          (after-Lives w key' n target h) in
      (w', key, rw found' run, found, called)

module _ (r : Realm) (Lives : r.World → r.Value → Type 0)
    (calls : r.World → r.Value → Option r.Callback) (l : IsRealm r Lives calls)
    (k : Class r.Callback) (w : r.World) where
  -- the class's function and its prototype, before any name is set
  abbrev pub class_function : r.Value × r.World
  class_function = r.make_function w k.constructor k.fields

  abbrev pub class_prototype : r.Value × r.World
  class_prototype = get_obj_symbol r class_function.1 class_function.0 (bytes_of "prototype")

  abbrev pub class_target : r.Value
  class_target = if k.on_prototype then class_prototype.0 else class_function.0

  class_target-Lives : Lives class_prototype.1 class_target
  class_target-Lives = elim (Bool-cases k.on_prototype) [
    | inl on ↦ rw on (l.prototype w k.constructor k.fields)
    | inr static ↦ rw static (l.Lives-get _ _ _ _ (l.made w k.constructor k.fields).0)
  ]

  -- `create` of a class, called for the first time, returns its function. For each name in its list that
  -- does not come again behind, the prototype (for static functions, the class's function) then has,
  -- under the name that `underline_to_camel` makes of it, a function that calls the C++ function of
  -- exactly this name; if all names are small words with single underlines between and any number of
  -- them in front.
  pub create-finds :
      (before behind : List (List ℕ)) (name : List ℕ)
      → k.functions ≡ before ++ name ∷ behind
      → All IsName k.functions
      → All (λ n. n ≢ name) behind
      → (w' : r.World) × (key : List ℕ) × (create r k (no_statics r) w
          ≡ ok (class_function.0, record (no_statics r) { function = some class_function.0 }, w'))
        × (underline_to_camel name ≡ ok key)
        × (calls w' (r.get w' class_target (r.symbol key)).0 ≡ some (k.function name))
  unfolding create make_class
  create-finds before behind name e named other =
      let named' : All IsName (before ++ name ∷ behind) = subst (All IsName) e named in
      let (w', key, run, found, called) =
        implement_all-finds r Lives calls l k.function class_target before behind class_prototype.1
          name named' other class_target-Lives in
      let run' : implement_all r k.function class_target k.functions class_prototype.1 ≡ ok w' =
        ap
          (λ (names : List (List ℕ)).
            implement_all r k.function class_target names class_prototype.1)
          e
        ∙ run in
      (w', key, rw run', found, called)
