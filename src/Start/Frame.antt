-- ===== src/Start/Frame.antt =====
-- What the calls of the classes in `main` of src/v8h.cc do to the global object.
use v8h.Base.{
  ℕ, ◌≡◌, ◌≢◌, refl, sym, ◌∙◌, List, [], ◌∷◌, none, some, Option-cases, inl, inr, if◌then◌else◌,
  All, true, false, Bool,
}
use mathlib.Core.Path.{subst}
use v8h.Base.Outcome.{Outcome, ok}
use v8h.Base.Text.{bytes_of}
use v8h.Exports.Table.{IsConvertible}
use v8h.Realm.{Realm}
use v8h.Helper.Properties.{set_callback}
use v8h.Classes.{Class, Statics, implement_all, make_class, create, new_instance, global}
use v8h.Classes.Once.{global-first}
use v8h.Start.Shown.{Shows, Shows-then, IsGlobal}

module _ (r : Realm) where
  open r use {Value, World}

  -- What every step keeps, all of them keep.
  pub implement_all-keeps :
      (P : World → Type 0) (function : List ℕ → r.Callback) (target : Value)
      → ((w : World) (key : List ℕ) (c : r.Callback) → P w → P (set_callback r w target key c).1)
      → (names : List (List ℕ)) (w : World) → All IsConvertible names
      → P w
      → (w' : World) × (implement_all r function target names w ≡ ok w') × P w'
  unfolding implement_all
  implement_all-keeps P function target step [] w h p = (w, refl, p)
  implement_all-keeps P function target step (name ∷ names) w h p =
      let (key, found) = h.0 in
      let (w', run, p') =
        implement_all-keeps P function target step names
          (set_callback r w target key (function name)).1 h.1 (step w key (function name) p) in
      (w', rw found run, p')

  ok_world :
      {v v' : Value} {s s' : Statics r} {w w' : World}
      → ◌≡◌ {A = Outcome (Value × Statics r × World)} (ok (v, s, w)) (ok (v', s', w'))
      → (v ≡ v') × (w ≡ w')
  ok_world h = (cc, cc)

module _ (r : Realm) (object : r.Value) (Exists : r.World → Type 0)
    (g : IsGlobal r object Exists) where
  open r use {Value, World}

  set_callback-Shows :
      (start : World) (target : Value)
      → target ≢ object
      → (w : World) (key : List ℕ) (c : r.Callback) → Shows r object Exists start [] w
      → Shows r object Exists start [] (set_callback r w target key c).1
  set_callback-Shows start target ne w key c same =
      let (_, _, made, _) = g.make_function w c 0 same.0 in
      Shows-then r object Exists start [] [] (Shows-then r object Exists start [] [] same made)
        (g.set_another _ target _ key ne made.0)

  -- a table of functions on another object
  pub implement_all-Shows :
      (function : List ℕ → r.Callback) (target : Value) (names : List (List ℕ)) (w : World)
      → target ≢ object
      → All IsConvertible names
      → Exists w
      → (w' : World) × (implement_all r function target names w ≡ ok w')
        × Shows r object Exists w [] w'
  implement_all-Shows function target names w ne h e =
      implement_all-keeps r (Shows r object Exists w []) function target
        (set_callback-Shows w target ne) names w h (e, λ j. refl)

  either_target :
      (on : Bool) {p c : Value} → p ≢ object → c ≢ object → (if on then p else c) ≢ object
  either_target true a b = a
  either_target false a b = b

  module _ (k : Class r.Callback) (named : All IsConvertible k.functions)
      (total : (w : World) (f : Value)
        → (o : Value) × (w' : World) × (r.instantiate w f ≡ ok (o, w'))) where
    make_class-Shows :
        (w : World)
        → Exists w
        → (c : Value) × (w' : World) × (make_class r k w ≡ ok (c, w'))
          × (c ≢ object)
          × Shows r object Exists w [] w'
    unfolding make_class
    make_class-Shows w e =
        let (c, w₁) = r.make_function w k.constructor k.fields in
        let (p, w₂) = r.get w₁ c (r.symbol (bytes_of "prototype")) in
        let (other, other', _, same) = g.make_function w k.constructor k.fields e in
        let (w', run, more) =
          implement_all-Shows k.function (if k.on_prototype then r.to_object p else c) k.functions
            w₂ (either_target k.on_prototype other' other) named same.0 in
        (c, w', rw run, other, Shows-then r object Exists w [] [] same more)

    create-Shows :
        (s : Statics r) (w : World)
        → Exists w
        → (v : Value) × (s' : Statics r) × (w' : World) × (create r k s w ≡ ok (v, s', w'))
          × Shows r object Exists w [] w'
    unfolding create
    create-Shows s w e = elim (Option-cases s.function) [
      | inr (f, is) ↦ (f, s, w, rw is, (e, λ j. refl))
      | inl empty ↦
          let (c, w', run, _, same) = make_class-Shows w e in
          (c, record s { function = some c }, w', rw (empty, run), same)
    ]

    -- The first call makes another object than the global one.
    pub create-other :
        (s : Statics r) (w : World) {v : Value} {s' : Statics r} {w' : World}
        → s.function ≡ none
        → Exists w
        → create r k s w ≡ ok (v, s', w')
        → v ≢ object
    unfolding create
    create-other s w empty e run same =
        let (c, w'', run', other, _) = make_class-Shows w e in
        let made : create r k s w ≡ ok (c, record s { function = some c }, w'') =
          rw (empty, run') in
        other ((ok_world r (sym made ∙ run)).0 ∙ same)

    new_instance-Shows :
        (s : Statics r) (w : World)
        → Exists w
        → (v : Value) × (s' : Statics r) × (w' : World) × (new_instance r k s w ≡ ok (v, s', w'))
          × Shows r object Exists w [] w'
    unfolding new_instance
    new_instance-Shows s w e =
        let (f, s', w', run, same) = create-Shows s w e in
        let (o, w'', made) = total w' f in
        (
          o,
          s',
          w'',
          rw (run, made),
          Shows-then r object Exists w [] [] same (g.instantiate w' w'' f o made same.0),
        )

    global-Shows :
        (s : Statics r) (w : World)
        → Exists w
        → (v : Value) × (s' : Statics r) × (w' : World) × (global r k s w ≡ ok (v, s', w'))
          × Shows r object Exists w [] w'
    unfolding global
    global-Shows s w e = elim (Option-cases s.instance) [
      | inr (o, is) ↦ (o, s, w, rw is, (e, λ j. refl))
      | inl empty ↦
          let (o, s', w', run, same) = new_instance-Shows s w e in
          (o, record s' { instance = some o }, w', global-first r k named total s w empty run, same)
    ]

    pub create-run :
        (s : Statics r) (w : World) {v : Value} {s' : Statics r} {w' : World}
        → create r k s w ≡ ok (v, s', w')
        → Exists w
        → Shows r object Exists w [] w'
    create-run s w run e =
        let (_, _, _, run', same) = create-Shows s w e in
        subst (Shows r object Exists w []) (ok_world r (sym run' ∙ run)).1 same

    pub global-run :
        (s : Statics r) (w : World) {v : Value} {s' : Statics r} {w' : World}
        → global r k s w ≡ ok (v, s', w')
        → Exists w
        → Shows r object Exists w [] w'
    global-run s w run e =
        let (_, _, _, run', same) = global-Shows s w e in
        subst (Shows r object Exists w []) (ok_world r (sym run' ∙ run)).1 same
