-- ===== src/Classes/Once.antt =====
-- The static variables of `create` and `global`: what any sequence of calls makes of a class.
use v8h.Base.{
  ℕ, arith, ◌≡◌, refl, ap, List, [], ◌∷◌, none, some, inl, inr, if◌then◌else◌, All, Option-cases,
}
use v8h.Base.Outcome.{Outcome, ok, ◌>>=◌}
use v8h.Base.Text.{bytes_of}
use v8h.Exports.Table.{IsConvertible}
use v8h.Realm.{Realm}
use v8h.Helper.Properties.{set_callback}
use v8h.Classes.{
  Class, Statics, no_statics, implement_all, make_class, create, new_instance, global,
}

pub data Call : Type 0 where
  to_create to_new_instance to_global : Call

module _ (r : Realm) where
  pub implement_all_returns :
      (function : List ℕ → r.Callback) (target : r.Value) (names : List (List ℕ)) (w : r.World)
      → All IsConvertible names
      → (w' : r.World) × (implement_all r function target names w ≡ ok w')
  unfolding implement_all
  implement_all_returns function target [] w h = (w, refl)
  implement_all_returns function target (name ∷ names) w h =
      let (key, found) = h.0 in
      let (w', run) =
        implement_all_returns function target names (set_callback r w target key (function name)).1
          h.1 in
      (w', rw found run)

module _ (r : Realm) (k : Class r.Callback) where
  open r use {Value, World, instantiate}

  unfoldable pub call : Call → Statics r → World → Outcome (Value × Statics r × World)
  unfolding create new_instance global
  call to_create = create r k
  call to_new_instance = new_instance r k
  call to_global = global r k

  -- the calls with what each of them has returned
  unfoldable pub call_all :
      List Call → Statics r → World → Outcome (List (Call × Value) × Statics r × World)
  unfolding call
  call_all [] s w = ok ([], s, w)
  call_all (c ∷ calls) s w = call c s w >>= λ (v, s₁, w₁).
      call_all calls s₁ w₁ >>= λ (results, s₂, w₂). ok ((c, v) ∷ results, s₂, w₂)

  abbrev pub calls_of : List (Call × Value) → List Call
  calls_of [] = []
  calls_of (x ∷ results) = x.0 ∷ calls_of results

  -- an object that is an instance of the class's function
  abbrev pub IsInstance : Statics r → Value → Type 0
  IsInstance s v =
      (f : Value) × (w : World) × (w' : World) × (s.function ≡ some f)
      × (instantiate w f ≡ ok (v, w'))

  -- A result is what the static variable holds, and an object is an instance of the class.
  abbrev pub IsOnce : Statics r → Call × Value → Type 0
  IsOnce s (to_create, v) = s.function ≡ some v
  IsOnce s (to_new_instance, v) = IsInstance s v
  IsOnce s (to_global, v) = (s.instance ≡ some v) × IsInstance s v

  -- What a static variable holds stays there.
  abbrev pub Extends : Statics r → Statics r → Type 0
  Extends s s' =
      ((f : Value) → s.function ≡ some f → s'.function ≡ some f)
      × ((o : Value) → s.instance ≡ some o → s'.instance ≡ some o)

  -- The object of `global` is an instance.
  abbrev pub IsStatics : Statics r → Type 0
  IsStatics s = (o : Value) → s.instance ≡ some o → IsInstance s o

  IsInstance-Extends :
      {s s' : Statics r} (v : Value) → Extends s s' → IsInstance s v → IsInstance s' v
  IsInstance-Extends v e (f, w, w', is, run) = (f, w, w', e.0 f is, run)

  IsOnce-Extends : {s s' : Statics r} (x : Call × Value) → Extends s s' → IsOnce s x → IsOnce s' x
  IsOnce-Extends (to_create, v) e h = e.0 v h
  IsOnce-Extends (to_new_instance, v) e h = IsInstance-Extends v e h
  IsOnce-Extends (to_global, v) e h = (e.1 v h.0, IsInstance-Extends v e h.1)

  -- A call returns; static variables that held something still hold it.
  abbrev pub Runs :
      (Statics r → Value → Type 0) → Outcome (Value × Statics r × World) → Statics r → Type 0
  Runs P m s =
      (v : Value) × (s' : Statics r) × (w' : World) × (m ≡ ok (v, s', w'))
      × Extends s s'
      × IsStatics s'
      × P s' v

  module _ (named : All IsConvertible k.functions)
      (total : (w : World) (f : Value)
        → (o : Value) × (w' : World) × (instantiate w f ≡ ok (o, w'))) where
    make_class_returns : (w : World) → (c : Value) × (w' : World) × (make_class r k w ≡ ok (c, w'))
    unfolding make_class
    make_class_returns w =
        let (c, w₁) = r.make_function w k.constructor k.fields in
        let (p, w₂) = r.get w₁ c (r.symbol (bytes_of "prototype")) in
        let target = if k.on_prototype then r.to_object p else c in
        let (w', run) = implement_all_returns r k.function target k.functions w₂ named in
        (c, w', rw run)

    pub create-Runs :
        (s : Statics r) (w : World)
        → IsStatics s
        → Runs (λ s' v. s'.function ≡ some v) (create r k s w) s
    unfolding create
    create-Runs s w h = elim (Option-cases s.function) [
      | inr (f, is) ↦ (f, s, w, rw is, ((λ _ e. e), λ _ e. e), h, is)
      | inl empty ↦
          let (c, w', run) = make_class_returns w in
          let s' : Statics r = record s { function = some c } in
          let e : Extends s s' = ((λ _ e. cc), λ _ e. e) in
          (c, s', w', rw (empty, run), e, (λ o is. IsInstance-Extends o e (h o is)), refl)
    ]

    new_instance-Runs :
        (s : Statics r) (w : World) → IsStatics s → Runs IsInstance (new_instance r k s w) s
    unfolding new_instance
    new_instance-Runs s w h =
        let (f, s', w', run, e, valid, is) = create-Runs s w h in
        let (o, w'', made) = total w' f in
        (o, s', w'', rw (run, made), e, valid, (f, w', w'', is, made))

    pub global-first :
        (s : Statics r) {s' : Statics r} {o : Value} (w : World) {w' : World}
        → s.instance ≡ none
        → new_instance r k s w ≡ ok (o, s', w')
        → global r k s w ≡ ok (o, record s' { instance = some o }, w')
    unfolding global
    global-first s w empty run = ground arith

    pub global-Runs :
        (s : Statics r) (w : World)
        → IsStatics s
        → Runs (λ s' v. (s'.instance ≡ some v) × IsInstance s' v) (global r k s w) s
    unfolding global
    global-Runs s w h = elim (Option-cases s.instance) [
      | inr (o, is) ↦ (o, s, w, rw is, ((λ _ e. e), λ _ e. e), h, (is, h o is))
      | inl empty ↦
          let (o, s', w', run, e, valid, made) = new_instance-Runs s w h in
          let s'' : Statics r = record s' { instance = some o } in
          let e' : Extends s s'' = (e.0, λ _ e. cc) in
          (
            o,
            s'',
            w',
            global-first s w empty run,
            e',
            (λ o' is. let same : o' ≡ o = cc in rw same made),
            (refl, made),
          )
    ]

    call-Runs :
        (c : Call) (s : Statics r) (w : World)
        → IsStatics s
        → Runs (λ s' v. IsOnce s' (c, v)) (call c s w) s
    unfolding call
    call-Runs to_create = create-Runs
    call-Runs to_new_instance = new_instance-Runs
    call-Runs to_global = global-Runs

    call_all-Runs :
        (calls : List Call) (s : Statics r) (w : World)
        → IsStatics s
        → (results : List (Call × Value)) × (s' : Statics r) × (w' : World) × (call_all calls s w
            ≡ ok (results, s', w'))
          × (calls_of results ≡ calls)
          × Extends s s'
          × All (IsOnce s') results
    unfolding call_all
    call_all-Runs [] s w h = ([], s, w, refl, refl, ((λ _ e. e), λ _ e. e), tt)
    call_all-Runs (c ∷ calls) s w h =
        let (v, s₁, w₁, run, e, valid, once) = call-Runs c s w h in
        let (results, s₂, w₂, runs, all, e', onces) = call_all-Runs calls s₁ w₁ valid in
        (
          (c, v) ∷ results,
          s₂,
          w₂,
          rw (run, runs),
          ap (λ l. c ∷ l) all,
          ((λ f is. e'.0 f (e.0 f is)), λ o is. e'.1 o (e.1 o is)),
          (IsOnce-Extends (c, v) e' once, onces),
        )

    -- For a class whose functions have names that `underline_to_camel` has room for, and where
    -- `NewInstance` does not fail: any sequence of calls of `create`, `new_instance` and `global` in a program that has just started returns
    -- a result for each. All results of `create` are one function and all results of `global` one object,
    -- those that the static variables hold at the end; and every object is an instance of that function.
    pub call_all-IsOnce :
        (calls : List Call) (w : World)
        → (results : List (Call × Value)) × (s' : Statics r) × (w' : World) × (call_all calls
              (no_statics r)
              w
            ≡ ok (results, s', w'))
          × (calls_of results ≡ calls)
          × All (IsOnce s') results
    call_all-IsOnce calls w =
        let (results, s', w', run, all, _, once) =
          call_all-Runs calls (no_statics r) w (λ o e. cc) in
        (results, s', w', run, all, once)
