-- ===== src/Realm/Samples.antt =====
-- A small realm for the tests: objects with properties under texts, functions with a prototype each.
use v8h.Base.{
  ℕ, suc, ◌+◌, ◌<◌, ◌≡◌, ◌≢◌, refl, List, [], ◌∷◌, ◌&&◌, Option, none, some, ◌==◌, eq→==,
  if◌then◌else◌, arith,
}
use v8h.Base.Outcome.{ok}
use v8h.Base.Text.{bytes_of, text_eq, text_eq_refl, text_eq-ne}
use v8h.Realm.{Realm, IsRealm}

pub data Js : Type 0 where
  undefined : Js
  object : ℕ → Js
  name : List ℕ → Js
  number : ℕ → Js

-- the class and the name of a function of C++
abbrev pub Callback : Type 0
Callback = List ℕ × List ℕ

pub record World : Type 0 where
  pub next : ℕ
  pub slot : ℕ → List ℕ → Js
  pub callback : ℕ → Option Callback

abbrev pub empty_world : World
empty_world = record { next = 0; slot = λ n k. undefined; callback = λ n. none }

abbrev update : (ℕ → List ℕ → Js) → ℕ → List ℕ → Js → ℕ → List ℕ → Js
update slot n k v m j = if m == n && text_eq j k then v else slot m j

abbrev pub get_property : World → Js → Js → Js × World
get_property w (object n) (name k) = (w.slot n k, w)
get_property w _ _ = (undefined, w)

abbrev pub set_property : World → Js → Js → Js → World
set_property w (object n) (name k) v = record w { slot = update w.slot n k v }
set_property w _ _ v = w

abbrev pub new_function : World → Callback → ℕ → Js × World
new_function w c fields =
    let n = w.next in
    (
      object n,
      record {
        next = n + 2;
        slot = update w.slot n (bytes_of "prototype") (object (n + 1));
        callback = λ m. if m == n then some c else w.callback m;
      },
    )

-- an object without properties
abbrev pub another : World → Js × World
another w = (object w.next, record w { next = suc w.next })

abbrev number_of : Js → ℕ
number_of (number n) = n
number_of (object n) = 0
number_of (name k) = 0
number_of undefined = 0

abbrev pub realm : Realm
realm = record {
  Value = Js;
  World = World;
  Callback = Callback;
  get = get_property;
  set = set_property;
  set_index = λ w o n v. set_property w o (name (n ∷ [])) v;
  set_accessor = λ w o k getter setter. w;
  symbol = name;
  make_function = new_function;
  instantiate = λ w f. ok (another w);
  to_object = λ v. v;
  int32_value = number_of;
  uint32_value = number_of;
  new_int = number;
  new_string = name;
  wrap_pointer = number;
  new_object = another;
  new_array = another;
}

abbrev pub Lives : World → Js → Type 0
Lives w (object n) = n < w.next
Lives w (name k) = ⊥
Lives w (number n) = ⊥
Lives w undefined = ⊥

abbrev pub calls : World → Js → Option Callback
calls w (object n) = w.callback n
calls w (name k) = none
calls w (number n) = none
calls w undefined = none

get-set :
    (w : World) (o v : Js) (k : List ℕ)
    → Lives w o
    → (get_property (set_property w o (name k) v) o (name k)).0 ≡ v
get-set w (object n) v k h = rw (eq→== n n refl, text_eq_refl k)
get-set w (name j) v k h = absurd h
get-set w (number n) v k h = absurd h
get-set w undefined v k h = absurd h

get-set_other :
    (w : World) (o v : Js) (k j : List ℕ)
    → Lives w o
    → j ≢ k
    → (get_property (set_property w o (name k) v) o (name j)).0 ≡ (get_property w o (name j)).0
get-set_other w (object n) v k j h ne = rw (eq→== n n refl, text_eq-ne j k ne)
get-set_other w (name i) v k j h ne = absurd h
get-set_other w (number n) v k j h ne = absurd h
get-set_other w undefined v k j h ne = absurd h

Lives-set :
    (w : World) (o v x : Js) (k : List ℕ) → Lives w x → Lives (set_property w o (name k) v) x
Lives-set w (object n) v x k h = h
Lives-set w (name j) v x k h = h
Lives-set w (number n) v x k h = h
Lives-set w undefined v x k h = h

calls-set :
    (w : World) (o v x : Js) (k : List ℕ) → calls (set_property w o (name k) v) x ≡ calls w x
calls-set w (object n) v x k = refl
calls-set w (name j) v x k = refl
calls-set w (number n) v x k = refl
calls-set w undefined v x k = refl

get-make_function :
    (w : World) (o : Js) (k : List ℕ) (c : Callback) (fields : ℕ)
    → Lives w o
    → (get_property (new_function w c fields).1 o (name k)).0 ≡ (get_property w o (name k)).0
get-make_function w (object n) k c fields h = ground arith
get-make_function w (name j) k c fields h = absurd h
get-make_function w (number n) k c fields h = absurd h
get-make_function w undefined k c fields h = absurd h

Lives-make_function :
    (w : World) (x : Js) (c : Callback) (fields : ℕ)
    → Lives w x
    → Lives (new_function w c fields).1 x
Lives-make_function w (object n) c fields h = omega arith
Lives-make_function w (name j) c fields h = h
Lives-make_function w (number n) c fields h = h
Lives-make_function w undefined c fields h = h

calls-make_function :
    (w : World) (x : Js) (c : Callback) (fields : ℕ)
    → Lives w x
    → calls (new_function w c fields).1 x ≡ calls w x
calls-make_function w (object n) c fields h = ground arith
calls-make_function w (name j) c fields h = absurd h
calls-make_function w (number n) c fields h = absurd h
calls-make_function w undefined c fields h = absurd h

Lives-get : (w : World) (o k x : Js) → Lives w x → Lives (get_property w o k).1 x
Lives-get w (object n) (name k) x h = h
Lives-get w _ _ x h = h

pub realm-IsRealm : IsRealm realm Lives calls
realm-IsRealm = record {
  get-set = get-set;
  get-set_other = get-set_other;
  Lives-set = Lives-set;
  calls-set = calls-set;
  get-make_function = get-make_function;
  Lives-make_function = Lives-make_function;
  calls-make_function = calls-make_function;
  Lives-get = Lives-get;
  made = λ w c fields. (omega arith, ground arith);
  prototype = λ w c fields.
      rw (eq→== w.next w.next refl, text_eq_refl (bytes_of "prototype")) (omega arith);
}
