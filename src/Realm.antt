-- ===== src/Realm.antt =====
-- The objects of V8 and their properties, which src/v8h_helper.h and src/v8h.h use: no part of the
-- repository, and so parameters, with what is documented of them.
pub mod Samples
use v8h.Base.{ℕ, ◌≡◌, ◌≢◌, List, Option, none, some}
use v8h.Base.Outcome.{Outcome}
use v8h.Base.Text.{bytes_of}

-- Values, with the objects and functions among them; what stands behind them; and what C++ gives to V8
-- to be called.
pub record Realm : Type 1 where
  pub Value : Type 0
  pub World : Type 0
  pub Callback : Type 0
  -- `Get` may call JavaScript, and so may `Set`.
  pub get : World → Value → Value → Value × World
  pub set : World → Value → Value → Value → World
  -- `Set` with a number for a name
  pub set_index : World → Value → ℕ → Value → World
  -- `SetAccessor` with a getter and, perhaps, a setter
  pub set_accessor : World → Value → Value → Callback → Option Callback → World
  -- `String::NewSymbol`
  pub symbol : List ℕ → Value
  -- `FunctionTemplate::New` and `GetFunction`: a function that calls this back. Its instances have so
  -- many internal fields.
  pub make_function : World → Callback → ℕ → Value × World
  -- `NewInstance`, and the result of a function's constructor on it
  pub instantiate : World → Value → Outcome (Value × World)
  pub to_object : Value → Value
  pub int32_value : Value → ℕ
  pub uint32_value : Value → ℕ
  pub new_int : ℕ → Value
  -- `String::New` and `External::Wrap`
  pub new_string : List ℕ → Value
  pub wrap_pointer : ℕ → Value
  -- `Object::New` and `Array::New`
  pub new_object : World → Value × World
  pub new_array : World → Value × World

-- Which objects have been made, and what a function calls back.
pub record IsRealm (r : Realm) (Lives : r.World → r.Value → Type 0)
    (calls : r.World → r.Value → Option r.Callback) : Type 0 where
  -- a property after it has been set, and any other
  pub get-set :
      (w : r.World) (o v : r.Value) (k : List ℕ)
      → Lives w o
      → (r.get (r.set w o (r.symbol k) v) o (r.symbol k)).0 ≡ v
  pub get-set_other :
      (w : r.World) (o v : r.Value) (k j : List ℕ)
      → Lives w o
      → j ≢ k
      → (r.get (r.set w o (r.symbol k) v) o (r.symbol j)).0 ≡ (r.get w o (r.symbol j)).0
  pub Lives-set :
      (w : r.World) (o v x : r.Value) (k : List ℕ) → Lives w x → Lives (r.set w o (r.symbol k) v) x
  pub calls-set :
      (w : r.World) (o v x : r.Value) (k : List ℕ) → calls (r.set w o (r.symbol k) v) x ≡ calls w x
  -- A new function leaves what has been there before.
  pub get-make_function :
      (w : r.World) (o : r.Value) (k : List ℕ) (c : r.Callback) (fields : ℕ)
      → Lives w o
      → (r.get (r.make_function w c fields).1 o (r.symbol k)).0 ≡ (r.get w o (r.symbol k)).0
  pub Lives-make_function :
      (w : r.World) (x : r.Value) (c : r.Callback) (fields : ℕ)
      → Lives w x
      → Lives (r.make_function w c fields).1 x
  pub calls-make_function :
      (w : r.World) (x : r.Value) (c : r.Callback) (fields : ℕ)
      → Lives w x
      → calls (r.make_function w c fields).1 x ≡ calls w x
  pub Lives-get : (w : r.World) (o k x : r.Value) → Lives w x → Lives (r.get w o k).1 x
  -- what a new function calls, and its prototype
  pub made :
      (w : r.World) (c : r.Callback) (fields : ℕ)
      → let (f, w') = r.make_function w c fields in Lives w' f × (calls w' f ≡ some c)
  pub prototype :
      (w : r.World) (c : r.Callback) (fields : ℕ)
      → let (f, w₁) = r.make_function w c fields in
        let (p, w₂) = r.get w₁ f (r.symbol (bytes_of "prototype")) in Lives w₂ (r.to_object p)
