-- ===== src/Classes.antt =====
-- How the classes become functions of JavaScript: `create`, `new_instance` and `global`, which the macros
-- V8H_CREATE_START, V8H_CREATE_START_WITH_INTERNAL_FIELD, V8H_CREATE_END, V8H_IMPLEMENT and
-- V8H_STATIC_IMPLEMENT of src/v8h.h, and V8H_IMPORT_NEW_INSTANCE_WITH_CLASS and
-- V8H_IMPORT_GLOBAL_WITH_CLASS of src/v8h_import.h make for each of them. V8 is a parameter.
pub mod Init
pub mod Once
pub mod Lookup
mod Tests
use v8h.Base.{ℕ, List, [], ◌∷◌, Bool, true, false, Option, none, some, if◌then◌else◌}
use v8h.Base.Outcome.{Outcome, ok, ◌>>=◌}
use v8h.Base.Text.{bytes_of}
use v8h.Algorithm.{underline_to_camel}
use v8h.Exports.{buffer_functions, service_functions, socket_functions, file_functions}
use v8h.Realm.{Realm}
use v8h.Helper.Properties.{set_callback, get_obj_symbol}

-- A class of C++: its constructor, the internal fields of its objects, and its functions, which are set
-- on the prototype or, as static ones, on the constructor's function.
pub record Class (Callback : Type 0) : Type 0 where
  pub constructor : Callback
  pub fields : ℕ
  pub on_prototype : Bool
  pub functions : List (List ℕ)
  pub function : List ℕ → Callback

-- The classes, where `callback` has the function of a class.
module _ {Callback : Type 0} (callback : List ℕ → List ℕ → Callback) where
  abbrev class_of : List ℕ → ℕ → Bool → List (List ℕ) → Class Callback
  class_of name fields on_prototype functions = record {
    constructor = callback name (bytes_of "constructor");
    fields = fields;
    on_prototype = on_prototype;
    functions = functions;
    function = callback name;
  }

  abbrev pub buffer_class : Class Callback
  buffer_class = class_of (bytes_of "Buffer") 1 true buffer_functions

  abbrev pub service_class : Class Callback
  service_class = class_of (bytes_of "Service") 1 true service_functions

  abbrev pub socket_class : Class Callback
  socket_class = class_of (bytes_of "Socket") 0 false socket_functions

  abbrev pub file_class : Class Callback
  file_class = class_of (bytes_of "File") 0 false file_functions

  abbrev pub console_class : Class Callback
  console_class = class_of (bytes_of "Console") 0 false []

  abbrev pub config_class : Class Callback
  config_class = class_of (bytes_of "Config") 0 false []

module _ (r : Realm) where
  open r use {Value, World, Callback, make_function, instantiate}

  -- the static variables: `function` of `create`, and `name` of `global`
  pub record Statics : Type 0 where
    pub function : Option Value
    pub instance : Option Value

  abbrev pub no_statics : Statics
  no_statics = record { function = none; instance = none }

  -- Each name after the other, on one object
  unfoldable pub implement_all : (List ℕ → Callback) → Value → List (List ℕ) → World → Outcome World
  implement_all function target [] w = ok w
  implement_all function target (name ∷ names) w = underline_to_camel name >>= λ key.
      implement_all function target names (set_callback r w target key (function name)).1

  -- `create` the first time
  unfoldable pub make_class : Class Callback → World → Outcome (Value × World)
  unfolding implement_all
  make_class k w =
      let (c, w₁) = make_function w k.constructor k.fields in
      let (p, w₂) = get_obj_symbol r w₁ c (bytes_of "prototype") in
      implement_all k.function (if k.on_prototype then p else c) k.functions w₂ >>= λ w₃. ok (c, w₃)

  module _ (k : Class Callback) where
    unfoldable pub create : Statics → World → Outcome (Value × Statics × World)
    unfolding make_class
    create s w = elim s.function [
      | some function ↦ ok (function, s, w)
      | none ↦ make_class k w >>= λ (c, w'). ok (c, record s { function = some c }, w')
    ]

    unfoldable pub new_instance : Statics → World → Outcome (Value × Statics × World)
    unfolding create
    new_instance s w = create s w >>= λ (function, s', w').
        instantiate w' function >>= λ (object, w''). ok (object, s', w'')

    unfoldable pub global : Statics → World → Outcome (Value × Statics × World)
    unfolding new_instance
    global s w = elim s.instance [
      | some object ↦ ok (object, s, w)
      | none ↦ new_instance s w >>= λ (object, s', w').
          ok (object, record s' { instance = some object }, w')
    ]
