-- ===== src/Classes/Tests.antt =====
-- The classes in a small realm.
use v8h.Base.{ℕ, ◌≤◌, ◌≡◌, refl, List, [], ◌∷◌, Option, none, some, All, arith, length}
use v8h.Base.Outcome.{Outcome, ok}
use v8h.Base.Text.{bytes_of, text_eq, text_eq-false}
use v8h.Algorithm.{underline_to_camel}
use v8h.Algorithm.Names.{IsLower}
use v8h.Exports.Keys.{file_functions-IsConvertible}
use v8h.Exports.Table.{IsName}
use v8h.Realm.Samples.{
  Js, object, name, World, Callback, realm, empty_world, calls, Lives, realm-IsRealm, get_property,
}
use v8h.Classes.{
  Class, Statics, no_statics, buffer_class, file_class, create, implement_all, make_class,
}
use v8h.Classes.Once.{
  Call, to_create, to_new_instance, to_global, call_all, calls_of, IsOnce, call_all-IsOnce,
}
use v8h.Classes.Lookup.{class_function, class_target, create-finds}

abbrev callback : List ℕ → List ℕ → Callback
callback class function = (class, function)

abbrev file : Class Callback
file = file_class callback

abbrev found : Outcome (Js × Statics realm × World) → ℕ → List ℕ → Option Callback
found (ok (v, s, w)) n key = calls w (get_property w (object n) (name key)).0
found _ n key = none

-- `Buffer.prototype.partialFindBuffer`
buffer_method :
    found
      (create realm (buffer_class callback) (no_statics realm) empty_world)
      1
      (bytes_of "partialFindBuffer")
    ≡ some (bytes_of "Buffer", bytes_of "partial_find_buffer")
unfolding create implement_all make_class text_eq underline_to_camel
buffer_method = refl

one_word : (w : List ℕ) → IsLower w → length w ≤ 511 → IsName w
one_word w h room = record {
  leading = 0;
  word = w;
  words = [];
  spelled = refl;
  lower = h;
  all_lower = tt;
  short = omega arith;
}

file-IsName : All IsName file.functions
file-IsName = (
  one_word (bytes_of "dirname") (ground arith) (omega arith),
  (
    one_word (bytes_of "read") (ground arith) (omega arith),
    (
      one_word (bytes_of "realpath") (ground arith) (omega arith),
      (
        one_word (bytes_of "readable") (ground arith) (omega arith),
        (
          one_word (bytes_of "writable") (ground arith) (omega arith),
          (
            one_word (bytes_of "executable") (ground arith) (omega arith),
            (one_word (bytes_of "exists") (ground arith) (omega arith), tt),
          ),
        ),
      ),
    ),
  ),
)

create-finds_example :
    (w' : World) × (key : List ℕ) × (create realm file (no_statics realm) empty_world
      ≡ ok (
        (class_function realm Lives calls realm-IsRealm file empty_world).0,
        record (no_statics realm) {
          function = some (class_function realm Lives calls realm-IsRealm file empty_world).0;
        },
        w',
      ))
    × (underline_to_camel (bytes_of "realpath") ≡ ok key)
    × (calls w'
          (get_property w'
            (class_target realm Lives calls realm-IsRealm file empty_world)
            (name key)).0
        ≡ some (bytes_of "File", bytes_of "realpath"))
unfolding text_eq
create-finds_example =
    create-finds realm Lives calls realm-IsRealm file empty_world
      (bytes_of "dirname" ∷ bytes_of "read" ∷ [])
      (bytes_of "readable" ∷ bytes_of "writable" ∷ bytes_of "executable" ∷ bytes_of "exists" ∷ [])
      (bytes_of "realpath") refl file-IsName
      (
        (text_eq-false _ _ refl),
        ((text_eq-false _ _ refl), ((text_eq-false _ _ refl), ((text_eq-false _ _ refl), tt))),
      )

call_all-IsOnce_example :
    let calls = to_global ∷ to_create ∷ to_new_instance ∷ to_global ∷ [] in
    (results : List (Call × Js)) × (s' : Statics realm) × (w' : World) × (call_all realm file calls
        (no_statics realm)
        empty_world
      ≡ ok (results, s', w'))
    × (calls_of realm file results ≡ calls)
    × All (IsOnce realm file s') results
call_all-IsOnce_example =
    call_all-IsOnce realm file file_functions-IsConvertible (λ w f. (_, _, refl))
      (to_global ∷ to_create ∷ to_new_instance ∷ to_global ∷ []) empty_world
