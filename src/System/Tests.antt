-- ===== src/System/Tests.antt =====
-- `require` of src/system.cc in a small runtime.
use v8h.Base.{ℕ, ◌≡◌, refl, List, [], ◌∷◌, ◌++◌, some, none, Option, arith}
use v8h.Base.Outcome.{ok}
use v8h.Buffer.Samples.{zeros}
use v8h.Stdio.Samples.{files, files-IsReliable}
use v8h.System.{Runtime, script_header, script_footer, require}
use v8h.System.Require.{require-run}

-- A value is a text; the world is `$currentDir` and what has been thrown or written. A script
-- exports its own text.
record Globals : Type 0 where
  current_dir : List ℕ
  messages : List (List ℕ)

module _ (compile : List ℕ → List ℕ → Option (List ℕ)) where
  abbrev runtime : Runtime
  runtime = record {
    Value = List ℕ;
    Script = List ℕ;
    World = Globals;
    get_current_dir = λ w. w.current_dir;
    set_current_dir = λ w dir. record w { current_dir = dir };
    new_string = λ text. text;
    compile = λ w source filename. compile source filename;
    run = λ w script. (some script, w);
    throw_error = λ w text. record w { messages = text ∷ w.messages };
    error_text = λ w. 63 ∷ [];
    dirname_in_place = λ path. 46 ∷ [];
    errno = λ w. 2;
    low_memory = λ w. w;
    undefined = [];
    new_int = λ n. n ∷ [];
    utf8_value = λ v. v;
    output = λ w text. record w { messages = text ∷ w.messages };
  }

abbrev compiles : Runtime
compiles = runtime (λ source filename. some source)

abbrev refuses : Runtime
refuses = runtime (λ source filename. none)

abbrev globals : Globals
globals = record { current_dir = 47 ∷ []; messages = [] }

-- "x", which exports itself between the header and the footer; `$currentDir` is "/" again.
require-run_example :
    require compiles zeros files globals (120 ∷ [])
    ≡ ok (some (script_header ++ (120 ∷ script_footer)), globals)
require-run_example =
    require-run zeros compiles files (λ f. f) files-IsReliable globals (120 ∷ []) (120 ∷ []) refl
      (omega arith) (script_header ++ (120 ∷ script_footer)) refl
