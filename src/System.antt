-- ===== src/System.antt =====
-- src/system.cc: the class `System`, and `raise` of src/error.cc. V8 and the C library are parameters.
pub mod Require
mod Tests
use v8h.Base.{
  ℕ, suc, ◌+◌, List, [], ◌∷◌, ◌++◌, Option, none, some, leb, if◌then◌else◌, length, get_or,
}
use v8h.Base.Memory.{peek}
use v8h.Base.Outcome.{Outcome, ok, fault, ◌>>=◌}
use v8h.Base.Text.{bytes_of}
use v8h.Heap.{c_text}
use v8h.Buffer
use v8h.Buffer.{Buffer}
use v8h.Stdio
use v8h.Stdio.{Stdio}

-- The JavaScript engine with its global object, and what else the functions call.
pub record Runtime : Type 1 where
  pub Value : Type 0
  pub Script : Type 0
  pub World : Type 0
  -- the property `$currentDir` of the global object
  pub get_current_dir : World → Value
  pub set_current_dir : World → Value → World
  pub new_string : List ℕ → Value
  -- `Script::New` of a source and a file name, which has no result for a source that is not
  -- well-formed; and `Run`, with the exports or an empty handle if the script throws
  pub compile : World → List ℕ → List ℕ → Option Script
  pub run : World → Script → Option Value × World
  -- `ThrowException` of an `Error` with this text
  pub throw_error : World → List ℕ → World
  -- `strerror(errno)`
  pub error_text : World → List ℕ
  -- what `dirname` leaves in the memory that it is given
  pub dirname_in_place : List ℕ → List ℕ
  pub errno : World → ℕ
  -- `V8::LowMemoryNotification`
  pub low_memory : World → World
  pub undefined : Value
  pub new_int : ℕ → Value
  -- `String::Utf8Value`
  pub utf8_value : Value → List ℕ
  -- the standard output
  pub output : World → List ℕ → World

abbrev path_max : ℕ
path_max = 4096

-- the size of the memory that `raise` formats a message to
abbrev message_size : ℕ
message_size = 512

abbrev pub script_header : List ℕ
script_header = bytes_of "(function(){;exports={};"

abbrev pub script_footer : List ℕ
script_footer = bytes_of ";return exports;}).call(this);"

module _ (rt : Runtime) where
  open rt use {
    Value, Script, World, get_current_dir, set_current_dir, new_string, compile, throw_error,
    error_text, dirname_in_place, output, run as run_script, errno, low_memory, undefined, new_int,
    utf8_value,
  }

  -- `System::dirname` copies the path with its NUL to static memory, and returns that, whatever the
  -- result of the C function is.
  unfoldable pub dirname : List ℕ → Outcome (List ℕ)
  dirname filename =
      if leb (length filename + 1) path_max then ok (dirname_in_place filename) else fault

  -- `raise`, where the message has been put together: `vsprintf` has no bound.
  unfoldable pub raise : World → List ℕ → Outcome (Option Value × World)
  raise w message =
      if leb (length message + 1) message_size then ok (none, throw_error w message) else fault

  abbrev pub open_failed : World → List ℕ → List ℕ
  open_failed w filename =
      bytes_of "open file " ++ (filename ++ (bytes_of " failed: " ++ error_text w))

  abbrev pub read_failed : World → List ℕ → List ℕ
  read_failed w filename =
      bytes_of "read file " ++ (filename ++ (bytes_of " failed: " ++ error_text w))

  -- The member of an empty handle is out of reach.
  unfoldable pub run_compiled : Option Script → World → Outcome (Option Value × World)
  run_compiled none w = fault
  run_compiled (some script) w = ok (run_script w script)

  -- `require` from `oldDir` on, with the script's text
  unfoldable pub run_in_dir : World → List ℕ → List ℕ → Outcome (Option Value × World)
  run_in_dir w filename source = do
    let old_dir = get_current_dir w
    dir ← dirname filename
    let w' = set_current_dir w (new_string dir)
    (result, w'') ← run_compiled (compile w' source filename) w'
    ok (result, set_current_dir w'' old_dir)

  module _ (fresh : ℕ → ℕ) (io : Stdio) where
    -- the buffer when the file has been read, and the stream
    unfoldable pub load : io.Stream → Outcome (io.Stream × Buffer)
    load file = do
      buffer ← Buffer.write_text fresh (Buffer.clear (Buffer.new fresh 1024)) script_header
      (buffer', dest) ← Buffer.prepare fresh buffer 4096
      Stdio.read_rest io dest file buffer'

    unfoldable pub require_stream : World → List ℕ → io.Stream → Outcome (Option Value × World)
    require_stream w filename file = do
      (file', buffer) ← load file
      let failed = raise w (read_failed w filename)
      let rest = Buffer.write_text fresh buffer script_footer >>= λ buffer'.
          peek buffer'.block buffer'.cursor buffer'.size >>= λ source. run_in_dir w filename source
      if io.ferror file' then failed else rest

    -- `System::require`: the exports, or an empty handle after an exception
    unfoldable pub require : World → List ℕ → Outcome (Option Value × World)
    require w filename = elim (io.fopen filename) [
      | none ↦ raise w (open_failed w filename)
      | some file ↦ require_stream w filename file
    ]

    -- `_require`: the file name ends at the first NUL of the first argument's text.
    unfoldable pub require_function : World → List Value → Outcome (Option Value × World)
    unfolding require
    require_function w args = require w (c_text (utf8_value (get_or args 0 undefined)))

  unfoldable pub force_gc : World → Value × World
  force_gc w = (undefined, low_memory w)

  -- the getters of `$systemError` and `$systemErrno`
  unfoldable pub get_system_error : World → Value
  get_system_error w = new_string (error_text w)

  unfoldable pub get_system_errno : World → Value
  get_system_errno w = new_int (errno w)

  -- `puts` writes each argument and a newline, `print` each argument.
  unfoldable pub puts : World → List (List ℕ) → World
  puts w [] = w
  puts w (text ∷ args) = puts (output w (text ++ (10 ∷ []))) args

  unfoldable pub print : World → List (List ℕ) → World
  print w [] = w
  print w (text ∷ args) = print (output w text) args
