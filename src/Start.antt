-- ===== src/Start.antt =====
-- src/v8h.cc: where the program finds its scripts, and what it sets before it runs the first one. V8 and
-- the C library are parameters.
pub mod Paths
pub mod Setup
pub mod Shown
pub mod Frame
pub mod Begin
pub mod Given
pub mod Shared
mod Tests
use v8h.Base.{
  ℕ, ◌+◌, List, [], ◌∷◌, ◌++◌, Bool, Option, none, some, leb, ◌==◌, if◌then◌else◌, length, take,
  tabulate,
}
use v8h.Base.Memory.{poke}
use v8h.Base.Outcome.{Outcome, ok, fault, ◌>>=◌}
use v8h.Base.Text.{bytes_of}
use v8h.Heap.{until_zero}

-- `PATH_MAX`
abbrev pub path_max : ℕ
path_max = 4096

-- what the global object gets
pub data Global : Type 0 where
  working_dir : List ℕ → Global
  include_path : List (List ℕ) → Global
  argv : List (List ℕ) → Global
  the_global c console service socket file buffer temp_buffer : Global

abbrev pub Globals : Type 0
Globals = List (List ℕ × Global)

pub record Machine : Type 1 where
  pub World : Type 0
  -- where "/proc/<pid>/exe" points to, if `readlink` does not fail
  pub exe_link : World → Option (List ℕ)
  -- the text that `dirname` returns
  pub dirname : List ℕ → List ℕ
  -- whether `realpath` finds the path, and the text that it leaves in the memory it is given
  pub realpath : World → List ℕ → Bool × List ℕ
  pub getcwd : World → Option (List ℕ)
  pub puts : World → List ℕ → World
  -- `System::require` with these globals, and the stack trace of what it throws
  pub require : World → Globals → List ℕ → Option (List ℕ) × World

-- memory that a call fills, or leaves as it was
abbrev pub filled : Option (List ℕ) → List ℕ → List ℕ
filled none before = before
filled (some text) before = text

module _ (m : Machine) where
  open m use {World, exe_link, dirname, realpath, getcwd, require, puts as print_line}

  -- `readlink` stores the path without a NUL behind it, in memory that is not initialized (`stale`).
  unfoldable pub bin_path : (ℕ → ℕ) → World → Outcome (List ℕ)
  bin_path stale w =
      let link : List ℕ = elim (exe_link w) [ none ↦ [] | some link ↦ take path_max link ] in
      poke (tabulate stale 0 path_max) 0 link >>= λ block. until_zero block

  -- `strcpy` to memory of `PATH_MAX` bytes, behind what stands there
  abbrev pub copy_behind : List ℕ → List ℕ → Outcome (List ℕ)
  copy_behind dir name =
      if leb (length dir + length name + 1) path_max then ok (dir ++ name) else fault

  unfoldable pub get_bin_dir : (ℕ → ℕ) → World → Outcome (List ℕ)
  unfolding bin_path
  get_bin_dir stale w = bin_path stale w >>= λ path. copy_behind [] (dirname path)

  -- The path is returned whether `realpath` has found it or not.
  unfoldable pub get_module_file : World → List ℕ → List ℕ → Outcome (List ℕ)
  get_module_file w dir filename = copy_behind dir filename >>= λ file. ok (realpath w file).1

  -- The globals, when the script's path, the arguments and the two paths are known.
  abbrev pub globals : List (List ℕ) → List ℕ → List (List ℕ) → Globals
  globals include working arguments =
      (bytes_of "$workingDir", working_dir working)
      ∷ (bytes_of "global", the_global)
      ∷ (bytes_of "$includePath", include_path include)
      ∷ (bytes_of "c", c)
      ∷ (bytes_of "$argv", argv arguments)
      ∷ (bytes_of "$config", console)
      ∷ (bytes_of "service", service)
      ∷ (bytes_of "console", console)
      ∷ (bytes_of "Socket", socket)
      ∷ (bytes_of "File", file)
      ∷ (bytes_of "Buffer", buffer)
      ∷ (bytes_of "tempBuffer", temp_buffer)
      ∷ []

  -- The stack trace of an exception is printed.
  abbrev pub report : Option (List ℕ) → World → World
  report none w = w
  report (some trace) w = print_line w trace

  -- `main` once there is a script to run: the exit code. `getcwd` that fails leaves what `realpath` has
  -- left in the same memory.
  unfoldable pub start : (ℕ → ℕ) → List (List ℕ) → World → Outcome (ℕ × World)
  unfolding get_bin_dir get_module_file
  start stale arguments w = do
    dir ← get_bin_dir stale w
    js ← copy_behind dir (bytes_of "/../js")
    let (found, path) = realpath w js
    let include : List (List ℕ) = if found then path ∷ [] else []
    script ← get_module_file w dir (bytes_of "/../js/core/startup.js")
    let (trace, w') = require w (globals include (filled (getcwd w) path) arguments) script
    ok (0, report trace w')

  -- `main`, from where V8 has taken its flags from the arguments
  unfoldable pub main : (ℕ → ℕ) → List (List ℕ) → World → Outcome (ℕ × World)
  unfolding start
  main stale arguments w =
      let run = start stale arguments w in
      if length arguments == 1
      then ok (1, print_line w (bytes_of "v8h [v8-options] script name"))
      else run
