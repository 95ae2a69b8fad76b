-- ===== src/File.antt =====
-- src/file.h and src/file.cc: the class `File`. The C library is a parameter.
pub mod Read
mod Tests
use v8h.Base.{ℕ, List, Bool, Option, none, some, ◌==◌, if◌then◌else◌}
use v8h.Base.Memory.{peek}
use v8h.Base.Outcome.{Outcome, ok, ◌>>=◌}
use v8h.Buffer
use v8h.Buffer.{Buffer}
use v8h.Stdio
use v8h.Stdio.{Stdio}

-- `access`, `realpath` and `dirname`. `realpath` may fail; a result of `access` is a bit pattern.
pub record Paths : Type 0 where
  pub access : List ℕ → ℕ → ℕ
  pub realpath : List ℕ → Option (List ℕ)
  pub dirname : List ℕ → List ℕ

abbrev f_ok : ℕ
f_ok = 0

abbrev x_ok : ℕ
x_ok = 1

abbrev w_ok : ℕ
w_ok = 2

abbrev r_ok : ℕ
r_ok = 4

module _ (paths : Paths) where
  open paths use {access as call_access, realpath as call_realpath, dirname as call_dirname}

  unfoldable pub access : List ℕ → ℕ → Bool
  access path how = call_access path how == 0

  unfoldable pub readable : List ℕ → Bool
  unfolding access
  readable path = access path r_ok

  unfoldable pub exists : List ℕ → Bool
  unfolding access
  exists path = access path f_ok

  unfoldable pub writable : List ℕ → Bool
  unfolding access
  writable path = access path w_ok

  unfoldable pub executable : List ℕ → Bool
  unfolding access
  executable path = access path x_ok

  -- The result is `Null()` if there is none.
  unfoldable pub realpath : List ℕ → Option (List ℕ)
  realpath path = call_realpath path

  unfoldable pub dirname : List ℕ → List ℕ
  dirname path = call_dirname path

module _ (fresh : ℕ → ℕ) (io : Stdio) where
  -- `read` once the file is open
  unfoldable pub read_stream : io.Stream → Outcome (Option (List ℕ))
  read_stream file = do
    (buffer, dest) ← Buffer.prepare fresh (Buffer.clear (Buffer.new fresh 4096)) 4096
    (file', buffer') ← Stdio.read_rest io dest file buffer
    text ← peek buffer'.block buffer'.cursor buffer'.size
    ok (if io.ferror file' then none else some text)

  -- `File::read`: a text, or `Null()`
  unfoldable pub read : List ℕ → Outcome (Option (List ℕ))
  read path = elim (io.fopen path) [ none ↦ ok none | some file ↦ read_stream file ]
