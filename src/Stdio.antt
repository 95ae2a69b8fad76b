-- ===== src/Stdio.antt =====
-- Reading a file into a `Buffer`, as src/file.cc (`File::read`) and src/system.cc
-- (`System::require`) do it. The C library's streams are parameters.
pub mod Samples
pub mod Whole
use v8h.Base.{ℕ, zero, suc, ◌≡◌, List, Bool, false, Option, ◌==◌, if◌then◌else◌, length, take, drop}
use v8h.Base.Memory.{poke}
use v8h.Base.Outcome.{Outcome, ok, spin, ◌>>=◌}
use v8h.Buffer
use v8h.Buffer.{Buffer}

-- `fopen` for reading, `fread` of single bytes with room for so many, `ferror`
pub record Stdio : Type 1 where
  pub Stream : Type 0
  pub fopen : List ℕ → Option Stream
  pub fread : Stream → ℕ → List ℕ × Stream
  pub ferror : Stream → Bool

-- What the C standard says of `fread` on a stream with no error: as many of the bytes that are left
-- as there is room for, and fewer only at the end of the file.
pub record IsReliable (io : Stdio) (left : io.Stream → List ℕ) : Type 0 where
  pub next : (f : io.Stream) (room : ℕ) → (io.fread f room).0 ≡ take room (left f)
  pub after : (f : io.Stream) (room : ℕ) → left (io.fread f room).1 ≡ drop room (left f)
  pub no_error : (f : io.Stream) → io.ferror f ≡ false

module _ (io : Stdio) where
  -- `while (size_t n = fread(dest, 1, buffer.remain(), file)) buffer.commit(n);` where `dest` stays
  -- the place that `prepare` returned
  unfoldable pub read_loop : ℕ → ℕ → io.Stream → Buffer → Outcome (io.Stream × Buffer)
  read_loop zero dest f b = spin
  read_loop (suc fuel) dest f b =
      let got = io.fread f (Buffer.remain b) in
      poke b.block dest got.0 >>= λ block.
      let b' = record b { block = block } in
      let rest = read_loop fuel dest got.1 (Buffer.commit b' (length got.0)) in
      if length got.0 == 0 then ok (got.1, b') else rest

  -- Each round but the last takes a byte of the free room at least.
  unfoldable pub read_rest : ℕ → io.Stream → Buffer → Outcome (io.Stream × Buffer)
  read_rest dest f b = read_loop (suc (suc (Buffer.remain b))) dest f b
