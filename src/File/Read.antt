-- ===== src/File/Read.antt =====
-- `File::read` (src/file.cc).
use v8h.Base.{ℕ, ◌-◌, ◌≡◌, refl, ap, ◌∙◌, List, [], ◌++◌, arith, take, some}
use v8h.Base.Memory.{peek-ok}
use v8h.Base.Outcome.{ok}
use v8h.Buffer
use v8h.Buffer.{Buffer}
use v8h.Buffer.Grow.{IsGrown-stay}
use v8h.Buffer.Valid.{IsValid, contents, CanGrow, new-IsValid, IsPrepared, prepare-IsPrepared}
use v8h.Buffer.Consume.{clear-IsValid}
use v8h.Stdio.{Stdio, IsReliable}
use v8h.Stdio.Whole.{read_rest-IsAppended}
use v8h.File.{read, read_stream}

module _ (fresh : ℕ → ℕ) (io : Stdio) (left : io.Stream → List ℕ) (laws : IsReliable io left) where
  start : Buffer
  start = Buffer.clear (Buffer.new fresh 4096)

  start-IsValid : IsValid start × (contents start ≡ []) × (start.reserve ≡ 4096) × (start.used ≡ 0)
  unfolding start Buffer.clear Buffer.new
  start-IsValid =
      let v = (new-IsValid fresh 4096 (omega arith)).0 in ((clear-IsValid v).0, refl, refl, refl)

  room : CanGrow start 4096
  room = let s = start-IsValid in record { positive = omega arith; bounded = omega arith }

  prepared :
      (p : Buffer) × (Buffer.prepare fresh start 4096 ≡ ok (p, start.used))
      × IsPrepared start 4096 p
  prepared = prepare-IsPrepared fresh start 4096 start-IsValid.0 room

  module _ (file : io.Stream) where
    read_stream_lem : read_stream fresh io file ≡ ok (some (take 4096 (left file)))
    unfolding read_stream start
    read_stream_lem =
        let (p, run, h) = prepared in
        let s = start-IsValid in
        let capacity : p.reserve ≡ 4096 = IsGrown-stay h.rounds.1 (omega arith) ∙ s.2 in
        let (b', file', run', done) = read_rest-IsAppended io left laws file p h.valid in
        let text : contents b' ≡ take 4096 (left file) =
          done.appended
          ∙ ap (λ l. l ++ take (p.reserve - p.used) (left file)) (h.same_contents ∙ s.1)
          ∙ ap (λ k. take k (left file)) {x = p.reserve - p.used} {y = 4096}
              (omega (arith, capacity, h.same_used, s.3)) in
        rw (
          run,
          ← h.same_used,
          run',
          peek-ok b'.block b'.cursor b'.size
              (omega (arith, done.valid.allocated, done.valid.live, done.valid.fits)),
          text,
          laws.no_error file',
        )

  -- `File::read` of a file that opens and is read without an error returns its first 4096 bytes, and
  -- no more of a longer file; it stays inside the buffer, and its loop ends.
  pub read-take :
      (path : List ℕ) (file : io.Stream)
      → io.fopen path ≡ some file
      → read fresh io path ≡ ok (some (take 4096 (left file)))
  unfolding read
  read-take path file opened = rw (opened, read) (read_stream_lem file)
