-- ===== src/System/Require.antt =====
-- `System::require` (src/system.cc).
use v8h.Base.{
  ℕ, zero, suc, ◌+◌, ◌-◌, ◌≤◌, ◌<◌, ◌≡◌, refl, ap, ◌∙◌, List, [], ◌++◌, arith, length, take, none,
  some, le→leb, lt→not-leb, length-append, length-take, append_assoc,
}
use v8h.Base.Memory.{peek-ok}
use v8h.Base.Outcome.{ok, fault}
use v8h.Base.Text.{bytes_of}
use v8h.Buffer
use v8h.Buffer.{Buffer}
use v8h.Buffer.Grow.{IsGrown}
use v8h.Buffer.Valid.{IsValid, contents, new-IsValid, prepare-IsPrepared}
use v8h.Buffer.Write.{write_text-IsAppended, write_text-fits}
use v8h.Buffer.Consume.{clear-IsValid}
use v8h.Stdio.{Stdio, IsReliable}
use v8h.Stdio.Whole.{read_rest-IsAppended}
use v8h.System.{
  Runtime, script_header, script_footer, dirname, raise, run_compiled, run_in_dir, load,
  require_stream, require, open_failed,
}

-- 1024 bytes are tripled twice to hold 4120.
tripled_twice : (r k : ℕ) → IsGrown 1024 4120 r k → r ≡ 9216
tripled_twice r zero g = absurd (omega (arith, g.reached, g.enough))
tripled_twice r (suc zero) g = absurd (omega (arith, g.reached, g.enough))
tripled_twice r (suc (suc zero)) g = g.reached
tripled_twice r (suc (suc (suc k))) g = absurd (omega (arith, g.first 2 (omega arith)))

module _ (fresh : ℕ → ℕ) where
  start : Buffer
  start = Buffer.clear (Buffer.new fresh 1024)

  start-IsValid : IsValid start × (contents start ≡ []) × (start.reserve ≡ 1024) × (start.used ≡ 0)
  unfolding start Buffer.clear Buffer.new
  start-IsValid =
      let v = (new-IsValid fresh 1024 (omega arith)).0 in ((clear-IsValid v).0, refl, refl, refl)

  -- The header is in the buffer, and there is room for 9192 bytes.
  ready :
      (b : Buffer) × (p : Buffer) × (Buffer.write_text fresh start script_header ≡ ok b)
      × (Buffer.prepare fresh b 4096 ≡ ok (p, p.used))
      × IsValid p
      × (contents p ≡ script_header)
      × (p.reserve ≡ 9216)
      × (p.used ≡ 24)
  ready =
      let s = start-IsValid in
      let (b, run, done, capacity) =
        write_text-fits fresh start script_header s.0
          (record { positive = omega arith; bounded = omega arith }) (omega arith) in
      let used : b.used ≡ 24 = omega (arith, done.grown_used, s.3) in
      let (p, run', h) =
        prepare-IsPrepared fresh b 4096 done.valid
          (record { positive = omega (arith, capacity, s.2); bounded = omega arith }) in
      (
        b,
        p,
        run,
        rw h.same_used run',
        h.valid,
        h.same_contents ∙ done.appended ∙ ap (λ l. l ++ script_header) s.1,
        tripled_twice p.reserve h.rounds.0 (rw (capacity ∙ s.2, used) at h.rounds.1),
        h.same_used ∙ used,
      )

  module _ (rt : Runtime) (io : Stdio) (left : io.Stream → List ℕ) (laws : IsReliable io left)
      (w : rt.World) (filename : List ℕ) (file : io.Stream)
      (opened : io.fopen filename ≡ some file) where
    -- the text that is compiled
    abbrev source : List ℕ
    source = script_header ++ (take 9192 (left file) ++ script_footer)

    load_lem :
        (b : Buffer) × (f : io.Stream) × (load rt fresh io file ≡ ok (f, b))
        × IsValid b
        × (contents b ≡ script_header ++ take 9192 (left file))
        × (b.used ≤ 9216)
        × (0 < b.reserve)
    unfolding load start
    load_lem =
        let (b, p, run, run', v, header, capacity, used) = ready in
        let (b', f, run'', done) = read_rest-IsAppended io left laws file p v in
        (
          b',
          f,
          rw (run, run', run''),
          done.valid,
          done.appended
              ∙ ap (λ l. l ++ take (p.reserve - p.used) (left file)) header
              ∙ ap (λ k. script_header ++ take k (left file)) {x = p.reserve - p.used} {y = 9192}
                  (omega (arith, capacity, used)),
          omega (
            arith,
            done.grown_used,
            used,
            capacity,
            length-take (p.reserve - p.used) (left file),
          ),
          omega (arith, done.larger, capacity),
        )

    require-run_in_dir : require rt fresh io w filename ≡ run_in_dir rt w filename source
    unfolding require require_stream
    require-run_in_dir =
        let (b, f, run, v, text, bound, positive) = load_lem in
        let (b', run', done) =
          write_text-IsAppended fresh b script_footer v
            (record { positive = positive; bounded = omega arith }) in
        let whole : contents b' ≡ source =
          done.appended
          ∙ ap (λ l. l ++ script_footer) text
          ∙ append_assoc script_header (take 9192 (left file)) script_footer in
        rw (
          opened,
          require,
          run,
          laws.no_error f,
          run',
          peek-ok b'.block b'.cursor b'.size
              (omega (arith, done.valid.allocated, done.valid.live, done.valid.fits)),
          whole,
        )

    module _ (short : length filename < 4096) where
      dirname-ok : dirname rt filename ≡ ok (rt.dirname_in_place filename)
      unfolding dirname
      dirname-ok = rw (le→leb (length filename + 1) 4096 (omega arith))

      -- the world that the script is compiled and run in
      abbrev entered : rt.World
      entered = rt.set_current_dir w (rt.new_string (rt.dirname_in_place filename))

      -- `require` of a file that opens and is read without an error, with a path of less than 4096
      -- bytes: the source is the header, the first 9192 bytes of the file and the footer. If it is
      -- well-formed, it runs with what `dirname` left of the path in `$currentDir`, its exports are
      -- the result, and afterwards `$currentDir` is set to what it was, also if the script throws.
      pub require-run :
          (script : rt.Script)
          → rt.compile entered source filename ≡ some script
          → let (exports, w') = rt.run entered script in
            require rt fresh io w filename
            ≡ ok (exports, rt.set_current_dir w' (rt.get_current_dir w))
      unfolding run_in_dir run_compiled
      require-run script compiled = require-run_in_dir ∙ rw (dirname-ok, compiled)

      -- `require` of such a file where the source is not well-formed: `Run` is called on an empty
      -- handle.
      pub require-fault :
          rt.compile entered source filename ≡ none → require rt fresh io w filename ≡ fault
      unfolding run_in_dir run_compiled
      require-fault empty = require-run_in_dir ∙ rw (dirname-ok, empty)

module _ (fresh : ℕ → ℕ) (rt : Runtime) (io : Stdio) (w : rt.World) (filename : List ℕ)
    (missing : io.fopen filename ≡ none) where
  length-open_failed :
      length (open_failed rt w filename) ≡ length filename + length (rt.error_text w) + 19
  length-open_failed =
      omega (arith, length-append filename (bytes_of " failed: " ++ rt.error_text w))

  -- A file that does not open is an exception, while the message is shorter than 512 bytes.
  pub require-missing :
      length filename + length (rt.error_text w) ≤ 492
      → require rt fresh io w filename ≡ ok (none, rt.throw_error w (open_failed rt w filename))
  unfolding require raise
  require-missing short = rw (
    missing,
    require,
    le→leb (length (open_failed rt w filename) + 1) 512 (omega (arith, length-open_failed)),
  )

  -- A longer message is written past the 512 bytes that it is formatted to.
  pub require-overrun :
      493 ≤ length filename + length (rt.error_text w) → require rt fresh io w filename ≡ fault
  unfolding require raise
  require-overrun long = rw (
    missing,
    require,
    lt→not-leb (length (open_failed rt w filename) + 1) 512 (omega (arith, length-open_failed)),
  )
