-- ===== src/Buffer/Write.antt =====
-- Appending: `Buffer::write` and the functions over it (src/buffer.cc).
use v8h.Base.{
  ℕ, ◌+◌, ◌%◌, ◌≤◌, ◌<◌, ◌≡◌, sym, ap, ◌∙◌, List, ◌++◌, arith, ltb, if◌then◌else◌, length, take,
  drop, min, length-take, length-drop, take_all, size_mod, take-take, take-take-min,
  take-append_right,
}
use v8h.Base.Memory.{slice, splice, slice-splice, length-splice, peek-ok, peek-fault, poke-ok}
use v8h.Base.Outcome.{ok, fault}
use v8h.Buffer.{Buffer, outside, commit, read_source, write, write_text, write_buffer}
use v8h.Buffer.Grow.{IsGrown, IsGrown-stay}
use v8h.Buffer.Valid.{IsValid, contents, length-contents, CanGrow, IsPrepared, prepare-IsPrepared}

-- `b'` is `b` with the bytes `text` behind its contents.
pub record IsAppended (b : Buffer) (text : List ℕ) (b' : Buffer) : Type 0 where
  pub valid : IsValid b'
  pub appended : contents b' ≡ contents b ++ text
  pub same_cursor : b'.cursor ≡ b.cursor
  pub grown_size : b'.size ≡ b.size + length text
  pub grown_used : b'.used ≡ b.used + length text
  pub larger : b.reserve ≤ b'.reserve

-- what `write` makes of a prepared buffer
abbrev pub filled : Buffer → ℕ → List ℕ → Buffer
filled p n text = commit (record p { block = splice p.block p.used text }) n

pub filled-IsAppended :
    (b p : Buffer) (room n : ℕ) (text : List ℕ)
    → IsPrepared b room p
    → length text ≡ n
    → p.used + n ≤ p.reserve
    → IsAppended b text (filled p n text)
unfolding commit
filled-IsAppended b p room n text h e le = record {
  valid = omega (arith, length-splice p.block p.used text (omega arith));
  appended = whole ∙ ap (λ l. l ++ text) h.same_contents;
  same_cursor = h.same_cursor;
  grown_size = omega arith;
  grown_used = omega arith;
  larger = omega (arith, h.rounds.1.larger);
}
  where
    size_eq : (p.size + n) % size_mod ≡ p.size + length text
    size_eq = omega arith

    used_eq : p.used ≡ p.cursor + p.size
    used_eq = omega arith

    whole : contents (filled p n text) ≡ contents p ++ text
    whole =
        ap (λ m. slice (splice p.block p.used text) p.cursor m) size_eq
        ∙ ap (λ u. slice (splice p.block u text) p.cursor (p.size + length text)) used_eq
        ∙ slice-splice p.block p.cursor p.size text (omega arith)

-- The same where only the first `n` of the stored bytes are committed.
pub filled_part :
    (b p : Buffer) (room n : ℕ) (text : List ℕ)
    → IsPrepared b room p
    → p.used + length text ≤ p.reserve
    → n ≤ length text
    → (contents (filled p n text) ≡ contents b ++ take n text)
      × ((filled p n text).size ≡ b.size + n)
unfolding commit
filled_part b p room n text h fits le =
    (part, omega (arith, h.valid.live, h.valid.small, h.same_size))
  where
    block : List ℕ
    block = splice p.block p.used text

    size_eq : (p.size + n) % size_mod ≡ p.size + n
    size_eq = omega (arith, h.valid.live, h.valid.small)

    used_eq : p.used ≡ p.cursor + p.size
    used_eq = omega (arith, h.valid.live)

    all : slice block p.cursor (p.size + length text) ≡ contents p ++ text
    all =
        ap (λ u. slice (splice p.block u text) p.cursor (p.size + length text)) used_eq
        ∙ slice-splice p.block p.cursor p.size text (omega (arith, h.valid.allocated))

    len : length (contents p) ≡ p.size
    len = length-contents h.valid

    part : contents (filled p n text) ≡ contents b ++ take n text
    part =
        ap (λ m. slice block p.cursor m) size_eq
        ∙ sym (take-take (p.size + n) (p.size + length text) (drop p.cursor block) (omega arith))
        ∙ ap (take (p.size + n)) all
        ∙ take-append_right (p.size + n) (contents p) text (omega (arith, len))
        ∙ ap (λ k. contents p ++ take k text) (omega (arith, len))
        ∙ ap (λ l. l ++ take n text) h.same_contents

-- The bytes are appended, and the capacity grows as `prepare` says.
write_lem :
    (fresh : ℕ → ℕ) (b : Buffer) (src : List ℕ) (n : ℕ)
    → IsValid b
    → CanGrow b n
    → n ≤ length src
    → (b' : Buffer) × (write fresh b (outside src) n ≡ ok b')
      × IsAppended b (take n src) b'
      × ((k : ℕ) × IsGrown b.reserve (b.used + n) b'.reserve k)
unfolding write read_source commit
write_lem fresh b src n v c h =
    let (p, run, prepared) = prepare-IsPrepared fresh b n v c in
    let len : length (take n src) ≡ n = omega (arith, length-take n src) in
    (
      filled p n (take n src),
      rw (
        run,
        peek-ok src 0 n (omega arith),
        ← prepared.same_used,
        poke-ok p.block p.used (take n src)
            (omega (arith, prepared.valid.allocated, prepared.room, prepared.same_used)),
      ),
      filled-IsAppended b p n n (take n src) prepared len
          (omega (arith, prepared.room, prepared.same_used)),
      prepared.rounds,
    )

-- `write` of `n` bytes that lie outside the buffer, on a valid buffer that can grow so far, returns,
-- and the buffer has exactly those bytes behind its old contents.
pub write-IsAppended :
    (fresh : ℕ → ℕ) (b : Buffer) (src : List ℕ) (n : ℕ)
    → IsValid b
    → CanGrow b n
    → n ≤ length src
    → (b' : Buffer) × (write fresh b (outside src) n ≡ ok b') × IsAppended b (take n src) b'
write-IsAppended fresh b src n v c h =
    let (b', run, done, _) = write_lem fresh b src n v c h in (b', run, done)

-- A NUL-terminated text is appended whole.
pub write_text-IsAppended :
    (fresh : ℕ → ℕ) (b : Buffer) (text : List ℕ)
    → IsValid b
    → CanGrow b (length text)
    → (b' : Buffer) × (write_text fresh b text ≡ ok b') × IsAppended b text b'
unfolding write_text
write_text-IsAppended fresh b text v c =
    let (b', run, done) = write-IsAppended fresh b text (length text) v c (omega arith) in
    (b', run, rw (take_all (length text) text (omega arith)) at done)

-- The capacity stays where it is enough.
pub write_text-fits :
    (fresh : ℕ → ℕ) (b : Buffer) (text : List ℕ)
    → IsValid b
    → CanGrow b (length text)
    → b.used + length text ≤ b.reserve
    → (b' : Buffer) × (write_text fresh b text ≡ ok b')
      × IsAppended b text b'
      × (b'.reserve ≡ b.reserve)
unfolding write_text
write_text-fits fresh b text v c room =
    let (b', run, done, grown) = write_lem fresh b text (length text) v c (omega arith) in
    (b', run, rw (take_all (length text) text (omega arith)) at done, IsGrown-stay grown.1 room)

-- the clamp in `write(Buffer *buffer, size_t n)`
pub clamp-eq-min : (a n : ℕ) → (if ltb a n then a else n) ≡ min n a
clamp-eq-min a n = ground arith

-- Another buffer's contents are appended as far as `n` and its size go.
pub write_buffer-IsAppended :
    (fresh : ℕ → ℕ) (b src : Buffer) (n : ℕ)
    → IsValid b
    → IsValid src
    → CanGrow b (min n src.size)
    → (b' : Buffer) × (write_buffer fresh b src n ≡ ok b') × IsAppended b (take n (contents src)) b'
unfolding write_buffer
write_buffer-IsAppended fresh b src n v w c =
    let (b', run, done) =
      write-IsAppended fresh b (drop src.cursor src.block) (min n src.size) v c
        (omega (arith, w.allocated, w.live, w.fits, length-drop src.cursor src.block)) in
    (b', rw (clamp-eq-min src.size n) run, rw (text) at done)
  where
    text : take (min n src.size) (drop src.cursor src.block) ≡ take n (contents src)
    text = take-take-min n src.size (drop src.cursor src.block)

-- More bytes than lie behind the source pointer cannot be read.
pub write_outside-fault :
    (fresh : ℕ → ℕ) (b : Buffer) (src : List ℕ) (n : ℕ)
    → IsValid b
    → CanGrow b n
    → length src < n
    → write fresh b (outside src) n ≡ fault
unfolding write read_source
write_outside-fault fresh b src n v c h =
    let (p, run, prepared) = prepare-IsPrepared fresh b n v c in
    rw (run, peek-fault src 0 n (omega arith))
