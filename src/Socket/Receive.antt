-- ===== src/Socket/Receive.antt =====
-- `_read_buffer` of src/socket.cc: the bytes that come in, the end of the stream, and errors.
use v8h.Base.{
  ℕ, ◌+◌, ◌-◌, ◌%◌, ◌≤◌, ◌<◌, ◌≡◌, ◌≢◌, ◌⊎◌, refl, sym, ap, ◌∙◌, List, [], ◌∷◌, arith, lt→ltb,
  ne→not-==, eq→==, inl, inr, length, take, drop, size_mod, size_max, size_to_int, take-take,
  append-nil,
}
use v8h.Base.Memory.{slice, splice, poke, poke-ok, length-splice, slice-splice}
use v8h.Base.Outcome.{Outcome, ok}
use v8h.Buffer
use v8h.Buffer.{Buffer}
use v8h.Buffer.Valid.{IsValid, contents, CanGrow, IsPrepared, prepare-IsPrepared}
use v8h.Buffer.Write.{IsAppended, filled, filled-IsAppended}
use v8h.Socket.{Net, minus_one, enetdown, read_buffer}

-- What POSIX says of `recv`: a count of the bytes that it stores, and no more of them than there is
-- room; or -1, with nothing stored.
abbrev pub ReceivesWithin : Net → Type 0
ReceivesWithin net =
    (s : net.System) (fd room : ℕ)
    → let (r, bytes, s') = net.recv s fd room in
      ((r ≡ length bytes) × (r ≤ room)) ⊎ ((r ≡ size_max) × (bytes ≡ []))

pair-injective :
    {a b : Buffer} (m n : ℕ) → ◌≡◌ {A = Outcome (Buffer × ℕ)} (ok (a, m)) (ok (b, n)) → a ≡ b
pair-injective m n h = cc

IsPrepared-of_prepare :
    (fresh : ℕ → ℕ) (b p : Buffer) (n : ℕ)
    → IsValid b
    → CanGrow b n
    → Buffer.prepare fresh b n ≡ ok (p, b.used)
    → IsPrepared b n p
IsPrepared-of_prepare fresh b p n v c ready =
    let (p', run, h) = prepare-IsPrepared fresh b n v c in
    let e : p' ≡ p = pair-injective b.used b.used (sym run ∙ ready) in rw e at h

-- A prepared buffer to which nothing was stored.
stored_nothing :
    (b p : Buffer) (n : ℕ)
    → IsPrepared b n p
    → let q = record p { block = splice p.block p.used [] } in IsValid q × (contents q ≡ contents b)
stored_nothing b p n h = (valid, same)
  where
    v : IsValid p
    v = h.valid

    used_eq : p.used ≡ p.cursor + p.size
    used_eq = omega (arith, v.live)

    size_eq : p.size ≡ p.size + 0
    size_eq = omega arith

    valid : IsValid (record p { block = splice p.block p.used [] })
    valid = omega (arith, v, length-splice p.block p.used [] (omega (arith, v)))

    same : slice (splice p.block p.used []) p.cursor p.size ≡ contents b
    same =
        ap (λ u. slice (splice p.block u []) p.cursor p.size) used_eq
        ∙ ap (λ m. slice (splice p.block (p.cursor + p.size) []) p.cursor m) size_eq
        ∙ slice-splice p.block p.cursor p.size [] (omega (arith, v))
        ∙ append-nil (contents p)
        ∙ h.same_contents

-- what `commit` of a `(size_t) -1` does
commit-minus_one :
    (q : Buffer)
    → IsValid q
    → 0 < q.size
    → ((Buffer.commit q size_max).size ≡ q.size - 1)
      × (contents (Buffer.commit q size_max) ≡ take (q.size - 1) (contents q))
unfolding Buffer.commit
commit-minus_one q v pos =
    let e : (q.size + size_max) % size_mod ≡ q.size - 1 = omega arith in
    (
      e,
      ap (slice q.block q.cursor) e
          ∙ sym (take-take (q.size - 1) q.size (drop q.cursor q.block) (omega arith)),
    )

commit-minus_one_empty :
    (q : Buffer)
    → IsValid q
    → q.size ≡ 0
    → q.reserve - q.used < size_max
    → ((Buffer.commit q size_max).size ≡ size_max) × ¬ IsValid (Buffer.commit q size_max)
unfolding Buffer.commit
commit-minus_one_empty q v empty room = (omega arith, λ w. omega (arith, w.live, w.fits, w.small))

nil_of_length : (l : List ℕ) → length l ≡ 0 → l ≡ []
nil_of_length [] h = refl
nil_of_length (x ∷ l) h = absurd (omega arith)

module _ (net : Net) (laws : ReceivesWithin net) (fresh : ℕ → ℕ) (fd : ℕ) (s : net.System)
    (b p : Buffer) (v : IsValid b) (c : CanGrow b 8192)
    (ready : Buffer.prepare fresh b 8192 ≡ ok (p, b.used)) where
  h : IsPrepared b 8192 p
  h = IsPrepared-of_prepare fresh b p 8192 v c ready

  room-eq : Buffer.remain p ≡ p.reserve - p.used
  room-eq = unfold Buffer.remain in omega (arith, h.valid)

  -- the answer of `recv`, called with the free room of the prepared buffer
  abbrev answer : ℕ × List ℕ × net.System
  answer = net.recv s fd (Buffer.remain p)

  stores :
      (bytes : List ℕ)
      → length bytes ≤ Buffer.remain p
      → poke p.block b.used bytes ≡ ok (splice p.block p.used bytes)
  stores bytes le =
      rw (← h.same_used)
        (poke-ok p.block p.used bytes (omega (arith, h.valid, h.same_used, room-eq)))

  -- `_read_buffer` into a valid buffer that can grow by 8192 bytes, where `recv` does as POSIX says, and
  -- does not fail: `recv` is given room for 8192 bytes at least; the bytes that come in are appended, and
  -- their number is returned as an `int`; at the end of the stream, when `recv` returns 0, the contents
  -- stay, -1 is returned and `errno` is ENETDOWN.
  pub read_buffer_cases :
      (8192 ≤ Buffer.remain p)
      × (0 < answer.0
          → answer.0 ≢ size_max
          → (b' : Buffer) × (read_buffer net fresh fd s b ≡ ok (answer.2, b', size_to_int answer.0))
            × IsAppended b answer.1 b')
      × (answer.0 ≡ 0
          → (b' : Buffer) × (read_buffer net fresh fd s b
              ≡ ok (net.set_errno answer.2 enetdown, b', minus_one))
            × IsValid b'
            × (contents b' ≡ contents b))
  unfolding read_buffer
  read_buffer_cases = (omega (arith, room-eq, h.room, h.same_used), received, closed)
    where
      r : ℕ
      r = answer.0

      bytes : List ℕ
      bytes = answer.1

      received :
          0 < r
          → r ≢ size_max
          → (b' : Buffer) × (read_buffer net fresh fd s b ≡ ok (answer.2, b', size_to_int r))
            × IsAppended b bytes b'
      received pos ne = elim (laws s fd (Buffer.remain p)) [
        | inr (e, _) ↦ absurd (ne e)
        | inl (len, le) ↦ (
          filled p r bytes,
          rw (
            ready,
            stores bytes (omega arith),
            ne→not-== r 0 (λ (e : r ≡ 0). omega arith),
            lt→ltb 0 r pos,
          ),
          filled-IsAppended b p 8192 r bytes h (sym len) (omega (arith, room-eq, h.valid)),
        )
      ]

      closed :
          r ≡ 0
          → (b' : Buffer) × (read_buffer net fresh fd s b
              ≡ ok (net.set_errno answer.2 enetdown, b', minus_one))
            × IsValid b'
            × (contents b' ≡ contents b)
      closed zero_bytes = elim (laws s fd (Buffer.remain p)) [
        | inr (e, _) ↦ absurd (omega arith)
        | inl (len, le) ↦
            let (valid, same) = stored_nothing b p 8192 h in
            let none_stored : bytes ≡ [] = nil_of_length bytes (omega arith) in
            (
              record p { block = splice p.block p.used [] },
              rw (ready, stores bytes (omega arith), none_stored, eq→== r 0 zero_bytes),
              valid,
              same,
            )
      ]

  -- the case of bytes that come in
  pub read_buffer-IsAppended :
      0 < answer.0
      → answer.0 ≢ size_max
      → (8192 ≤ Buffer.remain p)
        × ((b' : Buffer) × (read_buffer net fresh fd s b ≡ ok (answer.2, b', size_to_int answer.0))
            × IsAppended b answer.1 b')
  read_buffer-IsAppended pos ne = (read_buffer_cases.0, read_buffer_cases.1 pos ne)

  -- `_read_buffer` into a valid buffer that can grow by 8192 bytes, when `recv` fails: -1 is returned, but
  -- the `size_t` that holds it is above 0, so that `commit` adds 2 ^ 64 - 1. If the buffer was not empty,
  -- the last byte of its contents is lost; if it was, it counts 2 ^ 64 - 1 bytes and is not valid any
  -- more.
  pub read_buffer-failed :
      Buffer.remain p < size_max
      → answer.0 ≡ size_max
      → (b' : Buffer) × (read_buffer net fresh fd s b ≡ ok (answer.2, b', minus_one))
        × (0 < b.size → (b'.size ≡ b.size - 1) × (contents b' ≡ take (b.size - 1) (contents b)))
        × (b.size ≡ 0 → (b'.size ≡ size_max) × ¬ IsValid b')
  unfolding read_buffer
  read_buffer-failed room failed = elim (laws s fd (Buffer.remain p)) [
    | inl (_, le) ↦ absurd (omega arith)
    | inr (_, nothing) ↦
        let (valid, same) = stored_nothing b p 8192 h in
        (
          Buffer.commit q size_max,
          rw (ready, stores answer.1 (omega (arith, ap length nothing)), nothing, failed),
          λ pos.
              let (fewer, cut) = commit-minus_one q valid (omega (arith, h.same_size)) in
              (omega (arith, fewer, h.same_size), cut ∙ at_size same),
          λ empty. commit-minus_one_empty q valid (omega (arith, h.same_size)) room_q,
        )
  ]
    where
      q : Buffer
      q = record p { block = splice p.block p.used [] }

      at_size :
          contents q ≡ contents b → take (q.size - 1) (contents q) ≡ take (b.size - 1) (contents b)
      at_size same = ap (take (q.size - 1)) same ∙ ap (λ m. take (m - 1) (contents b)) h.same_size

      room_q : q.reserve - q.used < size_max
      room_q = omega (arith, room-eq)
