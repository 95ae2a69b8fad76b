-- ===== src/Socket/Send.antt =====
-- `_write_buffer` of src/socket.cc: what is sent, and that the loop ends.
use v8h.Base.{
  ℕ, zero, suc, ◌+◌, ◌^◌, ◌≤◌, ◌<◌, ◌≡◌, ◌≢◌, ◌⊎◌, refl, ap, ◌∙◌, List, [], ◌++◌, Bool, true, false,
  arith, ◌==◌, Bool-cases, ==→eq, inl, inr, length, take, length-drop, size_max, take-append-drop,
  append_assoc,
}
use v8h.Base.Memory.{peek-ok}
use v8h.Base.Outcome.{ok}
use v8h.Buffer
use v8h.Buffer.{Buffer}
use v8h.Buffer.Valid.{IsValid, contents, length-contents}
use v8h.Buffer.Consume.{consume-drop}
use v8h.Socket.{Net, minus_one, after_send, write_loop, write_buffer}

-- What POSIX says of `send` on the descriptor `fd` of a stream: -1, or a count of at least one and at
-- most all of the bytes, which are then the next bytes of the stream.
pub record IsStream (net : Net) (stream : net.System → List ℕ) (fd : ℕ) : Type 0 where
  pub taken :
      (s : net.System) (bytes : List ℕ)
      → bytes ≢ []
      → let (r, s') = net.send s fd bytes in
        ((r ≡ size_max) × (stream s' ≡ stream s))
        ⊎ ((0 < r) × (r ≤ length bytes) × (stream s' ≡ stream s ++ take r bytes))

both : (b : Bool) → b ≡ true → b ≡ false → ⊥
both b h k = cc

module _ (net : Net) (stream : net.System → List ℕ) (fd : ℕ) (laws : IsStream net stream fd) where
  -- What a round leaves: fewer bytes if it goes on, and no byte lost, doubled or out of order.
  record IsSent (s s' : net.System) (b : Buffer) (r : Bool × Buffer × ℕ) : Type 0 where
    valid : IsValid r.1
    kept : stream s' ++ contents r.1 ≡ stream s ++ contents b
    less : r.0 ≡ true → r.1.size < b.size
    no_more : r.1.size ≤ b.size
    stopped : r.0 ≡ false → (r.2 ≡ minus_one) ⊎ (r.2 ≡ 0)

  after_send-failed :
      (s s' : net.System) (b : Buffer)
      → IsValid b
      → stream s' ≡ stream s
      → IsSent s s' b (after_send net s' b size_max)
  unfolding after_send
  after_send-failed s s' b v same = record {
    valid = v;
    kept = ap (λ l. l ++ contents b) same;
    less = λ h. cc;
    no_more = ground arith;
    stopped = λ h. ground arith;
  }

  size-consume :
      (b : Buffer) (n : ℕ) → IsValid b → 0 < n → n ≤ b.size → (Buffer.consume b n).size < b.size
  size-consume b n v pos le =
      let (valid, rest, _, _) = consume-drop n v in
      omega (
        arith,
        length-contents valid,
        ap length rest,
        length-drop n (contents b),
        length-contents v,
      )

  after_send-wrote :
      (s s' : net.System) (b : Buffer) (r : ℕ)
      → IsValid b
      → b.size < 2 ^ 31
      → 0 < r
      → r ≤ b.size
      → stream s' ≡ stream s ++ take r (contents b)
      → IsSent s s' b (after_send net s' b r)
  after_send-wrote s s' b r v small pos le next = rw whole (record {
    valid = (consume-drop r v).0;
    kept = kept;
    less = λ h. size-consume b r v pos le;
    no_more = omega (arith, size-consume b r v pos le);
    stopped = λ h. cc;
  })
    where
      whole : after_send net s' b r ≡ (true, Buffer.consume b r, r)
      whole = unfold after_send in ground arith

      kept : stream s' ++ contents (Buffer.consume b r) ≡ stream s ++ contents b
      kept =
          ap (λ l. l ++ contents (Buffer.consume b r)) next
          ∙ append_assoc (stream s) (take r (contents b)) (contents (Buffer.consume b r))
          ∙ ap (λ l. stream s ++ (take r (contents b) ++ l)) (consume-drop r v).1
          ∙ ap (λ l. stream s ++ l) (take-append-drop r (contents b))

  round :
      (s : net.System) (b : Buffer)
      → IsValid b
      → 0 < b.size
      → b.size < 2 ^ 31
      → let (r, s') = net.send s fd (contents b) in
        IsSent s s' b (after_send net s' b r) × (r ≢ size_max → (after_send net s' b r).0 ≡ true)
  round s b v some_bytes small = elim (laws.taken s (contents b) not_empty) [
    | inl (failed, same) ↦ (
      rw failed (after_send-failed s (net.send s fd (contents b)).1 b v same),
      λ h. absurd (h failed),
    )
    | inr (pos, le, next) ↦
        let le' : (net.send s fd (contents b)).0 ≤ b.size = omega (arith, length-contents v) in
        (
          after_send-wrote s (net.send s fd (contents b)).1 b (net.send s fd (contents b)).0 v small
              pos le' next,
          λ h. unfold after_send in ground arith,
        )
  ]
    where
      not_empty : contents b ≢ []
      not_empty h = omega (arith, ap length h, length-contents v)

  -- What the loop leaves.
  pub record IsFlushed (s : net.System) (b : Buffer) (r : net.System × Buffer × ℕ) : Type 0 where
    pub valid : IsValid r.1
    pub kept : stream r.0 ++ contents r.1 ≡ stream s ++ contents b
    pub outcome : (r.1.size ≡ 0) ⊎ ((r.2 ≡ minus_one) ⊎ (r.2 ≡ 0))
    pub shrunk : r.1.size ≤ b.size
    pub begun : 0 < b.size → (net.send s fd (contents b)).0 ≢ size_max → r.1.size < b.size

  write_loop_lem :
      (fuel : ℕ) (s : net.System) (b : Buffer) (n : ℕ)
      → IsValid b
      → b.size < fuel
      → b.size < 2 ^ 31
      → (r : net.System × Buffer × ℕ) × (write_loop net fuel fd s b n ≡ ok r) × IsFlushed s b r
  unfolding write_loop
  write_loop_lem zero s b n v enough small = elim enough [ ]
  write_loop_lem (suc fuel) s b n v enough small = elim (Bool-cases (b.size == 0)) [
    | inl empty ↦ (
      (s, b, n),
      rw empty,
      record {
        valid = v;
        kept = refl;
        outcome = inl (==→eq b.size 0 empty);
        shrunk = omega arith;
        begun = λ pos h. absurd (omega (arith, pos, ==→eq b.size 0 empty));
      },
    )
    | inr some_bytes ↦
        let s' = (net.send s fd (contents b)).1 in
        let a = after_send net s' b (net.send s fd (contents b)).0 in
        let pos : 0 < b.size = ground arith in
        let (h, went) = round s b v pos small in
        let bytes = peek-ok b.block b.cursor b.size (omega (arith, v.allocated, v.live, v.fits)) in
        elim (Bool-cases a.0) [
          | inr stop ↦ (
            (s', a.1, a.2),
            rw (some_bytes, bytes, stop),
            record {
              valid = h.valid;
              kept = h.kept;
              outcome = inr (h.stopped stop);
              shrunk = h.no_more;
              begun = λ pos' ne. absurd (both a.0 (went ne) stop);
            },
          )
          | inl more ↦
              let (r, run, f) =
                write_loop_lem fuel s' a.1 a.2 h.valid (omega (arith, h.less more))
                  (omega (arith, h.less more)) in
              (
                r,
                rw (some_bytes, bytes, more) run,
                record {
                  valid = f.valid;
                  kept = f.kept ∙ h.kept;
                  outcome = f.outcome;
                  shrunk = omega (arith, f.shrunk, h.less more);
                  begun = λ pos' ne. omega (arith, f.shrunk, h.less more);
                },
              )
        ]
  ]

  -- `_write_buffer`, over a stream as POSIX describes it, of a valid buffer of less than 2 ^ 31
  -- bytes: it returns, for as many rounds as there are bytes are enough; what the stream has taken
  -- and what is left in the buffer are together what they were, in order; and either nothing is
  -- left, or it returned -1 or 0. The buffer never gets larger, and it gets smaller if the first
  -- `send` does not fail.
  pub write_buffer-IsFlushed :
      (s : net.System) (b : Buffer)
      → IsValid b
      → b.size < 2 ^ 31
      → (r : net.System × Buffer × ℕ) × (write_buffer net fd s b ≡ ok r) × IsFlushed s b r
  unfolding write_buffer
  write_buffer-IsFlushed s b v small = write_loop_lem (b.size + 1) s b 0 v (omega arith) small
