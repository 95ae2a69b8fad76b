-- ===== src/Stdio/Whole.antt =====
-- What the reading loop of src/file.cc and src/system.cc leaves in the buffer: one round reads, the
-- next one ends it.
use v8h.Base.{
  ℕ, suc, ◌+◌, ◌-◌, ◌≤◌, ◌≡◌, refl, sym, ap, ◌∙◌, List, [], ◌∷◌, ◌++◌, append-nil, arith, ◌==◌,
  Bool-cases, length, take, drop, length-take, length-drop, take-append-drop, ==→eq, inl, inr,
}
use mathlib.Core.Path.{subst}
use v8h.Base.Memory.{poke-ok, splice}
use v8h.Base.Outcome.{ok}
use v8h.Buffer
use v8h.Buffer.{Buffer}
use v8h.Buffer.Valid.{IsValid, contents, IsPrepared}
use v8h.Buffer.Write.{IsAppended, filled, filled-IsAppended}
use v8h.Stdio.{Stdio, IsReliable, read_loop, read_rest}

splice-nil : (block : List ℕ) (off : ℕ) → splice block off [] ≡ block
splice-nil block off =
    ap (λ k. take off block ++ drop k block) {x = off + 0} {y = off} (omega arith)
    ∙ take-append-drop off block

nil-length : (l : List ℕ) → length l ≡ 0 → l ≡ []
nil-length [] h = refl
nil-length (x ∷ l) h = absurd (omega arith)

-- A valid buffer with nothing behind its contents.
IsAppended-nil : {b : Buffer} → IsValid b → IsAppended b [] b
IsAppended-nil {b} v = record {
  valid = v;
  appended = sym (append-nil (contents b));
  same_cursor = refl;
  grown_size = omega arith;
  grown_used = omega arith;
  larger = omega arith;
}

-- It has room for no byte more.
IsPrepared-already : {b : Buffer} → IsValid b → IsPrepared b 0 b
IsPrepared-already {b} v = record {
  valid = v;
  same_cursor = refl;
  same_size = refl;
  same_used = refl;
  room = omega (arith, v.fits);
  same_contents = refl;
  rounds = (
    0,
    record {
      reached = refl;
      enough = omega (arith, v.fits);
      first = λ j l. elim l [ ];
      larger = omega arith;
      small = v.small;
    },
  );
}

module _ (io : Stdio) (left : io.Stream → List ℕ) (laws : IsReliable io left) where
  -- A round that reads nothing ends the loop and changes nothing.
  last_round :
      (fuel dest : ℕ) (f : io.Stream) (b : Buffer)
      → dest ≤ length b.block
      → (io.fread f (Buffer.remain b)).0 ≡ []
      → read_loop io (suc fuel) dest f b ≡ ok ((io.fread f (Buffer.remain b)).1, b)
  unfolding read_loop
  last_round fuel dest f b le nothing =
      rw (nothing, poke-ok b.block dest [] (omega arith), splice-nil b.block dest)

  module _ (f : io.Stream) (b : Buffer) (v : IsValid b) where
    room-eq : Buffer.remain b ≡ b.reserve - b.used
    room-eq = unfold Buffer.remain in omega (arith, v.fits, v.small)

    abbrev text : List ℕ
    text = take (Buffer.remain b) (left f)

    abbrev next : io.Stream
    next = (io.fread f (Buffer.remain b)).1

    abbrev after_one : Buffer
    after_one = filled b (length text) text

    text-fits : b.used + length text ≤ b.reserve
    text-fits = omega (arith, room-eq, v.fits, length-take (Buffer.remain b) (left f))

    after_one-IsAppended : IsAppended b text after_one
    after_one-IsAppended =
        filled-IsAppended b b 0 (length text) text (IsPrepared-already v) refl text-fits

    -- The room that is left then, and the bytes of the file that are: there is nothing of one.
    nothing_next : (io.fread next (Buffer.remain after_one)).0 ≡ []
    unfolding Buffer.commit
    nothing_next =
        laws.next next (Buffer.remain after_one)
        ∙ ap (take (Buffer.remain after_one)) (laws.after f (Buffer.remain b))
        ∙ nil-length (take (Buffer.remain after_one) (drop (Buffer.remain b) (left f))) (
            omega (
              arith,
              length-take (Buffer.remain after_one) (drop (Buffer.remain b) (left f)),
              length-drop (Buffer.remain b) (left f),
              length-take (Buffer.remain b) (left f),
              room_after,
            ))
      where
        room_after : Buffer.remain after_one ≡ Buffer.remain b - length text
        room_after =
            let done = after_one-IsAppended in
            unfold Buffer.remain in
            omega (arith, done.valid, done.grown_used, v.fits, v.small, text-fits)

    -- The loop returns, and the contents have behind them the first bytes that the stream had left,
    -- as many as there was room for.
    pub read_rest-IsAppended :
        (b' : Buffer) × (f' : io.Stream) × (read_rest io b.used f b ≡ ok (f', b'))
        × IsAppended b (take (b.reserve - b.used) (left f)) b'
    unfolding read_rest read_loop
    read_rest-IsAppended = elim (Bool-cases (length text == 0)) [
      | inl none_read ↦
          let nothing : text ≡ [] = nil-length text (==→eq (length text) 0 none_read) in
          (
            b,
            next,
            last_round (suc (Buffer.remain b)) b.used f b (omega (arith, v.fits, v.allocated))
                (laws.next f (Buffer.remain b) ∙ nothing),
            rw (sym (ap (λ k. take k (left f)) room-eq) ∙ nothing) (IsAppended-nil v),
          )
      | inr some_read ↦
          let done = after_one-IsAppended in
          (
            after_one,
            (io.fread next (Buffer.remain after_one)).1,
            rw (
              laws.next f (Buffer.remain b),
              poke-ok b.block b.used text (omega (arith, text-fits, v.allocated)),
              some_read,
              last_round (Buffer.remain b) b.used next after_one
                  (omega (arith, done.valid.allocated, done.larger, v.fits)) nothing_next,
            ),
            subst (λ t. IsAppended b t after_one) (ap (λ k. take k (left f)) room-eq) done,
          )
    ]
