-- ===== src/Helper/Throw.antt =====
-- The exceptions of src/v8h_helper.h: how long a message may be.
use v8h.Base.{
  leb, ◌==◌, if◌then◌else◌, Bool-cases, inl, inr, ==→eq, ℕ, ◌+◌, ◌≤◌, ◌<◌, ◌≡◌, ap, ◌∙◌, List, [],
  ◌∷◌, ◌++◌, arith, length, take, drop, length-append, length-take, take_all, take-append_left,
}
use v8h.Base.Memory.{splice, peek, poke, poke-ok, peek-ok, peek-fault, length-splice}
use v8h.Base.Outcome.{ok, fault}
use v8h.Helper.{throw_exception}

module _ (message buffer : List ℕ) (room : length buffer ≡ 512) where
  abbrev stored : List ℕ
  stored = take 511 message ++ (0 ∷ [])

  abbrev after : List ℕ
  after = splice buffer 0 stored

  length-stored : length stored ≤ 512
  length-stored = omega (arith, length-append (take 511 message) (0 ∷ []), length-take 511 message)

  fits : 0 + length stored ≤ length buffer
  fits = omega (arith, length-stored, room)

  length-after : length after ≡ 512
  length-after = omega (arith, length-splice buffer 0 stored fits, room)

  stores : poke buffer 0 stored ≡ ok after
  stores = poke-ok buffer 0 stored fits

  front : (n : ℕ) → n ≤ length stored → peek after 0 n ≡ ok (take n stored)
  front n le =
      peek-ok after 0 n (omega (arith, length-after, length-stored))
      ∙ ap (λ l. ok l) (take-append_left n stored (drop (0 + length stored) buffer) le)

  -- `THROW_EXCEPTION` with its buffer of 512 bytes: a message of at most 511 bytes is thrown whole; of
  -- one of 512 bytes the last one is replaced by a NUL; one that is longer makes V8 read behind the
  -- buffer, by as much as the message is longer.
  pub throw_exception_lem : throw_exception message buffer ≡ (
      if leb (length message) 511
      then ok (message, after)
      else if length message == 512
      then ok (take 511 message ++ (0 ∷ []), after)
      else fault)
  unfolding throw_exception
  throw_exception_lem = elim (Bool-cases (leb (length message) 511)) [
    | inl short ↦ rw short (whole (ground arith))
    | inr long ↦ elim (Bool-cases (length message == 512)) [
      | inl e ↦ rw (long, e) (cut (==→eq (length message) 512 e))
      | inr ne ↦ rw (long, ne) (over (ground (arith, long, ne)))
    ]
  ]
    where
      whole : length message ≤ 511 → throw_exception message buffer ≡ ok (message, after)
      whole le =
          let all : take 511 message ≡ message = take_all 511 message le in
          let n = length message in
          let len : n ≤ length stored =
            omega (arith, ap length all, length-append (take 511 message) (0 ∷ [])) in
          let same : take n stored ≡ message =
            ap (λ l. take n (l ++ (0 ∷ []))) all
            ∙ take-append_left n message (0 ∷ []) (omega arith)
            ∙ take_all n message (omega arith) in
          rw (stores, front n len, same)

      cut :
          length message ≡ 512
          → throw_exception message buffer ≡ ok (take 511 message ++ (0 ∷ []), after)
      cut e =
          let len : length stored ≡ length message =
            omega (arith, length-append (take 511 message) (0 ∷ []), length-take 511 message) in
          let same : take (length message) stored ≡ stored =
            take_all (length message) stored (omega (arith, len)) in
          rw (stores, front (length message) (omega (arith, len)), same)

      over : 512 < length message → throw_exception message buffer ≡ fault
      over lt = rw (stores, peek-fault after 0 (length message) (omega (arith, length-after)))
