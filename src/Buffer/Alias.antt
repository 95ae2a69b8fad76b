-- ===== src/Buffer/Alias.antt =====
-- A buffer that is written to itself (src/buffer.cc).
use v8h.Base.{
  ℕ, ◌+◌, ◌≤◌, ◌<◌, ◌≡◌, sym, ap, ◌∙◌, List, arith, length, take, drop, min, length-take, take-take,
  take-take-min, ne→not-==, eq→==,
}
use v8h.Base.Memory.{slice, peek-ok, poke-ok}
use v8h.Base.Outcome.{ok, fault}
use v8h.Buffer.{Buffer, prepare, read_source, write, write_self}
use v8h.Buffer.Grow.{IsGrown-stay}
use v8h.Buffer.Valid.{IsValid, contents, length-contents, CanGrow, IsPrepared, prepare-IsPrepared}
use v8h.Buffer.Write.{IsAppended, filled, filled-IsAppended, clamp-eq-min}

-- Both cases of a buffer that is appended to itself.
pub write_self_lem :
    (fresh : ℕ → ℕ) (b : Buffer) (n : ℕ)
    → IsValid b
    → CanGrow b (min n b.size)
    → (b.reserve < b.used + min n b.size → write_self fresh b n ≡ fault)
      × (b.used + min n b.size ≤ b.reserve
          → (b' : Buffer) × (write_self fresh b n ≡ ok b') × IsAppended b (take n (contents b)) b')
unfolding write_self write read_source
write_self_lem fresh b n v c = (moved, stayed)
  where
    m : ℕ
    m = min n b.size

    prepared : (p : Buffer) × (prepare fresh b m ≡ ok (p, b.used)) × IsPrepared b m p
    prepared = prepare-IsPrepared fresh b m v c

    p : Buffer
    p = prepared.0

    h : IsPrepared b m p
    h = prepared.2

    moved : b.reserve < b.used + m → write_self fresh b n ≡ fault
    moved l = rw (
      clamp-eq-min b.size n,
      prepared.1,
      ne→not-== b.reserve p.reserve (λ (e : b.reserve ≡ p.reserve). omega (arith, h.room)),
    )

    text : List ℕ
    text = take n (contents b)

    source : slice p.block b.cursor m ≡ text
    source =
        sym (take-take m b.size (drop b.cursor p.block) (omega arith))
        ∙ ap (take m) (same ∙ h.same_contents)
        ∙ take-take-min n b.size (contents b)
        ∙ ap (take n) (take-take b.size b.size (drop b.cursor b.block) (omega arith))
      where
        same : slice p.block b.cursor b.size ≡ contents p
        same = cc (h.same_cursor, h.same_size)

    stayed :
        b.used + m ≤ b.reserve
        → (b' : Buffer) × (write_self fresh b n ≡ ok b') × IsAppended b text b'
    stayed l =
        let kept : p.reserve ≡ b.reserve = IsGrown-stay h.rounds.1 l in
        let len : length text ≡ m = omega (arith, length-take n (contents b), length-contents v) in
        (
          filled p m text,
          rw (
            clamp-eq-min b.size n,
            prepared.1,
            eq→== b.reserve p.reserve (sym kept),
            peek-ok p.block b.cursor m (omega (arith, h.valid.allocated, kept, v.live, l)),
            source,
            ← h.same_used,
            poke-ok p.block p.used text (omega (arith, h.valid.allocated, h.room, h.same_used)),
          ),
          filled-IsAppended b p m m text h len (omega (arith, h.room, h.same_used)),
        )

-- A buffer that is appended to itself where the capacity is not enough: `prepare` moves the block,
-- and `memcpy` reads through the pointer that `data()` returned before.
pub write_self-fault :
    (fresh : ℕ → ℕ) (b : Buffer) (n : ℕ)
    → IsValid b
    → CanGrow b (min n b.size)
    → b.reserve < b.used + min n b.size
    → write_self fresh b n ≡ fault
write_self-fault fresh b n v c l = (write_self_lem fresh b n v c).0 l

-- Where the capacity is enough, the first `n` bytes of its own contents are appended to it.
pub write_self-IsAppended :
    (fresh : ℕ → ℕ) (b : Buffer) (n : ℕ)
    → IsValid b
    → CanGrow b (min n b.size)
    → b.used + min n b.size ≤ b.reserve
    → (b' : Buffer) × (write_self fresh b n ≡ ok b') × IsAppended b (take n (contents b)) b'
write_self-IsAppended fresh b n v c le = (write_self_lem fresh b n v c).1 le
