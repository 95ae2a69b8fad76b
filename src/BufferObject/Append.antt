-- ===== src/BufferObject/Append.antt =====
-- `writeBuffer` of JavaScript objects, and the count that `writeUcs2` commits (src/buffer.cc).
use v8h.Base.{
  ℕ, ◌+◌, ◌*◌, ◌≤◌, ◌<◌, ◌≡◌, ◌≢◌, refl, ◌∙◌, List, ◌++◌, arith, ltb, if◌then◌else◌, ne→not-==,
  eq→==, length, take, min, take_all, size_mod, size_max, some,
}
use v8h.Base.Memory.{poke-ok}
use v8h.Base.Outcome.{ok, fault}
use v8h.Buffer.{Buffer}
use v8h.Buffer.Valid.{IsValid, contents, length-contents, CanGrow, prepare-IsPrepared}
use v8h.Buffer.Write.{IsAppended, filled, filled_part, write_buffer-IsAppended}
use v8h.Buffer.Alias.{write_self_lem}
use v8h.Engine.{Engine, arg}
use v8h.BufferObject.{Store, update, write_buffer, write_ucs2}
use v8h.BufferObject.Text.{get_internal-some, update_self, update_other}

cut : (n : ℕ) → n < size_mod → (if ltb n size_max then n else size_max) ≡ n
cut n h = ground arith

-- `writeBuffer` appends all of another object's contents, and leaves that object alone.
pub write_buffer_lem :
    (e : Engine) (fresh : ℕ → ℕ) (store : Store) (self : ℕ) (d b : Buffer) (args : List e.Value)
    → store self ≡ some d
    → store (e.to_object (arg e args 0)) ≡ some b
    → e.to_object (arg e args 0) ≢ self
    → IsValid d
    → IsValid b
    → CanGrow d b.size
    → (store' : Store) × (write_buffer e fresh store self args ≡ ok (store', e.of_object self))
      × (store' (e.to_object (arg e args 0)) ≡ some b)
      × ((d' : Buffer) × (store' self ≡ some d') × IsAppended d (contents b) d')
unfolding write_buffer
write_buffer_lem e fresh store self d b args here there apart w v c =
    let id = e.to_object (arg e args 0) in
    let n_eq : min b.size b.size ≡ b.size = omega arith in
    let (d', run, done) = write_buffer-IsAppended fresh d b b.size w v (rw n_eq c) in
    (
      update store self (some d'),
      rw (
        get_internal-some store self d here,
        get_internal-some store id b there,
        cut b.size (omega (arith, v.live, v.fits, v.small)),
        ne→not-== id self apart,
        run,
      ),
      update_other store self id (some d') apart ∙ there,
      (
        d',
        update_self store self (some d'),
        rw (take_all b.size (contents b) (omega (arith, length-contents v))) at done,
      ),
    )

self_cases :
    (e : Engine) (fresh : ℕ → ℕ) (store : Store) (self : ℕ) (b : Buffer) (args : List e.Value)
    → store self ≡ some b
    → e.to_object (arg e args 0) ≡ self
    → IsValid b
    → CanGrow b b.size
    → (b.reserve < b.used + b.size → write_buffer e fresh store self args ≡ fault)
      × (b.used + b.size ≤ b.reserve
          → (b' : Buffer) × (write_buffer e fresh store self args
              ≡ ok (update store self (some b'), e.of_object self))
            × IsAppended b (contents b) b')
unfolding write_buffer
self_cases e fresh store self b args here same v c =
    let n_eq : min b.size b.size ≡ b.size = omega arith in
    let (moved, stayed) = write_self_lem fresh b b.size v (rw n_eq c) in
    let small : b.size < size_mod = omega (arith, v.live, v.fits, v.small) in
    let all = take_all b.size (contents b) (omega (arith, length-contents v)) in
    (
      λ lt. rw (
        same,
        get_internal-some store self b here,
        cut b.size small,
        eq→== self self refl,
        moved (rw n_eq lt),
      ),
      λ le.
          let (b', run, done) = stayed (rw n_eq le) in
          (
            b',
            rw (
              same,
              get_internal-some store self b here,
              cut b.size small,
              eq→== self self refl,
              run,
            ),
            rw all at done,
          ),
    )

-- `writeBuffer` of an object to itself, where the capacity is not enough for twice the contents: the
-- block moves, and the bytes are read through a pointer that dangles.
pub write_buffer_self-fault :
    (e : Engine) (fresh : ℕ → ℕ) (store : Store) (self : ℕ) (b : Buffer) (args : List e.Value)
    → store self ≡ some b
    → e.to_object (arg e args 0) ≡ self
    → IsValid b
    → CanGrow b b.size
    → b.reserve < b.used + b.size
    → write_buffer e fresh store self args ≡ fault
write_buffer_self-fault e fresh store self b args here same v c lt =
    (self_cases e fresh store self b args here same v c).0 lt

-- Where it need not, the contents are doubled.
pub write_buffer_self-doubles :
    (e : Engine) (fresh : ℕ → ℕ) (store : Store) (self : ℕ) (b : Buffer) (args : List e.Value)
    → store self ≡ some b
    → e.to_object (arg e args 0) ≡ self
    → IsValid b
    → CanGrow b b.size
    → b.used + b.size ≤ b.reserve
    → (b' : Buffer) × (write_buffer e fresh store self args
        ≡ ok (update store self (some b'), e.of_object self))
      × IsAppended b (contents b) b'
write_buffer_self-doubles e fresh store self b args here same v c le =
    (self_cases e fresh store self b args here same v c).1 le

-- `writeUcs2`, where V8 stores two bytes for each 16-bit unit and they fit, commits as many bytes as
-- there are units: only the first half of the stored bytes is appended.
pub write_ucs2-half :
    (e : Engine) (fresh : ℕ → ℕ) (store : Store) (self : ℕ) (b : Buffer) (args : List e.Value)
    → store self ≡ some b
    → IsValid b
    → CanGrow b (e.string_length (arg e args 0) * 2)
    → e.string_length (arg e args 0) * 2 ≤ length (e.write_ucs2 (arg e args 0))
    → b.used + length (e.write_ucs2 (arg e args 0)) ≤ b.reserve
    → let x = arg e args 0 in
      (b' : Buffer) × (write_ucs2 e fresh store self args
        ≡ ok (update store self (some b'), e.of_object self))
      × (contents b' ≡ contents b ++ take (e.string_length x) (e.write_ucs2 x))
      × (b'.size ≡ b.size + e.string_length x)
unfolding write_ucs2
write_ucs2-half e fresh store self b args here v c two room =
    let x = arg e args 0 in
    let n = e.string_length x in
    let text = e.write_ucs2 x in
    let (p, run, h) = prepare-IsPrepared fresh b (n * 2) v c in
    let part =
      filled_part b p (n * 2) n text h (omega (arith, h.same_used, h.rounds.1.larger))
        (omega arith) in
    (
      filled p n text,
      rw (
        get_internal-some store self b here,
        run,
        ← h.same_used,
        poke-ok p.block p.used text
            (omega (arith, h.valid.allocated, h.rounds.1.larger, h.same_used, room)),
      ),
      part.0,
      part.1,
    )
