-- ===== src/Buffer/Read.antt =====
-- `Buffer::read` and the numbers over it (src/buffer.cc).
use native.Mathlib.Nat.{pow-suc}
use v8h.Base.{
  ℕ, zero, suc, ◌+◌, ◌/◌, ◌^◌, ◌≤◌, ◌<◌, ◌≡◌, refl, sym, ap, ◌∙◌, List, [], ◌++◌, arith, length,
  take, drop, min, take_all, drop_all, size_mod, take-take, append-nil,
}
use v8h.Base.Memory.{slice, length-slice, peek-ok, poke-ok}
use v8h.Base.Outcome.{ok}
use v8h.Algorithm.{min_of}
use v8h.Buffer.{
  Buffer, outside, to_bytes, of_bytes, commit, read, write, write_uint32, write_int64, read_uint32,
  read_int64,
}
use v8h.Buffer.Valid.{IsValid, contents, CanGrow}
use v8h.Buffer.Write.{IsAppended, write-IsAppended}

min_of-eq-min : (a b : ℕ) → min_of a b ≡ min a b
unfolding min_of
min_of-eq-min a b = ground arith

-- `read` of `m` bytes that lie in the block, whatever else the buffer holds.
read-slice :
    (b : Buffer) (dest : List ℕ) (size m : ℕ)
    → min size b.size ≡ m
    → b.cursor + m ≤ length b.block
    → m ≤ length dest
    → read b dest size ≡ ok (commit b m, slice b.block b.cursor m ++ drop m dest)
unfolding read
read-slice b dest size m e inside room =
    rw
      (
        min_of-eq-min size b.size,
        e,
        peek-ok b.block b.cursor m inside,
        poke-ok dest 0 (slice b.block b.cursor m) (omega (arith, len)),
      )
      (ap (λ k. ok (commit b m, slice b.block b.cursor m ++ drop k dest)) (omega (arith, len)))
  where
    len : length (slice b.block b.cursor m) ≡ m
    len = length-slice b.block b.cursor m inside

-- `read` copies the first `size` bytes of the contents, or all of them if there are fewer, to the
-- front of `dest` and leaves the rest of `dest` alone. It does not move `data()`: the copied bytes
-- stay in the buffer, and `commit` counts as many bytes more behind the contents.
pub read_lem :
    {b : Buffer} (dest : List ℕ) (size : ℕ)
    → IsValid b
    → size ≤ length dest
    → let m = min size b.size in
      read b dest size ≡ ok (commit b m, take m (contents b) ++ drop m dest)
read_lem {b} dest size v h =
    let m = min size b.size in
    read-slice b dest size m refl (omega arith) (omega arith)
    ∙ ap (λ l. ok (commit b m, l ++ drop m dest))
        (sym (take-take m b.size (drop b.cursor b.block) (omega arith)))

to_bytes_lem : (k v : ℕ) → length (to_bytes k v) ≡ k
to_bytes_lem zero v = refl
to_bytes_lem (suc k) v = ap suc (to_bytes_lem k (v / 256))

-- The bytes of a number that fits give the number back.
pub of_bytes-to_bytes : (k v : ℕ) → v < 256 ^ k → of_bytes (to_bytes k v) ≡ v
of_bytes-to_bytes zero v h = omega arith
of_bytes-to_bytes (suc k) v h =
    omega (arith, of_bytes-to_bytes k (v / 256) (omega (arith, pow-suc 256 k)))

-- A read of as many bytes as the destination has, from a buffer that counts at least so many.
read_whole :
    {b : Buffer} (b' : Buffer) (dest : List ℕ) (k : ℕ)
    → IsValid b
    → k ≤ b.size
    → b'.block ≡ b.block
    → b'.cursor ≡ b.cursor
    → k ≤ b'.size
    → length dest ≡ k
    → read b' dest k ≡ ok (commit b' k, take k (contents b))
read_whole {b} b' dest k v le same_block same_cursor le' h =
    read-slice b' dest k k (omega arith) (omega (arith, ap length same_block)) (omega arith)
    ∙ ap (λ l. ok (commit b' k, l)) text
  where
    front : slice b'.block b'.cursor k ≡ slice b.block b.cursor k
    front = cc

    text : slice b'.block b'.cursor k ++ drop k dest ≡ take k (contents b)
    text =
        ap (λ l. slice b'.block b'.cursor k ++ l) (drop_all k dest (omega arith))
        ∙ append-nil (slice b'.block b'.cursor k)
        ∙ front
        ∙ sym (take-take k b.size (drop b.cursor b.block) le)

-- A `uint32_t` at the front of a valid buffer is read without being removed: a second `read_uint32`
-- returns the same number, and `size()` has grown by 4, while `data()` stays.
pub read_uint32-repeats :
    {b : Buffer} (local local' : List ℕ)
    → IsValid b
    → 4 ≤ b.size
    → b.reserve + 4 < size_mod
    → length local ≡ 4
    → length local' ≡ 4
    → let v = of_bytes (take 4 (contents b)) in
      (read_uint32 b local ≡ ok (commit b 4, v))
      × (read_uint32 (commit b 4) local' ≡ ok (commit (commit b 4) 4, v))
      × ((commit b 4).size ≡ b.size + 4)
      × ((commit b 4).cursor ≡ b.cursor)
unfolding read_uint32
read_uint32-repeats {b} local local' v le room h h' = (
  rw (read_whole b local 4 v le refl refl le h),
  rw (
      read_whole (commit b 4) local' 4 v le (unfold commit in refl) (unfold commit in refl)
        (unfold commit in omega arith) h'),
  unfold commit in omega arith,
  unfold commit in refl,
)

-- The bytes that such a read counts in are not there if the block is full.
pub read_uint32-not-IsValid :
    {b : Buffer}
    → IsValid b
    → b.reserve < b.used + 4
    → b.used + 4 < size_mod
    → ¬ IsValid (commit b 4)
unfolding commit
read_uint32-not-IsValid v full small w = omega (arith, w.fits)

-- What is written to an empty buffer is read back: `k` bytes of a number below `256 ^ k`.
round_trip :
    (fresh : ℕ → ℕ) (b : Buffer) (k n : ℕ) (local : List ℕ)
    → IsValid b
    → CanGrow b k
    → b.size ≡ 0
    → n < 256 ^ k
    → length local ≡ k
    → (b' : Buffer) × (write fresh b (outside (to_bytes k n)) k ≡ ok b')
      × ((bytes : List ℕ) × (read b' local k ≡ ok (commit b' k, bytes)) × (of_bytes bytes ≡ n))
round_trip fresh b k n local v c empty small h =
    let len = to_bytes_lem k n in
    let (b', run, done) = write-IsAppended fresh b (to_bytes k n) k v c (omega (arith, len)) in
    let all : take k (to_bytes k n) ≡ to_bytes k n =
      take_all k (to_bytes k n) (omega (arith, len)) in
    let size_eq : b'.size ≡ k = omega (arith, done.grown_size, ap length all, len, empty) in
    let text : take k (contents b') ≡ to_bytes k n = whole b' done in
    (
      b',
      run,
      (
        to_bytes k n,
        read_whole b' local k done.valid (omega arith) refl refl (omega arith) h
            ∙ ap (λ l. ok (commit b' k, l)) text,
        of_bytes-to_bytes k n small,
      ),
    )
  where
    nothing : contents b ≡ []
    nothing = ap (λ m. take m (drop b.cursor b.block)) empty

    whole :
        (b' : Buffer)
        → IsAppended b (take k (to_bytes k n)) b'
        → take k (contents b') ≡ to_bytes k n
    whole b' done =
        ap (take k) (done.appended ∙ ap (λ l. l ++ take k (to_bytes k n)) nothing)
        ∙ take-take k k (to_bytes k n) (omega arith)
        ∙ take_all k (to_bytes k n) (omega (arith, to_bytes_lem k n))

-- `write_uint32` to a valid empty buffer that can grow by four bytes (so its capacity is not 0), then
-- `read_uint32`: the same number, for any of 32 bits.
pub read_uint32-write_uint32 :
    (fresh : ℕ → ℕ) (b : Buffer) (n : ℕ) (local : List ℕ)
    → IsValid b
    → CanGrow b 4
    → b.size ≡ 0
    → n < 2 ^ 32
    → length local ≡ 4
    → (b' : Buffer) × (write_uint32 fresh b n ≡ ok b')
      × (read_uint32 b' local ≡ ok (commit b' 4, n))
unfolding write_uint32 read_uint32
read_uint32-write_uint32 fresh b n local v c empty small h =
    let (b', run, (bytes, run', e)) = round_trip fresh b 4 n local v c empty (omega arith) h in
    (b', run, rw (run', e))

-- `write_int64` to an empty buffer, then `read_int64`: the same bit pattern.
pub read_int64-write_int64 :
    (fresh : ℕ → ℕ) (b : Buffer) (n : ℕ) (local : List ℕ)
    → IsValid b
    → CanGrow b 8
    → b.size ≡ 0
    → n < 2 ^ 64
    → length local ≡ 8
    → (b' : Buffer) × (write_int64 fresh b n ≡ ok b') × (read_int64 b' local ≡ ok (commit b' 8, n))
unfolding write_int64 read_int64
read_int64-write_int64 fresh b n local v c empty small h =
    let (b', run, (bytes, run', e)) = round_trip fresh b 8 n local v c empty (omega arith) h in
    (b', run, rw (run', e))
