-- ===== src/Buffer.antt =====
-- src/buffer.h and src/buffer.cc: the class `Buffer`. The functions that V8 calls are
-- in BufferObject.
pub mod Grow
pub mod Valid
pub mod Write
pub mod Alias
pub mod Consume
pub mod Read
pub mod Search
pub mod Queue
pub mod Samples
mod Tests
use v8h.Base.{
  ℕ, zero, suc, ◌+◌, ◌-◌, ◌*◌, ◌/◌, ◌%◌, ◌^◌, List, [], ◌∷◌, ◌++◌, Bool, Option, none, some, ltb,
  leb, ◌==◌, if◌then◌else◌, length, take, drop, tabulate, size_mod, add_size, sub_size, mul_size,
  size_to_int, int_to_size,
}
use v8h.Base.Memory.{peek, poke}
use v8h.Base.Outcome.{Outcome, ok, fault, spin, ◌>>=◌}
use v8h.Algorithm
use v8h.Algorithm.{min_of}

-- The members of `Buffer`. `block` is the memory that `data_` points to. `reported` is no member:
-- it is the sum of the arguments that this object has passed to
-- `V8::AdjustAmountOfExternalAllocatedMemory`.
pub record Buffer : Type 0 where
  pub block : List ℕ
  pub cursor : ℕ
  pub size : ℕ
  pub used : ℕ
  pub reserve : ℕ
  pub reported : ℕ

-- `sizeof(Buffer)` with 64-bit pointers, and `V8H_MEMORY_FIXED_SIZE`
abbrev pub sizeof_buffer : ℕ
sizeof_buffer = 48

abbrev pub memory_fixed_size : ℕ
memory_fixed_size = 128

-- Memory that a `const void *` argument points to: memory of its own, or an offset in the block of
-- the buffer that is written to.
pub data Source : Type 0 where
  outside : List ℕ → Source
  inside : ℕ → Source

-- The bytes of an unsigned number of `n` bytes, the lowest first, and back.
abbrev pub to_bytes : ℕ → ℕ → List ℕ
to_bytes zero v = []
to_bytes (suc n) v = (v % 256) ∷ to_bytes n (v / 256)

abbrev pub of_bytes : List ℕ → ℕ
of_bytes [] = 0
of_bytes (b ∷ bs) = b + 256 * of_bytes bs

-- The loop of `prepare`, in `size_t`.
unfoldable pub grow_loop : ℕ → ℕ → ℕ → Outcome ℕ
grow_loop zero need reserve = spin
grow_loop (suc fuel) need reserve =
    let more = grow_loop fuel need (mul_size reserve 3) in
    if ltb reserve need then more else ok reserve

-- Tripling passes any `size_t` in fewer rounds.
abbrev pub grow_fuel : ℕ
grow_fuel = 64

unfoldable pub commit : Buffer → ℕ → Buffer
commit b n = record b { size = add_size b.size n; used = add_size b.used n }

unfoldable pub clear : Buffer → Buffer
clear b = record b { cursor = 0; size = 0; used = 0 }

-- The `n` bytes of a source. A pointer into the block dangles when the block has been moved.
unfoldable pub read_source : Buffer → Buffer → Source → ℕ → Outcome (List ℕ)
read_source before after (outside bytes) n = peek bytes 0 n
read_source before after (inside at) n =
    if before.reserve == after.reserve then peek after.block at n else fault

-- What `malloc` and `realloc` leave in new memory is unspecified: `fresh i` at offset `i`.
module _ (fresh : ℕ → ℕ) where
  unfoldable pub new : ℕ → Buffer
  new reserve = record {
    block = tabulate fresh 0 reserve;
    cursor = 0;
    size = 0;
    used = 0;
    reserve = reserve;
    reported = (sizeof_buffer + memory_fixed_size + reserve) % size_mod;
  }

  -- `Buffer::realloc`: the old bytes stay as far as the new size goes.
  unfoldable pub realloc : Buffer → ℕ → Buffer
  realloc b size = record b {
    block = take size b.block ++ tabulate fresh (length b.block) (size - length b.block);
    reserve = size;
    reported = add_size b.reported (sub_size size b.reserve);
  }

  -- `prepare`, which returns the offset of `data_ + used_`.
  unfoldable pub prepare : Buffer → ℕ → Outcome (Buffer × ℕ)
  prepare b n = do
    reserve ← grow_loop grow_fuel (add_size b.used n) b.reserve
    ok (if ltb b.reserve reserve then realloc b reserve else b, b.used)

  unfoldable pub zero_end : Buffer → Outcome Buffer
  zero_end b = do
    (b', at) ← prepare b 1
    block ← poke b'.block at (0 ∷ [])
    ok (record b' { block = block })

  -- `write(const void *data, size_t n)`
  unfoldable pub write : Buffer → Source → ℕ → Outcome Buffer
  write b source n = do
    (b', at) ← prepare b n
    bytes ← read_source b b' source n
    block ← poke b'.block at bytes
    ok (commit (record b' { block = block }) n)

  -- `write(const char *data)`: the text without its NUL
  unfoldable pub write_text : Buffer → List ℕ → Outcome Buffer
  write_text b text = write b (outside text) (length text)

  -- `write(Buffer *buffer, size_t n)` for two different buffers
  unfoldable pub write_buffer : Buffer → Buffer → ℕ → Outcome Buffer
  write_buffer b src n =
      let n' = if ltb src.size n then src.size else n in
      write b (outside (drop src.cursor src.block)) n'

  -- The same for one: `data()` points into the block that `prepare` may move.
  unfoldable pub write_self : Buffer → ℕ → Outcome Buffer
  write_self b n = let n' = if ltb b.size n then b.size else n in write b (inside b.cursor) n'

  unfoldable pub write_uint32 : Buffer → ℕ → Outcome Buffer
  write_uint32 b v = write b (outside (to_bytes 4 v)) 4

  -- An `int32_t` is its bit pattern.
  unfoldable pub write_int32 : Buffer → ℕ → Outcome Buffer
  write_int32 b v = write b (outside (to_bytes 4 v)) 4

  unfoldable pub write_int64 : Buffer → ℕ → Outcome Buffer
  write_int64 b v = write b (outside (to_bytes 8 v)) 8

  -- A `double` is its bit pattern.
  unfoldable pub write_double : Buffer → ℕ → Outcome Buffer
  write_double b v = write b (outside (to_bytes 8 v)) 8

-- `~Buffer`: what has been reported in all when the object is gone
unfoldable pub destroy : Buffer → ℕ
destroy b =
    add_size b.reported (sub_size 0 ((sizeof_buffer + memory_fixed_size + b.reserve) % size_mod))

unfoldable pub consume : Buffer → ℕ → Buffer
consume b n =
    let n' = if ltb b.size n then b.size else n in
    let b' = record b { cursor = add_size b.cursor n'; size = sub_size b.size n' } in
    if b'.size == 0 then clear b' else b'

-- the `memmove` of `sweep`
unfoldable pub sweep : Buffer → Outcome Buffer
sweep b = do
  bytes ← peek b.block b.cursor b.size
  block ← poke b.block 0 bytes
  ok (record b { block = block; cursor = 0; used = b.size })

unfoldable pub remain : Buffer → ℕ
remain b = sub_size b.reserve b.used

-- what `show` writes to the standard output
unfoldable pub show : Buffer → Outcome (List ℕ)
show b = peek b.block b.cursor b.size

-- `read(void *dest, size_t size)`: the buffer and the memory at `dest`
unfoldable pub read : Buffer → List ℕ → ℕ → Outcome (Buffer × List ℕ)
read b dest size = do
  let n = min_of size b.size
  bytes ← peek b.block b.cursor n
  dest' ← poke dest 0 bytes
  ok (commit b n, dest')

-- `data` is not initialized: `local` holds its bytes before.
unfoldable pub read_uint32 : Buffer → List ℕ → Outcome (Buffer × ℕ)
read_uint32 b local = do (b', dest) ← read b local 4; ok (b', of_bytes dest)

unfoldable pub read_int32 : Buffer → List ℕ → Outcome (Buffer × ℕ)
read_int32 b local = do (b', dest) ← read b local 4; ok (b', of_bytes dest)

unfoldable pub read_int64 : Buffer → List ℕ → Outcome (Buffer × ℕ)
read_int64 b local = do (b', dest) ← read b local 8; ok (b', of_bytes dest)

unfoldable pub read_double : Buffer → List ℕ → Outcome (Buffer × ℕ)
read_double b local = do (b', dest) ← read b local 8; ok (b', of_bytes dest)

-- `Buffer::partial_find`; the `int` is its bit pattern.
unfoldable pub partial_find : Buffer → Buffer → ℕ → Outcome ℕ
partial_find b needle offset =
    if needle.size == 0
    then ok (size_to_int offset)
    else if leb b.size offset
    then ok (size_to_int b.size)
    else do
      haystack ← peek b.block (b.cursor + offset) (b.size - offset)
      text ← peek needle.block needle.cursor needle.size
      pos ← Algorithm.partial_find haystack text
      ok (size_to_int (add_size (int_to_size pos) offset))
