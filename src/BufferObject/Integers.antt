-- ===== src/BufferObject/Integers.antt =====
-- Numbers that JavaScript writes to a buffer and reads again, through the conversions of
-- src/v8h_helper.h.
use v8h.Base.{ℕ, ◌%◌, ◌^◌, ◌<◌, ◌≡◌, refl, List, [], ◌∷◌, some, eq→==, length, arith}
use v8h.Base.Outcome.{Outcome, ok}
use v8h.Buffer
use v8h.Buffer.{Buffer}
use v8h.Buffer.Valid.{IsValid, CanGrow}
use v8h.Buffer.Read.{read_uint32-write_uint32, read_int64-write_int64}
use v8h.Engine.{Engine}
use v8h.BufferObject.{
  Store, update, get_internal, forward_0_1, forward_1_0, read_uint32, read_int64, write_uint32,
  write_int64,
}

module _ (e : Engine) (fresh : ℕ → ℕ) (store : Store) (self : ℕ) (b : Buffer) (v : e.Value)
    (behind : store self ≡ some b) (valid : IsValid b) (empty : b.size ≡ 0) where
  open e use {Value, new_int, of_object, integer_value, uint32_value}

  get_internal-update : (b' : Buffer) → get_internal (update store self (some b')) self ≡ ok b'
  unfolding get_internal
  get_internal-update b' = rw (eq→== self self refl, get_internal)

  -- what the two macros make of a member that writes and a member that reads
  write_then_read :
      {A B : Type 0} (to_arg : Value → A) (to_value : B → Value)
      → (write : Buffer → A → Outcome Buffer) (read : Buffer → Outcome (Buffer × B))
      → {b₁ b₂ : Buffer} {n : B} → write b (to_arg v) ≡ ok b₁
      → read b₁ ≡ ok (b₂, n)
      → (store₁ : Store) × (store₂ : Store) × (forward_1_0 e to_arg write store self (v ∷ [])
          ≡ ok (store₁, of_object self))
        × (forward_0_1 e to_value read store₁ self [] ≡ ok (store₂, to_value n))
  unfolding forward_1_0 forward_0_1 get_internal
  write_then_read to_arg to_value write read {b₁} {b₂} {n} written found =
      let here : get_internal store self ≡ ok b = rw (behind, get_internal) in
      (
        update store self (some b₁),
        update (update store self (some b₁)) self (some b₂),
        rw (here, written),
        rw (get_internal-update b₁, found),
      )

  -- A number that is written to a valid, empty buffer that can grow by its bytes, and read again. After
  -- `writeInt64`, `readInt64` returns the lower 32 bits, as an `int32_t`: another number than the one
  -- written, if that is none. After `writeUint32`, `readUint32` returns the same bits, as an `int32_t`
  -- too: so a number of 2^31 or more comes back as a negative one.
  pub read_int-write_int :
      (local₈ local₄ : List ℕ)
      → CanGrow b 8
      → integer_value v < 2 ^ 64
      → uint32_value v < 2 ^ 32
      → length local₈ ≡ 8
      → length local₄ ≡ 4
      → ((store₁ : Store) × (store₂ : Store) × (write_int64 e fresh store self (v ∷ [])
            ≡ ok (store₁, of_object self))
          × (read_int64 e local₈ store₁ self [] ≡ ok (store₂, new_int (integer_value v % 2 ^ 32))))
        × ((store₁ : Store) × (store₂ : Store) × (write_uint32 e fresh store self (v ∷ [])
              ≡ ok (store₁, of_object self))
            × (read_uint32 e local₄ store₁ self [] ≡ ok (store₂, new_int (uint32_value v))))
  unfolding write_int64 read_int64 write_uint32 read_uint32
  read_int-write_int local₈ local₄ room small small' h h' =
      let (b₁, written, found) =
        read_int64-write_int64 fresh b (integer_value v) local₈ valid room empty small h in
      let (b₂, written', found') =
        read_uint32-write_uint32 fresh b (uint32_value v) local₄ valid (omega arith) empty small'
          h' in
      (
        write_then_read integer_value (λ n. new_int (n % 2 ^ 32)) (Buffer.write_int64 fresh)
            (λ b. Buffer.read_int64 b local₈) written found,
        write_then_read uint32_value new_int (Buffer.write_uint32 fresh)
            (λ b. Buffer.read_uint32 b local₄) written' found',
      )
