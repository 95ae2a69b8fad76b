-- ===== src/BufferObject.antt =====
-- src/buffer.cc: the functions that V8 calls on a JavaScript object with a `Buffer` behind it, and
-- the macros of src/v8h_function.h that make the plain ones.
pub mod Text
pub mod Copy
pub mod Append
pub mod Integers
pub mod Lifetime
pub mod Macros
mod Tests
use v8h.Base.{
  ℕ, zero, suc, ◌+◌, ◌*◌, ◌%◌, ◌^◌, List, [], ◌∷◌, ◌++◌, Bool, ◌&&◌, Option, none, some, ltb, leb,
  ◌==◌, if◌then◌else◌, length, drop, size_max, int_mod,
}
use v8h.Base.Memory.{peek, poke}
use v8h.Base.Outcome.{Outcome, ok, fault, ◌>>=◌}
use v8h.Buffer
use v8h.Buffer.{Buffer, Source, outside, inside}
use v8h.Engine.{Engine, arg}
use v8h.Helper.Values.{
  to_uint, to_uint32, to_int32, to_int64, to_double, v8_uint, v8_int32, v8_uint32, v8_int64,
  v8_double,
}

-- The internal field of each object: its `Buffer`, or NULL.
abbrev pub Store : Type 0
Store = ℕ → Option Buffer

abbrev pub update : Store → ℕ → Option Buffer → Store
update store id field other = if other == id then field else store other

-- A member of the object behind NULL is out of reach.
unfoldable pub get_internal : Store → ℕ → Outcome Buffer
get_internal store id = elim (store id) [ none ↦ fault | some b ↦ ok b ]

-- `DEL_PTR`: a field that is NULL already stays so.
unfoldable pub del_ptr : Store → ℕ → Store
del_ptr store id = elim (store id) [ none ↦ store | some b ↦ update store id none ]

module _ (e : Engine) where
  open e use {
    Value, undefined, uint32_value, int32_value, integer_value, number_value, is_uint32, is_string,
    utf8_length, write_utf8 as store_utf8, string_length, write_ascii as store_ascii,
    write_ucs2 as store_ucs2, new_string, new_int, new_uint, new_number, wrap, to_object, of_object,
  }

  -- a function that V8 calls: the object and the arguments, the new store and the result
  abbrev pub Method : Type 0
  Method = Store → ℕ → List Value → Outcome (Store × Value)

  -- `V8H_FORWARD_FUNCTION_WITH_CLASS_0_0`, `_1_0`, `_0_1` and `_1_1`
  unfoldable pub forward_0_0 : (Buffer → Outcome Buffer) → Method
  forward_0_0 f store self args = do
    b ← get_internal store self
    b' ← f b
    ok (update store self (some b'), of_object self)

  unfoldable pub forward_1_0 : {A : Type 0} → (Value → A) → (Buffer → A → Outcome Buffer) → Method
  forward_1_0 to_arg f store self args = do
    b ← get_internal store self
    b' ← f b (to_arg (arg e args 0))
    ok (update store self (some b'), of_object self)

  unfoldable pub forward_0_1 : {A : Type 0} → (A → Value) → (Buffer → Outcome (Buffer × A)) → Method
  forward_0_1 to_value f store self args = do
    b ← get_internal store self
    (b', r) ← f b
    ok (update store self (some b'), to_value r)

  unfoldable pub forward_1_1 :
      {A B : Type 0} → (Value → A) → (B → Value) → (Buffer → A → Outcome (Buffer × B)) → Method
  forward_1_1 to_arg to_value f store self args = do
    b ← get_internal store self
    (b', r) ← f b (to_arg (arg e args 0))
    ok (update store self (some b'), to_value r)

  unfoldable pub commit : Method
  commit = forward_1_0 (to_uint e) (λ b n. ok (Buffer.commit b n))

  unfoldable pub consume : Method
  consume = forward_1_0 (to_uint e) (λ b n. ok (Buffer.consume b n))

  unfoldable pub size : Method
  size = forward_0_1 (v8_uint e) (λ b. ok (b, b.size))

  unfoldable pub reserve : Method
  reserve = forward_0_1 (v8_uint e) (λ b. ok (b, b.reserve))

  unfoldable pub remain : Method
  remain = forward_0_1 (v8_uint e) (λ b. ok (b, Buffer.remain b))

  -- a pointer to the contents
  unfoldable pub data_pointer : Method
  data_pointer store self args = forward_0_1 (wrap self) (λ b. ok (b, b.cursor)) store self args

  -- `show` leaves the object alone; what it prints is the result of `Buffer.show`.
  unfoldable pub show : Method
  show = forward_0_0 (λ b. Buffer.show b >>= λ _. ok b)

  unfoldable pub clear : Method
  clear = forward_0_0 (λ b. ok (Buffer.clear b))

  unfoldable pub close : Method
  close store self args = ok (del_ptr store self, of_object self)

  unfoldable pub read_int32 : List ℕ → Method
  read_int32 local = forward_0_1 (v8_int32 e) (λ b. Buffer.read_int32 b local)

  unfoldable pub read_uint32 : List ℕ → Method
  read_uint32 local = forward_0_1 (v8_uint32 e) (λ b. Buffer.read_uint32 b local)

  unfoldable pub read_int64 : List ℕ → Method
  read_int64 local = forward_0_1 (v8_int64 e) (λ b. Buffer.read_int64 b local)

  unfoldable pub read_double : List ℕ → Method
  read_double local = forward_0_1 (v8_double e) (λ b. Buffer.read_double b local)

  -- the number of bytes asked for, or all, but no more than there are
  unfoldable pub clamped : Buffer → List Value → ℕ
  clamped b args =
      let n = if ltb 0 (length args) then uint32_value (arg e args 0) else b.size in
      if ltb b.size n then b.size else n

  unfoldable pub peek_utf8 : Method
  peek_utf8 store self args = do
    b ← get_internal store self
    bytes ← peek b.block b.cursor (clamped b args)
    ok (store, new_string bytes)

  unfoldable pub read_utf8 : Method
  read_utf8 store self args = do
    b ← get_internal store self
    bytes ← peek b.block b.cursor (clamped b args)
    ok (update store self (some (Buffer.consume b (clamped b args))), new_string bytes)

  unfoldable pub partial_find_buffer : Method
  partial_find_buffer store self args = do
    b ← get_internal store self
    needle ← get_internal store (to_object (arg e args 0))
    pos ← Buffer.partial_find b needle (uint32_value (arg e args 1))
    ok (store, new_int pos)

  -- the second argument, or the whole buffer
  unfoldable pub requested : Buffer → List Value → ℕ
  requested b args = if ltb 1 (length args) then uint32_value (arg e args 1) else b.size

  module _ (fresh : ℕ → ℕ) where
    unfoldable pub prepare : Method
    prepare store self args =
        forward_1_1 (to_uint e) (wrap self) (Buffer.prepare fresh) store self args

    unfoldable pub zero_end : Method
    zero_end = forward_0_0 (Buffer.zero_end fresh)

    unfoldable pub write_uint32 : Method
    write_uint32 = forward_1_0 (to_uint32 e) (Buffer.write_uint32 fresh)

    unfoldable pub write_int32 : Method
    write_int32 = forward_1_0 (to_int32 e) (Buffer.write_int32 fresh)

    unfoldable pub write_int64 : Method
    write_int64 = forward_1_0 (to_int64 e) (Buffer.write_int64 fresh)

    unfoldable pub write_double : Method
    write_double = forward_1_0 (to_double e) (Buffer.write_double fresh)

    -- `write(Handle<Value> data)`: V8 stores the text itself in the room that `prepare` made.
    unfoldable pub write_value : Buffer → Value → Outcome Buffer
    write_value b v = do
      (b', at) ← Buffer.prepare fresh b (utf8_length v)
      let bytes = store_utf8 v (utf8_length v)
      block ← poke b'.block at bytes
      ok (Buffer.commit (record b' { block = block }) (length bytes))

    unfoldable pub write_utf8 : Method
    write_utf8 store self args = do
      b ← get_internal store self
      b' ← write_value b (arg e args 0)
      ok (update store self (some b'), of_object self)

    -- `Write` stores 16-bit units; what it returns, and `commit` counts, is their number.
    unfoldable pub write_ucs2 : Method
    write_ucs2 store self args = do
      b ← get_internal store self
      let text = arg e args 0
      (b', at) ← Buffer.prepare fresh b (string_length text * 2)
      block ← poke b'.block at (store_ucs2 text)
      ok (
        update store self (some (Buffer.commit (record b' { block = block }) (string_length text))),
        of_object self,
      )

    unfoldable pub write_ascii : Method
    write_ascii store self args = do
      b ← get_internal store self
      let text = arg e args 0
      (b', at) ← Buffer.prepare fresh b (string_length text)
      let bytes = store_ascii text (string_length text)
      block ← poke b'.block at bytes
      ok (
        update store self (some (Buffer.commit (record b' { block = block }) (length bytes))),
        of_object self,
      )

    -- `dest->write(buffer->data(), n)`, where both may be one object
    unfoldable pub copy : Store → ℕ → ℕ → ℕ → Outcome Store
    copy store src dest n = do
      b ← get_internal store src
      d ← get_internal store dest
      let source = if src == dest then inside b.cursor else outside (drop b.cursor b.block)
      d' ← Buffer.write fresh d source n
      ok (update store dest (some d'))

    unfoldable pub peek_buffer : Method
    peek_buffer store self args = do
      b ← get_internal store self
      store' ← copy store self (to_object (arg e args 0)) (requested b args)
      ok (store', of_object self)

    unfoldable pub read_buffer : Method
    read_buffer store self args = do
      b ← get_internal store self
      let n = requested b args
      store' ← copy store self (to_object (arg e args 0)) n
      b' ← get_internal store' self
      ok (update store' self (some (Buffer.commit b' n)), of_object self)

    -- `(size_t) -1` is cut down to the size of the source.
    unfoldable pub write_buffer : Method
    write_buffer store self args = do
      let id = to_object (arg e args 0)
      d ← get_internal store self
      b ← get_internal store id
      let n = if ltb b.size size_max then b.size else size_max
      d' ← if id == self then Buffer.write_self fresh d n else Buffer.write_buffer fresh d b n
      ok (update store self (some d'), of_object self)

    unfoldable pub constructor : Method
    constructor store self args =
        let first = arg e args 0 in
        let given = ltb 0 (length args) in
        let reserve = if given && is_uint32 first then uint32_value first else 1024 in
        let store' = update store self (some (Buffer.new fresh reserve)) in
        if given && is_string first
        then write_utf8 store' self args
        else ok (store', of_object self)
