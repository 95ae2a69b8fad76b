-- ===== src/BufferObject/Text.antt =====
-- The text functions of JavaScript's `Buffer`, and what a store is (src/buffer.cc).
use v8h.Base.{
  ℕ, ◌≤◌, ◌≡◌, ◌≢◌, refl, sym, ap, ◌∙◌, List, arith, ltb, if◌then◌else◌, ne→not-==, eq→==, length,
  take, drop, min, take-take-min, drop-min, Option, some, none,
}
use v8h.Base.Memory.{peek, peek-ok, poke-ok}
use v8h.Base.Outcome.{ok, fault}
use v8h.Buffer
use v8h.Buffer.{Buffer}
use v8h.Buffer.Valid.{IsValid, contents, length-contents, CanGrow, prepare-IsPrepared}
use v8h.Buffer.Write.{IsAppended, filled, filled-IsAppended}
use v8h.Buffer.Consume.{consume-drop}
use v8h.Engine.{Engine, arg}
use v8h.BufferObject.{Store, update, get_internal, clamped, peek_utf8, read_utf8, write_value}

pub get_internal-some :
    (store : Store) (id : ℕ) (b : Buffer) → store id ≡ some b → get_internal store id ≡ ok b
unfolding get_internal
get_internal-some store id b h = rw (h, get_internal)

pub get_internal-none : (store : Store) (id : ℕ) → store id ≡ none → get_internal store id ≡ fault
unfolding get_internal
get_internal-none store id h = rw (h, get_internal)

pub update_self :
    (store : Store) (id : ℕ) (field : Option Buffer) → update store id field id ≡ field
update_self store id field = rw (eq→== id id refl)

pub update_other :
    (store : Store) (id other : ℕ) (field : Option Buffer)
    → other ≢ id
    → update store id field other ≡ store other
update_other store id other field h = rw (ne→not-== other id h)

module _ (e : Engine) (store : Store) (self : ℕ) (b : Buffer) (here : store self ≡ some b)
    (v : IsValid b) where
  -- the number of bytes asked for: the first argument, or all of them
  abbrev asked : List e.Value → ℕ
  asked args = if ltb 0 (length args) then e.uint32_value (arg e args 0) else b.size

  clamped-eq-min : (args : List e.Value) → clamped e b args ≡ min (asked args) b.size
  unfolding clamped
  clamped-eq-min args = ground arith

  peek-clamped :
      (args : List e.Value)
      → peek b.block b.cursor (clamped e b args) ≡ ok (take (asked args) (contents b))
  peek-clamped args =
      ap (peek b.block b.cursor) (clamped-eq-min args)
      ∙ peek-ok b.block b.cursor (min (asked args) b.size)
          (omega (arith, v.allocated, v.live, v.fits))
      ∙ ap ok (take-take-min (asked args) b.size (drop b.cursor b.block))

  -- `peekUtf8` makes a text of the first bytes, as many as asked for and no more than there are, and
  -- leaves all objects alone.
  pub peek_utf8_lem :
      (args : List e.Value)
      → peek_utf8 e store self args ≡ ok (store, e.new_string (take (asked args) (contents b)))
  unfolding peek_utf8
  peek_utf8_lem args = rw (get_internal-some store self b here, peek-clamped args)

  -- `readUtf8` on an object with a valid buffer makes a text of the first bytes, as many as the
  -- argument says, or all without an argument, and no more than there are; it removes them from this
  -- object's buffer, which stays valid. No other object changes.
  pub read_utf8_lem :
      (args : List e.Value)
      → (b' : Buffer) × (read_utf8 e store self args
          ≡ ok (update store self (some b'), e.new_string (take (asked args) (contents b))))
        × IsValid b'
        × (contents b' ≡ drop (asked args) (contents b))
  unfolding read_utf8
  read_utf8_lem args =
      let (valid, rest, _, _) = consume-drop (clamped e b args) v in
      (
        Buffer.consume b (clamped e b args),
        rw (get_internal-some store self b here, peek-clamped args),
        valid,
        rest
            ∙ ap (λ k. drop k (contents b))
                (clamped-eq-min args ∙ sym (ap (min (asked args)) (length-contents v)))
            ∙ drop-min (asked args) (contents b),
      )

-- V8 stores no more bytes than it is given room for.
abbrev pub StoresUtf8 : Engine → Type 0
StoresUtf8 e = (x : e.Value) → length (e.write_utf8 x (e.utf8_length x)) ≤ e.utf8_length x

-- `writeUtf8` appends the bytes that V8 stores for its argument, if V8 stores no more bytes than
-- `Utf8Length` tells.
pub write_value-IsAppended :
    (e : Engine) (fresh : ℕ → ℕ) (b : Buffer) (x : e.Value)
    → StoresUtf8 e
    → IsValid b
    → CanGrow b (e.utf8_length x)
    → (b' : Buffer) × (write_value e fresh b x ≡ ok b')
      × IsAppended b (e.write_utf8 x (e.utf8_length x)) b'
unfolding write_value
write_value-IsAppended e fresh b x stores v c =
    let n = e.utf8_length x in
    let bytes = e.write_utf8 x n in
    let (p, run, h) = prepare-IsPrepared fresh b n v c in
    (
      filled p (length bytes) bytes,
      rw (
        run,
        ← h.same_used,
        poke-ok p.block p.used bytes
            (omega (arith, h.valid.allocated, h.room, h.same_used, stores x)),
      ),
      filled-IsAppended b p n (length bytes) bytes h refl
          (omega (arith, stores x, h.room, h.same_used)),
    )
