-- ===== src/Buffer/Consume.antt =====
-- Taking from the front: `Buffer::consume`, `clear`, `sweep`, `show` and `~Buffer` (src/buffer.cc).
use v8h.Base.{
  if◌then◌else◌, ℕ, ◌+◌, ◌≡◌, refl, ◌∙◌, [], arith, leb, Bool-cases, inl, inr, length, drop,
  take_all, take-append_left, drop_all,
}
use v8h.Base.Memory.{slice, drop-slice, splice, length-splice, peek-ok, poke-ok}
use v8h.Base.Outcome.{ok}
use v8h.Buffer.{Buffer, consume, clear, sweep, show, destroy}
use v8h.Buffer.Valid.{IsValid, contents, length-contents}

-- A cleared buffer is valid and empty.
pub clear-IsValid : {b : Buffer} → IsValid b → IsValid (clear b) × (contents (clear b) ≡ [])
unfolding clear
clear-IsValid v = (omega arith, refl)

-- `consume` of `n` bytes of a valid buffer removes the first `n`, all of them if there are fewer,
-- and keeps the invariant. The capacity stays; a buffer that becomes empty begins at the front of
-- its block again.
pub consume-drop :
    {b : Buffer} (n : ℕ)
    → IsValid b
    → IsValid (consume b n)
      × (contents (consume b n) ≡ drop n (contents b))
      × ((consume b n).reserve ≡ b.reserve)
      × ((consume b n).used ≡ (if leb b.size n then 0 else b.used))
unfolding consume clear
consume-drop {b} n v = (ground arith, text, ground arith, ground arith)
  where
    text : contents (consume b n) ≡ drop n (contents b)
    text = elim (Bool-cases (leb b.size n)) [
      | inl all ↦ ground (arith, drop_all n (contents b), length-contents v)
      | inr part ↦ ground (arith, drop-slice b.block b.cursor b.size n)
    ]

-- `sweep` of a valid buffer moves the contents to the front of the block; the buffer stays valid,
-- with the same contents and capacity.
pub sweep-contents :
    {b : Buffer}
    → IsValid b
    → (b' : Buffer) × (sweep b ≡ ok b')
      × IsValid b'
      × (contents b' ≡ contents b)
      × (b'.cursor ≡ 0)
      × (b'.reserve ≡ b.reserve)
unfolding sweep
sweep-contents {b} v = (
  record b { block = splice b.block 0 (contents b); cursor = 0; used = b.size },
  rw (
    peek-ok b.block b.cursor b.size (omega arith),
    poke-ok b.block 0 (contents b) (omega (arith, length-contents v)),
  ),
  omega (
    arith,
    length-splice b.block 0 (contents b) (omega (arith, length-contents v)),
    length-contents v,
  ),
  moved,
  refl,
  refl,
)
  where
    moved : slice (splice b.block 0 (contents b)) 0 b.size ≡ contents b
    moved =
        take-append_left b.size (contents b) (drop (0 + length (contents b)) b.block)
          (omega (arith, length-contents v))
        ∙ take_all b.size (contents b) (omega (arith, length-contents v))

-- `show` writes the contents.
pub show_lem : {b : Buffer} → IsValid b → show b ≡ ok (contents b)
unfolding show
show_lem {b} v = peek-ok b.block b.cursor b.size (omega arith)

-- What a valid buffer has reported to V8 as external memory is nothing in all when the object is
-- gone.
pub destroy-zero : {b : Buffer} → IsValid b → destroy b ≡ 0
unfolding destroy
destroy-zero v = omega arith
