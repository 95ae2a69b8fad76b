-- ===== src/Helper/SmartText.antt =====
-- `SmartString` of src/v8h_helper.h: the text that a C function gets for a string of JavaScript, and
-- its memory.
use v8h.Base.{
  ℕ, suc, ◌+◌, ◌≤◌, ◌≡◌, sym, ap, ◌∙◌, List, [], ◌∷◌, ◌++◌, false, arith, length, take, drop,
  length-append, length-drop, take_all, drop_all, take-append_left, tabulate, length-tabulate,
}
use v8h.Base.Memory.{splice, length-splice}
use v8h.Base.Outcome.{ok}
use v8h.Engine.{Engine}
use v8h.Heap.{Heap, malloc}
use v8h.Heap.Laws.{store_last}
use v8h.Helper.{smart_string, to_char_pointer}

-- `WriteUtf8` with the room that `Utf8Length` asks for stores a text that fills it.
abbrev pub WritesUtf8 : Engine → Type 0
WritesUtf8 e = (v : e.Value) → length (e.write_utf8 v (e.utf8_length v)) ≡ e.utf8_length v

-- the bytes in the room, and one byte more for the NUL
spliced :
    (block bytes : List ℕ)
    → length block ≡ length bytes + 1
    → splice (splice block 0 bytes) (length bytes) (0 ∷ []) ≡ bytes ++ (0 ∷ [])
spliced block bytes h =
    let r = drop (0 + length bytes) block in
    let n = length bytes in
    let front : take n (bytes ++ r) ≡ bytes =
      take-append_left n bytes r (omega arith) ∙ take_all n bytes (omega arith) in
    let back : drop (n + 1) (bytes ++ r) ≡ [] =
      drop_all (n + 1) (bytes ++ r)
        (omega (arith, length-append bytes r, length-drop (0 + n) block)) in
    ap (λ l. take n (bytes ++ r) ++ (0 ∷ l)) back ∙ ap (λ l. l ++ (0 ∷ [])) front

module _ (e : Engine) (fresh : ℕ → ℕ) where
  -- a value that is made a text
  abbrev pub IsPlain : e.Value → Type 0
  IsPlain v = (e.is_external v ≡ false) × (e.is_number v ≡ false)

  abbrev pub utf8 : e.Value → List ℕ
  utf8 v = e.write_utf8 v (e.utf8_length v)

  -- the memory while the text is there
  abbrev pub holding : e.Value → Heap → Heap
  holding v h = record { next = suc h.next; blocks = (h.next, utf8 v ++ (0 ∷ [])) ∷ h.blocks }

  pub to_char_pointer-holding :
      (v : e.Value) (h : Heap)
      → WritesUtf8 e
      → IsPlain v
      → to_char_pointer e fresh (smart_string e fresh v) h
        ≡ ok (record { value = v; address = h.next }, h.next, holding v h)
  unfolding to_char_pointer smart_string malloc
  to_char_pointer-holding v h writes plain =
      let g = tabulate fresh 0 (e.utf8_length v + 1) in
      let len = length-tabulate fresh 0 (e.utf8_length v + 1) in
      let n = e.utf8_length v in
      let room : 0 + length (utf8 v) ≤ length g = omega (arith, len, writes v) in
      let g' = splice g 0 (utf8 v) in
      let room' : n + 1 ≤ length g' = omega (arith, length-splice g 0 (utf8 v) room, len) in
      let first = store_last h.next (suc h.next) 0 (utf8 v) g h.blocks room in
      let second = store_last h.next (suc h.next) n (0 ∷ []) g' h.blocks room' in
      let whole : splice g' n (0 ∷ []) ≡ utf8 v ++ (0 ∷ []) =
        ap (λ k. splice g' k (0 ∷ [])) (sym (writes v))
        ∙ spliced g (utf8 v) (omega (arith, len, writes v)) in
      rw (plain.0, plain.1, first, second, whole)
