-- ===== src/Bindings/Texts.antt =====
-- The functions of src/c.h that are called with strings of JavaScript.
use v8h.Base.{
  leb, if◌then◌else◌, Bool-cases, inl, inr, ℕ, suc, ◌+◌, ◌≤◌, ◌<◌, ◌≡◌, refl, ap, ◌∙◌, List, [],
  ◌∷◌, ◌++◌, arith, ne→not-==, length, length-append, Option, some,
}
use v8h.Base.Memory.{splice}
use v8h.Base.Outcome.{Outcome, ok, fault, ◌>>=◌}
use v8h.Engine.{Engine}
use v8h.Heap.{IsHeap, block_at, c_string, c_text, free}
use v8h.Heap.Laws.{
  block_at-last, block_at-below, until_zero-end, store_last, store_last-fault, block_at-fault,
  free_last, find-next,
}
use v8h.Forward.{with_arg}
use v8h.Forward.Functions.{c_function_2_1}
use v8h.Helper.{World, to_pchar, destroy, pointer_or_null}
use v8h.Helper.SmartText.{WritesUtf8, IsPlain, utf8, holding, to_char_pointer-holding}
use v8h.Bindings.{Library, fopen, call_fopen, realpath, call_realpath}

module _ (e : Engine) (fresh : ℕ → ℕ) (writes : WritesUtf8 e) {S R : Type 0} where
  -- A call with a string whose text is still the last block when the call returns.
  with_arg-text :
      (v : e.Value) (call : ℕ → World S → Outcome (R × World S)) (w w₂ : World S) (r : R)
      → (block : List ℕ) (rest : List (ℕ × List ℕ)) → IsPlain e fresh v
      → 0 < w.heap.next
      → call w.heap.next (record w { heap = holding e fresh v w.heap }) ≡ ok (r, w₂)
      → w₂.heap.blocks ≡ (w.heap.next, block) ∷ rest
      → with_arg (to_pchar e fresh) v call w
        ≡ ok (r, record w₂ { heap = record { next = w₂.heap.next; blocks = rest } })
  unfolding with_arg to_pchar destroy
  with_arg-text v call w w₂ r block rest plain pos run last =
      let freed =
        ap (λ b. free w.heap.next (record { next = w₂.heap.next; blocks = b })) last
        ∙ free_last w.heap.next w₂.heap.next block rest pos in
      rw (
        to_char_pointer-holding e fresh v w.heap writes plain,
        run,
        ne→not-== w.heap.next 0 (λ (z : w.heap.next ≡ 0). omega arith),
        freed,
      )

module _ (e : Engine) (fresh : ℕ → ℕ) (lib : Library) (writes : WritesUtf8 e) (w : World lib.System)
    (this first second : e.Value) (args : List e.Value) (plain_first : IsPlain e fresh first)
    (plain_second : IsPlain e fresh second) (pos : 0 < w.heap.next) where
  -- the two texts in memory
  abbrev p : ℕ
  p = w.heap.next

  abbrev q : ℕ
  q = suc p

  abbrev both : World lib.System
  both = record w { heap = holding e fresh second (holding e fresh first w.heap) }

  abbrev text : e.Value → List ℕ
  text v = c_text (utf8 e fresh v)

  second_text : c_string q both.heap ≡ ok (text second)
  unfolding c_string
  second_text =
      rw
        (block_at-last q (suc q) (utf8 e fresh second ++ (0 ∷ []))
          (holding e fresh first w.heap).blocks)
        (until_zero-end (utf8 e fresh second))

  first_text : c_string p both.heap ≡ ok (text first)
  unfolding c_string
  first_text =
      rw
        (
          block_at-below p q (suc q) (utf8 e fresh second ++ (0 ∷ []))
              (holding e fresh first w.heap).blocks (λ e. omega (arith, e)),
          block_at-last p (suc q) (utf8 e fresh first ++ (0 ∷ [])) w.heap.blocks,
        )
        (until_zero-end (utf8 e fresh first))

  -- A function of two texts, when it leaves the second one as the last block and the first below it.
  two_texts :
      {R : Type 0} (ret : R → e.Value)
      (f : ℕ → ℕ → World lib.System → Outcome (R × World lib.System)) (r : R)
      (w' : World lib.System) (block : List ℕ)
      → f p q both ≡ ok (r, w')
      → w'.heap.blocks ≡ (q, block) ∷ (holding e fresh first w.heap).blocks
      → c_function_2_1 e.undefined
          (to_pchar e fresh)
          (to_pchar e fresh)
          ret
          f
          this
          (first ∷ second ∷ args)
          w
        ≡ ok (ret r, record w' { heap = record { next = w'.heap.next; blocks = w.heap.blocks } })
  unfolding c_function_2_1
  two_texts {R} ret f r w' block run last =
      with_arg-text e fresh writes first _ w
        (record w' {
          heap = record { next = w'.heap.next; blocks = (holding e fresh first w.heap).blocks };
        })
        (ret r) (utf8 e fresh first ++ (0 ∷ [])) w.heap.blocks plain_first pos inner refl
    where
      inner :
          with_arg
            (to_pchar e fresh)
            second
            (λ b w₁. f p b w₁ >>= λ (r, w). ok (ret r, w))
            (record w { heap = holding e fresh first w.heap })
          ≡ ok (
            ret r,
            record w' {
              heap = record { next = w'.heap.next; blocks = (holding e fresh first w.heap).blocks };
            },
          )
      inner =
          with_arg-text e fresh writes second (λ b w₁. f p b w₁ >>= λ (r, w). ok (ret r, w))
            (record w { heap = holding e fresh first w.heap }) w' (ret r) block
            (holding e fresh first w.heap).blocks plain_second (omega arith) (rw run) last

  two_texts-fault :
      {R : Type 0} (ret : R → e.Value)
      (f : ℕ → ℕ → World lib.System → Outcome (R × World lib.System))
      → f p q both ≡ fault
      → c_function_2_1 e.undefined
          (to_pchar e fresh)
          (to_pchar e fresh)
          ret
          f
          this
          (first ∷ second ∷ args)
          w
        ≡ fault
  unfolding c_function_2_1 with_arg to_pchar
  two_texts-fault ret f run = rw (
    to_char_pointer-holding e fresh first w.heap writes plain_first,
    to_char_pointer-holding e fresh second (holding e fresh first w.heap) writes plain_second,
    run,
  )

  -- `fopen` with two strings: the C function gets the UTF-8 texts of both, each up to its first NUL;
  -- its result is a pointer or null, and the memory is as before.
  pub fopen_lem :
      let (r, s) = lib.fopen w.system (text first) (text second) in
      fopen e fresh lib this (first ∷ second ∷ args) w
      ≡ ok (
        pointer_or_null e fresh r,
        record {
          heap = record { next = suc (suc w.heap.next); blocks = w.heap.blocks };
          system = s;
        },
      )
  unfolding fopen
  fopen_lem =
      let answer = lib.fopen w.system (text first) (text second) in
      two_texts (pointer_or_null e fresh) (call_fopen e fresh lib) answer.0
        (record both { system = answer.1 }) (utf8 e fresh second ++ (0 ∷ [])) called refl
    where
      called :
          call_fopen e fresh lib p q both
          ≡ ok (
            (lib.fopen w.system (text first) (text second)).0,
            record both { system = (lib.fopen w.system (text first) (text second)).1 },
          )
      called = unfold call_fopen in rw (first_text, second_text)

  -- `realpath` with two strings, where the C function finds a path: it is written over the second
  -- text, which is made for the call. If it is no longer than that text, the result points to this
  -- memory, which has been freed by then; if it is longer, it is written past the end.
  pub realpath_lem :
      (found : List ℕ)
      → IsHeap w.heap
      → (lib.realpath w.system (text first)).0 ≡ some found
      → let freed : World lib.System = record {
        heap = record { next = suc (suc w.heap.next); blocks = w.heap.blocks };
        system = (lib.realpath w.system (text first)).1;
      } in
        (realpath e fresh lib this (first ∷ second ∷ args) w ≡ (
          if leb (length found) (length (utf8 e fresh second))
          then ok (e.wrap_pointer (suc w.heap.next), freed)
          else fault))
        × (block_at (suc w.heap.next) freed.heap ≡ fault)
  unfolding realpath
  realpath_lem found heap finds = (
    elim (Bool-cases (leb (length found) (length (utf8 e fresh second)))) [
      | inl fits ↦ rw fits (dangling (ground arith))
      | inr long ↦ rw long (overflow (ground arith))
    ],
    block_at-fault q freed.heap (find-next w.heap.blocks p q heap.old (omega arith)),
  )
    where
      freed : World lib.System
      freed = record {
        heap = record { next = suc q; blocks = w.heap.blocks };
        system = (lib.realpath w.system (text first)).1;
      }

      answer : Option (List ℕ) × lib.System
      answer = lib.realpath w.system (text first)

      old : List (ℕ × List ℕ)
      old = (p, utf8 e fresh first ++ (0 ∷ [])) ∷ w.heap.blocks

      new : List ℕ
      new = splice (utf8 e fresh second ++ (0 ∷ [])) 0 (found ++ (0 ∷ []))

      lengths :
          (length (found ++ (0 ∷ [])) ≡ length found + 1)
          × (length (utf8 e fresh second ++ (0 ∷ [])) ≡ length (utf8 e fresh second) + 1)
      lengths = (length-append found (0 ∷ []), length-append (utf8 e fresh second) (0 ∷ []))

      not_null : pointer_or_null e fresh q ≡ e.wrap_pointer q
      not_null = unfold pointer_or_null in rw (ne→not-== q 0 (λ (z : q ≡ 0). omega arith))

      called :
          length found ≤ length (utf8 e fresh second)
          → call_realpath e fresh lib p q both
            ≡ ok (
              q,
              record {
                heap = record { next = suc q; blocks = (q, new) ∷ old };
                system = (lib.realpath w.system (text first)).1;
              },
            )
      called le =
          unfold call_realpath in
          rw (
            first_text,
            finds,
            ne→not-== q 0 (λ (z : q ≡ 0). omega arith),
            store_last q (suc q) 0 (found ++ (0 ∷ [])) (utf8 e fresh second ++ (0 ∷ [])) old
                (omega (arith, lengths)),
          )

      dangling :
          length found ≤ length (utf8 e fresh second)
          → realpath e fresh lib this (first ∷ second ∷ args) w ≡ ok (e.wrap_pointer q, freed)
      dangling le =
          two_texts (pointer_or_null e fresh) (call_realpath e fresh lib) q
            (record freed { heap = record { next = suc q; blocks = (q, new) ∷ old } }) new
            (called le) refl
          ∙ ap (λ v. ok (v, freed)) not_null

      overflow :
          length (utf8 e fresh second) < length found
          → realpath e fresh lib this (first ∷ second ∷ args) w ≡ fault
      overflow lt = two_texts-fault (pointer_or_null e fresh) (call_realpath e fresh lib) (
          unfold call_realpath in
          rw (
            first_text,
            finds,
            ne→not-== q 0 (λ (z : q ≡ 0). omega arith),
            store_last-fault q (suc q) 0 (found ++ (0 ∷ [])) (utf8 e fresh second ++ (0 ∷ [])) old
                (omega (arith, lengths)),
          ))
