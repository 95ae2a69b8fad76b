-- ===== src/Bindings/Tidy.antt =====
-- Which memory a call of the C library through src/c.h leaves behind.
use v8h.Base.{
  ℕ, suc, ◌+◌, ◌<◌, ◌≡◌, refl, ◌∙◌, List, [], ◌∷◌, ◌||◌, arith, Bool-cases, ne→not-==, inl, inr,
  tabulate,
}
use v8h.Base.Memory.{poke}
use v8h.Base.Outcome.{Outcome, ok, fault, spin, ◌>>=◌}
use v8h.Engine.{Engine}
use v8h.Heap.{Heap, replace, malloc, free, block_at, store}
use v8h.Heap.Laws.{addresses, addresses-replace, free_last}
use v8h.Forward.{Conversion, plain, with_arg}
use v8h.Helper.{World, SmartString, smart_string, destroy, to_char_pointer, to_pchar}

abbrev pub live : {S : Type 0} → World S → List ℕ
live w = addresses w.heap.blocks

-- A call that returns leaves the same blocks live.
abbrev pub Tidy : {S R : Type 0} → World S → Outcome (R × World S) → Type 0
Tidy w fault = Unit
Tidy w spin = Unit
Tidy w (ok r) = live r.1 ≡ live w

module _ {S Value A : Type 0} (c : Conversion (World S) Value A) where
  -- What has been allocated for an argument can be freed once, when nothing else has changed what is
  -- live, and then is gone.
  abbrev pub Converted : World S → Outcome (c.Temporary × A × World S) → Type 0
  Converted w fault = Unit
  Converted w spin = Unit
  Converted w (ok (t, a, w₁)) =
      (0 < w₁.heap.next)
      × ((w₂ : World S)
          → live w₂ ≡ live w₁
          → (w₃ : World S) × (c.destroy t w₂ ≡ ok w₃) × (live w₃ ≡ live w))

  abbrev pub IsScoped : Type 0
  IsScoped = (v : Value) (w : World S) → 0 < w.heap.next → Converted w (c.convert v w)

  module _ {R : Type 0} (call : A → World S → Outcome (R × World S)) where
    closed :
        (w w₁ : World S) (t : c.Temporary)
        → ((w₂ : World S)
            → live w₂ ≡ live w₁
            → (w₃ : World S) × (c.destroy t w₂ ≡ ok w₃) × (live w₃ ≡ live w))
        → (m : Outcome (R × World S)) → Tidy w₁ m
        → Tidy w (m >>= λ (r, w₂). c.destroy t w₂ >>= λ w₃. ok (r, w₃))
    closed w w₁ t closes fault h = tt
    closed w w₁ t closes spin h = tt
    closed w w₁ t closes (ok (r, w₂)) h = let (w₃, run, same) = closes w₂ h in rw run same

    opened :
        (w : World S) (m : Outcome (c.Temporary × A × World S))
        → Converted w m
        → ((a : A) (w₁ : World S) → 0 < w₁.heap.next → Tidy w₁ (call a w₁))
        → Tidy w (m >>= λ (t, a, w₁). call a w₁ >>= λ (r, w₂). c.destroy t w₂ >>= λ w₃. ok (r, w₃))
    opened w fault h tidy = tt
    opened w spin h tidy = tt
    opened w (ok (t, a, w₁)) h tidy = closed w w₁ t h.1 (call a w₁) (tidy a w₁ h.0)

    pub with_arg-Tidy :
        (v : Value) (w : World S)
        → IsScoped
        → ((a : A) (w₁ : World S) → 0 < w₁.heap.next → Tidy w₁ (call a w₁))
        → 0 < w.heap.next
        → Tidy w (with_arg c v call w)
    unfolding with_arg
    with_arg-Tidy v w scoped tidy pos = opened w (c.convert v w) (scoped v w pos) tidy

pub plain-IsScoped : {S Value A : Type 0} (f : Value → A) → IsScoped {S = S} (plain f)
plain-IsScoped f v w pos = (pos, λ w₂ same. (w₂, refl, same))

-- what storing leaves
abbrev pub Stored : Heap → Outcome Heap → Type 0
Stored h fault = Unit
Stored h spin = Unit
Stored h (ok h') = (addresses h'.blocks ≡ addresses h.blocks) × (h'.next ≡ h.next)

Stored-replace :
    (h : Heap) (p : ℕ) (m : Outcome (List ℕ))
    → Stored h (m >>= λ block. ok (record h { blocks = replace h.blocks p block }))
Stored-replace h p fault = tt
Stored-replace h p spin = tt
Stored-replace h p (ok block) = (addresses-replace h.blocks p block, refl)

Stored-poke :
    (h : Heap) (p offset : ℕ) (bytes : List ℕ) (m : Outcome (List ℕ))
    → Stored h (
        m >>= λ block.
        poke block offset bytes >>= λ block'. ok (record h { blocks = replace h.blocks p block' }))
Stored-poke h p offset bytes fault = tt
Stored-poke h p offset bytes spin = tt
Stored-poke h p offset bytes (ok block) = Stored-replace h p (poke block offset bytes)

pub store-Stored : (h : Heap) (p offset : ℕ) (bytes : List ℕ) → Stored h (store p offset bytes h)
unfolding store
store-Stored h p offset bytes = Stored-poke h p offset bytes (block_at p h)

head_eq : (p q : ℕ) (l m : List ℕ) → p ∷ l ≡ q ∷ m → (p ≡ q) × (l ≡ m)
head_eq p q l m h = (cc, cc)

-- A block that was allocated last can be freed when nothing else has changed what is live.
freed :
    (p : ℕ) (h : Heap) (rest : List ℕ)
    → 0 < p
    → addresses h.blocks ≡ p ∷ rest
    → (h' : Heap) × (free p h ≡ ok h') × (addresses h'.blocks ≡ rest)
freed p h rest pos same = go h.blocks same
  where
    go :
        (blocks : List (ℕ × List ℕ))
        → addresses blocks ≡ p ∷ rest
        → (h' : Heap) × (free p (record h { blocks = blocks }) ≡ ok h')
          × (addresses h'.blocks ≡ rest)
    go [] e = absurd (cc)
    go ((q, block) ∷ blocks) e =
        let (first, others) = head_eq q p (addresses blocks) rest e in
        (record h { blocks = blocks }, rw first (free_last p h.next block blocks pos), others)

module _ (e : Engine) (fresh : ℕ → ℕ) where
  -- what a text takes
  abbrev Taken : Heap → Outcome (SmartString e fresh × ℕ × Heap) → Type 0
  Taken h fault = Unit
  Taken h spin = Unit
  Taken h (ok (s, p, h₁)) =
      (0 < h₁.next)
      × ((h₂ : Heap)
          → addresses h₂.blocks ≡ addresses h₁.blocks
          → (h₃ : Heap) × (destroy e fresh s h₂ ≡ ok h₃)
            × (addresses h₃.blocks ≡ addresses h.blocks))

  Taken-one :
      (h h₁ : Heap) (v : e.Value)
      → 0 < h.next
      → 0 < h₁.next
      → addresses h₁.blocks ≡ h.next ∷ addresses h.blocks
      → (m : Outcome Heap) → Stored h₁ m
      → Taken h (m >>= λ h₂. ok (record { value = v; address = h.next }, h.next, h₂))
  Taken-one h h₁ v pos pos₁ same fault kept = tt
  Taken-one h h₁ v pos pos₁ same spin kept = tt
  Taken-one h h₁ v pos pos₁ same (ok h₂) kept = (
    omega (arith, kept.1),
    λ h₃ e.
        unfold destroy in
        rw (ne→not-== h.next 0 (λ (z : h.next ≡ 0). omega arith))
          (freed h.next h₃ (addresses h.blocks) pos (e ∙ kept.0 ∙ same)),
  )

  Taken-text :
      (h h₁ : Heap) (v : e.Value) (n : ℕ)
      → 0 < h.next
      → 0 < h₁.next
      → addresses h₁.blocks ≡ h.next ∷ addresses h.blocks
      → (m : Outcome Heap) → Stored h₁ m
      → Taken h (
          m >>= λ h₂. store h.next n (0 ∷ []) h₂ >>= λ h₃.
          ok (record { value = v; address = h.next }, h.next, h₃))
  Taken-text h h₁ v n pos pos₁ same fault kept = tt
  Taken-text h h₁ v n pos pos₁ same spin kept = tt
  Taken-text h h₁ v n pos pos₁ same (ok h₂) kept =
      Taken-one h h₂ v pos (omega (arith, kept.1)) (kept.0 ∙ same) (store h.next n (0 ∷ []) h₂)
        (store-Stored h₂ h.next n (0 ∷ []))

  to_char_pointer-Taken :
      (v : e.Value) (h : Heap)
      → 0 < h.next
      → Taken h (to_char_pointer e fresh (smart_string e fresh v) h)
  unfolding to_char_pointer smart_string malloc destroy
  to_char_pointer-Taken v h pos = elim (Bool-cases (e.is_external v || e.is_number v)) [
    | inl address ↦ rw address (pos, λ h₂ same. (h₂, refl, same))
    | inr text ↦
        let n = e.utf8_length v in
        let h₁ : Heap = record {
          next = suc h.next;
          blocks = (h.next, tabulate fresh 0 (n + 1)) ∷ h.blocks;
        } in
        rw text (
          Taken-text h h₁ v n pos (omega arith) refl (store h.next 0 (e.write_utf8 v n) h₁)
            (store-Stored h₁ h.next 0 (e.write_utf8 v n)))
  ]

  module _ {S : Type 0} where
    -- Whatever the value is.
    pub to_pchar-IsScoped : IsScoped (to_pchar e fresh {System = S})
    unfolding to_pchar
    to_pchar-IsScoped v w pos =
        lifted (to_char_pointer e fresh (smart_string e fresh v) w.heap)
          (to_char_pointer-Taken v w.heap pos)
      where
        lifted :
            (m : Outcome (SmartString e fresh × ℕ × Heap))
            → Taken w.heap m
            → Converted (to_pchar e fresh) w (m >>= λ (s, p, h). ok (s, p, record w { heap = h }))
        lifted fault t = tt
        lifted spin t = tt
        lifted (ok (s, p, h)) t = (
          t.0,
          λ w₂ same.
              let (h₃, run, same₃) = t.1 w₂.heap same in (record w₂ { heap = h₃ }, rw run, same₃),
        )
