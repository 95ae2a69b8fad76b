-- ===== src/Heap.antt =====
-- The memory of the C library that src/v8h_helper.h and src/c.h allocate, read, write and free.
pub mod Laws
use v8h.Base.{
  ℕ, suc, ◌+◌, ◌≡◌, ◌<◌, List, [], ◌∷◌, ◌++◌, Option, none, some, ◌==◌, if◌then◌else◌, tabulate,
  All,
}
use v8h.Base.Memory.{peek, poke}
use v8h.Base.Outcome.{Outcome, ok, fault, ◌>>=◌}

-- The blocks that are allocated, the last one first, each under its address; 0 is NULL. Addresses are
-- not used again: so a pointer to freed memory is never one to a new block.
pub record Heap : Type 0 where
  pub next : ℕ
  pub blocks : List (ℕ × List ℕ)

abbrev pub find : {A : Type 0} → List (ℕ × A) → ℕ → Option A
find [] p = none
find ((q, block) ∷ blocks) p = if q == p then some block else find blocks p

abbrev pub replace : {A : Type 0} → List (ℕ × A) → ℕ → A → List (ℕ × A)
replace [] p new = []
replace ((q, block) ∷ blocks) p new =
    if q == p then (q, new) ∷ blocks else (q, block) ∷ replace blocks p new

abbrev pub delete : {A : Type 0} → List (ℕ × A) → ℕ → List (ℕ × A)
delete [] p = []
delete ((q, block) ∷ blocks) p = if q == p then blocks else (q, block) ∷ delete blocks p

-- no block behind the addresses that have been given, and none at NULL
pub record IsHeap (h : Heap) : Type 0 where
  pub positive : 0 < h.next
  pub old : All (λ (b : ℕ × List ℕ). b.0 < h.next) h.blocks

-- `malloc`; `fresh` is what stands in new memory.
unfoldable pub malloc : (ℕ → ℕ) → ℕ → Heap → ℕ × Heap
malloc fresh size h =
    (h.next, record { next = suc h.next; blocks = (h.next, tabulate fresh 0 size) ∷ h.blocks })

-- `free` of NULL does nothing; of what is not allocated it is undefined.
unfoldable pub free : ℕ → Heap → Outcome Heap
free p h = if p == 0 then ok h else elim (find h.blocks p) [
  | none ↦ fault
  | some block ↦ ok (record h { blocks = delete h.blocks p })
]

-- the whole block that a pointer points to
unfoldable pub block_at : ℕ → Heap → Outcome (List ℕ)
block_at p h = elim (find h.blocks p) [ none ↦ fault | some block ↦ ok block ]

unfoldable pub load : ℕ → ℕ → Heap → Outcome (List ℕ)
load p n h = block_at p h >>= λ block. peek block 0 n

unfoldable pub store : ℕ → ℕ → List ℕ → Heap → Outcome Heap
store p offset bytes h = do
  block ← block_at p h
  block' ← poke block offset bytes
  ok (record h { blocks = replace h.blocks p block' })

-- the bytes in front of a NUL, which must stand in the block
abbrev pub until_zero : List ℕ → Outcome (List ℕ)
until_zero [] = fault
until_zero (c ∷ l) = if c == 0 then ok [] else until_zero l >>= λ text. ok (c ∷ text)

-- the text that a `char *` points to
unfoldable pub c_string : ℕ → Heap → Outcome (List ℕ)
c_string p h = block_at p h >>= λ block. until_zero block

-- what C takes for the text when the bytes are followed by a NUL
abbrev pub c_text : List ℕ → List ℕ
c_text [] = []
c_text (c ∷ l) = if c == 0 then [] else c ∷ c_text l
