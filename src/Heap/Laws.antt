-- ===== src/Heap/Laws.antt =====
-- What holds of the memory of src/v8h_helper.h and src/c.h.
use v8h.Base.{
  ℕ, ◌+◌, ◌<◌, ◌≡◌, ◌≢◌, refl, ap, List, [], ◌∷◌, ◌++◌, arith, ◌==◌, Bool-cases, ne→not-==, eq→==,
  inl, inr, none, All, length, ◌≤◌,
}
use v8h.Base.Memory.{splice, poke-ok, poke-fault}
use v8h.Base.Outcome.{ok, fault}
use v8h.Heap.{Heap, find, replace, free, block_at, store, until_zero, c_text}

pub until_zero-end : (bytes : List ℕ) → until_zero (bytes ++ (0 ∷ [])) ≡ ok (c_text bytes)
until_zero-end [] = refl
until_zero-end (c ∷ bytes) = elim (Bool-cases (c == 0)) [
  | inl e ↦ rw e
  | inr e ↦ rw (e, until_zero-end bytes)
]

-- the addresses of the live blocks
abbrev pub addresses : {A : Type 0} → List (ℕ × A) → List ℕ
addresses [] = []
addresses ((p, block) ∷ blocks) = p ∷ addresses blocks

pub addresses-replace :
    {A : Type 0} (blocks : List (ℕ × A)) (p : ℕ) (new : A)
    → addresses (replace blocks p new) ≡ addresses blocks
addresses-replace [] p new = refl
addresses-replace ((q, block) ∷ blocks) p new = elim (Bool-cases (q == p)) [
  | inl e ↦ rw e
  | inr e ↦ rw e (ap (λ l. q ∷ l) (addresses-replace blocks p new))
]

-- Nothing stands at an address that has not been given.
pub find-next :
    (blocks : List (ℕ × List ℕ)) (n p : ℕ)
    → All (λ (b : ℕ × List ℕ). b.0 < n) blocks
    → n ≤ p
    → find blocks p ≡ none
find-next [] n p h le = refl
find-next ((q, block) ∷ blocks) n p h le =
    rw (ne→not-== q p (λ (e : q ≡ p). omega (arith, h.0, e))) (find-next blocks n p h.1 le)

-- The block that has been allocated last is the first one, and freeing it leaves the others.
pub free_last :
    (p next : ℕ) (block : List ℕ) (blocks : List (ℕ × List ℕ))
    → 0 < p
    → free p (record { next = next; blocks = (p, block) ∷ blocks })
      ≡ ok (record { next = next; blocks = blocks })
unfolding free
free_last p next block blocks pos =
    rw (ne→not-== p 0 (λ (e : p ≡ 0). omega arith), eq→== p p refl, eq→== p p refl)

pub block_at-last :
    (p next : ℕ) (block : List ℕ) (blocks : List (ℕ × List ℕ))
    → block_at p (record { next = next; blocks = (p, block) ∷ blocks }) ≡ ok block
unfolding block_at
block_at-last p next block blocks = rw (eq→== p p refl, block_at)

pub store_last :
    (p next offset : ℕ) (bytes block : List ℕ) (blocks : List (ℕ × List ℕ))
    → offset + length bytes ≤ length block
    → store p offset bytes (record { next = next; blocks = (p, block) ∷ blocks })
      ≡ ok (record { next = next; blocks = (p, splice block offset bytes) ∷ blocks })
unfolding store
store_last p next offset bytes block blocks h =
    rw (block_at-last p next block blocks, poke-ok block offset bytes h, eq→== p p refl)

-- what stands below the block that has been allocated last
pub block_at-below :
    (p q next : ℕ) (block : List ℕ) (blocks : List (ℕ × List ℕ))
    → q ≢ p
    → block_at p (record { next = next; blocks = (q, block) ∷ blocks })
      ≡ block_at p (record { next = next; blocks = blocks })
unfolding block_at
block_at-below p q next block blocks ne = rw (ne→not-== q p ne, block_at)

pub store_last-fault :
    (p next offset : ℕ) (bytes block : List ℕ) (blocks : List (ℕ × List ℕ))
    → length block < offset + length bytes
    → store p offset bytes (record { next = next; blocks = (p, block) ∷ blocks }) ≡ fault
unfolding store
store_last-fault p next offset bytes block blocks h =
    rw (block_at-last p next block blocks, poke-fault block offset bytes h)

pub block_at-fault : (p : ℕ) (h : Heap) → find h.blocks p ≡ none → block_at p h ≡ fault
unfolding block_at
block_at-fault p h e = rw (e, block_at)
