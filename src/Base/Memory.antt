-- ===== src/Base/Memory.antt =====
-- A block of memory as the list of its bytes: `memcpy` out of it and into it, bounds included.
use Prim.Native.Nat.{ℕ, suc, ◌+◌, ◌-◌, ◌≤◌}
use mathlib.Core.Path.{◌≡◌, ap, ◌∙◌, ◌≡⟨◌⟩◌, ◌∎}
use mathlib.Core.List.{List, ◌++◌}
use native.Mathlib.Omega.{arith}
use v8h.Base.Tests.{leb, if◌then◌else◌, le→leb, lt→not-leb}
use v8h.Base.Lists.{
  length, take, drop, length-append, length-take, length-drop, take-append_left, drop-append_left,
  take-append_right, take_all, drop-take, drop-drop,
}
use v8h.Base.Outcome.{Outcome, ok, fault}

-- the `n` bytes at offset `off`
abbrev pub slice : List ℕ → ℕ → ℕ → List ℕ
slice block off n = take n (drop off block)

-- `block` with `src` in the place of what stood at `off`
abbrev pub splice : List ℕ → ℕ → List ℕ → List ℕ
splice block off src = take off block ++ (src ++ drop (off + length src) block)

-- reading `n` bytes at an offset
unfoldable pub peek : List ℕ → ℕ → ℕ → Outcome (List ℕ)
peek block off n = if leb (off + n) (length block) then ok (slice block off n) else fault

-- writing bytes at an offset
unfoldable pub poke : List ℕ → ℕ → List ℕ → Outcome (List ℕ)
poke block off src =
    if leb (off + length src) (length block) then ok (splice block off src) else fault

pub peek-ok :
    (block : List ℕ) (off n : ℕ)
    → off + n ≤ length block
    → peek block off n ≡ ok (slice block off n)
unfolding peek
peek-ok block off n h = rw (le→leb _ _ h)

pub poke-ok :
    (block : List ℕ) (off : ℕ) (src : List ℕ)
    → off + length src ≤ length block
    → poke block off src ≡ ok (splice block off src)
unfolding poke
poke-ok block off src h = rw (le→leb _ _ h)

pub poke-fault :
    (block : List ℕ) (off : ℕ) (src : List ℕ)
    → suc (length block) ≤ off + length src
    → poke block off src ≡ fault
unfolding poke
poke-fault block off src h = rw (lt→not-leb _ _ h)

pub peek-fault :
    (block : List ℕ) (off n : ℕ) → suc (length block) ≤ off + n → peek block off n ≡ fault
unfolding peek
peek-fault block off n h = rw (lt→not-leb _ _ h)

pub length-slice :
    (block : List ℕ) (off n : ℕ) → off + n ≤ length block → length (slice block off n) ≡ n
length-slice block off n h = omega (arith, length-take n (drop off block), length-drop off block)

pub length-splice :
    (block : List ℕ) (off : ℕ) (src : List ℕ)
    → off + length src ≤ length block
    → length (splice block off src) ≡ length block
length-splice block off src h = omega (
  arith,
  length-append (take off block) (src ++ drop (off + length src) block),
  length-append src (drop (off + length src) block),
  length-take off block,
  length-drop (off + length src) block,
)

-- What is written just behind a stretch of bytes extends that stretch.
pub slice-splice :
    (block : List ℕ) (off n : ℕ) (src : List ℕ)
    → off + n + length src ≤ length block
    → slice (splice block (off + n) src) off (n + length src) ≡ slice block off n ++ src
slice-splice block off n src h =
    slice (splice block (off + n) src) off (n + length src)
    ≡⟨ ap (take (n + length src)) (drop-append_left off before after (omega (arith, front)))
      ∙ ap (λ l. take (n + length src) (l ++ after)) (drop-take off n block) ⟩
      take (n + length src) (slice block off n ++ after)
    ≡⟨ take-append_right (n + length src) (slice block off n) after (omega (arith, middle)) ⟩
      slice block off n ++ take (n + length src - length (slice block off n)) after
    ≡⟨ ap (λ k. slice block off n ++ take k after) (omega (arith, middle)) ⟩
      slice block off n ++ take (length src) after
    ≡⟨ ap (λ l. slice block off n ++ l)
        (take-append_left (length src) src rest (omega arith)
          ∙ take_all (length src) src (omega arith)) ⟩
      slice block off n ++ src ∎
  where
    before : List ℕ
    before = take (off + n) block

    rest : List ℕ
    rest = drop (off + n + length src) block

    after : List ℕ
    after = src ++ rest

    front : length before ≡ off + n
    front = omega (arith, length-take (off + n) block)

    middle : length (slice block off n) ≡ n
    middle = length-slice block off n (omega arith)

-- A stretch that ends in the kept part of a shorter block is found there as well.
pub slice-append :
    (block more : List ℕ) (off n : ℕ)
    → off + n ≤ length block
    → slice (block ++ more) off n ≡ slice block off n
slice-append block more off n h =
    ap (take n) (drop-append_left off block more (omega arith))
    ∙ take-append_left n (drop off block) more (omega (arith, length-drop off block))

-- The stretch behind the first `k` bytes of a stretch.
pub drop-slice :
    (block : List ℕ) (off n k : ℕ)
    → k ≤ n
    → drop k (slice block off n) ≡ slice block (off + k) (n - k)
drop-slice block off n k h =
    let e : n ≡ k + (n - k) = omega arith in
    ap (λ m. drop k (take m (drop off block))) e
    ∙ drop-take k (n - k) (drop off block)
    ∙ ap (take (n - k)) (drop-drop k off block)
