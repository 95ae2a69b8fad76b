-- ===== src/Base/Text.antt =====
-- Quoted texts as the lists of their bytes, and whether two are equal.
use Prim.Native.Nat.{ℕ}
use Prim.Native.Char.{code}
use Prim.Native.String.{String}
use mathlib.Core.List.{List, [], ◌∷◌}
use mathlib.Core.Path.{◌≡◌, refl, ap}
use mathlib.Core.Logic.{◌≢◌, inl, inr}
use mathlib.Core.Bool.{Bool, true, false, ◌&&◌}
use native.Mathlib.Omega.{arith}
use v8h.Base.Tests.{◌==◌, Bool-cases}

-- The text must be ASCII.
abbrev pub bytes_of : String → List ℕ
bytes_of String.[] = []
bytes_of (String.◌∷◌ c s) = code c ∷ bytes_of s

unfoldable pub text_eq : List ℕ → List ℕ → Bool
text_eq [] [] = true
text_eq (x ∷ k) (y ∷ j) = x == y && text_eq k j
text_eq [] (y ∷ j) = false
text_eq (x ∷ k) [] = false

pub text_eq_refl : (k : List ℕ) → text_eq k k ≡ true
unfolding text_eq
text_eq_refl [] = refl
text_eq_refl (x ∷ k) = ground (arith, text_eq_refl k)

text_eq_sound : (k j : List ℕ) → text_eq k j ≡ true → k ≡ j
unfolding text_eq
text_eq_sound [] [] h = refl
text_eq_sound (x ∷ k) (y ∷ j) h = ground (arith, text_eq_sound k j)
text_eq_sound [] (y ∷ j) h = cc
text_eq_sound (x ∷ k) [] h = cc

pub text_eq-false : (k j : List ℕ) → text_eq k j ≡ false → k ≢ j
text_eq-false k j h e = cc (text_eq_refl k, ap (text_eq k) e)

pub text_eq-ne : (k j : List ℕ) → k ≢ j → text_eq k j ≡ false
text_eq-ne k j ne = elim (Bool-cases (text_eq k j)) [
  | inl same ↦ absurd (ne (text_eq_sound k j same))
  | inr other ↦ other
]
