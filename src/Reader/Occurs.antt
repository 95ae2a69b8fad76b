-- ===== src/Reader/Occurs.antt =====
-- Occurrences of a token in a text and in the beginning of one.
use v8h.Base.{
  ℕ, ◌+◌, ◌≤◌, ◌<◌, ◌≡◌, ◌∙◌, sym, ap, List, ◌++◌, arith, length, take, drop, length-append,
  length-drop, drop-append_left, take-append_left,
}
use v8h.Algorithm.Resume.{OccursAt}

same_window :
    (xs zs : List ℕ) (n q : ℕ) → q + n ≤ length xs → take n (drop q (xs ++ zs)) ≡ take n (drop q xs)
same_window xs zs n q h =
    ap (take n) (drop-append_left q xs zs (omega arith))
    ∙ take-append_left n (drop q xs) zs (omega (arith, length-drop q xs))

pub OccursAt-append : (xs zs ys : List ℕ) (q : ℕ) → OccursAt xs ys q → OccursAt (xs ++ zs) ys q
OccursAt-append xs zs ys q h =
    (omega (arith, h.0, length-append xs zs), same_window xs zs (length ys) q h.0 ∙ h.1)

pub OccursAt-prefix :
    (xs zs ys : List ℕ) (q : ℕ)
    → OccursAt (xs ++ zs) ys q
    → q + length ys ≤ length xs
    → OccursAt xs ys q
OccursAt-prefix xs zs ys q h le = (le, sym (same_window xs zs (length ys) q le) ∙ h.1)

-- The first position at which the token stands
pub record IsFirstAt (all ys : List ℕ) (p : ℕ) : Type 0 where
  pub here : OccursAt all ys p
  pub none_before : (q : ℕ) → q < p → ¬ OccursAt all ys q
