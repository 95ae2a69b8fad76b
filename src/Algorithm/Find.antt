-- ===== src/Algorithm/Find.antt =====
-- What `partial_find` of src/algorithm.cc returns.
use v8h.Base.{
  ℕ, zero, suc, ◌+◌, ◌^◌, ◌≤◌, ◌<◌, ◌≡◌, refl, ap, ◌∙◌, ◌≢◌, ◌⊎◌, inl, inr, List, [], ◌∷◌, ◌++◌,
  true, false, arith, ◌==◌, Bool-cases, length, take, drop,
}
use v8h.Base.Outcome.{ok}
use v8h.Algorithm.{match_from, find_loop, partial_find}

-- The two texts agree as far as both go.
abbrev pub Agree : List ℕ → List ℕ → Type 0
Agree [] ys = Unit
Agree (x ∷ xs) [] = Unit
Agree (x ∷ xs) (y ∷ ys) = (x ≡ y) × Agree xs ys

-- `p` is the first offset from which on the haystack agrees with the needle.
pub record IsFirst (haystack needle : List ℕ) (p : ℕ) : Type 0 where
  pub within : p ≤ length haystack
  pub agrees : Agree (drop p haystack) needle
  pub earlier : (q : ℕ) → q < p → ¬ Agree (drop q haystack) needle

-- The inner loop decides whether they agree.
pub match_from_lem :
    (xs ys : List ℕ)
    → xs ≢ []
    → ys ≢ []
    → ((match_from xs ys ≡ ok true) × Agree xs ys) ⊎ ((match_from xs ys ≡ ok false) × ¬ Agree xs ys)
unfolding match_from
match_from_lem [] ys hx hy = absurd (hx refl)
match_from_lem (x ∷ xs) [] hx hy = absurd (hy refl)
match_from_lem (x ∷ []) (y ∷ ys) hx hy = elim (Bool-cases (x == y)) [
  | inl e ↦ inl (rw e, (ground arith, tt))
  | inr e ↦ inr (rw e, λ a. ground arith)
]
match_from_lem (x ∷ x' ∷ xs) (y ∷ []) hx hy = elim (Bool-cases (x == y)) [
  | inl e ↦ inl (rw e, (ground arith, tt))
  | inr e ↦ inr (rw e, λ a. ground arith)
]
match_from_lem (x ∷ x' ∷ xs) (y ∷ y' ∷ ys) hx hy = elim (Bool-cases (x == y)) [
  | inr e ↦ inr (rw e, λ a. ground arith)
  | inl e ↦ elim (match_from_lem (x' ∷ xs) (y' ∷ ys) (λ h. cc) (λ h. cc)) [
    | inl h ↦ inl (rw e h.0, (ground arith, h.1))
    | inr h ↦ inr (rw e h.0, λ a. h.1 a.1)
  ]
]

-- The outer loop, from any point on: nothing faults, and the answer is the first such offset.
pub find_loop_lem :
    (size : ℕ) (xs : List ℕ) (i : ℕ) (needle : List ℕ)
    → needle ≢ []
    → size ≡ i + length xs
    → (p : ℕ) × (find_loop size xs i needle ≡ ok (i + p)) × IsFirst xs needle p
unfolding find_loop
find_loop_lem size [] i needle hn e = (
  0,
  ap ok (omega arith),
  record { within = omega arith; agrees = tt; earlier = λ q h. elim h [ ] },
)
find_loop_lem size (x ∷ xs) i needle hn e = elim (match_from_lem (x ∷ xs) needle (λ h. cc) hn) [
  | inl h ↦ (
    0,
    rw h.0 (ap ok (omega arith)),
    record { within = omega arith; agrees = h.1; earlier = λ q l. elim l [ ] },
  )
  | inr h ↦ next h (find_loop_lem size xs (i + 1) needle hn (omega arith))
]
  where
    earlier_next :
        (p : ℕ)
        → ¬ Agree (x ∷ xs) needle
        → ((q : ℕ) → q < p → ¬ Agree (drop q xs) needle)
        → (q : ℕ) → q < suc p
        → ¬ Agree (drop q (x ∷ xs)) needle
    earlier_next p h earlier zero l = h
    earlier_next p h earlier (suc q) l = earlier q (omega arith)

    next :
        ((match_from (x ∷ xs) needle ≡ ok false) × ¬ Agree (x ∷ xs) needle)
        → ((p : ℕ) × (find_loop size xs (i + 1) needle ≡ ok (i + 1 + p)) × IsFirst xs needle p)
        → (p : ℕ) × (find_loop size (x ∷ xs) i needle ≡ ok (i + p)) × IsFirst (x ∷ xs) needle p
    next h (p, run, first) = (
      suc p,
      rw h.0 (run ∙ ap ok (omega arith)),
      record {
        within = omega (arith, first.within);
        agrees = first.agrees;
        earlier = earlier_next p h.1 first.earlier;
      },
    )

-- `partial_find`, for a needle that is not empty and a haystack of less than 2 ^ 31 bytes: it reads
-- only inside the two texts, and returns the first offset from which the haystack agrees with the
-- needle as far as both go.
pub partial_find-IsFirst :
    (haystack needle : List ℕ)
    → needle ≢ []
    → length haystack < 2 ^ 31
    → (p : ℕ) × (partial_find haystack needle ≡ ok p) × IsFirst haystack needle p
unfolding partial_find
partial_find-IsFirst haystack needle hn small =
    let (p, run, first) = find_loop_lem (length haystack) haystack 0 needle hn (omega arith) in
    (p, rw run (ap ok (omega (arith, first.within))), first)

-- There is one such offset.
pub IsFirst-unique : {xs ys : List ℕ} {p r : ℕ} → IsFirst xs ys p → IsFirst xs ys r → p ≡ r
IsFirst-unique {xs} {ys} {p} {r} a b = elim (trichotomy p r) [
  | inl e ↦ e
  | inr (inl l) ↦ absurd (b.earlier p l a.agrees)
  | inr (inr l) ↦ absurd (a.earlier r l b.agrees)
]
  where
    trichotomy : (p r : ℕ) → (p ≡ r) ⊎ ((p < r) ⊎ (r < p))
    trichotomy p r = grind arith

-- A text that starts with the needle agrees with it, and one that agrees and is long enough starts
-- with it.
pub Agree-append : (ys more : List ℕ) → Agree (ys ++ more) ys
Agree-append [] [] = tt
Agree-append [] (x ∷ more) = tt
Agree-append (y ∷ ys) more = (refl, Agree-append ys more)

pub take_of_Agree :
    (xs ys : List ℕ) → Agree xs ys → length ys ≤ length xs → take (length ys) xs ≡ ys
take_of_Agree xs [] a h = refl
take_of_Agree [] (y ∷ ys) a h = absurd (omega arith)
take_of_Agree (x ∷ xs) (y ∷ ys) a h = cc (a.0, take_of_Agree xs ys a.1 (omega arith))

-- What agrees while there are more bytes agrees without them.
pub Agree-prefix : (xs more ys : List ℕ) → Agree (xs ++ more) ys → Agree xs ys
Agree-prefix [] more ys a = tt
Agree-prefix (x ∷ xs) more [] a = tt
Agree-prefix (x ∷ xs) more (y ∷ ys) a = (a.0, Agree-prefix xs more ys a.1)
