-- ===== src/Algorithm/Resume.antt =====
-- Searching a buffer that grows: what coffee/core/socket.coffee (`readToken`) relies on when it
-- calls `partial_find` again from the offset that the last call returned.
use v8h.Base.{
  ℕ, ◌+◌, ◌-◌, ◌^◌, ◌≤◌, ◌<◌, ◌≡◌, sym, ap, ◌∙◌, ◌≢◌, ◌↔◌, ◌⊎◌, inl, inr, List, [], ◌++◌, arith,
  length, take, drop, length-append, length-drop, drop-drop, drop-append_left, take-append-drop,
}
use v8h.Base.Outcome.{Outcome, ok}
use v8h.Algorithm.{partial_find}
use v8h.Algorithm.Find.{
  Agree, IsFirst, partial_find-IsFirst, IsFirst-unique, Agree-append, take_of_Agree, Agree-prefix,
}

-- The whole needle stands at offset `q`.
abbrev pub OccursAt : List ℕ → List ℕ → ℕ → Type 0
OccursAt haystack needle q =
    (q + length needle ≤ length haystack) × (take (length needle) (drop q haystack) ≡ needle)

Agree-of_OccursAt :
    (haystack needle : List ℕ) (q : ℕ) → OccursAt haystack needle q → Agree (drop q haystack) needle
Agree-of_OccursAt haystack needle q h =
    rw (← take-append-drop (length needle) (drop q haystack), h.1)
      (Agree-append needle (drop (length needle) (drop q haystack)))

pub IsFirst-OccursAt :
    {xs ys : List ℕ} {p : ℕ} → IsFirst xs ys p → p + length ys ≤ length xs → OccursAt xs ys p
IsFirst-OccursAt {xs} {ys} {p} first fits =
    (fits, take_of_Agree (drop p xs) ys first.agrees (omega (arith, length-drop p xs)))

pub IsFirst-le : {xs ys : List ℕ} {p : ℕ} (q : ℕ) → IsFirst xs ys p → OccursAt xs ys q → p ≤ q
IsFirst-le {xs} {ys} {p} q first h = elim (split p q) [
  | inl le ↦ le
  | inr lt ↦ absurd (first.earlier q lt (Agree-of_OccursAt xs ys q h))
]
  where
    split : (p q : ℕ) → (p ≤ q) ⊎ (q < p)
    split p q = grind arith

-- An occurrence in a rest of the text is one in the text.
pub OccursAt-drop :
    (xs ys : List ℕ) (o k : ℕ) → o ≤ length xs → OccursAt (drop o xs) ys k ↔ OccursAt xs ys (o + k)
OccursAt-drop xs ys o k h =
    let len = length-drop o xs in
    let text = ap (take (length ys)) (drop-drop k o xs) in
    (λ a. (omega (arith, a.0), sym text ∙ a.1), λ a. (omega (arith, a.0), text ∙ a.1))

-- `partial_find` decides whether a needle that is not empty occurs in a haystack of less than
-- 2 ^ 31 bytes. The returned offset is at most the haystack's size; if the needle fits behind it,
-- the needle stands there; and no occurrence lies before it.
pub partial_find-OccursAt :
    (haystack needle : List ℕ)
    → needle ≢ []
    → length haystack < 2 ^ 31
    → (p : ℕ) × (partial_find haystack needle ≡ ok p)
      × (p ≤ length haystack)
      × ((p + length needle ≤ length haystack) ↔ OccursAt haystack needle p)
      × ((q : ℕ) → q < p → ¬ OccursAt haystack needle q)
partial_find-OccursAt haystack needle hn small =
    let (p, run, first) = partial_find-IsFirst haystack needle hn small in
    (
      p,
      run,
      first.within,
      (IsFirst-OccursAt first, λ at. at.0),
      λ q lt at. omega (arith, IsFirst-le q first at),
    )

-- A search that starts at the first offset of a part of the text finds what a search of all of it
-- finds.
IsFirst-append :
    {xs ys : List ℕ} {p r : ℕ} (more : List ℕ)
    → IsFirst xs ys p
    → IsFirst (drop p (xs ++ more)) ys r
    → IsFirst (xs ++ more) ys (p + r)
IsFirst-append {xs} {ys} {p} {r} more a b = record {
  within = omega (arith, a.within, b.within, length-append xs more, length-drop p (xs ++ more));
  agrees = rw (← drop-drop r p (xs ++ more)) b.agrees;
  earlier = not_earlier;
}
  where
    split : (q : ℕ) → q < p + r → (q < p) ⊎ ((k : ℕ) × (q ≡ p + k) × (k < r))
    split q h = elim (bound q) [ inl l ↦ inl l | inr l ↦ inr (q - p, omega arith, omega arith) ]
      where
        bound : (q : ℕ) → (q < p) ⊎ (p ≤ q)
        bound q = grind arith

    not_earlier : (q : ℕ) → q < p + r → ¬ Agree (drop q (xs ++ more)) ys
    not_earlier q h agree = elim (split q h) [
      | inl l ↦ a.earlier q l (
          Agree-prefix (drop q xs) more ys
            (rw (drop-append_left q xs more (omega (arith, a.within))) at agree))
      | inr (k, e, l) ↦ b.earlier k l (rw (drop-drop k p (xs ++ more), ← e) agree)
    ]

pub ok-injective : (a b : ℕ) → ◌≡◌ {A = Outcome ℕ} (ok a) (ok b) → a ≡ b
ok-injective a b h = cc

-- If `partial_find` of a needle that is not empty in `haystack` returned `p`, then after `more`
-- bytes have come in, less than 2 ^ 31 in all, the search of the bytes from `p` on returns the
-- offset, counted from `p`, which a search of all the bytes returns.
pub partial_find-resume :
    (haystack more needle : List ℕ) (p : ℕ)
    → needle ≢ []
    → length haystack + length more < 2 ^ 31
    → partial_find haystack needle ≡ ok p
    → (r : ℕ) × (partial_find (drop p (haystack ++ more)) needle ≡ ok r)
      × (partial_find (haystack ++ more) needle ≡ ok (p + r))
partial_find-resume haystack more needle p hn small run =
    let (p', run', first) = partial_find-IsFirst haystack needle hn (omega arith) in
    let same : p' ≡ p = ok-injective p' p (sym run' ∙ run) in
    let (r, run_rest, first_rest) =
      partial_find-IsFirst (drop p (haystack ++ more)) needle hn
        (omega (arith, length-drop p (haystack ++ more), length-append haystack more)) in
    let (t, run_all, first_all) =
      partial_find-IsFirst (haystack ++ more) needle hn
        (omega (arith, length-append haystack more)) in
    (
      r,
      run_rest,
      run_all
          ∙ ap ok (
              IsFirst-unique first_all (IsFirst-append {p = p} more (rw same at first) first_rest)),
    )
