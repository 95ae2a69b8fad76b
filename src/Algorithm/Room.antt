-- ===== src/Algorithm/Room.antt =====
-- The room that `underline_to_camel` of src/algorithm.cc writes to.
use v8h.Base.{
  ℕ, suc, ◌+◌, ◌≤◌, ◌<◌, ◌≡◌, refl, ◌⊎◌, inl, inr, List, [], ◌∷◌, ◌++◌, Bool, true, false, arith,
  ltb, ◌==◌, Bool-cases, le→not-ltb, length, length-append,
}
use v8h.Base.Outcome.{ok, fault}
use v8h.Algorithm.{raise_case, put, leading_loop, camel_loop, underline_to_camel}
use v8h.Algorithm.Camel.{leading, put-ok}

put-fault : (out : List ℕ) (c : ℕ) → 512 ≤ length out → put out c ≡ fault
put-fault out c h = rw (le→not-ltb (length out) 512 h)

camel_loop_full : (src out : List ℕ) → 511 ≤ length out → camel_loop src out false ≡ ok out
unfolding camel_loop
camel_loop_full [] out h = refl
camel_loop_full (c ∷ src) out h = rw (le→not-ltb (length out) 511 h)

-- The second loop leaves room for the NUL.
camel_loop_fits :
    (src out : List ℕ) (u : Bool)
    → length out ≤ 511
    → (r : List ℕ) × (camel_loop src out u ≡ ok r) × (length r ≤ 511)
unfolding camel_loop
camel_loop_fits [] out u h = (out, refl, h)
camel_loop_fits (c ∷ src) out u h = elim (Bool-cases (ltb (length out) 511)) [
  | inr full ↦ (out, rw full, h)
  | inl room ↦ elim (Bool-cases (c == b'_')) [
    | inl e ↦ rw (room, e) (camel_loop_fits src out true h)
    | inr e ↦
        rw (room, e, put-ok out (raise_case u c) (ground arith))
          (camel_loop_fits src (out ++ (raise_case u c ∷ [])) false
            (ground (arith, length-append out (raise_case u c ∷ []))))
  ]
]

leading_loop_fits :
    (src out : List ℕ)
    → length out + leading src ≤ 512
    → (r : List ℕ × List ℕ) × (leading_loop src out ≡ ok r)
      × (length r.1 ≡ length out + leading src)
unfolding leading_loop
leading_loop_fits [] out h = (([], out), refl, omega arith)
leading_loop_fits (c ∷ src) out h = elim (Bool-cases (c == b'_')) [
  | inr e ↦ ((c ∷ src, out), rw e, rw e (omega arith))
  | inl e ↦ more e (leading_loop_fits src (out ++ (b'_' ∷ [])))
]
  where
    Goal : Type 0
    Goal =
        (r : List ℕ × List ℕ) × (leading_loop (c ∷ src) out ≡ ok r)
        × (length r.1 ≡ length out + leading (c ∷ src))

    more :
        (c == b'_') ≡ true
        → (length (out ++ (b'_' ∷ [])) + leading src ≤ 512
            → (r : List ℕ × List ℕ) × (leading_loop src (out ++ (b'_' ∷ [])) ≡ ok r)
              × (length r.1 ≡ length (out ++ (b'_' ∷ [])) + leading src))
        → Goal
    more e ih =
        let longer = length-append out (b'_' ∷ []) in
        let count : leading (c ∷ src) ≡ suc (leading src) = rw e in
        let (r, run, len) = ih (omega arith) in
        (r, rw (e, put-ok out b'_' (omega arith)) run, omega arith)

leading_loop_overruns :
    (src out : List ℕ)
    → length out ≤ 512
    → 512 < length out + leading src
    → leading_loop src out ≡ fault
unfolding leading_loop
leading_loop_overruns [] out h l = absurd (omega arith)
leading_loop_overruns (c ∷ src) out h l =
    ground (arith, leading_loop_overruns src (out ++ (b'_' ∷ [])), length-append out (b'_' ∷ []))

underline_to_camel_cases :
    (src : List ℕ)
    → (leading src ≤ 511 → (out : List ℕ) × (underline_to_camel src ≡ ok out) × (length out ≤ 511))
      × (512 ≤ leading src → underline_to_camel src ≡ fault)
unfolding underline_to_camel
underline_to_camel_cases src = (fits, overruns)
  where
    fits :
        leading src ≤ 511 → (out : List ℕ) × (underline_to_camel src ≡ ok out) × (length out ≤ 511)
    fits h =
        let (r, run, len) = leading_loop_fits src [] (omega arith) in
        let (out, run', len') = camel_loop_fits r.0 r.1 false (omega arith) in
        (out, rw (run, run', put-ok out 0 (omega arith)), len')

    overruns : 512 ≤ leading src → underline_to_camel src ≡ fault
    overruns h = elim (split (leading src) h) [
      | inr more ↦ rw (leading_loop_overruns src [] (omega arith) (omega arith))
      | inl e ↦ full e (leading_loop_fits src [] (omega arith))
    ]
      where
        split : (n : ℕ) → 512 ≤ n → (n ≡ 512) ⊎ (512 < n)
        split n h = grind arith

        full :
            leading src ≡ 512
            → ((r : List ℕ × List ℕ) × (leading_loop src [] ≡ ok r)
                × (length r.1 ≡ length {A = ℕ} [] + leading src))
            → underline_to_camel src ≡ fault
        full e (r, run, len) =
            rw (run, camel_loop_full r.0 r.1 (omega arith), put-fault r.1 0 (omega arith))

-- `underline_to_camel` of a name that begins with at most 511 underlines, of any length, stays in
-- the 512 bytes of `js_name`: it returns at most 511 bytes, which leaves room for the NUL.
pub underline_to_camel_fits :
    (src : List ℕ)
    → leading src ≤ 511
    → (out : List ℕ) × (underline_to_camel src ≡ ok out) × (length out ≤ 511)
underline_to_camel_fits src h = (underline_to_camel_cases src).0 h

-- `underline_to_camel` of a name that begins with 512 underlines or more writes past the end of
-- `js_name`.
pub underline_to_camel-fault : (src : List ℕ) → 512 ≤ leading src → underline_to_camel src ≡ fault
underline_to_camel-fault src h = (underline_to_camel_cases src).1 h
