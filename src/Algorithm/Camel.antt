-- ===== src/Algorithm/Camel.antt =====
-- The names that `underline_to_camel` of src/algorithm.cc makes, and the room that it writes to.
use v8h.Base.{
  ℕ, zero, suc, ◌+◌, ◌-◌, ◌≤◌, ◌<◌, ◌≡◌, refl, sym, ap, ◌∙◌, ◌≢◌, inl, inr, List, [], ◌∷◌, ◌++◌,
  append-nil, append_assoc, Bool, true, false, ◌&&◌, arith, leb, ◌==◌, if◌then◌else◌, Bool-cases,
  lt→ltb, ne→not-==, length, All, length-append,
}
use v8h.Base.Outcome.{ok}
use v8h.Algorithm.{raise_case, put, leading_loop, camel_loop, underline_to_camel}

abbrev pub underlines : ℕ → List ℕ
underlines zero = []
underlines (suc k) = b'_' ∷ underlines k

-- words joined by single underlines
abbrev pub snake : List ℕ → List (List ℕ) → List ℕ
snake w [] = w
snake w (v ∷ vs) = w ++ (b'_' ∷ snake v vs)

abbrev pub upper : ℕ → ℕ
upper c = if leb b'a' c && leb c b'z' then c - 32 else c

abbrev pub capitalize : List ℕ → List ℕ
capitalize [] = []
capitalize (c ∷ w) = upper c ∷ w

-- the words joined, each but the first with a capital
abbrev pub camel : List ℕ → List (List ℕ) → List ℕ
camel w [] = w
camel w (v ∷ vs) = w ++ camel (capitalize v) vs

abbrev pub IsWord : List ℕ → Type 0
IsWord w = (w ≢ []) × All (λ c. c ≢ b'_') w

-- how many underlines a text begins with
abbrev pub leading : List ℕ → ℕ
leading [] = 0
leading (c ∷ src) = if c == b'_' then suc (leading src) else 0

pub put-ok : (out : List ℕ) (c : ℕ) → length out < 512 → put out c ≡ ok (out ++ (c ∷ []))
put-ok out c h = rw (lt→ltb (length out) 512 h)

-- The text that the second loop makes when there is room.
camel_text : Bool → List ℕ → List ℕ
camel_text u [] = []
camel_text u (c ∷ src) =
    if c == b'_' then camel_text true src else raise_case u c ∷ camel_text false src

camel_loop_lem :
    (src out : List ℕ) (u : Bool)
    → length out + length src ≤ 511
    → camel_loop src out u ≡ ok (out ++ camel_text u src)
unfolding camel_loop camel_text
camel_loop_lem [] out u h = ap ok (sym (append-nil out))
camel_loop_lem (c ∷ src) out u h = ground (
  arith,
  camel_loop_lem src out true,
  camel_loop_lem src (out ++ (raise_case u c ∷ [])) false,
  length-append out (raise_case u c ∷ []),
  append_assoc out (raise_case u c ∷ []) (camel_text false src),
)

abbrev raise_word : Bool → List ℕ → List ℕ
raise_word true w = capitalize w
raise_word false w = w

raise_case_lem : (c : ℕ) → (raise_case true c ≡ upper c) × (raise_case false c ≡ c)
unfolding raise_case
raise_case_lem c = (ground arith, refl)

camel_text_word :
    (w rest : List ℕ)
    → All (λ c. c ≢ b'_') w
    → camel_text false (w ++ rest) ≡ w ++ camel_text false rest
unfolding camel_text
camel_text_word [] rest h = refl
camel_text_word (c ∷ w) rest h =
    rw (ne→not-== c b'_' h.0, (raise_case_lem c).1) (ap (λ l. c ∷ l) (camel_text_word w rest h.1))

camel_text_raised :
    (u : Bool) (w rest : List ℕ)
    → IsWord w
    → camel_text u (w ++ rest) ≡ raise_word u w ++ camel_text false rest
unfolding camel_text
camel_text_raised u [] rest h = absurd (h.0 refl)
camel_text_raised false (c ∷ w) rest h = camel_text_word (c ∷ w) rest h.1
camel_text_raised true (c ∷ w) rest h =
    rw (ne→not-== c b'_' h.1.0, (raise_case_lem c).0)
      (ap (λ l. upper c ∷ l) (camel_text_word w rest h.1.1))

camel_text-snake :
    (u : Bool) (w : List ℕ) (ws : List (List ℕ))
    → IsWord w
    → All IsWord ws
    → camel_text u (snake w ws) ≡ camel (raise_word u w) ws
unfolding camel_text
camel_text-snake u w [] hw hs =
    ap (camel_text u) (sym (append-nil w))
    ∙ camel_text_raised u w [] hw
    ∙ append-nil (raise_word u w)
camel_text-snake u w (v ∷ vs) hw hs =
    camel_text_raised u w (b'_' ∷ snake v vs) hw
    ∙ ap (λ l. raise_word u w ++ l) (camel_text-snake true v vs hs.0 hs.1)

-- The first loop stops behind the underlines, which it has copied.
leading_loop_lem :
    (k : ℕ) (rest out : List ℕ)
    → leading rest ≡ 0
    → length out + k ≤ 512
    → leading_loop (underlines k ++ rest) out ≡ ok (rest, out ++ underlines k)
unfolding leading_loop
leading_loop_lem zero [] out e h = ap (λ l. ok ([], l)) (sym (append-nil out))
leading_loop_lem zero (c ∷ rest) out e h = elim (Bool-cases (c == b'_')) [
  | inl t ↦ absurd (not_zero t)
  | inr t ↦ rw t (ap (λ l. ok (c ∷ rest, l)) (sym (append-nil out)))
]
  where
    not_zero : (c == b'_') ≡ true → ⊥
    not_zero t = let e' : suc (leading rest) ≡ 0 = rw t at e in omega arith
leading_loop_lem (suc k) rest out e h = rw (put-ok out b'_' (omega arith)) (
    leading_loop_lem k rest (out ++ (b'_' ∷ [])) e (omega (arith, length-append out (b'_' ∷ [])))
    ∙ ap (λ l. ok (rest, l)) (append_assoc out (b'_' ∷ []) (underlines k)))

leading-snake : (w : List ℕ) (ws : List (List ℕ)) → IsWord w → leading (snake w ws) ≡ 0
leading-snake [] ws h = absurd (h.0 refl)
leading-snake (c ∷ w) [] h = rw (ne→not-== c b'_' h.1.0)
leading-snake (c ∷ w) (v ∷ vs) h = rw (ne→not-== c b'_' h.1.0)

length-underlines : (k : ℕ) → length (underlines k) ≡ k
length-underlines zero = refl
length-underlines (suc k) = ap suc (length-underlines k)

length-capitalize : (w : List ℕ) → length (capitalize w) ≡ length w
length-capitalize [] = refl
length-capitalize (c ∷ w) = refl

length-camel : (w : List ℕ) (ws : List (List ℕ)) → length (camel w ws) ≤ length (snake w ws)
length-camel w [] = omega arith
length-camel w (v ∷ vs) = omega (
  arith,
  length-append w (camel (capitalize v) vs),
  length-append w (b'_' ∷ snake v vs),
  length-camel (capitalize v) vs,
  length-snake v vs,
)
  where
    length-snake :
        (v : List ℕ) (vs : List (List ℕ)) → length (snake (capitalize v) vs) ≡ length (snake v vs)
    length-snake v [] = length-capitalize v
    length-snake v (u ∷ us) = omega (
      arith,
      length-capitalize v,
      length-append (capitalize v) (b'_' ∷ snake u us),
      length-append v (b'_' ∷ snake u us),
    )

-- Words with single underlines between them, behind any number of underlines and at most 511 bytes
-- in all, become the same underlines and the words put together, each but the first with its
-- first letter raised.
pub underline_to_camel-snake :
    (k : ℕ) (w : List ℕ) (ws : List (List ℕ))
    → IsWord w
    → All IsWord ws
    → k + length (snake w ws) ≤ 511
    → underline_to_camel (underlines k ++ snake w ws) ≡ ok (underlines k ++ camel w ws)
unfolding underline_to_camel
underline_to_camel-snake k w ws hw hs room = rw (
  leading_loop_lem k (snake w ws) [] (leading-snake w ws hw) (omega arith),
  camel_loop_lem (snake w ws) (underlines k) false (omega (arith, length-underlines k)),
  camel_text-snake false w ws hw hs,
  put-ok (underlines k ++ camel w ws) 0 (
      omega
        (arith, length-append (underlines k) (camel w ws), length-underlines k, length-camel w ws)),
)
