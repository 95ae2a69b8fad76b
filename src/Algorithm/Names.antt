-- ===== src/Algorithm/Names.antt =====
-- Back from the JavaScript names to the C++ names of src/algorithm.cc.
use v8h.Base.{
  ℕ, zero, suc, ◌+◌, ◌≤◌, ◌≡◌, ◌≢◌, refl, ap, ◌∙◌, List, [], ◌∷◌, ◌++◌, ◌&&◌, Bool, true, false,
  arith, leb, if◌then◌else◌, length, All,
}
use v8h.Base.Outcome.{ok}
use v8h.Algorithm.{underline_to_camel}
use v8h.Algorithm.Camel.{
  underlines, snake, upper, capitalize, camel, IsWord, underline_to_camel-snake,
}

abbrev is_upper : ℕ → Bool
is_upper c = leb b'A' c && leb c b'Z'

-- An underline and the small letter in the place of each capital.
abbrev pub to_snake : List ℕ → List ℕ
to_snake [] = []
to_snake (c ∷ l) = if is_upper c then b'_' ∷ (c + 32) ∷ to_snake l else c ∷ to_snake l

-- A small letter, and behind it no capital and no underline.
abbrev pub IsLower : List ℕ → Type 0
IsLower [] = ⊥
IsLower (c ∷ w) = ((b'a' ≤ c) × (c ≤ b'z')) × All (λ d. (is_upper d ≡ false) × (d ≢ b'_')) w

to_snake-append : (xs ys : List ℕ) → to_snake (xs ++ ys) ≡ to_snake xs ++ to_snake ys
to_snake-append [] ys = refl
to_snake-append (c ∷ xs) ys = ground (arith, to_snake-append xs ys)

to_snake-tail : (w : List ℕ) → All (λ d. (is_upper d ≡ false) × (d ≢ b'_')) w → to_snake w ≡ w
to_snake-tail [] h = refl
to_snake-tail (c ∷ w) h = rw h.0.0 (ap (λ l. c ∷ l) (to_snake-tail w h.1))

is_upper-small : (c : ℕ) → b'a' ≤ c → is_upper c ≡ false
is_upper-small c h = ground arith

upper-small : (c : ℕ) → b'a' ≤ c → c ≤ b'z' → (is_upper (upper c) ≡ true) × (upper c + 32 ≡ c)
upper-small c h k = (ground arith, ground arith)

to_snake-word : (w : List ℕ) → IsLower w → to_snake w ≡ w
to_snake-word [] h = absurd h
to_snake-word (c ∷ w) h = rw (is_upper-small c h.0.0) (ap (λ l. c ∷ l) (to_snake-tail w h.1))

to_snake-capitalize : (w : List ℕ) → IsLower w → to_snake (capitalize w) ≡ b'_' ∷ w
to_snake-capitalize [] h = absurd h
to_snake-capitalize (c ∷ w) h =
    let (capital, small) = upper-small c h.0.0 h.0.1 in rw (capital, small, to_snake-tail w h.1)

to_snake-underlines : (k : ℕ) → to_snake (underlines k) ≡ underlines k
to_snake-underlines zero = refl
to_snake-underlines (suc k) = ap (λ l. b'_' ∷ l) (to_snake-underlines k)

snake_first : (c : ℕ) (v : List ℕ) (vs : List (List ℕ)) → snake (c ∷ v) vs ≡ c ∷ snake v vs
snake_first c v [] = refl
snake_first c v (u ∷ us) = refl

to_snake-camel :
    (u : List ℕ) (ws : List (List ℕ))
    → All IsLower ws
    → to_snake (camel u ws) ≡ snake (to_snake u) ws
to_snake-camel u [] h = refl
to_snake-camel u (v ∷ vs) h =
    to_snake-append u (camel (capitalize v) vs)
    ∙ ap (λ l. to_snake u ++ l)
        (to_snake-camel (capitalize v) vs h.1
          ∙ ap (λ l. snake l vs) (to_snake-capitalize v h.0)
          ∙ snake_first b'_' v vs)

IsWord-tail : (w : List ℕ) → All (λ d. (is_upper d ≡ false) × (d ≢ b'_')) w → All (λ d. d ≢ b'_') w
IsWord-tail [] h = tt
IsWord-tail (c ∷ w) h = (h.0.1, IsWord-tail w h.1)

IsWord-lower : (w : List ℕ) → IsLower w → IsWord w
IsWord-lower [] h = absurd h
IsWord-lower (c ∷ w) h = (λ e. cc, ((λ e. omega (arith, h.0.0)), IsWord-tail w h.1))

All-IsWord : (ws : List (List ℕ)) → All IsLower ws → All IsWord ws
All-IsWord [] h = tt
All-IsWord (w ∷ ws) h = (IsWord-lower w h.0, All-IsWord ws h.1)

-- A name of small words that begin with letters, behind any number of underlines and at most 511
-- bytes long, can be got back from what `underline_to_camel` makes of it: so two such names never
-- become one.
pub to_snake-underline_to_camel :
    (k : ℕ) (w : List ℕ) (ws : List (List ℕ))
    → IsLower w
    → All IsLower ws
    → k + length (snake w ws) ≤ 511
    → (name : List ℕ) × (underline_to_camel (underlines k ++ snake w ws) ≡ ok name)
      × (to_snake name ≡ underlines k ++ snake w ws)
to_snake-underline_to_camel k w ws h hs room = (
  underlines k ++ camel w ws,
  underline_to_camel-snake k w ws (IsWord-lower w h) (All-IsWord ws hs) room,
  to_snake-append (underlines k) (camel w ws)
      ∙ ap (λ l. l ++ to_snake (camel w ws)) (to_snake-underlines k)
      ∙ ap (λ l. underlines k ++ l)
          (to_snake-camel w ws hs ∙ ap (λ l. snake l ws) (to_snake-word w h)),
)
