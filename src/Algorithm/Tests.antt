-- ===== src/Algorithm/Tests.antt =====
-- Runs of the functions of src/algorithm.cc, and the theorems about them at concrete texts.
use v8h.Base.{ℕ, ◌≡◌, ◌≢◌, ◌==◌, false, refl, [], ◌∷◌, List, arith}
use v8h.Base.Outcome.{ok, fault}
use v8h.Algorithm.{partial_find, underline_to_camel}
use v8h.Algorithm.Find.{IsFirst, partial_find-IsFirst}
use v8h.Algorithm.Camel.{underlines, IsWord}
use v8h.Algorithm.Room.{underline_to_camel-fault}

-- "aab" in "aaab", and a part of it at the end of "xxaa"
partial_find_runs :
    (partial_find (1 ∷ 1 ∷ 1 ∷ 2 ∷ []) (1 ∷ 1 ∷ 2 ∷ []) ≡ ok 1)
    × (partial_find (9 ∷ 9 ∷ 1 ∷ 1 ∷ []) (1 ∷ 1 ∷ 2 ∷ []) ≡ ok 2)
    × (partial_find (9 ∷ 9 ∷ []) (1 ∷ []) ≡ ok 2)
    × (partial_find (9 ∷ 9 ∷ []) [] ≡ fault)
unfolding partial_find
partial_find_runs = (refl, refl, refl, refl)

-- "_ab_c" becomes "_abC"
underline_to_camel_runs :
    underline_to_camel (b'_' ∷ b'a' ∷ b'b' ∷ b'_' ∷ b'c' ∷ []) ≡ ok (b'_' ∷ b'a' ∷ b'b' ∷ b'C' ∷ [])
unfolding underline_to_camel
underline_to_camel_runs = refl

some_bytes : {x : ℕ} {xs : List ℕ} → x ∷ xs ≢ []
some_bytes h = cc

partial_find-IsFirst_example :
    (p : ℕ) × (partial_find (1 ∷ 1 ∷ 1 ∷ 2 ∷ []) (1 ∷ 1 ∷ 2 ∷ []) ≡ ok p)
    × IsFirst (1 ∷ 1 ∷ 1 ∷ 2 ∷ []) (1 ∷ 1 ∷ 2 ∷ []) p
partial_find-IsFirst_example =
    partial_find-IsFirst (1 ∷ 1 ∷ 1 ∷ 2 ∷ []) (1 ∷ 1 ∷ 2 ∷ []) some_bytes (omega arith)

first_piece : partial_find (7 ∷ 7 ∷ 13 ∷ []) (13 ∷ 10 ∷ []) ≡ ok 2
unfolding partial_find
first_piece = refl

differs : {c : ℕ} → (c == b'_') ≡ false → c ≢ b'_'
differs h e = ground arith

IsWord-read : IsWord (b'r' ∷ b'e' ∷ b'a' ∷ b'd' ∷ [])
IsWord-read = (some_bytes, (differs refl, (differs refl, (differs refl, (differs refl, tt)))))

IsWord-utf8 : IsWord (b'u' ∷ b't' ∷ b'f' ∷ b'8' ∷ [])
IsWord-utf8 = (some_bytes, (differs refl, (differs refl, (differs refl, (differs refl, tt)))))

underline_to_camel-fault_example : underline_to_camel (underlines 512) ≡ fault
underline_to_camel-fault_example = underline_to_camel-fault (underlines 512) (omega arith)
