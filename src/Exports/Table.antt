-- ===== src/Exports/Table.antt =====
-- The tables of functions that `create` makes, for any list of C++ names.
use v8h.Base.{ℕ, ◌+◌, ◌≤◌, ◌≡◌, refl, sym, ap, ◌∙◌, List, [], ◌∷◌, ◌++◌, length, All}
use v8h.Base.Outcome.{ok}
use v8h.Algorithm.{underline_to_camel}
use v8h.Algorithm.Camel.{underlines, snake}
use v8h.Algorithm.Names.{IsLower, to_snake, to_snake-underline_to_camel}
use v8h.Exports.{Entry, implement}

-- The name is words of small letters and digits, each beginning with a letter, with single
-- underlines between them, behind any number of underlines.
pub record IsName (name : List ℕ) : Type 0 where
  pub leading : ℕ
  pub word : List ℕ
  pub words : List (List ℕ)
  pub spelled : name ≡ underlines leading ++ snake word words
  pub lower : IsLower word
  pub all_lower : All IsLower words
  pub short : leading + length (snake word words) ≤ 511

-- The name has a name for JavaScript: `underline_to_camel` stays within its memory.
abbrev pub IsConvertible : List ℕ → Type 0
IsConvertible name = (key : List ℕ) × (underline_to_camel name ≡ ok key)

abbrev pub functions : List Entry → List (List ℕ)
functions [] = []
functions (x ∷ table) = x.1 ∷ functions table

abbrev pub snake_keys : List Entry → List (List ℕ)
snake_keys [] = []
snake_keys (x ∷ table) = to_snake x.0 ∷ snake_keys table

pub implement-name :
    (name : List ℕ)
    → IsName name
    → (key : List ℕ) × (underline_to_camel name ≡ ok key) × (to_snake key ≡ name)
implement-name name h =
    let (key, run, back) =
      to_snake-underline_to_camel h.leading h.word h.words h.lower h.all_lower h.short in
    (key, ap underline_to_camel h.spelled ∙ run, back ∙ sym h.spelled)

-- For C++ names of small words, the table has each function once and in order, under a key that
-- gives its C++ name back: so no function hides another one that has a different name.
pub implement-functions :
    (names : List (List ℕ))
    → All IsName names
    → (table : List Entry) × (implement names ≡ ok table)
      × (functions table ≡ names)
      × (snake_keys table ≡ names)
unfolding implement
implement-functions [] h = ([], refl, refl, refl)
implement-functions (name ∷ names) h =
    let (key, run, back) = implement-name name h.0 in
    let (table, run', same, keys) = implement-functions names h.1 in
    ((key, name) ∷ table, rw (run, run'), ap (λ l. name ∷ l) same, rw (back, keys))
