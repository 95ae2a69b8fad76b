-- ===== src/Algorithm.antt =====
-- src/algorithm.h and src/algorithm.cc. A text is the list of its bytes, without the final NUL.
pub mod Find
pub mod Resume
pub mod Camel
pub mod Names
pub mod Room
mod Tests
use v8h.Base.{ℕ, suc, ◌+◌, ◌-◌, List, [], ◌∷◌, ◌++◌, Bool, true, false, ◌&&◌, ◌||◌}
use v8h.Base.{ltb, leb, ◌==◌, if◌then◌else◌, length, size_to_int}
use v8h.Base.Outcome.{Outcome, ok, fault, ◌>>=◌}

-- `min` of algorithm.h
unfoldable pub min_of : ℕ → ℕ → ℕ
min_of a b = if ltb a b then a else b

abbrev is_end : List ℕ → Bool
is_end [] = true
is_end (_ ∷ _) = false

-- The inner loop of `partial_find`. The lists are what `first1` and `first2` have before them. The
-- answer is whether the function returns here; reading at the end of a range is a fault.
unfoldable pub match_from : List ℕ → List ℕ → Outcome Bool
match_from [] needle = fault
match_from (x ∷ first1) [] = fault
match_from (x ∷ first1) (y ∷ first2) =
    let next = match_from first1 first2 in
    if x == y then (if is_end first1 || is_end first2 then ok true else next) else ok false

-- The outer loop: `haystack` is what is left of it, `i` is `haystack - haystack_start`.
unfoldable pub find_loop : ℕ → List ℕ → ℕ → List ℕ → Outcome ℕ
find_loop size [] i needle = ok size
find_loop size (x ∷ haystack) i needle =
    let rest = find_loop size haystack (i + 1) needle in
    match_from (x ∷ haystack) needle >>= λ hit. if hit then ok i else rest

-- `partial_find`: the offset, or the size, as an `int`.
unfoldable pub partial_find : List ℕ → List ℕ → Outcome ℕ
unfolding find_loop match_from
partial_find haystack needle =
    find_loop (length haystack) haystack 0 needle >>= λ pos. ok (size_to_int pos)

-- `sizeof(js_name)`
abbrev pub name_size : ℕ
name_size = 512

-- `*dest++ = c`, where `out` is what stands before `dest`.
abbrev pub put : List ℕ → ℕ → Outcome (List ℕ)
put out c = if ltb (length out) name_size then ok (out ++ (c ∷ [])) else fault

-- The first loop of `underline_to_camel` copies leading underlines: what is left of `src`, and
-- what it wrote.
unfoldable pub leading_loop : List ℕ → List ℕ → Outcome (List ℕ × List ℕ)
leading_loop [] out = ok ([], out)
leading_loop (c ∷ src) out =
    let more = put out b'_' >>= λ out'. leading_loop src out' in
    if c == b'_' then more else ok (c ∷ src, out)

-- `c + 'A' - 'a'` for a lower-case letter behind an underline
unfoldable pub raise_case : Bool → ℕ → ℕ
raise_case is_underline c =
    if is_underline && (leb b'a' c && leb c b'z') then c + b'A' - b'a' else c

-- The second loop, which ends at the NUL or where `dest < last` fails.
unfoldable pub camel_loop : List ℕ → List ℕ → Bool → Outcome (List ℕ)
unfolding raise_case
camel_loop [] out is_underline = ok out
camel_loop (c ∷ src) out is_underline =
    let skip = camel_loop src out true in
    let copy = put out (raise_case is_underline c) >>= λ out'. camel_loop src out' false in
    if ltb (length out) (name_size - 1) then (if c == b'_' then skip else copy) else ok out

-- The text in `js_name` when the function returns; the NUL behind it needs its room, too.
unfoldable pub underline_to_camel : List ℕ → Outcome (List ℕ)
unfolding leading_loop camel_loop
underline_to_camel src =
    leading_loop src [] >>= λ r. camel_loop r.0 r.1 false >>= λ out. put out 0 >>= λ _. ok out
