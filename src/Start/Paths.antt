-- ===== src/Start/Paths.antt =====
-- The paths that src/v8h.cc makes of where its own program stands.
use v8h.Base.{
  ℕ, zero, suc, ◌+◌, ◌-◌, ◌≤◌, ◌<◌, ◌≡◌, ◌≢◌, refl, sym, ap, ◌∙◌, List, [], ◌∷◌, ◌++◌, some, arith,
  if◌then◌else◌, length, take, drop, tabulate, All, ne→not-==, take_all, append_assoc,
  length-tabulate, le→leb,
}
use v8h.Base.Memory.{poke-ok}
use v8h.Base.Outcome.{ok}
use v8h.Base.Text.{bytes_of}
use v8h.Heap.{until_zero}
use v8h.Start.{
  Machine, globals, path_max, bin_path, copy_behind, get_bin_dir, get_module_file, start, main,
  report, filled,
}

-- a text, which has no NUL in it
abbrev pub IsText : List ℕ → Type 0
IsText l = All (λ (c : ℕ). c ≢ 0) l

until_zero-text : (text rest : List ℕ) → IsText text → until_zero (text ++ (0 ∷ rest)) ≡ ok text
until_zero-text [] rest h = refl
until_zero-text (c ∷ text) rest h = rw (ne→not-== c 0 h.0, until_zero-text text rest h.1)

-- the memory behind the path that `readlink` stores
drop-tabulate :
    (f : ℕ → ℕ) (i n k : ℕ) → n ≤ k → drop n (tabulate f i k) ≡ tabulate f (i + n) (k - n)
drop-tabulate f i zero k h =
    ap (λ j. tabulate f j k) (omega arith) ∙ ap (tabulate f (i + 0)) (omega arith)
drop-tabulate f i (suc n) zero h = absurd (omega arith)
drop-tabulate f i (suc n) (suc k) h =
    drop-tabulate f (suc i) n k (omega arith)
    ∙ ap (λ j. tabulate f j (k - n)) (omega arith)
    ∙ ap (tabulate f (i + suc n)) (omega arith)

tabulate-split :
    (f : ℕ → ℕ) (i n k : ℕ)
    → n < k
    → (rest : List ℕ) × (tabulate f i k ≡ tabulate f i n ++ (f (i + n) ∷ rest))
tabulate-split f i n zero h = absurd (omega arith)
tabulate-split f i zero (suc k) h =
    (tabulate f (suc i) k, ap (λ j. f j ∷ tabulate f (suc i) k) (omega arith))
tabulate-split f i (suc n) (suc k) h =
    let (rest, split) = tabulate-split f (suc i) n k (omega arith) in
    let e : suc i + n ≡ i + suc n = omega arith in
    (rest, ap (λ l. f i ∷ l) (split ∙ ap (λ j. tabulate f (suc i) n ++ (f j ∷ rest)) e))

module _ (m : Machine) (stale : ℕ → ℕ) (w : m.World) (link : List ℕ) (n : ℕ)
    (linked : m.exe_link w ≡ some link) (room : length link + n < 4096) (text : IsText link)
    (dirty : IsText (tabulate stale (length link) n)) (ends : stale (length link + n) ≡ 0) where
  -- what is taken for the path
  abbrev found : List ℕ
  found = link ++ tabulate stale (length link) n

  IsText-append : (xs ys : List ℕ) → IsText xs → IsText ys → IsText (xs ++ ys)
  IsText-append [] ys h k = k
  IsText-append (x ∷ xs) ys h k = (h.0, IsText-append xs ys h.1 k)

  behind :
      (rest : List ℕ) × (drop (0 + length link) (tabulate stale 0 path_max)
        ≡ tabulate stale (length link) n ++ (0 ∷ rest))
  behind =
      let l = length link in
      let (rest, split) = tabulate-split stale (0 + (0 + l)) n (4096 - (0 + l)) (omega arith) in
      (
        rest,
        drop-tabulate stale 0 (0 + l) 4096 (omega arith)
            ∙ split
            ∙ ap (λ c. tabulate stale (0 + (0 + l)) n ++ (c ∷ rest)) (ap stale (omega arith) ∙ ends)
            ∙ ap (λ i. tabulate stale i n ++ (0 ∷ rest)) (omega arith),
      )

  bin_path-found : bin_path m stale w ≡ ok found
  unfolding bin_path
  bin_path-found =
      let (rest, tail) = behind in
      let short : take path_max link ≡ link = take_all path_max link (omega arith) in
      let fits : 0 + length link ≤ length (tabulate stale 0 path_max) =
        omega (arith, length-tabulate stale 0 path_max) in
      rw (linked, short, poke-ok (tabulate stale 0 path_max) 0 link fits)
        (ap (λ l. until_zero (link ++ l)) tail
          ∙ ap until_zero (sym (append_assoc link (tabulate stale (length link) n) (0 ∷ rest)))
          ∙ until_zero-text found rest
              (IsText-append link (tabulate stale (length link) n) text dirty))

  -- the directory of the program, when it is short enough for the longest path that is made of it
  module _
      (short : length (m.dirname found) + length (bytes_of "/../js/core/startup.js") + 1
        ≤ 4096) where
    abbrev dir : List ℕ
    dir = m.dirname found

    copied :
        (name : List ℕ)
        → length dir + length name + 1 ≤ 4096
        → copy_behind m dir name ≡ ok (dir ++ name)
    copied name h = rw (le→leb _ _ h)

    get_bin_dir-found : get_bin_dir m stale w ≡ ok dir
    unfolding get_bin_dir
    get_bin_dir-found = rw (bin_path-found, le→leb (0 + length dir + 1) path_max (omega arith))

    -- `main` with another number of arguments than one, where `readlink` gives the program's own path
    -- and there is a NUL somewhere behind it in memory: what is taken for the path are these bytes and
    -- those in front of that NUL, which `readlink` does not store itself. The scripts are looked for
    -- beside the directory of it, if that is short enough; the first one is run with the globals; what
    -- it throws is printed, and the exit code is 0 all the same.
    pub main_lem :
        (arguments : List (List ℕ))
        → length arguments ≢ 1
        → let (there, path) = m.realpath w (dir ++ bytes_of "/../js") in
          let script = (m.realpath w (dir ++ bytes_of "/../js/core/startup.js")).1 in
          let include : List (List ℕ) = if there then path ∷ [] else [] in
          let (trace, w') =
            m.require w (globals m include (filled (m.getcwd w) path) arguments) script in
          main m stale arguments w ≡ ok (0, report m trace w')
    unfolding main start get_module_file
    main_lem arguments some_script = rw (
      ne→not-== (length arguments) 1 some_script,
      get_bin_dir-found,
      copied (bytes_of "/../js") (omega arith),
      copied (bytes_of "/../js/core/startup.js") short,
    )
