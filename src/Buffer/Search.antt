-- ===== src/Buffer/Search.antt =====
-- `Buffer::partial_find` (src/buffer.cc), and how coffee/core/socket.coffee (`readToken`) uses it.
use v8h.Base.{
  ℕ, ◌+◌, ◌-◌, ◌^◌, ◌≤◌, ◌<◌, ◌≡◌, ◌≢◌, ◌↔◌, sym, ap, ◌∙◌, List, [], ◌++◌, arith, ltb, Bool-cases,
  ltb→lt, le→leb, lt→not-leb, ne→not-==, eq→==, not-ltb→le, inl, inr, length, drop, length-drop,
  add_size, drop-drop, drop-append_left, size_to_int, int_to_size,
}
use v8h.Base.Memory.{drop-slice, peek-ok}
use v8h.Base.Outcome.{Outcome, ok}
use v8h.Algorithm
use v8h.Algorithm.Find.{IsFirst, partial_find-IsFirst}
use v8h.Algorithm.Resume.{
  OccursAt, OccursAt-drop, IsFirst-OccursAt, IsFirst-le, partial_find-resume, ok-injective,
}
use v8h.Buffer.{Buffer, partial_find}
use v8h.Buffer.Valid.{IsValid, contents, length-contents}
use v8h.Buffer.Write.{IsAppended}

-- Without a needle the offset is returned, and behind the contents the size is, as an `int`.
pub partial_find_ends :
    (b needle : Buffer) (offset : ℕ)
    → (needle.size ≡ 0 → partial_find b needle offset ≡ ok (size_to_int offset))
      × (0 < needle.size → b.size ≤ offset → partial_find b needle offset ≡ ok (size_to_int b.size))
unfolding partial_find
partial_find_ends b needle offset = (
  λ e. rw (eq→== needle.size 0 e),
  λ h le.
      rw (ne→not-== needle.size 0 (λ (e : needle.size ≡ 0). omega arith), le→leb b.size offset le),
)

back :
    (p offset : ℕ)
    → offset + p < 2 ^ 31
    → size_to_int (add_size (int_to_size p) offset) ≡ offset + p
back p offset h = ground arith

module _ (b needle : Buffer) (v : IsValid b) (w : IsValid needle) (some_needle : 0 < needle.size)
    (small : b.size < 2 ^ 31) where
  contents_needle : contents needle ≢ []
  contents_needle e = omega (arith, ap length e, length-contents w)

  -- The search in the block is one in the contents from the offset on.
  search_from :
      (offset : ℕ)
      → offset < b.size
      → (p : ℕ) → Algorithm.partial_find (drop offset (contents b)) (contents needle) ≡ ok p
      → offset + p ≤ b.size
      → partial_find b needle offset ≡ ok (offset + p)
  unfolding partial_find
  search_from offset h p run le =
      rw
        (
          ne→not-== needle.size 0 (λ (e : needle.size ≡ 0). omega arith),
          lt→not-leb b.size offset h,
          peek-ok b.block (b.cursor + offset) (b.size - offset)
              (omega (arith, v.allocated, v.live, v.fits)),
          peek-ok needle.block needle.cursor needle.size
              (omega (arith, w.allocated, w.live, w.fits)),
          ← drop-slice b.block b.cursor b.size offset (omega arith),
          run,
        )
        (ap ok (back p offset (omega arith)))

  search_end : (offset : ℕ) → offset ≡ b.size → partial_find b needle offset ≡ ok (offset + 0)
  search_end offset h =
      (partial_find_ends b needle offset).1 some_needle (omega arith) ∙ ap ok (omega arith)

  -- The search from any offset in the contents, the end included.
  pub partial_find_lem :
      (offset : ℕ)
      → offset ≤ b.size
      → (p : ℕ) × (Algorithm.partial_find (drop offset (contents b)) (contents needle) ≡ ok p)
        × (partial_find b needle offset ≡ ok (offset + p))
        × IsFirst (drop offset (contents b)) (contents needle) p
  partial_find_lem offset h =
      let len = length-drop offset (contents b) in
      let (p, run, first) =
        partial_find-IsFirst (drop offset (contents b)) (contents needle) contents_needle
          (omega (arith, len, length-contents v)) in
      (
        p,
        run,
        elim (Bool-cases (ltb offset b.size)) [
          | inl lt ↦
              search_from offset (ltb→lt offset b.size lt) p run
                (omega (arith, len, length-contents v, first.within, ltb→lt offset b.size lt))
          | inr end ↦
              let at_end : offset ≡ b.size = omega (arith, not-ltb→le offset b.size end) in
              search_end offset at_end
              ∙ ap (λ q. ok (offset + q))
                  (omega (arith, at_end, len, length-contents v, first.within))
        ],
        first,
      )

  -- `partial_find` in valid buffers, for a needle that is not empty, contents of less than 2 ^ 31
  -- bytes and an offset inside them, returns a position from the offset on and no occurrence of the
  -- needle from the offset on begins before it. The needle stands at the position exactly when it
  -- fits behind it, which is how the callers test for success.
  pub partial_find_found :
      (offset : ℕ)
      → offset ≤ b.size
      → (p : ℕ) × (partial_find b needle offset ≡ ok p)
        × (offset ≤ p)
        × (p ≤ b.size)
        × ((p + needle.size ≤ b.size) ↔ OccursAt (contents b) (contents needle) p)
        × ((q : ℕ) → offset ≤ q → q < p → ¬ OccursAt (contents b) (contents needle) q)
  partial_find_found offset h =
      let (p, run, found, first) = partial_find_lem offset h in
      let len = length-drop offset (contents b) in
      let all = length-contents v in
      let needle_len = length-contents w in
      let shift = λ (k : ℕ). OccursAt-drop (contents b) (contents needle) offset k (omega arith) in
      (
        offset + p,
        found,
        omega arith,
        omega (arith, first.within),
        (λ fits. (shift p).0 (IsFirst-OccursAt first (omega arith)), λ at. omega (arith, at.0)),
        λ q le lt at.
            let e : q ≡ offset + (q - offset) = omega arith in
            let rest = (shift (q - offset)).1 (rw e at at) in
            omega (arith, IsFirst-le (q - offset) first rest),
      )

-- For `readToken`, with valid buffers, a needle that is not empty, an `offset` that is not behind the
-- contents, and fewer than 2 ^ 31 bytes after `text` has been appended: if a search from `offset` on has
-- returned `p`, then after that the search from `p` on returns what a search from `offset` on returns.
pub partial_find-IsAppended :
    (b b' needle : Buffer) (text : List ℕ) (offset p : ℕ)
    → IsValid b
    → IsValid needle
    → 0 < needle.size
    → IsAppended b text b'
    → b'.size < 2 ^ 31
    → offset ≤ b.size
    → partial_find b needle offset ≡ ok p
    → partial_find b' needle p ≡ partial_find b' needle offset
partial_find-IsAppended b b' needle text offset p v w some_needle more small le run =
    let hn = contents_needle b needle v w some_needle (omega arith) in
    let len = length-drop offset (contents b) in
    let all = length-contents v in
    let (k, run_k, found_k, first) =
      partial_find_lem b needle v w some_needle (omega arith) offset le in
    let p_eq : p ≡ offset + k = ok-injective p (offset + k) (sym run ∙ found_k) in
    let (r, run_r, run_all) =
      partial_find-resume (drop offset (contents b)) text (contents needle) k hn (omega arith)
        run_k in
    let rest : drop offset (contents b') ≡ drop offset (contents b) ++ text =
      ap (drop offset) more.appended ∙ drop-append_left offset (contents b) text (omega arith) in
    let tail : drop p (contents b') ≡ drop k (drop offset (contents b) ++ text) =
      ap (λ m. drop m (contents b')) p_eq
      ∙ sym (drop-drop k offset (contents b'))
      ∙ ap (drop k) rest in
    let (i, run_i, found_i, _) =
      partial_find_lem b' needle more.valid w some_needle small offset (omega arith) in
    let (j, run_j, found_j, _) =
      partial_find_lem b' needle more.valid w some_needle small p (omega (arith, first.within)) in
    let i_eq : i ≡ k + r = ok-injective i (k + r) (sym run_i ∙ ap (find) rest ∙ run_all) in
    let j_eq : j ≡ r = ok-injective j r (sym run_j ∙ ap (find) tail ∙ run_r) in
    let same : p + j ≡ offset + i = omega arith in found_j ∙ ap ok same ∙ sym found_i
  where
    find : List ℕ → Outcome ℕ
    find l = Algorithm.partial_find l (contents needle)
