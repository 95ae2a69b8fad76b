-- ===== src/Buffer/Valid.antt =====
-- The representation invariant of `Buffer` (src/buffer.cc), and what its operations keep of it.
use v8h.Base.{
  ℕ, ◌+◌, ◌-◌, ◌*◌, ◌%◌, ◌≤◌, ◌<◌, ◌≡◌, refl, ap, ◌∙◌, List, [], arith, ltb, Bool-cases, not-ltb→le,
  inl, inr, length, take, tabulate, length-append, length-take, length-tabulate, take_all, size_mod,
  add_size,
}
use v8h.Base.Memory.{slice, slice-append, length-slice}
use v8h.Base.Outcome.{ok}
use v8h.Buffer.{
  Buffer, sizeof_buffer, memory_fixed_size, new, realloc, grow_loop, grow_fuel, prepare,
}
use v8h.Buffer.Grow.{IsGrown, grow_loop_lem}

pub record IsValid (b : Buffer) : Type 0 where
  pub allocated : length b.block ≡ b.reserve
  pub live : b.cursor + b.size ≡ b.used
  pub fits : b.used ≤ b.reserve
  pub small : b.reserve < size_mod
  pub accounted : b.reported ≡ (sizeof_buffer + memory_fixed_size + b.reserve) % size_mod

-- the bytes between `data()` and `data() + size()`
abbrev pub contents : Buffer → List ℕ
contents b = slice b.block b.cursor b.size

pub length-contents : {b : Buffer} → IsValid b → length (contents b) ≡ b.size
length-contents {b} v = length-slice b.block b.cursor b.size (omega arith)

-- There is a capacity to triple, and three times what is asked for is a `size_t`.
pub record CanGrow (b : Buffer) (n : ℕ) : Type 0 where
  pub positive : 0 < b.reserve
  pub bounded : 3 * (b.used + n) ≤ size_mod

-- A new buffer of any capacity is valid and empty.
pub new-IsValid :
    (fresh : ℕ → ℕ) (reserve : ℕ)
    → reserve < size_mod
    → IsValid (new fresh reserve)
      × (contents (new fresh reserve) ≡ [])
      × ((new fresh reserve).reserve ≡ reserve)
      × ((new fresh reserve).used ≡ 0)
unfolding new
new-IsValid fresh reserve h = (omega (arith, length-tabulate fresh 0 reserve), refl, refl, refl)

-- What `prepare` leaves: the same live bytes, in a block with room for `n` more.
pub record IsPrepared (b : Buffer) (n : ℕ) (b' : Buffer) : Type 0 where
  pub valid : IsValid b'
  pub same_cursor : b'.cursor ≡ b.cursor
  pub same_size : b'.size ≡ b.size
  pub same_used : b'.used ≡ b.used
  pub room : b.used + n ≤ b'.reserve
  pub same_contents : contents b' ≡ contents b
  pub rounds : (k : ℕ) × IsGrown b.reserve (b.used + n) b'.reserve k

length-realloc :
    (fresh : ℕ → ℕ) (b : Buffer) (size : ℕ)
    → length b.block ≤ size
    → length (realloc fresh b size).block ≡ size
unfolding realloc
length-realloc fresh b size h = omega (
  arith,
  length-append (take size b.block) (tabulate fresh (length b.block) (size - length b.block)),
  length-take size b.block,
  length-tabulate fresh (length b.block) (size - length b.block),
)

realloc-contents :
    (fresh : ℕ → ℕ) (b : Buffer) (size : ℕ)
    → IsValid b
    → b.reserve ≤ size
    → contents (realloc fresh b size) ≡ contents b
unfolding realloc
realloc-contents fresh b size v h =
    rw (take_all size b.block (omega (arith, v.allocated)))
      (slice-append b.block _ b.cursor b.size (omega (arith, v.allocated, v.live, v.fits)))

realloc-IsValid :
    (fresh : ℕ → ℕ) (b : Buffer) (size : ℕ)
    → IsValid b
    → b.reserve ≤ size
    → size < size_mod
    → IsValid (realloc fresh b size)
unfolding realloc
realloc-IsValid fresh b size v h small = omega (arith, length-realloc fresh b size (omega arith))

module _ (fresh : ℕ → ℕ) (b : Buffer) (n : ℕ) (v : IsValid b) where
  realloc-IsPrepared :
      (r k : ℕ) → IsGrown b.reserve (b.used + n) r k → IsPrepared b n (realloc fresh b r)
  realloc-IsPrepared r k g = record {
    valid = realloc-IsValid fresh b r v g.larger g.small;
    same_cursor = unfold realloc in refl;
    same_size = unfold realloc in refl;
    same_used = unfold realloc in refl;
    room = unfold realloc in g.enough;
    same_contents = realloc-contents fresh b r v g.larger;
    rounds = (k, unfold realloc in g);
  }

  stay-IsPrepared :
      (r k : ℕ) → IsGrown b.reserve (b.used + n) r k → r ≡ b.reserve → IsPrepared b n b
  stay-IsPrepared r k g e = record {
    valid = v;
    same_cursor = refl;
    same_size = refl;
    same_used = refl;
    room = omega (arith, g.enough);
    same_contents = refl;
    rounds = (k, rw e at g);
  }

  -- `prepare` on a valid buffer that can grow so far returns the place behind the bytes in use,
  -- and what it leaves is described by `IsPrepared`: no byte is lost, there is room for `n` bytes,
  -- and the capacity is the first of its triples that is large enough.
  pub prepare-IsPrepared :
      CanGrow b n → (b' : Buffer) × (prepare fresh b n ≡ ok (b', b.used)) × IsPrepared b n b'
  unfolding prepare
  prepare-IsPrepared c = elim (Bool-cases (ltb b.reserve r)) [
    | inl more ↦ (realloc fresh b r, rw (run', more), realloc-IsPrepared r k grown)
    | inr same ↦ (
      b,
      rw (run', same),
      stay-IsPrepared r k grown (omega (arith, not-ltb→le b.reserve r same, grown.larger)),
    )
  ]
    where
      loop :
          (r : ℕ) × ((k : ℕ) × IsGrown b.reserve (b.used + n) r k)
          × (grow_loop 64 (b.used + n) b.reserve ≡ ok r)
      loop =
          grow_loop_lem 63 (b.used + n) b.reserve v.small c.bounded
            (omega (arith, c.positive, c.bounded))

      r : ℕ
      r = loop.0

      k : ℕ
      k = loop.1.0

      grown : IsGrown b.reserve (b.used + n) r k
      grown = loop.1.1

      run' : grow_loop grow_fuel (add_size b.used n) b.reserve ≡ ok r
      run' = ap (λ m. grow_loop 64 m b.reserve) (omega (arith, c.bounded, c.positive)) ∙ loop.2
