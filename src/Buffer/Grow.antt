-- ===== src/Buffer/Grow.antt =====
-- The loop of `Buffer::prepare` (src/buffer.cc) that triples the capacity.
use v8h.Base.{
  ℕ, zero, suc, ◌*◌, ◌^◌, ◌≤◌, ◌<◌, ◌≡◌, refl, ap, ◌∙◌, inl, inr, arith, ltb, Bool-cases, ltb→lt,
  lt→ltb, le→not-ltb, size_mod,
}
use v8h.Base.Outcome.{ok, spin}
use v8h.Buffer.{grow_loop}
use native.Mathlib.Nat.{pow-suc}

-- the capacity after `k` rounds
abbrev pub tripled : ℕ → ℕ → ℕ
tripled reserve zero = reserve
tripled reserve (suc k) = tripled (reserve * 3) k

-- `r` is the first of these capacities that is at least `need`, after `k` rounds.
pub record IsGrown (reserve need r k : ℕ) : Type 0 where
  pub reached : r ≡ tripled reserve k
  pub enough : need ≤ r
  pub first : (j : ℕ) → j < k → tripled reserve j < need
  pub larger : reserve ≤ r
  pub small : r < size_mod

-- The test fails at once.
grow_loop_stop :
    (fuel need reserve : ℕ)
    → reserve < size_mod
    → need ≤ reserve
    → (grow_loop (suc fuel) need reserve ≡ ok reserve) × IsGrown reserve need reserve 0
unfolding grow_loop
grow_loop_stop fuel need reserve small h = (
  rw (le→not-ltb reserve need h),
  record {
    reached = refl;
    enough = h;
    first = λ j l. elim l [ ];
    larger = omega arith;
    small = small;
  },
)

-- One round.
grow_loop_more :
    (fuel need reserve : ℕ)
    → reserve < need
    → 3 * need ≤ size_mod
    → grow_loop (suc fuel) need reserve ≡ grow_loop fuel need (reserve * 3)
unfolding grow_loop
grow_loop_more fuel need reserve h room =
    rw (lt→ltb reserve need h) (ap (grow_loop fuel need) (omega arith))

IsGrown-more :
    {need r k : ℕ} (reserve : ℕ)
    → reserve < need
    → IsGrown (reserve * 3) need r k
    → IsGrown reserve need r (suc k)
IsGrown-more {need} {r} {k} reserve h g = record {
  reached = g.reached;
  enough = g.enough;
  first = earlier;
  larger = omega (arith, g.larger);
  small = g.small;
}
  where
    earlier : (j : ℕ) → j < suc k → tripled reserve j < need
    earlier zero l = h
    earlier (suc j) l = g.first j (omega arith)

-- `2 ^ fuel` times the capacity is enough for so many rounds.
pub grow_loop_lem :
    (fuel need reserve : ℕ)
    → reserve < size_mod
    → 3 * need ≤ size_mod
    → need ≤ reserve * 2 ^ fuel
    → (r : ℕ) × ((k : ℕ) × IsGrown reserve need r k) × (grow_loop (suc fuel) need reserve ≡ ok r)
grow_loop_lem zero need reserve small room steps =
    let (run, grown) = grow_loop_stop zero need reserve small (omega arith) in
    (reserve, (0, grown), run)
grow_loop_lem (suc fuel) need reserve small room steps = elim (Bool-cases (ltb reserve need)) [
  | inr stop ↦
      let (run, grown) = grow_loop_stop (suc fuel) need reserve small (ground arith) in
      (reserve, (0, grown), run)
  | inl more ↦
      let lt = ltb→lt reserve need more in
      let (r, (k, grown), run) =
        grow_loop_lem fuel need (reserve * 3) (omega arith) room
          (omega (arith, ap (λ (t : ℕ). reserve * t) (pow-suc 2 fuel))) in
      (
        r,
        (suc k, IsGrown-more reserve lt grown),
        grow_loop_more (suc fuel) need reserve lt room ∙ run,
      )
]

-- The loop of `prepare` does not end where the capacity is 0 and bytes are needed, however many
-- rounds it is given.
pub grow_loop_zero : (fuel need : ℕ) → 0 < need → grow_loop fuel need 0 ≡ spin
unfolding grow_loop
grow_loop_zero zero need h = refl
grow_loop_zero (suc fuel) need h = rw (lt→ltb 0 need h) (grow_loop_zero fuel need h)

-- No round is made where the capacity is enough.
pub IsGrown-stay : {reserve need r k : ℕ} → IsGrown reserve need r k → need ≤ reserve → r ≡ reserve
IsGrown-stay {k = zero} g h = g.reached
IsGrown-stay {k = suc k} g h = absurd (omega (arith, g.first 0 (omega arith)))
