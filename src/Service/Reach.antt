-- ===== src/Service/Reach.antt =====
-- The registrations that a program can make with the functions of src/service.cc, from the
-- constructor on, until the service is closed and after it.
use v8h.Base.{
  ℕ, ◌<◌, ◌≡◌, ◌∙◌, refl, List, [], ◌∷◌, Bool, true, false, arith, length, Option, none, some,
  int_mod, Bool-cases, inl, inr, if◌then◌else◌,
}
use mathlib.Core.Path.{subst}
use v8h.Base.Outcome.{Outcome, ok, fault}
use v8h.Service.{
  Service, Event, has, register, unregister, in_or_out, poll_in, poll_out, del, error, close,
  with_alive,
}
use v8h.Service.Consistent.{
  IsConsistent, interest, is_some, register-IsConsistent, unregister-IsConsistent,
  error-IsConsistent,
}

has-nil : {A : Type 0} (m : List (ℕ × A)) (fd : ℕ) → length m ≡ 0 → has m fd ≡ false
has-nil [] fd h = refl
has-nil (x ∷ m) fd h = absurd (omega arith)

interest-none : (o : Option ℕ) → is_some o ≡ false → o ≡ none
interest-none none h = refl
interest-none (some a) h = cc

module _ {Callback : Type 0} where
  -- One call from JavaScript that returns; a wait, which fills the array of events; a collection of
  -- garbage, which `run` counts.
  pub data Step : Service Callback → Service Callback → Type 0 where
    step_in :
        {s t : Service Callback} (fd : ℕ) (callback : Callback)
        → poll_in s fd callback ≡ ok t
        → Step s t
    step_out :
        {s t : Service Callback} (fd : ℕ) (callback : Callback)
        → poll_out s fd callback ≡ ok t
        → Step s t
    step_del : {s t : Service Callback} (fd : ℕ) → del s fd ≡ ok t → Step s t
    step_error :
        (s : Service Callback) (fd : ℕ) (callback : Callback) → Step s (error s fd callback)
    step_close : (s : Service Callback) → Step s (close s)
    step_wait : (s : Service Callback) (events : List Event) → Step s (record s { events = events })
    step_collect : (s : Service Callback) (n : ℕ) → Step s (record s { collections = n })

  pub data Steps : Service Callback → Service Callback → Type 0 where
    here : {s : Service Callback} → Steps s s
    next : {s t u : Service Callback} → Steps s t → Step t u → Steps s u

  pub Steps-trans : {s t u : Service Callback} → Steps s t → Steps t u → Steps s u
  Steps-trans a here = a
  Steps-trans a (next b step) = next (Steps-trans a b) step

  ok-same : (s t : Service Callback) → ◌≡◌ {A = Outcome (Service Callback)} (ok s) (ok t) → s ≡ t
  ok-same s t h = cc

  with_alive-ok :
      (s x t : Service Callback) → with_alive s (ok x) ≡ ok t → (s.alive ≡ true) × (x ≡ t)
  with_alive-ok s x t h = elim (Bool-cases s.alive) [
    | inl e ↦ (e, ok-same x t (rw e at h))
    | inr e ↦ absurd (not_fault (rw e at h))
  ]
    where
      not_fault : ◌≡◌ {A = Outcome (Service Callback)} fault (ok t) → ⊥
      not_fault f = cc

  registered :
      (events : ℕ) (s t : Service Callback) (fd : ℕ) (callback : Callback)
      → in_or_out events s fd callback ≡ ok t
      → register events s fd callback ≡ t
  unfolding in_or_out
  registered events s t fd callback h = (with_alive-ok s (register events s fd callback) t h).1

  either_way :
      (there : Bool) (s x t : Service Callback)
      → (if there then with_alive s (ok x) else ok x) ≡ ok t
      → x ≡ t
  either_way true s x t h = (with_alive-ok s x t h).1
  either_way false s x t h = ok-same x t h

  unregistered : (s t : Service Callback) (fd : ℕ) → del s fd ≡ ok t → unregister s fd ≡ t
  unfolding del
  unregistered s t fd h = either_way (has s.fds fd) s (unregister s fd) t h

  IsConsistent-same : {s t : Service Callback} → s ≡ t → IsConsistent s → IsConsistent t
  IsConsistent-same e c = subst (λ (s : Service Callback). IsConsistent s) e c

  -- These fields do not matter.
  pub IsConsistent-fields :
      (s : Service Callback) (alive : Bool) (events : List Event) (n : ℕ)
      → IsConsistent s
      → IsConsistent (record s { alive = alive; events = events; collections = n })
  IsConsistent-fields s alive events n c = record {
    legal = c.legal;
    agrees = c.agrees;
    counted = c.counted;
    distinct = c.distinct;
    distinct_error = c.distinct_error;
  }

  close-IsConsistent : (s : Service Callback) → IsConsistent s → IsConsistent (close s)
  unfolding close
  close-IsConsistent s c = elim (Bool-cases s.alive) [
    | inl e ↦ rw e (IsConsistent-fields s false s.events s.collections c)
    | inr e ↦ rw e (IsConsistent-fields s false s.events s.collections c)
  ]

  Step-IsConsistent : {s t : Service Callback} → Step s t → IsConsistent s → IsConsistent t
  Step-IsConsistent {s} {t} (step_in fd callback h) c =
      IsConsistent-same (registered 1 s t fd callback (unfold poll_in in h))
        (register-IsConsistent s c 1 fd callback)
  Step-IsConsistent {s} {t} (step_out fd callback h) c =
      IsConsistent-same (registered 4 s t fd callback (unfold poll_out in h))
        (register-IsConsistent s c 4 fd callback)
  Step-IsConsistent {s} {t} (step_del fd h) c =
      IsConsistent-same (unregistered s t fd h) (unregister-IsConsistent s c fd)
  Step-IsConsistent (step_error s fd callback) c = error-IsConsistent s c fd callback
  Step-IsConsistent (step_close s) c = close-IsConsistent s c
  Step-IsConsistent (step_wait s events) c = IsConsistent-fields s s.alive events s.collections c
  Step-IsConsistent (step_collect s n) c = IsConsistent-fields s s.alive s.events n c

  pub Steps-IsConsistent : {s t : Service Callback} → Steps s t → IsConsistent s → IsConsistent t
  Steps-IsConsistent here c = c
  Steps-IsConsistent (next a step) c = Step-IsConsistent step (Steps-IsConsistent a c)

  -- While fewer than 2 ^ 32 descriptors have callbacks, a consistent service whose counter is 0 has
  -- nothing watched.
  pub unwatched :
      (s : Service Callback)
      → IsConsistent s
      → length s.fds < int_mod
      → s.fds_number ≡ 0
      → (fd : ℕ) → interest s.calls fd ≡ none
  unwatched s c small idle fd =
      let nothing : length s.fds ≡ 0 = omega (arith, c.counted) in
      interest-none (interest s.calls fd) (c.agrees fd ∙ has-nil s.fds fd nothing)
