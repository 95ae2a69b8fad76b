-- ===== src/Service/Tests.antt =====
-- The theorems about src/service.cc at services with two descriptors.
use v8h.Base.{
  length, ℕ, ◌<◌, ◌≡◌, ◌⊎◌, refl, [], ◌∷◌, Bool, true, false, arith, some, none, List, int_mod, ap,
  sym,
}
use mathlib.Core.Path.{subst}
use v8h.Base.Outcome.{Outcome, ok, fault, spin}
use v8h.Service.{
  Service, Event, ctl_add, has, put, poll_in, poll_out, in_or_out, ctl_insert, ctl_modify, new,
  ready, wait_failed, Ended, no_fds, failed, is_error, event_at, register, unregister, close,
}
use v8h.Service.Loop.{run, callback_for, run_loop, dispatch, call_or_fault, count_events}
use v8h.Service.Consistent.{IsConsistent, interest, is_some}
use v8h.Service.Reach.{Steps, here, next, step_in, step_out}
use v8h.Service.Run.{answers, Serves, run_stale, run_closed}
use v8h.Service.Lifetime.{run_unwatched}

-- Callbacks are numbers here. 5 and 6 are watched for input.
abbrev two_fds : Service ℕ
two_fds = record {
  alive = true;
  events = [];
  max_events = 16;
  fds_number = 2;
  fds = (5, 50) ∷ (6, 60) ∷ [];
  fds_error = [];
  calls = ctl_add 6 1 ∷ ctl_add 5 1 ∷ [];
  collections = 0;
}

abbrev in_5 : Event
in_5 = record { fd = 5; events = 1 }

abbrev in_6 : Event
in_6 = record { fd = 6; events = 1 }

abbrev error_5 : Event
error_5 = record { fd = 5; events = 8 }

abbrev woken : Service ℕ
woken = record two_fds { events = in_5 ∷ in_6 ∷ [] }

-- It is what two calls of `in` leave.
two_fds_built : register 1 (register 1 (new 16) 5 50) 6 60 ≡ two_fds
unfolding register ctl_insert new
two_fds_built = refl

same_keys : (fd : ℕ) → is_some (interest two_fds.calls fd) ≡ has two_fds.fds fd
same_keys fd = ground arith

two_fds-IsConsistent : IsConsistent two_fds
two_fds-IsConsistent = record {
  legal = (refl, (refl, tt));
  agrees = same_keys;
  counted = refl;
  distinct = (refl, (refl, tt));
  distinct_error = tt;
}

woken-IsConsistent : IsConsistent woken
woken-IsConsistent = record {
  legal = (refl, (refl, tt));
  agrees = same_keys;
  counted = refl;
  distinct = (refl, (refl, tt));
  distinct_error = tt;
}

two_fds-Steps : Steps (new 16) two_fds
unfolding poll_in in_or_out register ctl_insert new
two_fds-Steps =
    next (next here (step_in {s = new 16} {t = register 1 (new 16) 5 50} 5 50 refl))
      (step_in {s = register 1 (new 16) 5 50} {t = two_fds} 6 60 refl)

-- A callback that waits for output from now on.
abbrev kept : Outcome (Service ℕ) → Service ℕ → Service ℕ
kept (ok t) s = t
kept fault s = s
kept spin s = s

abbrev answer : ℕ → Service ℕ → Bool × Service ℕ
answer callback s = (true, kept (poll_out s 5 callback) s)

answered :
    (s : Service ℕ) (callback : ℕ)
    → s.alive ≡ true
    → poll_out s 5 callback ≡ ok (register 4 s 5 callback)
unfolding poll_out in_or_out
answered s callback alive = rw alive

answer-Steps : (callback : ℕ) (s : Service ℕ) → Steps s (answer callback s).1
answer-Steps callback s = go (poll_out s 5 callback) refl
  where
    go : (o : Outcome (Service ℕ)) → poll_out s 5 callback ≡ o → Steps s (kept o s)
    go (ok t) h = next here (step_out 5 callback h)
    go fault h = here
    go spin h = here

abbrev Watched : Service ℕ → Type 0
Watched s = (s.alive ≡ true) × (s.fds ≡ two_fds.fds)

Watched-small : (s : Service ℕ) → Watched s → length s.fds < int_mod
Watched-small s w = rw (w.1) (omega arith)

abbrev Plain : Event → Type 0
Plain x = (x.fd ≡ 5) × (is_error x.events ≡ false)

registered :
    (s : Service ℕ)
    → Watched s
    → Watched (register 4 s 5 50) × ((register 4 s 5 50).events ≡ s.events)
unfolding register ctl_modify
registered s w =
    let there : has s.fds 5 ≡ true = ap (λ (m : List (ℕ × ℕ)). has m 5) w.1 in
    rw there ((w.0, ap (λ (m : List (ℕ × ℕ)). put m 5 50) w.1), refl)

answer-kept :
    (s : Service ℕ) → Watched s → Watched (answer 50 s).1 × ((answer 50 s).1.events ≡ s.events)
answer-kept s w =
    subst (λ (o : Outcome (Service ℕ)). Watched (kept o s) × ((kept o s).events ≡ s.events))
      (sym (answered s 50 w.0)) (registered s w)

answer-found :
    (s : Service ℕ) (x : Event)
    → Watched s
    → Plain x
    → (callback : ℕ) × (callback_for s x ≡ some callback)
      × ((answer callback s).0 ≡ true)
      × Watched (answer callback s).1
      × ((answer callback s).1.events ≡ s.events)
unfolding callback_for
answer-found s x w (fd, plain) =
    let (w', same) = answer-kept s w in (50, rw (plain, fd, w.1), refl, w', same)

answer-Serves : Serves answer Watched Plain
answer-Serves = record { alive = λ s w. w.0; found = answer-found; stable = λ s events n w. w }

Plain-5 : Plain in_5
unfolding is_error
Plain-5 = (refl, refl)

abbrev batches : List (List Event)
batches = (in_5 ∷ []) ∷ (in_5 ∷ in_5 ∷ []) ∷ []

run_unwatched_example :
    (r : Ended × Service ℕ) × (run answer (answers batches) two_fds ≡ ok r)
    × IsConsistent r.1
    × (((r.0 ≡ no_fds) × ((fd : ℕ) → interest r.1.calls fd ≡ none)) ⊎ (r.0 ≡ failed))
run_unwatched_example =
    run_unwatched answer 16 Watched Plain answer-Steps Watched-small batches two_fds answer-Serves
      ((Plain-5, tt), ((Plain-5, (Plain-5, tt)), tt)) (refl, refl) two_fds-Steps

-- A callback that stops waiting for the other descriptor.
abbrev drop_6 : ℕ → Service ℕ → Bool × Service ℕ
drop_6 callback s = (true, unregister s 6)

found_5 : callback_for two_fds in_5 ≡ some 50
unfolding callback_for is_error
found_5 = refl

run_stale_example : run drop_6 (ready (in_5 ∷ in_6 ∷ []) ∷ []) two_fds ≡ fault
run_stale_example =
    run_stale drop_6 two_fds woken in_5 in_6 50 [] woken-IsConsistent refl refl (λ h. omega arith)
      found_5 refl refl

-- A callback that closes the service.
abbrev shut : ℕ → Service ℕ → Bool × Service ℕ
shut callback s = (true, close s)

run_closed_example : run shut (ready (in_5 ∷ in_6 ∷ []) ∷ wait_failed ∷ []) two_fds ≡ fault
run_closed_example =
    run_closed shut two_fds woken in_5 (in_6 ∷ []) 50 (wait_failed ∷ []) refl (λ h. omega arith)
      found_5 refl

-- Both events get their callbacks, then the wait fails.
run_two :
    run (λ callback s. (true, s)) (ready (in_5 ∷ in_6 ∷ []) ∷ wait_failed ∷ []) two_fds
    ≡ ok (failed, woken)
unfolding run run_loop dispatch call_or_fault callback_for is_error event_at count_events
run_two = refl

-- One descriptor, registered and deleted again.
abbrev idle : Service ℕ
idle = unregister (register 1 (new 16) 5 50) 5
