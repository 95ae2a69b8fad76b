-- ===== src/Service/Lifetime.antt =====
-- `Service::run` (src/service.cc) as the end of a program that only calls the functions of the
-- service, from its callbacks too.
use v8h.Base.{ℕ, ◌<◌, ◌≡◌, ◌⊎◌, List, Bool, inl, inr, All, length, none, int_mod}
use v8h.Base.Outcome.{ok}
use v8h.Service.{Service, Event, Ended, no_fds, failed, new}
use v8h.Service.Loop.{run}
use v8h.Service.Consistent.{IsConsistent, interest, new-IsConsistent}
use v8h.Service.Run.{Serves, run_returns, answers}
use v8h.Service.Reach.{
  Steps, next, step_wait, step_collect, Steps-trans, Steps-IsConsistent, unwatched,
}

module _ {Callback : Type 0} (call : Callback → Service Callback → Bool × Service Callback)
    (max_events : ℕ) (P : Service Callback → Type 0) (Q : Event → Type 0)
    (makes_steps : (callback : Callback) (s : Service Callback) → Steps s (call callback s).1)
    (small : (s : Service Callback) → P s → length s.fds < int_mod) where
  abbrev Reached : Service Callback → Type 0
  Reached s = P s × Steps (new max_events) s

  reaches : Serves call P Q → Serves call Reached Q
  reaches serves = record {
    alive = λ s p. serves.alive s p.0;
    found = λ s x p q.
        let (callback, found, returned, p', same) = serves.found s x p.0 q in
        (callback, found, returned, (p', Steps-trans p.1 (makes_steps callback s)), same);
    stable = λ s events n p. (
      serves.stable s events n p.0,
      next (next p.1 (step_wait s events)) (step_collect (record s { events = events }) n),
    );
  }

  -- `run` of a service that any calls have led to from the constructor on, when `epoll_wait` answers with
  -- finitely many arrays of events and then fails, and as long as every event finds its callback and each
  -- callback returns, changes the service by calls of `in`, `out`, `del` and `error` only, leaves it alive
  -- and does not wait for other events itself: `run` returns, for want of descriptors or because of the
  -- failure; the service is still consistent; and if it has returned since no descriptor is left, the
  -- kernel watches none. Fewer than 2 ^ 32 descriptors are registered all the time.
  pub run_unwatched :
      (batches : List (List Event)) (s : Service Callback)
      → Serves call P Q
      → All (All Q) batches
      → P s
      → Steps (new max_events) s
      → (r : Ended × Service Callback) × (run call (answers batches) s ≡ ok r)
        × IsConsistent r.1
        × (((r.0 ≡ no_fds) × ((fd : ℕ) → interest r.1.calls fd ≡ none)) ⊎ (r.0 ≡ failed))
  run_unwatched batches s serves q p steps =
      let (r, returns, p', end) =
        run_returns call Reached Q (reaches serves) batches s q (p, steps) in
      let c = Steps-IsConsistent p'.1 (new-IsConsistent Callback max_events) in
      (r, returns, c, watched r.1 p'.0 c r.0 end)
    where
      watched :
          (t : Service Callback)
          → P t
          → IsConsistent t
          → (ended : Ended) → (((ended ≡ no_fds) × (t.fds_number ≡ 0)) ⊎ (ended ≡ failed))
          → (((ended ≡ no_fds) × ((fd : ℕ) → interest t.calls fd ≡ none)) ⊎ (ended ≡ failed))
      watched t p c ended (inl (e, idle)) = inl (e, unwatched t c (small t p) idle)
      watched t p c ended (inr e) = inr e
