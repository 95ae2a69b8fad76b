-- ===== src/Service/Loop.antt =====
-- Calling back (src/service.cc): `trigger`, and the loop of `run`. JavaScript's callbacks and the answers
-- of `epoll_wait` are parameters. A callback may change the service, and close it.
use v8h.Base.{
  ℕ, zero, suc, ◌+◌, List, [], ◌∷◌, Bool, true, false, Option, none, some, leb, ◌==◌, if◌then◌else◌,
  length, add_size,
}
use v8h.Base.Outcome.{Outcome, ok, fault, spin, ◌>>=◌}
use v8h.Service.{
  Service, Event, Waited, wait_failed, ready, Ended, no_fds, failed, thrown, get, event_at,
  is_error, with_alive, get_fd_by_event_id,
}

module _ {Callback : Type 0} where
  -- the callback that `run` takes for an event
  unfoldable pub callback_for : Service Callback → Event → Option Callback
  callback_for s x = get (if is_error x.events then s.fds_error else s.fds) x.fd

  -- The counter behind the dispatch.
  unfoldable pub count_events : ℕ → ℕ → Service Callback → ℕ × Service Callback
  count_events times n s =
      let times' = add_size times n in
      if leb 100000 times' then (0, record s { collections = s.collections + 1 }) else (times', s)

  -- A call of a callback: whether it returns, and what it leaves; if not, it throws.
  module _ (call : Callback → Service Callback → Bool × Service Callback) where
    -- A cast of undefined to a function that is then called is a fault.
    unfoldable pub call_or_fault :
        Option Callback → Service Callback → Outcome (Bool × Service Callback)
    call_or_fault none s = fault
    call_or_fault (some callback) s = ok (call callback s)

    -- `trigger` and `trigger_by_event_id`
    unfoldable pub trigger : Service Callback → ℕ → Outcome (Bool × Service Callback)
    trigger s fd = call_or_fault (get s.fds fd) s

    unfoldable pub trigger_by_event_id : Service Callback → ℕ → Outcome (Bool × Service Callback)
    trigger_by_event_id s id = get_fd_by_event_id s id >>= λ fd. trigger s fd

    -- The inner loop of `run`: the events from `i` on, `left` of them. A callback that throws ends
    -- it.
    unfoldable pub dispatch : ℕ → ℕ → Service Callback → Outcome (Bool × Service Callback)
    dispatch zero i s = ok (true, s)
    dispatch (suc left) i s = do
      x ← with_alive s (event_at s.events i)
      (returned, s') ← call_or_fault (callback_for s x) s
      let rest = dispatch left (i + 1) s'
      if returned then rest else ok (false, s')

    -- `run`, given what `epoll_wait` answers; it loops on when there are descriptors and no answer
    -- is left.
    unfoldable pub run_loop :
        List Waited → ℕ → Service Callback → Outcome (Ended × Service Callback)
    run_loop [] times s = with_alive s (if s.fds_number == 0 then ok (no_fds, s) else spin)
    run_loop (wait_failed ∷ waits) times s =
        with_alive s (if s.fds_number == 0 then ok (no_fds, s) else ok (failed, s))
    run_loop (ready events ∷ waits) times s =
        let next = dispatch (length events) 0 (record s { events = events }) >>= λ (done, s').
        let (times', s'') = count_events times (length events) s' in
        let rest = run_loop waits times' s'' in if done then rest else ok (thrown, s') in
        with_alive s (if s.fds_number == 0 then ok (no_fds, s) else next)

    unfoldable pub run : List Waited → Service Callback → Outcome (Ended × Service Callback)
    run waits s = run_loop waits 0 s
