-- ===== src/Service/Run.antt =====
-- The loop of `Service::run` (src/service.cc): which callback an event gets, when the loop returns
-- and with what, and the events that have lost their callback.
use v8h.Base.{
  ℕ, zero, suc, ◌+◌, ◌≡◌, ◌≢◌, ◌⊎◌, refl, ap, ◌∙◌, List, [], ◌∷◌, Bool, true, false, arith, ◌==◌,
  if◌then◌else◌, Bool-cases, length, drop, All, leb, add_size, ==→eq, eq→==, ne→not-==, some, none,
  inl, inr,
}
use v8h.Base.Outcome.{Outcome, ok, fault}
use v8h.Service.{
  Service, Event, Waited, wait_failed, ready, Ended, no_fds, failed, has, event_at, is_error,
  unregister, close, with_alive,
}
use v8h.Service.Loop.{callback_for, call_or_fault, dispatch, count_events, run_loop, run}
use v8h.Service.Consistent.{IsConsistent, unregister_lem}

-- the answers of `epoll_wait`: these events, then -1
abbrev pub answers : List (List Event) → List Waited
answers [] = wait_failed ∷ []
answers (events ∷ more) = ready events ∷ answers more

event_at-drop :
    (events : List Event) (i : ℕ) (x : Event) (rest : List Event)
    → drop i events ≡ x ∷ rest
    → event_at events i ≡ ok x
unfolding event_at
event_at-drop [] zero x rest h = cc
event_at-drop [] (suc i) x rest h = cc
event_at-drop (y ∷ events) zero x rest h = cc
event_at-drop (y ∷ events) (suc i) x rest h = event_at-drop events i x rest h

drop_next :
    (events : List Event) (i : ℕ) (x : Event) (rest : List Event)
    → drop i events ≡ x ∷ rest
    → drop (i + 1) events ≡ rest
drop_next [] zero x rest h = cc
drop_next [] (suc i) x rest h = cc
drop_next (y ∷ events) zero x rest h = cc
drop_next (y ∷ events) (suc i) x rest h =
    let e : suc i + 1 ≡ suc (i + 1) = omega arith in rw e (drop_next events i x rest h)

module _ {Callback : Type 0} (s : Service Callback) where
  second_event :
      (x y : Event) → s.events ≡ x ∷ y ∷ [] → event_at (unregister s y.fd).events 1 ≡ ok y
  unfolding unregister event_at
  second_event x y same = elim (Bool-cases (has s.fds y.fd)) [
    | inl there ↦ rw (there, same)
    | inr absent ↦ rw (absent, same)
  ]

  unregister-alive : (fd : ℕ) → (unregister s fd).alive ≡ s.alive
  unfolding unregister
  unregister-alive fd = elim (Bool-cases (has s.fds fd)) [ inl e ↦ rw e | inr e ↦ rw e ]

  callback_for-unregister : (y : Event) → IsConsistent s → callback_for (unregister s y.fd) y ≡ none
  unfolding callback_for
  callback_for-unregister y c =
      let (no_callback, no_error, _) = unregister_lem s c y.fd y.fd in
      let same = eq→== y.fd y.fd refl in
      elim (Bool-cases (is_error y.events)) [
        | inl err ↦ rw err (no_error ∙ rw same)
        | inr plain ↦ rw plain (no_callback ∙ rw same)
      ]

cond_true : {A : Type 0} (b : Bool) (x y : A) → b ≡ true → (if b then x else y) ≡ x
cond_true true x y h = refl
cond_true false x y h = cc

module _ {Callback : Type 0} (call : Callback → Service Callback → Bool × Service Callback) where
  there : {A : Type 0} (s : Service Callback) (m : Outcome A) → s.alive ≡ true → with_alive s m ≡ m
  there s m alive = cond_true s.alive m fault alive

  -- One round of the dispatch.
  dispatch_step :
      (left i : ℕ) (s : Service Callback) (x : Event) (callback : Callback)
      → s.alive ≡ true
      → event_at s.events i ≡ ok x
      → callback_for s x ≡ some callback
      → (call callback s).0 ≡ true
      → dispatch call (suc left) i s ≡ dispatch call left (i + 1) (call callback s).1
  unfolding dispatch call_or_fault
  dispatch_step left i s x callback alive at found returned =
      rw (there s (event_at s.events i) alive, at, found, returned)

  dispatch_missing :
      (left i : ℕ) (s : Service Callback) (x : Event)
      → s.alive ≡ true
      → event_at s.events i ≡ ok x
      → callback_for s x ≡ none
      → dispatch call (suc left) i s ≡ fault
  unfolding dispatch call_or_fault
  dispatch_missing left i s x alive at missing =
      rw (there s (event_at s.events i) alive, at, missing)

  -- What is assumed of the callbacks for the events that satisfy `Q`: while `P` holds there is one,
  -- it returns, it keeps `P`, and it does not wait for other events itself. `P` needs the object to be
  -- there, and does not depend on
  -- the array of events or the count of collections.
  pub record Serves (P : Service Callback → Type 0) (Q : Event → Type 0) : Type 0 where
    pub found :
        (s : Service Callback) (x : Event)
        → P s
        → Q x
        → (callback : Callback) × (callback_for s x ≡ some callback)
          × ((call callback s).0 ≡ true)
          × P (call callback s).1
          × ((call callback s).1.events ≡ s.events)
    pub alive : (s : Service Callback) → P s → s.alive ≡ true
    pub stable :
        (s : Service Callback) (events : List Event) (n : ℕ)
        → P s
        → P (record s { events = events; collections = n })

  module _ (P : Service Callback → Type 0) (Q : Event → Type 0) (serves : Serves P Q) where
    dispatch_lem :
        (rest : List Event) (i : ℕ) (s : Service Callback)
        → drop i s.events ≡ rest
        → All Q rest
        → P s
        → (s' : Service Callback) × (dispatch call (length rest) i s ≡ ok (true, s')) × P s'
    dispatch_lem [] i s at q p = (s, unfold dispatch in refl, p)
    dispatch_lem (x ∷ rest) i s at q p =
        let (callback, found, returned, p', same) = serves.found s x p q.0 in
        let next = drop_next s.events i x rest at in
        let (s', run, p'') =
          dispatch_lem rest (i + 1) (call callback s).1 (ap (drop (i + 1)) same ∙ next) q.1 p' in
        (
          s',
          dispatch_step (length rest) i s x callback (serves.alive s p)
                (event_at-drop s.events i x rest at) found returned
              ∙ run,
          p'',
        )

    count_events-keeps : (times n : ℕ) (s : Service Callback) → P s → P (count_events times n s).1
    unfolding count_events
    count_events-keeps times n s p = elim (Bool-cases (leb 100000 (add_size times n))) [
      | inl e ↦ rw e (serves.stable s s.events (s.collections + 1) p)
      | inr e ↦ rw e p
    ]

    run_loop_lem :
        (batches : List (List Event)) (times : ℕ) (s : Service Callback)
        → All (All Q) batches
        → P s
        → (r : Ended × Service Callback) × (run_loop call (answers batches) times s ≡ ok r)
          × P r.1
          × (((r.0 ≡ no_fds) × (r.1.fds_number ≡ 0)) ⊎ (r.0 ≡ failed))
    unfolding run_loop
    run_loop_lem [] times s q p = elim (Bool-cases (s.fds_number == 0)) [
      | inl e ↦
          ((no_fds, s), there s _ (serves.alive s p) ∙ rw e, p, inl (refl, ==→eq s.fds_number 0 e))
      | inr e ↦ ((failed, s), there s _ (serves.alive s p) ∙ rw e, p, inr refl)
    ]
    run_loop_lem (events ∷ batches) times s q p = elim (Bool-cases (s.fds_number == 0)) [
      | inl e ↦
          ((no_fds, s), there s _ (serves.alive s p) ∙ rw e, p, inl (refl, ==→eq s.fds_number 0 e))
      | inr e ↦
          let (s', run, p') =
            dispatch_lem events 0 (record s { events = events }) refl q.0
              (serves.stable s events s.collections p) in
          let c = count_events times (length events) s' in
          let (r, run', p'', end) =
            run_loop_lem batches c.0 c.1 q.1 (count_events-keeps times (length events) s' p') in
          (r, there s _ (serves.alive s p) ∙ rw (e, run) run', p'', end)
    ]

    -- `run`, while `epoll_wait` answers with any events that the callbacks serve and then fails:
    -- each event finds a callback, `run` returns, what the callbacks keep still holds, and either no
    -- descriptor is left or `epoll_wait` has failed.
    pub run_returns :
        (batches : List (List Event)) (s : Service Callback)
        → All (All Q) batches
        → P s
        → (r : Ended × Service Callback) × (run call (answers batches) s ≡ ok r)
          × P r.1
          × (((r.0 ≡ no_fds) × (r.1.fds_number ≡ 0)) ⊎ (r.0 ≡ failed))
    unfolding run
    run_returns batches s q p = run_loop_lem batches 0 s q p

  -- `run`, where two descriptors are ready in one wait and the first one's callback deletes the
  -- second one: the second one's event has no callback left, and nothing guards the call.
  pub run_stale :
      (s s' : Service Callback) (x y : Event) (callback : Callback) (waits : List Waited)
      → IsConsistent s'
      → s.alive ≡ true
      → s'.alive ≡ true
      → s.fds_number ≢ 0
      → callback_for s x ≡ some callback
      → call callback (record s { events = x ∷ y ∷ [] }) ≡ (true, unregister s' y.fd)
      → s'.events ≡ x ∷ y ∷ []
      → run call (ready (x ∷ y ∷ []) ∷ waits) s ≡ fault
  unfolding run run_loop
  run_stale s s' x y callback waits c alive alive' some_fds found deletes same =
      let s₀ = record s { events = x ∷ y ∷ [] } in
      let first =
        dispatch_step 1 0 s₀ x callback alive (unfold event_at in refl)
          (unfold callback_for in found) (ap (λ (r : Bool × Service Callback). r.0) deletes) in
      let second = ap (λ (r : Bool × Service Callback). dispatch call 1 1 r.1) deletes in
      let third =
        dispatch_missing 0 1 (unregister s' y.fd) y (unregister-alive s' y.fd ∙ alive')
          (second_event s' x y same) (callback_for-unregister s' y c) in
      there s _ alive ∙ rw (ne→not-== s.fds_number 0 some_fds, first ∙ second ∙ third)

  run_loop-dead :
      (waits : List Waited) (times : ℕ) (s : Service Callback)
      → s.alive ≡ false
      → run_loop call waits times s ≡ fault
  unfolding run_loop
  run_loop-dead [] times s dead = rw dead
  run_loop-dead (wait_failed ∷ waits) times s dead = rw dead
  run_loop-dead (ready events ∷ waits) times s dead = rw dead

  count_events-alive :
      (times n : ℕ) (s : Service Callback) → (count_events times n s).1.alive ≡ s.alive
  unfolding count_events
  count_events-alive times n s = elim (Bool-cases (leb 100000 (add_size times n))) [
    | inl e ↦ rw e
    | inr e ↦ rw e
  ]

  close-alive : (t : Service Callback) → (close t).alive ≡ false
  unfolding close
  close-alive t = elim (Bool-cases t.alive) [ inl e ↦ rw e | inr e ↦ rw e ]

  -- The dispatch goes on, and nothing the loop does next finds the object.
  dispatch-dead :
      (left i : ℕ) (s : Service Callback) → s.alive ≡ false → dispatch call (suc left) i s ≡ fault
  unfolding dispatch
  dispatch-dead left i s dead = rw dead

  -- `run`, where the callback of the first event of a wait closes the service: the object that the
  -- loop goes on with has been deleted, whatever events and waits come next.
  pub run_closed :
      (s t : Service Callback) (x : Event) (more : List Event) (callback : Callback)
      → (waits : List Waited) → s.alive ≡ true
      → s.fds_number ≢ 0
      → callback_for s x ≡ some callback
      → call callback (record s { events = x ∷ more }) ≡ (true, close t)
      → run call (ready (x ∷ more) ∷ waits) s ≡ fault
  unfolding run run_loop
  run_closed s t x [] callback waits alive some_fds found closes =
      let s₀ = record s { events = x ∷ [] } in
      let first =
        dispatch_step 0 0 s₀ x callback alive (unfold event_at in refl)
          (unfold callback_for in found) (ap (λ (r : Bool × Service Callback). r.0) closes) in
      let second = ap (λ (r : Bool × Service Callback). dispatch call 0 1 r.1) closes in
      let third : dispatch call 0 1 (close t) ≡ ok (true, close t) = unfold dispatch in refl in
      let c = count_events 0 1 (close t) in
      there s _ alive
      ∙ rw (ne→not-== s.fds_number 0 some_fds, first ∙ second ∙ third)
          (run_loop-dead waits c.0 c.1 (count_events-alive 0 1 (close t) ∙ close-alive t))
  run_closed s t x (y ∷ more) callback waits alive some_fds found closes =
      let s₀ = record s { events = x ∷ y ∷ more } in
      let first =
        dispatch_step (suc (length more)) 0 s₀ x callback alive (unfold event_at in refl)
          (unfold callback_for in found) (ap (λ (r : Bool × Service Callback). r.0) closes) in
      let second =
        ap (λ (r : Bool × Service Callback). dispatch call (suc (length more)) 1 r.1) closes in
      let third = dispatch-dead (length more) 1 (close t) (close-alive t) in
      there s _ alive ∙ rw (ne→not-== s.fds_number 0 some_fds, first ∙ second ∙ third)
