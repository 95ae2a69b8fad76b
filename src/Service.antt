-- ===== src/Service.antt =====
-- src/service.h and src/service.cc: the epoll service. JavaScript's callbacks are parameters.
pub mod Loop
pub mod Keys
pub mod Consistent
pub mod Run
pub mod Reach
pub mod Lifetime
mod Tests
use Prim.Native.Nat.{bit_and}
use v8h.Base.{
  ℕ, zero, suc, ◌+◌, ◌-◌, ◌%◌, ◌^◌, List, [], ◌∷◌, Bool, true, false, not, ◌||◌, Option, none, some,
  ltb, leb, ◌==◌, if◌then◌else◌, length, int_mod, add_size,
}
use v8h.Base.Outcome.{Outcome, ok, fault, spin, ◌>>=◌}

-- the calls of `epoll_ctl`
pub data Ctl : Type 0 where
  ctl_add : ℕ → ℕ → Ctl
  ctl_mod : ℕ → ℕ → Ctl
  ctl_del : ℕ → Ctl

-- `epoll_event`
pub record Event : Type 0 where
  pub fd : ℕ
  pub events : ℕ

abbrev pub epollin : ℕ
epollin = 1

abbrev pub epollout : ℕ
epollout = 4

abbrev pub epollerr : ℕ
epollerr = 8

abbrev pub epollhup : ℕ
epollhup = 16

-- A JavaScript object whose keys are descriptors: each key once, in the order of insertion.
module _ {A : Type 0} where
  abbrev pub has : List (ℕ × A) → ℕ → Bool
  has [] fd = false
  has ((k, a) ∷ m) fd = if k == fd then true else has m fd

  abbrev pub get : List (ℕ × A) → ℕ → Option A
  get [] fd = none
  get ((k, a) ∷ m) fd = if k == fd then some a else get m fd

  abbrev pub put : List (ℕ × A) → ℕ → A → List (ℕ × A)
  put [] fd x = (fd, x) ∷ []
  put ((k, a) ∷ m) fd x = if k == fd then (k, x) ∷ m else (k, a) ∷ put m fd x

  abbrev pub remove : List (ℕ × A) → ℕ → List (ℕ × A)
  remove [] fd = []
  remove ((k, a) ∷ m) fd = if k == fd then m else (k, a) ∷ remove m fd

-- The object and the `Service` behind it. `alive` tells whether the internal field points to one, as
-- `close` leaves NULL there: then `events`, `max_events` and `fds_number` are gone. `calls` is no member: it is what `epoll_ctl` has been
-- called with, the last call first. `collections` counts the calls of `LowMemoryNotification`.
pub record Service (Callback : Type 0) : Type 0 where
  pub alive : Bool
  pub events : List Event
  pub max_events : ℕ
  pub fds_number : ℕ
  pub fds : List (ℕ × Callback)
  pub fds_error : List (ℕ × Callback)
  pub calls : List Ctl
  pub collections : ℕ

-- Entry `i` of the array of events. Behind the `max_events` there is no memory; an entry that no
-- wait has filled is not initialized, which is no less a fault here.
unfoldable pub event_at : List Event → ℕ → Outcome Event
event_at [] i = fault
event_at (x ∷ events) zero = ok x
event_at (x ∷ events) (suc i) = event_at events i

-- `events & EPOLLERR || events & EPOLLHUP`
unfoldable pub is_error : ℕ → Bool
is_error events = not (bit_and events epollerr == 0) || not (bit_and events epollhup == 0)

-- What `epoll_wait` answers: -1, or the events that are ready.
pub data Waited : Type 0 where
  wait_failed : Waited
  ready : List Event → Waited

-- How `run` ends: no descriptor is left, `epoll_wait` failed, or a callback threw an exception.
pub data Ended : Type 0 where
  no_fds failed thrown : Ended

module _ {Callback : Type 0} where
  unfoldable pub new : ℕ → Service Callback
  new max_events = record {
    alive = true;
    events = [];
    max_events = max_events;
    fds_number = 0;
    fds = [];
    fds_error = [];
    calls = [];
    collections = 0;
  }

  -- `Service::constructor`: the first argument, or 1024
  unfoldable pub constructor : List ℕ → Service Callback
  unfolding new
  constructor [] = new 1024
  constructor (max_events ∷ args) = new max_events

  -- A member of the object is out of reach when the field is NULL.
  abbrev pub with_alive {ℓ} : {A : Type ℓ} → Service Callback → Outcome A → Outcome A
  with_alive s m = if s.alive then m else fault

  -- `Service::close`: a field that is NULL already stays so.
  unfoldable pub close : Service Callback → Service Callback
  close s = if s.alive then record s { alive = false } else s

  unfoldable pub get_fds_number : Service Callback → Outcome ℕ
  get_fds_number s = with_alive s (ok s.fds_number)

  -- `Service::wait` for JavaScript, given the answer: the count as an `int`
  unfoldable pub wait : Service Callback → Waited → Outcome (ℕ × Service Callback)
  wait s wait_failed = with_alive s (ok (int_mod - 1, s))
  wait s (ready events) = with_alive s (ok (length events, record s { events = events }))

  -- the members `mod`, `add` and `del`
  unfoldable pub ctl_modify : Service Callback → ℕ → ℕ → Service Callback
  ctl_modify s fd events = record s { calls = ctl_mod fd events ∷ s.calls }

  unfoldable pub ctl_insert : Service Callback → ℕ → ℕ → Service Callback
  ctl_insert s fd events = record s {
    calls = ctl_add fd events ∷ s.calls;
    fds_number = (s.fds_number + 1) % int_mod;
  }

  unfoldable pub ctl_delete : Service Callback → ℕ → Service Callback
  ctl_delete s fd = record s {
    calls = ctl_del fd ∷ s.calls;
    fds_number = (s.fds_number + int_mod - 1) % int_mod;
  }

  -- what `in_or_out` does with the object
  unfoldable pub register : ℕ → Service Callback → ℕ → Callback → Service Callback
  unfolding ctl_modify ctl_insert
  register events s fd callback =
      let s' = if has s.fds fd then ctl_modify s fd events else ctl_insert s fd events in
      record s' { fds = put s.fds fd callback }

  unfoldable pub in_or_out : ℕ → Service Callback → ℕ → Callback → Outcome (Service Callback)
  unfolding register
  in_or_out events s fd callback = with_alive s (ok (register events s fd callback))

  -- `Service::in` and `Service::out`
  unfoldable pub poll_in : Service Callback → ℕ → Callback → Outcome (Service Callback)
  unfolding in_or_out
  poll_in = in_or_out epollin

  unfoldable pub poll_out : Service Callback → ℕ → Callback → Outcome (Service Callback)
  unfolding in_or_out
  poll_out = in_or_out epollout

  -- what `Service::del` does
  unfoldable pub unregister : Service Callback → ℕ → Service Callback
  unfolding ctl_delete
  unregister s fd =
      let s' = if has s.fds fd then record (ctl_delete s fd) { fds = remove s.fds fd } else s in
      record s' { fds_error = remove s.fds_error fd }

  -- `Service::del` touches the object only for a descriptor that has a callback.
  unfoldable pub del : Service Callback → ℕ → Outcome (Service Callback)
  unfolding unregister
  del s fd = if has s.fds fd then with_alive s (ok (unregister s fd)) else ok (unregister s fd)

  -- `Service::error`
  unfoldable pub error : Service Callback → ℕ → Callback → Service Callback
  error s fd callback = record s { fds_error = put s.fds_error fd callback }

  -- `get_fd_by_event_id`
  unfoldable pub get_fd_by_event_id : Service Callback → ℕ → Outcome ℕ
  get_fd_by_event_id s id = with_alive s (event_at s.events id >>= λ x. ok x.fd)

  -- `get_callback_from_event_id`; a missing one is undefined.
  unfoldable pub get_callback_from_event_id : Service Callback → ℕ → Outcome (Option Callback)
  get_callback_from_event_id s id = get_fd_by_event_id s id >>= λ fd. ok (get s.fds fd)
