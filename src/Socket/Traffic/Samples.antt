-- ===== src/Socket/Traffic/Samples.antt =====
-- A wire between two sockets for the tests: the bytes that are on it, in order.
use v8h.Base.{
  ℕ, ◌≤◌, ◌<◌, ◌≡◌, ◌≢◌, ◌⊎◌, inl, inr, refl, sym, List, [], ◌∷◌, ◌++◌, arith, length, length-take,
  take, drop, min, size_max, take-append-drop,
}
use v8h.Socket.{Net, minus_one}
use v8h.Socket.Receive.{ReceivesWithin}
use v8h.Socket.Traffic.{IsWire}

-- `send` takes two bytes at once at most, `recv` three.
abbrev pub wire_net : Net
wire_net = record {
  System = List ℕ;
  errno = λ s. 0;
  set_errno = λ s n. s;
  send = λ s fd bytes. (min 2 (length bytes), s ++ take (min 2 (length bytes)) bytes);
  recv = λ s fd room. (length (take (min 3 room) s), take (min 3 room) s, drop (min 3 room) s);
  get_flags = λ s fd. 2;
  set_flags = λ s fd flags. (0, s);
  inet_addr = λ text. 16777343;
  inet_ntoa = λ address. 49 ∷ [];
  socket = λ s family. (3, s);
  setsockopt = λ s fd reuse. s;
  bind_in = λ s fd addr len. (0, s);
  bind_un = λ s fd addr len. (0, s);
  connect_in = λ s fd addr len. (0, s);
  connect_un = λ s fd addr len. (0, s);
  accept_in = λ s fd. (minus_one, record { family = 2; address = 16777343; port = 0 }, s);
  accept_un = λ s fd. (minus_one, record { family = 1; path = [] }, s);
  listen = λ s fd backlog. (0, s);
  close = λ s fd. (0, s);
}

abbrev pub on_wire : List ℕ → List ℕ
on_wire s = s

wire-sends :
    (s bytes : List ℕ)
    → bytes ≢ []
    → let (r, s') = wire_net.send s 4 bytes in
      ((r ≡ size_max) × (s' ≡ s)) ⊎ ((0 < r) × (r ≤ length bytes) × (s' ≡ s ++ take r bytes))
wire-sends s [] h = absurd (h refl)
wire-sends s (x ∷ bytes) h = inr (omega arith, omega arith, refl)

wire-within : ReceivesWithin wire_net
wire-within s fd room = inl (refl, omega (arith, length-take (min 3 room) s))

wire-receives :
    (s : List ℕ) (room : ℕ)
    → 0 < room
    → s ≢ []
    → let (r, bytes, s') = wire_net.recv s 5 room in (0 < r) × (r ≢ size_max) × (s ≡ bytes ++ s')
wire-receives [] room h some = absurd (some refl)
wire-receives (x ∷ s) room h some = (
  omega (arith, length-take (min 3 room) (x ∷ s)),
  (λ e. omega (arith, e, length-take (min 3 room) (x ∷ s))),
  sym (take-append-drop (min 3 room) (x ∷ s)),
)

pub wire_net-IsWire : IsWire wire_net on_wire 4 5
wire_net-IsWire = record {
  sends = record { taken = wire-sends };
  has_room = λ s bytes some idle e. omega (arith, e);
  within = wire-within;
  receives = wire-receives;
}
