-- ===== src/Socket/Address.antt =====
-- Addresses and new connections (src/socket.cc).
use v8h.Base.{
  [], ℕ, ◌+◌, ◌%◌, ◌≤◌, ◌<◌, ◌≡◌, ◌≢◌, ap, ◌∙◌, List, arith, le→leb, lt→not-leb, ne→not-==, length,
}
use v8h.Base.Outcome.{ok, fault}
use v8h.Socket.{
  Net, AddrUn, minus_one, htons, client, refused, sun_path_offset, create_sockaddr_in,
  create_sockaddr_un, bind_unix, connect_unix, accept_tcp, set_nonblock, af_unix,
}

unix_cases :
    (net : Net) (s : net.System) (fd : ℕ) (path : List ℕ)
    → (length path ≤ 107
        → let addr : AddrUn = record { family = af_unix; path = path } in
          (bind_unix net s fd path ≡ ok (net.bind_un s fd addr (sun_path_offset + length path)))
          × (connect_unix net s fd path
              ≡ ok (net.connect_un s fd addr (sun_path_offset + length path))))
      × (108 ≤ length path
          → (bind_unix net s fd path ≡ fault) × (connect_unix net s fd path ≡ fault))
unfolding bind_unix connect_unix create_sockaddr_un
unix_cases net s fd path = (
  λ h. let fits = le→leb (length path + 1) 108 (omega arith) in (rw fits, rw fits),
  λ h. let over = lt→not-leb (length path + 1) 108 (omega arith) in (rw over, rw over),
)

-- A path of up to 107 bytes fits into `sun_path` with its NUL, and `bind` and `connect` get it
-- whole, with the length that counts the bytes before the NUL.
pub bind_unix_fits :
    (net : Net) (s : net.System) (fd : ℕ) (path : List ℕ)
    → length path ≤ 107
    → let addr : AddrUn = record { family = af_unix; path = path } in
      (bind_unix net s fd path ≡ ok (net.bind_un s fd addr (sun_path_offset + length path)))
      × (connect_unix net s fd path ≡ ok (net.connect_un s fd addr (sun_path_offset + length path)))
bind_unix_fits net s fd path h = (unix_cases net s fd path).0 h

-- `bind` and `connect` of a Unix socket with a path of 108 bytes or more write past the end of
-- `sun_path`.
pub bind_unix-fault :
    (net : Net) (s : net.System) (fd : ℕ) (path : List ℕ)
    → 108 ≤ length path
    → (bind_unix net s fd path ≡ fault) × (connect_unix net s fd path ≡ fault)
bind_unix-fault net s fd path h = (unix_cases net s fd path).1 h

htons-htons : (n : ℕ) → n < 65536 → htons (htons n) ≡ n
unfolding htons
htons-htons n h = omega arith

accept_tcp_cases :
    (net : Net) (s : net.System) (server : ℕ) (address : List ℕ) (port : ℕ)
    → port < 65536
    → let (fd, addr, s') = net.accept_in s server in
      (fd ≡ minus_one → accept_tcp net s server ≡ (refused, s'))
      × (fd ≢ minus_one
          → addr.port ≡ (create_sockaddr_in net address port).0.port
          → accept_tcp net s server
            ≡ (client fd (net.inet_ntoa addr.address, port), (set_nonblock net s' fd).1))
unfolding accept_tcp create_sockaddr_in
accept_tcp_cases net s server address port small = (
  λ e. rw e,
  λ ne e.
      let fd = (net.accept_in s server).0 in
      let at = (net.accept_in s server).1 in
      let same : htons at.port ≡ port =
        ap htons (e ∙ ap htons small_mod) ∙ htons-htons port small in
      rw (ne→not-== fd minus_one ne, same),
)
  where
    small_mod : port % 65536 ≡ port
    small_mod = omega arith

-- `_accept_tcp` reports -1 when `accept` does, and leaves the system as `accept` left it.
pub accept_tcp-refused :
    (net : Net) (s : net.System) (server : ℕ)
    → (net.accept_in s server).0 ≡ minus_one
    → accept_tcp net s server ≡ (refused, (net.accept_in s server).2)
accept_tcp-refused net s server e = (accept_tcp_cases net s server [] 0 (omega arith)).0 e

-- `_accept_tcp`, when `accept` returns a descriptor: the descriptor is set not to block, and the
-- port that JavaScript gets is the one that the peer's address was made with.
pub accept_tcp-client :
    (net : Net) (s : net.System) (server : ℕ) (address : List ℕ) (port : ℕ)
    → port < 65536
    → (net.accept_in s server).0 ≢ minus_one
    → (net.accept_in s server).1.port ≡ (create_sockaddr_in net address port).0.port
    → let (fd, addr, s') = net.accept_in s server in
      accept_tcp net s server
      ≡ (client fd (net.inet_ntoa addr.address, port), (set_nonblock net s' fd).1)
accept_tcp-client net s server address port small ne e =
    (accept_tcp_cases net s server address port small).1 ne e
