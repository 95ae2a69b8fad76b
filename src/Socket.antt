-- ===== src/Socket.antt =====
-- src/socket.h and src/socket.cc. The system calls are parameters: `Net`.
pub mod Send
pub mod Receive
pub mod Address
pub mod Traffic
pub mod Functions
mod Tests
use Prim.Native.Nat.{bit_or}
use v8h.Base.{
  ℕ, zero, suc, ◌+◌, ◌-◌, ◌*◌, ◌/◌, ◌%◌, ◌^◌, List, [], ◌∷◌, ◌++◌, Bool, true, false, ◌&&◌, Option,
  none, some, ltb, leb, ◌==◌, if◌then◌else◌, length, take, drop, size_to_int, size_max, int_mod,
}
use v8h.Base.Memory.{peek, poke}
use v8h.Base.Outcome.{Outcome, ok, fault, spin, ◌>>=◌}
use v8h.Buffer
use v8h.Buffer.{Buffer}

-- `sockaddr_in` and `sockaddr_un`: the port in network order, the path as its bytes.
pub record AddrIn : Type 0 where
  pub family : ℕ
  pub address : ℕ
  pub port : ℕ

pub record AddrUn : Type 0 where
  pub family : ℕ
  pub path : List ℕ

-- An `int` is its bit pattern, here and in the results below.
abbrev pub minus_one : ℕ
minus_one = int_mod - 1

-- The system that the process runs on. A call has the system after it beside its result.
pub record Net : Type 1 where
  pub System : Type 0
  pub errno : System → ℕ
  pub set_errno : System → ℕ → System
  -- The `ssize_t` is a bit pattern; `recv` also tells the bytes that it stores.
  pub send : System → ℕ → List ℕ → ℕ × System
  pub recv : System → ℕ → ℕ → ℕ × List ℕ × System
  -- `fcntl` with `F_GETFL` and `F_SETFL`
  pub get_flags : System → ℕ → ℕ
  pub set_flags : System → ℕ → ℕ → ℕ × System
  pub inet_addr : List ℕ → ℕ
  pub inet_ntoa : ℕ → List ℕ
  pub socket : System → ℕ → ℕ × System
  pub setsockopt : System → ℕ → ℕ → System
  pub bind_in : System → ℕ → AddrIn → ℕ → ℕ × System
  pub bind_un : System → ℕ → AddrUn → ℕ → ℕ × System
  pub connect_in : System → ℕ → AddrIn → ℕ → ℕ × System
  pub connect_un : System → ℕ → AddrUn → ℕ → ℕ × System
  pub accept_in : System → ℕ → ℕ × AddrIn × System
  pub accept_un : System → ℕ → ℕ × AddrUn × System
  pub listen : System → ℕ → ℕ → ℕ × System
  pub close : System → ℕ → ℕ × System

abbrev pub eagain : ℕ
eagain = 11

abbrev pub enetdown : ℕ
enetdown = 100

abbrev pub af_unix : ℕ
af_unix = 1

abbrev pub af_inet : ℕ
af_inet = 2

abbrev pub o_nonblock : ℕ
o_nonblock = 2048

-- `sizeof(sockaddr_in)`, `sizeof(sun_path)`, and the offset of `sun_path`
abbrev pub sizeof_sockaddr_in : ℕ
sizeof_sockaddr_in = 16

abbrev pub sun_path_size : ℕ
sun_path_size = 108

abbrev pub sun_path_offset : ℕ
sun_path_offset = 2

-- `htons` and `ntohs` on a machine whose lowest byte comes first
unfoldable pub htons : ℕ → ℕ
htons n = n % 256 * 256 + n / 256 % 256

-- what `accept` makes for JavaScript, or the -1 of the system
pub data Accepted (A : Type 0) : Type 0 where
  client : ℕ → A → Accepted A
  refused : Accepted A

module _ (net : Net) where
  open net use {
    System, errno, send, recv, set_errno, get_flags, set_flags, inet_addr, inet_ntoa, socket,
    setsockopt, bind_in, bind_un, connect_in, connect_un, accept_in, accept_un,
    listen as call_listen, close as call_close,
  }

  unfoldable pub create_sockaddr_in : List ℕ → ℕ → AddrIn × ℕ
  create_sockaddr_in address port = (
    record { family = af_inet; address = inet_addr address; port = htons (port % 65536) },
    sizeof_sockaddr_in,
  )

  -- `strcpy` writes the path and its NUL to `sun_path`.
  unfoldable pub create_sockaddr_un : List ℕ → Outcome (AddrUn × ℕ)
  create_sockaddr_un address =
      if leb (length address + 1) sun_path_size
      then ok (record { family = af_unix; path = address }, sun_path_offset + length address)
      else fault

  unfoldable pub bind_tcp : System → ℕ → List ℕ → ℕ → ℕ × System
  bind_tcp s fd address port =
      let (addr, len) = create_sockaddr_in address port in bind_in s fd addr len

  unfoldable pub connect_tcp : System → ℕ → List ℕ → ℕ → ℕ × System
  connect_tcp s fd address port =
      let (addr, len) = create_sockaddr_in address port in connect_in s fd addr len

  unfoldable pub bind_unix : System → ℕ → List ℕ → Outcome (ℕ × System)
  bind_unix s fd address = do (addr, len) ← create_sockaddr_un address; ok (bind_un s fd addr len)

  unfoldable pub connect_unix : System → ℕ → List ℕ → Outcome (ℕ × System)
  connect_unix s fd address = do
    (addr, len) ← create_sockaddr_un address
    ok (connect_un s fd addr len)

  unfoldable pub set_nonblock : System → ℕ → ℕ × System
  set_nonblock s fd =
      let flag = get_flags s fd in
      if flag == minus_one then (minus_one, s) else set_flags s fd (bit_or flag o_nonblock)

  -- What `create_tcp` and `create_unix` do with their families.
  unfoldable pub create : ℕ → System → ℕ × System
  create family s = let (fd, s') = socket s family in (fd, (set_nonblock s' fd).1)

  unfoldable pub create_tcp : System → ℕ × System
  unfolding create
  create_tcp = create af_inet

  unfoldable pub create_unix : System → ℕ × System
  unfolding create
  create_unix = create af_unix

  unfoldable pub listen : System → ℕ → ℕ → ℕ × System
  listen s fd backlog = call_listen s fd backlog

  -- `_close`
  unfoldable pub close : System → ℕ → ℕ × System
  close s fd = call_close s fd

  -- `_write_utf8`: one `send`, whose result becomes an `int`
  unfoldable pub write_utf8 : System → ℕ → List ℕ → ℕ × System
  write_utf8 s fd text = let (r, s') = send s fd text in (size_to_int r, s')

  -- `Socket::bind_tcp` for JavaScript sets `SO_REUSEADDR` first.
  unfoldable pub bind_tcp_reuse : System → ℕ → List ℕ → ℕ → ℕ → ℕ × System
  bind_tcp_reuse s fd address port reuse = bind_tcp (setsockopt s fd reuse) fd address port

  -- `_accept_tcp`: the descriptor with the address as a text and the port of the client
  unfoldable pub accept_tcp : System → ℕ → Accepted (List ℕ × ℕ) × System
  accept_tcp s server =
      let (fd, addr, s') = accept_in s server in
      if fd == minus_one
      then (refused, s')
      else (client fd (inet_ntoa addr.address, htons addr.port), (set_nonblock s' fd).1)

  -- `_accept_unix`: the descriptor with the path of the client
  unfoldable pub accept_unix : System → ℕ → Accepted (List ℕ) × System
  accept_unix s server =
      let (fd, addr, s') = accept_un s server in
      if fd == minus_one then (refused, s') else (client fd addr.path, (set_nonblock s' fd).1)

  -- What the loop of `_write_buffer` does with the result of `send`: whether it goes on, and the
  -- buffer and `n` then.
  unfoldable pub after_send : System → Buffer → ℕ → Bool × Buffer × ℕ
  after_send s b r =
      let n = size_to_int r in
      if ltb 0 n && ltb n (2 ^ 31)
      then (true, Buffer.consume b n, n)
      else if n == minus_one
      then (false, b, if errno s == eagain then 0 else n)
      else (true, b, n)

  -- The loop, with the last `n`.
  unfoldable pub write_loop : ℕ → ℕ → System → Buffer → ℕ → Outcome (System × Buffer × ℕ)
  write_loop zero fd s b n = spin
  write_loop (suc fuel) fd s b n =
      if b.size == 0
      then ok (s, b, n)
      else peek b.block b.cursor b.size >>= λ bytes.
          let (r, s') = send s fd bytes in
          let (more, b', n') = after_send s' b r in
          let rest = write_loop fuel fd s' b' n' in if more then rest else ok (s', b', n')

  -- `_write_buffer`: a round for each byte, and one more for the test.
  unfoldable pub write_buffer : ℕ → System → Buffer → Outcome (System × Buffer × ℕ)
  write_buffer fd s b = write_loop (b.size + 1) fd s b 0

  -- `_read_buffer`: `n` is a `size_t`, so that the -1 of `recv` is the largest one.
  unfoldable pub read_buffer : (ℕ → ℕ) → ℕ → System → Buffer → Outcome (System × Buffer × ℕ)
  read_buffer fresh fd s b = do
    (b', at) ← Buffer.prepare fresh b 8192
    let received = recv s fd (Buffer.remain b')
    let n = received.0
    block ← poke b'.block at received.1
    let filled = record b' { block = block }
    let s' = received.2
    ok (
        if n == 0
        then (set_errno s' enetdown, filled, size_to_int size_max)
        else if ltb 0 n
        then (s', Buffer.commit filled n, size_to_int n)
        else (s', filled, size_to_int n))
