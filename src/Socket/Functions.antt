-- ===== src/Socket/Functions.antt =====
-- The functions of src/socket.cc that JavaScript calls with descriptors, addresses and ports.
use v8h.Base.{
  ℕ, ◌+◌, ◌≡◌, refl, List, arith, leb, if◌then◌else◌, length, Bool-cases, inl, inr, true, false,
}
use v8h.Base.Outcome.{Outcome, ok, fault, ◌>>=◌}
use v8h.Engine.{Engine, arg}
use v8h.Heap.{c_text}
use v8h.Socket
use v8h.Socket.{Net, AddrUn, create_sockaddr_un}

module _ (e : Engine) (net : Net) where
  open e use {Value, int32_value, utf8_length, write_utf8 as store_utf8, new_int}

  -- `String::Utf8Value`, and the text that C takes `*address` for
  abbrev utf8_value : Value → List ℕ
  utf8_value v = store_utf8 v (utf8_length v)

  abbrev pub address : List Value → List ℕ
  address args = c_text (utf8_value (arg e args 1))

  abbrev pub int_arg : List Value → ℕ → ℕ
  int_arg args i = int32_value (arg e args i)

  -- `V8H_RETURN_INT`
  abbrev pub return_int : ℕ × net.System → Outcome (Value × net.System)
  return_int (r, s) = ok (new_int r, s)

  abbrev pub Function : Type 0
  Function = net.System → List Value → Outcome (Value × net.System)

  unfoldable pub set_nonblock : Function
  set_nonblock s args = return_int (Socket.set_nonblock net s (int_arg args 0))

  unfoldable pub bind_tcp : Function
  bind_tcp s args = return_int (
      Socket.bind_tcp_reuse net s (int_arg args 0) (address args) (int_arg args 2) (int_arg args 3))

  unfoldable pub connect_tcp : Function
  connect_tcp s args =
      return_int (Socket.connect_tcp net s (int_arg args 0) (address args) (int_arg args 2))

  unfoldable pub bind_unix : Function
  bind_unix s args = Socket.bind_unix net s (int_arg args 0) (address args) >>= return_int

  unfoldable pub connect_unix : Function
  connect_unix s args = Socket.connect_unix net s (int_arg args 0) (address args) >>= return_int

  unfoldable pub listen : Function
  listen s args = return_int (Socket.listen net s (int_arg args 0) (int_arg args 1))

  unfoldable pub close : Function
  close s args = return_int (Socket.close net s (int_arg args 0))

  -- The whole text is sent, its NULs included.
  unfoldable pub write_utf8 : Function
  write_utf8 s args =
      return_int (Socket.write_utf8 net s (int_arg args 0) (utf8_value (arg e args 1)))

  module _ (s : net.System) (args : List Value) where
    abbrev unix_address : AddrUn
    unix_address = record { family = 1; path = address args }

    -- `bindUnix` and `_connectUnix` with any path, up to its first NUL: one of at most 107 bytes is
    -- given to the system with its length, and two bytes more for the family; a longer one is written
    -- past the end of `sun_path`.
    pub connect_unix-bind_unix :
        let len = 2 + length (address args) in
        let fits = leb (length (address args)) 107 in
        (bind_unix s args
          ≡ (if fits then return_int (net.bind_un s (int_arg args 0) unix_address len) else fault))
        × (connect_unix s args ≡ (
            if fits
            then return_int (net.connect_un s (int_arg args 0) unix_address len)
            else fault))
    unfolding bind_unix connect_unix Socket.bind_unix Socket.connect_unix create_sockaddr_un
    connect_unix-bind_unix = elim (Bool-cases (leb (length (address args)) 107)) [
      | inl fits ↦
          let room : leb (length (address args) + 1) 108 ≡ true = ground arith in
          rw (fits, room) (refl, refl)
      | inr long ↦
          let none : leb (length (address args) + 1) 108 ≡ false = ground arith in
          rw (long, none) (refl, refl)
    ]
