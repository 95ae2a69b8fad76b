-- ===== src/Socket/Tests.antt =====
-- The theorems about src/socket.cc over a system that is a few numbers.
use v8h.Base.{
  size_to_int, ℕ, zero, suc, ◌+◌, ◌-◌, ◌≤◌, ◌<◌, ◌≡◌, ◌≢◌, ◌⊎◌, inl, inr, refl, List, [], ◌∷◌, ◌++◌,
  Bool, true, false, arith, length, length-take, take, min, size_max, tabulate, if◌then◌else◌,
}
use v8h.Base.Outcome.{ok}
use v8h.Buffer
use v8h.Buffer.{Buffer}
use v8h.Buffer.Samples.{zeros, sample, empty_buffer, sample-IsValid}
use v8h.Buffer.Valid.{IsValid, contents}
use v8h.Buffer.Write.{IsAppended}
use v8h.Socket.{
  enetdown, Net, minus_one, write_buffer, read_buffer, create_sockaddr_in, htons, write_loop,
  after_send,
}
use v8h.Socket.Send.{IsStream, IsFlushed, write_buffer-IsFlushed}
use v8h.Socket.Receive.{ReceivesWithin, read_buffer_cases, read_buffer-failed}

-- What the other end has got, and `errno`.
record Host : Type 0 where
  sent : List ℕ
  error : ℕ

-- What `recv` answers: bytes, or an error. `accept` answers with a descriptor.
module _ (incoming : List ℕ) (broken : Bool) (accepted : ℕ) where
  -- `send` takes two bytes at once at most.
  abbrev net : Net
  net = record {
    System = Host;
    errno = λ s. s.error;
    set_errno = λ s n. record s { error = n };
    send = λ s fd bytes.
        (min 2 (length bytes), record s { sent = s.sent ++ take (min 2 (length bytes)) bytes });
    recv = λ s fd room.
        if broken then (size_max, [], s) else (length (take room incoming), take room incoming, s);
    get_flags = λ s fd. 2;
    set_flags = λ s fd flags. (0, s);
    inet_addr = λ text. 16777343;
    inet_ntoa = λ address. 49 ∷ [];
    socket = λ s family. (3, s);
    setsockopt = λ s fd reuse. s;
    bind_in = λ s fd addr len. (0, s);
    bind_un = λ s fd addr len. (0, s);
    connect_in = λ s fd addr len. (0, s);
    connect_un = λ s fd addr len. (0, s);
    accept_in = λ s fd. (accepted, record { family = 2; address = 16777343; port = 36895 }, s);
    accept_un = λ s fd. (accepted, record { family = 1; path = [] }, s);
    listen = λ s fd backlog. (0, s);
    close = λ s fd. (0, s);
  }

abbrev open_net : Net
open_net = net (7 ∷ 8 ∷ 9 ∷ []) false 4

abbrev closed_net : Net
closed_net = net [] false minus_one

abbrev broken_net : Net
broken_net = net [] true minus_one

abbrev host : Host
host = record { sent = 1 ∷ []; error = 0 }

sends :
    (s : Host) (bytes : List ℕ)
    → bytes ≢ []
    → let (r, s') = open_net.send s 4 bytes in
      ((r ≡ size_max) × (s'.sent ≡ s.sent))
      ⊎ ((0 < r) × (r ≤ length bytes) × (s'.sent ≡ s.sent ++ take r bytes))
sends s [] h = absurd (h refl)
sends s (x ∷ bytes) h = inr (omega arith, omega arith, refl)

open_net-IsStream : IsStream open_net (λ s. s.sent) 4
open_net-IsStream = record { taken = sends }

-- Two rounds send all, and a third finds the buffer empty.
write_buffer_runs :
    (b : Buffer) × (write_buffer open_net 4 host sample
      ≡ ok (record host { sent = 1 ∷ 97 ∷ 98 ∷ 99 ∷ 100 ∷ [] }, b, 2))
    × (contents b ≡ [])
unfolding write_buffer write_loop after_send Buffer.consume Buffer.clear v8h.Base.Memory.peek
write_buffer_runs = (Buffer.clear sample, refl, refl)

write_buffer-IsFlushed_example :
    (r : Host × Buffer × ℕ) × (write_buffer open_net 4 host sample ≡ ok r)
    × IsFlushed open_net (λ s. s.sent) 4 open_net-IsStream host sample r
write_buffer-IsFlushed_example =
    write_buffer-IsFlushed open_net (λ s. s.sent) 4 open_net-IsStream host sample sample-IsValid
      (omega arith)

open_net-ReceivesWithin : ReceivesWithin open_net
open_net-ReceivesWithin s fd room =
    inl (refl, omega (arith, length-take {A = ℕ} room (7 ∷ 8 ∷ 9 ∷ [])))

closed_net-ReceivesWithin : ReceivesWithin closed_net
closed_net-ReceivesWithin s fd room = inl (refl, omega (arith, length-take {A = ℕ} room []))

broken_net-ReceivesWithin : ReceivesWithin broken_net
broken_net-ReceivesWithin s fd room = inr (refl, refl)

-- the two buffers, prepared for 8192 bytes: their capacities are tripled until these fit
abbrev roomy : Buffer
roomy = Buffer.realloc zeros sample 17496

abbrev roomy_empty : Buffer
roomy_empty = Buffer.realloc zeros empty_buffer 13122

prepare-sample : Buffer.prepare zeros sample 8192 ≡ ok (roomy, 6)
unfolding Buffer.prepare Buffer.grow_loop
prepare-sample = refl

prepare_empty : Buffer.prepare zeros empty_buffer 8192 ≡ ok (roomy_empty, 0)
unfolding Buffer.prepare Buffer.grow_loop
prepare_empty = refl

remain-roomy : Buffer.remain roomy ≡ 17490
unfolding Buffer.remain Buffer.realloc
remain-roomy = refl

remain-roomy_empty : Buffer.remain roomy_empty ≡ 13122
unfolding Buffer.remain Buffer.realloc
remain-roomy_empty = refl

read_buffer_cases_example :
    let (r, bytes, s') = open_net.recv host 4 (Buffer.remain roomy) in
    (8192 ≤ Buffer.remain roomy)
    × (0 < r
        → r ≢ size_max
        → (b' : Buffer) × (read_buffer open_net zeros 4 host sample ≡ ok (s', b', size_to_int r))
          × IsAppended sample bytes b')
    × (r ≡ 0
        → (b' : Buffer) × (read_buffer open_net zeros 4 host sample
            ≡ ok (open_net.set_errno s' enetdown, b', minus_one))
          × IsValid b'
          × (contents b' ≡ contents sample))
read_buffer_cases_example =
    read_buffer_cases open_net open_net-ReceivesWithin zeros 4 host sample roomy sample-IsValid
      (omega arith) prepare-sample

read_buffer-failed_example :
    (b' : Buffer) × (read_buffer broken_net zeros 4 host sample ≡ ok (host, b', minus_one))
    × (0 < 4 → (b'.size ≡ 3) × (contents b' ≡ 97 ∷ 98 ∷ 99 ∷ []))
    × (◌≡◌ {A = ℕ} 4 0 → (b'.size ≡ size_max) × ¬ IsValid b')
read_buffer-failed_example =
    read_buffer-failed broken_net broken_net-ReceivesWithin zeros 4 host sample roomy sample-IsValid
      (omega arith) prepare-sample (omega (arith, remain-roomy)) refl

port_in_order : (open_net.accept_in host 3).1.port ≡ (create_sockaddr_in open_net [] 8080).0.port
unfolding create_sockaddr_in htons
port_in_order = refl
