-- ===== src/Socket/Traffic.antt =====
-- Two connected sockets (src/socket.cc): one end sends its buffer with `_write_buffer`, the other
-- end fills one with `_read_buffer` when its descriptor is ready for input.
pub mod Order
pub mod Delivery
pub mod Samples
mod Tests
use v8h.Base.{
  ℕ, ◌+◌, ◌^◌, ◌≤◌, ◌<◌, ◌≡◌, ◌≢◌, sym, ap, ◌∙◌, List, [], ◌++◌, inl, inr, length, take, drop,
  size_max, append_assoc, take-append-drop,
}
use v8h.Base.Outcome.{Outcome, ok}
use v8h.Buffer
use v8h.Buffer.{Buffer}
use v8h.Buffer.Valid.{IsValid, contents, CanGrow, prepare-IsPrepared}
use v8h.Buffer.Write.{IsAppended, write_text-IsAppended}
use v8h.Buffer.Consume.{consume-drop}
use v8h.Socket.{Net, write_buffer, read_buffer}
use v8h.Socket.Send.{IsStream, IsFlushed, write_buffer-IsFlushed}
use v8h.Socket.Receive.{ReceivesWithin, read_buffer-IsAppended}

-- What POSIX says of a connection from `out` to `inn`, while nobody closes it and nothing fails but
-- for want of room: `in_flight` is what has been sent and not yet received. Bytes are sent behind
-- it, and when there are none, `send` finds room; while there are some, `recv` takes the first.
pub record IsWire (net : Net) (in_flight : net.System → List ℕ) (out inn : ℕ) : Type 0 where
  pub sends : IsStream net in_flight out
  pub has_room :
      (s : net.System) (bytes : List ℕ)
      → bytes ≢ []
      → in_flight s ≡ []
      → (net.send s out bytes).0 ≢ size_max
  pub within : ReceivesWithin net
  pub receives :
      (s : net.System) (room : ℕ)
      → 0 < room
      → in_flight s ≢ []
      → let (r, bytes, s') = net.recv s inn room in
        (0 < r) × (r ≢ size_max) × (in_flight s ≡ bytes ++ in_flight s')

-- The system, the buffers of the two ends, and all that the one end has written and the other has
-- consumed.
pub record Traffic (net : Net) : Type 0 where
  pub host : net.System
  pub source : Buffer
  pub sink : Buffer
  pub written : List ℕ
  pub consumed : List ℕ

module _ (net : Net) (in_flight : net.System → List ℕ) (out inn : ℕ) (fresh : ℕ → ℕ) where
  -- One call from JavaScript, at either end, within the bounds of the buffers. A buffer of 2 ^ 31
  -- bytes or more is not sent, as `send` may then return what is no `int`.
  pub data Step : Traffic net → Traffic net → Type 0 where
    step_write :
        (t : Traffic net) (text : List ℕ) (b : Buffer)
        → CanGrow t.source (length text)
        → Buffer.write_text fresh t.source text ≡ ok b
        → Step t (record t { source = b; written = t.written ++ text })
    step_send :
        (t : Traffic net) (s : net.System) (b : Buffer) (n : ℕ)
        → t.source.size < 2 ^ 31
        → write_buffer net out t.host t.source ≡ ok (s, b, n)
        → Step t (record t { host = s; source = b })
    step_receive :
        (t : Traffic net) (s : net.System) (b : Buffer) (n : ℕ)
        → in_flight t.host ≢ []
        → CanGrow t.sink 8192
        → read_buffer net fresh inn t.host t.sink ≡ ok (s, b, n)
        → Step t (record t { host = s; sink = b })
    step_consume :
        (t : Traffic net) (n : ℕ)
        → Step t (record t {
          sink = Buffer.consume t.sink n;
          consumed = t.consumed ++ take n (contents t.sink);
        })

  pub data Steps : Traffic net → Traffic net → Type 0 where
    here : {t : Traffic net} → Steps t t
    next : {t u w : Traffic net} → Steps t u → Step u w → Steps t w

  pub Steps-trans : {t u w : Traffic net} → Steps t u → Steps u w → Steps t w
  Steps-trans a here = a
  Steps-trans a (next b step) = next (Steps-trans a b) step

  -- both buffers valid, and every byte once and in its place
  pub record IsIntact (t : Traffic net) : Type 0 where
    pub valid_source : IsValid t.source
    pub valid_sink : IsValid t.sink
    pub whole :
        t.consumed ++ (contents t.sink ++ (in_flight t.host ++ contents t.source)) ≡ t.written
