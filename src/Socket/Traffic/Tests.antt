-- ===== src/Socket/Traffic/Tests.antt =====
-- The theorems about two connected sockets (src/socket.cc) over a wire that is a list of bytes.
use v8h.Base.{◌≡◌, refl, [], ◌∷◌, arith}
use v8h.Buffer
use v8h.Buffer.{Buffer}
use v8h.Buffer.Samples.{
  zeros, sample, token, empty_buffer, sample-IsValid, token-IsValid, empty_buffer-IsValid,
}
use v8h.Buffer.Valid.{contents}
use v8h.Socket.Traffic.{Traffic, Steps, IsIntact, here, next, step_consume}
use v8h.Socket.Traffic.Samples.{wire_net, on_wire, wire_net-IsWire}
use v8h.Socket.Traffic.Order.{Intact, Steps-IsIntact}
use v8h.Socket.Traffic.Delivery.{deliver-all}

-- Four bytes to send, 120 on the way, and one that has been consumed.
abbrev traffic : Traffic wire_net
traffic = record {
  host = 120 ∷ [];
  source = sample;
  sink = empty_buffer;
  written = 119 ∷ 120 ∷ 97 ∷ 98 ∷ 99 ∷ 100 ∷ [];
  consumed = 119 ∷ [];
}

traffic-Intact : Intact wire_net on_wire 4 5 zeros wire_net-IsWire traffic
traffic-Intact = record {
  valid_source = sample-IsValid;
  valid_sink = empty_buffer-IsValid;
  whole = refl;
}

-- Three bytes have come in as well.
abbrev arrived : Traffic wire_net
arrived = record traffic {
  sink = token;
  written = 119 ∷ 99 ∷ 100 ∷ 101 ∷ 120 ∷ 97 ∷ 98 ∷ 99 ∷ 100 ∷ [];
}

arrived-Intact : Intact wire_net on_wire 4 5 zeros wire_net-IsWire arrived
arrived-Intact = record { valid_source = sample-IsValid; valid_sink = token-IsValid; whole = refl }

Steps-IsIntact_example :
    IsIntact wire_net on_wire 4 5 zeros
      (record arrived { sink = Buffer.consume token 2; consumed = 119 ∷ 99 ∷ 100 ∷ [] })
Steps-IsIntact_example =
    Steps-IsIntact wire_net on_wire 4 5 zeros wire_net-IsWire (next here (step_consume arrived 2))
      arrived-Intact

deliver-all_example :
    (u : Traffic wire_net) × Steps wire_net on_wire 4 5 zeros traffic u
    × (u.source.size ≡ 0)
    × (u.host ≡ [])
    × (119 ∷ contents u.sink ≡ 119 ∷ 120 ∷ 97 ∷ 98 ∷ 99 ∷ 100 ∷ [])
deliver-all_example = deliver-all wire_net on_wire 4 5 zeros wire_net-IsWire traffic (record {
  intact = traffic-Intact;
  sendable = omega arith;
  positive = omega arith;
  bounded = omega arith;
})
