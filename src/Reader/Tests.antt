-- ===== src/Reader/Tests.antt =====
-- The theorems about `readToken` and `readSize` (coffee/core/socket.coffee) where the input comes in two pieces.
use v8h.Base.{ℕ, zero, suc, ◌+◌, ◌*◌, ◌<◌, ap, refl, List, [], ◌∷◌, arith}
use v8h.Buffer.Samples.{zeros, sample, token, sample-IsValid, token-IsValid}
use v8h.Buffer.Valid.{contents}
use v8h.Algorithm.Resume.{OccursAt}
use v8h.Socket.Traffic.Samples.{wire_net, on_wire, wire_net-IsWire}
use v8h.Reader.{read_token, read_size}
use v8h.Reader.Occurs.{IsFirstAt}
use v8h.Reader.Until.{Holds, Calls}
use v8h.Reader.Found.{read_token-Calls}
use v8h.Reader.Size.{read_size-Calls}

-- "xcde" is to come behind "abcd".
abbrev coming : List ℕ
coming = 120 ∷ 99 ∷ 100 ∷ 101 ∷ []

abbrev all : List ℕ
all = 97 ∷ 98 ∷ 99 ∷ 100 ∷ 120 ∷ 99 ∷ 100 ∷ 101 ∷ []

unfoldable as_number : List ℕ → ℕ
as_number [] = 0
as_number (x ∷ xs) = x + 256 * as_number xs

not_before : (q : ℕ) → q < 5 → ¬ OccursAt all (contents token) q
unfolding as_number
not_before zero lt h = omega (arith, ap as_number h.1)
not_before (suc zero) lt h = omega (arith, ap as_number h.1)
not_before (suc (suc zero)) lt h = omega (arith, ap as_number h.1)
not_before (suc (suc (suc zero))) lt h = omega (arith, ap as_number h.1)
not_before (suc (suc (suc (suc zero)))) lt h = omega (arith, ap as_number h.1)
not_before (suc (suc (suc (suc (suc q))))) lt h = absurd (omega arith)

at_5 : IsFirstAt all (contents token) 5
at_5 = record { here = (omega arith, refl); none_before = not_before }

holds : Holds wire_net on_wire 4 5 zeros wire_net-IsWire all coming sample
holds = record {
  valid = sample-IsValid;
  whole = refl;
  positive = omega arith;
  bounded = omega arith;
}

read_token-Calls_example :
    Calls wire_net on_wire 4 5 zeros wire_net-IsWire all 8
      (read_token wire_net zeros 5 4 coming sample token)
read_token-Calls_example =
    read_token-Calls token token-IsValid (omega arith) all 5 at_5 (omega arith) wire_net on_wire 4 5
      zeros wire_net-IsWire 4 coming sample holds (omega arith)

read_size-Calls_example :
    Calls wire_net on_wire 4 5 zeros wire_net-IsWire all 6
      (read_size wire_net zeros 5 4 coming sample 6)
read_size-Calls_example =
    read_size-Calls wire_net on_wire 4 5 zeros wire_net-IsWire all 4 coming sample 6 holds
      (omega arith) (omega arith) (omega arith)
