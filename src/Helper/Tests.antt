-- ===== src/Helper/Tests.antt =====
-- The exceptions of src/v8h_helper.h at a short message.
use v8h.Base.{ℕ, ◌+◌, ◌≡◌, List, ◌∷◌, length, drop, tabulate, length-tabulate}
use v8h.Base.Outcome.{ok}
use v8h.Base.Text.{bytes_of}
use v8h.Helper.{throw_exception}
use v8h.Helper.Throw.{throw_exception_lem}

abbrev message : List ℕ
message = bytes_of "no"

abbrev blank : List ℕ
blank = tabulate (λ i. 0) 0 512

blank-room : length blank ≡ 512
blank-room = length-tabulate {A = ℕ} (λ i. 0) 0 512

throw_exception_lem_example :
    throw_exception message blank ≡ ok (message, 110 ∷ 111 ∷ 0 ∷ drop (0 + 3) blank)
throw_exception_lem_example = throw_exception_lem message blank blank-room
