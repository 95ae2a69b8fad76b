-- ===== src/Exports/Tests.antt =====
-- The tables of the classes.
use v8h.Base.{ℕ, ◌≡◌, refl, List, [], ◌∷◌, arith}
use v8h.Base.Outcome.{Outcome, ok}
use v8h.Base.Text.{bytes_of}
use v8h.Algorithm.{underline_to_camel}
use v8h.Exports.{Entry, implement, service_functions, socket_functions}
use v8h.Exports.Table.{IsName}

abbrev keys : Outcome (List Entry) → List (List ℕ)
keys (ok table) = names table
  where
    names : List Entry → List (List ℕ)
    names [] = []
    names (x ∷ table) = x.0 ∷ names table
keys _ = []

service_keys :
    keys (implement service_functions)
    ≡ bytes_of "in"
      ∷ bytes_of "out"
      ∷ bytes_of "del"
      ∷ bytes_of "error"
      ∷ bytes_of "wait"
      ∷ bytes_of "run"
      ∷ bytes_of "close"
      ∷ bytes_of "trigger"
      ∷ bytes_of "triggerByEventId"
      ∷ bytes_of "getCallbackFromEventId"
      ∷ bytes_of "getFdsNumber"
      ∷ []
unfolding implement underline_to_camel
service_keys = refl

socket_keys :
    keys (implement socket_functions)
    ≡ bytes_of "_close"
      ∷ bytes_of "listen"
      ∷ bytes_of "bindTcp"
      ∷ bytes_of "bindUnix"
      ∷ bytes_of "createTcp"
      ∷ bytes_of "createUnix"
      ∷ bytes_of "_acceptTcp"
      ∷ bytes_of "_acceptUnix"
      ∷ bytes_of "_connectTcp"
      ∷ bytes_of "_connectUnix"
      ∷ bytes_of "_readBuffer"
      ∷ bytes_of "_writeUtf8"
      ∷ bytes_of "_writeBuffer"
      ∷ []
unfolding implement underline_to_camel
socket_keys = refl

IsName-read : IsName (bytes_of "_read_buffer")
IsName-read = record {
  leading = 1;
  word = bytes_of "read";
  words = bytes_of "buffer" ∷ [];
  spelled = refl;
  lower = ground arith;
  all_lower = ground arith;
  short = omega arith;
}

IsName-close : IsName (bytes_of "_close")
IsName-close = record {
  leading = 1;
  word = bytes_of "close";
  words = [];
  spelled = refl;
  lower = ground arith;
  all_lower = tt;
  short = omega arith;
}
