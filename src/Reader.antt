-- ===== src/Reader.antt =====
-- `readUntil`, `readSize` and `readToken` of coffee/core/socket.coffee with `isFound` of
-- coffee/core/buffer.coffee, over the functions of src/socket.cc and src/buffer.cc that these call. A
-- service calls back whenever the descriptor is ready for input. What comes after the first call of the
-- callback is left out: the handler stays registered, and later input calls it again.
pub mod Occurs
pub mod Until
pub mod Found
pub mod Size
mod Tests
use v8h.Base.{ℕ, zero, suc, ◌+◌, ◌%◌, ◌==◌, Bool, leb, if◌then◌else◌, int_mod}
use v8h.Base.Outcome.{Outcome, ok, ◌>>=◌}
use v8h.Buffer
use v8h.Buffer.{Buffer}
use v8h.Socket.{Net, minus_one, read_buffer}

-- How far it has come, with the buffer: it waits for input, with the variable of the condition; it has
-- called its callback with a number of bytes; or it has called the callback for errors.
pub data Reading (System State : Type 0) : Type 0 where
  waiting : System → Buffer → State → Reading System State
  called : System → Buffer → ℕ → Reading System State
  failed : System → Buffer → Reading System State

-- what `size()` returns to JavaScript, through `V8_UINT`
abbrev pub size_of : Buffer → ℕ
size_of b = b.size % int_mod

abbrev pub is_found : Buffer → ℕ → ℕ → Bool
is_found b last delim_buffer_size = leb (last + delim_buffer_size) (size_of b)

-- The condition of `readSize`
abbrev pub has_size : ℕ → Buffer → Unit {0} → Outcome (Bool × Unit {0})
has_size size b last = ok (leb size (size_of b), last)

-- The condition of `readToken`, which keeps `last`
abbrev pub search_token : Buffer → Buffer → ℕ → Outcome (Bool × ℕ)
search_token token b last = do
  last' ← Buffer.partial_find b token last
  ok (is_found b last' (size_of token), last')

module _ (net : Net) (fresh : ℕ → ℕ) (fd : ℕ) where
  open net use {System}

  module _ {State : Type 0} (condition : Buffer → State → Outcome (Bool × State))
      (callback : State → ℕ) where
    -- The callback for input, until the condition is met: so many times the descriptor is ready.
    unfoldable pub read_events : ℕ → System → Buffer → State → Outcome (Reading System State)
    read_events zero s b last = ok (waiting s b last)
    read_events (suc times) s b last = do
      (s', b', n) ← read_buffer net fresh fd s b
      let next = condition b' last >>= λ (met, last').
          let rest = read_events times s' b' last' in
          if met then ok (called s' b' (callback last')) else rest
      if n == minus_one then ok (failed s' b') else next

    -- The condition may be met before any input.
    unfoldable pub read_until : ℕ → System → Buffer → State → Outcome (Reading System State)
    read_until times s b last = do
      (met, last') ← condition b last
      let rest = read_events times s b last'
      if met then ok (called s b (callback last')) else rest

  unfoldable pub read_size : ℕ → System → Buffer → ℕ → Outcome (Reading System (Unit {0}))
  read_size times s b size =
      let wait = read_until (has_size size) (λ last. size) times s b tt in
      if leb size (size_of b) then ok (called s b size) else wait

  unfoldable pub read_token : ℕ → System → Buffer → Buffer → Outcome (Reading System ℕ)
  read_token times s b token =
      let wait = read_until (search_token token) (λ last. last + size_of token) times s b 0 in
      if size_of token == 0 then ok (called s b 0) else wait
