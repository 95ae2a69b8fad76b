-- ===== src/Reader/Until.antt =====
-- What `readUntil` of coffee/core/socket.coffee does on a connection, for any condition that asks for a
-- number of bytes.
use v8h.Base.{
  ℕ, zero, suc, ◌+◌, ◌*◌, ◌^◌, ◌≤◌, ◌<◌, ◌≡◌, ◌≢◌, ◌⊎◌, inl, inr, refl, sym, ap, ◌∙◌, List, [],
  ◌++◌, Bool, arith, leb, length, length-append, size_mod, append_assoc, le→leb, lt→not-leb,
  ne→not-==,
}
use v8h.Base.Outcome.{Outcome, ok}
use v8h.Buffer.{Buffer}
use v8h.Buffer.Valid.{IsValid, contents, CanGrow, length-contents}
use v8h.Buffer.Write.{IsAppended}
use v8h.Socket.{Net, minus_one, read_buffer}
use v8h.Socket.Traffic.{IsWire}
use v8h.Socket.Traffic.Order.{read_buffer-IsTaken}
use v8h.Reader.{Reading, called, read_events, read_until}

pub le_or_lt : (a b : ℕ) → (a ≤ b) ⊎ (b < a)
le_or_lt a b = grind arith

module _ (all : List ℕ) {State : Type 0} (condition : Buffer → State → Outcome (Bool × State))
    (callback : State → ℕ) (n : ℕ) (Reached : Buffer → State → Type 0) where
  -- The condition is met when the buffer has so many bytes, which is what the callback is told.
  pub record Tells (b : Buffer) (last : State) : Type 0 where
    pub next : State
    pub run : condition b last ≡ ok (leb n b.size, next)
    pub reached : Reached b next
    pub told : n ≤ b.size → callback next ≡ n

  -- It is asked again of a buffer to which bytes have been appended.
  pub record IsCondition : Type 0 where
    pub goes_on :
        (b b' : Buffer) (bytes rest : List ℕ) (last : State)
        → IsValid b
        → IsAppended b bytes b'
        → contents b' ++ rest ≡ all
        → Reached b last
        → Tells b' last

module _ (net : Net) (in_flight : net.System → List ℕ) (out inn : ℕ) (fresh : ℕ → ℕ)
    (wire : IsWire net in_flight out inn) (all : List ℕ) where
  open net use {System}

  -- A connection and a buffer with the whole text, and room for all of it in the buffer.
  pub record Holds (s : System) (b : Buffer) : Type 0 where
    pub valid : IsValid b
    pub whole : contents b ++ in_flight s ≡ all
    pub positive : 0 < b.reserve
    pub bounded : 3 * (b.used + length (in_flight s) + 8192) ≤ size_mod

  -- The callback is called with a number of bytes that the buffer has, and no byte is lost.
  abbrev pub Calls : {State : Type 0} → ℕ → Outcome (Reading System State) → Type 0
  Calls n m =
      (s : System) × (b : Buffer) × (m ≡ ok (called s b n))
      × IsValid b
      × (n ≤ b.size)
      × (contents b ++ in_flight s ≡ all)

  -- One call of `_readBuffer` while bytes are missing.
  record Receives (s : System) (b : Buffer) : Type 0 where
    host : System
    buffer : Buffer
    count : ℕ
    run : read_buffer net fresh inn s b ≡ ok (host, buffer, count)
    no_error : count ≢ minus_one
    holds : Holds host buffer
    fewer : length (in_flight host) < length (in_flight s)
    bytes : List ℕ
    appended : IsAppended b bytes buffer

  receives :
      (s : System) (b : Buffer)
      → length all < 2 ^ 31
      → Holds s b
      → b.size < length all
      → Receives s b
  receives s b small h short =
      let total = ap length (sym h.whole) ∙ length-append (contents b) (in_flight s) in
      let ready : in_flight s ≢ [] =
        λ e. omega (arith, ap length e, total, length-contents h.valid) in
      let c : CanGrow b 8192 = omega (arith, h.positive, h.bounded) in
      let (s', (b', (n, run, taken))) =
        read_buffer-IsTaken net in_flight out inn fresh wire s b h.valid c ready in
      let split = ap length taken.split ∙ length-append taken.bytes (in_flight s') in
      record {
        host = s';
        buffer = b';
        count = n;
        run = run;
        no_error = λ e. omega (arith, e, taken.count, split, total);
        holds = record {
          valid = taken.appended.valid;
          whole =
              ap (λ l. l ++ in_flight s') taken.appended.appended
              ∙ append_assoc (contents b) taken.bytes (in_flight s')
              ∙ ap (λ l. contents b ++ l) (sym taken.split)
              ∙ h.whole;
          positive = omega (arith, taken.appended.larger, h.positive);
          bounded = omega (arith, h.bounded, split, taken.appended.grown_used);
        };
        fewer = omega (arith, split, taken.some);
        bytes = taken.bytes;
        appended = taken.appended;
      }

  module _ {State : Type 0} (condition : Buffer → State → Outcome (Bool × State))
      (callback : State → ℕ) (n : ℕ) (Reached : Buffer → State → Type 0) where
    module _ (asked : IsCondition all condition callback n Reached) (small : length all < 2 ^ 31)
        (enough : n ≤ length all) where
      read_events-Calls :
          (times : ℕ) (s : System) (b : Buffer) (last : State)
          → Holds s b
          → length (in_flight s) ≤ times
          → Reached b last
          → b.size < n
          → Calls n (read_events net fresh inn condition callback times s b last)
      unfolding read_events
      read_events-Calls zero s b last h often reached short =
          absurd (omega (arith, often, (receives s b small h (omega arith)).fewer))
      read_events-Calls (suc times) s b last h often reached short =
          let r = receives s b small h (omega arith) in
          let t =
            asked.goes_on b r.buffer r.bytes (in_flight r.host) last h.valid r.appended
              r.holds.whole reached in
          rw (r.run, ne→not-== r.count minus_one r.no_error, t.run)
            (elim (le_or_lt n r.buffer.size) [
              | inl le ↦
                  rw (le→leb _ _ le, t.told le)
                    (r.host, r.buffer, refl, r.holds.valid, le, r.holds.whole)
              | inr lt ↦ rw (lt→not-leb _ _ lt) (
                  read_events-Calls times r.host r.buffer t.next r.holds
                    (omega (arith, often, r.fewer)) t.reached lt)
            ])

      pub read_until-Calls :
          (times : ℕ) (s : System) (b : Buffer) (last : State)
          → Holds s b
          → length (in_flight s) ≤ times
          → Tells all condition callback n Reached b last
          → Calls n (read_until net fresh inn condition callback times s b last)
      unfolding read_until
      read_until-Calls times s b last h often t = rw t.run (elim (le_or_lt n b.size) [
        | inl le ↦ rw (le→leb _ _ le, t.told le) (s, b, refl, h.valid, le, h.whole)
        | inr lt ↦ rw (lt→not-leb _ _ lt) (read_events-Calls times s b t.next h often t.reached lt)
      ])
