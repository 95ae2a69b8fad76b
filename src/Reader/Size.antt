-- ===== src/Reader/Size.antt =====
-- What `readSize` of coffee/core/socket.coffee waits for on a connection.
use v8h.Base.{
  ℕ, ◌≡◌, ◌∙◌, sym, ap, ◌++◌, arith, leb, length-append, ◌^◌, ◌≤◌, ◌<◌, refl, inl, inr, List,
  length, le→leb, lt→not-leb,
}
use v8h.Buffer.{Buffer}
use v8h.Base.Outcome.{ok}
use v8h.Buffer.Valid.{IsValid, contents, length-contents}
use v8h.Socket.{Net}
use v8h.Socket.Traffic.{IsWire}
use v8h.Reader.{read_size, has_size, size_of}
use v8h.Reader.Until.{Holds, Calls, Tells, read_until-Calls, le_or_lt}

pub size_of-small : (b : Buffer) → b.size < 2 ^ 31 → size_of b ≡ b.size
size_of-small b h = omega (arith, h)

pub size-length :
    (all rest : List ℕ) (b : Buffer) → IsValid b → contents b ++ rest ≡ all → b.size ≤ length all
size-length all rest b v whole =
    omega (arith, ap length (sym whole) ∙ length-append (contents b) rest, length-contents v)

has_size-Tells :
    (all : List ℕ) (size : ℕ) (b : Buffer)
    → b.size < 2 ^ 31
    → Tells all (has_size size) (λ last. size) size (λ b last. Unit {0}) b tt
has_size-Tells all size b small = record {
  next = tt;
  run = ap (λ n. ok (leb size n, tt)) (size_of-small b small);
  reached = tt;
  told = λ le. refl;
}

module _ (net : Net) (in_flight : net.System → List ℕ) (out inn : ℕ) (fresh : ℕ → ℕ)
    (wire : IsWire net in_flight out inn) (all : List ℕ) where
  -- When a connection that delivers its bytes in order and the buffer hold so many bytes, the buffer
  -- can take the rest of the input, and the descriptor is ready as often as bytes are missing, then
  -- `readSize` calls its callback with the number, the buffer has as many bytes then, and no byte is
  -- lost. There are fewer than 2 ^ 31 bytes.
  pub read_size-Calls :
      (times : ℕ) (s : net.System) (b : Buffer) (size : ℕ)
      → Holds net in_flight out inn fresh wire all s b
      → length (in_flight s) ≤ times
      → length all < 2 ^ 31
      → size ≤ length all
      → Calls net in_flight out inn fresh wire all size (read_size net fresh inn times s b size)
  unfolding read_size
  read_size-Calls times s b size h often small enough =
      let few : b.size < 2 ^ 31 =
        omega (arith, small, size-length all (in_flight s) b h.valid h.whole) in
      elim (le_or_lt size b.size) [
        | inl le ↦
            rw (le→leb size (size_of b) (omega (arith, le, few))) (s, b, refl, h.valid, le, h.whole)
        | inr lt ↦ rw (lt→not-leb size (size_of b) (omega (arith, lt, few))) (
            read_until-Calls net in_flight out inn fresh wire all (has_size size) (λ last. size)
              size (λ b last. Unit {0})
              (record {
                goes_on = λ b b' bytes rest last v more whole reached.
                    has_size-Tells all size b'
                      (omega (arith, small, size-length all rest b' more.valid whole));
              })
              small enough times s b tt h often (has_size-Tells all size b few))
      ]
