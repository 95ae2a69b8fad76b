-- ===== src/Reader/Found.antt =====
-- What `readToken` of coffee/core/socket.coffee finds on a connection.
use v8h.Base.{
  ℕ, ◌+◌, ◌^◌, ◌≤◌, ◌<◌, ◌≡◌, ◌⊎◌, inl, inr, refl, sym, ap, ◌∙◌, List, ◌++◌, arith, length,
  length-append, le→leb, lt→not-leb, ne→not-==,
}
use mathlib.Core.Path.{subst}
use v8h.Base.Outcome.{ok}
use v8h.Buffer
use v8h.Buffer.{Buffer}
use v8h.Buffer.Valid.{IsValid, contents, length-contents}
use v8h.Buffer.Search.{partial_find_found, partial_find-IsAppended}
use v8h.Algorithm.Resume.{OccursAt}
use v8h.Socket.{Net}
use v8h.Socket.Traffic.{IsWire}
use v8h.Reader.{read_token, search_token, size_of}
use v8h.Reader.Until.{Holds, Calls, Tells, IsCondition, read_until-Calls, le_or_lt}
use v8h.Reader.Size.{size-length}
use v8h.Reader.Occurs.{OccursAt-append, OccursAt-prefix, IsFirstAt}

ordered : (a b : ℕ) → (a < b) ⊎ ((a ≡ b) ⊎ (b < a))
ordered a b = grind arith

module _ (token : Buffer) (w : IsValid token) (some_token : 0 < token.size) (all : List ℕ) (p : ℕ)
    (first : IsFirstAt all (contents token) p) (small : length all < 2 ^ 31) where
  -- A search of a beginning of the whole text: it finds the first occurrence, or this does not end in
  -- the beginning.
  search :
      (b : Buffer) (rest : List ℕ)
      → IsValid b
      → contents b ++ rest ≡ all
      → (last : ℕ) × (Buffer.partial_find b token 0 ≡ ok last)
        × (last + token.size ≤ b.size → last ≡ p)
        × (b.size < last + token.size → b.size < p + token.size)
  search b rest v whole =
      let len = length-contents v in
      let len_token = length-contents w in
      let total = ap length (sym whole) ∙ length-append (contents b) rest in
      let (last, run, _, _, iff, none_before) =
        partial_find_found b token v w some_token (omega (arith, total, len)) 0 (omega arith) in
      let in_all : OccursAt (contents b) (contents token) last
          → OccursAt all (contents token) last =
        λ at.
          subst (λ l. OccursAt l (contents token) last) whole
            (OccursAt-append (contents b) rest (contents token) last at) in
      let in_b : p + token.size ≤ b.size → OccursAt (contents b) (contents token) p = λ le.
        OccursAt-prefix (contents b) rest (contents token) p
          (subst (λ l. OccursAt l (contents token) p) (sym whole) first.here)
          (omega (arith, len, len_token)) in
      (
        last,
        run,
        (λ fits. elim (ordered last p) [
          | inl lt ↦ absurd (first.none_before last lt (in_all (iff.0 fits)))
          | inr (inl e) ↦ e
          | inr (inr gt) ↦ absurd (none_before p (omega arith) gt (in_b (omega arith)))
        ]),
        λ short. elim (le_or_lt (p + token.size) b.size) [
          | inr lt ↦ lt
          | inl le ↦ elim (le_or_lt last p) [
            | inl before ↦ absurd (omega arith)
            | inr gt ↦ absurd (none_before p (omega arith) gt (in_b le))
          ]
        ],
      )

  few_token : token.size < 2 ^ 31
  few_token = omega (arith, small, first.here.0, length-contents w)

  -- The last search has come to this position.
  abbrev Reached : Buffer → ℕ → Type 0
  Reached b last = Buffer.partial_find b token 0 ≡ ok last

  search_token-Tells :
      (b : Buffer) (rest : List ℕ) (offset : ℕ)
      → IsValid b
      → contents b ++ rest ≡ all
      → Buffer.partial_find b token offset ≡ Buffer.partial_find b token 0
      → Tells all
          (search_token token)
          (λ last. last + size_of token)
          (p + token.size)
          Reached
          b
          offset
  search_token-Tells b rest offset v whole same =
      let (last, run, hit, miss) = search b rest v whole in
      let few : b.size < 2 ^ 31 = omega (arith, small, size-length all rest b v whole) in
      record {
        next = last;
        run = rw (same ∙ run) (
            ap (λ met. ok (met, last))
              (elim (le_or_lt (last + token.size) b.size) [
                | inl le ↦
                    le→leb (last + size_of token) (size_of b) (omega (arith, le, few, few_token))
                    ∙ sym (le→leb _ _ (omega (arith, le, hit le)))
                | inr lt ↦
                    lt→not-leb (last + size_of token) (size_of b)
                      (omega (arith, lt, few, few_token))
                    ∙ sym (lt→not-leb _ _ (miss lt))
              ]));
        reached = run;
        told = λ le. elim (le_or_lt (last + token.size) b.size) [
          | inl fits ↦ omega (arith, hit fits, few_token)
          | inr lt ↦ absurd (omega (arith, miss lt, le))
        ];
      }

  search_token-IsCondition :
      IsCondition all (search_token token) (λ last. last + size_of token) (p + token.size) Reached
  search_token-IsCondition = record {
    goes_on = λ b b' bytes rest last v more whole reached.
        let total = ap length (sym whole) ∙ length-append (contents b') rest in
        search_token-Tells b' rest last more.valid whole (
          partial_find-IsAppended b b' token bytes 0 last v w some_token more
            (omega (arith, total, length-contents more.valid)) (omega arith) reached);
  }

  module _ (net : Net) (in_flight : net.System → List ℕ) (out inn : ℕ) (fresh : ℕ → ℕ)
      (wire : IsWire net in_flight out inn) where
    -- When a connection that delivers its bytes in order and the buffer hold a token, the buffer can
    -- take the rest of the input, and the descriptor is ready as often as bytes are missing, then
    -- `readToken` calls its callback with the number of bytes up to the end of the first token, in
    -- whatever pieces the input comes, and no byte is lost; it does not wait for ever, and it reports
    -- no error. The token has a byte at least, and the whole text has fewer than 2 ^ 31.
    pub read_token-Calls :
        (times : ℕ) (s : net.System) (b : Buffer)
        → Holds net in_flight out inn fresh wire all s b
        → length (in_flight s) ≤ times
        → Calls net in_flight out inn fresh wire all
            (p + token.size)
            (read_token net fresh inn times s b token)
    unfolding read_token
    read_token-Calls times s b h often =
        rw (ne→not-== (size_of token) 0 (λ e. omega (arith, e, few_token, some_token))) (
          read_until-Calls net in_flight out inn fresh wire all (search_token token)
            (λ last. last + size_of token) (p + token.size) Reached search_token-IsCondition small
            (omega (arith, first.here.0, length-contents w)) times s b 0 h often
            (search_token-Tells b (in_flight s) 0 h.valid h.whole refl))
