-- ===== src/Socket/Traffic/Order.antt =====
-- The order of the bytes that two connected sockets (src/socket.cc) pass on.
use v8h.Base.{
  ℕ, ◌<◌, ◌≡◌, ◌≢◌, sym, ap, ◌∙◌, List, [], ◌++◌, arith, inl, inr, length, take, drop, size_max,
  size_to_int, append_assoc, take-append-drop,
}
use mathlib.Core.Path.{subst}
use v8h.Base.Outcome.{Outcome, ok}
use v8h.Buffer
use v8h.Buffer.{Buffer}
use v8h.Buffer.Valid.{IsValid, contents, CanGrow, prepare-IsPrepared}
use v8h.Buffer.Write.{IsAppended, write_text-IsAppended}
use v8h.Buffer.Consume.{consume-drop}
use v8h.Socket.{Net, read_buffer}
use v8h.Socket.Send.{IsFlushed, write_buffer-IsFlushed}
use v8h.Socket.Receive.{read_buffer-IsAppended}
use v8h.Socket.Traffic.{
  IsWire, Traffic, Step, step_write, step_send, step_receive, step_consume, Steps, here, next,
  IsIntact,
}

module _ {A : Type 0} where
  one-injective : {b b' : A} → ◌≡◌ {A = Outcome A} (ok b) (ok b') → b ≡ b'
  one-injective h = cc

  -- where the bytes that come in go
  regroup_received :
      (a b bytes c d : List A) → a ++ ((b ++ bytes) ++ (c ++ d)) ≡ a ++ (b ++ ((bytes ++ c) ++ d))
  regroup_received a b bytes c d = simp (append_assoc)

  regroup_written :
      (a b c d text : List A) → a ++ (b ++ (c ++ (d ++ text))) ≡ (a ++ (b ++ (c ++ d))) ++ text
  regroup_written a b c d text = simp (append_assoc)

  regroup_consumed :
      (a front back c : List A) → (a ++ front) ++ (back ++ c) ≡ a ++ ((front ++ back) ++ c)
  regroup_consumed a front back c = simp (append_assoc)

module _ (net : Net) (in_flight : net.System → List ℕ) (out inn : ℕ) (fresh : ℕ → ℕ) where
  triple-injective :
      {s s' : net.System} {b b' : Buffer} {n n' : ℕ}
      → ◌≡◌ {A = Outcome (net.System × Buffer × ℕ)} (ok (s, b, n)) (ok (s', b', n'))
      → (s ≡ s') × (b ≡ b')
  triple-injective h = (cc, cc)

  module _ (wire : IsWire net in_flight out inn) where
    -- what `_read_buffer` takes from the wire when the descriptor is ready
    pub record IsTaken (s : net.System) (b : Buffer) (s' : net.System) (b' : Buffer) (n : ℕ)
        : Type 0 where
      pub bytes : List ℕ
      pub appended : IsAppended b bytes b'
      pub some : 0 < length bytes
      pub split : in_flight s ≡ bytes ++ in_flight s'
      pub count : n ≡ size_to_int (length bytes)

    pub read_buffer-IsTaken :
        (s : net.System) (b : Buffer)
        → IsValid b
        → CanGrow b 8192
        → in_flight s ≢ []
        → (s' : net.System) × ((b' : Buffer) × ((n : ℕ) × (read_buffer net fresh inn s b
                ≡ ok (s', b', n))
              × IsTaken s b s' b' n))
    read_buffer-IsTaken s b v c ready =
        let (p, prepared, h) = prepare-IsPrepared fresh b 8192 v c in
        let room : 0 < Buffer.remain p =
          unfold Buffer.remain in omega (arith, h.valid, h.room, h.same_used) in
        let (pos, came, split) = wire.receives s (Buffer.remain p) room ready in
        let (_, (b', run, appended)) =
          read_buffer-IsAppended net wire.within fresh inn s b p v c prepared pos came in
        let answer = net.recv s inn (Buffer.remain p) in
        (
          answer.2,
          (
            b',
            (
              size_to_int answer.0,
              run,
              record {
                bytes = answer.1;
                appended = appended;
                some = some p pos came;
                split = split;
                count = counted p came;
              },
            ),
          ),
        )
      where
        counted :
            (p : Buffer)
            → (net.recv s inn (Buffer.remain p)).0 ≢ size_max
            → size_to_int (net.recv s inn (Buffer.remain p)).0
              ≡ size_to_int (length (net.recv s inn (Buffer.remain p)).1)
        counted p came = elim (wire.within s inn (Buffer.remain p)) [
          | inl (count, _) ↦ ap size_to_int count
          | inr (failed, _) ↦ absurd (came failed)
        ]

        some :
            (p : Buffer)
            → 0 < (net.recv s inn (Buffer.remain p)).0
            → (net.recv s inn (Buffer.remain p)).0 ≢ size_max
            → 0 < length (net.recv s inn (Buffer.remain p)).1
        some p pos came = elim (wire.within s inn (Buffer.remain p)) [
          | inl (count, _) ↦ omega (arith, count)
          | inr (failed, _) ↦ absurd (came failed)
        ]

    abbrev pub Intact : Traffic net → Type 0
    Intact = IsIntact net in_flight out inn fresh

    pub received-IsIntact :
        (t : Traffic net) (s : net.System) (b : Buffer) {n : ℕ}
        → Intact t
        → IsTaken t.host t.sink s b n
        → Intact (record t { host = s; sink = b })
    received-IsIntact t s b i taken = record {
      valid_source = i.valid_source;
      valid_sink = taken.appended.valid;
      whole =
          ap (λ l. t.consumed ++ (l ++ (in_flight s ++ contents t.source))) taken.appended.appended
          ∙ regroup_received t.consumed (contents t.sink) taken.bytes (in_flight s)
              (contents t.source)
          ∙ ap (λ l. t.consumed ++ (contents t.sink ++ (l ++ contents t.source))) (sym taken.split)
          ∙ i.whole;
    }

    pub sent-IsIntact :
        (t : Traffic net) (r : net.System × Buffer × ℕ)
        → Intact t
        → IsFlushed net in_flight out wire.sends t.host t.source r
        → Intact (record t { host = r.0; source = r.1 })
    sent-IsIntact t r i flushed = record {
      valid_source = flushed.valid;
      valid_sink = i.valid_sink;
      whole = ap (λ l. t.consumed ++ (contents t.sink ++ l)) flushed.kept ∙ i.whole;
    }

    written-IsIntact :
        (t : Traffic net) (text : List ℕ) (b : Buffer)
        → Intact t
        → IsAppended t.source text b
        → Intact (record t { source = b; written = t.written ++ text })
    written-IsIntact t text b i appended = record {
      valid_source = appended.valid;
      valid_sink = i.valid_sink;
      whole =
          ap (λ l. t.consumed ++ (contents t.sink ++ (in_flight t.host ++ l))) appended.appended
          ∙ regroup_written t.consumed (contents t.sink) (in_flight t.host) (contents t.source) text
          ∙ ap (λ l. l ++ text) i.whole;
    }

    consumed-IsIntact :
        (t : Traffic net) (n : ℕ)
        → Intact t
        → Intact (record t {
          sink = Buffer.consume t.sink n;
          consumed = t.consumed ++ take n (contents t.sink);
        })
    consumed-IsIntact t n i =
        let (valid, rest, _, _) = consume-drop n i.valid_sink in
        let behind = in_flight t.host ++ contents t.source in
        record {
          valid_source = i.valid_source;
          valid_sink = valid;
          whole =
              ap (λ l. (t.consumed ++ take n (contents t.sink)) ++ (l ++ behind)) rest
              ∙ regroup_consumed t.consumed (take n (contents t.sink)) (drop n (contents t.sink))
                  behind
              ∙ ap (λ l. t.consumed ++ (l ++ behind)) (take-append-drop n (contents t.sink))
              ∙ i.whole;
        }

    Step-IsIntact : {t u : Traffic net} → Step net in_flight out inn fresh t u → Intact t → Intact u
    Step-IsIntact (step_write t text b c run) i =
        let (b', run', appended) = write_text-IsAppended fresh t.source text i.valid_source c in
        written-IsIntact t text b i
          (subst (λ x. IsAppended t.source text x) (one-injective (sym run' ∙ run)) appended)
    Step-IsIntact (step_send t s b n small run) i =
        let (r, run', flushed) =
          write_buffer-IsFlushed net in_flight out wire.sends t.host t.source i.valid_source
            small in
        let (same_host, same_buffer) = triple-injective {n = r.2} {n' = n} (sym run' ∙ run) in
        subst (λ x. Intact (record t { host = x; source = b })) same_host
          (subst (λ x. Intact (record t { host = r.0; source = x })) same_buffer
            (sent-IsIntact t r i flushed))
    Step-IsIntact (step_receive t s b n ready c run) i =
        let (s', (b', (n', run', taken))) =
          read_buffer-IsTaken t.host t.sink i.valid_sink c ready in
        let (same_host, same_buffer) = triple-injective {n = n'} {n' = n} (sym run' ∙ run) in
        subst (λ x. Intact (record t { host = x; sink = b })) same_host
          (subst (λ x. Intact (record t { host = s'; sink = x })) same_buffer
            (received-IsIntact t s' b' i taken))
    Step-IsIntact (step_consume t n) i = consumed-IsIntact t n i

    -- Two connected sockets, the one sent from with `_write_buffer`, the other read from with
    -- `_read_buffer` only when it is ready for input, in any order, with anything written to the one
    -- buffer and consumed from the other in between, within the bounds of the buffers: what has been
    -- consumed, what the second buffer holds, what is on the way and what the first buffer still
    -- holds are together what has been written, in order; and both buffers stay valid.
    pub Steps-IsIntact :
        {t u : Traffic net} → Steps net in_flight out inn fresh t u → Intact t → Intact u
    Steps-IsIntact here i = i
    Steps-IsIntact (next steps step) i = Step-IsIntact step (Steps-IsIntact steps i)
