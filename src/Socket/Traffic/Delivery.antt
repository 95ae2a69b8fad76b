-- ===== src/Socket/Traffic/Delivery.antt =====
-- Two connected sockets (src/socket.cc) deliver what is in the buffer of the one to the other.
use v8h.Base.{
  ℕ, zero, suc, ◌+◌, ◌*◌, ◌^◌, ◌≤◌, ◌<◌, ◌≡◌, ◌≢◌, ◌⊎◌, refl, sym, ap, ◌∙◌, List, [], ◌∷◌, ◌++◌,
  arith, inl, inr, length, size_mod, length-append, append-nil,
}
use v8h.Buffer.{Buffer}
use v8h.Buffer.Valid.{IsValid, contents, CanGrow, length-contents}
use v8h.Socket.{Net}
use v8h.Socket.Send.{IsFlushed, write_buffer-IsFlushed}
use v8h.Socket.Traffic.{IsWire, Traffic, step_send, step_receive, Steps, Steps-trans, here, next}
use v8h.Socket.Traffic.Order.{read_buffer-IsTaken, received-IsIntact, sent-IsIntact, Intact}

not_nil : (l : List ℕ) → 0 < length l → l ≢ []
not_nil l h e = omega (arith, ap length e)

nil_or_some : (l : List ℕ) → (l ≡ []) ⊎ (0 < length l)
nil_or_some [] = inl refl
nil_or_some (x ∷ l) = inr (omega arith)

zero_or_some : (n : ℕ) → (n ≡ 0) ⊎ (0 < n)
zero_or_some zero = inl refl
zero_or_some (suc n) = inr (omega arith)

module _ (net : Net) (in_flight : net.System → List ℕ) (out inn : ℕ) (fresh : ℕ → ℕ)
    (wire : IsWire net in_flight out inn) where
  -- the bytes that are not delivered yet
  abbrev pub open_bytes : Traffic net → ℕ
  open_bytes t = t.source.size + length (in_flight t.host)

  -- a traffic with room for all of them
  pub record Fits (t : Traffic net) : Type 0 where
    pub intact : Intact net in_flight out inn fresh wire t
    pub sendable : t.source.size < 2 ^ 31
    pub positive : 0 < t.sink.reserve
    pub bounded : 3 * (t.sink.used + open_bytes t + 8192) ≤ size_mod

  kept_bytes :
      (t : Traffic net) (r : net.System × Buffer × ℕ)
      → IsValid t.source
      → IsFlushed net in_flight out wire.sends t.host t.source r
      → length (in_flight r.0) + r.1.size ≡ length (in_flight t.host) + t.source.size
  kept_bytes t r v flushed = omega (
    arith,
    ap length flushed.kept,
    length-append (in_flight r.0) (contents r.1),
    length-append (in_flight t.host) (contents t.source),
    length-contents flushed.valid,
    length-contents v,
  )

  -- After a call of `_write_buffer` there are bytes on the way, unless there are none at all.
  sent_some :
      (t : Traffic net) (r : net.System × Buffer × ℕ)
      → IsValid t.source
      → IsFlushed net in_flight out wire.sends t.host t.source r
      → 0 < open_bytes t
      → 0 < length (in_flight r.0)
  sent_some t r v flushed some = elim (nil_or_some (in_flight t.host)) [
    | inr busy ↦ omega (arith, kept_bytes t r v flushed, flushed.shrunk)
    | inl idle ↦
        let pos : 0 < t.source.size = omega (arith, ap length idle) in
        let bytes : contents t.source ≢ [] =
          not_nil (contents t.source) (omega (arith, length-contents v)) in
        let less = flushed.begun pos (wire.has_room t.host (contents t.source) bytes idle) in
        omega (arith, kept_bytes t r v flushed, less)
  ]

  -- A round: `_write_buffer`, then `_read_buffer`.
  round :
      (t : Traffic net)
      → Fits t
      → 0 < open_bytes t
      → (u : Traffic net) × Steps net in_flight out inn fresh t u
        × Fits u
        × (open_bytes u < open_bytes t)
        × (u.consumed ≡ t.consumed)
        × (u.written ≡ t.written)
  round t f some =
      let v = f.intact.valid_source in
      let (r, run, flushed) =
        write_buffer-IsFlushed net in_flight out wire.sends t.host t.source v f.sendable in
      let busy = sent_some t r v flushed some in
      let same = kept_bytes t r v flushed in
      let ready = not_nil (in_flight r.0) busy in
      let c : CanGrow t.sink 8192 = omega (arith, f.positive, f.bounded) in
      let (s, (b, (n, run', taken))) =
        read_buffer-IsTaken net in_flight out inn fresh wire r.0 t.sink f.intact.valid_sink c
          ready in
      let mid = sent-IsIntact net in_flight out inn fresh wire t r f.intact flushed in
      let t' = record t { host = r.0; source = r.1 } in
      let u = record t { host = s; source = r.1; sink = b } in
      let split = ap length taken.split ∙ length-append taken.bytes (in_flight s) in
      (
        u,
        next (next here (step_send t r.0 r.1 r.2 f.sendable run))
            (step_receive t' s b n ready c run'),
        record {
          intact = received-IsIntact net in_flight out inn fresh wire t' s b mid taken;
          sendable = omega (arith, flushed.shrunk, f.sendable);
          positive = omega (arith, taken.appended.larger, f.positive);
          bounded = omega (arith, f.bounded, same, split, taken.appended.grown_used);
        },
        omega (arith, same, split, taken.some),
        refl,
        refl,
      )

  nil_of_length : (l : List ℕ) → length l ≡ 0 → l ≡ []
  nil_of_length [] h = refl
  nil_of_length (x ∷ l) h = absurd (omega arith)

  deliver :
      (n : ℕ) (t : Traffic net)
      → Fits t
      → open_bytes t ≤ n
      → (u : Traffic net) × Steps net in_flight out inn fresh t u
        × Fits u
        × (open_bytes u ≡ 0)
        × (u.consumed ≡ t.consumed)
        × (u.written ≡ t.written)
  deliver zero t f h = (t, here, f, omega arith, refl, refl)
  deliver (suc n) t f h = elim (zero_or_some (open_bytes t)) [
    | inl none_open ↦ (t, here, f, none_open, refl, refl)
    | inr some ↦
        let (u, steps, f', less, consumed, written) = round t f some in
        let (w, steps', f'', all, consumed', written') = deliver n u f' (omega arith) in
        (
          w,
          Steps-trans net in_flight out inn fresh steps steps',
          f'',
          all,
          consumed' ∙ consumed,
          written' ∙ written,
        )
  ]

  -- Two connected sockets with an intact traffic, less than 2 ^ 31 bytes to send and room to grow for
  -- them at the other end: calls of `_write_buffer` and of `_read_buffer`, whatever number of bytes
  -- each `send` and each `recv` takes, lead to where nothing is left to send and nothing on the way,
  -- and the other end's buffer has all that has been written and not been consumed before.
  pub deliver-all :
      (t : Traffic net)
      → Fits t
      → (u : Traffic net) × Steps net in_flight out inn fresh t u
        × (u.source.size ≡ 0)
        × (in_flight u.host ≡ [])
        × (t.consumed ++ contents u.sink ≡ t.written)
  deliver-all t f =
      let (u, steps, f', all, consumed, written) = deliver (open_bytes t) t f (omega arith) in
      let i = f'.intact in
      let empty : u.source.size ≡ 0 = omega arith in
      let idle : in_flight u.host ≡ [] = nil_of_length (in_flight u.host) (omega arith) in
      let nothing : contents u.source ≡ [] =
        nil_of_length (contents u.source) (omega (arith, length-contents i.valid_source)) in
      (u, steps, empty, idle, here_all u idle nothing consumed written i.whole)
    where
      here_all :
          (u : Traffic net)
          → in_flight u.host ≡ []
          → contents u.source ≡ []
          → u.consumed ≡ t.consumed
          → u.written ≡ t.written
          → u.consumed ++ (contents u.sink ++ (in_flight u.host ++ contents u.source)) ≡ u.written
          → t.consumed ++ contents u.sink ≡ t.written
      here_all u idle nothing consumed written whole =
          let end : in_flight u.host ++ contents u.source ≡ [] = rw idle nothing in
          ap (λ l. l ++ contents u.sink) (sym consumed)
          ∙ ap (λ l. u.consumed ++ l) (sym (append-nil (contents u.sink)))
          ∙ ap (λ l. u.consumed ++ (contents u.sink ++ l)) (sym end)
          ∙ whole
          ∙ written
