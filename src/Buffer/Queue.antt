-- ===== src/Buffer/Queue.antt =====
-- What `Buffer` promises its users: a queue of bytes. Any sequence of its operations (src/buffer.cc)
-- does to the contents what it does to a list.
use v8h.Base.{ℕ, ◌+◌, ◌≤◌, ◌<◌, ◌≡◌, refl, ap, ◌∙◌, List, [], ◌∷◌, ◌++◌, arith, length, drop}
use v8h.Base.Outcome.{Outcome, ok, ◌>>=◌}
use v8h.Buffer
use v8h.Buffer.{Buffer, outside}
use v8h.Buffer.Valid.{IsValid, contents, length-contents, CanGrow, prepare-IsPrepared}
use v8h.Buffer.Write.{write_text-IsAppended}
use v8h.Buffer.Consume.{consume-drop, sweep-contents, clear-IsValid}

pub data Op : Type 0 where
  write : List ℕ → Op
  consume : ℕ → Op
  prepare : ℕ → Op
  sweep : Op
  clear : Op

-- the list of bytes after an operation
abbrev pub queue_step : List ℕ → Op → List ℕ
queue_step q (write bytes) = q ++ bytes
queue_step q (consume n) = drop n q
queue_step q (prepare n) = q
queue_step q sweep = q
queue_step q clear = []

abbrev pub queue_run : List ℕ → List Op → List ℕ
queue_run q [] = q
queue_run q (op ∷ ops) = queue_run (queue_step q op) ops

-- how many bytes an operation asks room for
abbrev pub cost : Op → ℕ
cost (write bytes) = length bytes
cost (consume n) = 0
cost (prepare n) = n
cost sweep = 0
cost clear = 0

abbrev pub cost_all : List Op → ℕ
cost_all [] = 0
cost_all (op ∷ ops) = cost op + cost_all ops

module _ (fresh : ℕ → ℕ) where
  abbrev pub step : Buffer → Op → Outcome Buffer
  step b (write bytes) = Buffer.write_text fresh b bytes
  step b (consume n) = ok (Buffer.consume b n)
  step b (prepare n) = Buffer.prepare fresh b n >>= λ r. ok r.0
  step b sweep = Buffer.sweep b
  step b clear = ok (Buffer.clear b)

  abbrev pub run : Buffer → List Op → Outcome Buffer
  run b [] = ok b
  run b (op ∷ ops) = step b op >>= λ b'. run b' ops

  -- One operation; `used` grows by no more than was asked for.
  step_refines :
      (b : Buffer) (op : Op)
      → IsValid b
      → CanGrow b (cost op)
      → (b' : Buffer) × (step b op ≡ ok b')
        × IsValid b'
        × (contents b' ≡ queue_step (contents b) op)
        × (0 < b'.reserve)
        × (b'.used ≤ b.used + cost op)
  step_refines b (write bytes) v c =
      let (b', run, done) = write_text-IsAppended fresh b bytes v c in
      (
        b',
        run,
        done.valid,
        done.appended,
        omega (arith, done.larger, c.positive),
        omega (arith, done.grown_used),
      )
  step_refines b (consume n) v c =
      let (valid, rest, capacity, used) = consume-drop n v in
      (
        Buffer.consume b n,
        refl,
        valid,
        rest,
        omega (arith, capacity, c.positive),
        ground (arith, used),
      )
  step_refines b (prepare n) v c =
      let (b', run, h) = prepare-IsPrepared fresh b n v c in
      (
        b',
        rw run,
        h.valid,
        h.same_contents,
        omega (arith, h.rounds.1.larger, c.positive),
        omega (arith, h.same_used),
      )
  step_refines b sweep v c =
      let (b', run, valid, same, front, capacity) = sweep-contents v in
      (
        b',
        run,
        valid,
        same,
        omega (arith, capacity, c.positive),
        omega (
          arith,
          length-contents valid,
          length-contents v,
          ap length same,
          valid.live,
          front,
          v.live,
        ),
      )
  step_refines b clear v c =
      let (valid, empty) = clear-IsValid v in
      (
        Buffer.clear b,
        refl,
        valid,
        empty,
        unfold Buffer.clear in c.positive,
        unfold Buffer.clear in omega arith,
      )

  -- Any sequence of writes, consumes, prepares, sweeps and clears of a valid buffer of some
  -- capacity, where three times the bytes in use and all that is asked for are a `size_t`, returns a
  -- valid buffer, and its contents are what the same operations make of the list of the contents.
  pub run_refines :
      (ops : List Op) (b : Buffer)
      → IsValid b
      → CanGrow b (cost_all ops)
      → (b' : Buffer) × (run b ops ≡ ok b')
        × IsValid b'
        × (contents b' ≡ queue_run (contents b) ops)
  run_refines [] b v c = (b, refl, v, refl)
  run_refines (op ∷ ops) b v c =
      let (b', next, v', same, positive, used) =
        step_refines b op v
          (record { positive = c.positive; bounded = omega (arith, c.bounded) }) in
      let (b'', rest, v'', same') =
        run_refines ops b' v'
          (record { positive = positive; bounded = omega (arith, c.bounded) }) in
      (b'', rw next rest, v'', same' ∙ ap (λ q. queue_run q ops) same)
