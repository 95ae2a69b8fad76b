-- ===== src/BufferObject/Lifetime.antt =====
-- The constructor of JavaScript's `Buffer` and `close` (src/buffer.cc).
use v8h.Base.{
  ℕ, ◌*◌, ◌^◌, ◌≤◌, ◌<◌, ◌≡◌, ◌≢◌, refl, ap, ◌∙◌, List, [], ◌∷◌, ◌++◌, Bool, true, false, arith,
  if◌then◌else◌, Bool-cases, inl, inr, size_mod, Option-cases, some, none,
}
use v8h.Base.Outcome.{ok, fault}
use v8h.Buffer
use v8h.Buffer.{Buffer}
use v8h.Buffer.Valid.{IsValid, contents, new-IsValid}
use v8h.Buffer.Write.{IsAppended}
use v8h.Engine.{Engine}
use v8h.BufferObject.{Store, update, del_ptr, close, read_utf8, write_utf8, constructor}
use v8h.BufferObject.Text.{
  get_internal-some, get_internal-none, update_self, update_other, StoresUtf8,
  write_value-IsAppended,
}

constructor-other :
    (e : Engine) (fresh : ℕ → ℕ) (store : Store) (self : ℕ) (x : e.Value)
    → e.is_string x ≡ false
    → constructor e fresh store self (x ∷ [])
      ≡ ok (
        update store self
            (some (Buffer.new fresh (if e.is_uint32 x then e.uint32_value x else 1024))),
        e.of_object self,
      )
unfolding constructor
constructor-other e fresh store self x h = rw h

constructor-text :
    (e : Engine) (fresh : ℕ → ℕ) (store : Store) (self : ℕ) (x : e.Value)
    → StoresUtf8 e
    → e.is_string x ≡ true
    → e.is_uint32 x ≡ false
    → 3 * e.utf8_length x ≤ size_mod
    → let b = Buffer.new fresh 1024 in
      (b' : Buffer) × (constructor e fresh store self (x ∷ [])
        ≡ ok (update (update store self (some b)) self (some b'), e.of_object self))
      × IsAppended b (e.write_utf8 x (e.utf8_length x)) b'
unfolding constructor write_utf8
constructor-text e fresh store self x stores text other room =
    let b = Buffer.new fresh 1024 in
    let (valid, _, capacity, empty) = new-IsValid fresh 1024 (omega arith) in
    let (b', run, done) =
      write_value-IsAppended e fresh b x stores valid
        (record { positive = omega arith; bounded = omega arith }) in
    (
      b',
      rw (
        text,
        other,
        get_internal-some (update store self (some b)) self b (update_self store self (some b)),
        run,
      ),
      done,
    )

-- The constructor with one argument, if V8 stores no more bytes than `Utf8Length` tells and no
-- number is a text: a number is the capacity of an empty buffer; of a text the stored bytes are the
-- contents, if three times its length is a `size_t`; anything else leaves an empty buffer. The
-- object's buffer is valid in each case, and no other object changes.
pub constructor-IsValid :
    (e : Engine) (fresh : ℕ → ℕ) (store : Store) (self : ℕ) (x : e.Value)
    → StoresUtf8 e
    → (e.is_uint32 x ≡ true → e.is_string x ≡ false)
    → 3 * e.utf8_length x ≤ size_mod
    → e.uint32_value x < 2 ^ 32
    → (r : Store × Buffer) × (constructor e fresh store self (x ∷ []) ≡ ok (r.0, e.of_object self))
      × (r.0 self ≡ some r.1)
      × ((id : ℕ) → id ≢ self → r.0 id ≡ store id)
      × IsValid r.1
      × (contents r.1 ≡ (if e.is_string x then e.write_utf8 x (e.utf8_length x) else []))
      × (r.1.reserve ≡ (if e.is_uint32 x then e.uint32_value x else r.1.reserve))
unfolding constructor write_utf8
constructor-IsValid e fresh store self x stores apart room small =
    elim (Bool-cases (e.is_string x)) [
      | inr other ↦ of_other other
      | inl text ↦ elim (Bool-cases (e.is_uint32 x)) [
        | inl number ↦ absurd (not_both text (apart number))
        | inr other ↦ of_text text other
      ]
    ]
  where
    Built : Type 0
    Built =
        (r : Store × Buffer) × (constructor e fresh store self (x ∷ [])
          ≡ ok (r.0, e.of_object self))
        × (r.0 self ≡ some r.1)
        × ((id : ℕ) → id ≢ self → r.0 id ≡ store id)
        × IsValid r.1
        × (contents r.1 ≡ (if e.is_string x then e.write_utf8 x (e.utf8_length x) else []))
        × (r.1.reserve ≡ (if e.is_uint32 x then e.uint32_value x else r.1.reserve))

    same_or : (t : Bool) (m k r : ℕ) → r ≡ (if t then m else k) → r ≡ (if t then m else r)
    same_or true m k r h = h
    same_or false m k r h = refl

    not_both : {b : Bool} → b ≡ true → b ≡ false → ⊥
    not_both h k = cc

    of_other : e.is_string x ≡ false → Built
    of_other other =
        let n = if e.is_uint32 x then e.uint32_value x else 1024 in
        let (valid, empty, capacity, _) = new-IsValid fresh n (ground arith) in
        (
          (update store self (some (Buffer.new fresh n)), Buffer.new fresh n),
          constructor-other e fresh store self x other,
          update_self store self (some (Buffer.new fresh n)),
          λ id h. update_other store self id (some (Buffer.new fresh n)) h,
          valid,
          rw other empty,
          same_or (e.is_uint32 x) (e.uint32_value x) 1024 (Buffer.new fresh n).reserve capacity,
        )

    of_text : e.is_string x ≡ true → e.is_uint32 x ≡ false → Built
    of_text text other =
        let b = Buffer.new fresh 1024 in
        let (_, empty, _, _) = new-IsValid fresh 1024 (omega arith) in
        let (b', run, done) = constructor-text e fresh store self x stores text other room in
        let store' = update store self (some b) in
        (
          (update store' self (some b'), b'),
          run,
          update_self store' self (some b'),
          λ id h. update_other store' self id (some b') h ∙ update_other store self id (some b) h,
          done.valid,
          rw text (done.appended ∙ ap (λ l. l ++ e.write_utf8 x (e.utf8_length x)) empty),
          rw other,
        )

del_ptr-none : (store : Store) (id : ℕ) → store id ≡ none → del_ptr store id ≡ store
unfolding del_ptr
del_ptr-none store id h = rw (h, del_ptr)

del_ptr-some :
    (store : Store) (id : ℕ) (b : Buffer)
    → store id ≡ some b
    → del_ptr store id ≡ update store id none
unfolding del_ptr
del_ptr-some store id b h = rw (h, del_ptr)

del_ptr_lem :
    (store : Store) (id : ℕ)
    → (del_ptr store id id ≡ none)
      × ((other : ℕ) → other ≢ id → del_ptr store id other ≡ store other)
del_ptr_lem store id = elim (Option-cases (store id)) [
  | inl h ↦ rw (del_ptr-none store id h) (h, λ other ne. refl)
  | inr (b, h) ↦
      rw (del_ptr-some store id b h)
        (update_self store id none, λ other ne. update_other store id other none ne)
]

-- `close` leaves NULL behind the object and touches no other object; a second `close` changes
-- nothing, and a text cannot be read any more.
pub close_lem :
    (e : Engine) (store : Store) (self : ℕ) (args : List e.Value)
    → (store' : Store) × (close e store self args ≡ ok (store', e.of_object self))
      × (store' self ≡ none)
      × ((id : ℕ) → id ≢ self → store' id ≡ store id)
      × (close e store' self args ≡ ok (store', e.of_object self))
      × (read_utf8 e store' self args ≡ fault)
unfolding close
close_lem e store self args =
    let store' = del_ptr store self in
    let (gone, others) = del_ptr_lem store self in
    (
      store',
      refl,
      gone,
      others,
      rw (del_ptr-none store' self gone),
      unfold read_utf8 in rw (get_internal-none store' self gone),
    )
