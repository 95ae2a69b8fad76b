-- ===== src/BufferObject/Copy.antt =====
-- Copying between the buffers of JavaScript objects: `_peekBuffer` and `_readBuffer` (src/buffer.cc).
use v8h.Base.{
  ℕ, ◌+◌, ◌≤◌, ◌<◌, ◌≡◌, ◌≢◌, refl, sym, ◌∙◌, List, arith, ne→not-==, take, drop, length-drop,
  size_mod, add_size, take-take, some,
}
use v8h.Base.Memory.{slice}
use v8h.Base.Outcome.{ok, fault}
use v8h.Buffer
use v8h.Buffer.{Buffer, outside, inside}
use v8h.Buffer.Valid.{IsValid, contents, CanGrow}
use v8h.Buffer.Write.{IsAppended, write-IsAppended, write_outside-fault}
use v8h.Engine.{Engine, arg}
use v8h.BufferObject.{Store, update, copy, requested, peek_buffer, read_buffer}
use v8h.BufferObject.Text.{get_internal-some, update_self, update_other}

module _ (e : Engine) (fresh : ℕ → ℕ) (store : Store) (self dest : ℕ) (b d : Buffer)
    (here : store self ≡ some b) (there : store dest ≡ some d) (apart : self ≢ dest) (v : IsValid b)
    (w : IsValid d) where
  -- A copy of `n` bytes that lie in the block, from `data()` on, whatever `size()` says.
  copy-IsAppended :
      (n : ℕ)
      → CanGrow d n
      → b.cursor + n ≤ b.reserve
      → (d' : Buffer) × (copy e fresh store self dest n ≡ ok (update store dest (some d')))
        × IsAppended d (slice b.block b.cursor n) d'
  unfolding copy
  copy-IsAppended n c le =
      let (d', run, done) =
        write-IsAppended fresh d (drop b.cursor b.block) n w c
          (omega (arith, v.allocated, length-drop b.cursor b.block)) in
      (
        d',
        rw (
          get_internal-some store self b here,
          get_internal-some store dest d there,
          ne→not-== self dest apart,
          run,
        ),
        done,
      )

  copy-fault :
      (n : ℕ)
      → CanGrow d n
      → b.reserve < b.cursor + n
      → b.cursor ≤ b.reserve
      → copy e fresh store self dest n ≡ fault
  unfolding copy
  copy-fault n c lt le = rw (
    get_internal-some store self b here,
    get_internal-some store dest d there,
    ne→not-== self dest apart,
    write_outside-fault fresh d (drop b.cursor b.block) n w c
        (omega (arith, v.allocated, length-drop b.cursor b.block)),
  )

  module _ (args : List e.Value) (to_dest : e.to_object (arg e args 0) ≡ dest) where
    -- `_peekBuffer` from an object with a valid buffer into the valid buffer of another object, of
    -- no more bytes than there are, where that buffer can grow so far: the first bytes are appended
    -- there, and this object's buffer stays as it is.
    pub peek_buffer_lem :
        requested e b args ≤ b.size
        → CanGrow d (requested e b args)
        → (store' : Store) × (peek_buffer e fresh store self args ≡ ok (store', e.of_object self))
          × (store' self ≡ some b)
          × ((d' : Buffer) × (store' dest ≡ some d')
              × IsAppended d (take (requested e b args) (contents b)) d')
    unfolding peek_buffer
    peek_buffer_lem le c =
        let n = requested e b args in
        let (d', run, done) = copy-IsAppended n c (omega (arith, v.live, v.fits)) in
        let text = take-take n b.size (drop b.cursor b.block) le in
        (
          update store dest (some d'),
          rw (get_internal-some store self b here, to_dest, run),
          update_other store dest self (some d') apart ∙ here,
          (d', update_self store dest (some d'), rw (← text) at done),
        )

    overread_cases :
        b.size < requested e b args
        → CanGrow d (requested e b args)
        → (b.cursor + requested e b args ≤ b.reserve
            → (d' : Buffer) × (peek_buffer e fresh store self args
                ≡ ok (update store dest (some d'), e.of_object self))
              × IsAppended d (slice b.block b.cursor (requested e b args)) d')
          × (b.reserve < b.cursor + requested e b args
              → peek_buffer e fresh store self args ≡ fault)
    unfolding peek_buffer
    overread_cases lt c = (
      λ le.
          let (d', run, done) = copy-IsAppended (requested e b args) c le in
          (d', rw (get_internal-some store self b here, to_dest, run), done),
      λ over. rw (
        get_internal-some store self b here,
        to_dest,
        copy-fault (requested e b args) c over (omega (arith, v.live, v.fits)),
      ),
    )

    -- `_peekBuffer` does not cut its second argument down to `size()`: where the block is long
    -- enough, bytes that are no contents are appended to the other buffer, as many as are asked for.
    pub peek_buffer_overreads :
        b.size < requested e b args
        → CanGrow d (requested e b args)
        → b.cursor + requested e b args ≤ b.reserve
        → (d' : Buffer) × (peek_buffer e fresh store self args
            ≡ ok (update store dest (some d'), e.of_object self))
          × IsAppended d (slice b.block b.cursor (requested e b args)) d'
    peek_buffer_overreads lt c le = (overread_cases lt c).0 le

    -- `_peekBuffer` does not cut its second argument down to `size()`: where it reaches past the end
    -- of the block, memory behind the block is read.
    pub peek_buffer-fault :
        b.size < requested e b args
        → CanGrow d (requested e b args)
        → b.reserve < b.cursor + requested e b args
        → peek_buffer e fresh store self args ≡ fault
    peek_buffer-fault lt c over = (overread_cases lt c).1 over

    -- `_readBuffer` into another object's valid buffer, of no more bytes than there are, appends
    -- them there and does not take them from this object: `data()` stays where it is, `size()` grows
    -- by their number, and the old contents are still the first bytes.
    pub read_buffer-keeps :
        requested e b args ≤ b.size
        → CanGrow d (requested e b args)
        → b.reserve + requested e b args < size_mod
        → (r : Store × Buffer × Buffer) × (read_buffer e fresh store self args
            ≡ ok (r.0, e.of_object self))
          × (r.0 dest ≡ some r.1)
          × IsAppended d (take (requested e b args) (contents b)) r.1
          × (r.0 self ≡ some r.2)
          × (r.2.cursor ≡ b.cursor)
          × (r.2.size ≡ b.size + requested e b args)
          × (take b.size (contents r.2) ≡ contents b)
    unfolding read_buffer
    read_buffer-keeps le c room =
        let n = requested e b args in
        let (d', run, done) = copy-IsAppended n c (omega (arith, v.live, v.fits)) in
        let text = take-take n b.size (drop b.cursor b.block) le in
        let store' = update store dest (some d') in
        let kept : store' self ≡ some b = update_other store dest self (some d') apart ∙ here in
        let b' = Buffer.commit b n in
        (
          (update store' self (some b'), d', b'),
          rw (
            get_internal-some store self b here,
            to_dest,
            run,
            get_internal-some store' self b kept,
          ),
          update_other store' self dest (some b') (λ h. apart (sym h))
              ∙ update_self store dest (some d'),
          rw (← text) at done,
          update_self store' self (some b'),
          unfold Buffer.commit in refl,
          unfold Buffer.commit in omega (arith, v.live, v.fits),
          unfold Buffer.commit in
              take-take b.size (add_size b.size n) (drop b.cursor b.block)
                (omega (arith, v.live, v.fits)),
        )
