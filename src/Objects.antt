-- ===== src/Objects.antt =====
-- The objects of JavaScript with a `Buffer` behind them, by the pointers in their internal fields: what
-- the constructor of src/buffer.cc, `close`, and the garbage collector do with them (SET_PTR, GET_PTR and
-- DEL_PTR of src/v8h_helper.h, V8H_AUTO_DELETE of src/v8h.h, the destructor of src/v8h_import.h).
pub mod Pointers
pub mod Lost
pub mod Owned
mod Tests
use v8h.Base.{
  ℕ, suc, ◌+◌, ◌-◌, ◌%◌, ◌<◌, ◌≡◌, List, [], ◌∷◌, ◌++◌, Option, none, some, ◌==◌, if◌then◌else◌,
  size_mod, add_size,
}
use v8h.Base.Outcome.{Outcome, ok, fault, ◌>>=◌}
use v8h.Buffer
use v8h.Buffer.{Buffer}
use v8h.Buffer.Valid.{IsValid}
use v8h.Heap.{find, replace, delete}

-- The internal field of each object, 0 being NULL; the `Buffer`s that are allocated, under their
-- addresses, which are not used again; and what has been reported to V8 as external memory in all.
pub record Objects : Type 0 where
  pub fields : List (ℕ × ℕ)
  pub live : List (ℕ × Buffer)
  pub next : ℕ
  pub external : ℕ

abbrev pub no_objects : Objects
no_objects = record { fields = []; live = []; next = 1; external = 0 }

-- `GET_PTR`: an object that has no such field fails the assertion.
unfoldable pub get_ptr : ℕ → Objects → Outcome ℕ
get_ptr id o = elim (find o.fields id) [ none ↦ fault | some p ↦ ok p ]

unfoldable pub set_ptr : ℕ → ℕ → Objects → Objects
set_ptr id p o = record o { fields = replace o.fields id p }

-- the sum after an object's own sum has changed
abbrev pub adjust : ℕ → ℕ → ℕ → ℕ
adjust external before after = (external + after + (size_mod - before % size_mod)) % size_mod

-- `delete pointer`, with the destructor of `Buffer`
unfoldable pub delete_buffer : ℕ → Objects → Outcome Objects
delete_buffer p o = elim (find o.live p) [
  | none ↦ fault
  | some b ↦ ok (record o {
    live = delete o.live p;
    external = adjust o.external b.reported (Buffer.destroy b);
  })
]

unfoldable pub del_field : ℕ → Objects → Outcome Objects
unfolding get_ptr set_ptr delete_buffer
del_field id o = do
  p ← get_ptr id o
  let deleted = delete_buffer p o >>= λ o'. ok (set_ptr id 0 o')
  if p == 0 then ok o else deleted

-- `Buffer::constructor` without its text, on an object that is new or on one that is there already: its
-- field is set, whatever it held.
unfoldable pub construct : (ℕ → ℕ) → ℕ → ℕ → Objects → Objects
construct fresh reserve id o =
    let b = Buffer.new fresh reserve in
    record {
      fields = (id, o.next) ∷ delete o.fields id;
      live = (o.next, b) ∷ o.live;
      next = suc o.next;
      external = add_size o.external b.reported;
    }

-- `Buffer::close`
unfoldable pub close_object : ℕ → Objects → Outcome Objects
unfolding del_field
close_object id o = del_field id o

-- When an object is collected, V8 calls the destructor, and the object is gone.
unfoldable pub collect : ℕ → Objects → Outcome Objects
unfolding del_field
collect id o = del_field id o >>= λ o'. ok (record o' { fields = delete o'.fields id })

-- a member of the `Buffer` behind an object
unfoldable pub call_member : ℕ → (Buffer → Outcome Buffer) → Objects → Outcome Objects
unfolding get_ptr
call_member id f o = do
  p ← get_ptr id o
  b ← (elim (find o.live p) [ none ↦ fault | some b ↦ ok b ])
  b' ← f b
  ok (record o { live = replace o.live p b'; external = adjust o.external b.reported b'.reported })

-- the pointer in the field of an object that has a `Buffer`
abbrev pub overwritten : List (ℕ × ℕ) → ℕ → List ℕ
overwritten fields id = elim (find fields id) [ none ↦ [] | some p ↦ if p == 0 then [] else p ∷ [] ]

-- What JavaScript and its garbage collector do, with the pointers that are overwritten. The constructor
-- is called on any object that has the internal field, new or not.
pub data Step (fresh : ℕ → ℕ) : Objects → List ℕ → Objects → Type 0 where
  step_construct :
      (o : Objects) (reserve id : ℕ)
      → reserve < size_mod
      → Step fresh o (overwritten o.fields id) (construct fresh reserve id o)
  step_member :
      {o o' : Objects} (id : ℕ) (f : Buffer → Outcome Buffer)
      → ((b b' : Buffer) → IsValid b → f b ≡ ok b' → IsValid b')
      → call_member id f o ≡ ok o'
      → Step fresh o [] o'
  step_close : {o o' : Objects} (id : ℕ) → close_object id o ≡ ok o' → Step fresh o [] o'
  step_collect : {o o' : Objects} (id : ℕ) → collect id o ≡ ok o' → Step fresh o [] o'

-- The pointers that have been overwritten in all are in the list.
pub data Steps (fresh : ℕ → ℕ) : Objects → List ℕ → Objects → Type 0 where
  here : {o : Objects} → Steps fresh o [] o
  next :
      {o o' o'' : Objects} {lost more : List ℕ}
      → Steps fresh o lost o'
      → Step fresh o' more o''
      → Steps fresh o (more ++ lost) o''
