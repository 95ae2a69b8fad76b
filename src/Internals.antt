-- ===== src/Internals.antt =====
-- The internal field of the objects of the two classes that have one, `Buffer` and `Service`:
-- `get_internal` of V8H_IMPORT_GET_INTERNAL_WITH_CLASS (src/v8h_import.h), GET_PTR, SET_PTR and DEL_PTR of
-- src/v8h_helper.h, and the constructors and `close` of src/buffer.cc and src/service.cc. A function of
-- either class may be called on an object of the other one.
pub mod Typed
mod Tests
use v8h.Base.{
  ℕ, suc, ◌≡◌, ◌≢◌, List, [], ◌∷◌, Option, none, some, Bool, true, false, ◌==◌, if◌then◌else◌,
}
use v8h.Base.Outcome.{Outcome, ok, fault, ◌>>=◌}
use v8h.Heap.{find, replace}

pub data Kind : Type 0 where
  buffer service : Kind

abbrev pub same_kind : Kind → Kind → Bool
same_kind buffer buffer = true
same_kind service service = true
same_kind buffer service = false
same_kind service buffer = false

-- What a pointer in a field really points to: C++ sees a `void *`.
pub record Pointer : Type 0 where
  pub kind : Kind
  pub address : ℕ

-- the class whose function has made the object, and the field, which is NULL if there is none
pub record Cell : Type 0 where
  pub maker : Kind
  pub field : Option Pointer

pub record Internals : Type 0 where
  pub cells : List (ℕ × Cell)
  pub next : ℕ

abbrev pub no_internals : Internals
no_internals = record { cells = []; next = 1 }

-- An object that is not there has no field.
unfoldable pub get_field : ℕ → Internals → Outcome (Option Pointer)
get_field id o = elim (find o.cells id) [ none ↦ fault | some c ↦ ok c.field ]

unfoldable pub set_field : ℕ → Option Pointer → Internals → Outcome Internals
set_field id p o = elim (find o.cells id) [
  | none ↦ fault
  | some c ↦ ok (record o { cells = replace o.cells id (record c { field = p }) })
]

-- The field is taken for a pointer to the class, whatever it is.
unfoldable pub get_internal : Kind → ℕ → Internals → Outcome (Option Pointer)
unfolding get_field
get_internal k id o = get_field id o

-- What a member of the class does with the pointer: through NULL, or to an object of another class, it
-- is undefined.
unfoldable pub dereference : {A : Type 0} → Kind → Option Pointer → (ℕ → Outcome A) → Outcome A
dereference k none member = fault
dereference k (some p) member = if same_kind p.kind k then member p.address else fault

-- a function of the class that calls a member
unfoldable pub call_member : {A : Type 0} → Kind → ℕ → (ℕ → Outcome A) → Internals → Outcome A
unfolding get_internal
call_member k id member o = get_internal k id o >>= λ p. dereference k p member

-- The constructor of the class, called on an object that is there: `new`, then SET_PTR.
unfoldable pub construct : Kind → ℕ → Internals → Outcome Internals
unfolding set_field
construct k id o =
    set_field id (some (record { kind = k; address = o.next })) (record o { next = suc o.next })

-- `new` in JavaScript makes the object, and calls the constructor on it.
unfoldable pub new_object : Kind → ℕ → Internals → Outcome Internals
unfolding construct
new_object k id o =
    construct k id (record o { cells = (id, record { maker = k; field = none }) ∷ o.cells })

-- DEL_PTR with what is in the field: an object is deleted as one of the class.
unfoldable pub del_ptr : Kind → ℕ → Option Pointer → Internals → Outcome Internals
del_ptr k id none o = ok o
del_ptr k id (some p) o = if same_kind p.kind k then set_field id none o else fault

-- `close` of the class
unfoldable pub close : Kind → ℕ → Internals → Outcome Internals
unfolding get_internal del_ptr
close k id o = get_internal k id o >>= λ p. del_ptr k id p o

-- Calls from JavaScript that return. A constructor may be called as a function on any object of its own
-- class, again and again.
pub data Step : Internals → Internals → Type 0 where
  step_new :
      {o o' : Internals} (k : Kind) (id : ℕ)
      → find o.cells id ≡ none
      → new_object k id o ≡ ok o'
      → Step o o'
  step_construct :
      {o o' : Internals} (id : ℕ) (c : Cell)
      → find o.cells id ≡ some c
      → construct c.maker id o ≡ ok o'
      → Step o o'
  step_close : {o o' : Internals} (k : Kind) (id : ℕ) → close k id o ≡ ok o' → Step o o'

pub data Steps : Internals → Internals → Type 0 where
  here : {o : Internals} → Steps o o
  next : {o o' o'' : Internals} → Steps o o' → Step o' o'' → Steps o o''
