-- ===== src/Internals/Typed.antt =====
-- Which class the pointer behind an object belongs to.
use mathlib.Core.Path.{subst}
use v8h.Base.{
  ℕ, suc, ◌≡◌, ◌≢◌, refl, sym, ap, ◌∙◌, Option-cases, List, [], ◌∷◌, Option, none, some, true,
  false, Bool-cases, inl, inr, arith, ◌==◌, if◌then◌else◌, eq→==,
}
use v8h.Base.Outcome.{Outcome, ok, fault}
use v8h.Heap.{find, replace}
use v8h.Internals.{
  Kind, buffer, service, same_kind, Pointer, Cell, Internals, no_internals, get_field, set_field,
  get_internal, del_ptr, dereference, call_member, construct, new_object, close, Step, step_new,
  step_construct, step_close, Steps, here, next,
}

-- A field is NULL or points to an object of the class that has made the JavaScript object.
abbrev IsTyped : Internals → Type 0
IsTyped o =
    (id : ℕ) (c : Cell) (p : Pointer)
    → find o.cells id ≡ some c
    → c.field ≡ some p
    → p.kind ≡ c.maker

find-replace :
    (cells : List (ℕ × Cell)) (id j : ℕ) (old new c : Cell)
    → find cells id ≡ some old
    → find (replace cells id new) j ≡ some c
    → (if id == j then c ≡ new else find cells j ≡ some c)
find-replace [] id j old new c h found = cc
find-replace ((i, x) ∷ cells) id j old new c h found =
    ground (arith, find-replace cells id j old new c)

not_fault : (o : Internals) → ◌≡◌ {A = Outcome Internals} fault (ok o) → ⊥
not_fault o h = cc

ok-injective : (o o' : Internals) → ◌≡◌ {A = Outcome Internals} (ok o) (ok o') → o ≡ o'
ok-injective o o' h = cc

abbrev kind_of : Option Pointer → Kind → Kind
kind_of none k = k
kind_of (some p) k = p.kind

abbrev maker_of : Option Cell → Kind → Kind
maker_of none k = k
maker_of (some c) k = c.maker

abbrev Fits : Option Pointer → Cell → Type 0
Fits field c = (p : Pointer) → field ≡ some p → p.kind ≡ c.maker

set_cell-IsTyped :
    (o : Internals) (n id : ℕ) (c : Cell) (field : Option Pointer)
    → IsTyped o
    → find o.cells id ≡ some c
    → Fits field c
    → IsTyped (record { cells = replace o.cells id (record c { field = field }); next = n })
set_cell-IsTyped o n id c field t there fits j d q found points =
    let at = find-replace o.cells id j c (record c { field = field }) d there found in
    elim (Bool-cases (id == j)) [
      | inl e ↦
          let same : d ≡ record c { field = field } = rw e at at in
          let q_fits : q.kind ≡ c.maker = fits q (sym (ap (λ (x : Cell). x.field) same) ∙ points) in
          q_fits ∙ sym (ap (λ (x : Cell). x.maker) same)
      | inr e ↦ t j d q (rw e at at) points
    ]

set_field-missing :
    (o : Internals) (id : ℕ) (field : Option Pointer)
    → find o.cells id ≡ none
    → set_field id field o ≡ fault
unfolding set_field
set_field-missing o id field h = rw (h, set_field)

set_field-found :
    (o : Internals) (id : ℕ) (field : Option Pointer) (c : Cell)
    → find o.cells id ≡ some c
    → set_field id field o
      ≡ ok (record o { cells = replace o.cells id (record c { field = field }) })
unfolding set_field
set_field-found o id field c h = rw (h, set_field)

set_field-IsTyped :
    (o o' : Internals) (id : ℕ) (field : Option Pointer)
    → IsTyped o
    → set_field id field o ≡ ok o'
    → ((c : Cell) → find o.cells id ≡ some c → Fits field c)
    → IsTyped o'
set_field-IsTyped o o' id field t run fits = elim (Option-cases (find o.cells id)) [
  | inl missing ↦ absurd (not_fault o' (sym (set_field-missing o id field missing) ∙ run))
  | inr (c, there) ↦
      let same = ok-injective _ o' (sym (set_field-found o id field c there) ∙ run) in
      subst IsTyped same (set_cell-IsTyped o o.next id c field t there (fits c there))
]

construct-IsTyped :
    (o o' : Internals) (k : Kind) (id : ℕ)
    → IsTyped o
    → ((c : Cell) → find o.cells id ≡ some c → c.maker ≡ k)
    → construct k id o ≡ ok o'
    → IsTyped o'
unfolding construct
construct-IsTyped o o' k id t made run =
    set_field-IsTyped (record o { next = suc o.next }) o' id _ t run
      (λ c found p points.
        ap (λ (x : Option Pointer). kind_of x k) (sym points) ∙ sym (made c found))

new_cell-IsTyped :
    (o : Internals) (k : Kind) (id : ℕ)
    → IsTyped o
    → IsTyped (record o { cells = (id, record { maker = k; field = none }) ∷ o.cells })
new_cell-IsTyped o k id t j c p found points = elim (Bool-cases (id == j)) [
  | inl e ↦ cc (rw e at found)
  | inr e ↦ t j c p (rw e at found) points
]

new_object-IsTyped :
    (o o' : Internals) (k : Kind) (id : ℕ) → IsTyped o → new_object k id o ≡ ok o' → IsTyped o'
unfolding new_object
new_object-IsTyped o o' k id t run =
    construct-IsTyped (record o { cells = (id, record { maker = k; field = none }) ∷ o.cells }) o' k
      id (new_cell-IsTyped o k id t) (λ c found. ground (arith, eq→== id id refl)) run

del_ptr-IsTyped :
    (o o' : Internals) (k : Kind) (id : ℕ) (p : Option Pointer)
    → IsTyped o
    → del_ptr k id p o ≡ ok o'
    → IsTyped o'
unfolding del_ptr
del_ptr-IsTyped o o' k id none t run = subst IsTyped (ok-injective o o' run) t
del_ptr-IsTyped o o' k id (some p) t run = elim (Bool-cases (same_kind p.kind k)) [
  | inl e ↦ set_field-IsTyped o o' id none t (rw e at run) (λ c found q points. cc)
  | inr e ↦ absurd (not_fault o' (rw e at run))
]

close-IsTyped :
    (o o' : Internals) (k : Kind) (id : ℕ) → IsTyped o → close k id o ≡ ok o' → IsTyped o'
unfolding close get_internal get_field
close-IsTyped o o' k id t run = elim (Option-cases (find o.cells id)) [
  | inl missing ↦ absurd (not_fault o' (rw (missing, get_field) at run))
  | inr (c, there) ↦ del_ptr-IsTyped o o' k id c.field t (rw (there, get_field) at run)
]

Step-IsTyped : {o o' : Internals} → Step o o' → IsTyped o → IsTyped o'
Step-IsTyped {o} {o'} (step_new k id new run) t = new_object-IsTyped o o' k id t run
Step-IsTyped {o} {o'} (step_construct id c there run) t =
    construct-IsTyped o o' c.maker id t
      (λ d found. ap (λ (x : Option Cell). maker_of x c.maker) (sym found ∙ there)) run
Step-IsTyped {o} {o'} (step_close k id run) t = close-IsTyped o o' k id t run

Steps-IsTyped : {o o' : Internals} → Steps o o' → IsTyped o → IsTyped o'
Steps-IsTyped here t = t
Steps-IsTyped (next steps step) t = Step-IsTyped step (Steps-IsTyped steps t)

-- What a function of class `k` does on the object `id`: how it ends when it reads a pointer.
call_member-found :
    {A : Type 0} (k : Kind) (id : ℕ) (member : ℕ → Outcome A) (o : Internals) (c : Cell)
    (p : Pointer)
    → find o.cells id ≡ some c
    → c.field ≡ some p
    → call_member k id member o ≡ (if same_kind p.kind k then member p.address else fault)
unfolding call_member get_internal get_field dereference
call_member-found k id member o c p there points = rw (there, get_field) (rw points)

same_kind_refl : (k : Kind) → same_kind k k ≡ true
same_kind_refl buffer = refl
same_kind_refl service = refl

same_kind-false : (j k : Kind) → j ≢ k → same_kind j k ≡ false
same_kind-false buffer buffer ne = absurd (ne refl)
same_kind-false buffer service ne = refl
same_kind-false service buffer ne = refl
same_kind-false service service ne = absurd (ne refl)

-- After any `new`, `close`, and calls of constructors on objects of their own class: an object whose
-- internal field is not NULL has a pointer to its own class behind it. A function of this class that
-- calls a member gets that pointer, and the result is the member's; a function of the other class gets
-- it all the same, as nothing tests what it points to, and takes it for one of its own class.
pub call_member-kind :
    {A : Type 0} (o : Internals) (id : ℕ) (c : Cell) (p : Pointer) (k : Kind)
    (member : ℕ → Outcome A)
    → Steps no_internals o
    → find o.cells id ≡ some c
    → c.field ≡ some p
    → (p.kind ≡ c.maker)
      × (get_internal k id o ≡ ok (some p))
      × (k ≡ c.maker → call_member k id member o ≡ member p.address)
      × (k ≢ c.maker → call_member k id member o ≡ fault)
call_member-kind o id c p k member steps there points =
    let kind = Steps-IsTyped steps (λ id c p found h. cc) id c p there points in
    let run = call_member-found k id member o c p there points in
    (
      kind,
      unfold get_internal get_field in rw (there, get_field) (ap ok points),
      (λ own. run ∙ rw (ap (λ j. same_kind j k) (kind ∙ sym own) ∙ same_kind_refl k)),
      λ other. run ∙ rw (same_kind-false p.kind k (λ e. other (sym e ∙ kind))),
    )
