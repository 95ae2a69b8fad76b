-- ===== src/Objects/Owned.antt =====
-- Who owns the `Buffer`s of src/buffer.cc: each one the object whose field points to it.
use v8h.Base.{
  ℕ, suc, ◌+◌, ◌++◌, All, length, length-append, false, ◌%◌, ◌<◌, ◌≡◌, ◌≢◌, refl, sym, ap, ◌∙◌,
  List, [], ◌∷◌, Option-cases, some, none, arith, ◌==◌, Bool-cases, ==→eq, ne→not-==, inl, inr,
  size_mod,
}
use mathlib.Core.Path.{subst}
use v8h.Base.Outcome.{Outcome, ok, fault, spin, ◌>>=◌}
use v8h.Buffer
use v8h.Buffer.{Buffer}
use v8h.Buffer.Valid.{IsValid, new-IsValid}
use v8h.Buffer.Consume.{destroy-zero}
use v8h.Heap.{find, replace, delete}
use v8h.Heap.Laws.{addresses, addresses-replace}
use v8h.Objects.{
  Objects, no_objects, get_ptr, set_ptr, delete_buffer, del_field, construct, close_object, collect,
  call_member, adjust, Step, step_construct, overwritten, step_member, step_close, step_collect,
  Steps, here, next,
}
use v8h.Objects.Lost.{
  withouts, withouts-append, withouts-without, withouts-new, Descending-withouts, contains-withouts,
  length-without, length-delete, length-replace, delete-Overwrites,
}
use v8h.Objects.Pointers.{
  pointers, Descending, without, contains, total, addresses-delete, Descending-without,
  contains-pointers, pointers-replace, find-replace, pointers-delete, find-contains, Each,
  Each-find, Each-delete, Each-replace, total-delete, total-replace, adjust_lem,
}

-- The allocated `Buffer`s are those that fields point to, each by one field, but for the pointers that are
-- lost, of which there are so many; all are valid; and what V8 has been told is what they have reported.
pub record IsOwned (lost : List ℕ) (o : Objects) : Type 0 where
  pub same : pointers o.fields ≡ withouts lost (addresses o.live)
  pub counted : length o.live ≡ length (pointers o.fields) + length lost
  pub below : All (λ p. p < o.next) lost
  pub ordered : Descending o.next (addresses o.live)
  pub positive : 0 < o.next
  pub valid : Each IsValid o.live
  pub accounted : o.external ≡ total o.live % size_mod

no_objects-IsOwned : IsOwned [] no_objects
no_objects-IsOwned = record {
  same = refl;
  counted = refl;
  below = tt;
  ordered = tt;
  positive = omega arith;
  valid = tt;
  accounted = refl;
}

pointers-Descending :
    (lost : List ℕ) (o : Objects) → IsOwned lost o → Descending o.next (pointers o.fields)
pointers-Descending lost o i =
    subst (Descending o.next) (sym i.same)
      (Descending-withouts o.next lost (addresses o.live) i.ordered)

All-append :
    (n : ℕ) (l more : List ℕ)
    → All (λ p. p < n) l
    → All (λ p. p < n) more
    → All (λ p. p < n + 1) (l ++ more)
All-append n [] [] a b = tt
All-append n [] (p ∷ more) a b = (omega (arith, b.0), All-append n [] more tt b.1)
All-append n (p ∷ l) more a b = (omega (arith, a.0), All-append n l more a.1 b)

construct-IsOwned :
    (fresh : ℕ → ℕ) (reserve id : ℕ) (lost : List ℕ) (o : Objects)
    → reserve < size_mod
    → IsOwned lost o
    → IsOwned (overwritten o.fields id ++ lost) (construct fresh reserve id o)
unfolding construct
construct-IsOwned fresh reserve id lost o small i =
    let more = overwritten o.fields id in
    let w = delete-Overwrites o.fields id o.next (pointers-Descending lost o i) in
    let first : (o.next == 0) ≡ false =
      ne→not-== o.next 0 (λ (z : o.next ≡ 0). omega (arith, i.positive, z)) in
    record {
      same = rw first (
          ap (λ l. o.next ∷ l) (w.left ∙ ap (withouts more) i.same)
          ∙ sym (withouts-new o.next more (withouts lost (addresses o.live)) w.below)
          ∙ ap (withouts more) (sym (withouts-new o.next lost (addresses o.live) i.below))
          ∙ sym (withouts-append more lost (o.next ∷ addresses o.live)));
      counted = rw first (omega (arith, i.counted, w.counted, length-append more lost));
      below =
          subst (λ n. All (λ p. p < n) (more ++ lost)) plus_one
            (All-append o.next more lost w.below i.below);
      ordered = (omega arith, i.ordered);
      positive = omega arith;
      valid = ((new-IsValid fresh reserve small).0, i.valid);
      accounted = omega (arith, i.accounted);
    }
  where
    plus_one : o.next + 1 ≡ suc o.next
    plus_one = omega arith

module _ (lost : List ℕ) (o : Objects) (i : IsOwned lost o) (id p : ℕ)
    (field : find o.fields id ≡ some p) where
  -- the pointer in a field is no dangling one
  pointed : p ≢ 0 → (b : Buffer) × (find o.live p ≡ some b)
  pointed ne = find-contains o.live p (
      contains-withouts lost (addresses o.live) p
        (sym (ap (λ l. contains l p) i.same) ∙ contains-pointers o.fields id p field ne))

  get_ptr-field : get_ptr id o ≡ ok p
  unfolding get_ptr
  get_ptr-field = rw (field, get_ptr)

  -- what stands when the object's `Buffer` has been deleted
  without_buffer : Buffer → Objects
  without_buffer b = record o {
    fields = replace o.fields id 0;
    live = delete o.live p;
    external = adjust o.external b.reported (Buffer.destroy b);
  }

  delete_buffer-found :
      (b : Buffer)
      → find o.live p ≡ some b
      → delete_buffer p o
        ≡ ok (record o {
          live = delete o.live p;
          external = adjust o.external b.reported (Buffer.destroy b);
        })
  unfolding delete_buffer
  delete_buffer-found b found = rw (found, delete_buffer)

  cleared : p ≢ 0 → pointers (replace o.fields id 0) ≡ without (pointers o.fields) p
  cleared ne = pointers-replace o.fields id p o.next field ne (pointers-Descending lost o i)

  without_buffer-IsOwned :
      (b : Buffer) → p ≢ 0 → find o.live p ≡ some b → IsOwned lost (without_buffer b)
  unfolding without_buffer
  without_buffer-IsOwned b ne found = record {
    same =
        cleared ne
        ∙ ap (λ l. without l p) i.same
        ∙ sym (withouts-without lost (addresses o.live) p)
        ∙ ap (withouts lost) (sym (addresses-delete o.live p));
    counted = omega (
      arith,
      i.counted,
      length-delete o.live p b found,
      length-without (pointers o.fields) p (contains-pointers o.fields id p field ne),
      ap length (cleared ne),
    );
    below = i.below;
    ordered =
        subst (Descending o.next) (sym (addresses-delete o.live p))
          (Descending-without o.next (addresses o.live) p i.ordered);
    positive = i.positive;
    valid = Each-delete IsValid o.live p i.valid;
    accounted =
        adjust_lem o.external (total o.live) (total (delete o.live p)) b.reported (Buffer.destroy b)
          i.accounted
          (omega (
            arith,
            total-delete o.live p b found,
            destroy-zero (Each-find IsValid o.live p b i.valid found),
          ));
  }

  del_field-IsOwned :
      (o' : Objects) × (del_field id o ≡ ok o') × IsOwned lost o' × (find o'.fields id ≡ some 0)
  unfolding del_field set_ptr
  del_field-IsOwned = elim (Bool-cases (p == 0)) [
    | inl e ↦
        let null = ==→eq p 0 e in (o, rw (get_ptr-field, e), i, field ∙ ap (λ (q : ℕ). some q) null)
    | inr e ↦
        let ne : p ≢ 0 = λ z. ground (arith, e, z) in
        let (b, found) = pointed ne in
        (
          without_buffer b,
          unfold without_buffer in rw (get_ptr-field, e, delete_buffer-found b found),
          without_buffer-IsOwned b ne found,
          unfold without_buffer in find-replace o.fields id p field,
        )
  ]

not_fault : (o : Objects) → ◌≢◌ {A = Outcome Objects} fault (ok o)
not_fault o h = cc

same_result : {o o' : Objects} → ◌≡◌ {A = Outcome Objects} (ok o) (ok o') → o ≡ o'
same_result h = cc

get_ptr-fault : (id : ℕ) (o : Objects) → find o.fields id ≡ none → get_ptr id o ≡ fault
unfolding get_ptr
get_ptr-fault id o h = rw (h, get_ptr)

del_field-keeps :
    (lost : List ℕ) (id : ℕ) (o o' : Objects)
    → IsOwned lost o
    → del_field id o ≡ ok o'
    → IsOwned lost o' × (find o'.fields id ≡ some 0)
unfolding del_field
del_field-keeps lost id o o' i h = elim (Option-cases (find o.fields id)) [
  | inl absent ↦ absurd (not_fault o' (rw (get_ptr-fault id o absent) at h))
  | inr (p, field) ↦
      let (o₁, run, owned, null) = del_field-IsOwned lost o i id p field in
      subst (λ x. IsOwned lost x × (find x.fields id ≡ some 0)) (same_result (sym run ∙ h))
        (owned, null)
]

collected :
    (lost : List ℕ) (id : ℕ) (o' : Objects) (m : Outcome Objects)
    → ((o₁ : Objects) → m ≡ ok o₁ → IsOwned lost o₁ × (find o₁.fields id ≡ some 0))
    → (m >>= λ o₁. ok (record o₁ { fields = delete o₁.fields id })) ≡ ok o'
    → IsOwned lost o'
collected lost id o' fault owned h = absurd (not_fault o' h)
collected lost id o' spin owned h = absurd (cc)
collected lost id o' (ok o₁) owned h =
    let (i, null) = owned o₁ refl in
    subst (λ (x : Objects). IsOwned lost x) (same_result h)
      (record {
        same = pointers-delete o₁.fields id null ∙ i.same;
        counted = omega (arith, i.counted, ap length (pointers-delete o₁.fields id null));
        below = i.below;
        ordered = i.ordered;
        positive = i.positive;
        valid = i.valid;
        accounted = i.accounted;
      })

module _ (lost : List ℕ) (o o' : Objects) (i : IsOwned lost o) (p : ℕ) (b : Buffer)
    (found : find o.live p ≡ some b) where
  changed : Buffer → Objects
  changed b' = record o {
    live = replace o.live p b';
    external = adjust o.external b.reported b'.reported;
  }

  changed-IsOwned : (b' : Buffer) → IsValid b' → IsOwned lost (changed b')
  unfolding changed
  changed-IsOwned b' valid = record {
    same = i.same ∙ ap (withouts lost) (sym (addresses-replace o.live p b'));
    counted = omega (arith, i.counted, length-replace o.live p b');
    below = i.below;
    ordered = subst (Descending o.next) (sym (addresses-replace o.live p b')) i.ordered;
    positive = i.positive;
    valid = Each-replace IsValid o.live p b' valid i.valid;
    accounted =
        adjust_lem o.external (total o.live) (total (replace o.live p b')) b.reported b'.reported
          i.accounted (total-replace o.live p b b' found);
  }

  after_member :
      (m : Outcome Buffer)
      → ((b' : Buffer) → m ≡ ok b' → IsValid b')
      → (m >>= λ b'. ok (changed b')) ≡ ok o'
      → IsOwned lost o'
  after_member fault valid h = absurd (not_fault o' h)
  after_member spin valid h = absurd (cc)
  after_member (ok b') valid h =
      subst (λ (x : Objects). IsOwned lost x) (same_result h) (changed-IsOwned b' (valid b' refl))

call_member-keeps :
    (lost : List ℕ) (id : ℕ) (f : Buffer → Outcome Buffer) (o o' : Objects)
    → ((b b' : Buffer) → IsValid b → f b ≡ ok b' → IsValid b')
    → IsOwned lost o
    → call_member id f o ≡ ok o'
    → IsOwned lost o'
unfolding call_member changed
call_member-keeps lost id f o o' keeps i h = elim (Option-cases (find o.fields id)) [
  | inl absent ↦ absurd (not_fault o' (rw (get_ptr-fault id o absent) at h))
  | inr (p, field) ↦ elim (Option-cases (find o.live p)) [
    | inl dangling ↦ absurd (not_fault o' (rw (get_ptr-field lost o i id p field, dangling) at h))
    | inr (b, found) ↦
        after_member lost o o' i p b found (f b)
          (λ b' run. keeps b b' (Each-find IsValid o.live p b i.valid found) run)
          (rw (get_ptr-field lost o i id p field, found) at h)
  ]
]

module _ (fresh : ℕ → ℕ) where
  Step-IsOwned :
      (lost : List ℕ) {more : List ℕ} {o o' : Objects}
      → Step fresh o more o'
      → IsOwned lost o
      → IsOwned (more ++ lost) o'
  Step-IsOwned lost (step_construct o reserve id small) i =
      construct-IsOwned fresh reserve id lost o small i
  Step-IsOwned lost {o = o} {o' = o'} (step_member id f keeps h) i =
      call_member-keeps lost id f o o' keeps i h
  Step-IsOwned lost {o = o} {o' = o'} (step_close id h) i =
      (del_field-keeps lost id o o' i (unfold close_object in h)).0
  Step-IsOwned lost {o = o} {o' = o'} (step_collect id h) i =
      collected lost id o' (del_field id o) (λ o₁ run. del_field-keeps lost id o o₁ i run)
        (unfold collect in h)

  Steps-IsOwned :
      {start o : Objects} {lost : List ℕ}
      → Steps fresh start lost o
      → IsOwned [] start
      → IsOwned lost o
  Steps-IsOwned here i = i
  Steps-IsOwned (next {lost = lost} steps step) i = Step-IsOwned lost step (Steps-IsOwned steps i)

  -- When all the fields are NULL or their objects are gone, and every call of a member has kept its buffer
  -- valid, then exactly as many `Buffer`s are left as the constructor was called on objects that had one;
  -- they are never freed. What V8 counts as external memory is theirs, modulo 2 ^ 64.
  pub leak_lem :
      {o : Objects} {lost : List ℕ}
      → Steps fresh no_objects lost o
      → pointers o.fields ≡ []
      → (length o.live ≡ length lost) × (o.external ≡ total o.live % size_mod)
  leak_lem {o} steps null =
      let i = Steps-IsOwned steps no_objects-IsOwned in
      (omega (arith, i.counted, ap length null), i.accounted)
