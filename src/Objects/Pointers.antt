-- ===== src/Objects/Pointers.antt =====
-- Lists of pointers and of what they point to, for the objects of src/buffer.cc.
use v8h.Base.{
  ℕ, ◌+◌, ◌%◌, ◌<◌, ◌≤◌, ◌≡◌, ◌≢◌, refl, sym, ap, ◌∙◌, List, [], ◌∷◌, Bool, true, false, some,
  arith, ◌==◌, Bool-cases, ==→eq, eq→==, ne→not-==, inl, inr, if◌then◌else◌, All, size_mod,
}
use mathlib.Core.Path.{subst}
use v8h.Buffer.{Buffer}
use v8h.Heap.{find, replace, delete}
use v8h.Heap.Laws.{addresses}
use v8h.Objects.{adjust}

-- the pointers in the fields that are not NULL
abbrev pub pointers : List (ℕ × ℕ) → List ℕ
pointers [] = []
pointers ((id, p) ∷ fields) = if p == 0 then pointers fields else p ∷ pointers fields

-- each less than the one before it
abbrev pub Descending : ℕ → List ℕ → Type 0
Descending bound [] = Unit
Descending bound (p ∷ l) = (p < bound) × Descending p l

abbrev pub without : List ℕ → ℕ → List ℕ
without [] p = []
without (q ∷ l) p = if q == p then l else q ∷ without l p

abbrev pub contains : List ℕ → ℕ → Bool
contains [] p = false
contains (q ∷ l) p = if q == p then true else contains l p

-- what the objects have reported in all
abbrev pub total : List (ℕ × Buffer) → ℕ
total [] = 0
total ((p, b) ∷ live) = b.reported + total live

pub addresses-delete :
    {A : Type 0} (l : List (ℕ × A)) (p : ℕ) → addresses (delete l p) ≡ without (addresses l) p
addresses-delete [] p = refl
addresses-delete ((q, a) ∷ l) p = elim (Bool-cases (q == p)) [
  | inl e ↦ rw e
  | inr e ↦ rw e (ap (λ m. q ∷ m) (addresses-delete l p))
]

pub Descending-weaken : (a b : ℕ) (l : List ℕ) → a ≤ b → Descending a l → Descending b l
Descending-weaken a b [] h d = tt
Descending-weaken a b (p ∷ l) h d = (omega (arith, d.0), d.1)

pub Descending-without : (b : ℕ) (l : List ℕ) (p : ℕ) → Descending b l → Descending b (without l p)
Descending-without b [] p d = tt
Descending-without b (q ∷ l) p d = elim (Bool-cases (q == p)) [
  | inl e ↦ rw e (Descending-weaken q b l (omega (arith, d.0)) d.1)
  | inr e ↦ rw e (d.0, Descending-without q l p d.1)
]

pub some_eq : {A : Type 0} {a b : A} → some a ≡ some b → a ≡ b
some_eq h = cc

-- A pointer in a field is one of the pointers.
pub contains-pointers :
    (fields : List (ℕ × ℕ)) (id p : ℕ)
    → find fields id ≡ some p
    → p ≢ 0
    → contains (pointers fields) p ≡ true
contains-pointers [] id p h ne = absurd (cc)
contains-pointers ((k, q) ∷ fields) id p h ne = elim (Bool-cases (k == id)) [
  | inl e ↦
      let same : q ≡ p = some_eq (rw e at h) in
      rw (ne→not-== q 0 (λ (z : q ≡ 0). ne (sym same ∙ z)), eq→== q p same)
  | inr e ↦
      let ih = contains-pointers fields id p (rw e at h) ne in
      elim (Bool-cases (q == 0)) [
        | inl z ↦ rw z ih
        | inr z ↦ elim (Bool-cases (q == p)) [ inl y ↦ rw (z, y) | inr y ↦ rw (z, y) ih ]
      ]
]

pub contains-bound : (b : ℕ) (l : List ℕ) (p : ℕ) → Descending b l → contains l p ≡ true → p < b
contains-bound b [] p d h = absurd (cc)
contains-bound b (q ∷ l) p d h = elim (Bool-cases (q == p)) [
  | inl e ↦ omega (arith, d.0, ==→eq q p e)
  | inr e ↦ omega (arith, d.0, contains-bound q l p d.1 (rw e at h))
]

pub pointers-replace :
    (fields : List (ℕ × ℕ)) (id p b : ℕ)
    → find fields id ≡ some p
    → p ≢ 0
    → Descending b (pointers fields)
    → pointers (replace fields id 0) ≡ without (pointers fields) p
pointers-replace [] id p b h ne d = refl
pointers-replace ((k, q) ∷ fields) id p b h ne d = elim (Bool-cases (k == id)) [
  | inl e ↦
      let same : q ≡ p = some_eq (rw e at h) in
      rw (e, ne→not-== q 0 (λ (z : q ≡ 0). ne (sym same ∙ z)), eq→== q p same)
  | inr e ↦
      let there : find fields id ≡ some p = rw e at h in
      elim (Bool-cases (q == 0)) [
        | inl z ↦ rw (e, z) (pointers-replace fields id p b there ne (rw z at d))
        | inr z ↦
            let d' : (q < b) × Descending q (pointers fields) = rw z at d in
            let less =
              contains-bound q (pointers fields) p d'.1 (contains-pointers fields id p there ne) in
            rw (e, z, ne→not-== q p (λ (y : q ≡ p). omega (arith, less, y)))
              (ap (λ l. q ∷ l) (pointers-replace fields id p q there ne d'.1))
      ]
]

-- The field is NULL then, and an object with such a field leaves no pointer.
pub find-replace :
    (fields : List (ℕ × ℕ)) (id p : ℕ)
    → find fields id ≡ some p
    → find (replace fields id 0) id ≡ some 0
find-replace [] id p h = absurd (cc)
find-replace ((k, q) ∷ fields) id p h = elim (Bool-cases (k == id)) [
  | inl e ↦ rw (e, e)
  | inr e ↦ rw (e, e) (find-replace fields id p (rw e at h))
]

pub pointers-delete :
    (fields : List (ℕ × ℕ)) (id : ℕ)
    → find fields id ≡ some 0
    → pointers (delete fields id) ≡ pointers fields
pointers-delete [] id h = refl
pointers-delete ((k, q) ∷ fields) id h = elim (Bool-cases (k == id)) [
  | inl e ↦ let null : q ≡ 0 = some_eq (rw e at h) in rw (e, eq→== q 0 null)
  | inr e ↦
      let ih = pointers-delete fields id (rw e at h) in
      elim (Bool-cases (q == 0)) [ inl z ↦ rw (e, z) ih | inr z ↦ rw (e, z) (ap (λ l. q ∷ l) ih) ]
]

module _ {A : Type 0} where
  pub find-contains :
      (l : List (ℕ × A)) (p : ℕ) → contains (addresses l) p ≡ true → (a : A) × (find l p ≡ some a)
  find-contains [] p h = absurd (cc)
  find-contains ((q, a) ∷ l) p h = elim (Bool-cases (q == p)) [
    | inl e ↦ (a, rw e)
    | inr e ↦ let (a', found) = find-contains l p (rw e at h) in (a', rw e found)
  ]

  module _ (P : A → Type 0) where
    abbrev pub Each : List (ℕ × A) → Type 0
    Each l = All (λ (x : ℕ × A). P x.1) l

    pub Each-find : (l : List (ℕ × A)) (p : ℕ) (a : A) → Each l → find l p ≡ some a → P a
    Each-find [] p a each h = absurd (cc)
    Each-find ((q, b) ∷ l) p a each h = elim (Bool-cases (q == p)) [
      | inl e ↦ let same : b ≡ a = some_eq (rw e at h) in subst P same each.0
      | inr e ↦ Each-find l p a each.1 (rw e at h)
    ]

    pub Each-delete : (l : List (ℕ × A)) (p : ℕ) → Each l → Each (delete l p)
    Each-delete [] p each = tt
    Each-delete ((q, b) ∷ l) p each = elim (Bool-cases (q == p)) [
      | inl e ↦ rw e each.1
      | inr e ↦ rw e (each.0, Each-delete l p each.1)
    ]

    pub Each-replace : (l : List (ℕ × A)) (p : ℕ) (a : A) → P a → Each l → Each (replace l p a)
    Each-replace [] p a new each = tt
    Each-replace ((q, b) ∷ l) p a new each = elim (Bool-cases (q == p)) [
      | inl e ↦ rw e (new, each.1)
      | inr e ↦ rw e (each.0, Each-replace l p a new each.1)
    ]

pub total-delete :
    (l : List (ℕ × Buffer)) (p : ℕ) (b : Buffer)
    → find l p ≡ some b
    → total l ≡ total (delete l p) + b.reported
total-delete [] p b h = absurd (cc)
total-delete ((q, a) ∷ l) p b h = elim (Bool-cases (q == p)) [
  | inl e ↦
      let same : a ≡ b = some_eq (rw e at h) in
      rw e (omega (arith, ap (λ (x : Buffer). x.reported) same))
  | inr e ↦ rw e (omega (arith, total-delete l p b (rw e at h)))
]

pub total-replace :
    (l : List (ℕ × Buffer)) (p : ℕ) (b b' : Buffer)
    → find l p ≡ some b
    → total (replace l p b') + b.reported ≡ total l + b'.reported
total-replace [] p b b' h = absurd (cc)
total-replace ((q, a) ∷ l) p b b' h = elim (Bool-cases (q == p)) [
  | inl e ↦
      let same : a ≡ b = some_eq (rw e at h) in
      rw e (omega (arith, ap (λ (x : Buffer). x.reported) same))
  | inr e ↦ rw e (omega (arith, total-replace l p b b' (rw e at h)))
]

pub adjust_lem :
    (external old new before after : ℕ)
    → external ≡ old % size_mod
    → new + before ≡ old + after
    → adjust external before after ≡ new % size_mod
adjust_lem external old new before after h e = omega (arith, h, e)
