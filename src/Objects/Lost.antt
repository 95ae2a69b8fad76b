-- ===== src/Objects/Lost.antt =====
-- Pointers that are in no field any more: the constructor of src/buffer.cc, called on an object that has a
-- `Buffer` already, overwrites the pointer to it.
use v8h.Base.{
  ℕ, suc, ◌+◌, ◌<◌, ◌≡◌, ◌≢◌, refl, sym, ap, ◌∙◌, List, [], ◌∷◌, ◌++◌, true, false, some, none,
  arith, ◌==◌, Bool-cases, Option-cases, ==→eq, eq→==, ne→not-==, inl, inr, All, length,
}
use mathlib.Core.Path.{subst}
use v8h.Heap.{find, replace, delete}
use v8h.Objects.{overwritten}
use v8h.Objects.Pointers.{
  pointers, Descending, without, contains, Descending-without, contains-pointers, contains-bound,
  pointers-delete, some_eq,
}

abbrev pub withouts : List ℕ → List ℕ → List ℕ
withouts [] l = l
withouts (p ∷ lost) l = without (withouts lost l) p

pub withouts-append :
    (lost more l : List ℕ) → withouts (lost ++ more) l ≡ withouts lost (withouts more l)
withouts-append [] more l = refl
withouts-append (p ∷ lost) more l = ap (λ m. without m p) (withouts-append lost more l)

without_comm : (l : List ℕ) (p q : ℕ) → without (without l p) q ≡ without (without l q) p
without_comm [] p q = refl
without_comm (x ∷ l) p q = elim (Bool-cases (x == p)) [
  | inl a ↦ elim (Bool-cases (x == q)) [
    | inl b ↦ rw (a, b) (ap (without l) (sym (==→eq x q b) ∙ ==→eq x p a))
    | inr b ↦ rw (a, b, a)
  ]
  | inr a ↦ elim (Bool-cases (x == q)) [
    | inl b ↦ rw (a, b) refl
    | inr b ↦ rw (a, b, a) (ap (λ m. x ∷ m) (without_comm l p q))
  ]
]

pub withouts-without :
    (lost l : List ℕ) (p : ℕ) → withouts lost (without l p) ≡ without (withouts lost l) p
withouts-without [] l p = refl
withouts-without (q ∷ lost) l p =
    ap (λ m. without m q) (withouts-without lost l p) ∙ without_comm (withouts lost l) p q

pub Descending-withouts :
    (b : ℕ) (lost l : List ℕ) → Descending b l → Descending b (withouts lost l)
Descending-withouts b [] l d = d
Descending-withouts b (p ∷ lost) l d =
    Descending-without b (withouts lost l) p (Descending-withouts b lost l d)

contains-without : (l : List ℕ) (p q : ℕ) → contains (without l p) q ≡ true → contains l q ≡ true
contains-without [] p q h = h
contains-without (x ∷ l) p q h = elim (Bool-cases (x == q)) [
  | inl b ↦ rw b
  | inr b ↦ elim (Bool-cases (x == p)) [
    | inl a ↦ rw b (rw a at h)
    | inr a ↦ rw b (contains-without l p q (rw (a, b) at h))
  ]
]

pub contains-withouts :
    (lost l : List ℕ) (q : ℕ) → contains (withouts lost l) q ≡ true → contains l q ≡ true
contains-withouts [] l q h = h
contains-withouts (p ∷ lost) l q h =
    contains-withouts lost l q (contains-without (withouts lost l) p q h)

pub withouts-new :
    (n : ℕ) (lost l : List ℕ) → All (λ p. p < n) lost → withouts lost (n ∷ l) ≡ n ∷ withouts lost l
withouts-new n [] l h = refl
withouts-new n (p ∷ lost) l h =
    ap (λ m. without m p) (withouts-new n lost l h.1)
    ∙ rw (ne→not-== n p (λ (e : n ≡ p). omega (arith, h.0, e))) refl

pub length-without :
    (l : List ℕ) (p : ℕ) → contains l p ≡ true → length l ≡ suc (length (without l p))
length-without [] p h = absurd (cc)
length-without (x ∷ l) p h = elim (Bool-cases (x == p)) [
  | inl e ↦ rw e refl
  | inr e ↦ rw e (ap suc (length-without l p (rw e at h)))
]

module _ {A : Type 0} where
  pub length-delete :
      (l : List (ℕ × A)) (p : ℕ) (a : A) → find l p ≡ some a → length l ≡ suc (length (delete l p))
  length-delete [] p a h = absurd (cc)
  length-delete ((q, b) ∷ l) p a h = elim (Bool-cases (q == p)) [
    | inl e ↦ rw e refl
    | inr e ↦ rw e (ap suc (length-delete l p a (rw e at h)))
  ]

  pub length-replace : (l : List (ℕ × A)) (p : ℕ) (a : A) → length (replace l p a) ≡ length l
  length-replace [] p a = refl
  length-replace ((q, b) ∷ l) p a = elim (Bool-cases (q == p)) [
    | inl e ↦ rw e refl
    | inr e ↦ rw e (ap suc (length-replace l p a))
  ]

delete-absent : (fields : List (ℕ × ℕ)) (id : ℕ) → find fields id ≡ none → delete fields id ≡ fields
delete-absent [] id h = refl
delete-absent ((k, q) ∷ fields) id h = elim (Bool-cases (k == id)) [
  | inl e ↦ absurd (some_none q (rw e at h))
  | inr e ↦ rw e (ap (λ l. (k, q) ∷ l) (delete-absent fields id (rw e at h)))
]
  where
    some_none : (q : ℕ) → some q ≡ none → ⊥
    some_none q f = cc

-- An object is forgotten, with the pointer in its field.
pointers-delete_live :
    (fields : List (ℕ × ℕ)) (id p b : ℕ)
    → find fields id ≡ some p
    → p ≢ 0
    → Descending b (pointers fields)
    → pointers (delete fields id) ≡ without (pointers fields) p
pointers-delete_live [] id p b h ne d = refl
pointers-delete_live ((k, q) ∷ fields) id p b h ne d = elim (Bool-cases (k == id)) [
  | inl e ↦
      let same : q ≡ p = some_eq (rw e at h) in
      rw (e, ne→not-== q 0 (λ (z : q ≡ 0). ne (sym same ∙ z)), eq→== q p same)
  | inr e ↦
      let there : find fields id ≡ some p = rw e at h in
      elim (Bool-cases (q == 0)) [
        | inl z ↦ rw (e, z) (pointers-delete_live fields id p b there ne (rw z at d))
        | inr z ↦
            let d' : (q < b) × Descending q (pointers fields) = rw z at d in
            let less =
              contains-bound q (pointers fields) p d'.1 (contains-pointers fields id p there ne) in
            rw (e, z, ne→not-== q p (λ (y : q ≡ p). omega (arith, less, y)))
              (ap (λ l. q ∷ l) (pointers-delete_live fields id p q there ne d'.1))
      ]
]

-- What is left of the pointers when an object's field is overwritten, and these are lost
pub record Overwrites (fields : List (ℕ × ℕ)) (id b : ℕ) (lost : List ℕ) : Type 0 where
  pub left : pointers (delete fields id) ≡ withouts lost (pointers fields)
  pub below : All (λ p. p < b) lost
  pub counted : length (pointers fields) ≡ length (pointers (delete fields id)) + length lost

module _ (fields : List (ℕ × ℕ)) (id : ℕ) where
  overwritten_absent : find fields id ≡ none → overwritten fields id ≡ []
  overwritten_absent h = rw (h, overwritten) refl

  overwritten_null :
      (p : ℕ) → find fields id ≡ some p → (p == 0) ≡ true → overwritten fields id ≡ []
  overwritten_null p h z = rw (h, z, overwritten) refl

  overwritten_some :
      (p : ℕ) → find fields id ≡ some p → (p == 0) ≡ false → overwritten fields id ≡ p ∷ []
  overwritten_some p h z = rw (h, z, overwritten) refl

  pub delete-Overwrites :
      (b : ℕ) → Descending b (pointers fields) → Overwrites fields id b (overwritten fields id)
  delete-Overwrites b d = elim (Option-cases (find fields id)) [
    | inl absent ↦
        let same = ap pointers (delete-absent fields id absent) in
        subst (Overwrites fields id b) (sym (overwritten_absent absent))
          (record { left = same; below = tt; counted = omega (arith, ap length same) })
    | inr (p, field) ↦ elim (Bool-cases (p == 0)) [
      | inl z ↦
          let same = pointers-delete fields id (field ∙ ap (λ (q : ℕ). some q) (==→eq p 0 z)) in
          subst (Overwrites fields id b) (sym (overwritten_null p field z))
            (record { left = same; below = tt; counted = omega (arith, ap length same) })
      | inr z ↦
          let ne : p ≢ 0 = λ e. ground (arith, z, e) in
          let same = pointers-delete_live fields id p b field ne d in
          let there = contains-pointers fields id p field ne in
          subst (Overwrites fields id b) (sym (overwritten_some p field z)) (record {
            left = same;
            below = (contains-bound b (pointers fields) p d there, tt);
            counted = omega (arith, ap length same, length-without (pointers fields) p there);
          })
    ]
  ]
