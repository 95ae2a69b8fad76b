-- ===== src/Service/Keys.antt =====
-- The maps of src/service.cc from descriptors to callbacks.
use v8h.Base.{
  ℕ, suc, ◌≡◌, refl, List, [], ◌∷◌, true, false, arith, ◌==◌, if◌then◌else◌, length, some, none,
}
use v8h.Service.{has, get, put, remove}

module _ {A : Type 0} where
  -- each key once
  abbrev pub Distinct : List (ℕ × A) → Type 0
  Distinct [] = Unit
  Distinct ((k, a) ∷ m) = (has m k ≡ false) × Distinct m

  pub has-put :
      (m : List (ℕ × A)) (k : ℕ) (x : A) (j : ℕ)
      → has (put m k x) j ≡ (if k == j then true else has m j)
  has-put [] k x j = refl
  has-put ((i, a) ∷ m) k x j = ground (arith, has-put m k x j)

  pub get-put :
      (m : List (ℕ × A)) (k : ℕ) (x : A) (j : ℕ)
      → get (put m k x) j ≡ (if k == j then some x else get m j)
  get-put [] k x j = refl
  get-put ((i, a) ∷ m) k x j = ground (arith, get-put m k x j)

  pub length-put :
      (m : List (ℕ × A)) (k : ℕ) (x : A)
      → length (put m k x) ≡ (if has m k then length m else suc (length m))
  length-put [] k x = refl
  length-put ((i, a) ∷ m) k x = ground (arith, length-put m k x)

  pub Distinct-put : (m : List (ℕ × A)) (k : ℕ) (x : A) → Distinct m → Distinct (put m k x)
  Distinct-put [] k x d = (refl, tt)
  Distinct-put ((i, a) ∷ m) k x d = ground (arith, Distinct-put m k x d.1, has-put m k x i)

  has_of_eq : (m : List (ℕ × A)) (i j : ℕ) → has m i ≡ false → i ≡ j → has m j ≡ false
  has_of_eq m i j h e = rw (← e) h

  pub has-remove :
      (m : List (ℕ × A)) (k : ℕ) (j : ℕ)
      → Distinct m
      → has (remove m k) j ≡ (if k == j then false else has m j)
  has-remove [] k j d = ground arith
  has-remove ((i, a) ∷ m) k j d = ground (arith, has-remove m k j d.1, has_of_eq m i j d.0)

  pub get_of_has : (m : List (ℕ × A)) (k : ℕ) → has m k ≡ false → get m k ≡ none
  get_of_has [] k h = refl
  get_of_has ((i, a) ∷ m) k h = ground (arith, get_of_has m k)

  get_of_eq : (m : List (ℕ × A)) (i j : ℕ) → has m i ≡ false → i ≡ j → get m j ≡ none
  get_of_eq m i j h e = get_of_has m j (has_of_eq m i j h e)

  pub get-remove :
      (m : List (ℕ × A)) (k : ℕ) (j : ℕ)
      → Distinct m
      → get (remove m k) j ≡ (if k == j then none else get m j)
  get-remove [] k j d = ground arith
  get-remove ((i, a) ∷ m) k j d = ground (arith, get-remove m k j d.1, get_of_eq m i j d.0)

  pub length-remove :
      (m : List (ℕ × A)) (k : ℕ) → has m k ≡ true → suc (length (remove m k)) ≡ length m
  length-remove [] k h = cc
  length-remove ((i, a) ∷ m) k h = ground (arith, length-remove m k)

  pub Distinct-remove : (m : List (ℕ × A)) (k : ℕ) → Distinct m → Distinct (remove m k)
  Distinct-remove [] k d = tt
  Distinct-remove ((i, a) ∷ m) k d = ground (arith, Distinct-remove m k d.1, has-remove m k i d.1)
