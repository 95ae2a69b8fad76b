-- ===== src/Base/Outcome.antt =====
-- What a piece of C code does: it returns, it does something undefined, or it loops on.

-- `fault`: a read or write outside the allocated memory, through a dangling pointer or through
-- NULL. `spin`: a loop has used up the rounds that the model gives it.
pub data Outcome {ℓ} (A : Type ℓ) : Type ℓ where
  fault : Outcome A
  spin : Outcome A
  ok : A → Outcome A

-- Code that goes on with the result of other code.
infixl 5 ◌>>=◌
abbrev pub ◌>>=◌ {ℓ₁ ℓ₂} : {S : Type ℓ₁} {T : Type ℓ₂} → Outcome S → (S → Outcome T) → Outcome T
fault >>= next = fault
spin >>= next = spin
ok s >>= next = next s
