-- ===== src/Base/Runs.antt =====
-- Code with undefined behaviour: a run ends in a value, or in a fault (an access out of bounds,
-- a null or dangling pointer, a failed `assert`).
use mathlib.Core.Path.{◌≡◌}

pub data Run {ℓ} (A : Type ℓ) : Type ℓ where
  ok : A → Run A
  fault : Run A

infixl 5 ◌>>=◌
abbrev pub ◌>>=◌ {ℓ ℓ'} : {A : Type ℓ} {C : Type ℓ'} (run : Run A) (next : A → Run C) → Run C
fault >>= next = fault
ok result >>= next = next result

-- The run ends without a fault, in a value that satisfies `P`.
abbrev pub Returns {ℓ ℓ'} : {A : Type ℓ} (run : Run A) (P : A → Type ℓ') → Type (ℓ ⊔ ℓ')
Returns {A} run P = (result : A) × (run ≡ ok result) × P result
