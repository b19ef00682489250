-- ===== src/Base/Int.antt =====
-- C's signed integers, where a sign matters. `negsuc n` is -(n + 1).
use xfire_db.Base.Tests.{ltb, if◌then◌else◌}
use xfire_db.Base.Word.{u32}
use Prim.Native.Nat.{ℕ, suc, ◌+◌, ◌-◌, ◌^◌, ◌<◌}
use mathlib.Core.Path.{◌≡◌}
use native.Mathlib.Omega.{arith}
use mathlib.Core.Bool.{Bool, true, false}

pub data ℤ : Type 0 where
  pos : ℕ → ℤ
  negsuc : ℕ → ℤ

-- `z + n` for a natural `n`
unfoldable pub add_ℕ : ℤ → ℕ → ℤ
add_ℕ (pos m) n = pos (m + n)
add_ℕ (negsuc m) n = if ltb m n then pos (n - suc m) else negsuc (m - n)

abbrev pub is_negative : ℤ → Bool
is_negative (pos n) = false
is_negative (negsuc n) = true

-- the value of a C `int` that holds an unsigned number
unfoldable pub int_of : ℕ → ℤ
int_of n = if ltb (u32 n) (2 ^ 31) then pos (u32 n) else negsuc (2 ^ 32 - 1 - u32 n)

pub int_of-lt : (n : ℕ) → n < 2 ^ 31 → int_of n ≡ pos n
unfolding int_of
int_of-lt n h = ground arith
