-- ===== src/Base/Word.antt =====
-- Machine words: casts to a width, shifts, and the widths' bounds.
use Prim.Native.Nat.{ℕ, ◌-◌, ◌*◌, ◌/◌, ◌%◌, ◌^◌}

abbrev pub u32 : ℕ → ℕ
u32 n = n % 2 ^ 32

abbrev pub u64 : ℕ → ℕ
u64 n = n % 2 ^ 64

abbrev pub shl : ℕ → ℕ → ℕ
shl n k = n * 2 ^ k

abbrev pub shr : ℕ → ℕ → ℕ
shr n k = n / 2 ^ k

abbrev pub long_max : ℕ
long_max = 2 ^ 63 - 1
