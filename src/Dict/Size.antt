-- ===== src/Dict/Size.antt =====
-- `dict_real_size` of storage/dict.c, compiled for 64 bits: the number of buckets for a requested
-- size. The shifts smear the highest bit over all the bits below it.
pub mod Bounds
pub mod Powers
use xfire_db.Base.{ℕ, ◌+◌, ◌-◌, ◌^◌, bit_or, leb, if◌then◌else◌, u64, shr, long_max}

-- `size |= size >> k`
unfoldable pub smear_by : ℕ → ℕ → ℕ
smear_by k size = bit_or size (shr size k)

unfoldable pub smear : ℕ → ℕ
smear size = smear_by 32 (smear_by 16 (smear_by 8 (smear_by 4 (smear_by 2 (smear_by 1 size)))))

unfoldable pub real_size : ℕ → ℕ
real_size size = if leb long_max size then long_max else u64 (smear (u64 (size + 2 ^ 64 - 1)) + 1)
