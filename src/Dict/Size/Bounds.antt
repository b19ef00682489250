-- ===== src/Dict/Size/Bounds.antt =====
-- How large the size of `dict_real_size` is.
use xfire_db.Base.{ℕ, ◌+◌, ◌-◌, ◌^◌, ◌≤◌, ◌<◌, inl, inr, arith, leb, Bool-cases, u64, shr, long_max}
use native.Mathlib.Nat.{div-le_self}
use xfire_db.Base.Bits.{bit_or-lt-pow, le-bit_or}
use xfire_db.Dict.Size.{smear_by, smear, real_size}

-- one smearing keeps a number below 2 ^ w, and does not make it smaller
abbrev Grows : ℕ → ℕ → ℕ → Type 0
Grows w x y = (x ≤ y) × (y < 2 ^ w)

smear_by-Grows : (w k x y : ℕ) → Grows w x y → Grows w x (smear_by k y)
unfolding smear_by
smear_by-Grows w k x y (le, lt) = (
  omega (arith, le-bit_or y (shr y k)),
  bit_or-lt-pow w y (shr y k) lt (omega (arith, div-le_self y (2 ^ k))),
)

smear-Grows : (w x : ℕ) → x < 2 ^ w → Grows w x (smear x)
unfolding smear
smear-Grows w x h = smear_by-Grows w 32 x _ (
    smear_by-Grows w 16 x _ (
      smear_by-Grows w 8 x _ (
        smear_by-Grows w 4 x _ (smear_by-Grows w 2 x _ (smear_by-Grows w 1 x x (omega arith, h))))))

-- A requested size from 1 to `LONG_MAX` is met, and the result is a `long` or 2 ^ 63.
pub real_size_bounds :
    (size : ℕ) → 0 < size → size ≤ long_max → (size ≤ real_size size) × (real_size size ≤ 2 ^ 63)
unfolding real_size
real_size_bounds size pos le = elim (Bool-cases (leb long_max size)) [
  | inl e ↦ rw e (ground arith)
  | inr e ↦
      let (lo, hi) = smear-Grows 63 (u64 (size + 2 ^ 64 - 1)) (ground arith) in rw e (ground arith)
]

-- a request of at most 2 ^ 31 buckets gets no more than that
pub real_size_small : (size : ℕ) → 0 < size → size ≤ 2 ^ 31 → real_size size ≤ 2 ^ 31
unfolding real_size
real_size_small size pos le = elim (Bool-cases (leb long_max size)) [
  | inl e ↦ absurd (ground arith)
  | inr e ↦
      let (lo, hi) = smear-Grows 31 (u64 (size + 2 ^ 64 - 1)) (ground arith) in rw e (ground arith)
]
