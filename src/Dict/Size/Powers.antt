-- ===== src/Dict/Size/Powers.antt =====
-- How `dict_real_size` rounds to a power of two.
use xfire_db.Base.{
  ℕ, suc, ◌+◌, ◌-◌, ◌*◌, ◌^◌, ◌≤◌, ◌<◌, ◌≡◌, refl, ◌∙◌, inl, inr, arith, leb, Bool-cases, ltb, u64,
  shr, long_max, false,
}
use Prim.Native.Nat.{max}
use xfire_db.Base.Bits.{bit_or-lt-pow}
use xfire_db.Bitops.Digits.{digit, digit-le, digit-or, digit-shr, digits-ones, highest}
use xfire_db.Dict.Size.{smear_by, smear, real_size}
use native.Mathlib.Nat.{div-le_self, pow-suc}

smear_by-digit : (b s y : ℕ) → digit b (smear_by s y) ≡ max (digit b y) (digit (b + s) y)
unfolding smear_by
smear_by-digit b s y = rw (digit-or b y (shr y s), digit-shr b s y) refl

-- of a number below 2 ^ k, the `s` highest digits are one
record Full (k s y : ℕ) : Type 0 where
  below : y < 2 ^ k
  ones : (b : ℕ) → b < k → k ≤ b + s → digit b y ≡ 1

-- smearing by as many places as there are ones gives twice as many
smear_by-Full : (k s t y : ℕ) → t ≡ s + s → Full k s y → Full k t (smear_by s y)
smear_by-Full k s t y twice f = record {
  below =
      unfold smear_by in
      bit_or-lt-pow k y (shr y s) f.below (omega (arith, f.below, div-le_self y (2 ^ s)));
  ones = λ b lt le.
      let split = smear_by-digit b s y in
      elim (Bool-cases (leb k (b + s))) [
        | inl near ↦
            let one = f.ones b lt (ground (arith, near)) in
            omega (arith, split, one, digit-le (b + s) y)
        | inr far ↦
            let one = f.ones (b + s) (ground (arith, far)) (omega (arith, le, twice)) in
            omega (arith, split, one, digit-le b y)
      ];
}

-- `smear` sets all digits below the highest one
smear-ones : (k y : ℕ) → k < 63 → y < 2 ^ suc k → digit k y ≡ 1 → smear y + 1 ≡ 2 ^ suc k
unfolding smear
smear-ones k y small lt one =
    let start : Full (suc k) 1 y = record {
      below = lt;
      ones = λ b below near. let same : b ≡ k = omega (arith, below, near) in rw same one;
    } in
    let all = smear_by-Full (suc k) 32 64 _ refl (
      smear_by-Full (suc k) 16 32 _ refl (
        smear_by-Full (suc k) 8 16 _ refl (
          smear_by-Full (suc k) 4 8 _ refl
            (smear_by-Full (suc k) 2 4 _ refl (smear_by-Full (suc k) 1 2 y refl start))))) in
    digits-ones (suc k) _ all.below (λ b below. all.ones b below (omega (arith, small)))

real_size-smear :
    (size : ℕ) → 0 < size → size < long_max → real_size size ≡ u64 (smear (size - 1) + 1)
unfolding real_size
real_size-smear size pos lt =
    let less : leb long_max size ≡ false = ground (arith, lt) in
    let y : u64 (size + 2 ^ 64 - 1) ≡ size - 1 = omega (arith, pos, lt) in rw (less, y) refl

-- a request whose predecessor has `k` as its highest digit
real_size-highest :
    (size k : ℕ)
    → 1 < size
    → size < long_max
    → k < 63
    → 2 ^ k ≤ size - 1
    → size - 1 < 2 ^ suc k
    → digit k (size - 1) ≡ 1
    → (real_size size ≡ 2 ^ suc k) × (size ≤ 2 ^ suc k) × (2 ^ suc k < 2 * size)
real_size-highest size k above lt small low high one =
    let ones = smear-ones k (size - 1) small high one in
    let fits : u64 (smear (size - 1) + 1) ≡ 2 ^ suc k = omega (arith, ones, low, lt, pow-suc 2 k) in
    (
      real_size-smear size (omega (arith, above)) lt ∙ fits,
      omega (arith, high, above),
      omega (arith, low, pow-suc 2 k, above),
    )

-- The size for a request from 1 to below `LONG_MAX` is the least power of two that is not smaller.
pub real_size-power :
    (size : ℕ)
    → 0 < size
    → size < long_max
    → (k : ℕ) × (real_size size ≡ 2 ^ k) × (size ≤ 2 ^ k) × (2 ^ k < 2 * size)
real_size-power size pos lt = elim (Bool-cases (ltb 1 size)) [
  | inr one ↦
      let is : size ≡ 1 = ground (arith, pos, one) in
      (0, rw is (unfold real_size smear smear_by in refl), omega (arith, is), omega (arith, is))
  | inl more ↦
      let above : 1 < size = ground (arith, more) in
      let (k, small, low, high, one) =
        highest 63 (size - 1) (omega (arith, above)) (omega (arith, lt)) in
      let (size_is, le, less) = real_size-highest size k above lt small low high one in
      (suc k, size_is, le, less)
]
