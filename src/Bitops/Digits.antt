-- ===== src/Bitops/Digits.antt =====
-- The binary digits of a word under the bitwise operators.
use xfire_db.Base.{
  ℕ, zero, suc, ◌+◌, ◌≤◌, ltb, Bool-cases, inl, inr, ◌-◌, ◌*◌, ◌/◌, ◌%◌, ◌^◌, ◌<◌, ◌≡◌, ◌≢◌, refl,
  sym, ◌∙◌, ap, bit_and, bit_or, arith,
}
use Prim.Native.Nat.{min, max}
use xfire_db.Base.Bits.{bit_and-halves, bit_and-le, bit_or-halves}
use native.Mathlib.Nat.{pow-suc, div-div-eq-div-mul}
use xfire_db.Bitops.{raw_test_bit}

-- the digits of a number, from the lowest on
abbrev pub digit : ℕ → ℕ → ℕ
digit zero w = w % 2
digit (suc b) w = digit b (w / 2)

pub digit-or : (b x y : ℕ) → digit b (bit_or x y) ≡ max (digit b x) (digit b y)
digit-or zero x y = omega (arith, bit_or-halves x y)
digit-or (suc b) x y =
    let half : bit_or x y / 2 ≡ bit_or (x / 2) (y / 2) = omega (arith, bit_or-halves x y) in
    rw half (digit-or b (x / 2) (y / 2))

pub digit-and : (b x y : ℕ) → digit b (bit_and x y) ≡ min (digit b x) (digit b y)
digit-and zero x y = omega (arith, bit_and-halves x y)
digit-and (suc b) x y =
    let half : bit_and x y / 2 ≡ bit_and (x / 2) (y / 2) = omega (arith, bit_and-halves x y) in
    rw half (digit-and b (x / 2) (y / 2))

pub digit-pow : (b : ℕ) → digit b (2 ^ b) ≡ 1
digit-pow zero = refl
digit-pow (suc b) =
    let half : 2 ^ suc b / 2 ≡ 2 ^ b = omega (arith, pow-suc 2 b) in rw half (digit-pow b)

pub digit-le : (b w : ℕ) → digit b w ≤ 1
digit-le zero w = omega arith
digit-le (suc b) w = digit-le b (w / 2)

-- a digit of a number shifted to the right
pub digit-shr : (b s w : ℕ) → digit b (w / 2 ^ s) ≡ digit (b + s) w
digit-shr b zero w =
    let stay : b + 0 ≡ b = omega arith in
    let same : w / 2 ^ 0 ≡ w = omega arith in rw (stay, same) refl
digit-shr b (suc s) w =
    let double : 2 ^ suc s ≡ 2 * 2 ^ s = omega (arith, pow-suc 2 s) in
    let next : b + suc s ≡ suc (b + s) = omega arith in
    ap (λ k. digit b (w / k)) double
    ∙ ap (digit b) (sym (div-div-eq-div-mul w 2 (2 ^ s)))
    ∙ digit-shr b s (w / 2)
    ∙ ap (λ i. digit i w) (sym next)

-- a number all of whose `k` digits are one
pub digits-ones : (k w : ℕ) → w < 2 ^ k → ((b : ℕ) → b < k → digit b w ≡ 1) → w + 1 ≡ 2 ^ k
digits-ones zero w lt ones = omega (arith, lt)
digits-ones (suc k) w lt ones =
    let half =
      digits-ones k (w / 2) (omega (arith, lt, pow-suc 2 k))
        (λ b le. ones (suc b) (omega (arith, le))) in
    omega (arith, half, ones 0 (omega arith), pow-suc 2 k)

-- the highest digit of a number that is not zero
pub highest :
    (n w : ℕ)
    → 0 < w
    → w < 2 ^ n
    → (k : ℕ) × (k < n) × (2 ^ k ≤ w) × (w < 2 ^ suc k) × (digit k w ≡ 1)
highest zero w some_digit lt = absurd (omega (arith, some_digit, lt))
highest (suc n) w some_digit lt = elim (Bool-cases (ltb 1 w)) [
  | inr one ↦
      let is : w ≡ 1 = ground (arith, some_digit, one) in
      (0, omega arith, omega (arith, is), omega (arith, is), rw is refl)
  | inl more ↦
      let above : 1 < w = ground (arith, more) in
      let (k, small, low, high, set) =
        highest n (w / 2) (omega (arith, above)) (omega (arith, lt, pow-suc 2 n)) in
      (
        suc k,
        omega (arith, small),
        omega (arith, low, pow-suc 2 k),
        omega (arith, high, pow-suc 2 (suc k), pow-suc 2 k),
        set,
      )
]

digit-zero : (b : ℕ) → digit b 0 ≡ 0
digit-zero zero = refl
digit-zero (suc b) = digit-zero b

pub digit-pow_other : (b c : ℕ) → b ≢ c → digit b (2 ^ c) ≡ 0
digit-pow_other zero zero ne = absurd (ne refl)
digit-pow_other zero (suc c) ne = omega (arith, pow-suc 2 c)
digit-pow_other (suc b) zero ne = digit-zero b
digit-pow_other (suc b) (suc c) ne =
    let half : 2 ^ suc c / 2 ≡ 2 ^ c = omega (arith, pow-suc 2 c) in
    rw half (digit-pow_other b c (λ e. ne (ap suc e)))

pub digit-complement : (n b m : ℕ) → b < n → m < 2 ^ n → digit b (2 ^ n - 1 - m) ≡ 1 - digit b m
digit-complement zero b m lt small = absurd (omega (arith, lt))
digit-complement (suc n) zero m lt small = omega (arith, small, pow-suc 2 n)
digit-complement (suc n) (suc b) m lt small =
    let half : (2 ^ suc n - 1 - m) / 2 ≡ 2 ^ n - 1 - m / 2 = omega (arith, small, pow-suc 2 n) in
    rw half (digit-complement n b (m / 2) (omega (arith, lt)) (omega (arith, small, pow-suc 2 n)))

-- `raw_test_bit` reads a digit
pub raw_test_bit-digit : (b w : ℕ) → raw_test_bit b w ≡ digit b w
unfolding raw_test_bit
raw_test_bit-digit b w = low (w / 2 ^ b) ∙ shifted b w
  where
    low : (x : ℕ) → bit_and x 1 ≡ x % 2
    low x = omega (arith, bit_and-halves x 1, bit_and-le (x / 2) (1 / 2))

    shifted : (b w : ℕ) → w / 2 ^ b % 2 ≡ digit b w
    shifted zero w = omega arith
    shifted (suc b) w =
        let double : 2 ^ suc b ≡ 2 * 2 ^ b = omega (arith, pow-suc 2 b) in
        ap (λ k. w / k % 2) double
        ∙ ap (λ k. k % 2) (sym (div-div-eq-div-mul w 2 (2 ^ b)))
        ∙ shifted b (w / 2)
