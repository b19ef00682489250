-- ===== src/Base/Bits.antt =====
-- Laws of `&` and `|` at variables, from the recursion on binary digits that they stand for.
use Prim.Native.Nat.{min, max, digits, bitwise, bit_and-bitwise, bit_or-bitwise}
use Prim.Native.Nat.{ℕ, zero, suc, ◌+◌, ◌*◌, ◌/◌, ◌%◌, ◌^◌, ◌≤◌, ◌<◌, bit_and, bit_or}
use mathlib.Core.Path.{◌≡◌, refl}
use native.Mathlib.Nat.{le_refl, pow-suc}
use native.Mathlib.Omega.{arith}

module _ (alone : ℕ → ℕ) (join : ℕ → ℕ → ℕ) where
  -- Fuel of at least the first operand gives the value; `k` bounds the fuel for the recursion.
  digits-eq-bitwise :
      (k n a b : ℕ) → n ≤ k → a ≤ n → digits alone join n a b ≡ bitwise alone join a b
  digits-eq-bitwise k zero zero b p q = refl
  digits-eq-bitwise k zero (suc a) b p q = absurd (omega arith)
  digits-eq-bitwise k (suc n) zero b p q = refl
  digits-eq-bitwise zero (suc n) (suc a) b p q = absurd (omega arith)
  digits-eq-bitwise (suc k) (suc n) (suc a) b p q =
      let half = suc a / 2 in
      omega (
        arith,
        digits-eq-bitwise k n half (b / 2) (omega arith) (omega arith),
        digits-eq-bitwise k a half (b / 2) (omega arith) (omega arith),
      )

  bitwise-suc :
      (a b : ℕ)
      → bitwise alone join (suc a) b
        ≡ bitwise alone join (suc a / 2) (b / 2) * 2 + join (suc a % 2) (b % 2)
  bitwise-suc a b =
      omega (arith, digits-eq-bitwise a a (suc a / 2) (b / 2) (le_refl a) (omega arith))

pub bit_or-halves : (a b : ℕ) → bit_or a b ≡ bit_or (a / 2) (b / 2) * 2 + max (a % 2) (b % 2)
bit_or-halves zero b = simp bit_or-bitwise (omega arith)
bit_or-halves (suc a) b = simp bit_or-bitwise (bitwise-suc (λ r. r) max a b)

pub bit_and-halves : (a b : ℕ) → bit_and a b ≡ bit_and (a / 2) (b / 2) * 2 + min (a % 2) (b % 2)
bit_and-halves zero b = simp bit_and-bitwise (omega arith)
bit_and-halves (suc a) b = simp bit_and-bitwise (bitwise-suc (λ r. 0) min a b)

bit_and-le_below : (n a b : ℕ) → a ≤ n → bit_and a b ≤ b
bit_and-le_below n zero b h = omega (arith, bit_and-bitwise 0 b)
bit_and-le_below zero (suc a) b h = absurd (omega arith)
bit_and-le_below (suc n) (suc a) b h =
    omega (arith, bit_and-halves (suc a) b, bit_and-le_below n (suc a / 2) (b / 2) (omega arith))

-- A masked value is at most the mask.
pub bit_and-le : (a b : ℕ) → bit_and a b ≤ b
bit_and-le a b = bit_and-le_below a a b (le_refl a)

-- `|` stays below a power of two, and is at least its first operand.
pub bit_or-lt-pow : (k a b : ℕ) → a < 2 ^ k → b < 2 ^ k → bit_or a b < 2 ^ k
bit_or-lt-pow zero a b p q =
    let a' : a ≡ 0 = omega arith in let b' : b ≡ 0 = omega arith in rw (a', b') (omega arith)
bit_or-lt-pow (suc k) a b p q = omega (
  arith,
  pow-suc 2 k,
  bit_or-halves a b,
  bit_or-lt-pow k (a / 2) (b / 2) (omega (arith, pow-suc 2 k)) (omega (arith, pow-suc 2 k)),
)

le-bit_or_below : (n a b : ℕ) → a ≤ n → a ≤ bit_or a b
le-bit_or_below n zero b h = omega arith
le-bit_or_below zero (suc a) b h = absurd (omega arith)
le-bit_or_below (suc n) (suc a) b h =
    omega (arith, bit_or-halves (suc a) b, le-bit_or_below n (suc a / 2) (b / 2) (omega arith))

pub le-bit_or : (a b : ℕ) → a ≤ bit_or a b
le-bit_or a b = le-bit_or_below a a b (le_refl a)
