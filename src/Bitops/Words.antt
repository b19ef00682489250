-- ===== src/Bitops/Words.antt =====
-- What a bit of a register is after one in a word that is there is set or cleared.
use mathlib.Core.Path.{subst}
use xfire_db.Base.{
  ℕ, zero, suc, ◌^◌, ◌<◌, ◌≡◌, ◌≢◌, refl, sym, ◌∙◌, ap, ◌⊎◌, inl, inr, not, bit_and, bit_or, List,
  if◌then◌else◌, true, false, ◌==◌, ==_iff, at, set, at-set_self, at-set_ne, ok, ◌>>=◌, arith,
  Bool-cases, Returns,
}
use native.Mathlib.Nat.{pow-suc}
use xfire_db.Bitops.{
  word, place, complement, raw_test_bit, test_bit, set_bit, clear_bit, test_and_set_bit,
  test_and_clear_bit,
}
use xfire_db.Bitops.Digits.{
  digit, digit-le, digit-or, digit-and, digit-pow, digit-pow_other, digit-complement,
  raw_test_bit-digit,
}

-- the digits of a word after its bit `c` is set or cleared
set_digit : (b c w : ℕ) → digit b (bit_or w (2 ^ c)) ≡ (if b == c then 1 else digit b w)
set_digit b c w = elim (Bool-cases (b == c)) [
  | inl e ↦
      let one : digit b (2 ^ c) ≡ 1 =
        subst (λ c. digit b (2 ^ c) ≡ 1) ((==_iff b c).0 e) (digit-pow b) in
      rw e (omega (arith, digit-or b w (2 ^ c), one, digit-le b w))
  | inr e ↦
      let none_set = digit-pow_other b c (λ p. ground (arith, p, e)) in
      rw e (omega (arith, digit-or b w (2 ^ c), none_set))
]

clear_digit :
    (b c w : ℕ)
    → b < 64
    → 2 ^ c < 2 ^ 64
    → digit b (bit_and w (complement (2 ^ c))) ≡ (if b == c then 0 else digit b w)
clear_digit b c w lt small = elim (Bool-cases (b == c)) [
  | inl e ↦
      let one : digit b (2 ^ c) ≡ 1 =
        subst (λ c. digit b (2 ^ c) ≡ 1) ((==_iff b c).0 e) (digit-pow b) in
      rw e (
        omega
          (arith, digit-and b w (complement (2 ^ c)), digit-complement 64 b (2 ^ c) lt small, one))
  | inr e ↦
      let none_set = digit-pow_other b c (λ p. ground (arith, p, e)) in
      rw e (
        omega (
          arith,
          digit-and b w (complement (2 ^ c)),
          digit-complement 64 b (2 ^ c) lt small,
          none_set,
          digit-le b w,
        ))
]

pow_lt : (c n : ℕ) → c < n → 2 ^ c < 2 ^ n
pow_lt c zero lt = absurd (omega (arith, lt))
pow_lt zero (suc n) lt = omega (arith, pow-suc 2 n, positive n)
  where
    positive : (n : ℕ) → 0 < 2 ^ n
    positive zero = omega arith
    positive (suc n) = omega (arith, pow-suc 2 n, positive n)
pow_lt (suc c) (suc n) lt = omega (arith, pow-suc 2 c, pow-suc 2 n, pow_lt c n (omega (arith, lt)))

place_lt : (nr : ℕ) → place nr < 64
place_lt nr = omega arith

test_bit-digit :
    (p : List ℕ) (k v : ℕ) → at p (word k) ≡ ok v → test_bit k p ≡ ok (digit (place k) v)
unfolding test_bit
test_bit-digit p k v e = rw (test_bit, e) (ap ok (raw_test_bit-digit (place k) v))

-- another bit than `nr`, in another word or at another place
abbrev pub Other : ℕ → ℕ → Type 0
Other nr k = (word k ≢ word nr) ⊎ (place k ≢ place nr)

module _ (p : List ℕ) (nr w : ℕ) (e : at p (word nr) ≡ ok w) where
  changed :
      (w' v : ℕ)
      → ((b : ℕ) → b < 64 → digit b w' ≡ (if b == place nr then v else digit b w))
      → (test_bit nr (set p (word nr) w') ≡ ok v)
        × ((k : ℕ) → Other nr k → test_bit k (set p (word nr) w') ≡ test_bit k p)
  changed w' v digits = (
    test_bit-digit (set p (word nr) w') nr w' (at-set_self p (word nr) w' w e)
        ∙ ap ok (digits (place nr) (place_lt nr) ∙ rw on refl),
    (λ k other. elim (Bool-cases (word k == word nr)) [
      | inl same ↦ in_word k ((==_iff (word k) (word nr)).0 same) other
      | inr differs ↦
          unfold test_bit in
          ap (λ r. r >>= λ w. ok (raw_test_bit (place k) w))
            (at-set_ne p (word nr) (word k) w' (λ e. ground (arith, e, differs)))
    ]),
  )
    where
      on : (place nr == place nr) ≡ true
      on = (==_iff (place nr) (place nr)).1 refl

      in_word :
          (k : ℕ) → word k ≡ word nr → Other nr k → test_bit k (set p (word nr) w') ≡ test_bit k p
      in_word k same (inl ne) = absurd (ne same)
      in_word k same (inr ne) =
          let off : (place k == place nr) ≡ false = ground (arith, ne) in
          test_bit-digit (set p (word nr) w') k w'
            (ap (at (set p (word nr) w')) same ∙ at-set_self p (word nr) w' w e)
          ∙ ap ok (digits (place k) (place_lt k) ∙ rw off refl)
          ∙ sym (test_bit-digit p k w (ap (at p) same ∙ e))

  -- `__set_bit` of a bit whose word is there sets it and leaves the others: those in another word or at
  -- another place. `__test_and_set_bit` does the same, and tells whether the bit was set.
  pub set_bit-word : Returns (set_bit nr p) λ q.
      (test_bit nr q ≡ ok 1)
      × ((k : ℕ) → Other nr k → test_bit k q ≡ test_bit k p)
      × (test_and_set_bit nr p ≡ (test_bit nr p >>= λ t. ok (not (t == 0), q)))
  unfolding set_bit test_and_set_bit test_bit
  set_bit-word =
      let (one, others) = changed (bit_or w (2 ^ place nr)) 1 (λ b lt. set_digit b (place nr) w) in
      (
        set p (word nr) (bit_or w (2 ^ place nr)),
        rw (set_bit, e) refl,
        (one, others, rw (test_and_set_bit, test_bit, e) refl),
      )

  -- `__clear_bit` of a bit whose word is there clears it and leaves the others: those in another word or
  -- at another place. `__test_and_clear_bit` does the same, and tells whether the bit was set.
  pub clear_bit-word : Returns (clear_bit nr p) λ q.
      (test_bit nr q ≡ ok 0)
      × ((k : ℕ) → Other nr k → test_bit k q ≡ test_bit k p)
      × (test_and_clear_bit nr p ≡ (test_bit nr p >>= λ t. ok (not (t == 0), q)))
  unfolding clear_bit test_and_clear_bit test_bit
  clear_bit-word =
      let (zero', others) =
        changed (bit_and w (complement (2 ^ place nr))) 0
          (λ b lt. clear_digit b (place nr) w lt (pow_lt (place nr) 64 (place_lt nr))) in
      (
        set p (word nr) (bit_and w (complement (2 ^ place nr))),
        rw (clear_bit, e) refl,
        (zero', others, rw (test_and_clear_bit, test_bit, e) refl),
      )
