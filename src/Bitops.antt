-- ===== src/Bitops.antt =====
-- libxfiredbengine/bitops.c. A register is the list of its words of `BITS_PER_LONG` = 64 bits; an access
-- behind its last word is a fault. `__swap_bit` is not modelled: its mask is an `int`, whose shift
-- overflows.
pub mod Digits
pub mod Words
pub mod Laws
mod Tests
use xfire_db.Base.{
  ℕ, ◌+◌, ◌-◌, ◌/◌, ◌%◌, ◌^◌, bit_and, bit_or, Bool, not, List, [], ◌∷◌, ◌==◌, at, set, Run, ok,
  ◌>>=◌,
}

-- `nr / (BITS_PER_LONG - 1)`, the word of a bit, and `nr % BITS_PER_LONG`, its place there
abbrev pub word : ℕ → ℕ
word nr = nr / 63

abbrev pub place : ℕ → ℕ
place nr = nr % 64

-- `raw_test_bit`
unfoldable pub raw_test_bit : ℕ → ℕ → ℕ
raw_test_bit bit w = bit_and (w / 2 ^ bit) 1

-- `~m` of a word
abbrev pub complement : ℕ → ℕ
complement m = 2 ^ 64 - 1 - m

-- `__test_bit`
unfoldable pub test_bit : ℕ → List ℕ → Run ℕ
test_bit nr p = do w ← at p (word nr); ok (raw_test_bit (place nr) w)

-- `__set_bit`
unfoldable pub set_bit : ℕ → List ℕ → Run (List ℕ)
set_bit nr p = do w ← at p (word nr); ok (set p (word nr) (bit_or w (2 ^ place nr)))

-- `__clear_bit`
unfoldable pub clear_bit : ℕ → List ℕ → Run (List ℕ)
clear_bit nr p = do w ← at p (word nr); ok (set p (word nr) (bit_and w (complement (2 ^ place nr))))

-- `__test_and_clear_bit`
unfoldable pub test_and_clear_bit : ℕ → List ℕ → Run (Bool × List ℕ)
test_and_clear_bit nr p = do
  w ← at p (word nr)
  ok (not (raw_test_bit (place nr) w == 0), set p (word nr) (bit_and w (complement (2 ^ place nr))))

-- `__test_and_set_bit`
unfoldable pub test_and_set_bit : ℕ → List ℕ → Run (Bool × List ℕ)
test_and_set_bit nr p = do
  w ← at p (word nr)
  ok (not (raw_test_bit (place nr) w == 0), set p (word nr) (bit_or w (2 ^ place nr)))
