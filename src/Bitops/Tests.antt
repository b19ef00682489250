-- ===== src/Bitops/Tests.antt =====
-- Runs of the bit operations, and their theorems at a register of two words.
use xfire_db.Base.{ℕ, ◌≡◌, refl, List, [], ◌∷◌, ok, fault}
use xfire_db.Bitops.{set_bit, clear_bit}

abbrev register : List ℕ
register = 5 ∷ 0 ∷ []

cleared : clear_bit 2 register ≡ ok (1 ∷ 0 ∷ [])
unfolding clear_bit
cleared = refl

-- bit 63 of a register of one word is looked for in a second
last_bit : set_bit 63 (0 ∷ []) ≡ fault
unfolding set_bit
last_bit = refl
