-- ===== src/Objects/Tests.antt =====
-- Runs of the objects, and the theorem on their expiry.
use xfire_db.Base.{ℕ, ◌≡◌, refl, true, ltb, [], ◌∷◌, ok, arith, Returns}
use xfire_db.Bitops.{raw_test_bit, test_bit, set_bit}
use xfire_db.Objects.{Object, object_init, object_has_expired, object_set_expiry}
use xfire_db.Objects.Expiry.{object_set_expiry-after}

abbrev marked : Object
marked = record { crea = 3; exp = 0; flags = 3 ∷ [] }

object_set_expiry_example : Returns (object_set_expiry 5 9 marked) λ (done, obj').
    (done ≡ true)
    × ((t : ℕ)
        → Returns (object_has_expired t obj') λ (late, obj2).
          (late ≡ ltb 9 t)
          × (late ≡ true → (t' : ℕ) → object_has_expired t' obj2 ≡ ok (true, obj2)))
object_set_expiry_example = object_set_expiry-after marked 3 5 9 refl (omega arith) (omega arith)

-- a new object, for which no expiry is set, has expired
new_object :
    object_has_expired 5 (object_init 5) ≡ ok (true, record { crea = 5; exp = 0; flags = 2 ∷ [] })
unfolding object_has_expired object_init test_bit set_bit raw_test_bit
new_object = refl
