-- ===== src/Objects/Expiry.antt =====
-- When an object has expired.
use xfire_db.Base.{
  ℕ, ◌≤◌, ◌<◌, ◌≡◌, refl, sym, ◌∙◌, inl, inr, Bool, true, false, List, ltb, ◌==◌, ◌||◌, at, Run, ok,
  fault, ◌>>=◌, arith, Bool-cases, Returns,
}
use xfire_db.Bitops.{raw_test_bit, test_bit, set_bit, clear_bit}
use xfire_db.Bitops.Words.{set_bit-word, clear_bit-word}
use xfire_db.Objects.{Object, object_has_expired, object_set_expiry}

flagged :
    (t : ℕ) (obj : Object) → test_bit 1 obj.flags ≡ ok 1 → object_has_expired t obj ≡ ok (true, obj)
unfolding object_has_expired
flagged t obj e = rw (object_has_expired, e) refl

unflagged :
    (t : ℕ) (obj : Object)
    → test_bit 1 obj.flags ≡ ok 0
    → object_has_expired t obj ≡ elim (ltb obj.exp t) as (λ b. Run (Bool × Object)) [
      | false ↦ ok (false, obj)
      | true ↦ do flags ← set_bit 1 obj.flags; ok (true, record obj { flags = flags })
    ]
unfolding object_has_expired
unflagged t obj e = rw (object_has_expired, e) refl

-- a bit that can be tested is in a word of the register
test_bit-word : (p : List ℕ) (v : ℕ) → test_bit 1 p ≡ ok v → (w : ℕ) × (at p 0 ≡ ok w)
unfolding test_bit
test_bit-word p v e = outcome (at p 0) e
  where
    outcome : (r : Run ℕ) → (r >>= λ w. ok (raw_test_bit 1 w)) ≡ ok v → (w : ℕ) × (r ≡ ok w)
    outcome (ok w) e = (w, refl)
    outcome fault e = absurd (ground (arith, e))

has_expired-after :
    (obj : Object)
    → test_bit 1 obj.flags ≡ ok 0
    → (t : ℕ)
    → Returns (object_has_expired t obj) λ (late, obj').
      (late ≡ ltb obj.exp t)
      × (late ≡ true → (t' : ℕ) → object_has_expired t' obj' ≡ ok (true, obj'))
has_expired-after obj clear t = elim (Bool-cases (ltb obj.exp t)) [
  | inl on ↦
      let (w, e) = test_bit-word obj.flags 0 clear in
      let (flags, run, (one, others, both)) = set_bit-word obj.flags 1 w e in
      (
        (true, record obj { flags = flags }),
        unflagged t obj clear ∙ rw (on, run) refl,
        (sym on, λ late t'. flagged t' (record obj { flags = flags }) one),
      )
  | inr off ↦ (
    (false, obj),
    unflagged t obj clear ∙ rw off refl,
    (sym off, λ late. absurd (ground (arith, late))),
  )
]

set_step :
    (now exp : ℕ) (obj : Object) (flags : List ℕ)
    → 0 < exp
    → now ≤ exp
    → clear_bit 1 obj.flags ≡ ok flags
    → object_set_expiry now exp obj ≡ ok (true, record obj { exp = exp; flags = flags })
unfolding object_set_expiry
set_step now exp obj flags pos le run =
    let off : (exp == 0 || ltb exp now) ≡ false = ground (arith, pos, le) in
    rw (object_set_expiry, off) (rw run refl)

-- `object_set_expiry` to a time that is not zero and not past succeeds for an object whose flags have a
-- word. The object has then expired at a time exactly if that is after the expiry time, and once it
-- has been found so, for good, whatever the clock says.
pub object_set_expiry-after :
    (obj : Object) (w now exp : ℕ)
    → at obj.flags 0 ≡ ok w
    → 0 < exp
    → now ≤ exp
    → Returns (object_set_expiry now exp obj) λ (done, obj').
      (done ≡ true)
      × ((t : ℕ)
          → Returns (object_has_expired t obj') λ (late, obj2).
            (late ≡ ltb exp t)
            × (late ≡ true → (t' : ℕ) → object_has_expired t' obj2 ≡ ok (true, obj2)))
object_set_expiry-after obj w now exp e pos le =
    let (flags, run, (clear, others, both)) = clear_bit-word obj.flags 1 w e in
    (
      (true, record obj { exp = exp; flags = flags }),
      set_step now exp obj flags pos le run,
      (refl, λ t. has_expired-after (record obj { exp = exp; flags = flags }) clear t),
    )
