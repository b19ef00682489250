-- ===== src/Dict/Rehash/Laws.antt =====
-- `dict_rehash` as a whole, and the step before each operation.
use xfire_db.Base.{
  ℕ, zero, suc, ◌*◌, ◌<◌, ◌≡◌, sym, ◌∙◌, inl, inr, true, false, arith, ◌==◌, Returns, ok, ==_iff,
  Bool-cases,
}
use xfire_db.Dict.{Dict}
use xfire_db.Dict.Rehash.{rehash_loop, rehash, rehash_step, has_iterators}
use xfire_db.Dict.Rehash.Loop.{Rehashed, Worked, rehash_loop-Worked}
use xfire_db.Dict.Valid.{IsRehashing, IsValid, Same, Same-refl}

rehash-on : (d : Dict) (num : ℕ) → d.rehashing ≡ true → rehash d num ≡ rehash_loop num (num * 10) d
unfolding rehash
rehash-on d num on = ground arith

-- With rehashing on and the primary map empty, `dict_rehash` asks for more and changes nothing,
-- however many rounds it is given.
pub rehash-stuck :
    (d : Dict) (num : ℕ) → d.rehashing ≡ true → d.primary.length ≡ 0 → rehash d num ≡ ok (true, d)
unfolding rehash rehash_loop
rehash-stuck d zero on empty = rw on
rehash-stuck d (suc num) on empty = ground arith

-- In every valid state, for any number of rounds, `dict_rehash` does not fault, keeps what each key
-- reads, the number of entries and validity, and returns 1 exactly if rehashing is still on.
pub rehash-Rehashed : (d : Dict) (num : ℕ) → IsValid d → Returns (rehash d num) (Rehashed d)
rehash-Rehashed d num (inl v) = (
  (false, d),
  unfold rehash in rw v.off,
  record { same = Same-refl d (inl v); tells = sym v.off },
)
rehash-Rehashed d zero (inr v) = (
  (true, d),
  unfold rehash rehash_loop in rw v.on,
  record { same = Same-refl d (inr v); tells = sym v.on },
)
rehash-Rehashed d (suc num) (inr v) = elim (Bool-cases (d.primary.length == 0)) [
  | inl e ↦ (
    (true, d),
    rehash-stuck d (suc num) v.on ((==_iff _ _).0 e),
    record { same = Same-refl d (inr v); tells = sym v.on },
  )
  | inr e ↦
      let (r, run, w) =
        rehash_loop-Worked (suc num) (suc num * 10) d v (ground arith) (omega arith) in
      (r, rehash-on d (suc num) v.on ∙ run, w.rehashed)
]

-- While the primary map holds entries, a call with at least one round ends the rehashing or moves
-- `rehashidx` on.
pub rehash-Advanced :
    (d : Dict) (num : ℕ)
    → IsRehashing d
    → 0 < d.primary.length
    → Returns (rehash d (suc num)) (Worked 1 d)
rehash-Advanced d num v full =
    let (r, run, w) = rehash_loop-Worked (suc num) (suc num * 10) d v full (omega arith) in
    (r, rehash-on d (suc num) v.on ∙ run, w)

pub rehash_step-Same : (d : Dict) → IsValid d → Returns (rehash_step d) (Same d)
unfolding rehash_step
rehash_step-Same d v = elim (Bool-cases (has_iterators d)) [
  | inl e ↦ (d, rw e, Same-refl d v)
  | inr e ↦ let (r, run, w) = rehash-Rehashed d 1 v in (r.1, rw (e, run), w.same)
]
