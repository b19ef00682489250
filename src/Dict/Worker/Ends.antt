-- ===== src/Dict/Worker/Ends.antt =====
-- `dict_rehash_ms` ends: by itself while the primary map holds entries, and only by the clock once
-- it is empty.
use xfire_db.Base.{
  ℕ, zero, suc, ◌+◌, ◌-◌, ◌<◌, ◌≡◌, refl, sym, inl, inr, Bool, true, false, arith, Returns, ok,
  Bool-cases, Option, none, some, ◌*◌, ◌≤◌,
}
use xfire_db.Base.{◌^◌, Run}
use xfire_db.Base.Int.{ℤ, pos, int_of, int_of-lt}
use xfire_db.Dict.{Dict}
use xfire_db.Dict.Rehash.{rehash}
use xfire_db.Dict.Rehash.Laws.{rehash-stuck, rehash-Advanced}
use xfire_db.Dict.Rehash.Loop.{Worked, Advanced}
use xfire_db.Dict.Rehash.Rounds.{lt-length_of_Swept}
use xfire_db.Dict.Valid.{IsRehashing, Same, Same-trans}
use xfire_db.Dict.Worker.{rehash_ms_loop, rehash_ms}

-- `rehashidx` is in the map while entries are left
idx-lt-size : (d : Dict) → IsRehashing d → 0 < d.primary.length → d.rehashidx < d.primary.size
idx-lt-size d v full = omega (
  arith,
  lt-length_of_Swept d.primary.array d.rehashidx v.swept (omega (arith, v.primary.counted)),
  v.primary.sized,
)

-- The loop came to an end by itself or by the clock: every key leads to what it did, and if the time
-- was never up the rehashing is over.
abbrev Ended : (ℕ → Bool) → Dict → ℕ → Option (ℕ × Dict) → Type 0
Ended late d limit none = ⊥
Ended late d limit (some (n, e)) =
    Same d e × (n ≤ limit) × (((i : ℕ) → late i ≡ false) → e.rehashing ≡ false)

loop-Ended :
    (late : ℕ → Bool) (fuel round num : ℕ) (d : Dict)
    → IsRehashing d
    → 0 < d.primary.length
    → d.primary.size - d.rehashidx < fuel
    → Returns
        (rehash_ms_loop late fuel round num d)
        (Ended late d (num + 100 * (d.primary.size - d.rehashidx)))
unfolding rehash_ms_loop
loop-Ended late zero round num d v full h = absurd (omega arith)
loop-Ended late (suc fuel) round num d v full h =
    let ((more, e), run, w) = rehash-Advanced d 99 v full in
    rw run (
      outcome more e w (λ w' a.
        loop-Ended late fuel (round + 1) (num + 100) e w' a.full
          (omega (arith, idx-lt-size d v full, a.further, a.size))))
  where
    inside : d.rehashidx < d.primary.size
    inside = idx-lt-size d v full

    outcome :
        (more : Bool) (e : Dict)
        → Worked 1 d (more, e)
        → (IsRehashing e
            → Advanced 1 d (more, e)
            → Returns
                (rehash_ms_loop late fuel (round + 1) (num + 100) e)
                (Ended late e (num + 100 + 100 * (e.primary.size - e.rehashidx))))
        → Returns
            (elim more [
              | false ↦ ok (some (num, e))
              | true ↦ elim (late round) [
                | true ↦ ok (some (num + 100, e))
                | false ↦ rehash_ms_loop late fuel (round + 1) (num + 100) e
              ]
            ])
            (Ended late d (num + 100 * (d.primary.size - d.rehashidx)))
    outcome false e w ih =
        (some (num, e), refl, (w.rehashed.same, omega arith, λ never. sym w.rehashed.tells))
    outcome true e w ih =
        let (still, a) = w.advanced refl in
        elim (Bool-cases (late round)) [
          | inl up ↦ (
            some (num + 100, e),
            rw up refl,
            (w.rehashed.same, omega (arith, inside), λ never. cc (never round)),
          )
          | inr on ↦
              later on e w.rehashed.same (omega (arith, inside, a.further, a.size)) (ih still a)
        ]
      where
        later :
            late round ≡ false
            → (e : Dict) → Same d e
            → num + 100 + 100 * (e.primary.size - e.rehashidx)
              ≤ num + 100 * (d.primary.size - d.rehashidx)
            → Returns
                (rehash_ms_loop late fuel (round + 1) (num + 100) e)
                (Ended late e (num + 100 + 100 * (e.primary.size - e.rehashidx)))
            → Returns
                (elim (late round) [
                  | true ↦ ok (some (num + 100, e))
                  | false ↦ rehash_ms_loop late fuel (round + 1) (num + 100) e
                ])
                (Ended late d (num + 100 * (d.primary.size - d.rehashidx)))
        later on e s le (none, run, p) = absurd p
        later on e s le (some (n, f), run, (t, few, ends)) =
            (some (n, f), rw on run, (Same-trans s t, omega (arith, few, le), ends))

-- The same of what is returned, where the count is an `int`.
abbrev pub Returned : (ℕ → Bool) → Dict → Option (ℤ × Dict) → Type 0
Returned late d none = ⊥
Returned late d (some (z, e)) =
    Same d e
    × ((n : ℕ) × (z ≡ pos n) × (n ≤ 100 * d.primary.size))
    × (((i : ℕ) → late i ≡ false) → e.rehashing ≡ false)

-- While the primary map holds entries, and with fuel for as many calls of `dict_rehash` as the map
-- has buckets and one more, `dict_rehash_ms` returns whatever the clock says. It counts at most 100
-- rounds for each bucket, of which there must be so few that an `int` holds the count; every key
-- leads to what it did, and if the time is never up the rehashing is over.
pub rehash_ms-Same :
    (late : ℕ → Bool) (fuel : ℕ) (d : Dict)
    → IsRehashing d
    → 0 < d.primary.length
    → d.primary.size < fuel
    → 100 * d.primary.size < 2 ^ 31
    → Returns (rehash_ms late fuel d) (Returned late d)
unfolding rehash_ms
rehash_ms-Same late fuel d v full h small =
    let (o, run, p) = loop-Ended late fuel 0 0 d v full (omega arith) in rw run (returned o p)
  where
    returned :
        (o : Option (ℕ × Dict))
        → Ended late d (0 + 100 * (d.primary.size - d.rehashidx)) o
        → Returns
            (elim o as (λ o. Run (Option (ℤ × Dict))) [
              | none ↦ ok none
              | some (n, e) ↦ ok (some (int_of n, e))
            ])
            (Returned late d)
    returned none p = absurd p
    returned (some (n, e)) (s, few, ends) = (
      some (int_of n, e),
      refl,
      (s, (n, int_of-lt n (omega (arith, few, small)), omega (arith, few)), ends),
    )

loop-stuck :
    (fuel round num : ℕ) (d : Dict)
    → rehash d 100 ≡ ok (true, d)
    → rehash_ms_loop (λ i. false) fuel round num d ≡ ok none
unfolding rehash_ms_loop
loop-stuck zero round num d still = refl
loop-stuck (suc fuel) round num d still = rw still (loop-stuck fuel (round + 1) (num + 100) d still)

-- With rehashing on and the primary map empty, as deletions can leave it, `dict_rehash_ms` never
-- ends by itself: `dict_rehash` does not fault, asks to be called again and changes nothing, so that
-- whatever the fuel it runs out while the time is not up.
pub rehash_ms-stuck :
    (fuel : ℕ) (d : Dict)
    → d.rehashing ≡ true
    → d.primary.length ≡ 0
    → (rehash d 100 ≡ ok (true, d)) × (rehash_ms (λ i. false) fuel d ≡ ok none)
unfolding rehash_ms
rehash_ms-stuck fuel d on empty =
    let still = rehash-stuck d 100 on empty in (still, rw (loop-stuck fuel 0 0 d still) refl)
