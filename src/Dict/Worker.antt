-- ===== src/Dict/Worker.antt =====
-- `dict_rehash_ms` of storage/dict.c, which the rehash worker runs whenever it has the lock. The
-- clock is a parameter: `late i` says whether the time is up after round `i`.
pub mod Ends
use xfire_db.Base.{ℕ, zero, suc, ◌+◌, Bool, true, false, Option, none, some, Run, ok, ◌>>=◌}
use xfire_db.Base.Int.{ℤ, int_of}
use xfire_db.Dict.{Dict}
use xfire_db.Dict.Rehash.{rehash}

-- the loop, with the rounds done; `ok none` is the end of the fuel, as for a loop that goes on
unfoldable pub rehash_ms_loop : (ℕ → Bool) → ℕ → ℕ → ℕ → Dict → Run (Option (ℕ × Dict))
rehash_ms_loop late zero round num d = ok none
rehash_ms_loop late (suc fuel) round num d = do
  (more, d) ← rehash d 100
  elim more [
    | false ↦ ok (some (num, d))
    | true ↦ elim (late round) [
      | true ↦ ok (some (num + 100, d))
      | false ↦ rehash_ms_loop late fuel (round + 1) (num + 100) d
    ]
  ]

-- `dict_rehash_ms`: the number of rounds asked for, as an `int`, and the dictionary
unfoldable pub rehash_ms : (ℕ → Bool) → ℕ → Dict → Run (Option (ℤ × Dict))
rehash_ms late fuel d = do
  o ← rehash_ms_loop late fuel 0 0 d
  elim o [ none ↦ ok none | some (n, d) ↦ ok (some (int_of n, d)) ]
