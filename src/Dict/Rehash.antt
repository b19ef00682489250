-- ===== src/Dict/Rehash.antt =====
-- `dict_rehash` of storage/dict.c and its callers: entries move from the primary map to the rehash
-- map, one bucket at a step.
-- `num * 10` is a natural number; the code asks for 1 or 100 rounds only, far below what an `int` holds.
pub mod Moves
pub mod Rounds
pub mod Finish
pub mod Loop
pub mod Laws
use xfire_db.Base.{
  ℕ, zero, suc, ◌+◌, ◌-◌, ◌*◌, Bool, true, false, not, [], ◌∷◌, bit_and, ◌==◌, ltb, if◌then◌else◌,
  CString, set, at, Run, ok, fault, ◌>>=◌,
}
use xfire_db.Dict.{DictEntry, Chain, DictMap, Dict, minus_one, reset}
use xfire_db.Dict.Hash.{hash_key, dict_seed}

-- `hash & map->sizemask`
unfoldable pub slot : DictMap → CString → ℕ
slot map key = bit_and (hash_key key dict_seed) map.sizemask

-- `while(de)`: each entry goes to the front of its bucket in the rehash map, and the two lengths
-- are counted
unfoldable pub move_chain : Chain → DictMap → ℕ → Run (DictMap × ℕ)
move_chain [] map left = ok (map, left)
move_chain (de ∷ next) map left = do
  bucket ← at map.array (slot map de.key)
  let array = set map.array (slot map de.key) (de ∷ bucket)
  move_chain next (record map { array = array; length = map.length + 1 }) (left - 1)

-- The outcome of the search for a bucket that is not empty: its index with the visits left and its
-- chain, or the index at which the visits ran out.
pub data Search : Type 0 where
  stopped : ℕ → Search
  found : ℕ → ℕ → DictEntry → Chain → Search

-- `while(array[rehashidx] == NULL)`; the visits are never 0 before a round
unfoldable pub skip_empty : ℕ → DictMap → ℕ → Run Search
skip_empty zero map idx = fault
skip_empty (suc visits) map idx = at map.array idx >>= elim [
  | de ∷ next ↦ ok (found idx (suc visits) de next)
  | [] ↦
      let more = skip_empty visits map (idx + 1) in
      if visits == 0 then ok (stopped (idx + 1)) else more
]

-- the assignments behind the moves, up to the end of the round
unfoldable pub finish_bucket : Dict → ℕ → DictMap × ℕ → Dict
finish_bucket d idx (map, left) = record d {
  primary = record (d.primary) { array = set d.primary.array idx []; length = left };
  rehash = map;
  rehashidx = idx + 1;
}

-- the branch for a primary map that has become empty
unfoldable pub finish_rehash : Dict → Dict
finish_rehash d = record d {
  primary = d.rehash;
  rehash = reset;
  rehashidx = minus_one;
  rehashing = false;
}

-- How one round of the loop ends: the visits ran out, the primary map is empty, or the loop goes on
-- with the visits that are left.
pub data Round : Type 0 where
  gave_up : Dict → Round
  emptied : Dict → Round
  more : ℕ → Dict → Round

-- one round, from the `assert`
unfoldable pub rehash_round : ℕ → Dict → Run Round
rehash_round visits d = elim (ltb d.rehashidx d.primary.size) [
  | false ↦ fault
  | true ↦ skip_empty visits d.primary d.rehashidx >>= elim [
    | stopped idx ↦ ok (gave_up (record d { rehashidx = idx }))
    | found idx visits' de next ↦ do
      moved ← move_chain (de ∷ next) d.rehash d.primary.length
      let d' = finish_bucket d idx moved
      ok (if d'.primary.length == 0 then emptied d' else more visits' d')
  ]
]

-- `while(num-- && length > 0)`, with what it returns; the visits are shared by the rounds
unfoldable pub rehash_loop : ℕ → ℕ → Dict → Run (Bool × Dict)
rehash_loop zero visits d = ok (true, d)
rehash_loop (suc num) visits d = elim (d.primary.length == 0) [
  | true ↦ ok (true, d)
  | false ↦ rehash_round visits d >>= elim [
    | gave_up d' ↦ ok (true, d')
    | emptied d' ↦ ok (false, finish_rehash d')
    | more visits' d' ↦ rehash_loop num visits' d'
  ]
]

-- `dict_rehash`: `true` is the 1 that asks for more rehashing
unfoldable pub rehash : Dict → ℕ → Run (Bool × Dict)
rehash d num = if not d.rehashing then ok (false, d) else rehash_loop num (num * 10) d

-- `dict_has_iterators`
unfoldable pub has_iterators : Dict → Bool
has_iterators d = not (d.iterators == 0)

-- `dict_rehash_step`
unfoldable pub rehash_step : Dict → Run Dict
rehash_step d = if has_iterators d then ok d else do (_, d') ← rehash d 1; ok d'
