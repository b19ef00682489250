-- ===== src/Dict/Iterator.antt =====
-- The iterators of storage/dict.c. A pointer to an entry is the part of its chain that begins with
-- it, null is the empty chain; `idx` is a `long`, so it starts at the pattern of -1.
use xfire_db.Base.{
  ℕ, zero, suc, ◌+◌, ◌-◌, ◌^◌, Bool, true, false, ◌&&◌, Option, none, some, [], ◌∷◌, ◌==◌, leb,
  if◌then◌else◌, u32, u64, at, Run, ok, fault, ◌>>=◌,
}
use xfire_db.Dict.{DictEntry, Chain, DictMap, Dict, minus_one}

-- `struct dict_iterator`; its `dict` is an argument of the functions below.
pub record DictIterator : Type 0 where
  pub e : Chain
  pub e_next : Chain
  pub idx : ℕ
  pub table : ℕ
  pub safe : Bool

-- `dict_create_iterator` and the assignment of `safe`
unfoldable pub create : Bool → DictIterator
create safe = record { e = []; e_next = []; idx = minus_one; table = 0; safe = safe }

-- `dict_get_iterator`
unfoldable pub get : DictIterator
get = create false

-- `dict_get_safe_iterator`
unfoldable pub get_safe : Dict → DictIterator × Dict
get_safe d = (create true, record d { iterators = u32 (d.iterators + 1) })

-- `dict_iterator_free`, by what it does to the dictionary
unfoldable pub free : DictIterator → Dict → Dict
free it d = if it.safe then record d { iterators = u32 (d.iterators + 2 ^ 32 - 1) } else d

-- the map that an iterator stands in
unfoldable pub map_of : ℕ → Dict → DictMap
map_of table d = if table == 0 then d.primary else d.rehash

-- The next bucket: what becomes of the iterator, and whether the loop is left by `break`.
unfoldable pub advance : DictIterator → Dict → Run (Bool × DictIterator)
advance it d =
    let idx = u64 (it.idx + 1) in
    let map = map_of it.table d in
    if leb map.size idx
    then (if d.rehashing && (it.table == 0)
        then (do e ← at d.rehash.array 0; ok (false, record it { e = e; idx = 0; table = 1 }))
        else ok (true, record it { idx = idx }))
    else do e ← at map.array idx; ok (false, record it { e = e; idx = idx })

-- one round of `do … while(true)`, up to the test of `it->e`
unfoldable pub forward : DictIterator → Dict → Run (Bool × DictIterator)
forward it d = elim it.e [ [] ↦ advance it d | x ∷ rest ↦ ok (false, record it { e = it.e_next }) ]

-- `dict_iterator_next` on fuel
unfoldable pub next : ℕ → DictIterator → Dict → Run (Option DictEntry × DictIterator)
next zero it d = fault
next (suc fuel) it d = do
  (left, it) ← forward it d
  let again = next fuel it d
  if left
      then ok (none, it)
      else elim it.e [ [] ↦ again | x ∷ rest ↦ ok (some x, record it { e_next = rest }) ]
