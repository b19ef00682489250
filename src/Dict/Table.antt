-- ===== src/Dict/Table.antt =====
-- When a `struct dict_map` is a well-formed table, and what a key reads in it.
pub mod Writes
pub mod Entries
use xfire_db.Base.{
  ℕ, zero, suc, ◌+◌, ◌≤◌, ◌<◌, ◌≡◌, refl, ◌≢◌, Option, List, [], ◌∷◌, arith, length, get_or,
  CString,
}
use xfire_db.Base.Bits.{bit_and-le}
use xfire_db.Dict.{DictEntry, Chain, DictMap}
use xfire_db.Dict.Chain.{find}
use xfire_db.Dict.Chain.Laws.{occurs}
use xfire_db.Dict.Rehash.{slot}

abbrev pub bucket : DictMap → ℕ → Chain
bucket map i = get_or map.array i []

-- the number of entries in an array of buckets
abbrev pub total : List Chain → ℕ
total [] = 0
total (c ∷ cs) = length c + total cs

-- The sizes agree, the entries are counted, and a key stands at most once, in its own bucket.
pub record IsTable (map : DictMap) : Type 0 where
  pub sized : length map.array ≡ map.size
  pub masked : map.sizemask + 1 ≡ map.size
  pub counted : total map.array ≡ map.length
  pub once : (q : CString) (i : ℕ) → occurs q (bucket map i) ≤ 1
  pub placed : (q : CString) (i : ℕ) → slot map q ≢ i → occurs q (bucket map i) ≡ 0

-- the entry of a key
unfoldable pub read : DictMap → CString → Option DictEntry
read map q = find q (bucket map (slot map q))

pub slot-lt : {map : DictMap} → IsTable map → (q : CString) → slot map q < length map.array
unfolding slot
slot-lt {map} t q = omega (arith, bit_and-le _ map.sizemask)
