-- ===== src/Dict/Api.antt =====
-- The public functions of storage/dict.c on one dictionary. `data` is an address or a pointer to a
-- 64-bit value, so what memory holds at it is a parameter; a null `key` is `none`.
pub mod Stores
pub mod Changes
pub mod Reads
pub mod Clears
use xfire_db.Base.{
  ℕ, zero, suc, ◌+◌, ◌-◌, Bool, true, false, Option, none, some, List, [], ◌∷◌, ◌++◌, if◌then◌else◌,
  ltb, replicate, is_some, CString, set, at, Run, ok, ◌>>=◌,
}
use xfire_db.Dict.{
  DictType, DictStatus, DictEntry, Chain, DictMap, Dict, Config, Ref, minus_one, minimal_size,
  reset,
}
use xfire_db.Dict.Chain.{modify}
use xfire_db.Dict.Entries.{add_entry, delete_entry, lookup_entry}

-- `dict_init` on cleared memory
unfoldable pub init : Dict
init = record {
  primary = record {
    array = replicate 4 [];
    size = minimal_size;
    sizemask = minimal_size - 1;
    length = 0;
  };
  rehash = reset;
  status = DictStatus.status_none;
  rehashidx = 0;
  rehashing = false;
  iterators = 0;
}

-- `dict_get_size`
unfoldable pub get_size : Dict → ℕ
get_size d = d.primary.length + d.rehash.length

-- `dict_get_entry_length`, on a 64-bit machine
unfoldable pub get_entry_length : DictType → ℕ
get_entry_length DictType.dict_ptr = 8
get_entry_length DictType.dict_u64 = 8
get_entry_length DictType.dict_s64 = 8
get_entry_length DictType.dict_flt = 8

-- a write to the entry that a pointer leads to
unfoldable pub write_entry : Ref → (DictEntry → DictEntry) → Dict → Run Dict
write_entry r f d =
    if r.in_rehash
    then (do
      c ← at d.rehash.array r.idx
      let array = set d.rehash.array r.idx (modify r.key f c)
      ok (record d { rehash = record (d.rehash) { array = array } }))
    else do
      c ← at d.primary.array r.idx
      let array = set d.primary.array r.idx (modify r.key f c)
      ok (record d { primary = record (d.primary) { array = array } })

module _ (memory : ℕ → ℕ) where
  -- `dict_set_val`
  unfoldable pub set_val : ℕ → DictType → DictEntry → DictEntry
  set_val address DictType.dict_ptr e = record e { value = address }
  set_val address DictType.dict_u64 e = record e { value = memory address }
  set_val address DictType.dict_s64 e = record e { value = memory address }
  set_val address DictType.dict_flt e = record e { value = memory address }

  -- the two assignments behind a lookup or an addition
  unfoldable pub store_val : ℕ → DictType → ℕ → DictEntry → DictEntry
  store_val address t size e = record (set_val address t e) { length = size }

  -- `raw_dict_add`; the first part is `true` for `-XFIREDB_OK`
  unfoldable pub raw_add : Config → Dict → CString → ℕ → DictType → ℕ → Run (Bool × Dict)
  raw_add cfg d key address t size = do
    (e, d) ← add_entry cfg d key
    elim e [
      | none ↦ ok (false, d)
      | some r ↦ do d ← write_entry r (store_val address t size) d; ok (true, d)
    ]

  -- `dict_add`
  unfoldable pub add : Config → Dict → CString → ℕ → DictType → Run (Bool × Dict)
  add cfg d key address t = raw_add cfg d key address t (get_entry_length t)

  -- `raw_dict_update`; an absent key is added with the length of its type, whatever `size` says
  unfoldable pub raw_update : Config → Dict → CString → ℕ → DictType → ℕ → Run (Bool × Dict)
  raw_update cfg d key address t size = do
    (e, d) ← lookup_entry d key
    elim e [
      | none ↦ add cfg d key address t
      | some (r, old) ↦ do d ← write_entry r (store_val address t size) d; ok (true, d)
    ]

  -- `dict_update`
  unfoldable pub update : Config → Dict → CString → ℕ → DictType → Run (Bool × Dict)
  update cfg d key address t = raw_update cfg d key address t (get_entry_length t)

-- What `dict_delete` does besides: it frees the stored pointer, or writes the value to `*data`.
pub data Deleted : Type 0 where
  missing : Deleted
  freed : ℕ → Deleted
  written : ℕ → Deleted

-- `dict_delete`; all but `missing` return `-XFIREDB_OK`
unfoldable pub delete : Dict → Option CString → Bool → Run (Deleted × Dict)
delete d none free = ok (missing, d)
delete d (some key) free = do
  (e, d) ← delete_entry d key
  elim e [
    | none ↦ ok (missing, d)
    | some e ↦ ok (if free then freed e.value else written e.value, d)
  ]

-- `dict_lookup`: the value and the length that it stores, `none` for `-XFIREDB_ERR`
unfoldable pub lookup : Dict → Option CString → Run (Option (ℕ × ℕ) × Dict)
lookup d none = ok (none, d)
lookup d (some key) = do
  (e, d) ← lookup_entry d key
  elim e [ none ↦ ok (none, d) | some (r, e) ↦ ok (some (e.value, e.length), d) ]

-- `dict_key_available`
unfoldable pub key_available : Dict → Option CString → Run (Bool × Dict)
key_available d key = do (e, d) ← lookup d key; ok (is_some e, d)

-- `while(e)` of `__dict_clear`, with the count of the entries that are left
unfoldable pub free_chain : Chain → ℕ → ℕ
free_chain [] left = left
free_chain (e ∷ next) left = free_chain next (left - 1)

-- `__dict_clear`: the entries it frees, and the map behind it; `rounds` is `size - i`
unfoldable pub clear_loop : ℕ → ℕ → List Chain → ℕ → Run Chain
clear_loop zero i array left = ok []
clear_loop (suc rounds) i array left = elim (ltb 0 left) [
  | false ↦ ok []
  | true ↦ do
    c ← at array i
    rest ← clear_loop rounds (i + 1) array (free_chain c left)
    ok (c ++ rest)
]

unfoldable pub clear_map : DictMap → Run (Chain × DictMap)
clear_map map = do entries ← clear_loop map.size 0 map.array map.length; ok (entries, reset)

-- `dict_clear`, with the entries that it frees
unfoldable pub clear : Dict → Run (Chain × Dict)
clear d = do
  (entries, primary) ← clear_map d.primary
  (entries', rehash) ← clear_map d.rehash
  ok (
    entries ++ entries',
    record d { primary = primary; rehash = rehash; rehashidx = minus_one; rehashing = false },
  )
