-- ===== src/Dict/Entries.antt =====
-- The backends of storage/dict.c that find, add and delete entries. `find` and `unlink` are the
-- loops along a chain.
pub mod Updates
pub mod Find
pub mod Add
pub mod Delete
use xfire_db.Base.{
  ℕ, ◌+◌, ◌-◌, true, false, not, Option, none, some, ◌∷◌, ◌==◌, if◌then◌else◌, is_some, CString,
  set, at, Run, ok, fault, ◌>>=◌, Bool,
}
use xfire_db.Base.Int.{ℤ, pos, negsuc, int_of}
use xfire_db.Dict.{DictType, DictEntry, DictMap, Dict, Config, Ref}
use xfire_db.Dict.Chain.{find, unlink}
use xfire_db.Dict.Rehash.{slot, rehash_step}
use xfire_db.Dict.Expand.{expand_if}

-- the work done on the bucket of a key before each operation
unfoldable pub prepare : Dict → Run Dict
prepare d = if d.rehashing then rehash_step d else ok d

-- the search for a key in one map: its bucket, and the entry if it is there
unfoldable pub search_map : DictMap → CString → Run (Option DictEntry)
search_map map key = do bucket ← at map.array (slot map key); ok (find key bucket)

-- `dict_calc_index` from the hashing on; the bucket's 32-bit number is returned as an `int`
unfoldable pub choose_index : Dict → CString → Run ℤ
choose_index d key = do
  old ← search_map d.primary key
  if is_some old
      then ok (negsuc 0)
      else if not d.rehashing
      then ok (int_of (slot d.primary key))
      else do
        old' ← search_map d.rehash key
        ok (if is_some old' then negsuc 0 else int_of (slot d.rehash key))

-- `dict_calc_index`: the bucket for a new key, or `-XFIREDB_ERR`, which is -1
unfoldable pub calc_index : Config → Dict → CString → Run (ℤ × Dict)
calc_index cfg d key =
    let (expanded, d) = expand_if cfg d in
    if expanded then (do index ← choose_index d key; ok (index, d)) else ok (negsuc 0, d)

-- a new entry in front of a bucket; `xfiredb_zalloc` clears its other fields
unfoldable pub insert_entry : DictMap → ℕ → CString → Run DictMap
insert_entry map index key = do
  next ← at map.array index
  let e : DictEntry = record { key = key; value = 0; length = 0; type = DictType.dict_ptr }
  ok (record map { array = set map.array index (e ∷ next); length = map.length + 1 })

-- the insertion into the map that takes new keys; a negative number is out of the array's bounds
unfoldable pub insert_at : Dict → ℤ → CString → Run (Option Ref × Dict)
insert_at d (negsuc i) key = fault
insert_at d (pos i) key =
    if d.rehashing
    then (do
      map ← insert_entry d.rehash i key
      ok (some (record { in_rehash = true; idx = i; key = key }), record d { rehash = map }))
    else do
      map ← insert_entry d.primary i key
      ok (some (record { in_rehash = false; idx = i; key = key }), record d { primary = map })

-- `index == -XFIREDB_ERR`
unfoldable pub is_error : ℤ → Bool
is_error (pos i) = false
is_error (negsuc i) = i == 0

-- `__dict_add` from the second `xfiredb_mutex_lock`
unfoldable pub add_locked : Config → Dict → CString → Run (Option Ref × Dict)
add_locked cfg d key = do
  (index, d) ← calc_index cfg d key
  if is_error index then ok (none, d) else insert_at d index key

-- `__dict_add`
unfoldable pub add_entry : Config → Dict → CString → Run (Option Ref × Dict)
add_entry cfg d key = do d ← prepare d; add_locked cfg d key

-- unlinking the entry with the key from its bucket
unfoldable pub delete_in : DictMap → CString → Run (Option DictEntry × DictMap)
delete_in map key = do
  bucket ← at map.array (slot map key)
  elim (find key bucket) [
    | none ↦ ok (none, map)
    | some e ↦
        let array = set map.array (slot map key) (unlink key bucket) in
        ok (some e, record map { array = array; length = map.length - 1 })
  ]

-- `__dict_delete` from the second `xfiredb_mutex_lock`
unfoldable pub delete_locked : Dict → CString → Run (Option DictEntry × Dict)
delete_locked d key = if d.primary.size == 0 then ok (none, d) else do
  (e, map) ← delete_in d.primary key
  if is_some e
      then ok (e, record d { primary = map })
      else if d.rehashing
      then (do (e', map') ← delete_in d.rehash key; ok (e', record d { rehash = map' }))
      else ok (none, d)

-- `__dict_delete`
unfoldable pub delete_entry : Dict → CString → Run (Option DictEntry × Dict)
delete_entry d key = do d ← prepare d; delete_locked d key

-- `__dict_lookup` from the second `xfiredb_mutex_lock`, with the entry that the pointer leads to
unfoldable pub lookup_locked : Dict → CString → Run (Option (Ref × DictEntry))
lookup_locked d key = if d.primary.size == 0 then ok none else do
  old ← search_map d.primary key
  elim old [
    | some e ↦ ok (some (record { in_rehash = false; idx = slot d.primary key; key = key }, e))
    | none ↦ if not d.rehashing then ok none else do
      old' ← search_map d.rehash key
      elim old' [
        | some e ↦ ok (some (record { in_rehash = true; idx = slot d.rehash key; key = key }, e))
        | none ↦ ok none
      ]
  ]

-- `__dict_lookup`
unfoldable pub lookup_entry : Dict → CString → Run (Option (Ref × DictEntry) × Dict)
lookup_entry d key = do d ← prepare d; e ← lookup_locked d key; ok (e, d)
