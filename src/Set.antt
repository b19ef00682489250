-- ===== src/Set.antt =====
-- libxfiredbengine/storage/set.c. A set stands on a skip list; a `struct set_key` is at the address of
-- its node, and its own copy of the key is kept by that address. The 32-bit counter
-- `num` is written as a natural number, exact below 2 ^ 31.
pub mod Laws
pub mod Clear
use xfire_db.Base.{
  ℕ, zero, suc, ◌+◌, ◌-◌, Bool, true, false, Option, none, some, ◌==◌, if◌then◌else◌, CString, Run,
  ok, fault, ◌>>=◌,
}
use xfire_db.SkipList.{
  Nodes, SkipList, skiplist_init, skiplist_search, skiplist_insert, skiplist_delete,
  skiplist_node_destroy,
}
use xfire_db.SkipList.Iterator.{
  SkiplistIterator, skiplist_iterator_new, skiplist_iterator_next, skiplist_iterator_delete,
}

-- `struct set`
pub record Set : Type 0 where
  pub list : SkipList
  pub num : ℕ
  pub names : ℕ → Option CString

-- the `key` of a set key
unfoldable pub name_of : ℕ → Option CString → (ℕ → Option CString) → ℕ → Option CString
name_of a name names b = if a == b then name else names b

-- `set_init`
unfoldable pub set_init : ℕ → Nodes → Set
set_init header nodes = record { list = skiplist_init header nodes; num = 0; names = λ a. none }

-- `set_contains`
unfoldable pub set_contains : ℕ → Set → CString → Run Bool
set_contains fuel s key = do
  node ← skiplist_search fuel s.list key
  elim node [ none ↦ ok false | some a ↦ ok true ]

-- `set_add`; `false` is `-XFIREDB_ERR`. `skiplist_insert` returns `-XFIREDB_OK` always.
unfoldable pub set_add : ℕ → (ℕ → Bool) → Set → CString → ℕ → Run (Bool × Set)
set_add fuel coin s key k = do
  there ← set_contains fuel s key
  elim there [
    | true ↦ ok (false, s)
    | false ↦ do
      list ← skiplist_insert fuel coin s.list key k
      ok (true, record { list = list; num = s.num + 1; names = name_of k (some key) s.names })
  ]

-- `set_remove`; `none` is null
unfoldable pub set_remove : ℕ → Set → CString → Run (Option ℕ × Set)
set_remove fuel s key = do
  node ← skiplist_search fuel s.list key
  (done, list) ← skiplist_delete fuel s.list key
  elim done [
    | true ↦ ok (node, record s { list = list; num = s.num - 1 })
    | false ↦ ok (none, record s { list = list })
  ]

-- `set_key_destroy`
unfoldable pub set_key_destroy : Set → ℕ → Run Set
set_key_destroy s k = do
  nodes ← skiplist_node_destroy s.list.nodes k
  ok (record s { list = record (s.list) { nodes = nodes }; names = name_of k none s.names })

-- the memory of a set key is freed, with its node
unfoldable pub free_key : Set → ℕ → Set
free_key s k = record s {
  list = record (s.list) { nodes = λ b. if k == b then none else s.list.nodes b };
  names = name_of k none s.names;
}

-- the loop of `set_clear`
unfoldable pub clear_keys : ℕ → ℕ → Set → SkiplistIterator → Run Set
clear_keys zero fuel s it = fault
clear_keys (suc rounds) fuel s it = do
  (node, it) ← skiplist_iterator_next s.list it
  elim node [
    | none ↦ ok s
    | some k ↦ do
      (current, list, it) ← skiplist_iterator_delete fuel s.list it
      clear_keys rounds fuel (free_key (record s { list = list }) k) it
  ]

-- `set_clear`, which returns `-XFIREDB_OK` always
unfoldable pub set_clear : ℕ → ℕ → Set → Run Set
set_clear rounds fuel s = clear_keys rounds fuel s (skiplist_iterator_new s.list)
