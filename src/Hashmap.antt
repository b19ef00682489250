-- ===== src/Hashmap.antt =====
-- libxfiredbengine/storage/hashmap.c. A hashmap stands on a skip list; a `struct hashmap_node` is at
-- the address of its first field, the node, and its own copy of the key is kept by that address. The
-- 32-bit counter `num` is written as a natural number, exact below 2 ^ 31.
pub mod Laws
use xfire_db.Base.{
  ℕ, zero, suc, ◌+◌, ◌-◌, Bool, true, false, Option, none, some, ◌==◌, if◌then◌else◌, CString, Run,
  ok, fault, ◌>>=◌,
}
use xfire_db.SkipList.{
  Nodes, SkipList, skiplist_init, skiplist_search, skiplist_insert, skiplist_delete,
  skiplist_node_destroy,
}
use xfire_db.SkipList.Iterator.{
  SkiplistIterator, skiplist_iterator_new, skiplist_iterator_next, skiplist_iterator_delete,
}

-- `struct hashmap`
pub record Hashmap : Type 0 where
  pub list : SkipList
  pub num : ℕ
  pub names : ℕ → Option CString

-- `hashmap_init`
unfoldable pub hashmap_init : ℕ → Nodes → Hashmap
hashmap_init header nodes = record { list = skiplist_init header nodes; num = 0; names = λ a. none }

-- `hashmap_node_destroy`
unfoldable pub hashmap_node_destroy : Hashmap → ℕ → Run Hashmap
hashmap_node_destroy hm n = do
  nodes ← skiplist_node_destroy hm.list.nodes n
  ok (record hm {
    list = record (hm.list) { nodes = nodes };
    names = λ b. if n == b then none else hm.names b;
  })

-- `hashmap_add`. `skiplist_insert` returns `-XFIREDB_OK` always, and so does this.
unfoldable pub hashmap_add : ℕ → (ℕ → Bool) → Hashmap → CString → ℕ → Run Hashmap
hashmap_add fuel coin hm key n = do
  list ← skiplist_insert fuel coin hm.list key n
  ok (record {
    list = list;
    num = hm.num + 1;
    names = λ b. if n == b then some key else hm.names b;
  })

-- `hashmap_remove`; `none` is null
unfoldable pub hashmap_remove : ℕ → Hashmap → CString → Run (Option ℕ × Hashmap)
hashmap_remove fuel hm key = do
  node ← skiplist_search fuel hm.list key
  (done, list) ← skiplist_delete fuel hm.list key
  elim done [
    | true ↦ ok (node, record hm { list = list; num = hm.num - 1 })
    | false ↦ ok (none, record hm { list = list })
  ]

-- `hashmap_find`; `none` is null
unfoldable pub hashmap_find : ℕ → Hashmap → CString → Run (Option ℕ)
hashmap_find fuel hm key = do
  node ← skiplist_search fuel hm.list key
  elim node [ none ↦ ok none | some a ↦ ok (some a) ]

-- `hashmap_new_iterator`
unfoldable pub hashmap_new_iterator : Hashmap → SkiplistIterator
hashmap_new_iterator hm = skiplist_iterator_new hm.list

-- `hashmap_iterator_next`, of an iterator that is not null
unfoldable pub hashmap_iterator_next :
    Hashmap → SkiplistIterator → Run (Option ℕ × SkiplistIterator)
hashmap_iterator_next hm it = do
  (node, it) ← skiplist_iterator_next hm.list it
  elim node [ none ↦ ok (none, it) | some a ↦ ok (some a, it) ]

-- `hashmap_iterator_delete`, which does not count
unfoldable pub hashmap_iterator_delete :
    ℕ → Hashmap → SkiplistIterator → Run (Option ℕ × Hashmap × SkiplistIterator)
hashmap_iterator_delete fuel hm it = do
  (node, list, it) ← skiplist_iterator_delete fuel hm.list it
  ok (node, record hm { list = list }, it)
