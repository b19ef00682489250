-- ===== src/SkipList.antt =====
-- The skip list of libxfiredbengine/storage/skiplist.c, on a heap of nodes. Its lock makes each
-- function one step. The loops are on fuel, for which more than the number of nodes is enough.
-- The 32-bit counter `size` is written as a natural number, exact below 2 ^ 31.
-- `rand` is a stream of outcomes: whether its n-th value in a call lies below `prob`.
pub mod Chains
pub mod Heap
pub mod Towers
pub mod Walks
pub mod Spots
pub mod Search
pub mod Links
pub mod Orders
pub mod Fronts
pub mod Insert
pub mod Inserts
pub mod Unlinks
pub mod Approach
pub mod Lowers
pub mod Delete
pub mod Deletes
pub mod Keys
pub mod Lookups
pub mod Frames
pub mod Iterator
mod Tests
use xfire_db.Base.{
  ℕ, zero, suc, ◌+◌, ◌-◌, ◌*◌, ◌^◌, Bool, true, false, Option, none, some, List, [], ◌∷◌, ◌==◌, ltb,
  leb, if◌then◌else◌, length, at, set, replicate, CString, str_eq, Run, ok, fault, ◌>>=◌,
}
use xfire_db.Dict.Hash.{hash_key}

abbrev pub max_levels : ℕ
max_levels = 6

-- `SKIPLIST_MAX_SIZE`
abbrev pub max_size : ℕ
max_size = 2 ^ 32 - 1

-- `struct skiplist_node`
pub record Node : Type 0 where
  pub key : Option CString
  pub hash : ℕ
  pub forward : List ℕ

abbrev pub Nodes : Type 0
Nodes = ℕ → Option Node

-- `struct skiplist`, with the nodes that it links
pub record SkipList : Type 0 where
  pub level : ℕ
  pub size : ℕ
  pub header : ℕ
  pub nodes : Nodes

-- `skiplist_hash_key`, which is `dict_hash_key` letter for letter, with `SKIPLIST_SEED`
unfoldable pub skiplist_hash_key : CString → ℕ
skiplist_hash_key key = hash_key key 0x8FE3C9A1

-- reads and writes through a pointer to a node
unfoldable pub deref : Nodes → ℕ → Run Node
deref nodes a = elim (nodes a) [ none ↦ fault | some x ↦ ok x ]

unfoldable pub write : Nodes → ℕ → Node → Nodes
write nodes a x b = if a == b then some x else nodes b

unfoldable pub forward : Nodes → ℕ → ℕ → Run ℕ
forward nodes a i = do x ← deref nodes a; at x.forward i

unfoldable pub set_forward : Nodes → ℕ → ℕ → ℕ → Run Nodes
set_forward nodes a i b = do
  x ← deref nodes a
  old ← at x.forward i
  ok (write nodes a (record x { forward = set x.forward i b }))

unfoldable pub hash_of : Nodes → ℕ → Run ℕ
hash_of nodes a = do x ← deref nodes a; ok x.hash

-- `strcmp` on a node's key, which must not be null
unfoldable pub same_key : Nodes → ℕ → CString → Run Bool
same_key nodes a key = do
  x ← deref nodes a
  elim x.key [ none ↦ fault | some k ↦ ok (str_eq k key) ]

-- `x->key && !strcmp(x->key, key)`
unfoldable pub has_key : Node → CString → Bool
has_key x key = elim x.key [ none ↦ false | some k ↦ str_eq k key ]

-- `raw_skiplist_init`, with the address of the header that it allocates
unfoldable pub skiplist_init : ℕ → Nodes → SkipList
skiplist_init header nodes =
    let x : Node = record {
      key = none;
      hash = max_size;
      forward = replicate (max_levels + 1) header;
    } in
    record { level = 1; size = 0; header = header; nodes = write nodes header x }

-- `skiplist_rand_level`: the rest of its loop, and the whole
unfoldable pub climb : (ℕ → Bool) → ℕ → ℕ → ℕ
climb coin zero height = height
climb coin (suc left) height = elim (coin height) [
  | true ↦ climb coin left (height + 1)
  | false ↦ height
]

unfoldable pub skiplist_rand_level : (ℕ → Bool) → ℕ → ℕ
skiplist_rand_level coin max = climb coin (max - 1) 1

-- `while(node->forward[i]->hash < hash)`
unfoldable pub walk : ℕ → Nodes → ℕ → ℕ → ℕ → Run ℕ
walk zero nodes i hash node = fault
walk (suc fuel) nodes i hash node = do
  next ← forward nodes node i
  x ← hash_of nodes next
  elim (ltb x hash) [ true ↦ walk fuel nodes i hash next | false ↦ ok node ]

-- `while(strcmp(node->forward[1]->key, key))`
unfoldable pub skip_others : ℕ → Nodes → CString → ℕ → Run ℕ
skip_others zero nodes key node = fault
skip_others (suc fuel) nodes key node = do
  next ← forward nodes node 1
  same ← same_key nodes next key
  elim same [ true ↦ ok node | false ↦ skip_others fuel nodes key next ]

-- an element of an array
abbrev pub put : (ℕ → ℕ) → ℕ → ℕ → ℕ → ℕ
put update i a j = if i == j then a else update j

-- The loop over the levels, of `skiplist_search`, `skiplist_insert` and `skiplist_delete`: the last
-- node, and `update`, which the first does not keep. Its body is the walk along a level.
unfoldable pub descend : (ℕ → ℕ → Run ℕ) → ℕ → ℕ → (ℕ → ℕ) → Run (ℕ × (ℕ → ℕ))
descend body zero node update = ok (node, update)
descend body (suc i) node update = do
  node ← body (suc i) node
  descend body i node (put update (suc i) node)

-- the branch of `skiplist_search` for a node with the key's hash
unfoldable pub resolve : ℕ → Nodes → CString → ℕ → ℕ → Run (Option ℕ)
resolve fuel nodes key hash node = do
  node ← skip_others fuel nodes key node
  next ← forward nodes node 1
  x ← hash_of nodes next
  ok (if x == hash then some next else none)

-- `skiplist_search`, the address of a node; `none` is null
unfoldable pub skiplist_search : ℕ → SkipList → CString → Run (Option ℕ)
skiplist_search fuel l key = do
  let hash = skiplist_hash_key key
  (node, update) ← descend (λ i x. walk fuel l.nodes i hash x) l.level l.header (λ i. 0)
  next ← forward l.nodes node 1
  x ← hash_of l.nodes next
  elim (x == hash) [ false ↦ ok none | true ↦ resolve fuel l.nodes key hash node ]

-- the two assignments that link a node behind another on a level
unfoldable pub link_at : ℕ → ℕ → ℕ → Nodes → Run Nodes
link_at i before node nodes = do
  next ← forward nodes before i
  nodes ← set_forward nodes node i next
  set_forward nodes before i node

-- the loop of `skiplist_insert` that links a node, from level `i` on
unfoldable pub link_levels : ℕ → ℕ → (ℕ → ℕ) → ℕ → Nodes → Run Nodes
link_levels zero i update node nodes = ok nodes
link_levels (suc left) i update node nodes = do
  nodes ← link_at i (update i) node nodes
  link_levels left (i + 1) update node nodes

-- `update` on the levels that are new
unfoldable pub raise : ℕ → ℕ → (ℕ → ℕ) → ℕ → ℕ
raise old header update i = if leb i old then update i else header

-- `skiplist_insert` of a node that is allocated at an address; it returns `-XFIREDB_OK` always
unfoldable pub skiplist_insert : ℕ → (ℕ → Bool) → SkipList → CString → ℕ → Run SkipList
skiplist_insert fuel coin l key node = do
  let hash = skiplist_hash_key key
  (carriage, update) ← descend (λ i x. walk fuel l.nodes i hash x) l.level l.header (λ i. 0)
  carriage ← forward l.nodes carriage 1
  x ← deref l.nodes carriage
  if has_key x key then ok l else do
    let level = skiplist_rand_level coin max_levels
    let update = if ltb l.level level then raise l.level l.header update else update
    let new : Node = record { key = some key; hash = hash; forward = replicate (level + 1) 0 }
    old ← deref l.nodes node
    nodes ← link_levels level 1 update node (write l.nodes node new)
    ok (record {
      level = if ltb l.level level then level else l.level;
      size = l.size + 1;
      header = l.header;
      nodes = nodes;
    })

-- the inner loop of `skiplist_delete`
unfoldable pub approach : ℕ → Nodes → ℕ → ℕ → CString → ℕ → Run ℕ
approach zero nodes i hash key x = fault
approach (suc fuel) nodes i hash key x = do
  next ← forward nodes x i
  y ← hash_of nodes next
  elim (leb y hash) [
    | false ↦ ok x
    | true ↦ elim (y == hash) [
      | false ↦ approach fuel nodes i hash key next
      | true ↦ do
        same ← same_key nodes next key
        elim same [ true ↦ ok x | false ↦ approach fuel nodes i hash key next ]
    ]
  ]

-- the loop that takes a node out of its levels, from level `i` on
unfoldable pub unlink_levels : ℕ → ℕ → (ℕ → ℕ) → ℕ → Nodes → Run Nodes
unlink_levels zero i update x nodes = ok nodes
unlink_levels (suc left) i update x nodes = do
  next ← forward nodes (update i) i
  elim (next == x) [
    | false ↦ ok nodes
    | true ↦ do
      after ← forward nodes x i
      nodes ← set_forward nodes (update i) i after
      unlink_levels left (i + 1) update x nodes
  ]

-- `skiplist_node_destroy`
unfoldable pub skiplist_node_destroy : Nodes → ℕ → Run Nodes
skiplist_node_destroy nodes a = do
  x ← deref nodes a
  ok (write nodes a (record { key = none; hash = x.hash; forward = [] }))

-- `while(list->level > 1 && …) list->level--`
unfoldable pub lower_level : Nodes → ℕ → ℕ → Run ℕ
lower_level nodes header zero = ok 0
lower_level nodes header (suc level) = elim (ltb 0 level) [
  | false ↦ ok (suc level)
  | true ↦ do
    next ← forward nodes header (suc level)
    elim (next == header) [ true ↦ lower_level nodes header level | false ↦ ok (suc level) ]
]

-- the branch of `skiplist_delete` for a node with the key's hash
unfoldable pub take_out : SkipList → CString → (ℕ → ℕ) → ℕ → Run (Bool × SkipList)
take_out l key update x = do
  found ← deref l.nodes x
  elim (has_key found key) [
    | false ↦ ok (false, l)
    | true ↦ do
      nodes ← unlink_levels l.level 1 update x l.nodes
      nodes ← skiplist_node_destroy nodes x
      level ← lower_level nodes l.header l.level
      ok (true, record { level = level; size = l.size - 1; header = l.header; nodes = nodes })
  ]

-- `skiplist_delete`; `false` is `-XFIREDB_ERR`
unfoldable pub skiplist_delete : ℕ → SkipList → CString → Run (Bool × SkipList)
skiplist_delete fuel l key = do
  let hash = skiplist_hash_key key
  (x, update) ← descend (λ i x. approach fuel l.nodes i hash key x) l.level l.header (λ i. 0)
  next ← forward l.nodes x 1
  y ← hash_of l.nodes next
  elim (y == hash) [ false ↦ ok (false, l) | true ↦ take_out l key update next ]
