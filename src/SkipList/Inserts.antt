-- ===== src/SkipList/Inserts.antt =====
-- `skiplist_insert` of libxfiredbengine/storage/skiplist.c as a whole.
use xfire_db.Base.{
  ℕ, ◌+◌, ◌≤◌, ◌<◌, ◌≡◌, refl, sym, inl, inr, Bool, true, false, none, some, List, ◌∷◌, ◌++◌, ltb,
  leb, if◌then◌else◌, length, replicate, CString, ok, arith, Bool-cases, Returns,
}
use xfire_db.SkipList.{
  Node, Nodes, SkipList, deref, write, forward, has_key, walk, descend, skiplist_rand_level, raise,
  link_levels, skiplist_insert, skiplist_hash_key, max_levels,
}
use xfire_db.SkipList.Chains.{In}
use xfire_db.SkipList.Spots.{locate, Fits, absent, present, spot}
use xfire_db.SkipList.Towers.{Tower, hash, All, addrs, IsSkipList, lower, upper}
use xfire_db.SkipList.Walks.{before, descend-update, walk-before}
use xfire_db.SkipList.Fronts.{below, before-above, front_key, front_found, rand_level_bounds}
use xfire_db.SkipList.Insert.{links, inserted}

-- the array of the nodes before the new one
abbrev pub path : SkipList → ℕ → (ℕ → ℕ) → ℕ → ℕ
path l level update = if ltb l.level level then raise l.level l.header update else update

insert_step :
    (fuel : ℕ) (coin : ℕ → Bool) (l : SkipList) (key : CString) (node last' next : ℕ)
    (update : ℕ → ℕ) (x : Node)
    → descend (λ i x. walk fuel l.nodes i (skiplist_hash_key key) x) l.level l.header (λ i. 0)
      ≡ ok (last', update)
    → forward l.nodes last' 1 ≡ ok next
    → deref l.nodes next ≡ ok x
    → has_key x key ≡ true
    → skiplist_insert fuel coin l key node ≡ ok l
unfolding skiplist_insert
insert_step fuel coin l key node last' next update x run e e' same =
    rw (skiplist_insert, run, e, e', same) refl

insert_new_step :
    (fuel : ℕ) (coin : ℕ → Bool) (l : SkipList) (key : CString) (node last' next : ℕ)
    (update : ℕ → ℕ) (x old : Node) (nodes : Nodes)
    → descend (λ i x. walk fuel l.nodes i (skiplist_hash_key key) x) l.level l.header (λ i. 0)
      ≡ ok (last', update)
    → forward l.nodes last' 1 ≡ ok next
    → deref l.nodes next ≡ ok x
    → has_key x key ≡ false
    → deref l.nodes node ≡ ok old
    → link_levels
        (skiplist_rand_level coin max_levels)
        1
        (path l (skiplist_rand_level coin max_levels) update)
        node
        (write l.nodes node (record {
          key = some key;
          hash = skiplist_hash_key key;
          forward = replicate (skiplist_rand_level coin max_levels + 1) 0;
        }))
      ≡ ok nodes
    → skiplist_insert fuel coin l key node
      ≡ ok (record {
        level =
            if ltb l.level (skiplist_rand_level coin max_levels)
            then skiplist_rand_level coin max_levels
            else l.level;
        size = l.size + 1;
        header = l.header;
        nodes = nodes;
      })
unfolding skiplist_insert
insert_new_step fuel coin l key node last' next update x old nodes run e e' same at_node linked =
    rw (skiplist_insert, run, e, e', same, at_node, linked) refl

-- the nodes with a new one in its place, unless the key is there
abbrev pub add : CString → ℕ → ℕ → List Tower → List Tower
add key node level ts = elim (locate key ts) [
  | some a ↦ ts
  | none ↦
      lower (skiplist_hash_key key) ts
      ++ (record { addr = node; key = key; height = level } ∷ upper (skiplist_hash_key key) ts)
]

module _ (l : SkipList) (ts : List Tower) (s : IsSkipList l ts) (key : CString)
    (f : Fits key ts) where
  abbrev h : ℕ
  h = skiplist_hash_key key

  path-before :
      (level : ℕ) (update : ℕ → ℕ)
      → ((j : ℕ) → 1 ≤ j → j ≤ l.level → update j ≡ before l ts h j)
      → (j : ℕ) → 1 ≤ j
      → j ≤ level
      → path l level update j ≡ before l ts h j
  unfolding raise
  path-before level update inside j low high = elim (Bool-cases (leb j l.level)) [
    | inl on ↦ elim (Bool-cases (ltb l.level level)) [
      | inl up ↦ rw (up, on) (inside j low (ground (arith, on)))
      | inr up ↦ rw up (inside j low (ground (arith, on)))
    ]
    | inr off ↦
        let up : ltb l.level level ≡ true = ground (arith, off, high) in
        rw (up, off) (sym (before-above l ts s key f j (ground (arith, off))))
  ]

  module _ (fuel : ℕ) (enough : length ts < fuel) (coin : ℕ → Bool) (node : ℕ) (old : Node) where
    abbrev level : ℕ
    level = skiplist_rand_level coin max_levels

    abbrev Inserted : Type 0
    Inserted =
        Returns (skiplist_insert fuel coin l key node) λ l'. IsSkipList l' (add key node level ts)

    insert_found :
        (t : Tower) (rest : List Tower)
        → upper h ts ≡ t ∷ rest
        → t.key ≡ key
        → locate key ts ≡ some t.addr
        → Inserted
    insert_found t rest up k here =
        let ((last', update), run, (to, inside)) =
          descend-update l ts s h (below l ts s key f) (λ i x. walk fuel l.nodes i h x)
            (walk-before l ts s h (below l ts s key f) fuel enough) in
        let (x, at_x, same) = front_found l ts s key f t rest up k in
        (l, insert_step fuel coin l key node last' _ update x run to at_x same, rw (add, here) s)

    grown :
        level ≤ max_levels
        → (l.level ≤ (if ltb l.level level then level else l.level))
          × (level ≤ (if ltb l.level level then level else l.level))
          × ((if ltb l.level level then level else l.level) ≤ max_levels)
    grown high = elim (Bool-cases (ltb l.level level)) [
      | inl up ↦ rw up (ground (arith, up), omega arith, high)
      | inr up ↦ rw up (omega arith, ground (arith, up), s.levels.1)
    ]

    insert_new :
        (In node (l.header ∷ addrs ts) → ⊥)
        → deref l.nodes node ≡ ok old
        → locate key ts ≡ none
        → All (λ t. h < hash t) (upper h ts)
        → Inserted
    insert_new new at_node gone beyond =
        let ((last', update), run, (to, inside)) =
          descend-update l ts s h (below l ts s key f) (λ i x. walk fuel l.nodes i h x)
            (walk-before l ts s h (below l ts s key f) fuel enough) in
        let (x, at_x, same) = front_key l ts s key f beyond in
        let (low, high) = rand_level_bounds coin in
        let (nodes, run', w) =
          links l ts s key f node level new low high (path l level update)
            (path-before level update inside) in
        (
          _,
          insert_new_step fuel coin l key node last' _ update x old nodes run to at_x same at_node
              run',
          rw (add, gone)
              (inserted l ts s key f node level new low high (path l level update)
                (path-before level update inside) nodes w _ refl refl (grown high) refl beyond
                f.below),
        )

    -- In a skip list with more fuel than nodes, `skiplist_insert` of an allocated node that is not
    -- in it does not fault. What it leaves is a skip list: of the same nodes, if the key is there;
    -- otherwise with the new node behind those with smaller hashes, on as many levels as were
    -- drawn. The key's hash must not be that of the header, and no other key of the list may have
    -- it.
    pub skiplist_insert-IsSkipList :
        (In node (l.header ∷ addrs ts) → ⊥) → deref l.nodes node ≡ ok old → Inserted
    skiplist_insert-IsSkipList new at_node = elim (spot key ts s.ascending f) [
      | absent gone beyond ↦ insert_new new at_node gone beyond
      | present t rest up k here beyond without ↦ insert_found t rest up k here
    ]
