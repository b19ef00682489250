-- ===== src/SkipList/Deletes.antt =====
-- `skiplist_delete` of libxfiredbengine/storage/skiplist.c as a whole.
use mathlib.Core.Path.{subst}
use xfire_db.Base.{
  ℕ, ◌+◌, ◌-◌, ◌≤◌, ◌<◌, ◌≡◌, refl, sym, ◌∙◌, ap, Bool, true, false, none, some, is_some, List, [],
  ◌∷◌, ◌++◌, ◌==◌, ==_iff, length, CString, Run, ok, ◌>>=◌, arith, Returns,
}
use xfire_db.SkipList.{
  Node, Nodes, SkipList, deref, write, forward, hash_of, has_key, approach, descend, unlink_levels,
  lower_level, skiplist_node_destroy, take_out, skiplist_delete, skiplist_hash_key,
}
use xfire_db.SkipList.Approach.{approach-before}
use xfire_db.SkipList.Delete.{left, header-out, left_chain, left_towers, unlinks, nodes2, deleted}
use xfire_db.SkipList.Fronts.{below, front_found}
use xfire_db.SkipList.Heap.{Holds-node, hash_of-Holds, deref_of}
use xfire_db.SkipList.Lowers.{lower_level-heights}
use xfire_db.SkipList.Search.{front-IsTower, first-front, beyond_hash}
use xfire_db.SkipList.Spots.{locate, remove, remove-none, Fits, absent, present, spot}
use xfire_db.SkipList.Towers.{Tower, hash, All, All-map, IsTower, IsSkipList, lower, upper}
use xfire_db.SkipList.Walks.{descend-update}

module _ (fuel : ℕ) (l : SkipList) (key : CString) where
  abbrev h : ℕ
  h = skiplist_hash_key key

  delete_step :
      (x next y : ℕ) (update : ℕ → ℕ)
      → descend (λ i x. approach fuel l.nodes i h key x) l.level l.header (λ i. 0) ≡ ok (x, update)
      → forward l.nodes x 1 ≡ ok next
      → hash_of l.nodes next ≡ ok y
      → skiplist_delete fuel l key ≡ elim (y == h) as (λ b. Run (Bool × SkipList)) [
        | false ↦ ok (false, l)
        | true ↦ take_out l key update next
      ]
  unfolding skiplist_delete
  delete_step x next y update run e e' = rw (skiplist_delete, run, e, e') refl

module _ (l : SkipList) (key : CString) where
  take_out_test :
      (update : ℕ → ℕ) (next : ℕ) (node : Node)
      → deref l.nodes next ≡ ok node
      → take_out l key update next ≡ elim (has_key node key) as (λ b. Run (Bool × SkipList)) [
        | false ↦ ok (false, l)
        | true ↦ do
          nodes ← unlink_levels l.level 1 update next l.nodes
          nodes ← skiplist_node_destroy nodes next
          level ← lower_level nodes l.header l.level
          ok (true, record { level = level; size = l.size - 1; header = l.header; nodes = nodes })
      ]
  unfolding take_out
  take_out_test update next node e = rw (take_out, e) refl

  take_out_step :
      (update : ℕ → ℕ) (next level : ℕ) (node : Node) (n1 nodes : Nodes)
      → deref l.nodes next ≡ ok node
      → has_key node key ≡ true
      → unlink_levels l.level 1 update next l.nodes ≡ ok n1
      → skiplist_node_destroy n1 next ≡ ok nodes
      → lower_level nodes l.header l.level ≡ ok level
      → take_out l key update next
        ≡ ok (true, record { level = level; size = l.size - 1; header = l.header; nodes = nodes })
  take_out_step update next level node n1 nodes e same run run' run2 =
      take_out_test update next node e ∙ rw (same, run, run', run2) refl

dead : Node → Node
dead x = record { key = none; hash = x.hash; forward = [] }

destroy-dead :
    (nodes : Nodes) (a : ℕ) (x : Node)
    → nodes a ≡ some x
    → skiplist_node_destroy nodes a ≡ ok (write nodes a (dead x))
unfolding skiplist_node_destroy dead
destroy-dead nodes a x e = rw (skiplist_node_destroy, deref_of nodes a x e) refl

module _ (l : SkipList) (ts : List Tower) (s : IsSkipList l ts) (key : CString)
    (f : Fits key ts) where
  abbrev hashed : ℕ
  hashed = skiplist_hash_key key

  -- the answer and the list that are due
  abbrev pub Deleted : ℕ → Type 0
  Deleted fuel = Returns (skiplist_delete fuel l key) λ (found, l').
      (found ≡ is_some (locate key ts)) × (l'.header ≡ l.header) × IsSkipList l' (remove key ts)

  delete_missing :
      (fuel : ℕ)
      → length ts < fuel
      → locate key ts ≡ none
      → All (λ t. hashed < hash t) (upper hashed ts)
      → Deleted fuel
  delete_missing fuel enough gone beyond =
      let ((x, update), run, (next, inside)) =
        descend-update l ts s hashed (below l ts s key f)
          (λ i x. approach fuel l.nodes i hashed key x)
          (approach-before l ts s key f fuel enough) in
      let (y, at_y, lt) = beyond_hash l ts s key f beyond 1 in
      let off : (y == hashed) ≡ false = ground (arith, lt) in
      (
        (false, l),
        delete_step fuel l key x _ y update run next at_y ∙ rw off refl,
        (rw (is_some, gone) refl, refl, subst (IsSkipList l) (sym (remove-none key ts gone)) s),
      )

  delete_found :
      (fuel : ℕ)
      → length ts < fuel
      → (t : Tower) (rest : List Tower) (up : upper hashed ts ≡ t ∷ rest) → t.key ≡ key
      → locate key ts ≡ some t.addr
      → remove key ts ≡ lower hashed ts ++ rest
      → Deleted fuel
  delete_found fuel enough t rest up k here without =
      let ((x, update), run, (next, inside)) =
        descend-update l ts s hashed (below l ts s key f)
          (λ i x. approach fuel l.nodes i hashed key x)
          (approach-before l ts s key f fuel enough) in
      let (holds, low, high, under) = front-IsTower l ts s key f up in
      let to : forward l.nodes x 1 ≡ ok t.addr = next ∙ ap ok (first-front l ts s key f up 1 low) in
      let at_y : hash_of l.nodes t.addr ≡ ok hashed =
        hash_of-Holds l.nodes t.addr (some t.key) (hash t) (t.height + 1) holds
        ∙ ap (λ k. ok (skiplist_hash_key k)) k in
      let on : (hashed == hashed) ≡ true = (==_iff hashed hashed).1 refl in
      let (node, at_node, same) = front_found l ts s key f t rest up k in
      let at_node' : deref l.nodes t.addr ≡ ok node =
        ap (deref l.nodes) (sym (first-front l ts s key f up 1 low)) ∙ at_node in
      let (n1, run1, w) = unlinks l ts s key f t rest up update inside in
      let (old, at_old, shape_old) =
        Holds-node n1 t.addr (some t.key) (hash t) (t.height + 1) (w.shapes t.addr ∙ holds) in
      let (level, run3, (heights, level_low, level_high)) =
        lower_level-heights (nodes2 l ts s key f t rest up update inside n1 w (dead old)) l.header
          (left l ts s key f t rest up) (header-out l ts s key f t rest up)
          (left_chain l ts s key f t rest up update inside n1 w (dead old)) l.level s.levels.0
          s.levels.1
          (tower_heights (left l ts s key f t rest up) (left_towers l ts s key f t rest up)) in
      (
        (true, _),
        delete_step fuel l key x t.addr hashed update run to at_y
            ∙ rw on (
                take_out_step l key update t.addr level node n1 _ at_node' same run1
                  (destroy-dead n1 t.addr old at_old) run3),
        (
          rw (is_some, here) refl,
          refl,
          subst (IsSkipList _) (sym without) (
              deleted l ts s key f t rest up update inside n1 w (dead old) level
                (level_low, level_high) heights),
        ),
      )
    where
      tower_heights :
          (us : List Tower) → All (IsTower l.nodes l.level) us → All (λ v. v.height ≤ l.level) us
      tower_heights us held =
          All-map (IsTower l.nodes l.level) (λ v. v.height ≤ l.level) us
            (λ v (holds, low, high, under). high) held

  -- In a skip list with more fuel than nodes, `skiplist_delete` does not fault. It reports whether
  -- the key was there, keeps the header, and what it leaves is a skip list of the nodes without
  -- the one of that key: taken out of every level, the size right and no node higher than the
  -- level. The key's hash must not be that of the header, and no other key of the list may have
  -- it.
  pub skiplist_delete-IsSkipList : (fuel : ℕ) → length ts < fuel → Deleted fuel
  skiplist_delete-IsSkipList fuel enough = elim (spot key ts s.ascending f) [
    | absent gone beyond ↦ delete_missing fuel enough gone beyond
    | present t rest up k here beyond without ↦ delete_found fuel enough t rest up k here without
  ]
