-- ===== src/SkipList/Search.antt =====
-- `skiplist_search` of libxfiredbengine/storage/skiplist.c.
use mathlib.Core.Path.{subst}
use xfire_db.Base.{
  ℕ, zero, suc, ◌+◌, ◌≤◌, ◌<◌, ◌≡◌, refl, ◌∙◌, ap, true, false, Option, none, some, List, ◌∷◌, ◌==◌,
  ==_iff, leb, length, CString, str_eq_iff, Run, ok, arith,
}
use xfire_db.SkipList.{
  SkipList, forward, hash_of, same_key, walk, descend, skip_others, resolve, skiplist_search,
  skiplist_hash_key, max_size,
}
use xfire_db.SkipList.Chains.{first}
use xfire_db.SkipList.Heap.{hash_of-Holds, same_key-Holds}
use xfire_db.SkipList.Towers.{Tower, hash, All, tall, IsTower, IsSkipList, upper}
use xfire_db.SkipList.Spots.{locate, Fits, Spot, absent, present, spot}
use xfire_db.SkipList.Walks.{HashIs, descend-update, walk-before, first_hash, split-towers}

module _ (l : SkipList) (ts : List Tower) (s : IsSkipList l ts) (key : CString)
    (f : Fits key ts) where
  abbrev h : ℕ
  h = skiplist_hash_key key

  below : h ≤ max_size
  below = omega (arith, f.below)

  module _ {t : Tower} {rest : List Tower} (up : upper h ts ≡ t ∷ rest) where
    -- the node with the key, if it is there
    pub front-IsTower : IsTower l.nodes l.level t
    front-IsTower = (subst (All (IsTower l.nodes l.level)) up (split-towers l ts s h below).1).0

    pub first-front : (i : ℕ) → i ≤ t.height → first (tall i (upper h ts)) l.header ≡ t.addr
    first-front i low = let on : leb i t.height ≡ true = ground (arith, low) in rw (up, on) refl

  -- the node behind those with smaller hashes, if the key is absent
  pub beyond_hash :
      All (λ t. h < hash t) (upper h ts)
      → (i : ℕ) → HashIs l.nodes (λ y. h < y) (first (tall i (upper h ts)) l.header)
  beyond_hash all i = first_hash l ts s h below i (λ y. h < y) f.below all

  search_step :
      (fuel node next y : ℕ) (update : ℕ → ℕ)
      → descend (λ i x. walk fuel l.nodes i h x) l.level l.header (λ i. 0) ≡ ok (node, update)
      → forward l.nodes node 1 ≡ ok next
      → hash_of l.nodes next ≡ ok y
      → skiplist_search fuel l key ≡ elim (y == h) as (λ b. Run (Option ℕ)) [
        | false ↦ ok none
        | true ↦ resolve fuel l.nodes key h node
      ]
  unfolding skiplist_search
  search_step fuel node next y update run e e' = rw (skiplist_search, run, e, e') refl

  resolve-found :
      (fuel node next : ℕ)
      → forward l.nodes node 1 ≡ ok next
      → same_key l.nodes next key ≡ ok true
      → hash_of l.nodes next ≡ ok h
      → resolve (suc fuel) l.nodes key h node ≡ ok (some next)
  unfolding resolve skip_others
  resolve-found fuel node next e e' e'' = rw (e, e', e, e'') (ground arith)

  -- In a skip list with more fuel than nodes, `skiplist_search` does not fault and finds the node with
  -- the key, or null if there is none. The key's hash must not be that of the header, and no other
  -- key of the list may have it.
  pub skiplist_search-locate :
      (fuel : ℕ) → length ts < fuel → skiplist_search fuel l key ≡ ok (locate key ts)
  skiplist_search-locate zero enough = absurd (omega (arith, enough))
  skiplist_search-locate (suc fuel) enough =
      let ((node, update), run, (next, inside)) =
        descend-update l ts s h below (λ i x. walk (suc fuel) l.nodes i h x)
          (walk-before l ts s h below (suc fuel) enough) in
      outcome node update run next (spot key ts s.ascending f)
    where
      outcome :
          (node : ℕ) (update : ℕ → ℕ)
          → descend (λ i x. walk (suc fuel) l.nodes i h x) l.level l.header (λ i. 0)
            ≡ ok (node, update)
          → forward l.nodes node 1 ≡ ok (first (tall 1 (upper h ts)) l.header)
          → Spot key ts
          → skiplist_search (suc fuel) l key ≡ ok (locate key ts)
      outcome node update run next (absent gone beyond) =
          let (y, at_y, lt) = beyond_hash beyond 1 in
          let differs : (y == h) ≡ false = ground (arith, lt) in
          search_step (suc fuel) node (first (tall 1 (upper h ts)) l.header) y update run next at_y
          ∙ rw (differs, gone) refl
      outcome node update run next (present t rest up k found beyond without) =
          let (holds, low, high, under) = front-IsTower up in
          let next' : forward l.nodes node 1 ≡ ok t.addr = next ∙ ap ok (first-front up 1 low) in
          let at_y : hash_of l.nodes t.addr ≡ ok h =
            hash_of-Holds l.nodes t.addr (some t.key) (hash t) (t.height + 1) holds
            ∙ ap (λ k. ok (skiplist_hash_key k)) k in
          let same : same_key l.nodes t.addr key ≡ ok true =
            same_key-Holds l.nodes t.addr t.key key (hash t) (t.height + 1) holds
            ∙ ap ok ((str_eq_iff t.key key).1 k) in
          let equal : (h == h) ≡ true = (==_iff h h).1 refl in
          search_step (suc fuel) node t.addr h update run next' at_y
          ∙ rw (equal, found) (resolve-found fuel node t.addr next' same at_y)
