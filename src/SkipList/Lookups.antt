-- ===== src/SkipList/Lookups.antt =====
-- The skip list as a map from keys to nodes: what a search finds after an insertion or a deletion.
use xfire_db.Base.{
  ℕ, ◌+◌, ◌≤◌, ◌<◌, ◌≡◌, ◌≢◌, refl, sym, ◌∙◌, ap, inl, inr, Bool, none, some, List, [], ◌∷◌, length,
  CString, str_eq, ok, arith, Bool-cases, Option-cases, Returns,
}
use xfire_db.SkipList.{
  SkipList, Node, skiplist_insert, skiplist_search, skiplist_delete, skiplist_rand_level, deref,
  skiplist_hash_key, max_levels,
}
use xfire_db.SkipList.Chains.{In}
use xfire_db.SkipList.Inserts.{add, skiplist_insert-IsSkipList}
use xfire_db.SkipList.Search.{skiplist_search-locate}
use xfire_db.SkipList.Deletes.{skiplist_delete-IsSkipList}
use xfire_db.SkipList.Spots.{locate, remove, Fits}
use xfire_db.SkipList.Towers.{Tower, hash, addrs, IsSkipList}
use xfire_db.SkipList.Keys.{
  locate-add_self, locate-add_other, locate-remove_self, locate-remove_other, All-remove, All-add,
  settled, length-add_new,
}

module _ (l : SkipList) (ts : List Tower) (s : IsSkipList l ts) (key : CString) (f : Fits key ts)
    (fuel : ℕ) where
  add-Fits_self : (node level : ℕ) → Fits key (add key node level ts)
  add-Fits_self node level = record {
    below = f.below;
    alone =
        All-add (λ t. hash t ≡ skiplist_hash_key key → t.key ≡ key) key node level ts f.alone
          (λ e. refl);
  }

  add-Fits_other :
      (k : CString) (node level : ℕ)
      → Fits k ts
      → skiplist_hash_key key ≢ skiplist_hash_key k
      → Fits k (add key node level ts)
  add-Fits_other k node level g apart = record {
    below = g.below;
    alone =
        All-add (λ t. hash t ≡ skiplist_hash_key k → t.key ≡ k) key node level ts g.alone
          (λ e. absurd (apart e));
  }

  length-add : (node level : ℕ) → length (add key node level ts) ≤ length ts + 1
  length-add node level = elim (Option-cases (locate key ts)) [
    | inl e ↦ omega (arith, length-add_new key node level ts e)
    | inr (a, e) ↦ rw (add, e) (omega arith)
  ]

  -- After the insertion of an allocated node that is not in a skip list, with fuel for one node
  -- more, `skiplist_search` finds it under its key, or the old node if the key was there, and
  -- under every key of another hash what it found before. The hash of a key must not be that of
  -- the header, and no other key of the list may have it.
  pub search-insert :
      (coin : ℕ → Bool) (node : ℕ) (old : Node)
      → length ts + 1 < fuel
      → (In node (l.header ∷ addrs ts) → ⊥)
      → deref l.nodes node ≡ ok old
      → Returns (skiplist_insert fuel coin l key node) λ l'.
        (skiplist_search fuel l' key ≡ ok (some (settled (locate key ts) node)))
        × ((k : CString)
            → Fits k ts
            → skiplist_hash_key key ≢ skiplist_hash_key k
            → skiplist_search fuel l' k ≡ skiplist_search fuel l k)
  search-insert coin node old enough new at_node =
      let level = skiplist_rand_level coin max_levels in
      let (l', run, s') =
        skiplist_insert-IsSkipList l ts s key f fuel (omega (arith, enough)) coin node old new
          at_node in
      let enough' : length (add key node level ts) < fuel =
        omega (arith, length-add node level, enough) in
      (
        l',
        run,
        (
          skiplist_search-locate l' _ s' key (add-Fits_self node level) fuel enough'
              ∙ ap ok (locate-add_self key node level ts),
          (λ k g apart.
              skiplist_search-locate l' _ s' k (add-Fits_other k node level g apart) fuel enough'
              ∙ ap ok
                  (locate-add_other k key node level ts (λ e. apart (ap skiplist_hash_key (sym e))))
              ∙ sym (skiplist_search-locate l ts s k g fuel (omega (arith, enough)))),
        ),
      )

  length-remove : (us : List Tower) → length (remove key us) ≤ length us
  length-remove [] = omega arith
  length-remove (u ∷ us) = elim (Bool-cases (str_eq u.key key)) [
    | inl e ↦ rw e (omega arith)
    | inr e ↦ rw e (omega (arith, length-remove us))
  ]

  remove-Fits : (k : CString) → Fits k ts → Fits k (remove key ts)
  remove-Fits k g = record {
    below = g.below;
    alone = All-remove (λ t. hash t ≡ skiplist_hash_key k → t.key ≡ k) key ts g.alone;
  }

  -- After a deletion from a skip list, with more fuel than nodes, `skiplist_search` finds nothing
  -- under the key, and under every other key what it found before. The hash of a key must not be
  -- that of the header, and no other key of the list may have it.
  pub search-delete :
      length ts < fuel
      → Returns (skiplist_delete fuel l key) λ (found, l').
        (skiplist_search fuel l' key ≡ ok none)
        × ((k : CString)
            → Fits k ts
            → k ≢ key
            → skiplist_search fuel l' k ≡ skiplist_search fuel l k)
  search-delete enough =
      let ((found, l'), run, (answer, same, s')) =
        skiplist_delete-IsSkipList l ts s key f fuel enough in
      let enough' : length (remove key ts) < fuel = omega (arith, length-remove ts, enough) in
      (
        (found, l'),
        run,
        (
          skiplist_search-locate l' _ s' key (remove-Fits key f) fuel enough'
              ∙ ap ok (locate-remove_self key ts s.ascending),
          (λ k g ne.
              skiplist_search-locate l' _ s' k (remove-Fits k g) fuel enough'
              ∙ ap ok (locate-remove_other k key ts ne)
              ∙ sym (skiplist_search-locate l ts s k g fuel enough)),
        ),
      )
