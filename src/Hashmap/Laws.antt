-- ===== src/Hashmap/Laws.antt =====
-- The operations of a hashmap on the skip list of its keys.
use mathlib.Core.Path.{subst}
use xfire_db.Base.{
  ℕ, ◌+◌, ◌-◌, ◌<◌, ◌≡◌, ◌≢◌, refl, sym, ◌∙◌, ap, inl, inr, Bool, true, false, Option, none, some,
  is_some, List, ◌∷◌, ◌==◌, if◌then◌else◌, length, CString, Run, ok, arith, Option-cases, Returns,
}
use xfire_db.SkipList.{
  Node, SkipList, deref, skiplist_search, skiplist_insert, skiplist_delete, skiplist_rand_level,
  max_levels,
}
use xfire_db.SkipList.Chains.{In}
use xfire_db.SkipList.Deletes.{skiplist_delete-IsSkipList}
use xfire_db.SkipList.Inserts.{add, skiplist_insert-IsSkipList}
use xfire_db.SkipList.Keys.{length-add_new, length-remove_found}
use xfire_db.SkipList.Search.{skiplist_search-locate}
use xfire_db.SkipList.Spots.{locate, remove, remove-none, Fits}
use xfire_db.SkipList.Towers.{Tower, addrs, IsSkipList}
use xfire_db.Hashmap.{Hashmap, hashmap_find, hashmap_add, hashmap_remove}

-- a hashmap of these keys, and of so many
pub record IsHashmap (hm : Hashmap) (ts : List Tower) : Type 0 where
  pub list : IsSkipList hm.list ts
  pub counted : hm.num ≡ length ts

find_step :
    (fuel : ℕ) (hm : Hashmap) (key : CString) (o : Option ℕ)
    → skiplist_search fuel hm.list key ≡ ok o
    → hashmap_find fuel hm key ≡ ok o
unfolding hashmap_find
find_step fuel hm key none e = rw (hashmap_find, e) refl
find_step fuel hm key (some a) e = rw (hashmap_find, e) refl

add_step :
    (fuel : ℕ) (coin : ℕ → Bool) (hm : Hashmap) (key : CString) (n : ℕ) (l' : SkipList)
    → skiplist_insert fuel coin hm.list key n ≡ ok l'
    → Returns (hashmap_add fuel coin hm key n) λ hm'. (hm'.list ≡ l') × (hm'.num ≡ hm.num + 1)
unfolding hashmap_add
add_step fuel coin hm key n l' e = (
  record { list = l'; num = hm.num + 1; names = λ b. if n == b then some key else hm.names b },
  rw (hashmap_add, e) refl,
  (refl, refl),
)

remove_step :
    (fuel : ℕ) (hm : Hashmap) (key : CString) (found : Option ℕ) (done : Bool) (l' : SkipList)
    → skiplist_search fuel hm.list key ≡ ok found
    → skiplist_delete fuel hm.list key ≡ ok (done, l')
    → hashmap_remove fuel hm key ≡ elim done as (λ b. Run (Option ℕ × Hashmap)) [
      | true ↦ ok (found, record hm { list = l'; num = hm.num - 1 })
      | false ↦ ok (none, record hm { list = l' })
    ]
unfolding hashmap_remove
remove_step fuel hm key found done l' e e' = rw (hashmap_remove, e, e') refl

module _ (hm : Hashmap) (ts : List Tower) (held : IsHashmap hm ts) (key : CString) (f : Fits key ts)
    (fuel : ℕ) (enough : length ts < fuel) where
  -- `hashmap_find` returns what is under a key, and null if nothing is.
  pub hashmap_find-locate : hashmap_find fuel hm key ≡ ok (locate key ts)
  hashmap_find-locate =
      find_step fuel hm key _ (skiplist_search-locate hm.list ts held.list key f fuel enough)

  -- In a hashmap with more fuel than keys, `hashmap_add` of an allocated node that is not in it
  -- returns. It keeps the list of the keys, adds the key if it is not there, and counts one more
  -- in any case: the count is right exactly when the key was not there. The key's hash must not be
  -- that of the header, and no other key of the list may have it.
  pub hashmap_add-counts :
      (coin : ℕ → Bool) (n : ℕ) (old : Node)
      → (In n (hm.list.header ∷ addrs ts) → ⊥)
      → deref hm.list.nodes n ≡ ok old
      → Returns (hashmap_add fuel coin hm key n) λ hm'.
        IsSkipList hm'.list (add key n (skiplist_rand_level coin max_levels) ts)
        × (hm'.num ≡ length ts + 1)
        × (locate key ts ≡ none
            → IsHashmap hm' (add key n (skiplist_rand_level coin max_levels) ts))
        × ((a : ℕ)
            → locate key ts ≡ some a
            → hm'.num ≢ length (add key n (skiplist_rand_level coin max_levels) ts))
  hashmap_add-counts coin n old new at_n =
      let level = skiplist_rand_level coin max_levels in
      let (l', run, held') =
        skiplist_insert-IsSkipList hm.list ts held.list key f fuel enough coin n old new at_n in
      let (hm', run', (same, counted)) = add_step fuel coin hm key n l' run in
      let list' : IsSkipList hm'.list (add key n level ts) =
        subst (λ l. IsSkipList l (add key n level ts)) (sym same) held' in
      let more : hm'.num ≡ length ts + 1 = counted ∙ ap (λ n. n + 1) held.counted in
      (
        hm',
        run',
        (
          list',
          more,
          (λ gone. record {
            list = list';
            counted = more ∙ sym (length-add_new key n level ts gone);
          }),
          (λ a here e. one_more (length ts) (sym more ∙ e ∙ kept a here)),
        ),
      )
    where
      kept :
          (a : ℕ)
          → locate key ts ≡ some a
          → length (add key n (skiplist_rand_level coin max_levels) ts) ≡ length ts
      kept a here = rw (add, here) refl

      one_more : (m : ℕ) → m + 1 ≡ m → ⊥
      one_more m e = omega (arith, e)

  -- In a hashmap with more fuel than keys, `hashmap_remove` returns the node under the key, or
  -- null, and leaves a hashmap of the other keys with the right count. The key's hash must not be
  -- that of the header, and no other key of the list may have it.
  pub hashmap_remove-IsHashmap :
      Returns
        (hashmap_remove fuel hm key)
        λ (node, hm'). (node ≡ locate key ts) × IsHashmap hm' (remove key ts)
  hashmap_remove-IsHashmap =
      let found = skiplist_search-locate hm.list ts held.list key f fuel enough in
      let ((done, l'), run, (answer, same, held')) =
        skiplist_delete-IsSkipList hm.list ts held.list key f fuel enough in
      elim (Option-cases (locate key ts)) [
        | inl gone ↦
            let off : done ≡ false = answer ∙ ap is_some gone in
            (
              (none, record hm { list = l' }),
              remove_step fuel hm key _ done l' found run ∙ rw off refl,
              (
                sym gone,
                record {
                  list = held';
                  counted = held.counted ∙ ap length (sym (remove-none key ts gone));
                },
              ),
            )
        | inr (a, here) ↦
            let on : done ≡ true = answer ∙ ap is_some here in
            (
              (locate key ts, record hm { list = l'; num = hm.num - 1 }),
              remove_step fuel hm key _ done l' found run ∙ rw on refl,
              (
                refl,
                record {
                  list = held';
                  counted = omega (arith, held.counted, length-remove_found key a ts here);
                },
              ),
            )
      ]
