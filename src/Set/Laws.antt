-- ===== src/Set/Laws.antt =====
-- The operations of a set on a skip list of its keys.
use xfire_db.Base.{
  ℕ, ◌+◌, ◌-◌, ◌<◌, ◌≡◌, refl, sym, ◌∙◌, ap, inl, inr, Bool, true, false, not, Option, none, some,
  is_some, List, ◌∷◌, length, CString, Run, ok, arith, Option-cases, Returns,
}
use xfire_db.SkipList.{
  Node, SkipList, deref, skiplist_search, skiplist_insert, skiplist_delete, skiplist_rand_level,
  max_levels,
}
use xfire_db.SkipList.Chains.{In}
use xfire_db.SkipList.Deletes.{skiplist_delete-IsSkipList}
use xfire_db.SkipList.Inserts.{add, skiplist_insert-IsSkipList}
use xfire_db.SkipList.Keys.{length-add_new, length-remove_found}
use xfire_db.SkipList.Search.{skiplist_search-locate}
use xfire_db.SkipList.Spots.{locate, remove, remove-none, Fits}
use xfire_db.SkipList.Towers.{Tower, addrs, IsSkipList}
use xfire_db.Set.{Set, set_contains, set_add, set_remove, name_of}

-- a set of these keys, and of so many
pub record IsKeySet (s : Set) (ts : List Tower) : Type 0 where
  pub list : IsSkipList s.list ts
  pub counted : s.num ≡ length ts

contains_step :
    (fuel : ℕ) (s : Set) (key : CString) (o : Option ℕ)
    → skiplist_search fuel s.list key ≡ ok o
    → set_contains fuel s key ≡ ok (is_some o)
unfolding set_contains
contains_step fuel s key none e = rw (set_contains, e) refl
contains_step fuel s key (some a) e = rw (set_contains, e) refl

add_refused :
    (fuel : ℕ) (coin : ℕ → Bool) (s : Set) (key : CString) (k : ℕ)
    → set_contains fuel s key ≡ ok true
    → set_add fuel coin s key k ≡ ok (false, s)
unfolding set_add
add_refused fuel coin s key k e = rw (set_add, e) refl

add_step :
    (fuel : ℕ) (coin : ℕ → Bool) (s : Set) (key : CString) (k : ℕ) (l' : SkipList)
    → set_contains fuel s key ≡ ok false
    → skiplist_insert fuel coin s.list key k ≡ ok l'
    → set_add fuel coin s key k
      ≡ ok (true, record { list = l'; num = s.num + 1; names = name_of k (some key) s.names })
unfolding set_add
add_step fuel coin s key k l' e e' = rw (set_add, e, e') refl

remove_step :
    (fuel : ℕ) (s : Set) (key : CString) (found : Option ℕ) (done : Bool) (l' : SkipList)
    → skiplist_search fuel s.list key ≡ ok found
    → skiplist_delete fuel s.list key ≡ ok (done, l')
    → set_remove fuel s key ≡ elim done as (λ b. Run (Option ℕ × Set)) [
      | true ↦ ok (found, record s { list = l'; num = s.num - 1 })
      | false ↦ ok (none, record s { list = l' })
    ]
unfolding set_remove
remove_step fuel s key found done l' e e' = rw (set_remove, e, e') refl

module _ (s : Set) (ts : List Tower) (held : IsKeySet s ts) (key : CString) (f : Fits key ts)
    (fuel : ℕ) (enough : length ts < fuel) where
  contains-locate : set_contains fuel s key ≡ ok (is_some (locate key ts))
  contains-locate =
      contains_step fuel s key _ (skiplist_search-locate s.list ts held.list key f fuel enough)

  -- In a set with more fuel than keys, `set_add` of an allocated node that is not in it succeeds
  -- if the key is not there, and adds it with its count; otherwise it fails, and the set has the
  -- same keys and count. The key's hash must not be that of the header, and no other key of the
  -- list may have it.
  pub set_add-IsKeySet :
      (coin : ℕ → Bool) (k : ℕ) (old : Node)
      → (In k (s.list.header ∷ addrs ts) → ⊥)
      → deref s.list.nodes k ≡ ok old
      → Returns (set_add fuel coin s key k) λ (done, s').
        (done ≡ not (is_some (locate key ts)))
        × IsKeySet s' (add key k (skiplist_rand_level coin max_levels) ts)
  set_add-IsKeySet coin k old new at_k = elim (Option-cases (locate key ts)) [
    | inl gone ↦
        let (l', run, held') =
          skiplist_insert-IsSkipList s.list ts held.list key f fuel enough coin k old new at_k in
        (
          (true, _),
          add_step fuel coin s key k l' (contains-locate ∙ rw gone refl) run,
          (
            rw gone refl,
            record {
              list = held';
              counted =
                  ap (λ n. n + 1) held.counted
                  ∙ sym (length-add_new key k (skiplist_rand_level coin max_levels) ts gone);
            },
          ),
        )
    | inr (a, here) ↦ (
      (false, s),
      add_refused fuel coin s key k (contains-locate ∙ rw here refl),
      (rw here refl, rw (add, here) held),
    )
  ]

  -- In a set with more fuel than keys, `set_remove` returns the node under the key, or null, and
  -- leaves a set of the other keys with the right count. The key's hash must not be that of the
  -- header, and no other key of the list may have it.
  pub set_remove-IsKeySet :
      Returns
        (set_remove fuel s key)
        λ (node, s'). (node ≡ locate key ts) × IsKeySet s' (remove key ts)
  set_remove-IsKeySet =
      let found = skiplist_search-locate s.list ts held.list key f fuel enough in
      let ((done, l'), run, (answer, same, held')) =
        skiplist_delete-IsSkipList s.list ts held.list key f fuel enough in
      elim (Option-cases (locate key ts)) [
        | inl gone ↦
            let off : done ≡ false = answer ∙ ap is_some gone in
            (
              (none, record s { list = l' }),
              remove_step fuel s key _ done l' found run ∙ rw off refl,
              (
                sym gone,
                record {
                  list = held';
                  counted = held.counted ∙ ap length (sym (remove-none key ts gone));
                },
              ),
            )
        | inr (a, here) ↦
            let on : done ≡ true = answer ∙ ap is_some here in
            (
              (locate key ts, record s { list = l'; num = s.num - 1 }),
              remove_step fuel s key _ done l' found run ∙ rw on refl,
              (
                refl,
                record {
                  list = held';
                  counted = omega (arith, held.counted, length-remove_found key a ts here);
                },
              ),
            )
      ]
