-- ===== src/SkipList/Tests.antt =====
-- Runs of the skip list, and its theorems at a list of one key.
use xfire_db.Base.{
  ℕ, ◌<◌, ◌≡◌, ◌≢◌, refl, inl, inr, Bool, true, false, Option, none, some, is_some, ltb, List, [],
  ◌∷◌, length, CString, Run, ok, arith, Returns, not, str_eq, ◌>>=◌,
}
use xfire_db.Dict.Hash.{hash_key}
use xfire_db.Set.{Set, set_init, set_add, set_remove, set_clear}
use xfire_db.Set.Laws.{IsKeySet, set_add-IsKeySet, set_remove-IsKeySet}
use xfire_db.Set.Clear.{set_clear-empty}
use xfire_db.Hashmap.{Hashmap, hashmap_init, hashmap_add, hashmap_remove}
use xfire_db.Hashmap.Laws.{IsHashmap, hashmap_add-counts, hashmap_remove-IsHashmap}
use xfire_db.SkipList.{
  Node, Nodes, SkipList, deref, write, skiplist_init, skiplist_hash_key, skiplist_rand_level,
  skiplist_search, skiplist_insert, skiplist_delete, climb, forward, set_forward, hash_of, same_key,
  has_key, walk, skip_others, descend, resolve, link_at, link_levels, raise, approach,
  unlink_levels, skiplist_node_destroy, lower_level, take_out, max_levels, max_size,
}
use xfire_db.SkipList.Chains.{In}
use xfire_db.SkipList.Deletes.{skiplist_delete-IsSkipList}
use xfire_db.SkipList.Inserts.{add, skiplist_insert-IsSkipList}
use xfire_db.SkipList.Iterator.{skiplist_iterator_new, visit, visit-addrs}
use xfire_db.SkipList.Keys.{skiplist_init-IsSkipList, settled}
use xfire_db.SkipList.Lookups.{search-insert, search-delete}
use xfire_db.SkipList.Search.{skiplist_search-locate}
use xfire_db.SkipList.Spots.{Fits, locate, remove}
use xfire_db.SkipList.Towers.{Tower, addrs, IsSkipList}

abbrev key_a : CString
key_a = 97 ∷ []

abbrev key_b : CString
key_b = 98 ∷ []

abbrev blank : Node
blank = record { key = none; hash = 0; forward = [] }

-- every address holds a node that is not in use
abbrev heap : Nodes
heap = λ a. some blank

-- a node on three levels
abbrev coin : ℕ → Bool
coin = λ i. ltb i 3

abbrev empty_list : SkipList
empty_list = skiplist_init 100 heap

hashes :
    (skiplist_hash_key key_a < max_size)
    × (skiplist_hash_key key_b < max_size)
    × (skiplist_hash_key key_a ≢ skiplist_hash_key key_b)
unfolding skiplist_hash_key hash_key
hashes = (omega arith, omega arith, (λ e. omega (arith, e)))

empty-IsSkipList : IsSkipList empty_list []
empty-IsSkipList = skiplist_init-IsSkipList 100 heap

node_at : (header a : ℕ) → a ≢ header → deref (skiplist_init header heap).nodes a ≡ ok blank
unfolding deref skiplist_init write
node_at header a ne = ground (arith, ne)

empty-Fits : (key : CString) → skiplist_hash_key key < max_size → Fits key []
empty-Fits key lt = record { below = lt; alone = tt }

not_there : (a : ℕ) → a ≢ 100 → In a (empty_list.header ∷ addrs []) → ⊥
unfolding skiplist_init
not_there a ne (inl e) = ne e
not_there a ne (inr m) = m

-- the list of the one key
abbrev towers : List Tower
towers = add key_a 1 (skiplist_rand_level coin max_levels) []

one_key : Returns (skiplist_insert 1 coin empty_list key_a 1) λ l'. IsSkipList l' towers
one_key =
    skiplist_insert-IsSkipList empty_list [] empty-IsSkipList key_a (empty-Fits key_a hashes.0) 1
      (omega arith) coin 1 blank (not_there 1 (λ e. omega (arith, e)))
      (node_at 100 1 (λ e. omega (arith, e)))

abbrev one_list : SkipList
one_list = one_key.0

one-IsSkipList : IsSkipList one_list towers
one-IsSkipList = one_key.2

key_a-Fits : Fits key_a towers
key_a-Fits = record { below = hashes.0; alone = ((λ e. refl), tt) }

key_b-Fits : Fits key_b towers
key_b-Fits = record { below = hashes.1; alone = ((λ e. absurd (hashes.2 e)), tt) }

insert_example :
    Returns
      (skiplist_insert 1 coin empty_list key_b 2)
      λ l'. IsSkipList l' (add key_b 2 (skiplist_rand_level coin max_levels) [])
insert_example =
    skiplist_insert-IsSkipList empty_list [] empty-IsSkipList key_b (empty-Fits key_b hashes.1) 1
      (omega arith) coin 2 blank (not_there 2 (λ e. omega (arith, e)))
      (node_at 100 2 (λ e. omega (arith, e)))

search_example : skiplist_search 2 one_list key_a ≡ ok (locate key_a towers)
search_example =
    skiplist_search-locate one_list towers one-IsSkipList key_a key_a-Fits 2 (omega arith)

delete_example : Returns (skiplist_delete 2 one_list key_a) λ (found, l').
    (found ≡ is_some (locate key_a towers))
    × (l'.header ≡ one_list.header)
    × IsSkipList l' (remove key_a towers)
delete_example =
    skiplist_delete-IsSkipList one_list towers one-IsSkipList key_a key_a-Fits 2 (omega arith)

search_insert_example : Returns (skiplist_insert 2 coin empty_list key_a 1) λ l'.
    (skiplist_search 2 l' key_a ≡ ok (some (settled (locate key_a []) 1)))
    × ((k : CString)
        → Fits k []
        → skiplist_hash_key key_a ≢ skiplist_hash_key k
        → skiplist_search 2 l' k ≡ skiplist_search 2 empty_list k)
search_insert_example =
    search-insert empty_list [] empty-IsSkipList key_a (empty-Fits key_a hashes.0) 2 coin 1 blank
      (omega arith) (not_there 1 (λ e. omega (arith, e))) (node_at 100 1 (λ e. omega (arith, e)))

search_delete_example : Returns (skiplist_delete 2 one_list key_a) λ (found, l').
    (skiplist_search 2 l' key_a ≡ ok none)
    × ((k : CString)
        → Fits k towers
        → k ≢ key_a
        → skiplist_search 2 l' k ≡ skiplist_search 2 one_list k)
search_delete_example =
    search-delete one_list towers one-IsSkipList key_a key_a-Fits 2 (omega arith)

visit_example : visit 2 one_list (skiplist_iterator_new one_list) ≡ ok (1 ∷ [])
visit_example = visit-addrs one_list towers 2 one-IsSkipList (omega arith)

-- a set and a hashmap of the key
abbrev empty_set : Set
empty_set = set_init 100 heap

empty-IsKeySet : IsKeySet empty_set []
unfolding set_init
empty-IsKeySet = record { list = empty-IsSkipList; counted = refl }

abbrev one_set : Set
one_set = record { list = one_list; num = 1; names = λ a. some key_a }

one-IsKeySet : IsKeySet one_set towers
one-IsKeySet = record { list = one-IsSkipList; counted = refl }

set_add_example : Returns (set_add 1 coin empty_set key_a 1) λ (done, s').
    (done ≡ not (is_some (locate key_a [])))
    × IsKeySet s' (add key_a 1 (skiplist_rand_level coin max_levels) [])
unfolding set_init
set_add_example =
    set_add-IsKeySet empty_set [] empty-IsKeySet key_a (empty-Fits key_a hashes.0) 1 (omega arith)
      coin 1 blank (not_there 1 (λ e. omega (arith, e))) (node_at 100 1 (λ e. omega (arith, e)))

set_remove_example :
    Returns
      (set_remove 2 one_set key_a)
      λ (node, s'). (node ≡ locate key_a towers) × IsKeySet s' (remove key_a towers)
set_remove_example =
    set_remove-IsKeySet one_set towers one-IsKeySet key_a key_a-Fits 2 (omega arith)

set_clear_example : Returns (set_clear 2 2 one_set) λ s'.
    IsSkipList s'.list []
    × (s'.num ≡ one_set.num)
    × ((a : ℕ) → In a (addrs towers) → s'.names a ≡ none)
set_clear_example = set_clear-empty one_set towers 2 2 one-IsSkipList (omega arith) (omega arith)

abbrev one_hashmap : Hashmap
one_hashmap = record { list = one_list; num = 1; names = λ a. some key_a }

one-IsHashmap : IsHashmap one_hashmap towers
one-IsHashmap = record { list = one-IsSkipList; counted = refl }

abbrev empty_hashmap : Hashmap
empty_hashmap = hashmap_init 100 heap

empty-IsHashmap : IsHashmap empty_hashmap []
unfolding hashmap_init
empty-IsHashmap = record { list = empty-IsSkipList; counted = refl }

hashmap_remove_example :
    Returns
      (hashmap_remove 2 one_hashmap key_a)
      λ (node, hm'). (node ≡ locate key_a towers) × IsHashmap hm' (remove key_a towers)
hashmap_remove_example =
    hashmap_remove-IsHashmap one_hashmap towers one-IsHashmap key_a key_a-Fits 2 (omega arith)

hashmap_add_example : Returns (hashmap_add 1 coin empty_hashmap key_b 2) λ hm'.
    IsSkipList hm'.list (add key_b 2 (skiplist_rand_level coin max_levels) [])
    × (hm'.num ≡ 1)
    × (locate key_b [] ≡ none
        → IsHashmap hm' (add key_b 2 (skiplist_rand_level coin max_levels) []))
    × ((a : ℕ)
        → locate key_b [] ≡ some a
        → hm'.num ≢ length (add key_b 2 (skiplist_rand_level coin max_levels) []))
unfolding hashmap_init
hashmap_add_example =
    hashmap_add-counts empty_hashmap [] empty-IsHashmap key_b (empty-Fits key_b hashes.1) 1
      (omega arith) coin 2 blank (not_there 2 (λ e. omega (arith, e)))
      (node_at 100 2 (λ e. omega (arith, e)))

-- two insertions, a deletion and two searches
abbrev session : Run (Bool × ℕ × ℕ × Option ℕ × Option ℕ)
session = do
  l ← skiplist_insert 9 coin empty_list key_a 1
  l ← skiplist_insert 9 (λ i. false) l key_b 2
  (done, l) ← skiplist_delete 9 l key_a
  a ← skiplist_search 9 l key_a
  b ← skiplist_search 9 l key_b
  ok (done, l.size, l.level, a, b)

run : session ≡ ok (true, 1, 1, none, some 2)
unfolding skiplist_init skiplist_insert skiplist_delete skiplist_search skiplist_hash_key hash_key
    deref write forward set_forward hash_of same_key has_key climb skiplist_rand_level walk
    skip_others descend resolve link_at link_levels raise approach unlink_levels
    skiplist_node_destroy lower_level take_out str_eq
run = refl
