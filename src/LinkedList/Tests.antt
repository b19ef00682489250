-- ===== src/LinkedList/Tests.antt =====
-- Runs of the linked list, and its theorems at lists of one cell.
use xfire_db.Base.{ℕ, ◌≡◌, ◌≢◌, refl, inl, inr, some, List, [], ◌∷◌, Run, ok, ◌>>=◌, arith, Returns}
use xfire_db.SkipList.Chains.{In}
use xfire_db.LinkedList.{
  Cell, Cells, ListHead, next_of, prev_of, set_next, set_prev, list_head_init, list_add, unlink,
  take_out, list_lpush, list_rpush, list_del, list_for_each,
}
use xfire_db.LinkedList.Laws.{
  IsList, list_head_init-IsList, list_lpush-IsList, list_rpush-IsList, list_del-IsList,
  list_for_each-visits,
}

abbrev blank : Cell
blank = record { next = 0; prev = 0 }

-- every address holds a cell that is not in use
abbrev heap : Cells
heap = λ a. some blank

abbrev empty : ListHead
empty = list_head_init 100 heap

empty-IsList : IsList empty []
empty-IsList = list_head_init-IsList 100 heap

cell_at : (a : ℕ) → a ≢ 100 → (list_head_init 100 heap).cells a ≡ some blank
unfolding list_head_init
cell_at a ne = ground (arith, ne)

not_there : (a : ℕ) → a ≢ 100 → In a (empty.head ∷ []) → ⊥
unfolding list_head_init
not_there a ne (inl e) = ne e
not_there a ne (inr m) = m

one_cell : Returns (list_rpush empty 1) λ l'. IsList l' (1 ∷ [])
one_cell =
    list_rpush-IsList empty [] empty-IsList 1 blank (not_there 1 (λ e. omega (arith, e)))
      (cell_at 1 (λ e. omega (arith, e)))

list_lpush_example : Returns (list_lpush empty 2) λ l'. IsList l' (2 ∷ [])
list_lpush_example =
    list_lpush-IsList empty [] empty-IsList 2 blank (not_there 2 (λ e. omega (arith, e)))
      (cell_at 2 (λ e. omega (arith, e)))

list_rpush_example : Returns (list_rpush empty 2) λ l'. IsList l' (2 ∷ [])
list_rpush_example =
    list_rpush-IsList empty [] empty-IsList 2 blank (not_there 2 (λ e. omega (arith, e)))
      (cell_at 2 (λ e. omega (arith, e)))

list_del_example :
    Returns
      (list_del one_cell.0 1)
      λ l'. IsList l' [] × (next_of l'.cells 1 ≡ ok 1) × (prev_of l'.cells 1 ≡ ok 1)
list_del_example = list_del-IsList one_cell.0 [] [] 1 one_cell.2

list_for_each_example :
    (next_of one_cell.0.cells one_cell.0.head >>= λ c. list_for_each 2 one_cell.0 c) ≡ ok (1 ∷ [])
list_for_each_example = list_for_each-visits one_cell.0 (1 ∷ []) 2 one_cell.2 (omega arith)

-- three pushes, a deletion in the middle and a walk
abbrev session : Run (List ℕ)
session = do
  l ← list_rpush empty 1
  l ← list_rpush l 2
  l ← list_lpush l 3
  l ← list_del l 1
  c ← next_of l.cells l.head
  list_for_each 9 l c

run : session ≡ ok (3 ∷ 2 ∷ [])
unfolding next_of prev_of set_next set_prev list_head_init list_add unlink take_out list_lpush
    list_rpush list_del list_for_each
run = refl
