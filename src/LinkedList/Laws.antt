-- ===== src/LinkedList/Laws.antt =====
-- The operations of the linked list, against a sequence of cells.
use mathlib.Core.Path.{subst}
use xfire_db.Base.{
  ℕ, zero, suc, ◌+◌, ◌-◌, ◌<◌, ◌≡◌, ◌≢◌, refl, sym, ◌∙◌, ap, inl, inr, true, false, some, List, [],
  ◌∷◌, ◌++◌, ◌==◌, ==_iff, length, ok, ◌>>=◌, arith, Returns,
}
use xfire_db.SkipList.Chains.{
  In, Distinct, last, first, Chain, Chain-first, Chain-from, Chain-link, Chain-unlink, In-last,
  In-left,
}
use xfire_db.SkipList.Orders.{Distinct-insert, Distinct-remove}
use xfire_db.LinkedList.{
  Cell, Cells, ListHead, next_of, prev_of, list_head_init, list_add, take_out, list_lpush,
  list_rpush, list_del, list_for_each,
}
use xfire_db.LinkedList.Backs.{Back, Back-first, Back-from, Back-link, Back-unlink, In-first_of}
use xfire_db.LinkedList.Cells.{list_add-Added, take_out-Removed}

-- The heap holds a list of these cells: from the head the forward pointers lead through them and back,
-- and the back pointers the other way.
pub record IsList (l : ListHead) (xs : List ℕ) : Type 0 where
  pub forward : Chain (next_of l.cells) l.head xs l.head
  pub backward : Back (prev_of l.cells) l.head xs l.head
  pub apart : Distinct (l.head ∷ xs)
  pub counted : l.num ≡ length xs

length-put : (xs ys : List ℕ) (n : ℕ) → length (xs ++ (n ∷ ys)) ≡ length (xs ++ ys) + 1
length-put [] ys n = omega arith
length-put (x ∷ xs) ys n = omega (arith, length-put xs ys n)

In-last_of : (a : ℕ) (xs ys : List ℕ) → In (last a xs) (a ∷ (xs ++ ys))
In-last_of a xs ys = elim (In-last a xs) [ inl e ↦ inl e | inr m ↦ inr (In-left _ xs ys m) ]

In-first : (a : ℕ) (xs ys : List ℕ) → In (first ys a) (a ∷ (xs ++ ys))
In-first a xs ys = In-first_of xs ys a

append_nil : (xs : List ℕ) → xs ++ [] ≡ xs
append_nil [] = refl
append_nil (x ∷ xs) = ap (λ ys. x ∷ ys) (append_nil xs)

append_one : (xs ys : List ℕ) (n : ℕ) → (xs ++ (n ∷ [])) ++ ys ≡ xs ++ (n ∷ ys)
append_one [] ys n = refl
append_one (x ∷ xs) ys n = ap (λ zs. x ∷ zs) (append_one xs ys n)

del_step :
    (n : ℕ) (l : ListHead) (prev next : ℕ) (cells : Cells)
    → prev_of l.cells n ≡ ok prev
    → next_of l.cells n ≡ ok next
    → take_out l.cells n prev next ≡ ok cells
    → list_del l n ≡ ok (record { head = l.head; num = l.num - 1; cells = cells })
unfolding list_del
del_step n l prev next cells e e' run = rw (list_del, e) (rw e' (rw run refl))

visit_step :
    (fuel : ℕ) (l : ListHead) (a next : ℕ) (xs : List ℕ)
    → a ≢ l.head
    → next_of l.cells a ≡ ok next
    → list_for_each fuel l next ≡ ok xs
    → list_for_each (suc fuel) l a ≡ ok (a ∷ xs)
unfolding list_for_each
visit_step fuel l a next xs ne e run =
    let off : (a == l.head) ≡ false = ground (arith, ne) in
    rw (list_for_each, off) (rw e (rw run refl))

visit_end : (fuel : ℕ) (l : ListHead) → 0 < fuel → list_for_each fuel l l.head ≡ ok []
unfolding list_for_each
visit_end zero l pos = absurd (omega (arith, pos))
visit_end (suc fuel) l pos =
    let on : (l.head == l.head) ≡ true = (==_iff l.head l.head).1 refl in
    rw (list_for_each, on) refl

module _ (l : ListHead) (xs ys : List ℕ) (h : IsList l (xs ++ ys)) where
  -- a new cell between two neighbours
  add-IsList :
      (n : ℕ) (c : Cell)
      → (In n (l.head ∷ (xs ++ ys)) → ⊥)
      → l.cells n ≡ some c
      → Returns (list_add l.cells n (last l.head xs) (first ys l.head)) λ cells.
        IsList (record { head = l.head; num = l.num + 1; cells = cells }) (xs ++ (n ∷ ys))
  add-IsList n c new at_n =
      let out = λ (a : ℕ) (m : In a (l.head ∷ (xs ++ ys))) (e : n ≡ a).
        new (subst (λ z. In z (l.head ∷ (xs ++ ys))) (sym e) m) in
      let to = Chain-first (next_of l.cells) l.head xs ys l.head h.forward in
      let from = Back-first (prev_of l.cells) l.head xs ys l.head h.backward in
      let (cells, run, w) =
        list_add-Added l.cells n (last l.head xs) (first ys l.head) _ _ c
          (out (last l.head xs) (In-last_of l.head xs ys))
          (out (first ys l.head) (In-first l.head xs ys)) at_n to from in
      (
        cells,
        run,
        record {
          forward =
              Chain-link (next_of l.cells) (next_of cells) n l.head xs ys l.head h.apart new
                h.forward w.next_prev (w.next_new ∙ sym to) w.next_others;
          backward =
              Back-link (prev_of l.cells) (prev_of cells) n l.head xs ys l.head h.apart.1 h.apart.0
                (λ m. new (inr m)) (λ e. new (inl (sym e))) h.backward w.prev_new w.prev_next
                w.prev_others;
          apart = Distinct-insert (l.head ∷ xs) ys n h.apart new;
          counted = ap (λ k. k + 1) h.counted ∙ sym (length-put xs ys n);
        },
      )

module _ (l : ListHead) (xs : List ℕ) (h : IsList l xs) (n : ℕ) (c : Cell)
    (new : In n (l.head ∷ xs) → ⊥) (at_n : l.cells n ≡ some c) where
  -- `list_lpush` of an allocated cell that is not in a list returns, and puts it first.
  pub list_lpush-IsList : Returns (list_lpush l n) λ l'. IsList l' (n ∷ xs)
  unfolding list_lpush
  list_lpush-IsList =
      let to = Chain-first (next_of l.cells) l.head [] xs l.head h.forward in
      let (cells, run, h') = add-IsList l [] xs h n c new at_n in
      (
        record { head = l.head; num = l.num + 1; cells = cells },
        rw (list_lpush, to) (rw run refl),
        h',
      )

  -- `list_rpush` of an allocated cell that is not in a list returns, and puts it last.
  pub list_rpush-IsList : Returns (list_rpush l n) λ l'. IsList l' (xs ++ (n ∷ []))
  unfolding list_rpush
  list_rpush-IsList =
      let h0 : IsList l (xs ++ []) = subst (IsList l) (sym (append_nil xs)) h in
      let from = Back-first (prev_of l.cells) l.head xs [] l.head h0.backward in
      let to = Chain-first (next_of l.cells) l.head xs [] l.head h0.forward in
      let (cells, run, h') =
        add-IsList l xs [] h0 n c (λ m. new (subst (λ ys. In n (l.head ∷ ys)) (append_nil xs) m))
          at_n in
      (
        record { head = l.head; num = l.num + 1; cells = cells },
        rw (list_rpush, from) (rw to (rw run refl)),
        h',
      )

module _ (l : ListHead) (xs ys : List ℕ) (n : ℕ) (h : IsList l (xs ++ (n ∷ ys))) where
  -- `list_del` of a cell of a list returns, takes it out, and lets it point to itself.
  pub list_del-IsList :
      Returns
        (list_del l n)
        λ l'. IsList l' (xs ++ ys) × (next_of l'.cells n ≡ ok n) × (prev_of l'.cells n ≡ ok n)
  unfolding list_del
  list_del-IsList =
      let (apart, gone) = Distinct-remove (l.head ∷ xs) ys n h.apart in
      let out = λ (a : ℕ) (m : In a (l.head ∷ (xs ++ ys))) (e : n ≡ a).
        gone (subst (λ z. In z (l.head ∷ (xs ++ ys))) (sym e) m) in
      let before = Back-from (prev_of l.cells) l.head xs ys l.head n h.backward in
      let behind =
        Chain-first (next_of l.cells) n [] ys l.head
          (Chain-from (next_of l.cells) l.head xs ys l.head n h.forward) in
      let to = Chain-first (next_of l.cells) l.head xs (n ∷ ys) l.head h.forward in
      let from = Back-first (prev_of l.cells) l.head (xs ++ (n ∷ [])) ys l.head (
        subst (λ zs. Back (prev_of l.cells) l.head zs l.head) (sym (append_one xs ys n))
          h.backward) in
      let (cells, run, w) =
        take_out-Removed l.cells n (last l.head xs) (first ys l.head) _ _
          (out (last l.head xs) (In-last_of l.head xs ys))
          (out (first ys l.head) (In-first l.head xs ys)) behind to from in
      (
        record { head = l.head; num = l.num - 1; cells = cells },
        del_step n l (last l.head xs) (first ys l.head) cells before behind run,
        (
          record {
            forward =
                Chain-unlink (next_of l.cells) (next_of cells) n l.head xs ys l.head h.apart
                  h.forward (w.next_prev ∙ sym behind) w.next_others;
            backward =
                Back-unlink (prev_of l.cells) (prev_of cells) n l.head xs ys l.head apart.1 apart.0
                  (λ m. gone (inr m)) (λ e. gone (inl (sym e))) h.backward
                  (w.prev_next ∙ sym before) w.prev_others;
            apart = apart;
            counted = omega (arith, h.counted, length-put xs ys n);
          },
          w.alone.0,
          w.alone.1,
        ),
      )

-- The loop of `list_for_each` visits the cells of a list in order, and ends.
for_each-chain :
    (l : ListHead) (xs : List ℕ) (fuel a : ℕ)
    → Chain (next_of l.cells) a xs l.head
    → a ≢ l.head
    → (In l.head xs → ⊥)
    → length xs + 1 < fuel
    → list_for_each fuel l a ≡ ok (a ∷ xs)
for_each-chain l xs zero a c ne out enough = absurd (omega (arith, enough))
for_each-chain l [] (suc fuel) a c ne out enough =
    visit_step fuel l a l.head [] ne c (visit_end fuel l (omega (arith, enough)))
for_each-chain l (x ∷ xs) (suc fuel) a (e, c) ne out enough = visit_step fuel l a x (x ∷ xs) ne e (
    for_each-chain l xs fuel x c (λ p. out (inl (sym p))) (λ m. out (inr m))
      (omega (arith, enough)))

-- `list_for_each` from the head's next cell on, with more fuel than cells, visits the cells of a
-- list in order and ends.
pub list_for_each-visits :
    (l : ListHead) (xs : List ℕ) (fuel : ℕ)
    → IsList l xs
    → length xs < fuel
    → (next_of l.cells l.head >>= λ c. list_for_each fuel l c) ≡ ok xs
list_for_each-visits l [] fuel h enough = rw (h.forward) (visit_end fuel l enough)
list_for_each-visits l (x ∷ xs) fuel h enough = rw (h.forward.0) (
    for_each-chain l xs fuel x h.forward.1 (λ e. h.apart.0 (inl (sym e))) (λ m. h.apart.0 (inr m))
      (omega (arith, enough)))

-- A new head is a list without cells.
pub list_head_init-IsList : (head : ℕ) (cells : Cells) → IsList (list_head_init head cells) []
unfolding list_head_init next_of prev_of
list_head_init-IsList head cells =
    let on : (head == head) ≡ true = (==_iff head head).1 refl in
    record {
      forward = rw (next_of, on) refl;
      backward = rw (prev_of, on) refl;
      apart = ((λ m. m), tt);
      counted = refl;
    }
