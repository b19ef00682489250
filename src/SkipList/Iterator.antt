-- ===== src/SkipList/Iterator.antt =====
-- Iterators of a skip list: a walk along its lowest level.
use mathlib.Core.Path.{subst}
use xfire_db.Base.{
  ℕ, zero, suc, ◌+◌, ◌<◌, ◌≡◌, ◌≢◌, refl, sym, ◌∙◌, ap, inl, inr, true, false, Option, none, some,
  List, [], ◌∷◌, ◌==◌, ==_iff, length, if◌then◌else◌, CString, str_eq, str_eq_iff, Run, ok, fault,
  ◌>>=◌, arith,
}
use xfire_db.SkipList.{Node, SkipList, deref, forward, skiplist_delete, max_size}
use xfire_db.SkipList.Chains.{In, Chain, Chain-first}
use xfire_db.SkipList.Deletes.{skiplist_delete-IsSkipList}
use xfire_db.SkipList.Heap.{Holds-node, deref_of, Outline}
use xfire_db.SkipList.Spots.{Fits}
use xfire_db.SkipList.Frames.{tall-addrs}
use xfire_db.SkipList.Towers.{Tower, hash, All-map, IsTower, addrs, IsSkipList}

-- `struct skiplist_iterator`, without the list
pub record SkiplistIterator : Type 0 where
  pub current : Option ℕ
  pub prev : Option ℕ

-- `skiplist_iterator_new`
unfoldable pub skiplist_iterator_new : SkipList → SkiplistIterator
skiplist_iterator_new l = record { current = some l.header; prev = some l.header }

-- `skiplist_iterator_next`
unfoldable pub skiplist_iterator_next :
    SkipList → SkiplistIterator → Run (Option ℕ × SkiplistIterator)
skiplist_iterator_next l it = elim it.current [
  | none ↦ fault
  | some a ↦ do
    next ← forward l.nodes a 1
    let current = if next == l.header then none else some next
    ok (current, record { current = current; prev = some a })
]

-- `skiplist_iterator_delete`: the node that is current then
unfoldable pub skiplist_iterator_delete :
    ℕ → SkipList → SkiplistIterator → Run (Option ℕ × SkipList × SkiplistIterator)
skiplist_iterator_delete fuel l it = elim it.current [
  | none ↦ fault
  | some a ↦ do
    x ← deref l.nodes a
    elim x.key [
      | none ↦ fault
      | some key ↦ do
        (done, l) ← skiplist_delete fuel l key
        elim done [
          | false ↦ ok (some a, l, it)
          | true ↦ ok (it.prev, l, record { current = it.prev; prev = it.prev })
        ]
    ]
]

-- the loop of `for_each_set`, and what it visits
unfoldable pub visit : ℕ → SkipList → SkiplistIterator → Run (List ℕ)
visit zero l it = fault
visit (suc fuel) l it = do
  (node, it) ← skiplist_iterator_next l it
  elim node [ none ↦ ok [] | some a ↦ do rest ← visit fuel l it; ok (a ∷ rest) ]

module _ (l : SkipList) where
  pub next-end :
      (a : ℕ) (p : Option ℕ)
      → forward l.nodes a 1 ≡ ok l.header
      → skiplist_iterator_next l (record { current = some a; prev = p })
        ≡ ok (none, record { current = none; prev = some a })
  unfolding skiplist_iterator_next
  next-end a p e =
      let on : (l.header == l.header) ≡ true = (==_iff l.header l.header).1 refl in
      rw (skiplist_iterator_next, e, on) refl

  pub next-node :
      (a b : ℕ) (p : Option ℕ)
      → forward l.nodes a 1 ≡ ok b
      → b ≢ l.header
      → skiplist_iterator_next l (record { current = some a; prev = p })
        ≡ ok (some b, record { current = some b; prev = some a })
  unfolding skiplist_iterator_next
  next-node a b p e ne =
      let off : (b == l.header) ≡ false = ground (arith, ne) in
      rw (skiplist_iterator_next, e, off) refl

  visit-chain :
      (xs : List ℕ) (fuel a : ℕ) (p : Option ℕ)
      → Chain (λ a. forward l.nodes a 1) a xs l.header
      → (In l.header xs → ⊥)
      → length xs < fuel
      → visit fuel l (record { current = some a; prev = p }) ≡ ok xs
  unfolding visit
  visit-chain xs zero a p c out enough = absurd (omega (arith, enough))
  visit-chain [] (suc fuel) a p c out enough = rw (visit, next-end a p c) refl
  visit-chain (x ∷ xs) (suc fuel) a p (e, c) out enough =
      rw
        (
          visit,
          next-node a x p e (λ same. out (inl (sym same))),
          visit-chain xs fuel x (some a) c (λ m. out (inr m)) (omega (arith, enough)),
        )
        refl

length-addrs : (ts : List Tower) → length (addrs ts) ≡ length ts
length-addrs [] = refl
length-addrs (t ∷ ts) = omega (arith, length-addrs ts)

-- In a skip list with more fuel than nodes, a walk with a new iterator visits every node once, in
-- the order of the lowest level, and ends.
pub visit-addrs :
    (l : SkipList) (ts : List Tower) (fuel : ℕ)
    → IsSkipList l ts
    → length ts < fuel
    → visit fuel l (skiplist_iterator_new l) ≡ ok (addrs ts)
unfolding skiplist_iterator_new
visit-addrs l ts fuel s enough =
    visit-chain l (addrs ts) fuel l.header (some l.header)
      (subst (λ xs. Chain (λ a. forward l.nodes a 1) l.header xs l.header)
        (tall-addrs l.nodes l.level ts s.towers) (s.chains 1 (omega arith) (omega arith)))
      (s.apart.0) (omega (arith, enough, length-addrs ts))

delete_test :
    (fuel : ℕ) (l : SkipList) (a : ℕ) (p : Option ℕ) (x : Node)
    → deref l.nodes a ≡ ok x
    → skiplist_iterator_delete fuel l (record { current = some a; prev = p })
      ≡ elim x.key as (λ o. Run (Option ℕ × SkipList × SkiplistIterator)) [
        | none ↦ fault
        | some key ↦ do
          (done, l) ← skiplist_delete fuel l key
          elim done [
            | false ↦ ok (some a, l, record { current = some a; prev = p })
            | true ↦ ok (p, l, record { current = p; prev = p })
          ]
      ]
unfolding skiplist_iterator_delete
delete_test fuel l a p x e = rw (skiplist_iterator_delete, e) refl

delete-node :
    (fuel : ℕ) (l l' : SkipList) (a : ℕ) (p : Option ℕ) (x : Node) (key : CString)
    → deref l.nodes a ≡ ok x
    → x.key ≡ some key
    → skiplist_delete fuel l key ≡ ok (true, l')
    → skiplist_iterator_delete fuel l (record { current = some a; prev = p })
      ≡ ok (p, l', record { current = p; prev = p })
delete-node fuel l l' a p x key e k run = delete_test fuel l a p x e ∙ rw (k, run) refl

-- the first node of a list, as an iterator meets it
module _ (l : SkipList) (t : Tower) (ts : List Tower) (s : IsSkipList l (t ∷ ts)) where
  pub to-first : forward l.nodes l.header 1 ≡ ok t.addr
  to-first =
      Chain-first (λ a. forward l.nodes a 1) l.header [] (addrs (t ∷ ts)) l.header
        (subst (λ xs. Chain (λ a. forward l.nodes a 1) l.header xs l.header)
          (tall-addrs l.nodes l.level (t ∷ ts) s.towers) (s.chains 1 (omega arith) (omega arith)))

  pub first-Fits : Fits t.key (t ∷ ts)
  first-Fits = record {
    below = under_max s.towers.0;
    alone = (
      (λ e. refl),
      All-map (λ u. hash t < hash u) (λ u. hash u ≡ hash t → u.key ≡ t.key) ts
          (λ u lt e. absurd (omega (arith, lt, e))) s.ascending.0,
    );
  }
    where
      under_max : IsTower l.nodes l.level t → hash t < max_size
      under_max (holds, low, high, under) = under

  -- A walk that deletes the first node stands at the header again.
  pub delete-first :
      (fuel : ℕ) (p : Option ℕ)
      → length (t ∷ ts) < fuel
      → (l' : SkipList) × (skiplist_iterator_delete fuel l
            (record { current = some t.addr; prev = p })
          ≡ ok (p, l', record { current = p; prev = p }))
        × (l'.header ≡ l.header)
        × IsSkipList l' ts
  delete-first fuel p enough =
      let (holds, low, high, under) = s.towers.0 in
      let (x, at_x, same) = Holds-node l.nodes t.addr (some t.key) (hash t) (t.height + 1) holds in
      let ((done, l'), run, (answer, kept, s')) =
        skiplist_delete-IsSkipList l (t ∷ ts) s t.key first-Fits fuel enough in
      let is_t : str_eq t.key t.key ≡ true = (str_eq_iff t.key t.key).1 refl in
      let on : done ≡ true = answer ∙ rw is_t refl in
      (
        l',
        delete-node fuel l l' t.addr p x t.key (deref_of l.nodes t.addr x at_x)
            (ap (λ (o : Outline). o.0) same) (run ∙ ap (λ b. ok (b, l')) on),
        kept,
        rw is_t at (s'),
      )
