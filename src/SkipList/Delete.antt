-- ===== src/SkipList/Delete.antt =====
-- A skip list without one of its nodes: what the pointers are when it is unlinked and destroyed.
use mathlib.Core.Path.{subst}
use xfire_db.Base.{
  ℕ, ◌+◌, ◌-◌, ◌≤◌, ◌<◌, ◌≡◌, ◌≢◌, refl, sym, ◌∙◌, ap, inl, inr, true, false, Option, none, some,
  List, [], ◌∷◌, ◌++◌, leb, length, CString, ok, arith, Bool-cases, Returns,
}
use xfire_db.SkipList.{
  Node, Nodes, SkipList, write, forward, unlink_levels, skiplist_hash_key, max_levels, max_size,
}
use xfire_db.SkipList.Chains.{
  In, Distinct, Chain, first, In-last, In-left, In-right, Chain-unlink, Chain-frame,
}
use xfire_db.SkipList.Heap.{Holds, forward-Holds, forward_of, write_ne, shape}
use xfire_db.SkipList.Orders.{Distinct-remove, Ascending-remove, length-insert}
use xfire_db.SkipList.Search.{front-IsTower, first-front}
use xfire_db.SkipList.Spots.{Fits}
use xfire_db.SkipList.Towers.{
  Tower, hash, All, tall, addrs, IsTower, IsSkipList, lower, upper, lower-upper, tall-append,
  addrs-append, In-tall, All-append, All-append_of,
}
use xfire_db.SkipList.Unlinks.{Unlinked, Meets, unlink_levels-Unlinked}
use xfire_db.SkipList.Walks.{before, next-before, level-chain}
use xfire_db.SkipList.Fronts.{below}
use xfire_db.SkipList.Insert.{level-Distinct}

pub In-first : (xs : List ℕ) (b : ℕ) → In (first xs b) (b ∷ xs)
In-first [] b = inl refl
In-first (x ∷ xs) b = inr (inl refl)

module _ (l : SkipList) (ts : List Tower) (s : IsSkipList l ts) (key : CString) (f : Fits key ts)
    (t : Tower) (rest : List Tower) (up : upper (skiplist_hash_key key) ts ≡ t ∷ rest) where
  abbrev h : ℕ
  h = skiplist_hash_key key

  abbrev pub left : List Tower
  left = lower h ts ++ rest

  whole : lower h ts ++ (t ∷ rest) ≡ ts
  whole = ap (λ us. lower h ts ++ us) (sym up) ∙ lower-upper h ts

  apart :
      Distinct (l.header ∷ (addrs (lower h ts) ++ addrs rest))
      × (In t.addr (l.header ∷ (addrs (lower h ts) ++ addrs rest)) → ⊥)
  apart = Distinct-remove (l.header ∷ addrs (lower h ts)) (addrs rest) t.addr (
      subst (λ as'. Distinct (l.header ∷ as'))
        (ap addrs (sym whole) ∙ addrs-append (lower h ts) (t ∷ rest)) s.apart)

  left-Distinct : Distinct (l.header ∷ addrs left)
  left-Distinct = rw (addrs-append (lower h ts) rest) apart.0

  pub left-out : In t.addr (l.header ∷ addrs left) → ⊥
  left-out m =
      apart.1 (subst (λ as'. In t.addr (l.header ∷ as')) (addrs-append (lower h ts) rest) m)

  pub header-out : In l.header (addrs left) → ⊥
  header-out m = left-Distinct.0 m

  held : IsTower l.nodes l.level t
  held = front-IsTower l ts s key f up

  pub left_towers : All (IsTower l.nodes l.level) left
  left_towers =
      let (small, big) =
        All-append_of (IsTower l.nodes l.level) (lower h ts) (t ∷ rest) (rw whole s.towers) in
      All-append (IsTower l.nodes l.level) (lower h ts) rest small big.1

  -- the nodes of a level, without it
  level-out : (i : ℕ) → In t.addr (l.header ∷ tall i left) → ⊥
  level-out i (inl e) = left-out (inl e)
  level-out i (inr m) = left-out (inr (In-tall i t.addr left m))

  rest-out : (i : ℕ) → In t.addr (l.header ∷ tall i rest) → ⊥
  rest-out i (inl e) = left-out (inl e)
  rest-out i (inr m) = level-out i (
      inr (
        subst (In t.addr) (sym (tall-append i (lower h ts) rest))
          (In-right t.addr (tall i (lower h ts)) (tall i rest) m)))

  before-out : (i : ℕ) → before l ts h i ≢ t.addr
  before-out i e = elim (In-last l.header (tall i (lower h ts))) [
    | inl e' ↦ left-out (inl (sym e ∙ e'))
    | inr m ↦ level-out i (
        inr (
          subst (In t.addr) (sym (tall-append i (lower h ts) rest)) (
            In-left t.addr (tall i (lower h ts)) (tall i rest)
              (subst (λ a. In a (tall i (lower h ts))) e m))))
  ]

  chain_at :
      (i : ℕ)
      → 1 ≤ i
      → i ≤ max_levels
      → Chain
          (λ a. forward l.nodes a i)
          l.header
          (tall i (lower h ts) ++ tall i (t ∷ rest))
          l.header
  chain_at i low high =
      subst
        (λ us.
          Chain (λ a. forward l.nodes a i) l.header (tall i (lower h ts) ++ tall i us) l.header)
        up (level-chain l ts s h (below l ts s key f) i low high)

  split-Distinct : (i : ℕ) → Distinct (l.header ∷ (tall i (lower h ts) ++ tall i (t ∷ rest)))
  split-Distinct i =
      subst (λ us. Distinct (l.header ∷ (tall i (lower h ts) ++ tall i us))) up
        (level-Distinct l ts s key f i)

  module _ (u : ℕ → ℕ) (u_before : (j : ℕ) → 1 ≤ j → j ≤ l.level → u j ≡ before l ts h j) where
    meets : (j : ℕ) → 1 ≤ j → j ≤ l.level → Meets l.nodes t.addr u t.height j
    meets j low high =
        let e = u_before j low high in
        let next =
          next-before l ts s h (below l ts s key f) j low (omega (arith, high, s.levels.1)) in
        (
          (λ le. (
            ap (λ a. forward l.nodes a j) e ∙ next ∙ ap ok (first-front l ts s key f up j le),
            forward-Holds l.nodes t.addr (some t.key) (hash t) (t.height + 1) j held.0
                (omega (arith, le)),
          )),
          (λ lt.
              let off : leb j t.height ≡ false = ground (arith, lt) in
              (
                first (tall j rest) l.header,
                ap (λ a. forward l.nodes a j) e
                    ∙ next
                    ∙ ap (λ us. ok (first (tall j us) l.header)) up
                    ∙ rw off refl,
                λ p. rest-out j (
                    subst (λ a. In a (l.header ∷ tall j rest)) p (In-first (tall j rest) l.header)),
              )),
        )

    pub unlinks :
        Returns
          (unlink_levels l.level 1 u t.addr l.nodes)
          λ nodes'. Unlinked l.nodes nodes' t.addr u 1 t.height
    unlinks =
        let (holds, low, high, under) = held in
        unlink_levels-Unlinked l.level 1 u t.addr t.height l.nodes (omega (arith, high))
          (λ j low' high'. meets j low' (omega (arith, high')))

    -- the node is destroyed, too
    module _ (nodes' : Nodes) (w : Unlinked l.nodes nodes' t.addr u 1 t.height) (dead : Node) where
      abbrev pub nodes2 : Nodes
      nodes2 = write nodes' t.addr dead

      kept : (b j : ℕ) → b ≢ t.addr → forward nodes2 b j ≡ forward nodes' b j
      kept b j ne =
          forward_of nodes2 b j (nodes' b) (write_ne nodes' t.addr b dead ne)
          ∙ sym (forward_of nodes' b j (nodes' b) refl)

      kept_shape : (b : ℕ) → b ≢ t.addr → shape nodes2 b ≡ shape nodes' b
      unfolding shape
      kept_shape b ne = rw (write_ne nodes' t.addr b dead ne) refl

      stays :
          (b : ℕ) (k : Option CString) (x room : ℕ)
          → b ≢ t.addr
          → Holds l.nodes b k x room
          → Holds nodes2 b k x room
      stays b k x room ne holds = kept_shape b ne ∙ w.shapes b ∙ holds

      low_chain :
          (i : ℕ)
          → 1 ≤ i
          → i ≤ t.height
          → Chain (λ a. forward nodes2 a i) l.header (tall i (lower h ts) ++ tall i rest) l.header
      low_chain i low le =
          let (holds, low', high', under) = held in
          let e = u_before i low (omega (arith, le, high')) in
          let on : leb i t.height ≡ true = ground (arith, le) in
          let i_max : i ≤ max_levels = omega (arith, le, high', s.levels.1) in
          Chain-unlink (λ a. forward l.nodes a i) (λ a. forward nodes2 a i) t.addr l.header
            (tall i (lower h ts)) (tall i rest) l.header (rw on at (split-Distinct i))
            (rw on at (chain_at i low i_max))
            (kept (before l ts h i) i (before-out i)
              ∙ ap (λ a. forward nodes' a i) (sym e)
              ∙ w.behind i low le)
            (λ b p q. kept b i p ∙ w.others i b (λ r. q (r ∙ e)))

      high_chain :
          (i : ℕ)
          → 1 ≤ i
          → i ≤ max_levels
          → t.height < i
          → Chain (λ a. forward nodes2 a i) l.header (tall i (lower h ts) ++ tall i rest) l.header
      high_chain i low high lt =
          let off : leb i t.height ≡ false = ground (arith, lt) in
          Chain-frame (λ a. forward l.nodes a i) (λ a. forward nodes2 a i) l.header
            (tall i (lower h ts) ++ tall i rest) l.header
            (λ b m.
              kept b i (λ e. level-out i (
                subst (λ us. In t.addr (l.header ∷ us)) (sym (tall-append i (lower h ts) rest))
                  (subst (λ a. In a (l.header ∷ (tall i (lower h ts) ++ tall i rest))) e m)))
              ∙ w.outside i b (inr lt))
            (rw off at (chain_at i low high))

      pub left_chain :
          (i : ℕ)
          → 1 ≤ i
          → i ≤ max_levels
          → Chain (λ a. forward nodes2 a i) l.header (tall i left) l.header
      left_chain i low high = elim (Bool-cases (leb i t.height)) [
        | inl on ↦ rw (tall-append i (lower h ts) rest) (low_chain i low (ground (arith, on)))
        | inr off ↦
            rw (tall-append i (lower h ts) rest) (high_chain i low high (ground (arith, off)))
      ]

      stay_towers :
          (level' : ℕ) (us : List Tower)
          → ((a : ℕ) → In a (addrs us) → a ≢ t.addr)
          → All (IsTower l.nodes l.level) us
          → All (λ v. v.height ≤ level') us
          → All (IsTower nodes2 level') us
      stay_towers level' [] away all low = tt
      stay_towers level' (v ∷ us) away ((holds, low', high', small), all) (le, low) = (
        (
          stays v.addr (some v.key) (hash v) (v.height + 1) (away v.addr (inl refl)) holds,
          low',
          le,
          small,
        ),
        stay_towers level' us (λ a m. away a (inr m)) all low,
      )

      pub deleted :
          (level' : ℕ)
          → (1 ≤ level') × (level' ≤ max_levels)
          → All (λ v. v.height ≤ level') left
          → IsSkipList
              (record { level = level'; size = l.size - 1; header = l.header; nodes = nodes2 })
              left
      deleted level' levels' low = record {
        chains = left_chain;
        towers =
            stay_towers level' left (λ a m e. left-out (inr (subst (λ a. In a (addrs left)) e m)))
              left_towers low;
        head = stays l.header none max_size (max_levels + 1) (λ e. left-out (inl (sym e))) s.head;
        ascending = Ascending-remove (lower h ts) rest t (rw whole s.ascending);
        apart = left-Distinct;
        levels = levels';
        sized = omega (arith, s.sized, ap length whole, length-insert (lower h ts) rest t);
      }
