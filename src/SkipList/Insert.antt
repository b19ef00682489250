-- ===== src/SkipList/Insert.antt =====
-- The heap of a skip list in which `skiplist_insert` has linked a new node.
use mathlib.Core.Path.{subst}
use xfire_db.Base.{
  ℕ, ◌+◌, ◌≤◌, ◌<◌, ◌≡◌, ◌≢◌, refl, sym, ◌∙◌, ap, ◌⊎◌, inl, inr, Option, none, some, List, [], ◌∷◌,
  ◌++◌, leb, length, length-replicate, replicate, CString, arith, Bool-cases, Returns,
}
use xfire_db.SkipList.{
  Node, Nodes, SkipList, write, forward, link_levels, skiplist_hash_key, max_levels, max_size,
}
use xfire_db.SkipList.Chains.{In, Distinct, Chain, In-left, In-right, Chain-link, Chain-frame}
use xfire_db.SkipList.Heap.{Holds, forward-Holds, forward_of, write_self, write_ne, shape}
use xfire_db.SkipList.Links.{Linked, link_levels-Linked}
use xfire_db.SkipList.Orders.{Distinct-insert, Ascending-insert, length-insert}
use xfire_db.SkipList.Spots.{Fits}
use xfire_db.SkipList.Towers.{
  Tower, hash, All, tall, addrs, IsTower, IsSkipList, lower, upper, lower-upper, lower-All,
  tall-append, addrs-append, In-tall, Distinct-tall, All-append,
}
use xfire_db.SkipList.Walks.{before, next-before, split-towers, level-chain}
use xfire_db.SkipList.Fronts.{below, before-In}

module _ (l : SkipList) (ts : List Tower) (s : IsSkipList l ts) (key : CString)
    (f : Fits key ts) where
  abbrev h : ℕ
  h = skiplist_hash_key key

  joined : (i : ℕ) → tall i (lower h ts) ++ tall i (upper h ts) ≡ tall i ts
  joined i = sym (tall-append i (lower h ts) (upper h ts)) ∙ ap (tall i) (lower-upper h ts)

  pub level-Distinct : (i : ℕ) → Distinct (l.header ∷ (tall i (lower h ts) ++ tall i (upper h ts)))
  level-Distinct i =
      subst (λ xs. Distinct (l.header ∷ xs)) (sym (joined i))
        ((λ m. s.apart.0 (In-tall i l.header ts m)), Distinct-tall i ts s.apart.1)

  module _ (node level : ℕ) (new : In node (l.header ∷ addrs ts) → ⊥) (low : 1 ≤ level)
      (high : level ≤ max_levels) where
    abbrev made : Node
    made = record { key = some key; hash = h; forward = replicate (level + 1) 0 }

    abbrev nodes0 : Nodes
    nodes0 = write l.nodes node made

    abbrev tower : Tower
    tower = record { addr = node; key = key; height = level }

    abbrev ts' : List Tower
    ts' = lower h ts ++ (tower ∷ upper h ts)

    kept : (b j : ℕ) → b ≢ node → forward nodes0 b j ≡ forward l.nodes b j
    kept b j ne =
        forward_of nodes0 b j (l.nodes b) (write_ne l.nodes node b made ne)
        ∙ sym (forward_of l.nodes b j (l.nodes b) refl)

    kept_shape : (b : ℕ) → b ≢ node → shape nodes0 b ≡ shape l.nodes b
    unfolding shape
    kept_shape b ne = rw (write_ne l.nodes node b made ne) refl

    made-Holds : Holds nodes0 node (some key) h (level + 1)
    unfolding shape
    made-Holds = rw (write_self l.nodes node made, length-replicate {A = ℕ} (level + 1) 0) refl

    new_at : (i : ℕ) → In node (l.header ∷ (tall i (lower h ts) ++ tall i (upper h ts))) → ⊥
    new_at i (inl e) = new (inl e)
    new_at i (inr m) = new (inr (In-tall i node ts (subst (In node) (joined i) m)))

    before-ne : (j : ℕ) → before l ts h j ≢ node
    before-ne j e = new (subst (λ a. In a (l.header ∷ addrs ts)) e (before-In l ts s key f j))

    module _ (u : ℕ → ℕ) (u_before : (j : ℕ) → 1 ≤ j → j ≤ level → u j ≡ before l ts h j) where
      pub links :
          Returns (link_levels level 1 u node nodes0) λ nodes'. Linked nodes0 nodes' node u 1 level
      links = link_levels-Linked level 1 u node nodes0 (λ j low' high'.
          let e = u_before j low' (omega (arith, high')) in
          (
            (λ p. before-ne j (sym e ∙ p)),
            (
              _,
              kept (u j) j (λ p. before-ne j (sym e ∙ p))
                  ∙ ap (λ a. forward l.nodes a j) e
                  ∙ next-before l ts s h (below l ts s key f) j low' (omega (arith, high, high')),
            ),
            forward-Holds nodes0 node (some key) h (level + 1) j made-Holds (omega (arith, high')),
          ))

      module _ (nodes' : Nodes) (w : Linked nodes0 nodes' node u 1 level) where
        moved :
            (b : ℕ) (k : Option CString) (x room : ℕ)
            → b ≢ node
            → Holds l.nodes b k x room
            → Holds nodes' b k x room
        moved b k x room ne held = w.shapes b ∙ kept_shape b ne ∙ held

        chain' :
            (i : ℕ)
            → 1 ≤ i
            → i ≤ max_levels
            → Chain (λ a. forward nodes' a i) l.header (tall i ts') l.header
        chain' i low' high' = elim (Bool-cases (leb i level)) [
          | inl on ↦
              let le : i ≤ level = ground (arith, on) in
              let e = u_before i low' le in
              rw (tall-append i (lower h ts) (tower ∷ upper h ts), on)
                (Chain-link (λ a. forward l.nodes a i) (λ a. forward nodes' a i) node l.header
                  (tall i (lower h ts)) (tall i (upper h ts)) l.header (level-Distinct i) (new_at i)
                  (level-chain l ts s h (below l ts s key f) i low' high')
                  (ap (λ a. forward nodes' a i) (sym e) ∙ w.ahead i low' (omega (arith, le)))
                  (w.behind i low' (omega (arith, le))
                    ∙ kept (u i) i (λ p. before-ne i (sym e ∙ p))
                    ∙ ap (λ a. forward l.nodes a i) e)
                  (λ b p q. w.others i b low' (omega (arith, le)) p (λ r. q (r ∙ e)) ∙ kept b i p))
          | inr off ↦
              rw (tall-append i (lower h ts) (tower ∷ upper h ts), off)
                (Chain-frame (λ a. forward l.nodes a i) (λ a. forward nodes' a i) l.header
                  (tall i (lower h ts) ++ tall i (upper h ts)) l.header
                  (λ b m.
                    w.outside i b (inr (ground (arith, off)))
                    ∙ kept b i (λ e. new_at i (
                        subst (λ a. In a (l.header ∷ (tall i (lower h ts) ++ tall i (upper h ts))))
                          e m)))
                  (level-chain l ts s h (below l ts s key f) i low' high'))
        ]

        -- the list with the new node
        module _ (l' : SkipList) (same : l'.header ≡ l.header) (at' : l'.nodes ≡ nodes')
            (grown : (l.level ≤ l'.level) × (level ≤ l'.level) × (l'.level ≤ max_levels))
            (counted : l'.size ≡ l.size + 1) (beyond : All (λ t. h < hash t) (upper h ts))
            (under : h < max_size) where
          old_towers :
              (us : List Tower)
              → ((a : ℕ) → In a (addrs us) → a ≢ node)
              → All (IsTower l.nodes l.level) us
              → All (IsTower nodes' l'.level) us
          old_towers [] apart held = tt
          old_towers (t ∷ us) apart ((holds, low', high', small), held) = (
            (
              moved t.addr (some t.key) (hash t) (t.height + 1) (apart t.addr (inl refl)) holds,
              low',
              omega (arith, high', grown.0),
              small,
            ),
            old_towers us (λ a m. apart a (inr m)) held,
          )

          In-halves : (a : ℕ) → In a (addrs (lower h ts)) ⊎ In a (addrs (upper h ts)) → a ≢ node
          In-halves a m e = new (
              inr (
                subst (λ a. In a (addrs ts)) e
                  (subst (λ us. In a (addrs us)) (lower-upper h ts)
                    (subst (In a) (sym (addrs-append (lower h ts) (upper h ts))) (both m)))))
            where
              both :
                  In a (addrs (lower h ts)) ⊎ In a (addrs (upper h ts))
                  → In a (addrs (lower h ts) ++ addrs (upper h ts))
              both (inl m) = In-left a (addrs (lower h ts)) (addrs (upper h ts)) m
              both (inr m) = In-right a (addrs (lower h ts)) (addrs (upper h ts)) m

          new-IsTower : IsTower nodes' l'.level tower
          new-IsTower = (w.shapes node ∙ made-Holds, low, grown.1, under)

          halves :
              All (IsTower l.nodes l.level) (lower h ts)
              × All (IsTower l.nodes l.level) (upper h ts)
          halves = split-towers l ts s h (below l ts s key f)

          addrs_joined : addrs (lower h ts) ++ addrs (upper h ts) ≡ addrs ts
          addrs_joined = sym (addrs-append (lower h ts) (upper h ts)) ∙ ap addrs (lower-upper h ts)

          inserted-Distinct : Distinct (l.header ∷ addrs ts')
          inserted-Distinct = rw (addrs-append (lower h ts) (tower ∷ upper h ts)) (
              Distinct-insert (l.header ∷ addrs (lower h ts)) (addrs (upper h ts)) node
                (subst (λ as'. Distinct (l.header ∷ as')) (sym addrs_joined) s.apart)
                (λ m. new (subst (λ as'. In node (l.header ∷ as')) addrs_joined m)))

          pub inserted : IsSkipList l' ts'
          inserted = record {
            chains = λ i low' high'. rw (same, at') (chain' i low' high');
            towers = rw at' (
                All-append (IsTower nodes' l'.level) (lower h ts) (tower ∷ upper h ts)
                  (old_towers (lower h ts) (λ a m. In-halves a (inl m)) halves.0)
                  (new-IsTower, old_towers (upper h ts) (λ a m. In-halves a (inr m)) halves.1));
            head =
                rw (same, at')
                  (moved l.header none max_size (max_levels + 1) (λ e. new (inl (sym e))) s.head);
            ascending =
                Ascending-insert (lower h ts) (upper h ts) tower (rw (lower-upper h ts) s.ascending)
                  (lower-All h ts) beyond;
            apart = rw same inserted-Distinct;
            levels = (omega (arith, s.levels, grown.0), grown.2);
            sized =
                counted
                ∙ ap (λ n. n + 1) (s.sized ∙ ap length (sym (lower-upper h ts)))
                ∙ sym (length-insert (lower h ts) (upper h ts) tower);
          }
