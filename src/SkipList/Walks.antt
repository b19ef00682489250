-- ===== src/SkipList/Walks.antt =====
-- Walks along the levels of a skip list, and the nodes at which they end.
use xfire_db.Base.{
  ℕ, zero, suc, ◌+◌, ◌≤◌, ◌<◌, ◌≡◌, refl, sym, ◌∙◌, ap, inl, inr, true, false, none, some, List, [],
  ◌∷◌, ◌++◌, ◌==◌, ==_iff, ltb, leb, length, Run, ok, arith, Bool-cases, Returns,
}
use mathlib.Core.Path.{subst}
use xfire_db.SkipList.{Nodes, SkipList, forward, hash_of, walk, descend, put, max_levels, max_size}
use xfire_db.SkipList.Chains.{In, Chain, last, first, In-last, Chain-first}
use xfire_db.SkipList.Heap.{hash_of-Holds}
use xfire_db.SkipList.Towers.{
  Tower, hash, All, tall, addrs, IsTower, IsSkipList, tall-append, In-tall, In-tall_lower, lower,
  upper, lower-upper, lower-All, upper-All, All-append_of,
}

-- a node whose hash is on one side of a bound
abbrev pub HashIs : Nodes → (ℕ → Type 0) → ℕ → Type 0
HashIs nodes P a = (x : ℕ) × (hash_of nodes a ≡ ok x) × P x

module _ (nodes : Nodes) (i h : ℕ) where
  walk_step :
      (fuel p n y : ℕ)
      → forward nodes p i ≡ ok n
      → hash_of nodes n ≡ ok y
      → walk (suc fuel) nodes i h p
        ≡ elim (ltb y h) as (λ b. Run ℕ) [ true ↦ walk fuel nodes i h n | false ↦ ok p ]
  unfolding walk
  walk_step fuel p n y e e' = rw (walk, e, e') refl

  walk-last :
      (xs : List ℕ) (fuel p a : ℕ) (ys : List ℕ) (b : ℕ)
      → Chain (λ x. forward nodes x i) a (xs ++ ys) b
      → ((x : ℕ) → In x xs → HashIs nodes (λ y. y < h) x)
      → HashIs nodes (λ y. h ≤ y) (first ys b)
      → In p (a ∷ xs)
      → length xs < fuel
      → walk fuel nodes i h p ≡ ok (last a xs)
  walk-last xs zero p a ys b c small big m enough = absurd (omega (arith, enough))
  walk-last [] (suc fuel) p a ys b c small (y, at_y, le) (inr m) enough = absurd m
  walk-last [] (suc fuel) p a ys b c small (y, at_y, le) (inl e) enough =
      let stop : ltb y h ≡ false = ground (arith, le) in
      rw e (walk_step fuel a (first ys b) y (to ys b c) at_y ∙ rw stop refl)
    where
      to :
          (ys : List ℕ) (b : ℕ)
          → Chain (λ x. forward nodes x i) a ys b
          → forward nodes a i ≡ ok (first ys b)
      to [] b c = c
      to (y ∷ ys) b (e, c) = e
  walk-last (x ∷ xs) (suc fuel) p a ys b (e, c) small big (inr m) enough =
      walk-last xs (suc fuel) p x ys b c (λ y m. small y (inr m)) big m (omega (arith, enough))
  walk-last (x ∷ xs) (suc fuel) p a ys b (e, c) small big (inl same) enough =
      let (y, at_y, lt) = small x (inl refl) in
      let on : ltb y h ≡ true = ground (arith, lt) in
      rw same (
        walk_step fuel a x y e at_y
        ∙ rw on (
            walk-last xs fuel x x ys b c (λ y m. small y (inr m)) big (inl refl)
              (omega (arith, enough))))

-- The nodes before a key, on each level: the last with a smaller hash.
abbrev pub before : SkipList → List Tower → ℕ → ℕ → ℕ
before l ts h i = last l.header (tall i (lower h ts))

module _ (l : SkipList) (ts : List Tower) (s : IsSkipList l ts) (h : ℕ) (le : h ≤ max_size) where
  pub level-chain :
      (i : ℕ)
      → 1 ≤ i
      → i ≤ max_levels
      → Chain
          (λ a. forward l.nodes a i)
          l.header
          (tall i (lower h ts) ++ tall i (upper h ts))
          l.header
  level-chain i low high =
      subst (λ xs. Chain (λ a. forward l.nodes a i) l.header xs l.header)
        (ap (tall i) (sym (lower-upper h ts)) ∙ tall-append i (lower h ts) (upper h ts))
        (s.chains i low high)

  pub split-towers :
      All (IsTower l.nodes l.level) (lower h ts) × All (IsTower l.nodes l.level) (upper h ts)
  split-towers =
      All-append_of (IsTower l.nodes l.level) (lower h ts) (upper h ts)
        (rw (lower-upper h ts) s.towers)

  pub small_hashes : (i x : ℕ) → In x (tall i (lower h ts)) → HashIs l.nodes (λ y. y < h) x
  small_hashes i x m =
      among (lower h ts) split-towers.0 (lower-All h ts) (In-tall i x (lower h ts) m)
    where
      among :
          (us : List Tower)
          → All (IsTower l.nodes l.level) us
          → All (λ t. hash t < h) us
          → In x (addrs us)
          → HashIs l.nodes (λ y. y < h) x
      among [] held small m = absurd m
      among (t ∷ us) ((holds, tall1, tall2, under), held) (lt, small) (inl e) = (
        hash t,
        rw e (hash_of-Holds l.nodes t.addr (some t.key) (hash t) (t.height + 1) holds),
        lt,
      )
      among (t ∷ us) (first', held) (lt, small) (inr m) = among us held small m

  pub first_hash :
      (i : ℕ) (P : ℕ → Type 0)
      → P max_size
      → All (λ t. P (hash t)) (upper h ts)
      → HashIs l.nodes P (first (tall i (upper h ts)) l.header)
  first_hash i P at_end all = among (upper h ts) split-towers.1 all
    where
      among :
          (us : List Tower)
          → All (IsTower l.nodes l.level) us
          → All (λ t. P (hash t)) us
          → HashIs l.nodes P (first (tall i us) l.header)
      among [] held all =
          (max_size, hash_of-Holds l.nodes l.header none max_size (max_levels + 1) s.head, at_end)
      among (t ∷ us) ((holds, low, high, under), held) (here, all) =
          elim (Bool-cases (leb i t.height)) [
            | inl e ↦ rw e (
              hash t,
              hash_of-Holds l.nodes t.addr (some t.key) (hash t) (t.height + 1) holds,
              here,
            )
            | inr e ↦ rw e (among us held all)
          ]

  pub big_hash : (i : ℕ) → HashIs l.nodes (λ y. h ≤ y) (first (tall i (upper h ts)) l.header)
  big_hash i = first_hash i (λ y. h ≤ y) le (upper-All h ts s.ascending)

  pub next-before :
      (i : ℕ)
      → 1 ≤ i
      → i ≤ max_levels
      → forward l.nodes (before l ts h i) i ≡ ok (first (tall i (upper h ts)) l.header)
  next-before i low high =
      Chain-first (λ a. forward l.nodes a i) l.header (tall i (lower h ts)) (tall i (upper h ts))
        l.header (level-chain i low high)

  pub length-tall : (i : ℕ) (us : List Tower) → length (tall i us) ≤ length us
  length-tall i [] = omega arith
  length-tall i (t ∷ us) = ground (arith, length-tall i us)

  pub length-lower : (us : List Tower) → length (lower h us) ≤ length us
  length-lower [] = omega arith
  length-lower (t ∷ us) = ground (arith, length-lower us)

  -- where a walk may start on a level: at a node that stands on the level above
  down :
      (i p : ℕ)
      → In p (l.header ∷ tall (suc i) (lower h ts))
      → In p (l.header ∷ tall i (lower h ts))
  down i p (inl e) = inl e
  down i p (inr m) = inr (In-tall_lower i p (lower h ts) m)

  descend-before :
      (body : ℕ → ℕ → Run ℕ)
      → ((i p : ℕ)
          → 1 ≤ i
          → i ≤ max_levels
          → In p (l.header ∷ tall i (lower h ts))
          → body i p ≡ ok (before l ts h i))
      → (i p : ℕ) (update : ℕ → ℕ) → i ≤ max_levels
      → In p (l.header ∷ tall i (lower h ts))
      → Returns (descend body i p update) λ (node, update').
        (i ≡ 0 → node ≡ p)
        × ((0 < i) → node ≡ before l ts h 1)
        × ((j : ℕ) → 1 ≤ j → j ≤ i → update' j ≡ before l ts h j)
        × ((j : ℕ) → i < j → update' j ≡ update j)
  unfolding descend
  descend-before body arrives zero p update high m = (
    (p, update),
    refl,
    (
      (λ e. refl),
      (λ pos. absurd (omega (arith, pos))),
      (λ j low le. absurd (omega (arith, low, le))),
      (λ j lt. refl),
    ),
  )
  descend-before body arrives (suc i) p update high m =
      let q = before l ts h (suc i) in
      let run = arrives (suc i) p (omega arith) high m in
      let ((node, update'), run', (at_start, at_end, inside, outside)) =
        descend-before body arrives i q (put update (suc i) q) (omega (arith, high))
          (down i q (In-last l.header (tall (suc i) (lower h ts)))) in
      (
        (node, update'),
        rw (run, run') refl,
        (
          (λ e. absurd (omega (arith, e))),
          (λ pos. first_level i node at_start at_end),
          (λ j low le. elim (Bool-cases (j == suc i)) [
            | inl same ↦
                subst (λ j. update' j ≡ before l ts h j) (sym ((==_iff j (suc i)).0 same))
                  (outside (suc i) (omega arith) ∙ ground arith)
            | inr other ↦ inside j low (ground (arith, le, other))
          ]),
          (λ j lt. outside j (omega (arith, lt)) ∙ ground (arith, lt)),
        ),
      )
    where
      first_level :
          (i node : ℕ)
          → (i ≡ 0 → node ≡ before l ts h (suc i))
          → ((0 < i) → node ≡ before l ts h 1)
          → node ≡ before l ts h 1
      first_level zero node at_start at_end = at_start refl
      first_level (suc i) node at_start at_end = at_end (omega arith)

  pub walk-before :
      (fuel : ℕ)
      → length ts < fuel
      → (i p : ℕ) → 1 ≤ i
      → i ≤ max_levels
      → In p (l.header ∷ tall i (lower h ts))
      → walk fuel l.nodes i h p ≡ ok (before l ts h i)
  walk-before fuel enough i p low high m =
      walk-last l.nodes i h (tall i (lower h ts)) fuel p l.header (tall i (upper h ts)) l.header
        (level-chain i low high) (small_hashes i) (big_hash i) m
        (omega (arith, length-tall i (lower h ts), length-lower ts, enough))

  -- From the header, the loop over the levels ends at the node before the key on the lowest level, and
  -- it keeps those of the others.
  pub descend-update :
      (body : ℕ → ℕ → Run ℕ)
      → ((i p : ℕ)
          → 1 ≤ i
          → i ≤ max_levels
          → In p (l.header ∷ tall i (lower h ts))
          → body i p ≡ ok (before l ts h i))
      → Returns (descend body l.level l.header (λ i. 0)) λ (node, update).
        (forward l.nodes node 1 ≡ ok (first (tall 1 (upper h ts)) l.header))
        × ((j : ℕ) → 1 ≤ j → j ≤ l.level → update j ≡ before l ts h j)
  descend-update body arrives =
      let ((node, update), run, (at_start, at_end, inside, outside)) =
        descend-before body arrives l.level l.header (λ i. 0) s.levels.1 (inl refl) in
      let e = at_end (omega (arith, s.levels.0)) in
      (
        (node, update),
        run,
        (ap (λ a. forward l.nodes a 1) e ∙ next-before 1 (omega arith) (omega arith), inside),
      )
