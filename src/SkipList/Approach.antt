-- ===== src/SkipList/Approach.antt =====
-- The walk of `skiplist_delete` along a level of libxfiredbengine/storage/skiplist.c.
use xfire_db.Base.{
  ℕ, zero, suc, ◌+◌, ◌≤◌, ◌<◌, ◌≡◌, refl, ◌∙◌, ap, ◌⊎◌, inl, inr, true, false, List, [], ◌∷◌, ◌++◌,
  ◌==◌, ==_iff, leb, some, none, length, CString, str_eq_iff, Run, ok, ◌>>=◌, arith, Bool-cases,
}
use xfire_db.SkipList.{
  Nodes, SkipList, forward, hash_of, same_key, approach, skiplist_hash_key, max_levels, max_size,
}
use xfire_db.SkipList.Chains.{In, Chain, last, first, Chain-first}
use xfire_db.SkipList.Heap.{hash_of-Holds, same_key-Holds}
use xfire_db.SkipList.Spots.{Fits}
use xfire_db.SkipList.Fronts.{below}
use xfire_db.SkipList.Towers.{
  Tower, hash, All, tall, IsTower, IsSkipList, lower, upper, lower-upper, upper-All, All-append_of,
}
use xfire_db.SkipList.Walks.{
  HashIs, before, level-chain, small_hashes, split-towers, length-tall, length-lower,
}

-- the walk does not go past a node: it has a greater hash, or it is the one with the key
abbrev pub Stops : Nodes → CString → ℕ → Type 0
Stops nodes key a =
    (y : ℕ) × (hash_of nodes a ≡ ok y)
    × ((skiplist_hash_key key < y)
        ⊎ ((y ≡ skiplist_hash_key key) × (same_key nodes a key ≡ ok true)))

module _ (nodes : Nodes) (i : ℕ) (key : CString) where
  abbrev h : ℕ
  h = skiplist_hash_key key

  approach_test :
      (fuel p n y : ℕ)
      → forward nodes p i ≡ ok n
      → hash_of nodes n ≡ ok y
      → approach (suc fuel) nodes i h key p ≡ elim (leb y h) as (λ b. Run ℕ) [
        | false ↦ ok p
        | true ↦ elim (y == h) as (λ b. Run ℕ) [
          | false ↦ approach fuel nodes i h key n
          | true ↦ do
            same ← same_key nodes n key
            elim same [ true ↦ ok p | false ↦ approach fuel nodes i h key n ]
        ]
      ]
  unfolding approach
  approach_test fuel p n y e e' = rw (approach, e, e') refl

  approach_stop :
      (fuel p n : ℕ)
      → forward nodes p i ≡ ok n
      → Stops nodes key n
      → approach (suc fuel) nodes i h key p ≡ ok p
  approach_stop fuel p n e (y, at_y, inl lt) =
      let off : leb y h ≡ false = ground (arith, lt) in
      approach_test fuel p n y e at_y ∙ rw off refl
  approach_stop fuel p n e (y, at_y, inr (same, found)) =
      let on : leb y h ≡ true = ground (arith, same) in
      let on' : (y == h) ≡ true = (==_iff y h).1 same in
      approach_test fuel p n y e at_y ∙ rw (on, on', found) refl

  approach_on :
      (fuel p n y : ℕ)
      → forward nodes p i ≡ ok n
      → hash_of nodes n ≡ ok y
      → y < h
      → approach (suc fuel) nodes i h key p ≡ approach fuel nodes i h key n
  approach_on fuel p n y e at_y lt =
      let on : leb y h ≡ true = ground (arith, lt) in
      let off : (y == h) ≡ false = ground (arith, lt) in
      approach_test fuel p n y e at_y ∙ rw (on, off) refl

  approach-last :
      (xs : List ℕ) (fuel p a : ℕ) (ys : List ℕ) (b : ℕ)
      → Chain (λ x. forward nodes x i) a (xs ++ ys) b
      → ((x : ℕ) → In x xs → HashIs nodes (λ y. y < h) x)
      → Stops nodes key (first ys b)
      → In p (a ∷ xs)
      → length xs < fuel
      → approach fuel nodes i h key p ≡ ok (last a xs)
  approach-last xs zero p a ys b c small big m enough = absurd (omega (arith, enough))
  approach-last [] (suc fuel) p a ys b c small stop (inr m) enough = absurd m
  approach-last [] (suc fuel) p a ys b c small stop (inl e) enough =
      rw e
        (approach_stop fuel a (first ys b) (Chain-first (λ x. forward nodes x i) a [] ys b c) stop)
  approach-last (x ∷ xs) (suc fuel) p a ys b (e, c) small stop (inr m) enough =
      approach-last xs (suc fuel) p x ys b c (λ y m. small y (inr m)) stop m (omega (arith, enough))
  approach-last (x ∷ xs) (suc fuel) p a ys b (e, c) small stop (inl same) enough =
      let (y, at_y, lt) = small x (inl refl) in
      rw same (
        approach_on fuel a x y e at_y lt
        ∙ approach-last xs fuel x x ys b c (λ y m. small y (inr m)) stop (inl refl)
            (omega (arith, enough)))

module _ (l : SkipList) (ts : List Tower) (s : IsSkipList l ts) (key : CString)
    (f : Fits key ts) where
  first-Stops :
      (i : ℕ) → Stops l.nodes key (first (tall i (upper (skiplist_hash_key key) ts)) l.header)
  first-Stops i =
      among (upper (skiplist_hash_key key) ts)
        (split-towers l ts s (skiplist_hash_key key) (below l ts s key f)).1
        (upper-All (skiplist_hash_key key) ts s.ascending)
        (All-append_of (λ t. hash t ≡ skiplist_hash_key key → t.key ≡ key)
          (lower (skiplist_hash_key key) ts) (upper (skiplist_hash_key key) ts)
          (rw (lower-upper (skiplist_hash_key key) ts) f.alone)).1
    where
      at_tower :
          (t : Tower)
          → IsTower l.nodes l.level t
          → skiplist_hash_key key ≤ hash t
          → (hash t ≡ skiplist_hash_key key → t.key ≡ key)
          → Stops l.nodes key t.addr
      at_tower t (holds, low, high, under) le alone = (
        hash t,
        hash_of-Holds l.nodes t.addr (some t.key) (hash t) (t.height + 1) holds,
        elim (Bool-cases (hash t == skiplist_hash_key key)) [
          | inl e ↦
              let same = (==_iff (hash t) (skiplist_hash_key key)).0 e in
              inr (
                same,
                same_key-Holds l.nodes t.addr t.key key (hash t) (t.height + 1) holds
                    ∙ ap ok ((str_eq_iff t.key key).1 (alone same)),
              )
          | inr e ↦ inl (ground (arith, le, e))
        ],
      )

      among :
          (us : List Tower)
          → All (IsTower l.nodes l.level) us
          → All (λ t. skiplist_hash_key key ≤ hash t) us
          → All (λ t. hash t ≡ skiplist_hash_key key → t.key ≡ key) us
          → Stops l.nodes key (first (tall i us) l.header)
      among [] held big alone = (
        max_size,
        hash_of-Holds l.nodes l.header none max_size (max_levels + 1) s.head,
        inl f.below,
      )
      among (t ∷ us) (here, held) (le, big) (one, alone) = elim (Bool-cases (leb i t.height)) [
        | inl e ↦ rw e (at_tower t here le one)
        | inr e ↦ rw e (among us held big alone)
      ]

  pub approach-before :
      (fuel : ℕ)
      → length ts < fuel
      → (i p : ℕ) → 1 ≤ i
      → i ≤ max_levels
      → In p (l.header ∷ tall i (lower (skiplist_hash_key key) ts))
      → approach fuel l.nodes i (skiplist_hash_key key) key p
        ≡ ok (before l ts (skiplist_hash_key key) i)
  approach-before fuel enough i p low high m =
      let le = below l ts s key f in
      approach-last l.nodes i key (tall i (lower (skiplist_hash_key key) ts)) fuel p l.header
        (tall i (upper (skiplist_hash_key key) ts)) l.header
        (level-chain l ts s (skiplist_hash_key key) le i low high)
        (small_hashes l ts s (skiplist_hash_key key) le i) (first-Stops i) m
        (omega (
          arith,
          length-tall l ts s (skiplist_hash_key key) le i (lower (skiplist_hash_key key) ts),
          length-lower l ts s (skiplist_hash_key key) le ts,
          enough,
        ))
