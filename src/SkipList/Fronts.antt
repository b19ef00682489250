-- ===== src/SkipList/Fronts.antt =====
-- The nodes before a key and behind it, and the level of a new node.
use mathlib.Core.Path.{subst}
use xfire_db.Base.{
  ℕ, zero, suc, ◌+◌, ◌≤◌, ◌<◌, ◌≡◌, refl, sym, ◌∙◌, ap, inl, inr, Bool, true, false, Option, none,
  some, List, [], ◌∷◌, leb, CString, str_eq, str_eq_iff, ok, arith, Bool-cases,
}
use xfire_db.SkipList.{
  Node, SkipList, deref, has_key, climb, skiplist_rand_level, skiplist_hash_key, max_levels,
  max_size,
}
use xfire_db.SkipList.Chains.{In, first, In-last, In-left}
use xfire_db.SkipList.Heap.{Holds-node, deref_of, Outline}
use xfire_db.SkipList.Search.{front-IsTower, first-front}
use xfire_db.SkipList.Spots.{Fits}
use xfire_db.SkipList.Towers.{
  Tower, hash, All, tall, addrs, IsTower, IsSkipList, lower, upper, lower-upper, addrs-append,
  In-tall, All-map,
}
use xfire_db.SkipList.Walks.{before, split-towers}

climb_bounds :
    (coin : ℕ → Bool) (left height : ℕ)
    → (height ≤ climb coin left height) × (climb coin left height ≤ height + left)
unfolding climb
climb_bounds coin zero height = (omega arith, omega arith)
climb_bounds coin (suc left) height =
    let (low, high) = climb_bounds coin left (height + 1) in
    elim (Bool-cases (coin height)) [
      | inl e ↦ rw (climb, e) (omega (arith, low), omega (arith, high))
      | inr e ↦ rw (climb, e) (omega arith, omega arith)
    ]

-- A level is from 1 to the maximum, whatever the coin.
pub rand_level_bounds :
    (coin : ℕ → Bool)
    → (1 ≤ skiplist_rand_level coin max_levels) × (skiplist_rand_level coin max_levels ≤ max_levels)
unfolding skiplist_rand_level
rand_level_bounds coin =
    let (low, high) = climb_bounds coin 5 1 in (omega (arith, low), omega (arith, high))

tall-none : (i : ℕ) (us : List Tower) → All (λ t. t.height < i) us → tall i us ≡ []
tall-none i [] h = refl
tall-none i (t ∷ us) (lt, h) =
    let off : leb i t.height ≡ false = ground (arith, lt) in rw (off, tall-none i us h) refl

module _ (l : SkipList) (ts : List Tower) (s : IsSkipList l ts) (key : CString)
    (f : Fits key ts) where
  abbrev pub h : ℕ
  h = skiplist_hash_key key

  pub below : h ≤ max_size
  below = omega (arith, f.below)

  pub before-In : (j : ℕ) → In (before l ts h j) (l.header ∷ addrs ts)
  before-In j = elim (In-last l.header (tall j (lower h ts))) [
    | inl e ↦ inl e
    | inr m ↦ inr (
        subst (λ us. In (before l ts h j) (addrs us)) (lower-upper h ts)
          (subst (In (before l ts h j)) (sym (addrs-append (lower h ts) (upper h ts)))
            (In-left _ (addrs (lower h ts)) (addrs (upper h ts)) (In-tall j _ (lower h ts) m))))
  ]

  pub before-above : (j : ℕ) → l.level < j → before l ts h j ≡ l.header
  before-above j lt =
      let none_tall = tall-none j (lower h ts) (
        All-map (IsTower l.nodes l.level) (λ t. t.height < j) (lower h ts)
          (λ t (holds, low, high, under). omega (arith, lt, high))
          (split-towers l ts s h below).0) in
      rw none_tall refl

  -- the node behind those with smaller hashes, when the key is absent
  pub front_key :
      All (λ t. h < hash t) (upper h ts)
      → (x : Node) × (deref l.nodes (first (tall 1 (upper h ts)) l.header) ≡ ok x)
        × (has_key x key ≡ false)
  front_key all = among (upper h ts) refl all
    where
      differs :
          (o : Option CString) (x : Node)
          → x.key ≡ o
          → (elim o as (λ o. Bool) [ none ↦ false | some k ↦ str_eq k key ] ≡ false)
          → has_key x key ≡ false
      differs o x e d =
          unfold has_key in
          (ap (λ o. elim o as (λ o. Bool) [ none ↦ false | some k ↦ str_eq k key ]) e ∙ d)

      among :
          (us : List Tower)
          → upper h ts ≡ us
          → All (λ t. h < hash t) us
          → (x : Node) × (deref l.nodes (first (tall 1 (upper h ts)) l.header) ≡ ok x)
            × (has_key x key ≡ false)
      among [] e all =
          let (x, at_x, same) = Holds-node l.nodes l.header none max_size (max_levels + 1) s.head in
          (
            x,
            rw e (deref_of l.nodes l.header x at_x),
            differs none x (ap (λ (o : Outline). o.0) same) refl,
          )
      among (t ∷ us) e (lt, all) =
          let (holds, low, high, under) = front-IsTower l ts s key f e in
          let (x, at_x, same) =
            Holds-node l.nodes t.addr (some t.key) (hash t) (t.height + 1) holds in
          (
            x,
            rw (first-front l ts s key f e 1 low) (deref_of l.nodes t.addr x at_x),
            differs (some t.key) x (ap (λ (o : Outline). o.0) same)
                (elim (Bool-cases (str_eq t.key key)) [
                  | inl k ↦
                      absurd (omega (arith, lt, ap skiplist_hash_key ((str_eq_iff t.key key).0 k)))
                  | inr k ↦ k
                ]),
          )

  -- the node behind them is the one with the key, when it is there
  pub front_found :
      (t : Tower) (rest : List Tower)
      → upper h ts ≡ t ∷ rest
      → t.key ≡ key
      → (x : Node) × (deref l.nodes (first (tall 1 (upper h ts)) l.header) ≡ ok x)
        × (has_key x key ≡ true)
  unfolding has_key
  front_found t rest up k =
      let (holds, low, high, under) = front-IsTower l ts s key f up in
      let (x, at_x, same) = Holds-node l.nodes t.addr (some t.key) (hash t) (t.height + 1) holds in
      (
        x,
        rw (first-front l ts s key f up 1 low) (deref_of l.nodes t.addr x at_x),
        ap (λ o. elim o as (λ o. Bool) [ none ↦ false | some k ↦ str_eq k key ])
              (ap (λ (o : Outline). o.0) same)
            ∙ (str_eq_iff t.key key).1 k,
      )
