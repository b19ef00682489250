-- ===== src/SkipList/Links.antt =====
-- The loop of `skiplist_insert` that links a node on each of its levels.
use mathlib.Core.Path.{subst}
use xfire_db.Base.{
  ℕ, zero, suc, ◌+◌, ◌≤◌, ◌<◌, ◌≡◌, ◌≢◌, refl, sym, ◌∙◌, ◌⊎◌, inl, inr, ◌==◌, ==_iff, ok, arith,
  Bool-cases, Returns,
}
use xfire_db.SkipList.{Nodes, forward, link_at, link_levels}
use xfire_db.SkipList.Heap.{set_forward-Writes, shape}

-- the pointer of a level exists
abbrev pub HasLink : Nodes → ℕ → ℕ → Type 0
HasLink nodes a i = (v : ℕ) × (forward nodes a i ≡ ok v)

-- `node` is linked behind `u j` on the `k` levels from `i` on; nothing else changes.
pub record Linked (nodes nodes' : Nodes) (node : ℕ) (u : ℕ → ℕ) (i k : ℕ) : Type 0 where
  pub behind : (j : ℕ) → i ≤ j → j < i + k → forward nodes' node j ≡ forward nodes (u j) j
  pub ahead : (j : ℕ) → i ≤ j → j < i + k → forward nodes' (u j) j ≡ ok node
  pub others :
      (j b : ℕ) → i ≤ j → j < i + k → b ≢ node → b ≢ u j → forward nodes' b j ≡ forward nodes b j
  pub outside : (j b : ℕ) → (j < i) ⊎ (i + k ≤ j) → forward nodes' b j ≡ forward nodes b j
  pub shapes : (b : ℕ) → shape nodes' b ≡ shape nodes b

-- one level
record LinkedAt (nodes nodes' : Nodes) (node u i : ℕ) : Type 0 where
  behind : forward nodes' node i ≡ forward nodes u i
  ahead : forward nodes' u i ≡ ok node
  others : (b : ℕ) → b ≢ node → b ≢ u → forward nodes' b i ≡ forward nodes b i
  outside : (j b : ℕ) → j ≢ i → forward nodes' b j ≡ forward nodes b j
  shapes : (b : ℕ) → shape nodes' b ≡ shape nodes b

pub level-cases : (i j : ℕ) → i ≤ j → (j ≡ i) ⊎ (i + 1 ≤ j)
level-cases i j le = elim (Bool-cases (j == i)) [
  | inl e ↦ inl ((==_iff j i).0 e)
  | inr e ↦ inr (ground (arith, le, e))
]

link_at-LinkedAt :
    (nodes : Nodes) (node u i : ℕ)
    → u ≢ node
    → HasLink nodes u i
    → HasLink nodes node i
    → Returns (link_at i u node nodes) λ nodes'. LinkedAt nodes nodes' node u i
unfolding link_at
link_at-LinkedAt nodes node u i ne (v, e) (w, e') =
    let (n1, run1, w1) = set_forward-Writes nodes node i v w e' in
    let kept : forward n1 u i ≡ ok v = w1.others u i (inl ne) ∙ e in
    let (n2, run2, w2) = set_forward-Writes n1 u i node v kept in
    (
      n2,
      rw (e, run1) run2,
      record {
        behind = w2.others node i (inl (λ p. ne (sym p))) ∙ w1.there ∙ sym e;
        ahead = w2.there;
        others = λ b p q. w2.others b i (inl q) ∙ w1.others b i (inl p);
        outside = λ j b p. w2.others b j (inr p) ∙ w1.others b j (inr p);
        shapes = λ b. w2.shapes b ∙ w1.shapes b;
      },
    )

pub link_levels-Linked :
    (k i : ℕ) (u : ℕ → ℕ) (node : ℕ) (nodes : Nodes)
    → ((j : ℕ) → i ≤ j → j < i + k → (u j ≢ node) × HasLink nodes (u j) j × HasLink nodes node j)
    → Returns (link_levels k i u node nodes) λ nodes'. Linked nodes nodes' node u i k
unfolding link_levels
link_levels-Linked zero i u node nodes h = (
  nodes,
  refl,
  record {
    behind = λ j low high. absurd (omega (arith, low, high));
    ahead = λ j low high. absurd (omega (arith, low, high));
    others = λ j b low high p q. refl;
    outside = λ j b p. refl;
    shapes = λ b. refl;
  },
)
link_levels-Linked (suc k) i u node nodes h =
    let (ne, has, has') = h i (omega arith) (omega arith) in
    let (n1, run, at_i) = link_at-LinkedAt nodes node (u i) i ne has has' in
    let (n2, run', w) = link_levels-Linked k (i + 1) u node n1 (λ j low high.
      let (ne', (v, e), (v', e')) = h j (omega (arith, low)) (omega (arith, high)) in
      (
        ne',
        (v, at_i.outside j (u j) (λ p. omega (arith, low, p)) ∙ e),
        (v', at_i.outside j node (λ p. omega (arith, low, p)) ∙ e'),
      )) in
    (
      n2,
      rw (run, run') refl,
      record {
        behind = λ j low high. elim (level-cases i j low) [
          | inl p ↦
              subst (λ j. forward n2 node j ≡ forward nodes (u j) j) (sym p)
                (w.outside i node (inl (omega arith)) ∙ at_i.behind)
          | inr p ↦
              w.behind j p (omega (arith, high)) ∙ at_i.outside j (u j) (λ e. omega (arith, e, p))
        ];
        ahead = λ j low high. elim (level-cases i j low) [
          | inl p ↦
              subst (λ j. forward n2 (u j) j ≡ ok node) (sym p)
                (w.outside i (u i) (inl (omega arith)) ∙ at_i.ahead)
          | inr p ↦ w.ahead j p (omega (arith, high))
        ];
        others = λ j b low high ne ne'. elim (level-cases i j low) [
          | inl p ↦
              subst (λ j. forward n2 b j ≡ forward nodes b j) (sym p)
                (w.outside i b (inl (omega arith)) ∙ at_i.others b ne (subst (λ j. b ≢ u j) p ne'))
          | inr p ↦
              w.others j b p (omega (arith, high)) ne ne'
              ∙ at_i.outside j b (λ e. omega (arith, e, p))
        ];
        outside = λ j b p. w.outside j b (further j p) ∙ at_i.outside j b (apart j p);
        shapes = λ b. w.shapes b ∙ at_i.shapes b;
      },
    )
  where
    further : (j : ℕ) → (j < i) ⊎ (i + suc k ≤ j) → (j < i + 1) ⊎ (i + 1 + k ≤ j)
    further j (inl lt) = inl (omega (arith, lt))
    further j (inr le) = inr (omega (arith, le))

    apart : (j : ℕ) → (j < i) ⊎ (i + suc k ≤ j) → j ≢ i
    apart j (inl lt) e = omega (arith, lt, e)
    apart j (inr le) e = omega (arith, le, e)
