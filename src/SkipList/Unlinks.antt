-- ===== src/SkipList/Unlinks.antt =====
-- The loop of `skiplist_delete` that takes a node out of its levels.
use mathlib.Core.Path.{subst}
use xfire_db.Base.{
  ℕ, zero, suc, ◌+◌, ◌≤◌, ◌<◌, ◌≡◌, ◌≢◌, refl, sym, ◌∙◌, ap, ◌⊎◌, inl, inr, true, false, ◌==◌,
  ==_iff, leb, Run, ok, ◌>>=◌, arith, Bool-cases, Returns,
}
use xfire_db.SkipList.{Nodes, forward, set_forward, unlink_levels}
use xfire_db.SkipList.Heap.{shape, Writes, set_forward-Writes}
use xfire_db.SkipList.Links.{level-cases}

-- A node is taken out of the levels from `i` up to its height: there the pointers to it lead on to
-- where its own do, and the others stay.
pub record Unlinked (nodes nodes' : Nodes) (node : ℕ) (u : ℕ → ℕ) (i height : ℕ) : Type 0 where
  pub behind : (j : ℕ) → i ≤ j → j ≤ height → forward nodes' (u j) j ≡ forward nodes node j
  pub others : (j b : ℕ) → b ≢ u j → forward nodes' b j ≡ forward nodes b j
  pub outside : (j b : ℕ) → (j < i) ⊎ (height < j) → forward nodes' b j ≡ forward nodes b j
  pub shapes : (b : ℕ) → shape nodes' b ≡ shape nodes b

-- what the loop meets on a level: a pointer to the node, as far up as it stands
abbrev pub Meets : Nodes → ℕ → (ℕ → ℕ) → ℕ → ℕ → Type 0
Meets nodes node u height j =
    (j ≤ height → (forward nodes (u j) j ≡ ok node) × ((v : ℕ) × (forward nodes node j ≡ ok v)))
    × (height < j → (v : ℕ) × (forward nodes (u j) j ≡ ok v) × (v ≢ node))

unlink_test :
    (k i : ℕ) (u : ℕ → ℕ) (node v : ℕ) (nodes : Nodes)
    → forward nodes (u i) i ≡ ok v
    → unlink_levels (suc k) i u node nodes ≡ elim (v == node) as (λ b. Run Nodes) [
      | false ↦ ok nodes
      | true ↦ do
        after ← forward nodes node i
        nodes ← set_forward nodes (u i) i after
        unlink_levels k (i + 1) u node nodes
    ]
unfolding unlink_levels
unlink_test k i u node v nodes e = rw (unlink_levels, e) refl

unlink_stop :
    (k i : ℕ) (u : ℕ → ℕ) (node v : ℕ) (nodes : Nodes)
    → forward nodes (u i) i ≡ ok v
    → v ≢ node
    → unlink_levels (suc k) i u node nodes ≡ ok nodes
unlink_stop k i u node v nodes e ne =
    let off : (v == node) ≡ false = ground (arith, ne) in
    unlink_test k i u node v nodes e ∙ rw off refl

unlink_step :
    (k i : ℕ) (u : ℕ → ℕ) (node v : ℕ) (nodes nodes' : Nodes)
    → forward nodes (u i) i ≡ ok node
    → forward nodes node i ≡ ok v
    → set_forward nodes (u i) i v ≡ ok nodes'
    → unlink_levels (suc k) i u node nodes ≡ unlink_levels k (i + 1) u node nodes'
unlink_step k i u node v nodes nodes' e e' run =
    let on : (node == node) ≡ true = (==_iff node node).1 refl in
    unlink_test k i u node node nodes e ∙ rw (on, e', run) refl

stays :
    (nodes : Nodes) (node : ℕ) (u : ℕ → ℕ) (i height : ℕ)
    → height < i
    → Unlinked nodes nodes node u i height
stays nodes node u i height over = record {
  behind = λ j low high. absurd (omega (arith, low, high, over));
  others = λ j b ne. refl;
  outside = λ j b p. refl;
  shapes = λ b. refl;
}

-- one level, and then the others
module _ (nodes n1 n2 : Nodes) (node : ℕ) (u : ℕ → ℕ) (i height v : ℕ)
    (at_node : forward nodes node i ≡ ok v) (one : Writes nodes n1 (u i) i v)
    (w : Unlinked n1 n2 node u (i + 1) height) (le : i ≤ height) where
  one-others : (j b : ℕ) → b ≢ u j → forward n1 b j ≡ forward nodes b j
  one-others j b ne = elim (Bool-cases (j == i)) [
    | inl e ↦
        let same : j ≡ i = (==_iff j i).0 e in one.others b j (inl (λ p. ne (p ∙ ap u (sym same))))
    | inr off ↦ one.others b j (inr (λ e. ground (arith, e, off)))
  ]

  then-Unlinked : Unlinked nodes n2 node u i height
  then-Unlinked = record {
    behind = λ j low high. elim (level-cases i j low) [
      | inl p ↦
          subst (λ j. forward n2 (u j) j ≡ forward nodes node j) (sym p)
            (w.outside i (u i) (inl (omega arith)) ∙ one.there ∙ sym at_node)
      | inr p ↦ w.behind j p high ∙ one.others node j (inr (λ e. omega (arith, e, p)))
    ];
    others = λ j b ne. w.others j b ne ∙ one-others j b ne;
    outside = λ j b p. w.outside j b (further j p) ∙ one.others b j (inr (level_apart j p));
    shapes = λ b. w.shapes b ∙ one.shapes b;
  }
    where
      further : (j : ℕ) → (j < i) ⊎ (height < j) → (j < i + 1) ⊎ (height < j)
      further j (inl lt) = inl (omega (arith, lt))
      further j (inr lt) = inr lt

      level_apart : (j : ℕ) → (j < i) ⊎ (height < j) → j ≢ i
      level_apart j (inl lt) e = omega (arith, lt, e)
      level_apart j (inr lt) e = omega (arith, lt, e, le)

pub unlink_levels-Unlinked :
    (k i : ℕ) (u : ℕ → ℕ) (node height : ℕ) (nodes : Nodes)
    → height < i + k
    → ((j : ℕ) → i ≤ j → j < i + k → Meets nodes node u height j)
    → Returns (unlink_levels k i u node nodes) λ nodes'. Unlinked nodes nodes' node u i height
unfolding unlink_levels
unlink_levels-Unlinked zero i u node height nodes room h =
    (nodes, refl, stays nodes node u i height (omega (arith, room)))
unlink_levels-Unlinked (suc k) i u node height nodes room h = elim (Bool-cases (leb i height)) [
  | inr off ↦
      let over : height < i = ground (arith, off) in
      let (v, e, ne) = (h i (omega arith) (omega arith)).1 over in
      (nodes, unlink_stop k i u node v nodes e ne, stays nodes node u i height over)
  | inl on ↦
      let le : i ≤ height = ground (arith, on) in
      let (e, (v, e')) = (h i (omega arith) (omega arith)).0 le in
      let (n1, run, one) = set_forward-Writes nodes (u i) i v node e in
      let (n2, run', w) =
        unlink_levels-Unlinked k (i + 1) u node height n1 (omega (arith, room))
          (λ j low high. later n1 one j low (h j (omega (arith, low)) (omega (arith, high)))) in
      (
        n2,
        unlink_step k i u node v nodes n1 e e' run ∙ run',
        then-Unlinked nodes n1 n2 node u i height v e' one w le,
      )
]
  where
    later :
        {v : ℕ} (n1 : Nodes)
        → Writes nodes n1 (u i) i v
        → (j : ℕ) → i + 1 ≤ j
        → Meets nodes node u height j
        → Meets n1 node u height j
    later n1 one j low (up, over) = (
      (λ le. let (e, (v, e')) = up le in (kept (u j) ∙ e, (v, kept node ∙ e'))),
      (λ lt. let (v, e, ne) = over lt in (v, kept (u j) ∙ e, ne)),
    )
      where
        kept : (b : ℕ) → forward n1 b j ≡ forward nodes b j
        kept b = one.others b j (inr (λ e. omega (arith, e, low)))
