-- ===== src/SkipList/Lowers.antt =====
-- The loop of `skiplist_delete` that lowers the level of the list.
use xfire_db.Base.{
  ℕ, zero, suc, ◌≤◌, ◌≡◌, refl, sym, ◌∙◌, inl, inr, true, false, List, [], ◌∷◌, ◌==◌, ==_iff, ltb,
  leb, Run, ok, arith, Bool-cases, Returns,
}
use xfire_db.SkipList.{Nodes, forward, lower_level, max_levels}
use xfire_db.SkipList.Chains.{In, Chain, first, Chain-first}
use xfire_db.SkipList.Towers.{Tower, All, tall, addrs}

-- no node stands on a level whose pointer leads from the header to itself
heights-lower :
    (i header : ℕ) (us : List Tower)
    → (In header (addrs us) → ⊥)
    → first (tall (suc i) us) header ≡ header
    → All (λ t. t.height ≤ suc i) us
    → All (λ t. t.height ≤ i) us
heights-lower i header [] out e h = tt
heights-lower i header (t ∷ us) out e (le, h) = elim (Bool-cases (leb (suc i) t.height)) [
  | inl on ↦ absurd (out (inl (sym (rw on at (e)))))
  | inr off ↦ (ground (arith, off), heights-lower i header us (λ m. out (inr m)) (rw off at (e)) h)
]

module _ (nodes : Nodes) (header : ℕ) where
  lower_step :
      (n next : ℕ)
      → forward nodes header (suc (suc n)) ≡ ok next
      → lower_level nodes header (suc (suc n)) ≡ elim (next == header) as (λ b. Run ℕ) [
        | true ↦ lower_level nodes header (suc n)
        | false ↦ ok (suc (suc n))
      ]
  unfolding lower_level
  lower_step n next e = let on : ltb 0 (suc n) ≡ true = ground arith in rw (lower_level, on, e) refl

  module _ (us : List Tower) (out : In header (addrs us) → ⊥)
      (chains : (i : ℕ)
        → 1 ≤ i
        → i ≤ max_levels
        → Chain (λ a. forward nodes a i) header (tall i us) header) where
    pub lower_level-heights :
        (level : ℕ)
        → 1 ≤ level
        → level ≤ max_levels
        → All (λ t. t.height ≤ level) us
        → Returns
            (lower_level nodes header level)
            λ level'. All (λ t. t.height ≤ level') us × (1 ≤ level') × (level' ≤ max_levels)
    unfolding lower_level
    lower_level-heights zero low high h = absurd (omega (arith, low))
    lower_level-heights (suc zero) low high h = (1, refl, (h, omega arith, omega arith))
    lower_level-heights (suc (suc n)) low high h =
        let next = first (tall (suc (suc n)) us) header in
        let e = lower_step n next (
          Chain-first (λ a. forward nodes a (suc (suc n))) header [] (tall (suc (suc n)) us) header
            (chains (suc (suc n)) low high)) in
        elim (Bool-cases (next == header)) [
          | inl back ↦
              let (level', run, facts) =
                lower_level-heights (suc n) (omega arith) (omega (arith, high))
                  (heights-lower (suc n) header us out ((==_iff next header).0 back) h) in
              (level', e ∙ rw back run, facts)
          | inr on ↦ (suc (suc n), e ∙ rw on refl, (h, low, high))
        ]
