-- ===== src/Dict/Rehash/Rounds.antt =====
-- One round of `dict_rehash`: the search for a bucket, and the state behind its move.
use xfire_db.Base.{
  ℕ, zero, suc, ◌+◌, ◌≤◌, ◌<◌, ◌≡◌, refl, inl, inr, List, [], ◌∷◌, arith, ◌==◌, if◌then◌else◌,
  length, get_or, at-get_or, Returns, ok, Bool-cases, ==_iff,
}
use xfire_db.Dict.{Chain, DictMap}
use xfire_db.Dict.Rehash.{Search, stopped, found, skip_empty}
use xfire_db.Dict.Table.{bucket, total}

-- the buckets before `i` are empty
abbrev pub Swept : List Chain → ℕ → Type 0
Swept cs i = (j : ℕ) → j < i → get_or cs j [] ≡ []

-- then a map with entries has some at `i` or behind
pub lt-length_of_Swept : (cs : List Chain) (i : ℕ) → Swept cs i → 0 < total cs → i < length cs
lt-length_of_Swept [] i s h = absurd (omega arith)
lt-length_of_Swept (c ∷ cs) zero s h = omega arith
lt-length_of_Swept (c ∷ cs) (suc i) s h =
    let first : length c ≡ 0 = ap_length (s 0 (omega arith)) in
    omega (arith, lt-length_of_Swept cs i (λ j p. s (suc j) (omega arith)) (omega arith))
  where
    ap_length : c ≡ [] → length c ≡ 0
    ap_length e = rw e

-- what the search in a map from `idx` comes to
abbrev pub Skipped : DictMap → ℕ → Search → Type 0
Skipped map idx (stopped j) = (idx < j) × Swept map.array j
Skipped map idx (found j visits de next) =
    (idx ≤ j) × (0 < visits) × (bucket map j ≡ de ∷ next) × Swept map.array j

pub Swept-suc : (cs : List Chain) (i : ℕ) → Swept cs i → get_or cs i [] ≡ [] → Swept cs (i + 1)
Swept-suc cs i s e j h = elim (Bool-cases (j == i)) [
  | inl p ↦ rw ((==_iff j i).0 p) e
  | inr p ↦ s j (ground arith)
]

Skipped-mono : (map : DictMap) (i j : ℕ) (r : Search) → i ≤ j → Skipped map j r → Skipped map i r
Skipped-mono map i j (stopped k) h (a, b) = (omega arith, b)
Skipped-mono map i j (found k v de next) h (a, b, c, d) = (omega arith, b, c, d)

-- with entries left, the search stays in the array and comes to one of its two outcomes
pub skip_empty-Skipped :
    (visits : ℕ) (map : DictMap) (idx : ℕ)
    → 0 < total map.array
    → Swept map.array idx
    → 0 < visits
    → Returns (skip_empty visits map idx) (Skipped map idx)
unfolding skip_empty
skip_empty-Skipped zero map idx full s h = absurd (omega arith)
skip_empty-Skipped (suc visits) map idx full s h =
    rw (at-get_or map.array idx [] (lt-length_of_Swept map.array idx s full))
      (branch (bucket map idx) refl (λ s' h'. skip_empty-Skipped visits map (idx + 1) full s' h'))
  where
    branch :
        (c : Chain)
        → bucket map idx ≡ c
        → (Swept map.array (idx + 1)
            → 0 < visits
            → Returns (skip_empty visits map (idx + 1)) (Skipped map (idx + 1)))
        → Returns
            (elim c [
              | de ∷ next ↦ ok (found idx (suc visits) de next)
              | [] ↦ if visits == 0 then ok (stopped (idx + 1)) else skip_empty visits map (idx + 1)
            ])
            (Skipped map idx)
    branch (de ∷ next) e ih =
        (found idx (suc visits) de next, refl, (omega arith, omega arith, e, s))
    branch [] e ih = elim (Bool-cases (visits == 0)) [
      | inl p ↦ rw p (stopped (idx + 1), refl, (omega arith, Swept-suc map.array idx s e))
      | inr p ↦
          let (r, run, q) = ih (Swept-suc map.array idx s e) (ground arith) in
          rw p (r, run, Skipped-mono map idx (idx + 1) r (omega arith) q)
    ]
