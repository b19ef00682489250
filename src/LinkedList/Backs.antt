-- ===== src/LinkedList/Backs.antt =====
-- Chains of back pointers, and how they change when a cell is linked or unlinked.
use mathlib.Core.Path.{subst}
use xfire_db.Base.{ℕ, ◌≡◌, ◌≢◌, refl, sym, ◌∙◌, ◌⊎◌, inl, inr, List, [], ◌∷◌, ◌++◌, Run, ok}
use xfire_db.SkipList.Chains.{In, Distinct, last, first, In-right}

-- from `b` the back pointers lead through the cells of a list, from its end on, to `a`
abbrev pub Back : (ℕ → Run ℕ) → ℕ → List ℕ → ℕ → Type 0
Back prev a [] b = prev b ≡ ok a
Back prev a (x ∷ xs) b = (prev x ≡ ok a) × Back prev x xs b

pub Back-frame :
    (f g : ℕ → Run ℕ) (a : ℕ) (xs : List ℕ) (b : ℕ)
    → ((x : ℕ) → (x ≡ b) ⊎ In x xs → g x ≡ f x)
    → Back f a xs b
    → Back g a xs b
Back-frame f g a [] b same c = same b (inl refl) ∙ c
Back-frame f g a (x ∷ xs) b same (e, c) = (
  same x (inr (inl refl)) ∙ e,
  Back-frame f g x xs b (λ y m. same y (elim m [ inl p ↦ inl p | inr m ↦ inr (inr m) ])) c,
)

pub In-first_of : (xs ys : List ℕ) (b : ℕ) → (first ys b ≡ b) ⊎ In (first ys b) (xs ++ ys)
In-first_of xs [] b = inl refl
In-first_of xs (y ∷ ys) b = inr (In-right y xs (y ∷ ys) (inl refl))

-- where the back pointer of the first cell behind a place leads
pub Back-first :
    (f : ℕ → Run ℕ) (a : ℕ) (xs ys : List ℕ) (b : ℕ)
    → Back f a (xs ++ ys) b
    → f (first ys b) ≡ ok (last a xs)
Back-first f a [] [] b c = c
Back-first f a [] (y ∷ ys) b (e, c) = e
Back-first f a (x ∷ xs) ys b (e, c) = Back-first f x xs ys b c

pub Back-from :
    (f : ℕ → Run ℕ) (a : ℕ) (xs ys : List ℕ) (b : ℕ) (n : ℕ)
    → Back f a (xs ++ (n ∷ ys)) b
    → f n ≡ ok (last a xs)
Back-from f a [] ys b n (e, c) = e
Back-from f a (x ∷ xs) ys b n (e, c) = Back-from f x xs ys b n c

-- the cells behind the first one keep their back pointers
behind_first :
    (f g : ℕ → Run ℕ) (n y : ℕ) (ys : List ℕ) (b : ℕ)
    → Distinct (y ∷ ys)
    → (In b (y ∷ ys) → ⊥)
    → (In n (y ∷ ys) → ⊥)
    → b ≢ n
    → Back f y ys b
    → ((x : ℕ) → x ≢ n → x ≢ y → g x ≡ f x)
    → Back g y ys b
behind_first f g n y ys b (alone, apart) end new ne c same =
    Back-frame f g y ys b
      (λ x m.
        same x
          (λ e. elim m [ inl p ↦ ne (sym p ∙ e) | inr m ↦ new (inr (subst (λ z. In z ys) e m)) ])
          (λ e. elim m [
            | inl p ↦ end (inl (sym p ∙ e))
            | inr m ↦ alone (subst (λ z. In z ys) e m)
          ]))
      c

pub Back-link :
    (f g : ℕ → Run ℕ) (n a : ℕ) (xs ys : List ℕ) (b : ℕ)
    → Distinct (xs ++ ys)
    → (In b (xs ++ ys) → ⊥)
    → (In n (xs ++ ys) → ⊥)
    → b ≢ n
    → Back f a (xs ++ ys) b
    → g n ≡ ok (last a xs)
    → g (first ys b) ≡ ok n
    → ((x : ℕ) → x ≢ n → x ≢ first ys b → g x ≡ f x)
    → Back g a (xs ++ (n ∷ ys)) b
Back-link f g n a [] [] b apart end new ne c to back same = (to, back)
Back-link f g n a [] (y ∷ ys) b apart end new ne (e, c) to back same =
    (to, (back, behind_first f g n y ys b apart end new ne c same))
Back-link f g n a (x ∷ xs) ys b (alone, apart) end new ne (e, c) to back same = (
  same x (λ p. new (inl (sym p)))
        (λ p. elim (In-first_of xs ys b) [
          | inl q ↦ end (inl (sym (p ∙ q)))
          | inr m ↦ alone (subst (λ z. In z (xs ++ ys)) (sym p) m)
        ])
      ∙ e,
  Back-link f g n x xs ys b apart (λ m. end (inr m)) (λ m. new (inr m)) ne c to back same,
)

pub Back-unlink :
    (f g : ℕ → Run ℕ) (n a : ℕ) (xs ys : List ℕ) (b : ℕ)
    → Distinct (xs ++ ys)
    → (In b (xs ++ ys) → ⊥)
    → (In n (xs ++ ys) → ⊥)
    → b ≢ n
    → Back f a (xs ++ (n ∷ ys)) b
    → g (first ys b) ≡ f n
    → ((x : ℕ) → x ≢ n → x ≢ first ys b → g x ≡ f x)
    → Back g a (xs ++ ys) b
Back-unlink f g n a [] [] b apart end new ne (e, c) to same = to ∙ e
Back-unlink f g n a [] (y ∷ ys) b apart end new ne (e, (e', c)) to same =
    (to ∙ e, behind_first f g n y ys b apart end new ne c same)
Back-unlink f g n a (x ∷ xs) ys b (alone, apart) end new ne (e, c) to same = (
  same x (λ p. new (inl (sym p)))
        (λ p. elim (In-first_of xs ys b) [
          | inl q ↦ end (inl (sym (p ∙ q)))
          | inr m ↦ alone (subst (λ z. In z (xs ++ ys)) (sym p) m)
        ])
      ∙ e,
  Back-unlink f g n x xs ys b apart (λ m. end (inr m)) (λ m. new (inr m)) ne c to same,
)
