-- ===== src/SkipList/Chains.antt =====
-- Chains of pointers: what a walk along them meets, and how they change when a node is linked or
-- unlinked. A chain is over a read of one pointer, so it says nothing of levels or keys.
use mathlib.Core.Path.{subst}
use xfire_db.Base.{ℕ, ◌≡◌, ◌≢◌, refl, sym, ◌∙◌, ◌⊎◌, inl, inr, List, [], ◌∷◌, ◌++◌, Run, ok}

abbrev pub In : ℕ → List ℕ → Type 0
In a [] = ⊥
In a (x ∷ xs) = (a ≡ x) ⊎ In a xs

abbrev pub Distinct : List ℕ → Type 0
Distinct [] = Unit {0}
Distinct (x ∷ xs) = (In x xs → ⊥) × Distinct xs

-- the last node of a list, or the one before it
abbrev pub last : ℕ → List ℕ → ℕ
last a [] = a
last a (x ∷ xs) = last x xs

-- the first node of a list, or the one behind it
abbrev pub first : List ℕ → ℕ → ℕ
first [] b = b
first (x ∷ xs) b = x

-- from `a` the pointers lead through the nodes of a list to `b`
abbrev pub Chain : (ℕ → Run ℕ) → ℕ → List ℕ → ℕ → Type 0
Chain next a [] b = next a ≡ ok b
Chain next a (x ∷ xs) b = (next a ≡ ok x) × Chain next x xs b

pub In-last : (a : ℕ) (xs : List ℕ) → In (last a xs) (a ∷ xs)
In-last a [] = inl refl
In-last a (x ∷ xs) = inr (In-last x xs)

pub In-left : (a : ℕ) (xs ys : List ℕ) → In a xs → In a (xs ++ ys)
In-left a [] ys m = absurd m
In-left a (x ∷ xs) ys (inl e) = inl e
In-left a (x ∷ xs) ys (inr m) = inr (In-left a xs ys m)

pub In-right : (a : ℕ) (xs ys : List ℕ) → In a ys → In a (xs ++ ys)
In-right a [] ys m = m
In-right a (x ∷ xs) ys m = inr (In-right a xs ys m)

pub In-append : (a : ℕ) (xs ys : List ℕ) → In a (xs ++ ys) → In a xs ⊎ In a ys
In-append a [] ys m = inr m
In-append a (x ∷ xs) ys (inl e) = inl (inl e)
In-append a (x ∷ xs) ys (inr m) = elim (In-append a xs ys m) [ inl h ↦ inl (inr h) | inr h ↦ inr h ]

-- a chain survives any change that spares its nodes
pub Chain-frame :
    (f g : ℕ → Run ℕ) (a : ℕ) (xs : List ℕ) (b : ℕ)
    → ((x : ℕ) → In x (a ∷ xs) → g x ≡ f x)
    → Chain f a xs b
    → Chain g a xs b
Chain-frame f g a [] b same c = same a (inl refl) ∙ c
Chain-frame f g a (x ∷ xs) b same (e, c) =
    (same a (inl refl) ∙ e, Chain-frame f g x xs b (λ y m. same y (inr m)) c)

-- where the pointer of the last node before a place leads
pub Chain-first :
    (f : ℕ → Run ℕ) (a : ℕ) (xs ys : List ℕ) (b : ℕ)
    → Chain f a (xs ++ ys) b
    → f (last a xs) ≡ ok (first ys b)
Chain-first f a [] [] b c = c
Chain-first f a [] (y ∷ ys) b (e, c) = e
Chain-first f a (x ∷ xs) ys b (e, c) = Chain-first f x xs ys b c

pub Chain-from :
    (f : ℕ → Run ℕ) (a : ℕ) (xs ys : List ℕ) (b : ℕ) (x : ℕ)
    → Chain f a (xs ++ (x ∷ ys)) b
    → Chain f x ys b
Chain-from f a [] ys b x (e, c) = c
Chain-from f a (z ∷ xs) ys b x (e, c) = Chain-from f z xs ys b x c

-- a node linked behind the last of `xs`
pub Chain-link :
    (f g : ℕ → Run ℕ) (n a : ℕ) (xs ys : List ℕ) (b : ℕ)
    → Distinct (a ∷ (xs ++ ys))
    → (In n (a ∷ (xs ++ ys)) → ⊥)
    → Chain f a (xs ++ ys) b
    → g (last a xs) ≡ ok n
    → g n ≡ f (last a xs)
    → ((x : ℕ) → x ≢ n → x ≢ last a xs → g x ≡ f x)
    → Chain g a (xs ++ (n ∷ ys)) b
Chain-link f g n a [] ys b (alone, apart) new c to behind same = (to, behind_all ys b new alone c)
  where
    behind_all :
        (ys : List ℕ) (b : ℕ)
        → (In n (a ∷ ys) → ⊥)
        → (In a ys → ⊥)
        → Chain f a ys b
        → Chain g n ys b
    behind_all [] b new alone c = behind ∙ c
    behind_all (y ∷ ys) b new alone (e, c) = (
      behind ∙ e,
      Chain-frame f g y ys b
          (λ x m.
            same x (λ e. new (inr (subst (λ z. In z (y ∷ ys)) e m)))
              (λ e. alone (subst (λ z. In z (y ∷ ys)) e m)))
          c,
    )
Chain-link f g n a (x ∷ xs) ys b (alone, apart) new (e, c) to behind same = (
  same a (λ e. new (inl (sym e)))
        (λ e.
          alone (subst (λ z. In z ((x ∷ xs) ++ ys)) (sym e) (In-left _ (x ∷ xs) ys (In-last x xs))))
      ∙ e,
  Chain-link f g n x xs ys b apart (λ m. new (inr m)) c to behind same,
)

-- the node behind the last of `xs` taken out
pub Chain-unlink :
    (f g : ℕ → Run ℕ) (n a : ℕ) (xs ys : List ℕ) (b : ℕ)
    → Distinct (a ∷ (xs ++ (n ∷ ys)))
    → Chain f a (xs ++ (n ∷ ys)) b
    → g (last a xs) ≡ f n
    → ((x : ℕ) → x ≢ n → x ≢ last a xs → g x ≡ f x)
    → Chain g a (xs ++ ys) b
Chain-unlink f g n a [] ys b (alone, (out, apart)) (e, c) to same = joined ys b alone out c
  where
    joined :
        (ys : List ℕ) (b : ℕ)
        → (In a (n ∷ ys) → ⊥)
        → (In n ys → ⊥)
        → Chain f n ys b
        → Chain g a ys b
    joined [] b alone out c = to ∙ c
    joined (y ∷ ys) b alone out (e, c) = (
      to ∙ e,
      Chain-frame f g y ys b
          (λ x m.
            same x (λ e. out (subst (λ z. In z (y ∷ ys)) e m))
              (λ e. alone (inr (subst (λ z. In z (y ∷ ys)) e m))))
          c,
    )
Chain-unlink f g n a (x ∷ xs) ys b (alone, apart) (e, c) to same = (
  same a
        (λ e. alone (
          subst (λ z. In z ((x ∷ xs) ++ (n ∷ ys))) (sym e)
            (In-right _ (x ∷ xs) (n ∷ ys) (inl refl))))
        (λ e. alone (
          subst (λ z. In z ((x ∷ xs) ++ (n ∷ ys))) (sym e)
            (In-left _ (x ∷ xs) (n ∷ ys) (In-last x xs))))
      ∙ e,
  Chain-unlink f g n x xs ys b apart c to same,
)
