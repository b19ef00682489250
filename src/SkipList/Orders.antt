-- ===== src/SkipList/Orders.antt =====
-- A node put into a list of towers, or taken out, by distinct addresses and growing hashes.
use xfire_db.Base.{ℕ, ◌+◌, ◌<◌, ◌≡◌, sym, inl, inr, List, [], ◌∷◌, ◌++◌, length, arith}
use xfire_db.SkipList.Chains.{In, Distinct, In-append, In-left, In-right}
use xfire_db.SkipList.Towers.{Tower, hash, All, Ascending, All-append, All-append_of}

pub Distinct-insert :
    (xs ys : List ℕ) (n : ℕ)
    → Distinct (xs ++ ys)
    → (In n (xs ++ ys) → ⊥)
    → Distinct (xs ++ (n ∷ ys))
Distinct-insert [] ys n d new = (new, d)
Distinct-insert (x ∷ xs) ys n (out, d) new = (
  λ m. elim (In-append x xs (n ∷ ys) m) [
    | inl m ↦ out (In-left x xs ys m)
    | inr m ↦ elim m [ inl e ↦ new (inl (sym e)) | inr m ↦ out (In-right x xs ys m) ]
  ],
  Distinct-insert xs ys n d (λ m. new (inr m)),
)

pub Distinct-remove :
    (xs ys : List ℕ) (n : ℕ)
    → Distinct (xs ++ (n ∷ ys))
    → Distinct (xs ++ ys) × (In n (xs ++ ys) → ⊥)
Distinct-remove [] ys n (out, d) = (d, out)
Distinct-remove (x ∷ xs) ys n (out, d) =
    let (d', gone) = Distinct-remove xs ys n d in
    (
      (
        λ m. elim (In-append x xs ys m) [
          | inl m ↦ out (In-left x xs (n ∷ ys) m)
          | inr m ↦ out (In-right x xs (n ∷ ys) (inr m))
        ],
        d',
      ),
      λ m. elim m [ inl e ↦ out (In-right x xs (n ∷ ys) (inl (sym e))) | inr m ↦ gone m ],
    )

pub Ascending-append_of : (xs ys : List Tower) → Ascending (xs ++ ys) → Ascending xs × Ascending ys
Ascending-append_of [] ys s = (tt, s)
Ascending-append_of (x ∷ xs) ys (above, s) =
    let (sx, sy) = Ascending-append_of xs ys s in
    let (ax, ay) = All-append_of (λ u. hash x < hash u) xs ys above in ((ax, sx), sy)

pub Ascending-insert :
    (xs ys : List Tower) (t : Tower)
    → Ascending (xs ++ ys)
    → All (λ u. hash u < hash t) xs
    → All (λ u. hash t < hash u) ys
    → Ascending (xs ++ (t ∷ ys))
Ascending-insert [] ys t s small big = (big, s)
Ascending-insert (x ∷ xs) ys t (above, s) (lt, small) big =
    let (ax, ay) = All-append_of (λ u. hash x < hash u) xs ys above in
    (
      All-append (λ u. hash x < hash u) xs (t ∷ ys) ax (lt, ay),
      Ascending-insert xs ys t s small big,
    )

pub Ascending-remove :
    (xs ys : List Tower) (t : Tower) → Ascending (xs ++ (t ∷ ys)) → Ascending (xs ++ ys)
Ascending-remove [] ys t (above, s) = s
Ascending-remove (x ∷ xs) ys t (above, s) =
    let (ax, (lt, ay)) = All-append_of (λ u. hash x < hash u) xs (t ∷ ys) above in
    (All-append (λ u. hash x < hash u) xs ys ax ay, Ascending-remove xs ys t s)

pub length-insert :
    (xs ys : List Tower) (t : Tower) → length (xs ++ (t ∷ ys)) ≡ length (xs ++ ys) + 1
length-insert [] ys t = omega arith
length-insert (x ∷ xs) ys t = omega (arith, length-insert xs ys t)
