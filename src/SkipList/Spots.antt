-- ===== src/SkipList/Spots.antt =====
-- Where a key stands among the nodes of a skip list, or where it would.
use xfire_db.Base.{
  ℕ, ◌<◌, ◌≡◌, ◌≢◌, refl, ap, inl, inr, true, false, Option, none, some, List, [], ◌∷◌, ◌++◌, ◌==◌,
  ==_iff, ltb, if◌then◌else◌, CString, str_eq, str_eq_iff, arith, Bool-cases,
}
use xfire_db.SkipList.{skiplist_hash_key, max_size}
use xfire_db.SkipList.Towers.{Tower, hash, All, Ascending, lower, upper, All-map}

-- the address of the node with a key
abbrev pub locate : CString → List Tower → Option ℕ
locate key [] = none
locate key (t ∷ ts) = if str_eq t.key key then some t.addr else locate key ts

-- the nodes without the one with a key
abbrev pub remove : CString → List Tower → List Tower
remove key [] = []
remove key (t ∷ ts) = if str_eq t.key key then ts else t ∷ remove key ts

pub remove-none : (key : CString) (ts : List Tower) → locate key ts ≡ none → remove key ts ≡ ts
remove-none key [] e = refl
remove-none key (t ∷ ts) e = elim (Bool-cases (str_eq t.key key)) [
  | inl same ↦ absurd (some_not_none (rw same at (e)))
  | inr other ↦ rw (other, remove-none key ts (rw other at (e))) refl
]
  where
    some_not_none : {a : ℕ} → some a ≡ none → ⊥
    some_not_none e = ground (arith, e)

-- The key's hash is not that of the header, and no other key in the list has it.
pub record Fits (key : CString) (ts : List Tower) : Type 0 where
  pub below : skiplist_hash_key key < max_size
  pub alone : All (λ t. hash t ≡ skiplist_hash_key key → t.key ≡ key) ts

-- The key is not in the list, or it is the first node that has no smaller hash.
pub data Spot (key : CString) (ts : List Tower) : Type 0 where
  absent :
      locate key ts ≡ none
      → All (λ t. skiplist_hash_key key < hash t) (upper (skiplist_hash_key key) ts)
      → Spot key ts
  present :
      (t : Tower) (rest : List Tower)
      → upper (skiplist_hash_key key) ts ≡ t ∷ rest
      → t.key ≡ key
      → locate key ts ≡ some t.addr
      → All (λ u. skiplist_hash_key key < hash u) rest
      → remove key ts ≡ lower (skiplist_hash_key key) ts ++ rest
      → Spot key ts

other_key : (key : CString) (t : Tower) → hash t ≢ skiplist_hash_key key → str_eq t.key key ≡ false
other_key key t ne = elim (Bool-cases (str_eq t.key key)) [
  | inl e ↦ absurd (ne (ap skiplist_hash_key ((str_eq_iff t.key key).0 e)))
  | inr e ↦ e
]

pub locate-none :
    (key : CString) (ts : List Tower)
    → All (λ t. hash t ≢ skiplist_hash_key key) ts
    → locate key ts ≡ none
locate-none key [] h = refl
locate-none key (t ∷ ts) (ne, h) = rw (other_key key t ne, locate-none key ts h) refl

pub spot : (key : CString) (ts : List Tower) → Ascending ts → Fits key ts → Spot key ts
spot key [] s f = absent refl tt
spot key (t ∷ ts) (above, s) f = elim (Bool-cases (ltb (hash t) (skiplist_hash_key key))) [
  | inl e ↦ later e (spot key ts s (record { below = f.below; alone = f.alone.1 }))
  | inr e ↦ elim (Bool-cases (hash t == skiplist_hash_key key)) [
    | inl same ↦
        let h : hash t ≡ skiplist_hash_key key = (==_iff (hash t) (skiplist_hash_key key)).0 same in
        let k = f.alone.0 h in
        present t ts (rw e refl) k (rw ((str_eq_iff t.key key).1 k) refl)
          (All-map (λ u. hash t < hash u) (λ u. skiplist_hash_key key < hash u) ts
            (λ u lt. omega (arith, lt, h)) above)
          (rw (e, (str_eq_iff t.key key).1 k) refl)
    | inr other ↦
        let lt : skiplist_hash_key key < hash t = ground (arith, e, other) in
        let beyond =
          All-map (λ u. hash t < hash u) (λ u. skiplist_hash_key key < hash u) ts
            (λ u m. omega (arith, lt, m)) above in
        absent
          (locate-none key (t ∷ ts) (
            (λ same. omega (arith, lt, same)),
            All-map (λ u. skiplist_hash_key key < hash u) (λ u. hash u ≢ skiplist_hash_key key) ts
                (λ u m same. omega (arith, m, same)) beyond,
          ))
          (rw e (lt, beyond))
  ]
]
  where
    later : ltb (hash t) (skiplist_hash_key key) ≡ true → Spot key ts → Spot key (t ∷ ts)
    later e (absent gone beyond) =
        absent (rw (other_key key t (λ same. ground (arith, e, same))) gone) (rw e beyond)
    later e (present u rest up k here beyond without) =
        present u rest (rw e up) k (rw (other_key key t (λ same. ground (arith, e, same))) here)
          beyond
          (rw (e, other_key key t (λ same. ground (arith, e, same))) (ap (λ ts. t ∷ ts) without))
