-- ===== src/SkipList/Towers.antt =====
-- The nodes of a skip list in the order of its lowest level, and when a list of them is what the heap
-- holds.
use xfire_db.Base.{
  ℕ, suc, ◌+◌, ◌≤◌, ◌<◌, ◌≡◌, refl, inl, inr, true, none, some, List, [], ◌∷◌, ◌++◌, ltb, leb,
  if◌then◌else◌, length, CString, arith, Bool-cases,
}
use xfire_db.SkipList.{Nodes, SkipList, forward, skiplist_hash_key, max_levels, max_size}
use xfire_db.SkipList.Chains.{In, Distinct, Chain}
use xfire_db.SkipList.Heap.{Holds}

-- A node in the list: its address, its key, and on how many levels it stands.
pub record Tower : Type 0 where
  pub addr : ℕ
  pub key : CString
  pub height : ℕ

abbrev pub hash : Tower → ℕ
hash t = skiplist_hash_key t.key

abbrev pub All : (Tower → Type 0) → List Tower → Type 0
All P [] = Unit {0}
All P (t ∷ ts) = P t × All P ts

-- hashes grow along the list
abbrev pub Ascending : List Tower → Type 0
Ascending [] = Unit {0}
Ascending (t ∷ ts) = All (λ u. hash t < hash u) ts × Ascending ts

-- the addresses of the nodes that stand on a level
abbrev pub tall : ℕ → List Tower → List ℕ
tall i [] = []
tall i (t ∷ ts) = if leb i t.height then t.addr ∷ tall i ts else tall i ts

abbrev pub addrs : List Tower → List ℕ
addrs [] = []
addrs (t ∷ ts) = t.addr ∷ addrs ts

-- what holds of one node of the list
abbrev pub IsTower : Nodes → ℕ → Tower → Type 0
IsTower nodes level t =
    Holds nodes t.addr (some t.key) (hash t) (t.height + 1)
    × (1 ≤ t.height)
    × (t.height ≤ level)
    × (hash t < max_size)

-- The heap holds a skip list of these nodes: on each level, the pointers lead from the header through
-- the nodes that stand on it, by growing hashes, and back.
pub record IsSkipList (l : SkipList) (ts : List Tower) : Type 0 where
  pub chains :
      (i : ℕ)
      → 1 ≤ i
      → i ≤ max_levels
      → Chain (λ a. forward l.nodes a i) l.header (tall i ts) l.header
  pub towers : All (IsTower l.nodes l.level) ts
  pub head : Holds l.nodes l.header none max_size (max_levels + 1)
  pub ascending : Ascending ts
  pub apart : Distinct (l.header ∷ addrs ts)
  pub levels : (1 ≤ l.level) × (l.level ≤ max_levels)
  pub sized : l.size ≡ length ts

pub tall-append : (i : ℕ) (xs ys : List Tower) → tall i (xs ++ ys) ≡ tall i xs ++ tall i ys
tall-append i [] ys = refl
tall-append i (x ∷ xs) ys = elim (Bool-cases (leb i x.height)) [
  | inl e ↦ rw (e, tall-append i xs ys) refl
  | inr e ↦ rw (e, tall-append i xs ys) refl
]

pub addrs-append : (xs ys : List Tower) → addrs (xs ++ ys) ≡ addrs xs ++ addrs ys
addrs-append [] ys = refl
addrs-append (x ∷ xs) ys = rw (addrs-append xs ys) refl

pub In-tall : (i a : ℕ) (ts : List Tower) → In a (tall i ts) → In a (addrs ts)
In-tall i a [] m = m
In-tall i a (t ∷ ts) m = elim (Bool-cases (leb i t.height)) [
  | inl e ↦ elim (rw e at m) as (λ s. In a (addrs (t ∷ ts))) [
    | inl same ↦ inl same
    | inr m ↦ inr (In-tall i a ts m)
  ]
  | inr e ↦ inr (In-tall i a ts (rw e at m))
]

pub In-tall_lower : (i a : ℕ) (ts : List Tower) → In a (tall (suc i) ts) → In a (tall i ts)
In-tall_lower i a [] m = m
In-tall_lower i a (t ∷ ts) m = elim (Bool-cases (leb (suc i) t.height)) [
  | inl e ↦
      let low : leb i t.height ≡ true = ground (arith, e) in
      elim (rw e at m) as (λ s. In a (tall i (t ∷ ts))) [
        | inl same ↦ rw low (inl same)
        | inr m ↦ rw low (inr (In-tall_lower i a ts m))
      ]
  | inr e ↦
      let m' = In-tall_lower i a ts (rw e at m) in
      elim (Bool-cases (leb i t.height)) [ inl low ↦ rw low (inr m') | inr low ↦ rw low m' ]
]

pub Distinct-tall : (i : ℕ) (ts : List Tower) → Distinct (addrs ts) → Distinct (tall i ts)
Distinct-tall i [] d = tt
Distinct-tall i (t ∷ ts) (out, d) = elim (Bool-cases (leb i t.height)) [
  | inl e ↦ rw e ((λ m. out (In-tall i t.addr ts m)), Distinct-tall i ts d)
  | inr e ↦ rw e (Distinct-tall i ts d)
]

pub All-append_of :
    (P : Tower → Type 0) (xs ys : List Tower) → All P (xs ++ ys) → All P xs × All P ys
All-append_of P [] ys h = (tt, h)
All-append_of P (x ∷ xs) ys (p, h) = let (hx, hy) = All-append_of P xs ys h in ((p, hx), hy)

pub All-append : (P : Tower → Type 0) (xs ys : List Tower) → All P xs → All P ys → All P (xs ++ ys)
All-append P [] ys hx hy = hy
All-append P (x ∷ xs) ys (p, hx) hy = (p, All-append P xs ys hx hy)

pub All-map :
    (P Q : Tower → Type 0) (ts : List Tower) → ((t : Tower) → P t → Q t) → All P ts → All Q ts
All-map P Q [] f h = tt
All-map P Q (t ∷ ts) f (p, h) = (f t p, All-map P Q ts f h)

-- The nodes with smaller hashes, and the others.
abbrev pub lower : ℕ → List Tower → List Tower
lower h [] = []
lower h (t ∷ ts) = if ltb (hash t) h then t ∷ lower h ts else []

abbrev pub upper : ℕ → List Tower → List Tower
upper h [] = []
upper h (t ∷ ts) = if ltb (hash t) h then upper h ts else t ∷ ts

pub lower-upper : (h : ℕ) (ts : List Tower) → lower h ts ++ upper h ts ≡ ts
lower-upper h [] = refl
lower-upper h (t ∷ ts) = elim (Bool-cases (ltb (hash t) h)) [
  | inl e ↦ rw (e, lower-upper h ts) refl
  | inr e ↦ rw e refl
]

pub lower-All : (h : ℕ) (ts : List Tower) → All (λ t. hash t < h) (lower h ts)
lower-All h [] = tt
lower-All h (t ∷ ts) = elim (Bool-cases (ltb (hash t) h)) [
  | inl e ↦ rw e (ground (arith, e), lower-All h ts)
  | inr e ↦ rw e tt
]

pub upper-All : (h : ℕ) (ts : List Tower) → Ascending ts → All (λ t. h ≤ hash t) (upper h ts)
upper-All h [] s = tt
upper-All h (t ∷ ts) (above, s) = elim (Bool-cases (ltb (hash t) h)) [
  | inl e ↦ rw e (upper-All h ts s)
  | inr e ↦ rw e (
    ground (arith, e),
    All-map (λ u. hash t < hash u) (λ u. h ≤ hash u) ts (λ u lt. ground (arith, e, lt)) above,
  )
]
