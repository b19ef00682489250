-- ===== src/SkipList/Keys.antt =====
-- The nodes of a skip list as a map from keys to nodes, with a node added or removed, and the
-- empty list.
use xfire_db.Base.{
  ℕ, zero, suc, ◌+◌, ◌≤◌, ◌<◌, ◌≡◌, ◌≢◌, refl, sym, ◌∙◌, ap, inl, inr, false, Option, none, some,
  List, [], ◌∷◌, ◌++◌, length, replicate, at, CString, str_eq, str_eq_iff, ok, arith, Bool-cases,
  Option-cases,
}
use xfire_db.SkipList.{
  Nodes, forward, write, Node, skiplist_init, skiplist_hash_key, max_levels, max_size,
}
use xfire_db.SkipList.Heap.{shape, forward_of, write_self}
use xfire_db.SkipList.Inserts.{add}
use xfire_db.SkipList.Orders.{length-insert}
use xfire_db.SkipList.Spots.{locate, locate-none, remove}
use xfire_db.SkipList.Towers.{
  Tower, hash, All, Ascending, IsSkipList, lower, upper, lower-upper, lower-All, All-map,
  All-append, All-append_of,
}

at-replicate : (n i v : ℕ) → i < n → at (replicate n v) i ≡ ok v
at-replicate zero i v lt = absurd (omega (arith, lt))
at-replicate (suc n) zero v lt = refl
at-replicate (suc n) (suc i) v lt = at-replicate n i v (omega (arith, lt))

-- A list that `raw_skiplist_init` has initialised is a skip list without nodes.
pub skiplist_init-IsSkipList :
    (header : ℕ) (nodes : Nodes) → IsSkipList (skiplist_init header nodes) []
unfolding skiplist_init shape
skiplist_init-IsSkipList header nodes = record {
  chains = λ i low high. round i high;
  towers = tt;
  head = rw (write_self nodes header head') refl;
  ascending = tt;
  apart = ((λ m. m), tt);
  levels = (omega arith, omega arith);
  sized = refl;
}
  where
    head' : Node
    head' = record { key = none; hash = max_size; forward = replicate (max_levels + 1) header }

    round : (i : ℕ) → i ≤ max_levels → forward (write nodes header head') header i ≡ ok header
    round i high =
        forward_of (write nodes header head') header i (some head') (write_self nodes header head')
        ∙ at-replicate (max_levels + 1) i header (omega (arith, high))

str_ne : (x y : CString) → x ≢ y → str_eq x y ≡ false
str_ne x y ne = elim (Bool-cases (str_eq x y)) [
  | inl e ↦ absurd (ne ((str_eq_iff x y).0 e))
  | inr e ↦ e
]

locate-append :
    (k : CString) (xs ys : List Tower)
    → locate k (xs ++ ys) ≡ (elim (locate k xs) [ some a ↦ some a | none ↦ locate k ys ])
locate-append k [] ys = refl
locate-append k (x ∷ xs) ys = elim (Bool-cases (str_eq x.key k)) [
  | inl e ↦ rw e refl
  | inr e ↦ rw (e, locate-append k xs ys) refl
]

locate-skip :
    (k : CString) (xs ys : List Tower) (t : Tower)
    → str_eq t.key k ≡ false
    → locate k (xs ++ (t ∷ ys)) ≡ locate k (xs ++ ys)
locate-skip k [] ys t other = rw other refl
locate-skip k (x ∷ xs) ys t other = elim (Bool-cases (str_eq x.key k)) [
  | inl e ↦ rw e refl
  | inr e ↦ rw e (locate-skip k xs ys t other)
]

locate-lower :
    (key : CString) (ts : List Tower) → locate key (lower (skiplist_hash_key key) ts) ≡ none
locate-lower key ts = locate-none key (lower (skiplist_hash_key key) ts) (
    All-map (λ t. hash t < skiplist_hash_key key) (λ t. hash t ≢ skiplist_hash_key key)
      (lower (skiplist_hash_key key) ts) (λ t lt e. omega (arith, lt, e))
      (lower-All (skiplist_hash_key key) ts))

-- the node of a key that is inserted: the old one, if the key is there
abbrev pub settled : Option ℕ → ℕ → ℕ
settled none node = node
settled (some a) node = a

pub locate-add_self :
    (key : CString) (node level : ℕ) (ts : List Tower)
    → locate key (add key node level ts) ≡ some (settled (locate key ts) node)
locate-add_self key node level ts = elim (Option-cases (locate key ts)) [
  | inl e ↦
      rw (add, e)
        (locate-append key (lower (skiplist_hash_key key) ts) _
          ∙ rw (locate-lower key ts, (str_eq_iff key key).1 refl) refl)
  | inr (a, e) ↦ rw (add, e) e
]

pub locate-add_other :
    (k key : CString) (node level : ℕ) (ts : List Tower)
    → k ≢ key
    → locate k (add key node level ts) ≡ locate k ts
locate-add_other k key node level ts ne = elim (Option-cases (locate key ts)) [
  | inl e ↦
      rw (add, e)
        (locate-skip k (lower (skiplist_hash_key key) ts) (upper (skiplist_hash_key key) ts) _
            (str_ne key k (λ p. ne (sym p)))
          ∙ ap (locate k) (lower-upper (skiplist_hash_key key) ts))
  | inr (a, e) ↦ rw (add, e) refl
]

pub locate-remove_other :
    (k key : CString) (ts : List Tower) → k ≢ key → locate k (remove key ts) ≡ locate k ts
locate-remove_other k key [] ne = refl
locate-remove_other k key (t ∷ ts) ne = elim (Bool-cases (str_eq t.key key)) [
  | inl e ↦ rw (e, str_ne t.key k (λ p. ne (sym p ∙ (str_eq_iff t.key key).0 e))) refl
  | inr e ↦ elim (Bool-cases (str_eq t.key k)) [
    | inl e' ↦ rw (e, e') refl
    | inr e' ↦ rw (e, e', locate-remove_other k key ts ne) refl
  ]
]

pub locate-remove_self :
    (key : CString) (ts : List Tower) → Ascending ts → locate key (remove key ts) ≡ none
locate-remove_self key [] s = refl
locate-remove_self key (t ∷ ts) (above, s) = elim (Bool-cases (str_eq t.key key)) [
  | inl e ↦
      let same = ap skiplist_hash_key ((str_eq_iff t.key key).0 e) in
      rw e (
        locate-none key ts (
          All-map (λ u. hash t < hash u) (λ u. hash u ≢ skiplist_hash_key key) ts
            (λ u lt p. omega (arith, lt, p, same)) above))
  | inr e ↦ rw (e, e) (locate-remove_self key ts s)
]

pub length-add_new :
    (key : CString) (node level : ℕ) (ts : List Tower)
    → locate key ts ≡ none
    → length (add key node level ts) ≡ length ts + 1
length-add_new key node level ts e =
    rw (add, e)
      (length-insert (lower (skiplist_hash_key key) ts) (upper (skiplist_hash_key key) ts) _
        ∙ ap (λ us. length us + 1) (lower-upper (skiplist_hash_key key) ts))

pub length-remove_found :
    (key : CString) (a : ℕ) (ts : List Tower)
    → locate key ts ≡ some a
    → length (remove key ts) + 1 ≡ length ts
length-remove_found key a [] e = absurd (ground (arith, e))
length-remove_found key a (t ∷ ts) e = elim (Bool-cases (str_eq t.key key)) [
  | inl on ↦ rw on (omega arith)
  | inr off ↦ rw off (omega (arith, length-remove_found key a ts (rw off at (e))))
]

pub All-remove :
    (P : Tower → Type 0) (key : CString) (ts : List Tower) → All P ts → All P (remove key ts)
All-remove P key [] h = tt
All-remove P key (t ∷ ts) (p, h) = elim (Bool-cases (str_eq t.key key)) [
  | inl e ↦ rw e h
  | inr e ↦ rw e (p, All-remove P key ts h)
]

pub All-add :
    (P : Tower → Type 0) (key : CString) (node level : ℕ) (ts : List Tower)
    → All P ts
    → P (record { addr = node; key = key; height = level })
    → All P (add key node level ts)
All-add P key node level ts h p = elim (Option-cases (locate key ts)) [
  | inl e ↦
      let (hx, hy) =
        All-append_of P (lower (skiplist_hash_key key) ts) (upper (skiplist_hash_key key) ts)
          (rw (lower-upper (skiplist_hash_key key) ts) h) in
      rw (add, e) (All-append P (lower (skiplist_hash_key key) ts) _ hx (p, hy))
  | inr (a, e) ↦ rw (add, e) h
]
