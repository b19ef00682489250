-- ===== src/Dict/Chain/Laws.antt =====
-- How the loops along a chain of storage/dict.c change what a key finds, and how often it occurs.
use mathlib.Core.Option
use xfire_db.Base.{
  ℕ, ◌+◌, ◌≤◌, ◌≡◌, refl, Bool, true, false, none, some, [], ◌∷◌, arith, if◌then◌else◌, length,
  CString, str_eq, str_eq_iff,
}
use xfire_db.Dict.{DictEntry, Chain}
use xfire_db.Dict.Chain.{find, unlink, modify}

abbrev pub to_nat : Bool → ℕ
to_nat true = 1
to_nat false = 0

-- how many entries have the key
unfoldable pub occurs : CString → Chain → ℕ
occurs q [] = 0
occurs q (e ∷ c) = to_nat (str_eq q e.key) + occurs q c

-- a write that leaves the key alone
abbrev pub KeepsKey : (DictEntry → DictEntry) → Type 0
KeepsKey f = (e : DictEntry) → (f e).key ≡ e.key

pub find-eq-none : (q : CString) (c : Chain) → occurs q c ≡ 0 → find q c ≡ none
unfolding occurs find
find-eq-none q [] h = refl
find-eq-none q (e ∷ c) h = ground (arith, find-eq-none q c)

pub occurs-eq-zero : (q : CString) (c : Chain) → find q c ≡ none → occurs q c ≡ 0
unfolding occurs find
occurs-eq-zero q [] h = refl
occurs-eq-zero q (e ∷ c) h = ground (arith, occurs-eq-zero q c)

-- an entry that is found has the key
pub key-find : (q : CString) (c : Chain) (e : DictEntry) → find q c ≡ some e → e.key ≡ q
unfolding find
key-find q [] e h = cc
key-find q (d ∷ c) e h = ground (arith, str_eq_iff q d.key, key-find q c e)

module _ (k q : CString) where
  pub find-unlink :
      (c : Chain) → occurs k c ≤ 1 → find q (unlink k c) ≡ (if str_eq k q then none else find q c)
  unfolding find unlink occurs
  find-unlink [] h = ground arith
  find-unlink (e ∷ c) h = ground (
    arith,
    find-unlink c,
    find-eq-none q c,
    str_eq_iff k q,
    str_eq_iff q e.key,
    str_eq_iff k e.key,
  )

  pub occurs-unlink-le : (c : Chain) → occurs q (unlink k c) ≤ occurs q c
  unfolding unlink occurs
  occurs-unlink-le [] = omega arith
  occurs-unlink-le (e ∷ c) = ground (arith, occurs-unlink-le c)

  module _ (f : DictEntry → DictEntry) (keeps : KeepsKey f) where
    pub find-modify :
        (c : Chain)
        → find q (modify k f c) ≡ (if str_eq k q then Option.map f (find q c) else find q c)
    unfolding find modify
    find-modify [] = ground arith
    find-modify (e ∷ c) =
        ground
          (arith, find-modify c, keeps e, str_eq_iff k q, str_eq_iff q e.key, str_eq_iff k e.key)

    pub occurs-modify : (c : Chain) → occurs q (modify k f c) ≡ occurs q c
    unfolding modify occurs
    occurs-modify [] = refl
    occurs-modify (e ∷ c) = ground (arith, occurs-modify c, keeps e)

pub length-unlink :
    (k : CString) (c : Chain) (e : DictEntry)
    → find k c ≡ some e
    → length (unlink k c) + 1 ≡ length c
unfolding find unlink
length-unlink k [] e h = cc
length-unlink k (d ∷ c) e h = ground (arith, length-unlink k c e)

pub length-modify :
    (k : CString) (f : DictEntry → DictEntry) (c : Chain) → length (modify k f c) ≡ length c
unfolding modify
length-modify k f [] = refl
length-modify k f (e ∷ c) = ground (arith, length-modify k f c)

-- a chain is empty when no key occurs in it
pub eq-nil : (c : Chain) → ((q : CString) → occurs q c ≡ 0) → c ≡ []
unfolding occurs
eq-nil [] h = refl
eq-nil (e ∷ c) h = ground (arith, h e.key, str_eq_iff e.key e.key)
