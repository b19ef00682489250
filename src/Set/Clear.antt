-- ===== src/Set/Clear.antt =====
-- `set_clear` of libxfiredbengine/storage/set.c.
use mathlib.Core.Path.{subst}
use xfire_db.Base.{
  ℕ, zero, suc, ◌<◌, ◌≡◌, refl, sym, ◌∙◌, ◌⊎◌, inl, inr, false, Option, none, some, List, [], ◌∷◌,
  ◌==◌, ==_iff, length, ok, arith, Bool-cases, Returns,
}
use xfire_db.SkipList.{SkipList}
use xfire_db.SkipList.Chains.{In}
use xfire_db.SkipList.Frames.{IsSkipList-frame}
use xfire_db.SkipList.Iterator.{
  SkiplistIterator, skiplist_iterator_new, skiplist_iterator_next, skiplist_iterator_delete,
  next-end, next-node, to-first, delete-first,
}
use xfire_db.SkipList.Towers.{Tower, addrs, IsSkipList}
use xfire_db.Set.{Set, name_of, free_key, clear_keys, set_clear}

end_step :
    (rounds fuel : ℕ) (s : Set) (it it' : SkiplistIterator)
    → skiplist_iterator_next s.list it ≡ ok (none, it')
    → clear_keys (suc rounds) fuel s it ≡ ok s
unfolding clear_keys
end_step rounds fuel s it it' e = rw (clear_keys, e) refl

round_step :
    (rounds fuel k : ℕ) (s : Set) (it it' it2 : SkiplistIterator) (current : Option ℕ)
    (list : SkipList)
    → skiplist_iterator_next s.list it ≡ ok (some k, it')
    → skiplist_iterator_delete fuel s.list it' ≡ ok (current, list, it2)
    → clear_keys (suc rounds) fuel s it
      ≡ clear_keys rounds fuel (free_key (record s { list = list }) k) it2
unfolding clear_keys
round_step rounds fuel k s it it' it2 current list e e' = rw (clear_keys, e, e') refl

-- the memory of a key that is not in the list any more
free-IsSkipList :
    (s : Set) (list : SkipList) (k : ℕ) (ts : List Tower)
    → IsSkipList list ts
    → (In k (list.header ∷ addrs ts) → ⊥)
    → IsSkipList ((free_key (record s { list = list }) k).list) ts
unfolding free_key
free-IsSkipList s list k ts held out =
    IsSkipList-frame list.nodes _ list.level list.size list.header ts
      (λ a m. let off : (k == a) ≡ false = other a m in rw off refl) held
  where
    other : (a : ℕ) → In a (list.header ∷ addrs ts) → (k == a) ≡ false
    other a m = elim (Bool-cases (k == a)) [
      | inl e ↦ absurd (out (subst (λ b. In b (list.header ∷ addrs ts)) (sym ((==_iff k a).0 e)) m))
      | inr e ↦ e
    ]

free-same :
    (s : Set) (k : ℕ) → ((free_key s k).list.header ≡ s.list.header) × ((free_key s k).num ≡ s.num)
unfolding free_key
free-same s k = (refl, refl)

free-names : (s : Set) (k a : ℕ) → (a ≡ k) ⊎ (s.names a ≡ none) → (free_key s k).names a ≡ none
unfolding free_key name_of
free-names s k a gone = elim (Bool-cases (k == a)) [
  | inl e ↦ rw (free_key, name_of, e) refl
  | inr e ↦
      rw (free_key, name_of, e)
        (elim gone [ inl same ↦ absurd (ground (arith, same, e)) | inr h ↦ h ])
]

clear_keys-empty :
    (ts : List Tower) (rounds fuel header : ℕ) (s : Set) (p : Option ℕ)
    → header ≡ s.list.header
    → IsSkipList s.list ts
    → length ts < rounds
    → length ts < fuel
    → Returns (clear_keys rounds fuel s (record { current = some header; prev = p })) λ s'.
      IsSkipList s'.list []
      × (s'.num ≡ s.num)
      × ((a : ℕ) → In a (addrs ts) ⊎ (s.names a ≡ none) → s'.names a ≡ none)
clear_keys-empty ts zero fuel header s p same held enough enough' = absurd (omega (arith, enough))
clear_keys-empty [] (suc rounds) fuel header s p same held enough enough' = (
  s,
  rw same (
      end_step rounds fuel s _ _
        (next-end s.list s.list.header p (held.chains 1 (omega arith) (omega arith)))),
  (held, refl, (λ a gone. elim gone [ inl m ↦ absurd m | inr h ↦ h ])),
)
clear_keys-empty (t ∷ ts) (suc rounds) fuel header s p same held enough enough' =
    let to =
      next-node s.list s.list.header t.addr p (to-first s.list t ts held)
        (λ e. held.apart.0 (inl (sym e))) in
    let (list, run, kept, held') =
      delete-first s.list t ts held fuel (some s.list.header) enough' in
    let s1 = free_key (record s { list = list }) t.addr in
    let out : In t.addr (list.header ∷ addrs ts) → ⊥ =
      λ m. elim m [ inl e ↦ held.apart.0 (inl (sym (e ∙ kept))) | inr m ↦ held.apart.1.0 m ] in
    let (s', run', (done, counted, freed)) =
      clear_keys-empty ts rounds fuel s.list.header s1 (some s.list.header)
        (sym ((free-same (record s { list = list }) t.addr).0 ∙ kept))
        (free-IsSkipList s list t.addr ts held' out) (omega (arith, enough))
        (omega (arith, enough')) in
    (
      s',
      rw same (round_step rounds fuel t.addr s _ _ _ _ list to run ∙ run'),
      (
        done,
        counted ∙ (free-same (record s { list = list }) t.addr).1,
        (λ a gone. freed a (elim gone [
          | inl m ↦ elim m [ inl e ↦ inr (free-names _ t.addr a (inl e)) | inr m ↦ inl m ]
          | inr h ↦ inr (free-names _ t.addr a (inr h))
        ])),
      ),
    )

-- `set_clear` of a set, with more rounds and more fuel than keys, ends with an empty list and
-- frees the copy of every key. It leaves `num` as it is, so `set_size` still counts the keys that
-- are gone.
pub set_clear-empty :
    (s : Set) (ts : List Tower) (rounds fuel : ℕ)
    → IsSkipList s.list ts
    → length ts < rounds
    → length ts < fuel
    → Returns (set_clear rounds fuel s) λ s'.
      IsSkipList s'.list [] × (s'.num ≡ s.num) × ((a : ℕ) → In a (addrs ts) → s'.names a ≡ none)
unfolding set_clear skiplist_iterator_new
set_clear-empty s ts rounds fuel held enough enough' =
    let (s', run, (done, counted, freed)) =
      clear_keys-empty ts rounds fuel s.list.header s (some s.list.header) refl held enough
        enough' in
    (s', run, (done, counted, (λ a m. freed a (inl m))))
