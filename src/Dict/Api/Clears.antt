-- ===== src/Dict/Api/Clears.antt =====
-- `dict_init`, `dict_clear` and `dict_get_size`.
use xfire_db.Base.{
  ℕ, zero, suc, ◌+◌, ◌-◌, ◌≤◌, ◌<◌, ◌≡◌, refl, sym, ap, ◌∙◌, inl, inr, false, none, List, [], ◌∷◌,
  ◌++◌, arith, ltb, length, get_or, at-get_or, length-append, CString, Returns, ok, Bool-cases,
}
use xfire_db.Dict.{Chain, DictMap, Dict, minus_one, reset}
use xfire_db.Dict.Api.{init, get_size, free_chain, clear_loop, clear_map, clear}
use xfire_db.Dict.Expand.{new_map}
use xfire_db.Dict.Expand.Laws.{new_map-IsTable, read-new_map}
use xfire_db.Dict.Rehash.Finish.{read-reset}
use xfire_db.Dict.Table.{total, IsTable}
use xfire_db.Dict.Valid.{IsIdle, IsValid, IsSmall, view}

-- and its maps are small
pub init-IsSmall : IsSmall init
unfolding init new_map
init-IsSmall = (omega arith, omega arith)

-- `dict_init` makes a valid dictionary in which no key leads to an entry.
pub init-IsValid : IsValid init × ((q : CString) → view init q ≡ none) × (get_size init ≡ 0)
unfolding init view get_size new_map
init-IsValid = (
  inl (record {
    off = refl;
    cleared = refl;
    primary = inr (new_map-IsTable 4 (omega arith) (omega arith));
  }),
  λ q. ground (arith, read-new_map 4 q, read-reset q),
  refl,
)

-- all entries of an array of buckets, bucket by bucket
abbrev pub entries : List Chain → Chain
entries [] = []
entries (c ∷ cs) = c ++ entries cs

length-entries : (cs : List Chain) → length (entries cs) ≡ total cs
length-entries [] = refl
length-entries (c ∷ cs) = omega (arith, length-append c (entries cs), length-entries cs)

free_chain-length : (c : Chain) (left : ℕ) → free_chain c left ≡ left - length c
unfolding free_chain
free_chain-length [] left = omega arith
free_chain-length (e ∷ c) left = omega (arith, free_chain-length c (left - 1))

abbrev drop : ℕ → List Chain → List Chain
drop zero cs = cs
drop (suc i) [] = []
drop (suc i) (c ∷ cs) = drop i cs

drop-cons : (cs : List Chain) (i : ℕ) → i < length cs → drop i cs ≡ get_or cs i [] ∷ drop (i + 1) cs
drop-cons [] i h = absurd (omega arith)
drop-cons (c ∷ cs) zero h = refl
drop-cons (c ∷ cs) (suc i) h =
    let step : suc i + 1 ≡ suc (i + 1) = omega arith in rw step (drop-cons cs i (omega arith))

drop_all : (cs : List Chain) (i : ℕ) → length cs ≤ i → drop i cs ≡ []
drop_all [] zero h = refl
drop_all [] (suc i) h = refl
drop_all (c ∷ cs) zero h = absurd (omega arith)
drop_all (c ∷ cs) (suc i) h = drop_all cs i (omega arith)

entries_none : (cs : List Chain) → total cs ≡ 0 → entries cs ≡ []
entries_none [] h = refl
entries_none ([] ∷ cs) h = entries_none cs (omega arith)
entries_none ((e ∷ c) ∷ cs) h = absurd (omega arith)

-- the loop frees what stands in the buckets from `i` on, and stops early once all is freed
clear_loop-entries :
    (rounds i : ℕ) (cs : List Chain) (left : ℕ)
    → i + rounds ≡ length cs
    → left ≡ total (drop i cs)
    → clear_loop rounds i cs left ≡ ok (entries (drop i cs))
unfolding clear_loop
clear_loop-entries zero i cs left e count = rw (drop_all cs i (omega arith)) refl
clear_loop-entries (suc rounds) i cs left e count = elim (Bool-cases (ltb 0 left)) [
  | inl more ↦
      let split = drop-cons cs i (omega arith) in
      let left' : free_chain (get_or cs i []) left ≡ total (drop (i + 1) cs) =
        free_chain-length (get_or cs i []) left ∙ after split in
      let rest =
        clear_loop-entries rounds (i + 1) cs (free_chain (get_or cs i []) left) (omega arith)
          left' in
      rw (more, clear_loop, at-get_or cs i [] (omega arith), rest, split) refl
  | inr done ↦ rw (done, clear_loop) (rw (entries_none (drop i cs) (ground arith)) refl)
]
  where
    after :
        drop i cs ≡ get_or cs i [] ∷ drop (i + 1) cs
        → left - length (get_or cs i []) ≡ total (drop (i + 1) cs)
    after split = omega (arith, ap total split)

clear_map-entries : (map : DictMap) → IsTable map → clear_map map ≡ ok (entries map.array, reset)
unfolding clear_map
clear_map-entries map t =
    rw (clear_loop-entries map.size 0 map.array map.length (omega (arith, t.sized)) (sym t.counted))

clear_map-reset : clear_map reset ≡ ok ([], reset)
unfolding clear_map clear_loop
clear_map-reset = refl

-- In a valid dictionary `dict_clear` does not fault. It frees the entries of both maps, each once,
-- and leaves a valid dictionary with no entry and no rehashing.
pub clear-entries :
    (d : Dict)
    → IsValid d
    → Returns (clear d) λ (freed, e).
      (freed ≡ entries d.primary.array ++ entries d.rehash.array)
      × IsIdle e
      × ((q : CString) → view e q ≡ none)
      × (get_size e ≡ 0)
      × (e.iterators ≡ d.iterators)
      × IsSmall e
unfolding clear
clear-entries d v =
    let (p, q) = cleared d v in
    (
      (_, record d { primary = reset; rehash = reset; rehashidx = minus_one; rehashing = false }),
      rw (p, q),
      (
        refl,
        record { off = refl; cleared = refl; primary = inl refl },
        λ k. unfold view in rw (read-reset k),
        unfold get_size in omega arith,
        refl,
        (omega arith, omega arith),
      ),
    )
  where
    cleared :
        (d : Dict)
        → IsValid d
        → (clear_map d.primary ≡ ok (entries d.primary.array, reset))
          × (clear_map d.rehash ≡ ok (entries d.rehash.array, reset))
    cleared d (inr w) = (clear_map-entries d.primary w.primary, clear_map-entries d.rehash w.rehash)
    cleared d (inl w) = elim w.primary [
      | inr t ↦ (clear_map-entries d.primary t, rw w.cleared clear_map-reset)
      | inl e ↦ (rw e clear_map-reset, rw w.cleared clear_map-reset)
    ]
