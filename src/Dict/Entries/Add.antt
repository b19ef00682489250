-- ===== src/Dict/Entries/Add.antt =====
-- `__dict_add` inserts a key that reads nothing, and refuses any other.
use xfire_db.Base.{
  ◌^◌, ◌<◌, ◌≡◌, refl, sym, ◌∙◌, inl, inr, true, false, Option, none, some, [], arith, at-get_or,
  CString, str_eq_iff, Returns, ok, Option-cases,
}
use xfire_db.Base.{zero, suc, ◌≤◌, if◌then◌else◌}
use xfire_db.Base.Int.{ℤ, pos, negsuc, int_of, int_of-lt}
use xfire_db.Dict.{DictType, DictEntry, DictMap, Dict, Config, Ref}
use xfire_db.Dict.Api.{get_size}
use xfire_db.Dict.Entries.{
  choose_index, calc_index, insert_entry, insert_at, is_error, add_locked, add_entry,
}
use xfire_db.Dict.Entries.Updates.{
  Update, Same-Update, primary-Update, rehash-Update, ref, RefTo, prepare-Same, search_map-read,
}
use xfire_db.Dict.Expand.Laws.{expand_if-Ready}
use xfire_db.Dict.Rehash.{slot}
use xfire_db.Dict.Rehash.Finish.{read-reset}
use xfire_db.Dict.Table.{IsTable, read, slot-lt}
use xfire_db.Dict.Table.Entries.{consed, consed-IsTable, read-consed}
use xfire_db.Dict.Valid.{IsIdle, IsRehashing, IsValid, IsSmall, Same, Same-trans, view}

-- a cleared entry with its key
abbrev pub blank : CString → DictEntry
blank key = record { key = key; value = 0; length = 0; type = DictType.dict_ptr }

-- what an insertion of an absent key comes to
abbrev pub Inserted : CString → Dict → Option Ref × Dict → Type 0
Inserted k d (none, e) = ⊥
Inserted k d (some r, e) = Update k (some (blank k)) d e × RefTo e k (blank k) r

insert_entry-consed :
    {map : DictMap} (t : IsTable map) (k : CString) (h : read map k ≡ none)
    → insert_entry map (slot map k) k ≡ ok (consed t (blank k) h)
unfolding insert_entry
insert_entry-consed {map} t k h = rw (at-get_or map.array (slot map k) [] (slot-lt t k))

insert_at-idle :
    (d : Dict) (k : CString)
    → IsIdle d
    → IsTable d.primary
    → read d.primary k ≡ none
    → Returns (insert_at d (pos (slot d.primary k)) k) (Inserted k d)
unfolding insert_at
insert_at-idle d k v t h =
    let t' = consed-IsTable t (blank k) h in
    let reads = read-consed t (blank k) h in
    let e = record d { primary = consed t (blank k) h } in
    let u =
      primary-Update d k (some (blank k)) _ t' (inl v) t (ground (arith, v.cleared, read-reset k))
        reads (ground (arith, h)) (λ i x y on. cc) refl in
    (
      (some (ref false (slot d.primary k) k), e),
      ground (arith, v.off, insert_entry-consed t k h),
      (u, inl (unfold slot in refl, t', rw (reads k) (ground (arith, str_eq_iff k k)))),
    )

insert_at-rehashing :
    (d : Dict) (k : CString)
    → IsRehashing d
    → read d.primary k ≡ none
    → read d.rehash k ≡ none
    → Returns (insert_at d (pos (slot d.rehash k)) k) (Inserted k d)
unfolding insert_at
insert_at-rehashing d k v h h' =
    let t = v.rehash in
    let t' = consed-IsTable t (blank k) h' in
    let reads = read-consed t (blank k) h' in
    let e = record d { rehash = consed t (blank k) h' } in
    let u = rehash-Update d k (some (blank k)) _ t' v h reads (ground (arith, h')) refl in
    let still : IsRehashing e = record {
      on = v.on;
      primary = v.primary;
      rehash = t';
      apart = λ q. rw (reads q) (ground (arith, v.apart q, str_eq_iff k q));
      swept = v.swept;
    } in
    (
      (some (ref true (slot d.rehash k) k), e),
      ground (arith, v.on, insert_entry-consed t k h'),
      (u, inr (unfold slot in refl, still, rw (reads k) (ground (arith, str_eq_iff k k)))),
    )

-- The bucket is chosen in the map that takes new keys, and only for a key that reads nothing.
abbrev Chosen : Dict → CString → ℤ → Type 0
Chosen d k (pos i) = (view d k ≡ none) × Returns (insert_at d (pos i) k) (Inserted k d)
Chosen d k (negsuc zero) = (e : DictEntry) × (view d k ≡ some e)
Chosen d k (negsuc (suc i)) = ⊥

-- the number of a bucket of a small table is its own `int`
int_of-slot :
    {map : DictMap} (k : CString)
    → IsTable map
    → map.size ≤ 2 ^ 31
    → int_of (slot map k) ≡ pos (slot map k)
int_of-slot {map} k t small = int_of-lt (slot map k) (omega (arith, slot-lt t k, t.sized))

choose_index-Chosen :
    (d : Dict) (k : CString)
    → IsValid d
    → IsSmall d
    → IsTable d.primary
    → Returns (choose_index d k) (Chosen d k)
unfolding choose_index view
choose_index-Chosen d k v (small, small') t = elim (Option-cases (read d.primary k)) [
  | inr (x, h) ↦ (negsuc 0, ground (arith, search_map-read t k, h), (x, ground (arith, h)))
  | inl h ↦ elim v [
    | inl w ↦ (
      pos (slot d.primary k),
      ground (arith, search_map-read t k, h, w.off, int_of-slot k t small),
      (ground (arith, h, w.cleared, read-reset k), insert_at-idle d k w t h),
    )
    | inr w ↦ elim (Option-cases (read d.rehash k)) [
      | inr (x, h') ↦ (
        negsuc 0,
        ground (arith, search_map-read t k, h, w.on, search_map-read w.rehash k, h'),
        (x, ground (arith, h, h')),
      )
      | inl h' ↦ (
        pos (slot d.rehash k),
        ground (
          arith,
          search_map-read t k,
          h,
          w.on,
          search_map-read w.rehash k,
          h',
          int_of-slot k w.rehash small',
        ),
        (ground (arith, h, h'), insert_at-rehashing d k w h h'),
      )
    ]
  ]
]

-- What an addition comes to: the key was there and nothing changed, or a cleared entry is new.
abbrev pub Added : CString → Dict → Option Ref × Dict → Type 0
Added k d (none, e) = Same d e × ((x : DictEntry) × (view d k ≡ some x))
Added k d (some r, e) = (view d k ≡ none) × Update k (some (blank k)) d e × RefTo e k (blank k) r

add_locked-Added :
    (cfg : Config) (d : Dict) (k : CString)
    → IsValid d
    → IsSmall d
    → get_size d < 2 ^ 30
    → Returns (add_locked cfg d k) (Added k d)
unfolding add_locked calc_index is_error
add_locked-Added cfg d k v small few =
    let (e, grown, s, t) = expand_if-Ready cfg d v few in
    let (i, run, chosen) = choose_index-Chosen e k s.valid (s.small small) t in
    rw (grown, run) (outcome e s i chosen)
  where
    outcome :
        (e : Dict)
        → Same d e
        → (i : ℤ) → Chosen e k i
        → Returns (if is_error i then ok (none, e) else insert_at e i k) (Added k d)
    outcome e s (negsuc zero) (x, h) = ((none, e), refl, (s, (x, sym (s.views k) ∙ h)))
    outcome e s (negsuc (suc i)) p = absurd p
    outcome e s (pos i) (h, ((none, f), run, p)) = absurd p
    outcome e s (pos i) (h, ((some r, f), run, (u, to))) =
        ((some r, f), run, (sym (s.views k) ∙ h, Same-Update s u, to))

-- With at most 2 ^ 31 buckets in each map and fewer than 2 ^ 30 entries `__dict_add` does not fault; it inserts a cleared entry for a key that reads
-- nothing, and otherwise returns null and leaves the dictionary as good as before.
pub add_entry-Added :
    (cfg : Config) (d : Dict) (k : CString)
    → IsValid d
    → IsSmall d
    → get_size d < 2 ^ 30
    → Returns (add_entry cfg d k) (Added k d)
unfolding add_entry
add_entry-Added cfg d k v small few =
    let (e, run, s) = prepare-Same d v in
    let (r, run', p) = add_locked-Added cfg e k s.valid (s.small small) (omega (arith, s.sizes)) in
    (r, rw (run, run'), outcome e s r p)
  where
    outcome : (e : Dict) → Same d e → (r : Option Ref × Dict) → Added k e r → Added k d r
    outcome e s (none, f) (t, (x, h)) = (Same-trans s t, (x, sym (s.views k) ∙ h))
    outcome e s (some r, f) (h, u, to) = (sym (s.views k) ∙ h, Same-Update s u, to)
