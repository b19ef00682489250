-- ===== src/Dict/Entries/Delete.antt =====
-- `__dict_delete` unlinks the entry that a key reads.
use xfire_db.Base.{
  ℕ, ◌-◌, ◌<◌, ◌≡◌, refl, sym, ◌∙◌, inl, inr, false, Option, none, some, [], ◌∷◌, arith, ◌==◌,
  length, at-get_or, CString, str_eq_iff, Returns, ok, ◌>>=◌, Option-cases,
}
use xfire_db.Dict.{DictEntry, Chain, DictMap, Dict}
use xfire_db.Dict.Chain.{find, unlink}
use xfire_db.Dict.Entries.{delete_in, delete_locked, delete_entry}
use xfire_db.Dict.Entries.Updates.{
  Update, Same-Update, primary-Update, rehash-Update, prepare-Same, rehash-eq-none,
}
use xfire_db.Dict.Rehash.{slot}
use xfire_db.Dict.Rehash.Finish.{read-reset}
use xfire_db.Dict.Table.{bucket, IsTable, read, slot-lt}
use xfire_db.Dict.Table.Writes.{bucket-put}
use xfire_db.Dict.Table.Entries.{unlinked, unlinked-IsTable, read-unlinked, length-bucket-le}
use xfire_db.Dict.Valid.{IsIdle, IsRehashing, IsValid, view}

-- what a deletion comes to: the entry that the key read, and a dictionary without it
abbrev pub Removed : CString → Dict → Option DictEntry × Dict → Type 0
Removed k d (e, f) = (e ≡ view d k) × Update k none d f

size_pos : {map : DictMap} → IsTable map → (map.size == 0) ≡ false
size_pos {map} t = let pos : 0 < map.size = omega (arith, t.masked) in ground arith

module _ {map : DictMap} (t : IsTable map) (k : CString) where
  delete_in_missing : read map k ≡ none → delete_in map k ≡ ok (none, map)
  unfolding delete_in read
  delete_in_missing h = rw (at-get_or map.array (slot map k) [] (slot-lt t k), ◌>>=◌, h)

  delete_in_found :
      {e : DictEntry} → read map k ≡ some e → delete_in map k ≡ ok (some e, unlinked t k)
  unfolding delete_in read
  delete_in_found h = rw (at-get_or map.array (slot map k) [] (slot-lt t k), ◌>>=◌, h)

  -- the counted entry is one of the map's
  length_pos : {e : DictEntry} → read map k ≡ some e → 0 < map.length
  unfolding read
  length_pos h = omega (
    arith,
    t.counted,
    length-bucket-le map.array (slot map k),
    has_entry (bucket map (slot map k)) h,
  )
    where
      has_entry : {e : DictEntry} (c : Chain) → find k c ≡ some e → 0 < length c
      has_entry [] h = unfold find in cc
      has_entry (x ∷ c) h = omega arith

  bucket-unlinked : (i : ℕ) → bucket map i ≡ [] → bucket (unlinked t k) i ≡ []
  bucket-unlinked i e =
      let c = unlink k (bucket map (slot map k)) in
      ground (
        arith,
        bucket-put t (slot-lt t k) c (map.length - 1) i,
        unlink_empty (bucket map (slot map k)),
      )
    where
      unlink_empty : (c : Chain) → c ≡ [] → unlink k c ≡ []
      unlink_empty c h = rw h (unfold unlink in refl)

-- the key is in the primary map
delete_primary :
    (d : Dict) (k : CString) {e : DictEntry}
    → IsValid d
    → IsTable d.primary
    → read d.primary k ≡ some e
    → Returns (delete_locked d k) (Removed k d)
unfolding delete_locked view
delete_primary d k {e} v t h =
    let count = length_pos t k h in
    (
      (some e, record d { primary = unlinked t k }),
      ground (arith, size_pos t, delete_in_found t k h),
      (
        ground (arith, h),
        primary-Update d k none _ (unlinked-IsTable t k h) v t (rehash-eq-none d k v h)
            (read-unlinked t k) (ground (arith, h)) (λ i empty x on. bucket-unlinked t k i empty)
            refl,
      ),
    )

nothing-Update : (d : Dict) (k : CString) → IsValid d → view d k ≡ none → Update k none d d
nothing-Update d k v h = record {
  valid = v;
  views = λ q. ground (arith, str_eq_iff k q);
  sizes = ground arith;
  iterators = refl;
  status = refl;
  small = λ h. h;
}

delete_rehashing :
    (d : Dict) (k : CString)
    → IsRehashing d
    → read d.primary k ≡ none
    → Returns (delete_locked d k) (Removed k d)
unfolding delete_locked view
delete_rehashing d k v h = elim (Option-cases (read d.rehash k)) [
  | inl h' ↦ (
    (none, d),
    ground (
      arith,
      size_pos v.primary,
      delete_in_missing v.primary k h,
      v.on,
      delete_in_missing v.rehash k h',
    ),
    (ground (arith, h, h'), nothing-Update d k (inr v) (unfold view in ground (arith, h, h'))),
  )
  | inr (e, h') ↦
      let count = length_pos v.rehash k h' in
      (
        (some e, record d { rehash = unlinked v.rehash k }),
        ground (
          arith,
          size_pos v.primary,
          delete_in_missing v.primary k h,
          v.on,
          delete_in_found v.rehash k h',
        ),
        (
          ground (arith, h, h'),
          rehash-Update d k none _ (unlinked-IsTable v.rehash k h') v h (read-unlinked v.rehash k)
              (ground (arith, h')) refl,
        ),
      )
]

delete_idle :
    (d : Dict) (k : CString)
    → IsIdle d
    → read d.primary k ≡ none
    → Returns (delete_locked d k) (Removed k d)
unfolding delete_locked view
delete_idle d k v h =
    let gone : view d k ≡ none = unfold view in ground (arith, h, v.cleared, read-reset k) in
    let u : ◌≡◌ {A = Option DictEntry} none (view d k) × Update k none d d =
      (sym gone, nothing-Update d k (inl v) gone) in
    elim v.primary [
      | inl e ↦ ((none, d), ground (arith, e), u)
      | inr t ↦ ((none, d), ground (arith, size_pos t, delete_in_missing t k h, v.off), u)
    ]

delete_locked-Removed :
    (d : Dict) (k : CString) → IsValid d → Returns (delete_locked d k) (Removed k d)
delete_locked-Removed d k v = elim (Option-cases (read d.primary k)) [
  | inr (e, h) ↦ elim v [
    | inr w ↦ delete_primary d k (inr w) w.primary h
    | inl w ↦ elim w.primary [
      | inr t ↦ delete_primary d k (inl w) t h
      | inl r ↦ ground (arith, r, read-reset k)
    ]
  ]
  | inl h ↦ elim v [ inl w ↦ delete_idle d k w h | inr w ↦ delete_rehashing d k w h ]
]

-- `__dict_delete` does not fault; it returns what the key reads, and nothing is left under the key.
pub delete_entry-Removed :
    (d : Dict) (k : CString) → IsValid d → Returns (delete_entry d k) (Removed k d)
unfolding delete_entry
delete_entry-Removed d k v =
    let (e, run, s) = prepare-Same d v in
    let (r, run', (gone, u)) = delete_locked-Removed e k s.valid in
    (r, rw (run, run'), (gone ∙ s.views k, Same-Update s u))
