-- ===== src/Dict/Entries/Find.antt =====
-- `__dict_lookup` finds what a key reads, and a write through its pointer changes that key alone.
use xfire_db.Base.{
  ℕ, ◌<◌, ◌≡◌, refl, inl, inr, true, false, Option, none, some, [], arith, ◌==◌, at-get_or, CString,
  str_eq_iff, Returns, Option-cases,
}
use xfire_db.Dict.{DictEntry, Chain, DictMap, Dict, Ref}
use xfire_db.Dict.Api.{write_entry}
use xfire_db.Dict.Chain.{modify}
use xfire_db.Dict.Chain.Laws.{KeepsKey}
use xfire_db.Dict.Entries.{lookup_locked, lookup_entry}
use xfire_db.Dict.Entries.Updates.{
  Update, primary-Update, rehash-Update, ref, RefTo, prepare-Same, search_map-read, rehash-eq-none,
}
use xfire_db.Dict.Rehash.{slot}
use xfire_db.Dict.Rehash.Finish.{read-reset}
use xfire_db.Dict.Table.{bucket, IsTable, read, slot-lt}
use xfire_db.Dict.Table.Writes.{bucket-put}
use xfire_db.Dict.Table.Entries.{modified, modified-IsTable, read-modified}
use xfire_db.Dict.Valid.{IsIdle, IsRehashing, IsValid, Same, view}

-- the outcome of a search under the lock
abbrev pub Finds : Dict → CString → Option (Ref × DictEntry) → Type 0
Finds d k none = view d k ≡ none
Finds d k (some (r, e)) = (view d k ≡ some e) × RefTo d k e r

size_pos : {map : DictMap} → IsTable map → (map.size == 0) ≡ false
size_pos {map} t = let pos : 0 < map.size = omega (arith, t.masked) in ground arith

find_in_table :
    (d : Dict) (k : CString)
    → IsIdle d
    → IsTable d.primary
    → Returns (lookup_locked d k) (Finds d k)
unfolding lookup_locked view
find_in_table d k v t = elim (Option-cases (read d.primary k)) [
  | inl e ↦ (
    none,
    ground (arith, size_pos t, search_map-read t k, e, v.off),
    ground (arith, v.cleared, read-reset k),
  )
  | inr (x, e) ↦ (
    some (ref false (slot d.primary k) k, x),
    ground (arith, size_pos t, search_map-read t k, e),
    (ground arith, inl (refl, t, e)),
  )
]

find_rehashing : (d : Dict) (k : CString) → IsRehashing d → Returns (lookup_locked d k) (Finds d k)
unfolding lookup_locked view
find_rehashing d k v = elim (Option-cases (read d.primary k)) [
  | inr (x, e) ↦ (
    some (ref false (slot d.primary k) k, x),
    ground (arith, size_pos v.primary, search_map-read v.primary k, e),
    (ground arith, inl (refl, v.primary, e)),
  )
  | inl e ↦ elim (Option-cases (read d.rehash k)) [
    | inl e' ↦ (
      none,
      ground (
        arith,
        size_pos v.primary,
        search_map-read v.primary k,
        search_map-read v.rehash k,
        e,
        e',
        v.on,
      ),
      ground arith,
    )
    | inr (x, e') ↦ (
      some (ref true (slot d.rehash k) k, x),
      ground (
        arith,
        size_pos v.primary,
        search_map-read v.primary k,
        search_map-read v.rehash k,
        e,
        e',
        v.on,
      ),
      (ground arith, inr (refl, v, e')),
    )
  ]
]

pub lookup_locked-Finds :
    (d : Dict) (k : CString) → IsValid d → Returns (lookup_locked d k) (Finds d k)
lookup_locked-Finds d k (inr v) = find_rehashing d k v
lookup_locked-Finds d k (inl v) = elim v.primary [
  | inr t ↦ find_in_table d k v t
  | inl e ↦ (
    none,
    unfold lookup_locked in ground (arith, e),
    unfold view in ground (arith, e, v.cleared, read-reset k),
  )
]

-- `__dict_lookup` leaves the dictionary as good as before, and finds what the key reads in it.
pub lookup_entry-Finds :
    (d : Dict) (k : CString)
    → IsValid d
    → Returns (lookup_entry d k) (λ r. Same d r.1 × Finds r.1 k r.0)
unfolding lookup_entry
lookup_entry-Finds d k v =
    let (d', run, s) = prepare-Same d v in
    let (r, run', p) = lookup_locked-Finds d' k s.valid in ((r, d'), rw (run, run'), (s, p))

modify-nil : (k : CString) (f : DictEntry → DictEntry) → modify k f [] ≡ []
unfolding modify
modify-nil k f = refl

module _ (k : CString) (f : DictEntry → DictEntry) (keeps : KeepsKey f) where
  bucket-modified :
      {map : DictMap} (t : IsTable map) (i : ℕ)
      → bucket map i ≡ []
      → bucket (modified t k f keeps) i ≡ []
  bucket-modified {map} t i e =
      let c = modify k f (bucket map (slot map k)) in
      ground (
        arith,
        bucket-put t (slot-lt t k) c map.length i,
        modify-nil k f,
        ap_bucket (bucket map (slot map k)),
      )
    where
      ap_bucket : (c : Chain) → c ≡ [] → modify k f c ≡ []
      ap_bucket c h = rw h (modify-nil k f)

  pub write_entry-Update :
      (d : Dict) (e : DictEntry) (r : Ref)
      → IsValid d
      → RefTo d k e r
      → Returns (write_entry r f d) (Update k (some (f e)) d)
  unfolding write_entry
  write_entry-Update d e r v (inl (same, t, at_k)) = (
    record d { primary = modified t k f keeps },
    rw same (rw (at-get_or d.primary.array (slot d.primary k) [] (slot-lt t k))),
    primary-Update d k (some (f e)) (modified t k f keeps) (modified-IsTable t k f keeps) v t
        (rehash-eq-none d k v at_k)
        (λ q. rw (read-modified t k f keeps q) (ground (arith, str_eq_iff k q, at_k)))
        (ground (arith, at_k)) (λ i empty h on. bucket-modified t i empty) refl,
  )
  write_entry-Update d e r v (inr (same, w, at_k)) = (
    record d { rehash = modified w.rehash k f keeps },
    rw same (rw (at-get_or d.rehash.array (slot d.rehash k) [] (slot-lt w.rehash k))),
    rehash-Update d k (some (f e)) (modified w.rehash k f keeps)
        (modified-IsTable w.rehash k f keeps) w (ground (arith, w.apart k, at_k))
        (λ q. rw (read-modified w.rehash k f keeps q) (ground (arith, str_eq_iff k q, at_k)))
        (ground (arith, at_k)) refl,
  )
