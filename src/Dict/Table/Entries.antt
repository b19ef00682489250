-- ===== src/Dict/Table/Entries.antt =====
-- One entry of a table added, removed or changed in its bucket.
use mathlib.Core.Option
use xfire_db.Base.{
  ℕ, zero, suc, ◌+◌, ◌-◌, ◌≤◌, ◌≡◌, none, some, List, [], ◌∷◌, arith, if◌then◌else◌, length, get_or,
  CString, str_eq, str_eq_iff,
}
use xfire_db.Dict.{DictEntry, Chain, DictMap}
use xfire_db.Dict.Chain.{find, unlink, modify}
use xfire_db.Dict.Chain.Laws.{
  KeepsKey, occurs, occurs-eq-zero, find-unlink, occurs-unlink-le, find-modify, occurs-modify,
  length-unlink, length-modify,
}
use xfire_db.Dict.Rehash.{slot}
use xfire_db.Dict.Table.{bucket, total, IsTable, read, slot-lt}
use xfire_db.Dict.Table.Writes.{put, put-IsTable, read-put}

pub length-bucket-le : (cs : List Chain) (i : ℕ) → length (get_or cs i []) ≤ total cs
length-bucket-le [] i = omega arith
length-bucket-le (x ∷ cs) zero = omega arith
length-bucket-le (x ∷ cs) (suc i) = omega (arith, length-bucket-le cs i)

module _ {map : DictMap} (t : IsTable map) where
  -- what holds of the bucket of a key
  home_once : (k : CString) → occurs k (bucket map (slot map k)) ≤ 1
  home_once k = t.once k _

  module _ (e : DictEntry) (absent : read map e.key ≡ none) where
    abbrev pub consed : DictMap
    consed = put map (slot map e.key) (e ∷ bucket map (slot map e.key)) (map.length + 1)

    pub consed-IsTable : IsTable consed
    unfolding occurs read
    consed-IsTable =
        let i = slot map e.key in
        put-IsTable t (slot-lt t e.key) (e ∷ bucket map i) (map.length + 1) (omega arith)
          (λ q. ground (arith, t.once q i, str_eq_iff q e.key, occurs-eq-zero e.key (bucket map i)))
          (λ q ne. ground (arith, t.placed q i, str_eq_iff q e.key))

    pub read-consed :
        (q : CString) → read consed q ≡ (if str_eq e.key q then some e else read map q)
    unfolding find read
    read-consed q =
        let i = slot map e.key in
        rw (read-put t (slot-lt t e.key) (e ∷ bucket map i) (map.length + 1) q)
          (ground (arith, str_eq_iff q e.key, str_eq_iff e.key q))

  module _ (k : CString) where
    abbrev pub unlinked : DictMap
    unlinked = put map (slot map k) (unlink k (bucket map (slot map k))) (map.length - 1)

    pub unlinked-IsTable : {e : DictEntry} → read map k ≡ some e → IsTable unlinked
    unfolding read
    unlinked-IsTable {e} h =
        let c = bucket map (slot map k) in
        put-IsTable t (slot-lt t k) (unlink k c) (map.length - 1)
          (omega (arith, length-unlink k c e h, length-bucket-le map.array (slot map k)))
          (λ q. omega (arith, occurs-unlink-le k q c, t.once q (slot map k)))
          (λ q ne. omega (arith, occurs-unlink-le k q c, t.placed q (slot map k) ne))

    pub read-unlinked : (q : CString) → read unlinked q ≡ (if str_eq k q then none else read map q)
    unfolding read
    read-unlinked q =
        let c = bucket map (slot map k) in
        rw (read-put t (slot-lt t k) (unlink k c) (map.length - 1) q)
          (ground (arith, find-unlink k q c, home_once k, str_eq_iff k q))

    module _ (f : DictEntry → DictEntry) (keeps : KeepsKey f) where
      abbrev pub modified : DictMap
      modified = put map (slot map k) (modify k f (bucket map (slot map k))) map.length

      pub modified-IsTable : IsTable modified
      modified-IsTable =
          let c = bucket map (slot map k) in
          put-IsTable t (slot-lt t k) (modify k f c) map.length (omega (arith, length-modify k f c))
            (λ q. rw occurs-modify (t.once q (slot map k)))
            (λ q ne. rw occurs-modify (t.placed q (slot map k) ne))

      pub read-modified :
          (q : CString)
          → read modified q ≡ (if str_eq k q then Option.map f (read map q) else read map q)
      unfolding read
      read-modified q =
          let c = bucket map (slot map k) in
          rw (read-put t (slot-lt t k) (modify k f c) map.length q)
            (ground (arith, find-modify k q f keeps c, str_eq_iff k q))
