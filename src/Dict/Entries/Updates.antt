-- ===== src/Dict/Entries/Updates.antt =====
-- What it means that an operation of storage/dict.c changed one key, and that a pointer leads to
-- the entry of a key.
use xfire_db.Base.{
  ℕ, ◌+◌, ◌<◌, ◌≡◌, refl, ◌∙◌, ◌⊎◌, inl, inr, Bool, true, false, Option, none, some, [], arith,
  if◌then◌else◌, at-get_or, CString, str_eq, str_eq_iff, Returns, ok, Bool-cases,
}
use xfire_db.Dict.{DictEntry, DictMap, Dict, Ref}
use xfire_db.Dict.Api.{get_size}
use xfire_db.Dict.Entries.{prepare, search_map}
use xfire_db.Dict.Rehash.{slot}
use xfire_db.Dict.Rehash.Finish.{read-reset}
use xfire_db.Dict.Rehash.Laws.{rehash_step-Same}
use xfire_db.Dict.Table.{bucket, IsTable, read, slot-lt}
use xfire_db.Dict.Valid.{IsRehashing, IsValid, IsSmall, Same, Same-refl, view}

abbrev pub found {ℓ} : {A : Type ℓ} → Option A → ℕ
found none = 0
found (some a) = 1

-- `e` is `d` with `k` leading to `v`; the number of entries follows.
pub record Update (k : CString) (v : Option DictEntry) (d e : Dict) : Type 0 where
  pub valid : IsValid e
  pub views : (q : CString) → view e q ≡ (if str_eq k q then v else view d q)
  pub sizes : get_size e + found (view d k) ≡ get_size d + found v
  pub iterators : e.iterators ≡ d.iterators
  pub status : e.status ≡ d.status
  pub small : IsSmall d → IsSmall e

pub Same-Update :
    {k : CString} {v : Option DictEntry} {d e f : Dict} → Same d e → Update k v e f → Update k v d f
Same-Update {k} s u = record {
  valid = u.valid;
  views = λ q. rw (← s.views q) (u.views q);
  sizes = rw (← s.views k) (omega (arith, u.sizes, s.sizes));
  iterators = u.iterators ∙ s.iterators;
  status = u.status ∙ s.status;
  small = λ h. u.small (s.small h);
}

-- of two changes of one key the later counts
pub Update-trans :
    {k : CString} {v w : Option DictEntry} {d e f : Dict}
    → Update k v d e
    → Update k w e f
    → Update k w d f
Update-trans {k} {v} {w} {d} {e} s t = record {
  valid = t.valid;
  views = λ q. ground (arith, s.views q, t.views q);
  sizes =
      let now : view e k ≡ v = ground (arith, s.views k, str_eq_iff k k) in
      omega (arith, s.sizes, rw now at t.sizes);
  iterators = t.iterators ∙ s.iterators;
  status = t.status ∙ s.status;
  small = λ h. t.small (s.small h);
}

module _ (d : Dict) (k : CString) (v : Option DictEntry) (map : DictMap) (t : IsTable map) where
  -- the primary map changed at the key
  pub primary-Update :
      IsValid d
      → IsTable d.primary
      → read d.rehash k ≡ none
      → ((q : CString) → read map q ≡ (if str_eq k q then v else read d.primary q))
      → map.length + found (read d.primary k) ≡ d.primary.length + found v
      → ((i : ℕ)
          → bucket d.primary i ≡ []
          → i < d.rehashidx
          → d.rehashing ≡ true
          → bucket map i ≡ [])
      → map.size ≡ d.primary.size
      → Update k v d (record d { primary = map })
  unfolding view get_size
  primary-Update valid old alone reads count still size = record {
    valid = elim valid [
      | inl w ↦ inl (record { off = w.off; cleared = w.cleared; primary = inr t })
      | inr w ↦ inr (record {
        on = w.on;
        primary = t;
        rehash = w.rehash;
        apart = λ q. ground (arith, reads q, w.apart q, str_eq_iff k q);
        swept = λ i h. still i (w.swept i h) h w.on;
      })
    ];
    views = λ q. ground (arith, reads q, str_eq_iff k q);
    sizes = ground (arith, count);
    iterators = refl;
    status = refl;
    small = λ (p, r). (omega (arith, size), r);
  }

  -- the rehash map changed at the key
  pub rehash-Update :
      IsRehashing d
      → read d.primary k ≡ none
      → ((q : CString) → read map q ≡ (if str_eq k q then v else read d.rehash q))
      → map.length + found (read d.rehash k) ≡ d.rehash.length + found v
      → map.size ≡ d.rehash.size
      → Update k v d (record d { rehash = map })
  unfolding view get_size
  rehash-Update w alone reads count size = record {
    valid = inr (record {
      on = w.on;
      primary = w.primary;
      rehash = t;
      apart = λ q. ground (arith, reads q, w.apart q, str_eq_iff k q);
      swept = w.swept;
    });
    views = λ q. ground (arith, reads q, str_eq_iff k q);
    sizes = ground (arith, count);
    iterators = refl;
    status = refl;
    small = λ (p, r). (p, omega (arith, size));
  }

abbrev pub ref : Bool → ℕ → CString → Ref
ref in_rehash idx key = record { in_rehash = in_rehash; idx = idx; key = key }

-- the pointer leads to the entry `e` of the key `k`
abbrev pub RefTo : Dict → CString → DictEntry → Ref → Type 0
RefTo d k e r =
    ((r ≡ ref false (slot d.primary k) k) × IsTable d.primary × (read d.primary k ≡ some e))
    ⊎ ((r ≡ ref true (slot d.rehash k) k) × IsRehashing d × (read d.rehash k ≡ some e))

pub prepare-Same : (d : Dict) → IsValid d → Returns (prepare d) (Same d)
unfolding prepare
prepare-Same d v = elim (Bool-cases d.rehashing) [
  | inl e ↦ let (r, run, s) = rehash_step-Same d v in (r, ground arith, s)
  | inr e ↦ (d, ground arith, Same-refl d v)
]

pub search_map-read :
    {map : DictMap} → IsTable map → (k : CString) → search_map map k ≡ ok (read map k)
unfolding search_map read
search_map-read {map} t k = rw (at-get_or map.array (slot map k) [] (slot-lt t k))

-- a key of the primary map is not in the rehash map
pub rehash-eq-none :
    (d : Dict) (k : CString) {e : DictEntry}
    → IsValid d
    → read d.primary k ≡ some e
    → read d.rehash k ≡ none
rehash-eq-none d k (inl v) h = ground (arith, v.cleared, read-reset k)
rehash-eq-none d k (inr v) h = ground (arith, v.apart k)
