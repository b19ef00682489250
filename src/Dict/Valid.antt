-- ===== src/Dict/Valid.antt =====
-- The states of a `struct dict`, what a key reads in it, and what it means that a function leaves
-- both as they are.
use xfire_db.Base.{
  ℕ, ◌^◌, ◌≤◌, ◌<◌, ◌≡◌, refl, ◌∙◌, ◌⊎◌, true, false, Option, none, [], or_else, CString,
}
use xfire_db.Dict.{DictEntry, Dict, reset}
use xfire_db.Dict.Api.{get_size}
use xfire_db.Dict.Table.{bucket, IsTable, read}

-- No rehashing: the rehash map is reset, and the primary map is a table, or reset by `dict_clear`.
pub record IsIdle (d : Dict) : Type 0 where
  pub off : d.rehashing ≡ false
  pub cleared : d.rehash ≡ reset
  pub primary : (d.primary ≡ reset) ⊎ IsTable d.primary

-- Rehashing: two tables with no key in common; the buckets before `rehashidx` are empty.
pub record IsRehashing (d : Dict) : Type 0 where
  pub on : d.rehashing ≡ true
  pub primary : IsTable d.primary
  pub rehash : IsTable d.rehash
  pub apart : (q : CString) → (read d.primary q ≡ none) ⊎ (read d.rehash q ≡ none)
  pub swept : (i : ℕ) → i < d.rehashidx → bucket d.primary i ≡ []

abbrev pub IsValid : Dict → Type 0
IsValid d = IsIdle d ⊎ IsRehashing d

-- The abstract map: what each key leads to.
unfoldable pub view : Dict → CString → Option DictEntry
view d q = or_else (read d.primary q) (read d.rehash q)

-- Both maps have at most 2 ^ 31 buckets, whose numbers a C `int` holds.
abbrev pub IsSmall : Dict → Type 0
IsSmall d = (d.primary.size ≤ 2 ^ 31) × (d.rehash.size ≤ 2 ^ 31)

-- `e` is as good as `d` for every caller.
pub record Same (d e : Dict) : Type 0 where
  pub valid : IsValid e
  pub views : (q : CString) → view e q ≡ view d q
  pub sizes : get_size e ≡ get_size d
  pub iterators : e.iterators ≡ d.iterators
  pub status : e.status ≡ d.status
  pub small : IsSmall d → IsSmall e

pub Same-refl : (d : Dict) → IsValid d → Same d d
Same-refl d v = record {
  valid = v;
  views = λ q. refl;
  sizes = refl;
  iterators = refl;
  status = refl;
  small = λ h. h;
}

pub Same-trans : {a b c : Dict} → Same a b → Same b c → Same a c
Same-trans s t = record {
  valid = t.valid;
  views = λ q. t.views q ∙ s.views q;
  sizes = t.sizes ∙ s.sizes;
  iterators = t.iterators ∙ s.iterators;
  status = t.status ∙ s.status;
  small = λ h. t.small (s.small h);
}
