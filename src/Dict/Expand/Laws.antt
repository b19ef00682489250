-- ===== src/Dict/Expand/Laws.antt =====
-- `dict_expand` and `dict_expand_if` keep what each key reads, and leave a table to insert into.
use xfire_db.Base.{
  ℕ, zero, suc, ◌*◌, ◌^◌, ◌≤◌, ◌<◌, ◌≡◌, refl, inl, inr, Bool, true, false, none, List, [], ◌∷◌,
  arith, Bool-cases, length, replicate, length-replicate, get_or-replicate, long_max, CString,
}
use xfire_db.Dict.{Chain, DictMap, Dict, Config, reset, minimal_size}
use xfire_db.Dict.Api.{get_size}
use xfire_db.Dict.Chain.{find}
use xfire_db.Dict.Chain.Laws.{occurs}
use xfire_db.Dict.Expand.{new_map, is_null, expand, should_expand, expand_if}
use xfire_db.Dict.Rehash.{slot}
use xfire_db.Dict.Rehash.Finish.{read-reset}
use xfire_db.Dict.Size.{real_size, smear, smear_by}
use xfire_db.Dict.Size.Bounds.{real_size_bounds, real_size_small}
use xfire_db.Dict.Table.{total, IsTable, read}
use xfire_db.Dict.Valid.{IsIdle, IsRehashing, IsValid, Same, Same-refl, view}

total-replicate : (n : ℕ) → total (replicate n []) ≡ 0
total-replicate zero = refl
total-replicate (suc n) = omega (arith, total-replicate n)

pub new_map-IsTable : (n : ℕ) → 0 < n → n ≤ 2 ^ 63 → IsTable (new_map n)
unfolding new_map
new_map-IsTable n pos le = record {
  sized = length-replicate n [];
  masked = omega arith;
  counted = total-replicate n;
  once = λ q i. rw (get_or-replicate {A = Chain} n i []) (unfold occurs in omega arith);
  placed = λ q i ne. rw (get_or-replicate {A = Chain} n i []) (unfold occurs in refl);
}

pub read-new_map : (n : ℕ) (q : CString) → read (new_map n) q ≡ none
unfolding new_map read
read-new_map n q = rw (get_or-replicate {A = Chain} n (slot (new_map n) q) []) (unfold find in refl)

is_null-false : {map : DictMap} → IsTable map → is_null map.array ≡ false
unfolding is_null
is_null-false {map} t = go map.array (omega (arith, t.sized, t.masked))
  where
    go : (cs : List Chain) → 0 < length cs → is_null cs ≡ false
    go [] h = absurd (omega arith)
    go (c ∷ cs) h = refl

abbrev started : Dict → ℕ → Dict
started d n = record d { rehash = new_map n; rehashidx = 0; rehashing = true }

started-IsRehashing :
    (d : Dict) (n : ℕ) → IsTable d.primary → 0 < n → n ≤ 2 ^ 63 → IsRehashing (started d n)
started-IsRehashing d n t pos le = record {
  on = refl;
  primary = t;
  rehash = new_map-IsTable n pos le;
  apart = λ q. inr (read-new_map n q);
  swept = λ i h. absurd (omega arith);
}

started-Same :
    (d : Dict) (n : ℕ) → IsIdle d → IsTable d.primary → 0 < n → n ≤ 2 ^ 31 → Same d (started d n)
unfolding view get_size
started-Same d n v t pos le = record {
  valid = inr (started-IsRehashing d n t pos (omega arith));
  views = λ q. ground (arith, read-new_map n q, v.cleared, read-reset q);
  sizes = unfold new_map in ground (arith, v.cleared);
  iterators = refl;
  status = refl;
  small = λ (p, q). (p, unfold new_map in le);
}

-- a full table starts to grow
expand-started :
    (d : Dict) (size : ℕ)
    → IsIdle d
    → IsTable d.primary
    → d.primary.length ≤ size
    → d.primary.size < size
    → size ≤ long_max
    → expand d size ≡ (true, started d (real_size size))
unfolding expand
expand-started d size v t le lt max =
    let (lo, hi) = real_size_bounds size (omega arith) max in ground (arith, v.off, is_null-false t)

abbrev refilled : Dict → Dict
refilled d = record d { primary = new_map 4 }

-- a map reset by `dict_clear` gets its first buckets
expand-refilled :
    (d : Dict) → IsIdle d → d.primary ≡ reset → expand d minimal_size ≡ (true, refilled d)
unfolding expand is_null real_size smear smear_by
expand-refilled d v e = ground (arith, v.off, e)

refilled-Same : (d : Dict) → IsIdle d → d.primary ≡ reset → Same d (refilled d)
unfolding view get_size
refilled-Same d v e = record {
  valid = inl (record {
    off = v.off;
    cleared = v.cleared;
    primary = inr (new_map-IsTable 4 (omega arith) (omega arith));
  });
  views = λ q. ground (arith, read-new_map 4 q, e, read-reset q);
  sizes = unfold new_map in ground (arith, e);
  iterators = refl;
  status = refl;
  small = λ (p, q). (unfold new_map in omega arith, q);
}

-- An outcome of `dict_expand_if` from which an addition can go on.
abbrev pub Ready : Dict → Bool × Dict → Type 0
Ready d r = (e : Dict) × (r ≡ (true, e)) × Same d e × IsTable e.primary

expand_if-Ready_table :
    (cfg : Config) (d : Dict)
    → IsIdle d
    → IsTable d.primary
    → d.primary.length < 2 ^ 30
    → Ready d (expand_if cfg d)
unfolding expand_if should_expand
expand_if-Ready_table cfg d v t few =
    let full : Bool = should_expand cfg d in
    elim (Bool-cases (should_expand cfg d)) [
      | inl e ↦
          let over : d.primary.size ≤ d.primary.length = ground arith in
          let size = d.primary.length * 2 in
          let pos : 0 < d.primary.size = omega (arith, t.masked) in
          let start = expand-started d size v t (omega arith) (omega arith) (omega arith) in
          let (lo, hi) = real_size_bounds size (omega arith) (omega arith) in
          let small = real_size_small size (omega arith) (omega arith) in
          (
            started d (real_size size),
            ground (arith, v.off, start),
            started-Same d _ v t (omega arith) small,
            t,
          )
      | inr e ↦
          let pos : 0 < d.primary.size = omega (arith, t.masked) in
          (d, ground (arith, v.off), Same-refl d (inl v), t)
    ]

-- With fewer than 2 ^ 30 entries `dict_expand_if` succeeds, keeps what every key reads, and leaves a
-- table to insert into.
pub expand_if-Ready :
    (cfg : Config) (d : Dict) → IsValid d → get_size d < 2 ^ 30 → Ready d (expand_if cfg d)
expand_if-Ready cfg d (inr v) few =
    (d, unfold expand_if in ground (arith, v.on), Same-refl d (inr v), v.primary)
expand_if-Ready cfg d (inl v) few = elim v.primary [
  | inl e ↦ (
    refilled d,
    unfold expand_if in ground (arith, v.off, e, expand-refilled d v e),
    refilled-Same d v e,
    new_map-IsTable 4 (omega arith) (omega arith),
  )
  | inr t ↦ expand_if-Ready_table cfg d v t (unfold get_size in omega arith)
]
