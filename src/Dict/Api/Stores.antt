-- ===== src/Dict/Api/Stores.antt =====
-- `dict_add` against the map from keys to entries.
use xfire_db.Base.{
  ℕ, ◌^◌, ◌<◌, ◌≡◌, refl, true, false, not, Option, none, some, arith, or_else, is_some, CString,
  str_eq_iff, Returns, ok, ◌>>=◌,
}
use xfire_db.Dict.{DictType, DictEntry, Dict, Config, Ref}
use xfire_db.Dict.Api.{get_size, set_val, store_val, write_entry, raw_add}
use xfire_db.Dict.Chain.Laws.{KeepsKey}
use xfire_db.Dict.Entries.Add.{blank, Added, add_entry-Added}
use xfire_db.Dict.Entries.Find.{write_entry-Update}
use xfire_db.Dict.Entries.Updates.{Update, Update-trans}
use xfire_db.Dict.Valid.{IsValid, IsSmall, Same, view}

-- the 64-bit word that a call stores: the address itself, or what memory holds there
abbrev pub word : (ℕ → ℕ) → ℕ → DictType → ℕ
word memory address DictType.dict_ptr = address
word memory address t = memory address

-- an entry with a new word and length
abbrev pub revalue : ℕ → ℕ → DictEntry → DictEntry
revalue value size e = record e { value = value; length = size }

-- the entry of a key that is new
abbrev pub fresh : CString → ℕ → ℕ → DictEntry
fresh key value size = record { key = key; value = value; length = size; type = DictType.dict_ptr }

Same-Update_self :
    {k : CString} {x : DictEntry} {d e : Dict}
    → Same d e
    → view d k ≡ some x
    → Update k (some x) d e
Same-Update_self {k} s h = record {
  valid = s.valid;
  views = λ q. ground (arith, s.views q, str_eq_iff k q);
  sizes = rw h (omega (arith, s.sizes));
  iterators = s.iterators;
  status = s.status;
  small = s.small;
}

module _ (memory : ℕ → ℕ) (cfg : Config) (address : ℕ) (t : DictType) (size : ℕ) where
  pub store_val-KeepsKey : KeepsKey (store_val memory address t size)
  unfolding store_val set_val
  store_val-KeepsKey e = elim t as (λ t. (store_val memory address t size e).key ≡ e.key) [
    | DictType.dict_ptr ↦ refl
    | DictType.dict_u64 ↦ refl
    | DictType.dict_s64 ↦ refl
    | DictType.dict_flt ↦ refl
  ]

  pub store_val_lem :
      (e : DictEntry)
      → store_val memory address t size e
        ≡ record e { value = word memory address t; length = size }
  unfolding store_val set_val
  store_val_lem e =
      elim t
        as (λ t.
          store_val memory address t size e
          ≡ record e { value = word memory address t; length = size }) [
            | DictType.dict_ptr ↦ refl
            | DictType.dict_u64 ↦ refl
            | DictType.dict_s64 ↦ refl
            | DictType.dict_flt ↦ refl
          ]

  -- With at most 2 ^ 31 buckets in each map and fewer than 2 ^ 30 entries in a valid dictionary `raw_dict_add` does not fault. It succeeds
  -- exactly if the key is absent; the key then leads to a new entry with the stored word and the
  -- given length, and otherwise to the entry that was there. All other keys lead to what they did,
  -- the dictionary is valid again, and its maps have at most 2 ^ 31 buckets.
  pub raw_add-Update :
      (d : Dict) (k : CString)
      → IsValid d
      → IsSmall d
      → get_size d < 2 ^ 30
      → Returns (raw_add memory cfg d k address t size) λ (done, e).
        (done ≡ not (is_some (view d k)))
        × Update k (or_else (view d k) (some (fresh k (word memory address t) size))) d e
  unfolding raw_add
  raw_add-Update d k v small few =
      let (r, run, p) = add_entry-Added cfg d k v small few in rw run (outcome r p)
    where
      outcome :
          (r : Option Ref × Dict)
          → Added k d r
          → Returns
              (elim r.0 [
                | none ↦ ok (false, r.1)
                | some r' ↦
                    write_entry r' (store_val memory address t size) r.1 >>= λ d. ok (true, d)
              ])
              λ (done, e).
                (done ≡ not (is_some (view d k)))
                × Update k (or_else (view d k) (some (fresh k (word memory address t) size))) d e
      outcome (none, e) (s, (x, h)) = ((false, e), refl, (rw h refl, rw h (Same-Update_self s h)))
      outcome (some r', e) (h, u, to) =
          let (f, run, w) =
            write_entry-Update k (store_val memory address t size) store_val-KeepsKey e (blank k) r'
              u.valid to in
          (
            (true, f),
            rw run,
            (rw h refl, rw h (Update-trans u (rw (store_val_lem (blank k)) at w))),
          )
