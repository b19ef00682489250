-- ===== src/Dict/Session.antt =====
-- Sequences of calls of storage/dict.c on one dictionary, the rehash worker's among them in any
-- order, and what they promise of the map from keys to values and lengths.
pub mod Holding
pub mod Refines
use xfire_db.Base.{
  ℕ, ◌+◌, ◌-◌, Bool, true, false, Option, none, some, List, [], ◌∷◌, if◌then◌else◌, is_some,
  CString, str_eq, Run, ok, ◌>>=◌,
}
use xfire_db.Dict.{DictType, Dict, Config}
use xfire_db.Dict.Api.{
  get_entry_length, Deleted, missing, freed, written, add, update, delete, lookup, clear,
}
use xfire_db.Dict.Api.Stores.{word}
use xfire_db.Dict.Iterator
use xfire_db.Dict.Rehash.{rehash}

-- The calls of one thread or another. `work` is the worker's call of `dict_rehash`.
pub data Call : Type 0 where
  call_add call_update : CString → ℕ → DictType → Call
  call_lookup : CString → Call
  call_delete : CString → Bool → Call
  call_clear iterator_get iterator_free : Call
  work : ℕ → Call

pub data Reply : Type 0 where
  code : Bool → Reply
  found : Option (ℕ × ℕ) → Reply
  deleted : Deleted → Reply
  nothing : Reply

module _ (memory : ℕ → ℕ) where
  unfoldable pub call : Config → Call → Dict → Run (Reply × Dict)
  call cfg (call_add k a t) d = do (done, d) ← add memory cfg d k a t; ok (code done, d)
  call cfg (call_update k a t) d = do (done, d) ← update memory cfg d k a t; ok (code done, d)
  call cfg (call_lookup k) d = do (e, d) ← lookup d (some k); ok (found e, d)
  call cfg (call_delete k free) d = do (e, d) ← delete d (some k) free; ok (deleted e, d)
  call cfg call_clear d = do (entries, d) ← clear d; ok (nothing, d)
  call cfg iterator_get d = ok (nothing, (Iterator.get_safe d).1)
  call cfg iterator_free d = ok (nothing, Iterator.free (Iterator.create true) d)
  call cfg (work n) d = do (more, d) ← rehash d n; ok (nothing, d)

  unfoldable pub calls : Config → List Call → Dict → Run (List Reply × Dict)
  calls cfg [] d = ok ([], d)
  calls cfg (c ∷ cs) d = do (r, d) ← call cfg c d; (rs, d) ← calls cfg cs d; ok (r ∷ rs, d)

-- The map that a dictionary stands for: the value and the length under each key.
abbrev pub Store : Type 0
Store = CString → Option (ℕ × ℕ)

abbrev pub assign : CString → Option (ℕ × ℕ) → Store → Store
assign k v m q = if str_eq k q then v else m q

-- what a deletion replies
abbrev pub deletion : Bool → Option (ℕ × ℕ) → Deleted
deletion free none = missing
deletion free (some (value, size)) = if free then freed value else written value

module _ (memory : ℕ → ℕ) where
  -- what a call promises of that map
  unfoldable pub expected : Call → Store → Reply × Store
  expected (call_add k a t) m =
      if is_some (m k)
      then (code false, m)
      else (code true, assign k (some (word memory a t, get_entry_length t)) m)
  expected (call_update k a t) m =
      (code true, assign k (some (word memory a t, get_entry_length t)) m)
  expected (call_lookup k) m = (found (m k), m)
  expected (call_delete k free) m = (deleted (deletion free (m k)), assign k none m)
  expected call_clear m = (nothing, λ q. none)
  expected iterator_get m = (nothing, m)
  expected iterator_free m = (nothing, m)
  expected (work n) m = (nothing, m)

  unfoldable pub expected_all : List Call → Store → List Reply × Store
  expected_all [] m = ([], m)
  expected_all (c ∷ cs) m =
      let (r, m') = expected c m in let (rs, m'') = expected_all cs m' in (r ∷ rs, m'')
