-- ===== src/Dict/Api/Changes.antt =====
-- `dict_update` against the map from keys to entries.
use mathlib.Core.Option
use xfire_db.Base.{
  ℕ, ◌^◌, ◌<◌, ◌≡◌, refl, sym, ◌∙◌, Bool, true, Option, none, some, arith, or_else, CString,
  Returns, Run, ok, ◌>>=◌,
}
use xfire_db.Dict.{DictType, DictEntry, Dict, Config, Ref}
use xfire_db.Dict.Api.{get_size, get_entry_length, store_val, write_entry, add, raw_update}
use xfire_db.Dict.Api.Stores.{
  word, revalue, fresh, store_val-KeepsKey, store_val_lem, raw_add-Update,
}
use xfire_db.Dict.Entries.Find.{Finds, lookup_entry-Finds, write_entry-Update}
use xfire_db.Dict.Entries.Updates.{found, Update, Same-Update}
use xfire_db.Dict.Valid.{IsValid, IsSmall, Same, view}

module _ (memory : ℕ → ℕ) (cfg : Config) (address : ℕ) (t : DictType) (size : ℕ) where
  -- With at most 2 ^ 31 buckets in each map and fewer than 2 ^ 30 entries in a valid dictionary `raw_dict_update` does not fault and always
  -- succeeds. An entry that was there gets the stored word and the given length and keeps its type;
  -- for an absent key a new entry has the stored word, but the length of its type whatever `size`
  -- says. All other keys lead to what they did, the dictionary is valid again, and its maps have at most 2 ^ 31 buckets.
  pub raw_update-Update :
      (d : Dict) (k : CString)
      → IsValid d
      → IsSmall d
      → get_size d < 2 ^ 30
      → Returns (raw_update memory cfg d k address t size) λ (done, e).
        (done ≡ true)
        × Update k
            (or_else
              (Option.map (revalue (word memory address t) size) (view d k))
              (some (fresh k (word memory address t) (get_entry_length t))))
            d
            e
  unfolding raw_update
  raw_update-Update d k v small few =
      let ((found, e), run, (s, p)) = lookup_entry-Finds d k v in rw run (outcome e found s p)
    where
      Goal : Run (Bool × Dict) → Type 0
      Goal r = Returns r λ (done, e).
          (done ≡ true)
          × Update k
              (or_else (Option.map (revalue (word memory address t) size) (view d k))
                (some (fresh k (word memory address t) (get_entry_length t))))
              d e

      outcome :
          (e : Dict) (found : Option (Ref × DictEntry))
          → Same d e
          → Finds e k found
          → Goal (elim found [
            | none ↦ add memory cfg e k address t
            | some (r, old) ↦
                write_entry r (store_val memory address t size) e >>= λ d. ok (true, d)
          ])
      outcome e none s h =
          let absent : view d k ≡ none = sym (s.views k) ∙ h in
          let ((done, f), run, (ok', u)) =
            raw_add-Update memory cfg address t (get_entry_length t) e k s.valid (s.small small)
              (omega (arith, s.sizes)) in
          ((done, f), unfold add in run, (rw (h) at ok', rw absent (Same-Update s (rw h at u))))
      outcome e (some (r, old)) s (h, to) =
          let here : view d k ≡ some old = sym (s.views k) ∙ h in
          let (f, run, u) =
            write_entry-Update k (store_val memory address t size)
              (store_val-KeepsKey memory cfg address t size) e old r s.valid to in
          (
            (true, f),
            rw run,
            (refl, rw here (Same-Update s (rw (store_val_lem memory cfg address t size old) at u))),
          )
