-- ===== src/Dict/Api/Reads.antt =====
-- `dict_lookup`, `dict_key_available` and `dict_delete` against the map from keys to entries.
use mathlib.Core.Option
use xfire_db.Base.{
  ℕ, ◌≡◌, refl, sym, ◌∙◌, Bool, Option, none, some, if◌then◌else◌, is_some, CString, Returns, ok,
}
use xfire_db.Dict.{DictEntry, Dict, Ref}
use xfire_db.Dict.Api.{Deleted, missing, freed, written, lookup, key_available, delete}
use xfire_db.Dict.Entries.Delete.{delete_entry-Removed}
use xfire_db.Dict.Entries.Find.{Finds, lookup_entry-Finds}
use xfire_db.Dict.Entries.Updates.{Update}
use xfire_db.Dict.Valid.{IsValid, Same, view}

-- what `dict_lookup` copies out of an entry
abbrev pub contents : DictEntry → ℕ × ℕ
contents e = (e.value, e.length)

-- In a valid dictionary `dict_lookup` does not fault; it stores the value and the length of the
-- entry that the key leads to, or fails if there is none, and every key leads to what it did.
pub lookup-view :
    (d : Dict) (k : CString)
    → IsValid d
    → Returns (lookup d (some k)) λ (r, e). (r ≡ Option.map contents (view d k)) × Same d e
unfolding lookup
lookup-view d k v =
    let ((found, e), run, (s, p)) = lookup_entry-Finds d k v in rw run (outcome e found s p)
  where
    outcome :
        (e : Dict) (found : Option (Ref × DictEntry))
        → Same d e
        → Finds e k found
        → Returns
            (elim found [ none ↦ ok (none, e) | some (r, x) ↦ ok (some (x.value, x.length), e) ])
            λ (r, e). (r ≡ Option.map contents (view d k)) × Same d e
    outcome e none s h = ((none, e), refl, (rw (sym (s.views k) ∙ h) refl, s))
    outcome e (some (r, x)) s (h, to) =
        ((some (x.value, x.length), e), refl, (rw (sym (s.views k) ∙ h) refl, s))

-- `dict_key_available` is true exactly if the key is in the dictionary.
pub key_available-view :
    (d : Dict) (k : CString)
    → IsValid d
    → Returns (key_available d (some k)) λ (r, e). (r ≡ is_some (view d k)) × Same d e
unfolding key_available
key_available-view d k v =
    let ((r, e), run, (h, s)) = lookup-view d k v in
    ((is_some r, e), rw run, (rw h (map_some (view d k)), s))
  where
    map_some : (o : Option DictEntry) → is_some (Option.map contents o) ≡ is_some o
    map_some none = refl
    map_some (some x) = refl

-- what `dict_delete` does with the entry it found
abbrev pub deletion : Bool → Option DictEntry → Deleted
deletion free none = missing
deletion free (some e) = if free then freed e.value else written e.value

-- In a valid dictionary `dict_delete` does not fault. For a key that is there it frees the stored
-- pointer or writes the value to `*data`, as `free` says, and for any other it fails. No entry is
-- left under the key, and all other keys lead to what they did.
pub delete-Update :
    (d : Dict) (k : CString) (free : Bool)
    → IsValid d
    → Returns (delete d (some k) free) λ (r, e). (r ≡ deletion free (view d k)) × Update k none d e
unfolding delete
delete-Update d k free v =
    let ((found, e), run, (same, u)) = delete_entry-Removed d k v in rw run (outcome e found same u)
  where
    outcome :
        (e : Dict) (found : Option DictEntry)
        → found ≡ view d k
        → Update k none d e
        → Returns
            (elim found [
              | none ↦ ok (missing, e)
              | some x ↦ ok (if free then freed x.value else written x.value, e)
            ])
            λ (r, e). (r ≡ deletion free (view d k)) × Update k none d e
    outcome e none h u = ((missing, e), refl, (rw (← h) refl, u))
    outcome e (some x) h u = ((_, e), refl, (rw (← h) refl, u))
