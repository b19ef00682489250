-- ===== src/Database/Pointers.antt =====
-- What the functions of storage/database.c do to the map from keys to addresses.
use mathlib.Core.Option
use xfire_db.Base.{
  ℕ, ◌+◌, ◌^◌, ◌≤◌, ◌<◌, ◌≡◌, refl, Bool, true, false, Option, none, some, arith, if◌then◌else◌,
  str_eq, CString, Returns, Run, ok,
}
use xfire_db.Dict.{DictType, DictEntry, Dict, Config}
use xfire_db.Dict.Api.{get_size, get_entry_length, add, Deleted, missing, freed, written}
use xfire_db.Dict.Api.Stores.{raw_add-Update}
use xfire_db.Dict.Api.Reads.{contents, deletion, lookup-view, delete-Update}
use xfire_db.Dict.Entries.Updates.{Update, found}
use xfire_db.Dict.Valid.{IsValid, IsSmall, Same, view}
use xfire_db.Database.{db_store, db_delete, db_lookup}

-- the address under a key
unfoldable pub pointer : Dict → CString → Option ℕ
pointer d q = Option.map (λ e. e.value) (view d q)

-- `e` maps `k` to `c` and every other key to what `d` does.
pub record Points (k : CString) (c : Option ℕ) (d e : Dict) : Type 0 where
  pub valid : IsValid e
  pub pointers : (q : CString) → pointer e q ≡ (if str_eq k q then c else pointer d q)
  pub room : get_size e ≤ get_size d + 1
  pub small : IsSmall d → IsSmall e

pub Same-pointer : (d e : Dict) → Same d e → (q : CString) → pointer e q ≡ pointer d q
unfolding pointer
Same-pointer d e s q = rw (s.views q) refl

-- In a valid database `db_lookup` does not fault and finds the address under the key.
pub db_lookup-pointer :
    (d : Dict) (k : CString)
    → IsValid d
    → Returns (db_lookup d k) λ (c, e). (c ≡ pointer d k) × Same d e
unfolding db_lookup pointer
db_lookup-pointer d k v =
    let ((r, e), run, (h, s)) = lookup-view d k v in rw run (outcome (view d k) r e h s)
  where
    outcome :
        (o : Option DictEntry) (r : Option (ℕ × ℕ)) (e : Dict)
        → r ≡ Option.map contents o
        → Same d e
        → Returns
            (elim r as (λ o. Run (Option ℕ × Dict)) [
              | none ↦ ok (none, e)
              | some (c, size) ↦ ok (some c, e)
            ])
            λ (c, e). (c ≡ Option.map (λ e. e.value) o) × Same d e
    outcome none r e h s = rw h ((none, e), refl, (refl, s))
    outcome (some x) r e h s = rw h ((some x.value, e), refl, (refl, s))

Update-Points :
    {d e : Dict} {k : CString} {x : Option DictEntry}
    → Update k x d e
    → Points k (Option.map (λ e. e.value) x) d e
unfolding pointer
Update-Points {d} {e} {k} {x} u = record {
  valid = u.valid;
  pointers = λ q. rw (u.views q) (choice (str_eq k q) (view d q));
  room = omega (arith, u.sizes, found-le_one x);
  small = u.small;
}
  where
    choice :
        (b : Bool) (y : Option DictEntry)
        → Option.map (λ e. e.value) (if b then x else y)
          ≡ (if b then Option.map (λ e. e.value) x else Option.map (λ e. e.value) y)
    choice true y = refl
    choice false y = refl

    found-le_one : (o : Option DictEntry) → found o ≤ 1
    found-le_one none = omega arith
    found-le_one (some y) = omega arith

-- In a valid database with room, `db_store` of a key that is absent succeeds and stores the address.
pub db_store-Points :
    (memory : ℕ → ℕ) (cfg : Config) (d : Dict) (k : CString) (c : ℕ)
    → IsValid d
    → IsSmall d
    → get_size d < 2 ^ 30
    → pointer d k ≡ none
    → Returns (db_store memory cfg d k c) λ (done, e). (done ≡ true) × Points k (some c) d e
unfolding db_store add pointer
db_store-Points memory cfg d k c v small few absent =
    let ((done, e), run, (ok', u)) =
      raw_add-Update memory cfg c DictType.dict_ptr (get_entry_length DictType.dict_ptr) d k v small
        few in
    let gone = unmapped (view d k) absent in
    ((done, e), run, (rw gone at ok', Update-Points (rw gone at u)))
  where
    unmapped : (o : Option DictEntry) → Option.map (λ e. e.value) o ≡ none → o ≡ none
    unmapped none h = refl
    unmapped (some x) h = ground arith

-- In a valid database `db_delete` does not fault, gives the address under the key, and removes it.
pub db_delete-Points :
    (d : Dict) (k : CString)
    → IsValid d
    → Returns (db_delete d k) λ (c, e). (c ≡ pointer d k) × Points k none d e
unfolding db_delete pointer
db_delete-Points d k v =
    let ((r, e), run, (h, u)) = delete-Update d k false v in
    rw run (outcome (view d k) r e h (Update-Points u))
  where
    outcome :
        (o : Option DictEntry) (r : Deleted) (e : Dict)
        → r ≡ deletion false o
        → Points k none d e
        → Returns
            (elim r as (λ o. Run (Option ℕ × Dict)) [
              | missing ↦ ok (none, e)
              | freed c ↦ ok (some c, e)
              | written c ↦ ok (some c, e)
            ])
            λ (c, e). (c ≡ Option.map (λ e. e.value) o) × Points k none d e
    outcome none r e h s = rw h ((none, e), refl, (refl, s))
    outcome (some x) r e h s = rw h ((some x.value, e), refl, (refl, s))
