-- ===== src/Engine/Clears.antt =====
-- `xfiredb_list_clear`, which leaves a dangling address.
use xfire_db.Base.{
  ℕ, ◌≡◌, refl, sym, ◌∙◌, Option, none, some, List, CString, Returns, Run, ok, fault, ◌>>=◌, arith,
}
use xfire_db.Bio.{Bio, BioOperation}
use xfire_db.Dict.{Config}
use xfire_db.Dict.Valid.{IsValid}
use xfire_db.Database.Pointers.{pointer, db_lookup-pointer}
use xfire_db.Engine.{
  Str, string, list, set, Engine, deref, write, notice, find, string_get, clear_entries,
  xfiredb_list_clear, xfiredb_list_length,
}
use xfire_db.Engine.Values.{
  items, Store, Texts, no_texts, one_more, denotes_items, Behind, there, Stands,
}
use xfire_db.Engine.Steps.{deref-holds, find-Stands}

module _ (memory : ℕ → ℕ) (cfg : Config) (level : ℕ) where
  clear_entries-hooks :
      (k : CString) {ss : List Str} {ts : List CString} (e : Engine)
      → Texts ss ts
      → (bio : Bio) × (clear_entries memory cfg level k ss e ≡ ok (ts, record e { bio = bio }))
  unfolding clear_entries string_get notice
  clear_entries-hooks k e no_texts = (e.bio, refl)
  clear_entries-hooks k e (one_more {t} x) =
      let (bio, run) =
        clear_entries-hooks k (notice level k (some t) none BioOperation.list_del e) x in
      (bio, rw run refl)

  -- an address whose container is freed
  dangling :
      (k : CString) (a : ℕ) (e : Engine)
      → IsValid e.db
      → pointer e.db k ≡ some a
      → e.heap a ≡ none
      → xfiredb_list_length k e ≡ fault
  unfolding xfiredb_list_length find deref
  dangling k a e v here freed =
      let ((p, db), run, (found, s)) = db_lookup-pointer e.db k v in
      let at_a : p ≡ some a = found ∙ here in rw (run, at_a, freed) refl

  -- Clearing a list hands all its texts to the hook, in order, and succeeds; but the address of its
  -- freed container stays in the database, so that a use of the key afterwards is a fault.
  pub xfiredb_list_clear-dangling :
      (m : Store) (en : Engine) (k : CString) (ts : List CString)
      → Stands m en
      → m k ≡ some (items ts)
      → Returns
          (xfiredb_list_clear memory cfg level k en)
          λ (r, e). (r ≡ some ts) × (xfiredb_list_length k e ≡ fault)
  unfolding xfiredb_list_clear write
  xfiredb_list_clear-dangling m en k ts h is =
      let ((p, e), run, (here, r)) = find-Stands k h in
      rw run (outcome e r.valid p here (rw (← here, is) at (r.behind k)))
    where
      outcome :
          (e : Engine)
          → IsValid e.db
          → (p : Option ℕ) → p ≡ pointer e.db k
          → Behind e.heap e.next p (some (items ts))
          → Returns
              (elim p as (λ p. Run (Option (List CString) × Engine)) [
                | none ↦ ok (none, e)
                | some a ↦ deref e a >>= elim [
                  | string s ↦ ok (none, e)
                  | list ss ↦ clear_entries memory cfg level k ss e >>= λ (hooked, en).
                      ok (some hooked, write a none en)
                  | set ↦ ok (none, e)
                ]
              ])
              λ (r, e). (r ≡ some ts) × (xfiredb_list_length k e ≡ fault)
      outcome e v (some a) here (there low holds (denotes_items x)) =
          let (bio, run) = clear_entries-hooks k e x in
          (
            (some ts, write a none (record e { bio = bio })),
            rw (deref-holds e holds, run) refl,
            (
              refl,
              dangling k a (write a none (record e { bio = bio })) v (sym here) (ground arith),
            ),
          )
      outcome e v none here x = elim x [ ]
