-- ===== src/Engine/Writes.antt =====
-- `xfiredb_string_set` and `xfiredb_list_push`.
use xfire_db.Base.{
  ℕ, suc, ◌+◌, ◌≡◌, refl, sym, Bool, true, false, Option, none, some, List, [], ◌∷◌, ◌++◌, ◌==◌,
  if◌then◌else◌, length, CString, Run, ok, ◌>>=◌, arith,
}
use xfire_db.Bio.{BioOperation}
use xfire_db.Dict.{Config}
use xfire_db.Database.Pointers.{pointer}
use xfire_db.Engine.{
  Str, string, list, set, Engine, deref, write, alloc, notice, store, push, string_init,
  string_alloc, string_set, string_add, xfiredb_string_set, xfiredb_list_push,
}
use xfire_db.Engine.Values.{
  Value, text, items, Store, Texts, no_texts, one_more, denotes_text, denotes_items, Behind,
  nowhere, there, Represents,
}
use xfire_db.Engine.Steps.{
  deref-holds, find-Represents, notice-Represents, write-Represents, store-Represents,
  Represents-fewer,
}
use xfire_db.Engine.Requests.{
  code, set_string, push_list, request, expected, Meets, with_text, with_push, changed, pushed,
}

push-Texts :
    (memory : ℕ → ℕ) (cfg : Config) (level : ℕ) (left : Bool) (t : CString) {ss : List Str}
    {ts : List CString}
    → Texts ss ts
    → Texts (push memory cfg level left t ss) (pushed left t ts)
unfolding push string_alloc
push-Texts memory cfg level true t x = one_more x
push-Texts memory cfg level false t x = append x
  where
    append :
        {ss : List Str} {ts : List CString}
        → Texts ss ts
        → Texts (ss ++ (record { str = some t; len = length t } ∷ [])) (ts ++ (t ∷ []))
    append no_texts = one_more no_texts
    append (one_more x) = one_more (append x)

module _ (memory : ℕ → ℕ) (cfg : Config) (level : ℕ) {n : ℕ} {m : Store} where
  string_add-Meets :
      {en : Engine} (k t : CString)
      → Represents (suc n) m en
      → pointer en.db k ≡ none
      → Meets n
          (changed k (some (text t)) m)
          (string_add memory cfg level k t en >>= λ (done, e). ok (code done, e))
  unfolding string_add alloc string_set string_init
  string_add-Meets {en} k t h absent =
      let ((done, e), run, (ok', r)) =
        store-Represents h memory cfg level k (string (record { str = some t; len = length t + 1 }))
          (text t)
          (λ b.
            if en.next == b
            then some (string (record { str = some t; len = length t + 1 }))
            else en.heap b)
          en.bio (omega arith) absent (ground arith) (λ b low. ground (arith, low)) denotes_text in
      rw (run, ok')
        (
          (code true, notice level k none (some t) BioOperation.string_add e),
          refl,
          (
            refl,
            notice-Represents (r n (omega arith)) level k none (some t) BioOperation.string_add,
          ),
        )

  pub set_string-Meets :
      {en : Engine}
      → Represents (suc n) m en
      → (k t : CString)
      → Meets n (expected (set_string k t) m) (request memory cfg level (set_string k t) en)
  unfolding request expected xfiredb_string_set string_set
  set_string-Meets h k t =
      let ((p, e), run, (here, r)) = find-Represents h k in
      rw run (outcome e r p (m k) here (rw (← here) at (r.behind k)))
    where
      outcome :
          (e : Engine)
          → Represents (suc n) m e
          → (p : Option ℕ) (v : Option Value) → p ≡ pointer e.db k
          → Behind e.heap e.next p v
          → Meets n (changed k (with_text t v) m) (
              (elim p as (λ p. Run (Bool × Engine)) [
                | none ↦ string_add memory cfg level k t e
                | some a ↦ deref e a >>= elim [
                  | string s ↦
                      let en = write a (some (string (string_set t s))) e in
                      ok (true, notice level k none (some t) BioOperation.string_update en)
                  | list ss ↦ ok (false, e)
                  | set ↦ ok (false, e)
                ]
              ])
              >>= λ (t, e). ok (code t, e))
      outcome e r none none here nowhere = string_add-Meets k t r (sym here)
      outcome e r (some a) (some (text u)) here (there low holds denotes_text) = (
        (code true, _),
        rw (deref-holds e holds) refl,
        (
          refl,
          notice-Represents
              (write-Represents (Represents-fewer r) k a
                (string (record { str = some t; len = length t + 1 })) (text t) (sym here) low
                denotes_text)
              level k none (some t) BioOperation.string_update,
        ),
      )
      outcome e r (some a) (some (items ts)) here (there low holds (denotes_items x)) =
          ((code false, e), rw (deref-holds e holds) refl, (refl, Represents-fewer r))
      outcome e r none (some v) here x = elim x [ ]
      outcome e r (some a) none here x = elim x [ ]

  pub push_list-Meets :
      {en : Engine}
      → Represents (suc n) m en
      → (k t : CString) (left : Bool)
      → Meets n (expected (push_list k t left) m) (request memory cfg level (push_list k t left) en)
  unfolding request expected xfiredb_list_push notice alloc write
  push_list-Meets h k t left =
      let ((p, e), run, (here, r)) = find-Represents h k in
      rw run (outcome e r p (m k) here (rw (← here) at (r.behind k)))
    where
      new_list :
          (e : Engine)
          → Represents (suc n) m e
          → pointer e.db k ≡ none
          → Meets n (changed k (some (items (pushed left t []))) m) (
              (let (a, en) = alloc (list []) e in
                let en = notice level k none (some t) BioOperation.list_add en in
                let en = write a (some (list (push memory cfg level left t []))) en in
                store memory cfg level k a en >>= λ (done, en). ok (true, en))
              >>= λ (t, e). ok (code t, e))
      new_list e r absent =
          let c = list (push memory cfg level left t []) in
          let ((done, f), run, (ok', r')) =
            store-Represents r memory cfg level k c (items (pushed left t []))
              (λ b.
                if e.next == b then some c else if e.next == b then some (list []) else e.heap b)
              (notice level k none (some t) BioOperation.list_add e).bio (omega arith) absent
              (ground arith) (λ b low. ground (arith, low))
              (denotes_items (push-Texts memory cfg level left t no_texts)) in
          ((code true, f), rw run refl, (refl, r' n (omega arith)))

      outcome :
          (e : Engine)
          → Represents (suc n) m e
          → (p : Option ℕ) (v : Option Value) → p ≡ pointer e.db k
          → Behind e.heap e.next p v
          → Meets n (changed k (with_push left t v) m) (
              (elim p as (λ p. Run (Bool × Engine)) [
                | none ↦
                    let (a, en) = alloc (list []) e in
                    let en = notice level k none (some t) BioOperation.list_add en in
                    let en = write a (some (list (push memory cfg level left t []))) en in
                    store memory cfg level k a en >>= λ (done, en). ok (true, en)
                | some a ↦ deref e a >>= elim [
                  | string s ↦ ok (false, e)
                  | list ss ↦
                      let en = notice level k none (some t) BioOperation.list_add e in
                      ok (true, write a (some (list (push memory cfg level left t ss))) en)
                  | set ↦ ok (false, e)
                ]
              ])
              >>= λ (t, e). ok (code t, e))
      outcome e r none none here nowhere = new_list e r (sym here)
      outcome e r (some a) (some (text u)) here (there low holds denotes_text) =
          ((code false, e), rw (deref-holds e holds) refl, (refl, Represents-fewer r))
      outcome e r (some a) (some (items ts)) here (there low holds (denotes_items {ss} x)) =
          let noted =
            notice-Represents (Represents-fewer r) level k none (some t) BioOperation.list_add in
          (
            (code true, _),
            rw (deref-holds e holds) refl,
            (
              refl,
              write-Represents noted k a (list (push memory cfg level left t ss))
                  (items (pushed left t ts)) (sym here) low
                  (denotes_items (push-Texts memory cfg level left t x)),
            ),
          )
      outcome e r none (some v) here x = elim x [ ]
      outcome e r (some a) none here x = elim x [ ]
