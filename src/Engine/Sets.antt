-- ===== src/Engine/Sets.antt =====
-- `xfiredb_list_get` and `xfiredb_list_set` at one position.
use mathlib.Core.Path.{subst}
use xfire_db.Base.{
  ℕ, suc, ◌≡◌, refl, sym, Bool, true, false, Option, none, some, List, [], ◌∷◌, ◌==◌, if◌then◌else◌,
  length, CString, Run, ok, ◌>>=◌, arith,
}
use xfire_db.Base.Int.{pos}
use xfire_db.Bio.{Bio, BioOperation}
use xfire_db.Database.Pointers.{pointer}
use xfire_db.Dict.{Config}
use xfire_db.Engine.{
  string, list, set, Engine, deref, write, notice, string_alloc, xfiredb_list_push,
}
use xfire_db.Engine.Items.{get_items, xfiredb_list_get, set_items, xfiredb_list_set}
use xfire_db.Engine.Places.{
  item, put_item, from_zero, add-Texts, get_items-item, set_items-put_item,
}
use xfire_db.Engine.Values.{
  Value, text, items, Store, no_texts, denotes_text, denotes_items, Behind, nowhere, there,
  Represents,
}
use xfire_db.Engine.Steps.{
  deref-holds, find-Represents, notice-Represents, write-Represents, Represents-fewer,
}
use xfire_db.Engine.Requests.{
  code, listed, get_item, set_item, push_list, request, expected, Meets, item_of, with_item,
  with_push, changed,
}
use xfire_db.Engine.Writes.{push_list-Meets}

-- the background I/O may change
pub bio-Represents :
    {n : ℕ} {m : Store} {en : Engine} (bio : Bio)
    → Represents n m en
    → Represents n m (record en { bio = bio })
bio-Represents bio h = record {
  valid = h.valid;
  room = h.room;
  small = h.small;
  behind = h.behind;
  apart = h.apart;
}

module _ (memory : ℕ → ℕ) (cfg : Config) (level : ℕ) {n : ℕ} {m : Store} {en : Engine}
    (h : Represents (suc n) m en) where
  pub get_item-Meets :
      (k : CString) (j : ℕ)
      → Meets n (expected (get_item k j) m) (request memory cfg level (get_item k j) en)
  unfolding request expected xfiredb_list_get
  get_item-Meets k j =
      let ((p, e), run, (here, r)) = find-Represents h k in
      rw run (outcome e (Represents-fewer r) p (m k) (rw (← here) at (r.behind k)))
    where
      outcome :
          (e : Engine)
          → Represents n m e
          → (p : Option ℕ) (v : Option Value) → Behind e.heap e.next p v
          → Meets n
              (listed (item_of j v), m)
              ((elim p as (λ p. Run (Option (List CString) × Engine)) [
                | none ↦ ok (none, e)
                | some a ↦ deref e a >>= elim [
                  | string s ↦ ok (none, e)
                  | list ss ↦ get_items (length ss) ss 0 (pos j ∷ []) >>= λ ts. ok (some ts, e)
                  | set ↦ ok (none, e)
                ]
              ])
                >>= λ (t, e). ok (listed t, e))
      outcome e r none none nowhere = ((listed none, e), refl, (refl, r))
      outcome e r (some a) (some (text t)) (there low holds denotes_text) =
          ((listed none, e), rw (deref-holds e holds) refl, (refl, r))
      outcome e r (some a) (some (items ts)) (there low holds (denotes_items {ss} x)) =
          let run = get_items-item (length ss) j x in
          ((listed (some (item j ts)), e), rw (deref-holds e holds, run) refl, (refl, r))
      outcome e r none (some v) x = elim x [ ]
      outcome e r (some a) none x = elim x [ ]

  pub set_item-Meets :
      (k : CString) (j : ℕ) (t : CString)
      → Meets n (expected (set_item k j t) m) (request memory cfg level (set_item k j t) en)
  unfolding request expected xfiredb_list_set
  set_item-Meets k j t =
      let ((p, e), run, (here, r)) = find-Represents h k in
      rw run (outcome e r p (m k) refl here (rw (← here) at (r.behind k)))
    where
      outcome :
          (e : Engine)
          → Represents (suc n) m e
          → (p : Option ℕ) (v : Option Value) → m k ≡ v
          → p ≡ pointer e.db k
          → Behind e.heap e.next p v
          → Meets n (changed k (with_item j t v) m) (
              (elim p as (λ p. Run (Bool × Engine)) [
                | none ↦ xfiredb_list_push memory cfg level k t false e
                | some a ↦ deref e a >>= elim [
                  | string s ↦ ok (false, e)
                  | list ss ↦
                      if length ss == 0
                      then ok (
                        true,
                        notice level k none
                            (some t)
                            BioOperation.list_add
                            (write a (some (list (string_alloc t ∷ []))) e),
                      )
                      else (set_items memory cfg level k (pos j) t (length ss) 0 ss e
                          >>= λ (done, ss, e). ok (done, write a (some (list ss)) e))
                  | set ↦ ok (false, e)
                ]
              ])
              >>= λ (t, e). ok (code t, e))
      outcome e r none none same here nowhere =
          subst
            (λ v.
              Meets n (changed k (with_push false t v) m)
                (request memory cfg level (push_list k t false) e))
            same (push_list-Meets memory cfg level r k t false)
      outcome e r (some a) (some (text u)) same here (there low holds denotes_text) =
          ((code false, e), rw (deref-holds e holds) refl, (refl, Represents-fewer r))
      outcome e r (some a) (some (items [])) same here
            (there low holds (denotes_items {ss} no_texts)) =
          (
            (code true, _),
            rw (deref-holds e holds) refl,
            (
              refl,
              notice-Represents
                  (write-Represents (Represents-fewer r) k a (list (string_alloc t ∷ []))
                    (items (t ∷ [])) (sym here) low
                    (denotes_items (add-Texts memory cfg level k t no_texts)))
                  level k none (some t) BioOperation.list_add,
            ),
          )
      outcome e r (some a) (some (items (u ∷ us))) same here
            (there low holds (denotes_items {ss = s ∷ ss} x)) =
          let ((done, rest, e'), run, (fine, (left, (bio, other)))) =
            set_items-put_item memory cfg level k (suc (length ss)) 0 j t e (omega arith) x in
          let run' =
            subst
              (λ i.
                set_items memory cfg level k (pos i) t (suc (length ss)) 0 (s ∷ ss) e
                ≡ ok (done, rest, e'))
              (from_zero j) run in
          let more : (suc (length ss) == 0) ≡ false = ground arith in
          (
            (code true, write a (some (list rest)) e'),
            rw (deref-holds e holds, more, run', fine) refl,
            (
              refl,
              rw other (
                  write-Represents (bio-Represents bio (Represents-fewer r)) k a (list rest)
                    (items (put_item j t (u ∷ us))) (sym here) low (denotes_items left)),
            ),
          )
      outcome e r (some a) (some (items (u ∷ us))) same here
            (there low holds (denotes_items {ss = []} x)) =
          elim x [ ]
      outcome e r none (some v) same here x = elim x [ ]
      outcome e r (some a) none same here x = elim x [ ]
