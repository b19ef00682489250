-- ===== src/Engine/Pops.antt =====
-- `xfiredb_list_pop` at one position.
use mathlib.Core.Path.{subst}
use xfire_db.Base.{
  ℕ, suc, ◌<◌, ◌≡◌, ◌≢◌, refl, sym, ap, ◌∙◌, inl, inr, true, false, Option, none, some, List, [],
  ◌∷◌, ◌==◌, ==_iff, if◌then◌else◌, length, CString, Run, ok, ◌>>=◌, arith, Bool-cases, Returns,
}
use xfire_db.Base.Int.{pos}
use xfire_db.Base.{zero, ◌≤◌}
use xfire_db.Database.{db_delete}
use xfire_db.Database.Pointers.{pointer}
use xfire_db.Dict.{Config}
use xfire_db.Engine.{Str, string, list, set, Engine, deref, write}
use xfire_db.Engine.Deletes.{delete-Represents}
use xfire_db.Engine.Items.{pop_items, drop_list, xfiredb_list_pop}
use xfire_db.Engine.Places.{item, drop_item, from_zero, pop_items-drop_item}
use xfire_db.Engine.Sets.{bio-Represents}
use xfire_db.Engine.Values.{
  Value, text, items, Store, Texts, no_texts, denotes_text, denotes_items, Behind, nowhere, there,
  Represents, assign,
}
use xfire_db.Engine.Steps.{deref-holds, find-Represents, write-Represents, Represents-fewer}
use xfire_db.Engine.Requests.{
  counted, pop_item, request, expected, Meets, taken, filled, without_item, as_int, reply,
  as_int-reply,
}

item-le_one : (j : ℕ) (ts : List CString) → length (item j ts) ≤ 1
item-le_one j [] = omega arith
item-le_one zero (t ∷ ts) = omega arith
item-le_one (suc j) (t ∷ ts) = item-le_one j ts

module _ (memory : ℕ → ℕ) (cfg : Config) (level : ℕ) {n : ℕ} {m : Store} where
  -- a list that is empty is taken out of the database, and its container freed
  drop_list-Represents :
      {e : Engine} (k : CString) (a counter : ℕ)
      → Represents (suc n) m e
      → pointer e.db k ≡ some a
      → Returns
          (drop_list memory cfg level k a counter (write a (some (list [])) e))
          λ (r, e'). (r ≡ some counter) × Represents n (assign k none m) e'
  unfolding drop_list write
  drop_list-Represents {e} k a counter h here =
      let ((p, db), run, (found, gone)) = delete-Represents h k in
      let run' : db_delete e.db k ≡ ok (some a, db) = run ∙ ap (λ p. ok (p, db)) (found ∙ here) in
      (
        (some counter, _),
        rw run' refl,
        (
          refl,
          gone (λ b. if a == b then none else if a == b then some (list []) else e.heap b) others
              e.bio n (omega arith),
        ),
      )
    where
      others :
          (b : ℕ) (q : CString)
          → pointer e.db q ≡ some b
          → k ≢ q
          → (if a == b then none else if a == b then some (list []) else e.heap b) ≡ e.heap b
      others b q g differ = elim (Bool-cases (a == b)) [
        | inl same ↦ absurd (differ (h.apart k q a here (rw ((==_iff a b).0 same) g)))
        | inr off ↦ rw off refl
      ]

  -- what is left of a list is written back, or nothing
  pop_rest :
      {e : Engine} (k : CString) (a counter : ℕ) (rest : List Str) (us : List CString)
      → Represents (suc n) m e
      → pointer e.db k ≡ some a
      → a < e.next
      → Texts rest us
      → Returns
          (elim (length rest == 0) as (λ b. Run (Option ℕ × Engine)) [
            | true ↦ drop_list memory cfg level k a counter (write a (some (list rest)) e)
            | false ↦ ok (some counter, write a (some (list rest)) e)
          ])
          λ (r, e'). (r ≡ some counter) × Represents n (assign k (filled us) m) e'
  pop_rest k a counter [] [] h here low no_texts = drop_list-Represents k a counter h here
  pop_rest {e} k a counter (s ∷ rest) (u ∷ us) h here low x =
      let more : (suc (length rest) == 0) ≡ false = ground arith in
      (
        (some counter, write a (some (list (s ∷ rest))) e),
        rw more refl,
        (
          refl,
          write-Represents (Represents-fewer h) k a (list (s ∷ rest)) (items (u ∷ us)) here low
              (denotes_items x),
        ),
      )
  pop_rest k a counter [] (u ∷ us) h here low x = elim x [ ]
  pop_rest k a counter (s ∷ rest) [] h here low x = elim x [ ]

  pub pop_item-Meets :
      {en : Engine}
      → Represents (suc n) m en
      → (k : CString) (j : ℕ)
      → Meets n (expected (pop_item k j) m) (request memory cfg level (pop_item k j) en)
  unfolding request expected xfiredb_list_pop
  pop_item-Meets h k j =
      let ((p, e), run, (here, r)) = find-Represents h k in
      rw run (outcome e r p (m k) here (rw (← here) at (r.behind k)))
    where
      outcome :
          (e : Engine)
          → Represents (suc n) m e
          → (p : Option ℕ) (v : Option Value) → p ≡ pointer e.db k
          → Behind e.heap e.next p v
          → Meets n
              (counted (reply (taken j v)), without_item k j v m)
              ((elim p as (λ p. Run (Option ℕ × Engine)) [
                | none ↦ ok (some 0, e)
                | some a ↦ deref e a >>= elim [
                  | string s ↦ ok (none, e)
                  | list ss ↦
                      pop_items memory cfg level k (length ss) ss 0 (pos j ∷ []) 0 e
                      >>= λ (rest, counter, en). elim (length rest == 0) [
                        | true ↦
                            drop_list memory cfg level k a counter (write a (some (list rest)) en)
                        | false ↦ ok (some counter, write a (some (list rest)) en)
                      ]
                  | set ↦ ok (none, e)
                ]
              ])
                >>= λ (t, e). ok (counted (as_int t), e))
      outcome e r none none here nowhere = (
        (counted (as_int (some 0)), e),
        refl,
        (ap counted (as_int-reply 0 (omega arith)), Represents-fewer r),
      )
      outcome e r (some a) (some (text t)) here (there low holds denotes_text) = (
        (counted (as_int none), e),
        rw (deref-holds e holds) refl,
        (unfold as_int in refl, Represents-fewer r),
      )
      outcome e r (some a) (some (items ts)) here (there low holds (denotes_items {ss} x)) =
          let ((rest, counter, e'), run, (count, (left, (bio, other)))) =
            pop_items-drop_item memory cfg level k (length ss) 0 j 0 e x in
          let run' =
            subst
              (λ i.
                pop_items memory cfg level k (length ss) ss 0 (pos i ∷ []) 0 e
                ≡ ok (rest, counter, e'))
              (from_zero j) run in
          let held : Represents (suc n) m e' = rw other (bio-Represents bio r) in
          let here' : pointer e'.db k ≡ some a = rw other (sym here) in
          let low' : a < e'.next = rw other low in
          let ((answer, e2), done, (same, held')) =
            pop_rest k a counter rest (drop_item j ts) held here' low' left in
          (
            (counted (as_int answer), e2),
            rw (deref-holds e holds, run', done) refl,
            (
              ap (λ o. counted (as_int o)) (same ∙ ap some (count ∙ from_zero (length (item j ts))))
                  ∙ ap counted
                      (as_int-reply (length (item j ts)) (omega (arith, item-le_one j ts))),
              held',
            ),
          )
      outcome e r none (some v) here x = elim x [ ]
      outcome e r (some a) none here x = elim x [ ]
