-- ===== src/Engine/Reads.antt =====
-- `xfiredb_string_get` and `xfiredb_list_length`.
use xfire_db.Base.{ℕ, suc, ◌≡◌, refl, ap, Option, none, some, List, length, CString, Run, ok, ◌>>=◌}
use xfire_db.Base.{◌+◌, ◌<◌, ◌^◌, arith}
use xfire_db.Base.Int.{ℤ, pos, negsuc, int_of, int_of-lt}
use xfire_db.Dict.{Config}
use xfire_db.Engine.{
  Str, string, list, set, Engine, deref, string_get, xfiredb_string_get, xfiredb_list_length,
}
use xfire_db.Engine.Values.{
  Value, text, items, Store, Texts, no_texts, one_more, denotes_text, denotes_items, Behind,
  nowhere, there, Represents,
}
use xfire_db.Engine.Steps.{deref-holds, find-Represents, Represents-fewer}
use xfire_db.Engine.Requests.{
  got, counted, get_string, list_length, request, expected, Meets, text_of, length_of, entries_of,
  reply, Short,
}

pub length-Texts : {ss : List Str} {ts : List CString} → Texts ss ts → length ss ≡ length ts
length-Texts no_texts = refl
length-Texts (one_more x) = ap suc (length-Texts x)

module _ (memory : ℕ → ℕ) (cfg : Config) (level : ℕ) {n : ℕ} {m : Store} {en : Engine}
    (h : Represents (suc n) m en) where
  pub get_string-Meets :
      (k : CString)
      → Meets n (expected (get_string k) m) (request memory cfg level (get_string k) en)
  unfolding request expected xfiredb_string_get string_get
  get_string-Meets k =
      let ((p, e), run, (here, r)) = find-Represents h k in
      rw run (outcome e (Represents-fewer r) p (m k) (rw (← here) at (r.behind k)))
    where
      outcome :
          (e : Engine)
          → Represents n m e
          → (p : Option ℕ) (v : Option Value) → Behind e.heap e.next p v
          → Meets n
              (got (text_of v), m)
              ((elim p as (λ p. Run (Option CString × Engine)) [
                | none ↦ ok (none, e)
                | some a ↦ deref e a >>= elim [
                  | string s ↦ string_get s >>= λ t. ok (some t, e)
                  | list ss ↦ ok (none, e)
                  | set ↦ ok (none, e)
                ]
              ])
                >>= λ (t, e). ok (got t, e))
      outcome e r none none nowhere = ((got none, e), refl, (refl, r))
      outcome e r (some a) (some (text t)) (there low holds denotes_text) =
          ((got (some t), e), rw (deref-holds e holds) refl, (refl, r))
      outcome e r (some a) (some (items ts)) (there low holds (denotes_items x)) =
          ((got none, e), rw (deref-holds e holds) refl, (refl, r))
      outcome e r none (some v) x = elim x [ ]
      outcome e r (some a) none x = elim x [ ]

  pub list_length-Meets :
      (k : CString)
      → Short (suc n) m
      → Meets n (expected (list_length k) m) (request memory cfg level (list_length k) en)
  unfolding request expected xfiredb_list_length
  list_length-Meets k short =
      let ((p, e), run, (here, r)) = find-Represents h k in
      rw run (outcome e (Represents-fewer r) p (m k) (short k) (rw (← here) at (r.behind k)))
    where
      outcome :
          (e : Engine)
          → Represents n m e
          → (p : Option ℕ) (v : Option Value) → entries_of v + suc n < 2 ^ 31
          → Behind e.heap e.next p v
          → Meets n
              (counted (reply (length_of v)), m)
              ((elim p as (λ p. Run (ℤ × Engine)) [
                | none ↦ ok (negsuc 0, e)
                | some a ↦ deref e a >>= elim [
                  | string s ↦ ok (negsuc 0, e)
                  | list ss ↦ ok (int_of (length ss), e)
                  | set ↦ ok (negsuc 0, e)
                ]
              ])
                >>= λ (t, e). ok (counted t, e))
      outcome e r none none few nowhere = ((counted (negsuc 0), e), refl, (refl, r))
      outcome e r (some a) (some (text t)) few (there low holds denotes_text) =
          ((counted (negsuc 0), e), rw (deref-holds e holds) refl, (refl, r))
      outcome e r (some a) (some (items ts)) few (there low holds (denotes_items x)) = (
        (counted (pos (length ts)), e),
        rw (deref-holds e holds, length-Texts x, int_of-lt (length ts) (omega (arith, few))) refl,
        (refl, r),
      )
      outcome e r none (some v) few x = elim x [ ]
      outcome e r (some a) none few x = elim x [ ]
