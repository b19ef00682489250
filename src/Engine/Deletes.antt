-- ===== src/Engine/Deletes.antt =====
-- `xfiredb_key_delete` of strings and lists.
use xfire_db.Base.{
  ℕ, suc, ◌<◌, true, false, Bool, str_eq, str_eq_iff, Returns, ◌+◌, ◌≡◌, ◌≢◌, refl, sym, ◌∙◌,
  Option, none, some, List, ◌==◌, if◌then◌else◌, ==_iff, length, CString, Run, ok, ◌>>=◌, arith,
  Bool-cases, inl, inr,
}
use xfire_db.Base.{ap, ◌^◌}
use xfire_db.Bio.{Bio, BioOperation}
use xfire_db.Dict.{Config}
use xfire_db.Database.{db_delete}
use xfire_db.Database.Pointers.{pointer, db_delete-Points}
use xfire_db.Engine.{
  Str, Heap, string, list, set, Engine, deref, write, notice, string_get, delete_entries,
  xfiredb_key_delete,
}
use xfire_db.Engine.Values.{
  Value, text, items, Store, Texts, no_texts, one_more, denotes_text, denotes_items, Behind,
  nowhere, there, Represents, assign,
}
use xfire_db.Engine.Steps.{deref-holds, Behind-keeps}
use xfire_db.Engine.Requests.{
  counted, delete_key, request, expected, Meets, entries_of, as_int, reply, as_int-reply, Short,
}

module _ {n : ℕ} {m : Store} {en : Engine} (h : Represents n m en) where
  -- a key taken out of the database
  pub delete-Represents :
      (k : CString)
      → (Returns (db_delete en.db k) λ (p, db).
          (p ≡ pointer en.db k)
          × ((heap : Heap)
              → ((b : ℕ) (q : CString) → pointer en.db q ≡ some b → k ≢ q → heap b ≡ en.heap b)
              → (bio : Bio) → (l : ℕ) → l < n
              → Represents l
                  (assign k none m)
                  (record { db = db; heap = heap; next = en.next; bio = bio })))
  delete-Represents k =
      let ((p, db), run, (here, d)) = db_delete-Points en.db k h.valid in
      (
        (p, db),
        run,
        (
          here,
          λ heap keeps bio l less. record {
            valid = d.valid;
            room = omega (arith, d.room, h.room, less);
            small = d.small h.small;
            behind = λ q. rw (d.pointers q) (outcome heap keeps q (str_eq k q) refl);
            apart = λ q r a e f.
                alone q r a (str_eq k q) (str_eq k r) (sym (d.pointers q) ∙ e)
                  (sym (d.pointers r) ∙ f);
          },
        ),
      )
    where
      outcome :
          (heap : Heap)
          → ((b : ℕ) (q : CString) → pointer en.db q ≡ some b → k ≢ q → heap b ≡ en.heap b)
          → (q : CString) (b : Bool) → str_eq k q ≡ b
          → Behind heap en.next (if b then none else pointer en.db q) (if b then none else m q)
      outcome heap keeps q true e = nowhere
      outcome heap keeps q false e =
          Behind-keeps (pointer en.db q) (m q) (h.behind q) (omega arith)
            (λ b lower g. keeps b q g (λ same. ground (arith, (str_eq_iff k q).1 same, e)))

      alone :
          (q r : CString) (a : ℕ) (b b' : Bool)
          → (if b then none else pointer en.db q) ≡ some a
          → (if b' then none else pointer en.db r) ≡ some a
          → q ≡ r
      alone q r a false false x y = h.apart q r a x y
      alone q r a true b' x y = absurd (ground (arith, x))
      alone q r a false true x y = absurd (ground (arith, y))

module _ (memory : ℕ → ℕ) (cfg : Config) (level : ℕ) where
  -- the loop counts the entries and changes nothing but the background I/O
  delete_entries-counts :
      (k : CString) {ss : List Str} {ts : List CString} (rv : ℕ) (e : Engine)
      → Texts ss ts
      → (bio : Bio) × (delete_entries memory cfg level k ss rv e
          ≡ ok (rv + length ts, record e { bio = bio }))
  unfolding delete_entries string_get notice
  delete_entries-counts k rv e no_texts =
      let same : rv + 0 ≡ rv = omega arith in (e.bio, rw same refl)
  delete_entries-counts k rv e (one_more {t} {n} {ss} {ts} x) =
      let (bio, run) =
        delete_entries-counts k (rv + 1) (notice level k (some t) none BioOperation.list_del e) x in
      let same : rv + 1 + length ts ≡ rv + suc (length ts) = omega arith in
      (bio, run ∙ rw same refl)

module _ (memory : ℕ → ℕ) (cfg : Config) (level : ℕ) {n : ℕ} {m : Store} {en : Engine}
    (h : Represents (suc n) m en) where
  pub delete_key-Meets :
      (k : CString)
      → Short (suc n) m
      → Meets n (expected (delete_key k) m) (request memory cfg level (delete_key k) en)
  unfolding request expected xfiredb_key_delete write notice
  delete_key-Meets k short =
      let ((p, db), run, (here, gone)) = delete-Represents h k in
      rw run (
        outcome (record en { db = db }) p (m k) (short k) (rw (← here) at (h.behind k))
          (λ heap keeps bio. gone heap keeps bio n (omega arith)) (λ a b q. other p here a b q))
    where
      other :
          (p : Option ℕ)
          → p ≡ pointer en.db k
          → (a b : ℕ) (q : CString) → p ≡ some a
          → pointer en.db q ≡ some b
          → k ≢ q
          → (if a == b then none else en.heap b) ≡ en.heap b
      other p here a b q e g differ = elim (Bool-cases (a == b)) [
        | inl same ↦ absurd (differ (h.apart k q a (sym here ∙ e) (rw ((==_iff a b).0 same) g)))
        | inr differs ↦ rw differs refl
      ]

      outcome :
          (e : Engine) (p : Option ℕ) (v : Option Value)
          → entries_of v + suc n < 2 ^ 31
          → Behind e.heap e.next p v
          → ((heap : Heap)
              → ((b : ℕ) (q : CString) → pointer en.db q ≡ some b → k ≢ q → heap b ≡ e.heap b)
              → (bio : Bio) → Represents n (assign k none m) (record e { heap = heap; bio = bio }))
          → ((a b : ℕ) (q : CString)
              → p ≡ some a
              → pointer en.db q ≡ some b
              → k ≢ q
              → (if a == b then none else e.heap b) ≡ e.heap b)
          → Meets n
              (counted (reply (some (entries_of v))), assign k none m)
              ((elim p as (λ p. Run (Option ℕ × Engine)) [
                | none ↦ ok (some 0, e)
                | some a ↦ deref e a >>= elim [
                  | string s ↦
                      let en = notice level k none none BioOperation.string_del e in
                      ok (some 1, write a none en)
                  | list ss ↦ delete_entries memory cfg level k ss 0 e >>= λ (rv, en).
                      ok (some rv, write a none en)
                  | set ↦ ok (none, e)
                ]
              ])
                >>= λ (t, e). ok (counted (as_int t), e))
      outcome e none none few nowhere gone frees = (
        (counted (as_int (some 0)), e),
        refl,
        (ap counted (as_int-reply 0 (omega arith)), gone e.heap (λ b q g differ. refl) e.bio),
      )
      outcome e (some a) (some (text u)) few (there low holds denotes_text) gone frees = (
        (counted (as_int (some 1)), _),
        rw (deref-holds e holds) refl,
        (
          ap counted (as_int-reply 1 (omega arith)),
          gone (λ b. if a == b then none else e.heap b) (λ b q g differ. frees a b q refl g differ)
              (notice level k none none BioOperation.string_del e).bio,
        ),
      )
      outcome e (some a) (some (items ts)) few (there low holds (denotes_items x)) gone frees =
          let (bio, run) = delete_entries-counts memory cfg level k 0 e x in
          let none_more : 0 + length ts ≡ length ts = omega arith in
          (
            (counted (as_int (some (length ts))), _),
            rw (deref-holds e holds, run, none_more) refl,
            (
              ap counted (as_int-reply (length ts) (omega (arith, few))),
              gone (λ b. if a == b then none else e.heap b)
                  (λ b q g differ. frees a b q refl g differ) bio,
            ),
          )
      outcome e none (some v) few x gone frees = elim x [ ]
      outcome e (some a) none few x gone frees = elim x [ ]
