-- ===== src/Engine/Steps.antt =====
-- How each step of the engine's functions changes the map that the engine stands for.
use xfire_db.Base.{
  ℕ, suc, ◌+◌, ◌≤◌, ◌<◌, ◌≡◌, ◌≢◌, refl, sym, ap, ◌∙◌, inl, inr, Bool, true, false, Option, none,
  some, ◌==◌, ==_iff, if◌then◌else◌, str_eq, str_eq_iff, CString, Returns, ok, arith, Bool-cases,
}
use xfire_db.Bio.{Bio, BioOperation}
use xfire_db.Database.Pointers.{pointer, Same-pointer, db_lookup-pointer, db_store-Points}
use xfire_db.Dict.{Config}
use xfire_db.Engine.{Container, Heap, Engine, deref, write, notice, find, store}
use xfire_db.Engine.Values.{
  Value, Store, Denotes, Behind, nowhere, there, Stands, Represents, assign,
}

-- what is behind a pointer stays there when the heap keeps it
pub Behind-keeps :
    {heap heap' : Heap} {next next' : ℕ} (p : Option ℕ) (v : Option Value)
    → Behind heap next p v
    → next ≤ next'
    → ((b : ℕ) → b < next → p ≡ some b → heap' b ≡ heap b)
    → Behind heap' next' p v
Behind-keeps none none nowhere le keeps = nowhere
Behind-keeps (some a) (some v) (there low holds is) le keeps =
    there (omega (arith, low, le)) (keeps a low refl ∙ holds) is
Behind-keeps none (some v) x le keeps = elim x [ ]
Behind-keeps (some a) none x le keeps = elim x [ ]

Behind-lt :
    {heap : Heap} {next : ℕ} (p : Option ℕ) (v : Option Value) (a : ℕ)
    → Behind heap next p v
    → p ≡ some a
    → a < next
Behind-lt (some b) (some v) a (there low holds is) e = ground (arith, low, e)
Behind-lt none none a nowhere e = ground (arith, e)
Behind-lt none (some v) a x e = elim x [ ]
Behind-lt (some b) none a x e = elim x [ ]

pub deref-holds : (en : Engine) {a : ℕ} {c : Container} → en.heap a ≡ some c → deref en a ≡ ok c
unfolding deref
deref-holds en h = rw (deref, h) refl

pub Represents-fewer :
    {n : ℕ} {m : Store} {en : Engine} → Represents (suc n) m en → Represents n m en
Represents-fewer h = record {
  valid = h.valid;
  room = omega (arith, h.room);
  small = h.small;
  behind = h.behind;
  apart = h.apart;
}

-- a key looked up in an engine that stands for a map
pub find-Stands :
    {m : Store} {en : Engine} (k : CString)
    → Stands m en
    → Returns (find k en) λ (p, e). (p ≡ pointer e.db k) × Stands m e
unfolding find
find-Stands {en = en} k h =
    let ((c, db), run, (here, s)) = db_lookup-pointer en.db k h.valid in
    let same = Same-pointer en.db db s in
    (
      (c, record en { db = db }),
      rw run refl,
      (
        here ∙ sym (same k),
        record {
          valid = s.valid;
          behind = λ q. rw (same q) (h.behind q);
          apart = λ q r a e f. h.apart q r a (sym (same q) ∙ e) (sym (same r) ∙ f);
        },
      ),
    )

module _ {n : ℕ} {m : Store} {en : Engine} (h : Represents n m en) where
  pub find-Represents :
      (k : CString) → Returns (find k en) λ (p, e). (p ≡ pointer e.db k) × Represents n m e
  unfolding find
  find-Represents k =
      let ((c, db), run, (here, s)) = db_lookup-pointer en.db k h.valid in
      let same = Same-pointer en.db db s in
      (
        (c, record en { db = db }),
        rw run refl,
        (
          here ∙ sym (same k),
          record {
            valid = s.valid;
            room = omega (arith, s.sizes, h.room);
            small = s.small h.small;
            behind = λ q. rw (same q) (h.behind q);
            apart = λ q r a e f. h.apart q r a (sym (same q) ∙ e) (sym (same r) ∙ f);
          },
        ),
      )

  pub notice-Represents :
      (level : ℕ) (key : CString) (arg newdata : Option CString) (operation : BioOperation)
      → Represents n m (notice level key arg newdata operation en)
  unfolding notice
  notice-Represents level key arg newdata operation = record {
    valid = h.valid;
    room = h.room;
    small = h.small;
    behind = h.behind;
    apart = h.apart;
  }

  -- a write to the container of a key
  pub write-Represents :
      (k : CString) (a : ℕ) (c : Container) (v : Value)
      → pointer en.db k ≡ some a
      → a < en.next
      → Denotes c v
      → Represents n (assign k (some v) m) (write a (some c) en)
  unfolding write
  write-Represents k a c v here low holds = record {
    valid = h.valid;
    room = h.room;
    small = h.small;
    behind = λ q. outcome q (str_eq k q) refl (pointer en.db q) refl (h.behind q);
    apart = h.apart;
  }
    where
      differ : (q : CString) → str_eq k q ≡ false → k ≢ q
      differ q e same = ground (arith, (str_eq_iff k q).1 same, e)

      other :
          (q : CString) (b : ℕ)
          → str_eq k q ≡ false
          → pointer en.db q ≡ some b
          → (if a == b then some c else en.heap b) ≡ en.heap b
      other q b e g = elim (Bool-cases (a == b)) [
        | inl same ↦ absurd (differ q e (h.apart k q a here (rw ((==_iff a b).0 same) g)))
        | inr differs ↦ rw differs refl
      ]

      outcome :
          (q : CString) (b : Bool)
          → str_eq k q ≡ b
          → (p : Option ℕ) → pointer en.db q ≡ p
          → Behind en.heap en.next p (m q)
          → Behind (λ b. if a == b then some c else en.heap b) en.next p (if b then some v else m q)
      outcome q true e p f x =
          let same = (str_eq_iff k q).0 e in
          let at_q : p ≡ some a = sym f ∙ ap (λ k. pointer en.db k) (sym same) ∙ here in
          rw at_q (there low (ground arith) holds)
      outcome q false e p f x =
          Behind-keeps p (m q) x (omega arith) (λ b lower g. other q b e (f ∙ g))

  -- a fresh container for an absent key, which is stored last
  pub store-Represents :
      (memory : ℕ → ℕ) (cfg : Config) (level : ℕ) (k : CString) (c : Container) (v : Value)
      (heap : Heap) (bio : Bio)
      → 0 < n
      → pointer en.db k ≡ none
      → heap en.next ≡ some c
      → ((b : ℕ) → b < en.next → heap b ≡ en.heap b)
      → Denotes c v
      → Returns
          (store memory cfg level k en.next
            (record { db = en.db; heap = heap; next = en.next + 1; bio = bio }))
          λ (done, e). (done ≡ true) × ((l : ℕ) → l < n → Represents l (assign k (some v) m) e)
  unfolding store
  store-Represents memory cfg level k c v heap bio some_room absent at_next keeps holds =
      let ((done, db), run, (ok', p)) =
        db_store-Points memory cfg en.db k en.next h.valid h.small (omega (arith, h.room)) absent in
      (
        (done, record { db = db; heap = heap; next = en.next + 1; bio = bio }),
        rw run refl,
        (
          ok',
          λ l less. record {
            valid = p.valid;
            room = omega (arith, p.room, h.room, less);
            small = p.small h.small;
            behind = λ q. rw (p.pointers q) (outcome q (str_eq k q));
            apart = λ q r a e f.
                alone q r a (str_eq k q) refl (str_eq k r) refl (sym (p.pointers q) ∙ e)
                  (sym (p.pointers r) ∙ f);
          },
        ),
      )
    where
      outcome :
          (q : CString) (b : Bool)
          → Behind heap
              (en.next + 1)
              (if b then some en.next else pointer en.db q)
              (if b then some v else m q)
      outcome q true = there (omega arith) at_next holds
      outcome q false =
          Behind-keeps (pointer en.db q) (m q) (h.behind q) (omega arith)
            (λ b lower g. keeps b lower)

      below : (q : CString) (a : ℕ) → pointer en.db q ≡ some a → a < en.next
      below q a e = Behind-lt (pointer en.db q) (m q) a (h.behind q) e

      alone :
          (q r : CString) (a : ℕ) (b : Bool)
          → str_eq k q ≡ b
          → (b' : Bool) → str_eq k r ≡ b'
          → (if b then some en.next else pointer en.db q) ≡ some a
          → (if b' then some en.next else pointer en.db r) ≡ some a
          → q ≡ r
      alone q r a true e true f x y = sym ((str_eq_iff k q).0 e) ∙ (str_eq_iff k r).0 f
      alone q r a true e false f x y = absurd (ground (arith, below r a y, x))
      alone q r a false e true f x y = absurd (ground (arith, below q a x, y))
      alone q r a false e false f x y = h.apart q r a x y
