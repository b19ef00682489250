-- ===== src/LinkedList/Cells.antt =====
-- Writes to the pointers of a heap of cells.
use xfire_db.Base.{
  ℕ, ◌≡◌, ◌≢◌, refl, sym, ◌∙◌, ap, inl, inr, true, false, Option, none, some, ◌==◌, ==_iff,
  if◌then◌else◌, Run, ok, fault, arith, Bool-cases, Returns,
}
use xfire_db.LinkedList.{
  Cell, Cells, next_of, prev_of, set_next, set_prev, list_add, unlink, take_out,
}

-- the forward pointer of a cell is written, and nothing else
pub record NextSet (cells cells' : Cells) (a b : ℕ) : Type 0 where
  pub there : next_of cells' a ≡ ok b
  pub others : (x : ℕ) → x ≢ a → next_of cells' x ≡ next_of cells x
  pub backs : (x : ℕ) → prev_of cells' x ≡ prev_of cells x

-- and the back pointer
pub record PrevSet (cells cells' : Cells) (a b : ℕ) : Type 0 where
  pub there : prev_of cells' a ≡ ok b
  pub others : (x : ℕ) → x ≢ a → prev_of cells' x ≡ prev_of cells x
  pub nexts : (x : ℕ) → next_of cells' x ≡ next_of cells x

pub holds : (cells : Cells) (a v : ℕ) → next_of cells a ≡ ok v → (c : Cell) × (cells a ≡ some c)
unfolding next_of
holds cells a v e = outcome (cells a) e
  where
    outcome :
        (o : Option Cell)
        → elim o as (λ o. Run ℕ) [ none ↦ fault | some c ↦ ok c.next ] ≡ ok v
        → (c : Cell) × (o ≡ some c)
    outcome none e = absurd (ground (arith, e))
    outcome (some c) e = (c, refl)

pub holds_back :
    (cells : Cells) (a v : ℕ) → prev_of cells a ≡ ok v → (c : Cell) × (cells a ≡ some c)
unfolding prev_of
holds_back cells a v e = outcome (cells a) e
  where
    outcome :
        (o : Option Cell)
        → elim o as (λ o. Run ℕ) [ none ↦ fault | some c ↦ ok c.prev ] ≡ ok v
        → (c : Cell) × (o ≡ some c)
    outcome none e = absurd (ground (arith, e))
    outcome (some c) e = (c, refl)

module _ (cells : Cells) (a b : ℕ) (c : Cell) (e : cells a ≡ some c) where
  pub set_next-NextSet : Returns (set_next cells a b) λ cells'. NextSet cells cells' a b
  unfolding set_next next_of prev_of
  set_next-NextSet =
      let on : (a == a) ≡ true = (==_iff a a).1 refl in
      (
        (λ x. if a == x then some (record c { next = b }) else cells x),
        rw (set_next, e) refl,
        record {
          there = rw (next_of, on) refl;
          others =
              λ x ne. let off : (a == x) ≡ false = ground (arith, ne) in rw (next_of, off) refl;
          backs = λ x. elim (Bool-cases (a == x)) [
            | inl same ↦ rw (prev_of, same, ap cells (sym ((==_iff a x).0 same)) ∙ e) refl
            | inr off ↦ rw (prev_of, off) refl
          ];
        },
      )

  pub set_prev-PrevSet : Returns (set_prev cells a b) λ cells'. PrevSet cells cells' a b
  unfolding set_prev next_of prev_of
  set_prev-PrevSet =
      let on : (a == a) ≡ true = (==_iff a a).1 refl in
      (
        (λ x. if a == x then some (record c { prev = b }) else cells x),
        rw (set_prev, e) refl,
        record {
          there = rw (prev_of, on) refl;
          others =
              λ x ne. let off : (a == x) ≡ false = ground (arith, ne) in rw (prev_of, off) refl;
          nexts = λ x. elim (Bool-cases (a == x)) [
            | inl same ↦ rw (next_of, same, ap cells (sym ((==_iff a x).0 same)) ∙ e) refl
            | inr off ↦ rw (next_of, off) refl
          ];
        },
      )

next_at : (cells : Cells) (a : ℕ) (c : Cell) → cells a ≡ some c → next_of cells a ≡ ok c.next
unfolding next_of
next_at cells a c e = rw (next_of, e) refl

-- A cell is linked between two others, which may be the same.
pub record Added (cells cells' : Cells) (new prev next : ℕ) : Type 0 where
  pub next_new : next_of cells' new ≡ ok next
  pub next_prev : next_of cells' prev ≡ ok new
  pub next_others : (x : ℕ) → x ≢ new → x ≢ prev → next_of cells' x ≡ next_of cells x
  pub prev_new : prev_of cells' new ≡ ok prev
  pub prev_next : prev_of cells' next ≡ ok new
  pub prev_others : (x : ℕ) → x ≢ new → x ≢ next → prev_of cells' x ≡ prev_of cells x

pub list_add-Added :
    (cells : Cells) (new prev next v w : ℕ) (c : Cell)
    → new ≢ prev
    → new ≢ next
    → cells new ≡ some c
    → next_of cells prev ≡ ok v
    → prev_of cells next ≡ ok w
    → Returns (list_add cells new prev next) λ cells'. Added cells cells' new prev next
unfolding list_add
list_add-Added cells new prev next v w c ne ne' at_new at_prev at_next =
    let (cn, e1) = holds_back cells next w at_next in
    let (k1, run1, s1) = set_prev-PrevSet cells next new cn e1 in
    let (c2, e2) = holds k1 new c.next (s1.nexts new ∙ next_at cells new c at_new) in
    let (k2, run2, s2) = set_next-NextSet k1 new next c2 e2 in
    let (c3, e3) = holds k2 new next s2.there in
    let (k3, run3, s3) = set_prev-PrevSet k2 new prev c3 e3 in
    let (c4, e4) =
      holds k3 prev v
        (s3.nexts prev ∙ s2.others prev (λ p. ne (sym p)) ∙ s1.nexts prev ∙ at_prev) in
    let (k4, run4, s4) = set_next-NextSet k3 prev new c4 e4 in
    (
      k4,
      rw (list_add, run1) (rw run2 (rw run3 run4)),
      record {
        next_new = s4.others new ne ∙ s3.nexts new ∙ s2.there;
        next_prev = s4.there;
        next_others = λ x p q. s4.others x q ∙ s3.nexts x ∙ s2.others x p ∙ s1.nexts x;
        prev_new = s4.backs new ∙ s3.there;
        prev_next = s4.backs next ∙ s3.others next (λ p. ne' (sym p)) ∙ s2.backs next ∙ s1.there;
        prev_others = λ x p q. s4.backs x ∙ s3.others x p ∙ s2.backs x ∙ s1.others x q;
      },
    )

-- A cell is taken out from between two others, which may be the same, and points to itself.
pub record Removed (cells cells' : Cells) (entry prev next : ℕ) : Type 0 where
  pub next_prev : next_of cells' prev ≡ ok next
  pub next_others : (x : ℕ) → x ≢ entry → x ≢ prev → next_of cells' x ≡ next_of cells x
  pub prev_next : prev_of cells' next ≡ ok prev
  pub prev_others : (x : ℕ) → x ≢ entry → x ≢ next → prev_of cells' x ≡ prev_of cells x
  pub alone : (next_of cells' entry ≡ ok entry) × (prev_of cells' entry ≡ ok entry)

pub take_out-Removed :
    (cells : Cells) (entry prev next v w : ℕ)
    → entry ≢ prev
    → entry ≢ next
    → next_of cells entry ≡ ok next
    → next_of cells prev ≡ ok v
    → prev_of cells next ≡ ok w
    → Returns (take_out cells entry prev next) λ cells'. Removed cells cells' entry prev next
unfolding unlink take_out
take_out-Removed cells entry prev next v w ne ne' at_entry at_prev at_next =
    let (cn, e1) = holds_back cells next w at_next in
    let (k1, run1, s1) = set_prev-PrevSet cells next prev cn e1 in
    let (c2, e2) = holds k1 prev v (s1.nexts prev ∙ at_prev) in
    let (k2, run2, s2) = set_next-NextSet k1 prev next c2 e2 in
    let (c3, e3) = holds k2 entry next (s2.others entry ne ∙ s1.nexts entry ∙ at_entry) in
    let (k3, run3, s3) = set_next-NextSet k2 entry entry c3 e3 in
    let (c4, e4) = holds k3 entry entry s3.there in
    let (k4, run4, s4) = set_prev-PrevSet k3 entry entry c4 e4 in
    (
      k4,
      rw (take_out, unlink, run1) (rw run2 (rw run3 run4)),
      record {
        next_prev = s4.nexts prev ∙ s3.others prev (λ p. ne (sym p)) ∙ s2.there;
        next_others = λ x p q. s4.nexts x ∙ s3.others x p ∙ s2.others x q ∙ s1.nexts x;
        prev_next = s4.others next (λ p. ne' (sym p)) ∙ s3.backs next ∙ s2.backs next ∙ s1.there;
        prev_others = λ x p q. s4.others x p ∙ s3.backs x ∙ s2.backs x ∙ s1.others x q;
        alone = (s4.nexts entry ∙ s3.there, s4.there);
      },
    )
