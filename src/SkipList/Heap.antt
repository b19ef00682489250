-- ===== src/SkipList/Heap.antt =====
-- Writes to the pointers of a heap of nodes.
use mathlib.Core.Option
use mathlib.Core.Option.{some_inj}
use xfire_db.Base.{
  ℕ, zero, suc, ◌<◌, ◌≡◌, ◌≢◌, refl, sym, ◌∙◌, ap, ◌⊎◌, inl, inr, Bool, Option, none, some, List,
  [], ◌∷◌, ◌==◌, ==_iff, length, length-set, at, set, at-set_self, at-set_ne, CString, Returns, Run,
  ok, fault, arith, str_eq, Bool-cases,
}
use xfire_db.SkipList.{Node, Nodes, deref, write, forward, set_forward, hash_of, same_key}

pub at-length : (xs : List ℕ) (i : ℕ) → i < length xs → (v : ℕ) × (at xs i ≡ ok v)
at-length [] i h = absurd (omega (arith, h))
at-length (x ∷ xs) zero h = (x, refl)
at-length (x ∷ xs) (suc i) h = at-length xs i (omega (arith, h))

pub write_self : (nodes : Nodes) (a : ℕ) (x : Node) → write nodes a x a ≡ some x
unfolding write
write_self nodes a x = ground arith

pub write_ne : (nodes : Nodes) (a b : ℕ) (x : Node) → b ≢ a → write nodes a x b ≡ nodes b
unfolding write
write_ne nodes a b x ne = ground arith

-- The reads of a node, as functions of what the heap holds.
abbrev pub forward_in : Option Node → ℕ → Run ℕ
forward_in none i = fault
forward_in (some x) i = at x.forward i

pub forward_of :
    (nodes : Nodes) (a i : ℕ) (o : Option Node) → nodes a ≡ o → forward nodes a i ≡ forward_in o i
unfolding forward deref
forward_of nodes a i none e = rw (forward, deref, e) refl
forward_of nodes a i (some x) e = rw (forward, deref, e) refl

pub deref_of : (nodes : Nodes) (a : ℕ) (x : Node) → nodes a ≡ some x → deref nodes a ≡ ok x
unfolding deref
deref_of nodes a x e = rw (deref, e) refl

-- a node without its pointers
abbrev pub Outline : Type 0
Outline = Option CString × ℕ × ℕ

abbrev pub outline : Node → Outline
outline x = (x.key, x.hash, length x.forward)

unfoldable pub shape : Nodes → ℕ → Option Outline
shape nodes a = Option.map outline (nodes a)

-- One pointer is written; all others, and all keys and hashes, stay.
pub record Writes (nodes nodes' : Nodes) (a i v : ℕ) : Type 0 where
  pub there : forward nodes' a i ≡ ok v
  pub others : (b j : ℕ) → (b ≢ a) ⊎ (j ≢ i) → forward nodes' b j ≡ forward nodes b j
  pub shapes : (b : ℕ) → shape nodes' b ≡ shape nodes b

module _ (nodes : Nodes) (a i v old : ℕ) (x : Node) (h : nodes a ≡ some x)
    (e : at x.forward i ≡ ok old) where
  abbrev changed : Node
  changed = record x { forward = set x.forward i v }

  write-others :
      (b j : ℕ) → (b ≢ a) ⊎ (j ≢ i) → forward (write nodes a changed) b j ≡ forward nodes b j
  write-others b j apart = elim (Bool-cases (b == a)) [
    | inr other ↦
        let kept = write_ne nodes a b changed (λ e. ground (arith, e, other)) in
        forward_of _ b j (nodes b) kept ∙ sym (forward_of nodes b j (nodes b) refl)
    | inl same ↦ rw ((==_iff b a).0 same) (
        forward_of _ a j (some changed) (write_self nodes a changed)
        ∙ at-set_ne x.forward i j v (level_apart ((==_iff b a).0 same) apart)
        ∙ sym (forward_of nodes a j (some x) h))
  ]
    where
      level_apart : b ≡ a → (b ≢ a) ⊎ (j ≢ i) → j ≢ i
      level_apart e (inl ne) = absurd (ne e)
      level_apart e (inr ne) = ne

  write-shapes : (b : ℕ) → shape (write nodes a changed) b ≡ shape nodes b
  unfolding shape
  write-shapes b = elim (Bool-cases (b == a)) [
    | inr other ↦ rw (write_ne nodes a b changed (λ e. ground (arith, e, other))) refl
    | inl same ↦
        rw ((==_iff b a).0 same, write_self nodes a changed, h, length-set x.forward i v) refl
  ]

  write-Writes : Writes nodes (write nodes a changed) a i v
  write-Writes = record {
    there =
        forward_of _ a i (some changed) (write_self nodes a changed)
        ∙ at-set_self x.forward i v old e;
    others = write-others;
    shapes = write-shapes;
  }

pub set_forward-Writes :
    (nodes : Nodes) (a i v old : ℕ)
    → forward nodes a i ≡ ok old
    → Returns (set_forward nodes a i v) λ nodes'. Writes nodes nodes' a i v
unfolding set_forward
set_forward-Writes nodes a i v old h = outcome (nodes a) refl
  where
    outcome :
        (o : Option Node)
        → nodes a ≡ o
        → Returns (set_forward nodes a i v) λ nodes'. Writes nodes nodes' a i v
    outcome none e = absurd (ground (arith, sym (forward_of nodes a i none e) ∙ h))
    outcome (some x) e =
        let at_i : at x.forward i ≡ ok old = sym (forward_of nodes a i (some x) e) ∙ h in
        (
          _,
          rw (set_forward, deref_of nodes a x e, at_i) refl,
          write-Writes nodes a i v old x e at_i,
        )

-- a node stands at an address, with its key, its hash and the number of its pointers
abbrev pub Holds : Nodes → ℕ → Option CString → ℕ → ℕ → Type 0
Holds nodes a key hash room = shape nodes a ≡ some (key, hash, room)

pub Holds-node :
    (nodes : Nodes) (a : ℕ) (key : Option CString) (hash room : ℕ)
    → Holds nodes a key hash room
    → (x : Node) × (nodes a ≡ some x) × (outline x ≡ (key, hash, room))
unfolding shape
Holds-node nodes a key hash room h = outcome (nodes a) refl
  where
    outcome :
        (o : Option Node)
        → nodes a ≡ o
        → (x : Node) × (nodes a ≡ some x) × (outline x ≡ (key, hash, room))
    outcome none e = absurd (ground (arith, ap (Option.map outline) (sym e) ∙ h))
    outcome (some x) e = (x, e, some_inj.0 (ap (Option.map outline) (sym e) ∙ h))

pub hash_of-Holds :
    (nodes : Nodes) (a : ℕ) (key : Option CString) (hash room : ℕ)
    → Holds nodes a key hash room
    → hash_of nodes a ≡ ok hash
unfolding hash_of
hash_of-Holds nodes a key hash room h =
    let (x, e, same) = Holds-node nodes a key hash room h in
    rw (hash_of, deref_of nodes a x e) (ap (λ o. ok (o.1)) same)

pub same_key-Holds :
    (nodes : Nodes) (a : ℕ) (k key : CString) (hash room : ℕ)
    → Holds nodes a (some k) hash room
    → same_key nodes a key ≡ ok (str_eq k key)
unfolding same_key
same_key-Holds nodes a k key hash room h =
    let (x, e, same) = Holds-node nodes a (some k) hash room h in
    let here : x.key ≡ some k = ap (λ (o : Outline). o.0) same in
    rw (same_key, deref_of nodes a x e) (outcome x.key here)
  where
    outcome :
        (o : Option CString)
        → o ≡ some k
        → elim o as (λ o. Run Bool) [ none ↦ fault | some k' ↦ ok (str_eq k' key) ]
          ≡ ok (str_eq k key)
    outcome none e = absurd (ground (arith, e))
    outcome (some k') e = ap (λ k. ok (str_eq k key)) (some_inj.0 e)

pub forward-Holds :
    (nodes : Nodes) (a : ℕ) (key : Option CString) (hash room i : ℕ)
    → Holds nodes a key hash room
    → i < room
    → (v : ℕ) × (forward nodes a i ≡ ok v)
forward-Holds nodes a key hash room i h low =
    let (x, e, same) = Holds-node nodes a key hash room h in
    let (v, at_i) = at-length x.forward i (omega (arith, low, ap (λ o. o.2) same)) in
    (v, forward_of nodes a i (some x) e ∙ at_i)
