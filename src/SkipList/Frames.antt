-- ===== src/SkipList/Frames.antt =====
-- Skip lists under changes to other nodes of the heap.
use xfire_db.Base.{
  ℕ, ◌+◌, ◌≡◌, refl, sym, ◌∙◌, inl, inr, true, leb, Option, none, some, List, [], ◌∷◌, CString,
  arith,
}
use xfire_db.SkipList.{Nodes, forward, max_levels, max_size}
use xfire_db.SkipList.Chains.{In, Chain-frame}
use xfire_db.SkipList.Heap.{Holds, shape, forward_of}
use xfire_db.SkipList.Towers.{Tower, hash, All, tall, addrs, IsTower, IsSkipList, In-tall}

module _ (nodes nodes' : Nodes) where
  keep_Holds :
      (a : ℕ) (k : Option CString) (x room : ℕ)
      → nodes' a ≡ nodes a
      → Holds nodes a k x room
      → Holds nodes' a k x room
  unfolding shape
  keep_Holds a k x room e holds = rw e holds

  keep_towers :
      (level : ℕ) (ts : List Tower)
      → ((a : ℕ) → In a (addrs ts) → nodes' a ≡ nodes a)
      → All (IsTower nodes level) ts
      → All (IsTower nodes' level) ts
  keep_towers level [] same all = tt
  keep_towers level (t ∷ ts) same ((holds, low, high, small), all) = (
    (
      keep_Holds t.addr (some t.key) (hash t) (t.height + 1) (same t.addr (inl refl)) holds,
      low,
      high,
      small,
    ),
    keep_towers level ts (λ a m. same a (inr m)) all,
  )

  pub IsSkipList-frame :
      (level size header : ℕ) (ts : List Tower)
      → ((a : ℕ) → In a (header ∷ addrs ts) → nodes' a ≡ nodes a)
      → IsSkipList (record { level = level; size = size; header = header; nodes = nodes }) ts
      → IsSkipList (record { level = level; size = size; header = header; nodes = nodes' }) ts
  IsSkipList-frame level size header ts same s = record {
    chains = λ i low high.
        Chain-frame (λ a. forward nodes a i) (λ a. forward nodes' a i) header (tall i ts) header
          (λ a m.
            forward_of nodes' a i (nodes a) (same a (there i a m))
            ∙ sym (forward_of nodes a i (nodes a) refl))
          (s.chains i low high);
    towers = keep_towers level ts (λ a m. same a (inr m)) s.towers;
    head = keep_Holds header none max_size (max_levels + 1) (same header (inl refl)) s.head;
    ascending = s.ascending;
    apart = s.apart;
    levels = s.levels;
    sized = s.sized;
  }
    where
      there : (i a : ℕ) → In a (header ∷ tall i ts) → In a (header ∷ addrs ts)
      there i a (inl e) = inl e
      there i a (inr m) = inr (In-tall i a ts m)

-- the lowest level has all nodes
pub tall-addrs :
    (nodes : Nodes) (level : ℕ) (ts : List Tower)
    → All (IsTower nodes level) ts
    → tall 1 ts ≡ addrs ts
tall-addrs nodes level [] all = refl
tall-addrs nodes level (t ∷ ts) ((holds, low, high, small), all) =
    let on : leb 1 t.height ≡ true = ground (arith, low) in
    rw (on, tall-addrs nodes level ts all) refl
