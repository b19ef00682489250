-- ===== src/Engine/Ends.antt =====
-- Negative indices of `xfiredb_list_get` and `xfiredb_list_pop`, which count from the end of a list.
use xfire_db.Base.{
  ℕ, suc, ◌+◌, ◌-◌, ◌<◌, ◌≡◌, refl, sym, ap, ◌∙◌, true, false, Option, none, some, ltb, List, [],
  ◌∷◌, ◌==◌, length, CString, Run, ok, ◌>>=◌, arith,
}
use xfire_db.Base.Int.{ℤ, pos, negsuc, add_ℕ}
use xfire_db.Bio.{BioOperation}
use xfire_db.Dict.{Config}
use xfire_db.Engine.{Str, list, Engine, write, find, notice, string_get}
use xfire_db.Engine.Items.{
  wrap, is_at, get_items, xfiredb_list_get, pop_items, xfiredb_list_pop, drop_list,
}
use xfire_db.Engine.Reads.{length-Texts}
use xfire_db.Engine.Steps.{deref-holds, find-Stands}
use xfire_db.Engine.Values.{items, Store, Texts, denotes_items, Behind, there, Stands}

wrap-negative : (k n : ℕ) → k < n → wrap (negsuc k) n ≡ wrap (pos (n - suc k)) n
unfolding wrap add_ℕ
wrap-negative k n lt = let on : ltb k n ≡ true = ground (arith, lt) in rw on refl

get_items-wrap :
    (n i : ℕ) (j j' : ℤ) (s : Str) (ss : List Str)
    → wrap j n ≡ wrap j' n
    → get_items n (s ∷ ss) i (j ∷ []) ≡ get_items n (s ∷ ss) i (j' ∷ [])
unfolding get_items
get_items-wrap n i j j' s ss e =
    ap
      (λ w. elim (is_at w i) as (λ b. Run (List CString)) [
        | false ↦ get_items n ss (i + 1) (w ∷ [])
        | true ↦ string_get s >>= λ str. ok (str ∷ [])
      ])
      e

get_items-negative :
    (k : ℕ) (ss : List Str)
    → k < length ss
    → get_items (length ss) ss 0 (negsuc k ∷ [])
      ≡ get_items (length ss) ss 0 (pos (length ss - suc k) ∷ [])
get_items-negative k [] lt = absurd (omega (arith, lt))
get_items-negative k (s ∷ ss) lt =
    get_items-wrap (suc (length ss)) 0 (negsuc k) (pos (suc (length ss) - suc k)) s ss
      (wrap-negative k (suc (length ss)) lt)

module _ (memory : ℕ → ℕ) (cfg : Config) (level : ℕ) where
  pop_items-wrap :
      (key : CString) (n i counter : ℕ) (j j' : ℤ) (s : Str) (ss : List Str) (en : Engine)
      → wrap j n ≡ wrap j' n
      → pop_items memory cfg level key n (s ∷ ss) i (j ∷ []) counter en
        ≡ pop_items memory cfg level key n (s ∷ ss) i (j' ∷ []) counter en
  unfolding pop_items
  pop_items-wrap key n i counter j j' s ss en e =
      ap
        (λ w. elim (is_at w i) as (λ b. Run (List Str × ℕ × Engine)) [
          | false ↦
              pop_items memory cfg level key n ss (i + 1) (w ∷ []) counter en
              >>= λ (rest, counter, en). ok (s ∷ rest, counter, en)
          | true ↦ string_get s >>= λ str.
              ok (ss, counter + 1, notice level key (some str) none BioOperation.list_del en)
        ])
        e

  pop_items-negative :
      (key : CString) (k : ℕ) (ss : List Str) (en : Engine)
      → k < length ss
      → pop_items memory cfg level key (length ss) ss 0 (negsuc k ∷ []) 0 en
        ≡ pop_items memory cfg level key (length ss) ss 0 (pos (length ss - suc k) ∷ []) 0 en
  pop_items-negative key k [] en lt = absurd (omega (arith, lt))
  pop_items-negative key k (s ∷ ss) en lt =
      pop_items-wrap key (suc (length ss)) 0 0 (negsuc k) (pos (suc (length ss) - suc k)) s ss en
        (wrap-negative k (suc (length ss)) lt)

  module _ (key : CString) (en e : Engine) (a : ℕ) (ss : List Str)
      (run : find key en ≡ ok (some a, e)) (holds : e.heap a ≡ some (list ss)) where
    get_step :
        (idx : List ℤ)
        → xfiredb_list_get key idx en ≡ (get_items (length ss) ss 0 idx >>= λ d. ok (some d, e))
    unfolding xfiredb_list_get
    get_step idx = rw (xfiredb_list_get, run) (rw (deref-holds e holds) refl)

    pop_step :
        (idx : List ℤ)
        → xfiredb_list_pop memory cfg level key idx en ≡ (
            pop_items memory cfg level key (length ss) ss 0 idx 0 e >>= λ (rest, counter, en).
            elim (length rest == 0) as (λ b. Run (Option ℕ × Engine)) [
              | true ↦ drop_list memory cfg level key a counter (write a (some (list rest)) en)
              | false ↦ ok (some counter, write a (some (list rest)) en)
            ])
    unfolding xfiredb_list_pop
    pop_step idx = rw (xfiredb_list_pop, run) (rw (deref-holds e holds) refl)

  -- In an engine that stands for a map in which a key has a list of more than `k` texts, getting
  -- or popping the text at the one index -(k + 1) is getting or popping the one `k` places before
  -- the last.
  pub negative_indices :
      {m : Store} {en : Engine} (key : CString) (ts : List CString) (k : ℕ)
      → Stands m en
      → m key ≡ some (items ts)
      → k < length ts
      → (xfiredb_list_get key (negsuc k ∷ []) en
          ≡ xfiredb_list_get key (pos (length ts - suc k) ∷ []) en)
        × (xfiredb_list_pop memory cfg level key (negsuc k ∷ []) en
            ≡ xfiredb_list_pop memory cfg level key (pos (length ts - suc k) ∷ []) en)
  negative_indices {m} {en} key ts k h at_key lt =
      let ((p, e), run, (here, r)) = find-Stands key h in
      let (a, ss, same, holds, x) = container e p (rw (← here, at_key) at (r.behind key)) in
      let run' : find key en ≡ ok (some a, e) = run ∙ ap (λ p. ok (p, e)) same in
      let len : length ts ≡ length ss = sym (length-Texts x) in
      let lt' : k < length ss = omega (arith, lt, len) in
      (
        rw len (
            get_step key en e a ss run' holds (negsuc k ∷ [])
            ∙ ap (λ r. r >>= λ d. ok (some d, e)) (get_items-negative k ss lt')
            ∙ sym (get_step key en e a ss run' holds (pos (length ss - suc k) ∷ []))),
        rw len (
            pop_step key en e a ss run' holds (negsuc k ∷ [])
            ∙ ap
                (λ r. r >>= λ (rest, counter, en).
                  elim (length rest == 0) as (λ b. Run (Option ℕ × Engine)) [
                    | true ↦
                        drop_list memory cfg level key a counter (write a (some (list rest)) en)
                    | false ↦ ok (some counter, write a (some (list rest)) en)
                  ])
                (pop_items-negative key k ss e lt')
            ∙ sym (pop_step key en e a ss run' holds (pos (length ss - suc k) ∷ []))),
      )
    where
      container :
          (e : Engine) (p : Option ℕ)
          → Behind e.heap e.next p (some (items ts))
          → (a : ℕ) × (ss : List Str) × (p ≡ some a) × (e.heap a ≡ some (list ss)) × Texts ss ts
      container e (some a) (there low holds (denotes_items {ss} x)) = (a, ss, refl, holds, x)
      container e none x = elim x [ ]
