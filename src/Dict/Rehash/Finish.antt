-- ===== src/Dict/Rehash/Finish.antt =====
-- The state of a dictionary behind one moved bucket, and behind the last one.
use xfire_db.Base.{
  ℕ, zero, suc, ◌<◌, ◌≡◌, refl, inl, inr, true, false, none, List, [], ◌∷◌, arith, ◌==◌,
  if◌then◌else◌, length, get_or, Returns, CString, ==_iff, Bool-cases,
}
use xfire_db.Dict.{Chain, DictMap, Dict, reset}
use xfire_db.Dict.Api.{get_size}
use xfire_db.Dict.Chain.{find}
use xfire_db.Dict.Chain.Laws.{occurs, find-eq-none, occurs-eq-zero}
use xfire_db.Dict.Rehash.{slot, move_chain, finish_bucket, finish_rehash}
use xfire_db.Dict.Rehash.Moves.{Moved, move_chain-Moved}
use xfire_db.Dict.Rehash.Rounds.{Swept, Swept-suc}
use xfire_db.Dict.Table.{bucket, total, IsTable, read}
use xfire_db.Dict.Table.Writes.{put, bucket-put, put-IsTable, read-put}
use xfire_db.Dict.Table.Entries.{length-bucket-le}
use xfire_db.Dict.Valid.{IsRehashing, Same, view}

module _ (d : Dict) (v : IsRehashing d) (j : ℕ) (inside : j < length d.primary.array)
    (swept : Swept d.primary.array j) where
  abbrev moving : Chain
  moving = bucket d.primary j

  -- a key of the bucket reads nothing in the rehash map
  absent : (q : CString) → 0 < occurs q moving → read d.rehash q ≡ none
  unfolding read
  absent q h =
      ground (
        arith,
        v.apart q,
        v.primary.placed q j,
        ==_iff (slot d.primary q) j,
        occurs-eq-zero q moving,
      )

  pub moves :
      Returns (move_chain moving d.rehash d.primary.length) (Moved moving d.rehash d.primary.length)
  moves =
      move_chain-Moved moving d.rehash d.primary.length v.rehash (λ q. v.primary.once q j) absent
        (omega (arith, length-bucket-le d.primary.array j, v.primary.counted))

  module _ (r : DictMap × ℕ) (m : Moved moving d.rehash d.primary.length r) where
    primary_table : IsTable (finish_bucket d j r).primary
    unfolding finish_bucket
    primary_table =
        put-IsTable v.primary inside [] r.1 (omega (arith, m.left_over))
          (λ q. unfold occurs in omega arith) (λ q ne. unfold occurs in refl)

    primary_reads :
        (q : CString)
        → read (finish_bucket d j r).primary q
          ≡ (if j == slot d.primary q then none else read d.primary q)
    unfolding finish_bucket find
    primary_reads q = read-put v.primary inside [] r.1 q

    elsewhere : (q : CString) → (j == slot d.primary q) ≡ false → find q moving ≡ none
    elsewhere q h = find-eq-none q moving (v.primary.placed q j (λ e. ground (arith, ==_iff j j)))

    here : (q : CString) → (j == slot d.primary q) ≡ true → read d.primary q ≡ find q moving
    unfolding read
    here q h = rw (← (==_iff j (slot d.primary q)).0 h)

    pub finish_bucket-IsRehashing : IsRehashing (finish_bucket d j r)
    finish_bucket-IsRehashing = record {
      on = unfold finish_bucket in v.on;
      primary = primary_table;
      rehash = unfold finish_bucket in m.table;
      apart = λ q. rw (primary_reads q) (
          unfold finish_bucket in
          rw (m.reads q) (elim (Bool-cases (j == slot d.primary q)) [
            | inl e ↦ inl (rw e)
            | inr e ↦ rw (e, elsewhere q e) (v.apart q)
          ]));
      swept =
          unfold finish_bucket in
          Swept-suc (put d.primary j [] r.1).array j
            (λ i h. rw (bucket-put v.primary inside [] r.1 i) (ground (arith, swept i)))
            (rw (bucket-put v.primary inside [] r.1 j) (ground arith));
    }

    pub view-finish_bucket : (q : CString) → view (finish_bucket d j r) q ≡ view d q
    unfolding view
    view-finish_bucket q = rw (primary_reads q) (
        unfold finish_bucket in
        rw (m.reads q) (elim (Bool-cases (j == slot d.primary q)) [
          | inl e ↦ rw (e, here q e)
          | inr e ↦ rw (e, elsewhere q e)
        ]))

    pub get_size-finish_bucket : get_size (finish_bucket d j r) ≡ get_size d
    unfolding get_size finish_bucket
    get_size-finish_bucket = omega (arith, m.left_over, m.grown)

-- an empty table reads nothing
find-eq-none_of_total :
    (q : CString) (cs : List Chain) (i : ℕ) → total cs ≡ 0 → find q (get_or cs i []) ≡ none
unfolding find
find-eq-none_of_total q [] i h = refl
find-eq-none_of_total q ([] ∷ cs) zero h = refl
find-eq-none_of_total q ((e ∷ c) ∷ cs) zero h = absurd (omega arith)
find-eq-none_of_total q (c ∷ cs) (suc i) h = find-eq-none_of_total q cs i (omega arith)

pub read_empty : {map : DictMap} → IsTable map → map.length ≡ 0 → (q : CString) → read map q ≡ none
unfolding read
read_empty {map} t h q = find-eq-none_of_total q map.array _ (omega (arith, t.counted))

pub read-reset : (q : CString) → read reset q ≡ none
unfolding read find
read-reset q = refl

pub finish_rehash-Same :
    (d : Dict) → IsRehashing d → d.primary.length ≡ 0 → Same d (finish_rehash d)
unfolding finish_rehash view get_size
finish_rehash-Same d v h = record {
  valid = inl (record { off = refl; cleared = refl; primary = inr v.rehash });
  views = λ q. ground (arith, read_empty v.primary h q, read-reset q);
  sizes = omega arith;
  iterators = refl;
  status = refl;
  small = λ (p, q). (q, omega arith);
}
