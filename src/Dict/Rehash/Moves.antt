-- ===== src/Dict/Rehash/Moves.antt =====
-- One bucket of the primary map moved to the rehash map.
use xfire_db.Base.{
  ℕ, ◌+◌, ◌-◌, ◌≤◌, ◌<◌, ◌≡◌, refl, none, [], ◌∷◌, arith, or_else, length, at-get_or, Returns,
  CString, str_eq_iff,
}
use xfire_db.Dict.{Chain, DictMap}
use xfire_db.Dict.Chain.{find}
use xfire_db.Dict.Chain.Laws.{occurs, find-eq-none}
use xfire_db.Dict.Rehash.{slot, move_chain}
use xfire_db.Dict.Table.{IsTable, read, slot-lt}
use xfire_db.Dict.Table.Entries.{consed, consed-IsTable, read-consed}

-- what the moves of a chain make of a table
pub record Moved (c : Chain) (map : DictMap) (left : ℕ) (r : DictMap × ℕ) : Type 0 where
  pub table : IsTable r.0
  pub same_size : r.0.size ≡ map.size
  pub grown : r.0.length ≡ map.length + length c
  pub left_over : r.1 + length c ≡ left
  pub reads : (q : CString) → read r.0 q ≡ or_else (find q c) (read map q)

pub move_chain-Moved :
    (c : Chain) (map : DictMap) (left : ℕ)
    → IsTable map
    → ((q : CString) → occurs q c ≤ 1)
    → ((q : CString) → 0 < occurs q c → read map q ≡ none)
    → length c ≤ left
    → Returns (move_chain c map left) (Moved c map left)
unfolding move_chain find occurs
move_chain-Moved [] map left t once absent few = (
  (map, left),
  refl,
  record {
    table = t;
    same_size = refl;
    grown = omega arith;
    left_over = omega arith;
    reads = λ q. refl;
  },
)
move_chain-Moved (e ∷ c) map left t once absent few =
    let here : read map e.key ≡ none = absent e.key (ground (arith, str_eq_iff e.key e.key)) in
    let t' = consed-IsTable t e here in
    let reads' = read-consed t e here in
    let (r, run, m) =
      move_chain-Moved c (consed t e here) (left - 1) t' (λ q. omega (arith, once q))
        (λ q h.
          rw (reads' q) (ground (arith, once q, absent q, str_eq_iff e.key q, str_eq_iff q e.key)))
        (omega arith) in
    (
      r,
      rw (at-get_or map.array (slot map e.key) [] (slot-lt t e.key)) run,
      record {
        table = m.table;
        same_size = m.same_size;
        grown = omega (arith, m.grown);
        left_over = omega (arith, m.left_over);
        reads = λ q. ground (
          arith,
          m.reads q,
          reads' q,
          once q,
          find-eq-none q c,
          str_eq_iff e.key q,
          str_eq_iff q e.key,
        );
      },
    )
