-- ===== src/Dict/Table/Writes.antt =====
-- A write to one bucket of a table.
use xfire_db.Base.{
  ℕ, zero, suc, ◌+◌, ◌≤◌, ◌<◌, ◌≡◌, ◌≢◌, List, [], ◌∷◌, arith, ◌==◌, if◌then◌else◌, length, get_or,
  set, length-set, get_or-set_self, get_or-set_ne, CString,
}
use xfire_db.Dict.{Chain, DictMap}
use xfire_db.Dict.Chain.{find}
use xfire_db.Dict.Chain.Laws.{occurs}
use xfire_db.Dict.Rehash.{slot}
use xfire_db.Dict.Table.{bucket, total, IsTable, read}

pub total-set :
    (cs : List Chain) (i : ℕ) (c : Chain)
    → i < length cs
    → total (set cs i c) + length (get_or cs i []) ≡ total cs + length c
total-set [] i c h = absurd (omega arith)
total-set (x ∷ cs) zero c h = omega arith
total-set (x ∷ cs) (suc i) c h = omega (arith, total-set cs i c (omega arith))

abbrev pub put : DictMap → ℕ → Chain → ℕ → DictMap
put map i c n = record map { array = set map.array i c; length = n }

module _ {map : DictMap} (t : IsTable map) {i : ℕ} (inside : i < length map.array) (c : Chain)
    (n : ℕ) where
  pub bucket-put : (j : ℕ) → bucket (put map i c n) j ≡ (if i == j then c else bucket map j)
  bucket-put j = ground (arith, get_or-set_self map.array i c [], get_or-set_ne map.array i j c [])

  pub put-IsTable :
      n + length (bucket map i) ≡ map.length + length c
      → ((q : CString) → occurs q c ≤ 1)
      → ((q : CString) → slot map q ≢ i → occurs q c ≡ 0)
      → IsTable (put map i c n)
  unfolding slot
  put-IsTable count once home = record {
    sized = omega (arith, length-set map.array i c, t.sized);
    masked = t.masked;
    counted = omega (arith, total-set map.array i c inside, t.counted);
    once = λ q j. rw (bucket-put j) (ground (arith, once q, t.once q j));
    placed = λ q j ne. rw (bucket-put j) (ground (arith, home q, t.placed q j));
  }

  pub read-put :
      (q : CString) → read (put map i c n) q ≡ (if i == slot map q then find q c else read map q)
  unfolding read slot
  read-put q = rw (bucket-put (slot map q)) (ground arith)
