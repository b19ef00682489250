-- ===== src/Engine/Lengths.antt =====
-- Each request makes the lists of the map longer by at most one text.
use xfire_db.Base.{
  ℕ, zero, suc, ◌+◌, ◌^◌, ◌≤◌, ◌<◌, inl, inr, Bool, true, false, Option, none, some, List, [], ◌∷◌,
  length, length-append, str_eq, CString, arith, Bool-cases,
}
use xfire_db.Engine.Places.{put_item, drop_item}
use xfire_db.Engine.Requests.{
  Request, get_string, set_string, list_length, push_list, delete_key, get_item, set_item, pop_item,
  expected, changed, entries_of, with_text, with_push, with_item, without_item, filled, Short,
  pushed,
}
use xfire_db.Engine.Values.{Value, text, items, Store, assign}

module _ (n : ℕ) (m : Store) (short : Short (suc n) m) where
  pub Short-fewer : Short n m
  Short-fewer q = omega (arith, short q)

  assign-Short :
      (k : CString) (v : Option Value) → entries_of v + n < 2 ^ 31 → Short n (assign k v m)
  assign-Short k v few q = elim (Bool-cases (str_eq k q)) [
    | inl here ↦ rw here few
    | inr other ↦ rw other (Short-fewer q)
  ]

  changed-Short :
      (k : CString) (v : Option Value)
      → entries_of v ≤ entries_of (m k) + 1
      → Short n (changed k v m).1
  changed-Short k none le = Short-fewer
  changed-Short k (some v) le = assign-Short k (some v) (omega (arith, le, short k))

text-le : (t : CString) (v : Option Value) → entries_of (with_text t v) ≤ entries_of v + 1
text-le t none = omega arith
text-le t (some (text u)) = omega arith
text-le t (some (items ts)) = omega arith

pushed-le :
    (left : Bool) (t : CString) (ts : List CString) → length (pushed left t ts) ≤ length ts + 1
pushed-le true t ts = omega arith
pushed-le false t ts = omega (arith, length-append ts (t ∷ []))

push-le :
    (left : Bool) (t : CString) (v : Option Value)
    → entries_of (with_push left t v) ≤ entries_of v + 1
push-le left t none = pushed-le left t []
push-le left t (some (text u)) = omega arith
push-le left t (some (items ts)) = pushed-le left t ts

put_item-le : (j : ℕ) (t : CString) (ts : List CString) → length (put_item j t ts) ≤ length ts + 1
put_item-le j t [] = omega arith
put_item-le zero t (u ∷ us) = omega arith
put_item-le (suc j) t (u ∷ us) = omega (arith, put_item-le j t us)

item-le : (j : ℕ) (t : CString) (v : Option Value) → entries_of (with_item j t v) ≤ entries_of v + 1
item-le j t none = omega arith
item-le j t (some (text u)) = omega arith
item-le j t (some (items ts)) = put_item-le j t ts

drop_item-le : (j : ℕ) (ts : List CString) → length (drop_item j ts) ≤ length ts
drop_item-le j [] = omega arith
drop_item-le zero (t ∷ ts) = omega arith
drop_item-le (suc j) (t ∷ ts) = omega (arith, drop_item-le j ts)

entries_of-filled : (ts : List CString) → entries_of (filled ts) ≤ length ts
entries_of-filled [] = omega arith
entries_of-filled (t ∷ ts) = omega arith

without_item-Short :
    (n : ℕ) (m : Store) (k : CString) (j : ℕ) (v : Option Value)
    → Short (suc n) m
    → entries_of v + suc n < 2 ^ 31
    → Short n (without_item k j v m)
without_item-Short n m k j none short few = Short-fewer n m short
without_item-Short n m k j (some (text t)) short few = Short-fewer n m short
without_item-Short n m k j (some (items ts)) short few =
    assign-Short n m short k (filled (drop_item j ts))
      (omega (arith, few, entries_of-filled (drop_item j ts), drop_item-le j ts))

-- What a request makes of a map with room in its lists for one text more has room again.
pub expected-Short : (r : Request) (n : ℕ) (m : Store) → Short (suc n) m → Short n (expected r m).1
unfolding expected
expected-Short (get_string k) n m short = Short-fewer n m short
expected-Short (set_string k t) n m short = changed-Short n m short k _ (text-le t (m k))
expected-Short (list_length k) n m short = Short-fewer n m short
expected-Short (push_list k t left) n m short = changed-Short n m short k _ (push-le left t (m k))
expected-Short (delete_key k) n m short = assign-Short n m short k none (omega (arith, short k))
expected-Short (get_item k j) n m short = Short-fewer n m short
expected-Short (set_item k j t) n m short = changed-Short n m short k _ (item-le j t (m k))
expected-Short (pop_item k j) n m short = without_item-Short n m k j (m k) short (short k)
