-- ===== src/Engine/Requests.antt =====
-- Requests to the engine, and what they promise of the map from keys to values.
use xfire_db.Base.{
  ℕ, ◌^◌, ◌+◌, ◌<◌, ◌≡◌, Bool, true, false, Option, none, some, List, [], ◌∷◌, ◌++◌, if◌then◌else◌,
  length, CString, Returns, Run, ok, ◌>>=◌,
}
use xfire_db.Dict.{Config}
use xfire_db.Engine.{
  Engine, xfiredb_string_get, xfiredb_string_set, xfiredb_list_length, xfiredb_list_push,
  xfiredb_key_delete,
}
use xfire_db.Base.Int.{ℤ, pos, negsuc, int_of, int_of-lt}
use xfire_db.Engine.Items.{xfiredb_list_get, xfiredb_list_set, xfiredb_list_pop}
use xfire_db.Engine.Places.{item, put_item, drop_item}
use xfire_db.Engine.Values.{Value, text, items, Store, Represents, assign}

pub data Request : Type 0 where
  get_string : CString → Request
  set_string : CString → CString → Request
  list_length : CString → Request
  push_list : CString → CString → Bool → Request
  delete_key : CString → Request
  get_item : CString → ℕ → Request
  set_item : CString → ℕ → CString → Request
  pop_item : CString → ℕ → Request

pub data Answer : Type 0 where
  code : Bool → Answer
  got : Option CString → Answer
  counted : ℤ → Answer
  listed : Option (List CString) → Answer

-- a count that is returned as an `int`, where `none` is `-XFIREDB_ERR`
unfoldable pub as_int : Option ℕ → ℤ
as_int none = negsuc 0
as_int (some n) = int_of n

-- the reply that a count stands for
abbrev pub reply : Option ℕ → ℤ
reply none = negsuc 0
reply (some n) = pos n

pub as_int-reply : (n : ℕ) → n < 2 ^ 31 → as_int (some n) ≡ reply (some n)
unfolding as_int
as_int-reply n h = int_of-lt n h

module _ (memory : ℕ → ℕ) (cfg : Config) (level : ℕ) where
  unfoldable pub request : Request → Engine → Run (Answer × Engine)
  request (get_string k) en = do (t, en) ← xfiredb_string_get k en; ok (got t, en)
  request (set_string k t) en = do
    (done, en) ← xfiredb_string_set memory cfg level k t en
    ok (code done, en)
  request (list_length k) en = do (n, en) ← xfiredb_list_length k en; ok (counted n, en)
  request (push_list k t left) en = do
    (done, en) ← xfiredb_list_push memory cfg level k t left en
    ok (code done, en)
  request (delete_key k) en = do
    (n, en) ← xfiredb_key_delete memory cfg level k en
    ok (counted (as_int n), en)
  request (get_item k j) en = do (ts, en) ← xfiredb_list_get k (pos j ∷ []) en; ok (listed ts, en)
  request (set_item k j t) en = do
    (done, en) ← xfiredb_list_set memory cfg level k (pos j) t en
    ok (code done, en)
  request (pop_item k j) en = do
    (n, en) ← xfiredb_list_pop memory cfg level k (pos j ∷ []) en
    ok (counted (as_int n), en)

  unfoldable pub requests : List Request → Engine → Run (List Answer × Engine)
  requests [] en = ok ([], en)
  requests (r ∷ rs) en = do (a, en) ← request r en; (more, en) ← requests rs en; ok (a ∷ more, en)

-- the text under a key, and the length of its list
abbrev pub text_of : Option Value → Option CString
text_of none = none
text_of (some (text t)) = some t
text_of (some (items ts)) = none

abbrev pub length_of : Option Value → Option ℕ
length_of none = none
length_of (some (text t)) = none
length_of (some (items ts)) = some (length ts)

-- the number of entries under a key
abbrev pub entries_of : Option Value → ℕ
entries_of none = 0
entries_of (some (text t)) = 1
entries_of (some (items ts)) = length ts

-- what a text, or a push, makes of a value; `none` if it has another type
abbrev pub with_text : CString → Option Value → Option Value
with_text t none = some (text t)
with_text t (some (text u)) = some (text t)
with_text t (some (items ts)) = none

abbrev pub pushed : Bool → CString → List CString → List CString
pushed left t ts = if left then t ∷ ts else ts ++ (t ∷ [])

abbrev pub with_push : Bool → CString → Option Value → Option Value
with_push left t none = some (items (pushed left t []))
with_push left t (some (text u)) = none
with_push left t (some (items ts)) = some (items (pushed left t ts))

-- the text at a position of a list, and the list with another there
abbrev pub item_of : ℕ → Option Value → Option (List CString)
item_of j none = none
item_of j (some (text t)) = none
item_of j (some (items ts)) = some (item j ts)

abbrev pub with_item : ℕ → CString → Option Value → Option Value
with_item j t none = some (items (t ∷ []))
with_item j t (some (text u)) = none
with_item j t (some (items ts)) = some (items (put_item j t ts))

-- how many texts are taken out at a position of a list, and what is left; no list is left empty
abbrev pub taken : ℕ → Option Value → Option ℕ
taken j none = some 0
taken j (some (text t)) = none
taken j (some (items ts)) = some (length (item j ts))

abbrev pub filled : List CString → Option Value
filled [] = none
filled (t ∷ ts) = some (items (t ∷ ts))

abbrev pub without_item : CString → ℕ → Option Value → Store → Store
without_item k j none m = m
without_item k j (some (text t)) m = m
without_item k j (some (items ts)) m = assign k (filled (drop_item j ts)) m

-- a change of one key, refused for a value of another type
abbrev pub changed : CString → Option Value → Store → Answer × Store
changed k none m = (code false, m)
changed k (some v) m = (code true, assign k (some v) m)

unfoldable pub expected : Request → Store → Answer × Store
expected (get_string k) m = (got (text_of (m k)), m)
expected (set_string k t) m = changed k (with_text t (m k)) m
expected (list_length k) m = (counted (reply (length_of (m k))), m)
expected (push_list k t left) m = changed k (with_push left t (m k)) m
expected (delete_key k) m = (counted (reply (some (entries_of (m k)))), assign k none m)
expected (get_item k j) m = (listed (item_of j (m k)), m)
expected (set_item k j t) m = changed k (with_item j t (m k)) m
expected (pop_item k j) m = (counted (reply (taken j (m k))), without_item k j (m k) m)

unfoldable pub expected_all : List Request → Store → List Answer × Store
expected_all [] m = ([], m)
expected_all (r ∷ rs) m =
    let (a, m') = expected r m in let (more, m'') = expected_all rs m' in (a ∷ more, m'')

-- A run answers and changes the map as it should, with room for `n` more keys.
abbrev pub Meets : ℕ → Answer × Store → Run (Answer × Engine) → Type 0
Meets n w r = Returns r λ (a, e). (a ≡ w.0) × Represents n w.1 e

-- Every list of the map has room for `n` more texts before an `int` cannot count it.
abbrev pub Short : ℕ → Store → Type 0
Short n m = (q : CString) → entries_of (m q) + n < 2 ^ 31
