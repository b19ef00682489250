-- ===== src/Engine/Items.antt =====
-- `xfiredb_list_get`, `xfiredb_list_set` and `xfiredb_list_pop` of libxfiredbengine/xfiredb.c. An array of
-- indices is the list of those that the loop has not found yet, and `num` is its length.
use xfire_db.Base.{
  ℕ, ◌+◌, ◌-◌, Bool, true, false, Option, none, some, List, [], ◌∷◌, ◌++◌, ◌==◌, leb, if◌then◌else◌,
  length, CString, Run, ok, fault, ◌>>=◌,
}
use xfire_db.Base.Int.{ℤ, pos, negsuc, add_ℕ, is_negative}
use xfire_db.Bio.{BioOperation}
use xfire_db.Database.{db_delete}
use xfire_db.Dict.{Config}
use xfire_db.Engine.{
  Str, string, list, set, Engine, deref, write, notice, find, string_get, string_set, string_alloc,
  xfiredb_list_push,
}

-- a negative index counts from the end
unfoldable pub wrap : ℤ → ℕ → ℤ
wrap j n = if is_negative j then add_ℕ j n else j

-- `idx == i`
unfoldable pub is_at : ℤ → ℕ → Bool
is_at (pos j) i = j == i
is_at (negsuc j) i = false

-- the loop of `xfiredb_list_get`, and the texts that it finds
unfoldable pub get_items : ℕ → List Str → ℕ → List ℤ → Run (List CString)
get_items n [] i idx = ok []
get_items n (s ∷ ss) i [] = fault
get_items n (s ∷ ss) i (j ∷ js) = elim (is_at (wrap j n) i) [
  | false ↦ get_items n ss (i + 1) (wrap j n ∷ js)
  | true ↦ do
    str ← string_get s
    elim js [
      | [] ↦ ok (str ∷ [])
      | j ∷ js ↦ do rest ← get_items n ss (i + 1) (j ∷ js); ok (str ∷ rest)
    ]
]

-- `xfiredb_list_get`; `none` is `-XFIREDB_ERR`
unfoldable pub xfiredb_list_get : CString → List ℤ → Engine → Run (Option (List CString) × Engine)
xfiredb_list_get key idx en = do
  (p, en) ← find key en
  elim p [
    | none ↦ ok (none, en)
    | some a ↦ deref en a >>= elim [
      | string s ↦ ok (none, en)
      | list ss ↦ do data' ← get_items (length ss) ss 0 idx; ok (some data', en)
      | set ↦ ok (none, en)
    ]
  ]

module _ (memory : ℕ → ℕ) (cfg : Config) (level : ℕ) where
  -- the loop of `xfiredb_list_set` in a list of `n` strings: its result, and the strings from the
  -- `i`-th on
  unfoldable pub set_items :
      CString → ℤ → CString → ℕ → ℕ → List Str → Engine → Run (Bool × List Str × Engine)
  set_items key idx text n i [] en = ok (false, [], en)
  set_items key idx text n i (s ∷ ss) en = elim (is_at idx i) [
    | true ↦ do
      str ← string_get s
      ok (
        true,
        string_set text s ∷ ss,
        notice level key (some str) (some text) BioOperation.list_update en,
      )
    | false ↦ elim (leb n (i + 1)) [
      | true ↦ ok (true, s ∷ (ss ++ (string_alloc text ∷ [])), en)
      | false ↦ do
        (done, rest, en) ← set_items key idx text n (i + 1) ss en
        ok (done, s ∷ rest, en)
    ]
  ]

  -- `xfiredb_list_set`; `true` is `-XFIREDB_OK`. A text behind the end is not queued for the disk.
  unfoldable pub xfiredb_list_set : CString → ℤ → CString → Engine → Run (Bool × Engine)
  xfiredb_list_set key idx text en = do
    (p, en) ← find key en
    elim p [
      | none ↦ xfiredb_list_push memory cfg level key text false en
      | some a ↦ deref en a >>= elim [
        | string s ↦ ok (false, en)
        | list ss ↦
            if length ss == 0
            then ok (
              true,
              notice level key none (some text) BioOperation.list_add
                  (write a (some (list (string_alloc text ∷ []))) en),
            )
            else do
              (done, ss, en) ← set_items key idx text (length ss) 0 ss en
              ok (done, write a (some (list ss)) en)
        | set ↦ ok (false, en)
      ]
    ]

  -- the loop of `xfiredb_list_pop` in a list that has `n` strings now, of which it has `counter`
  -- deleted before: the strings that stay from the `i`-th on
  unfoldable pub pop_items :
      CString → ℕ → List Str → ℕ → List ℤ → ℕ → Engine → Run (List Str × ℕ × Engine)
  pop_items key n [] i idx counter en = ok ([], counter, en)
  pop_items key n (s ∷ ss) i [] counter en = fault
  pop_items key n (s ∷ ss) i (j ∷ js) counter en = elim (is_at (wrap j n) i) [
    | false ↦ do
      (rest, counter, en) ← pop_items key n ss (i + 1) (wrap j n ∷ js) counter en
      ok (s ∷ rest, counter, en)
    | true ↦ do
      str ← string_get s
      let en = notice level key (some str) none BioOperation.list_del en
      elim js [
        | [] ↦ ok (ss, counter + 1, en)
        | j ∷ js ↦ pop_items key (n - 1) ss (i + 1) (j ∷ js) (counter + 1) en
      ]
  ]

  -- the branch of `xfiredb_list_pop` for a list that is empty now
  unfoldable pub drop_list : CString → ℕ → ℕ → Engine → Run (Option ℕ × Engine)
  drop_list key a counter en = do
    (p, db) ← db_delete en.db key
    let en = record en { db = db }
    elim p [ none ↦ ok (some counter, en) | some b ↦ ok (some counter, write a none en) ]

  -- `xfiredb_list_pop`; `none` is `-XFIREDB_ERR`
  unfoldable pub xfiredb_list_pop : CString → List ℤ → Engine → Run (Option ℕ × Engine)
  xfiredb_list_pop key idx en = do
    (p, en) ← find key en
    elim p [
      | none ↦ ok (some 0, en)
      | some a ↦ deref en a >>= elim [
        | string s ↦ ok (none, en)
        | list ss ↦ do
          (rest, counter, en) ← pop_items key (length ss) ss 0 idx 0 en
          let en = write a (some (list rest)) en
          elim (length rest == 0) [
            | true ↦ drop_list key a counter en
            | false ↦ ok (some counter, en)
          ]
        | set ↦ ok (none, en)
      ]
    ]
