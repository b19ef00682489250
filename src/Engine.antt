-- ===== src/Engine.antt =====
-- The engine's functions on strings and lists in libxfiredbengine/xfiredb.c, with the parts of
-- storage/string.c, storage/list.c and storage/container.c that they use. A container stands at an
-- address of the heap, which the database holds. A list is the strings that its head's `next`
-- pointers lead through; no address is given out twice. Containers of hashmaps are not modelled, nor what
-- a container of a set holds.
pub mod Values
pub mod Items
pub mod Places
pub mod Lengths
pub mod Pops
pub mod Sets
pub mod Ends
pub mod Steps
pub mod Requests
pub mod Reads
pub mod Writes
pub mod Deletes
pub mod Clears
pub mod Sessions
mod Tests
use xfire_db.Base.{
  ℕ, zero, suc, ◌+◌, Bool, true, false, Option, none, some, List, [], ◌∷◌, ◌++◌, ◌==◌,
  if◌then◌else◌, length, CString, Run, ok, fault, ◌>>=◌,
}
use xfire_db.Bio
use xfire_db.Bio.{Bio, BioOperation, queue_add}
use xfire_db.Database.{db_store, db_delete, db_lookup}
use xfire_db.Base.Int.{ℤ, negsuc, int_of}
use xfire_db.Dict.{Dict, Config}
use xfire_db.Dict.Api

-- `struct string`; a null `str` is `none`.
pub record Str : Type 0 where
  pub str : Option CString
  pub len : ℕ

-- `string_init`
unfoldable pub string_init : Str
string_init = record { str = none; len = 0 }

-- `string_alloc`
unfoldable pub string_alloc : CString → Str
string_alloc text = record { str = some text; len = length text }

-- `string_set`, which counts the terminator
unfoldable pub string_set : CString → Str → Str
string_set str s = record { str = some str; len = length str + 1 }

-- `string_get`
unfoldable pub string_get : Str → Run CString
string_get s = elim s.str [ none ↦ fault | some str ↦ ok str ]

-- `struct container`
pub data Container : Type 0 where
  string : Str → Container
  list : List Str → Container
  set : Container

abbrev pub Heap : Type 0
Heap = ℕ → Option Container

-- The engine: `xfiredb`, the heap with the next address that it gives out, the background I/O.
pub record Engine : Type 0 where
  pub db : Dict
  pub heap : Heap
  pub next : ℕ
  pub bio : Bio

-- the engine with an empty database
unfoldable pub init : Engine
init = record { db = Api.init; heap = λ a. none; next = 1; bio = Bio.init }

-- a read through a pointer to a container
unfoldable pub deref : Engine → ℕ → Run Container
deref en a = elim (en.heap a) [ none ↦ fault | some c ↦ ok c ]

-- a write to the container at an address; `none` frees it
unfoldable pub write : ℕ → Option Container → Engine → Engine
write a c en = record en { heap = λ b. if a == b then c else en.heap b }

-- `xfiredb_zalloc` of a container
unfoldable pub alloc : Container → Engine → ℕ × Engine
alloc c en = (
  en.next,
  record en { heap = λ b. if en.next == b then some c else en.heap b; next = en.next + 1 },
)

-- `bio_queue_add` on the engine
unfoldable pub notice :
    ℕ → CString → Option CString → Option CString → BioOperation → Engine → Engine
notice level key arg newdata operation en = record en {
  bio =
      queue_add level
        (record { key = some key; arg = arg; newdata = newdata; operation = operation }) en.bio;
}

-- `db_lookup` on the engine's database
unfoldable pub find : CString → Engine → Run (Option ℕ × Engine)
find key en = do (c, db) ← db_lookup en.db key; ok (c, record en { db = db })

-- `xfiredb_string_get`; `none` is `-XFIREDB_ERR`
unfoldable pub xfiredb_string_get : CString → Engine → Run (Option CString × Engine)
xfiredb_string_get key en = do
  (p, en) ← find key en
  elim p [
    | none ↦ ok (none, en)
    | some a ↦ deref en a >>= elim [
      | string s ↦ do str ← string_get s; ok (some str, en)
      | list ss ↦ ok (none, en)
      | set ↦ ok (none, en)
    ]
  ]

-- `xfiredb_list_length`, with the list's 32-bit counter as an `int`; -1 is `-XFIREDB_ERR`
unfoldable pub xfiredb_list_length : CString → Engine → Run (ℤ × Engine)
xfiredb_list_length key en = do
  (p, en) ← find key en
  elim p [
    | none ↦ ok (negsuc 0, en)
    | some a ↦ deref en a >>= elim [
      | string s ↦ ok (negsuc 0, en)
      | list ss ↦ ok (int_of (length ss), en)
      | set ↦ ok (negsuc 0, en)
    ]
  ]

module _ (memory : ℕ → ℕ) (cfg : Config) (level : ℕ) where
  -- `db_store` on the engine's database
  unfoldable pub store : CString → ℕ → Engine → Run (Bool × Engine)
  store key c en = do (done, db) ← db_store memory cfg en.db key c; ok (done, record en { db = db })

  -- the branch of `xfiredb_string_set` for an absent key; a failed `db_store` returns its error
  -- with the container destroyed but not freed
  unfoldable pub string_add : CString → CString → Engine → Run (Bool × Engine)
  string_add key str en =
      let (a, en) = alloc (string (string_set str string_init)) en in
      store key a en >>= λ (done, en).
      if done
      then ok (true, notice level key none (some str) BioOperation.string_add en)
      else ok (false, en)

  -- `xfiredb_string_set`; `true` is `-XFIREDB_OK`
  unfoldable pub xfiredb_string_set : CString → CString → Engine → Run (Bool × Engine)
  xfiredb_string_set key str en = do
    (p, en) ← find key en
    elim p [
      | none ↦ string_add key str en
      | some a ↦ deref en a >>= elim [
        | string s ↦
            let en = write a (some (string (string_set str s))) en in
            ok (true, notice level key none (some str) BioOperation.string_update en)
        | list ss ↦ ok (false, en)
        | set ↦ ok (false, en)
      ]
    ]

  -- `list_lpush` or `list_rpush` of a new string
  unfoldable pub push : Bool → CString → List Str → List Str
  push left text ss = if left then string_alloc text ∷ ss else ss ++ (string_alloc text ∷ [])

  -- `xfiredb_list_push`; a new container is stored last, and the result of `db_store` is ignored
  unfoldable pub xfiredb_list_push : CString → CString → Bool → Engine → Run (Bool × Engine)
  xfiredb_list_push key text left en = do
    (p, en) ← find key en
    elim p [
      | none ↦
          let (a, en) = alloc (list []) en in
          let en = notice level key none (some text) BioOperation.list_add en in
          let en = write a (some (list (push left text []))) en in
          store key a en >>= λ (done, en). ok (true, en)
      | some a ↦ deref en a >>= elim [
        | string s ↦ ok (false, en)
        | list ss ↦
            let en = notice level key none (some text) BioOperation.list_add en in
            ok (true, write a (some (list (push left text ss))) en)
        | set ↦ ok (false, en)
      ]
    ]

  -- the loop of `xfiredb_key_delete` along a list, with the entries counted
  unfoldable pub delete_entries : CString → List Str → ℕ → Engine → Run (ℕ × Engine)
  delete_entries key [] rv en = ok (rv, en)
  delete_entries key (s ∷ ss) rv en = do
    str ← string_get s
    delete_entries key ss (rv + 1) (notice level key (some str) none BioOperation.list_del en)

  -- `xfiredb_key_delete` but for hashmaps; `none` is `-XFIREDB_ERR`. A set is taken out of the
  -- database, and the call fails.
  unfoldable pub xfiredb_key_delete : CString → Engine → Run (Option ℕ × Engine)
  xfiredb_key_delete key en = do
    (p, db) ← db_delete en.db key
    let en = record en { db = db }
    elim p [
      | none ↦ ok (some 0, en)
      | some a ↦ deref en a >>= elim [
        | string s ↦
            let en = notice level key none none BioOperation.string_del en in
            ok (some 1, write a none en)
        | list ss ↦ delete_entries key ss 0 en >>= λ (rv, en). ok (some rv, write a none en)
        | set ↦ ok (none, en)
      ]
    ]

  -- the loop of `xfiredb_list_clear`, with the texts that it hands to the hook
  unfoldable pub clear_entries : CString → List Str → Engine → Run (List CString × Engine)
  clear_entries key [] en = ok ([], en)
  clear_entries key (s ∷ ss) en = do
    str ← string_get s
    (hooked, en) ← clear_entries key ss (notice level key (some str) none BioOperation.list_del en)
    ok (str ∷ hooked, en)

  -- `xfiredb_list_clear`; `none` is `-XFIREDB_ERR`. The container is freed, but stays in the database.
  unfoldable pub xfiredb_list_clear : CString → Engine → Run (Option (List CString) × Engine)
  xfiredb_list_clear key en = do
    (p, en) ← find key en
    elim p [
      | none ↦ ok (none, en)
      | some a ↦ deref en a >>= elim [
        | string s ↦ ok (none, en)
        | list ss ↦ clear_entries key ss en >>= λ (hooked, en). ok (some hooked, write a none en)
        | set ↦ ok (none, en)
      ]
    ]
