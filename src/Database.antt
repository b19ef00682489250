-- ===== src/Database.antt =====
-- libxfiredbengine/storage/database.c: a database maps keys to the addresses of containers, in a
-- dictionary. Its name carries no behaviour.
pub mod Pointers
use xfire_db.Base.{ℕ, Bool, true, false, Option, none, some, ◌^◌, CString, Run, ok, ◌>>=◌}
use xfire_db.Dict.{DictType, Dict, Config}
use xfire_db.Dict.Api
use xfire_db.Dict.Api.{missing, freed, written}

module _ (memory : ℕ → ℕ) (cfg : Config) where
  -- `db_update`
  unfoldable pub db_update : Dict → CString → ℕ → Run (Bool × Dict)
  db_update db key c = Api.update memory cfg db key c DictType.dict_ptr

  -- `db_store`
  unfoldable pub db_store : Dict → CString → ℕ → Run (Bool × Dict)
  db_store db key c = Api.add memory cfg db key c DictType.dict_ptr

-- `db_delete`; the address that it writes to `*data`, if the deletion succeeds
unfoldable pub db_delete : Dict → CString → Run (Option ℕ × Dict)
db_delete db key = do
  (r, db) ← Api.delete db (some key) false
  elim r [ missing ↦ ok (none, db) | freed c ↦ ok (some c, db) | written c ↦ ok (some c, db) ]

-- `db_lookup`
unfoldable pub db_lookup : Dict → CString → Run (Option ℕ × Dict)
db_lookup db key = do
  (r, db) ← Api.lookup db (some key)
  elim r [ none ↦ ok (none, db) | some (c, size) ↦ ok (some c, db) ]
