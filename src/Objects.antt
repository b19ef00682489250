-- ===== src/Objects.antt =====
-- libxfiredbengine/storage/object.c. A time stamp is a number of milliseconds below 2 ^ 63, so that the
-- difference in `time_after` does not overflow; what `xfiredb_time_stamp` returns is an argument. An
-- object's flags are a register of one word. Pointers to objects are not null.
pub mod Expiry
mod Tests
use xfire_db.Base.{
  ℕ, ◌<◌, Bool, true, false, List, [], ◌∷◌, ltb, ◌==◌, ◌||◌, if◌then◌else◌, Run, ok, ◌>>=◌,
}
use xfire_db.Bitops.{test_bit, set_bit, clear_bit}

-- `struct object`
pub record Object : Type 0 where
  pub crea : ℕ
  pub exp : ℕ
  pub flags : List ℕ

-- `OBJECT_EXPIRED_FLAG`
abbrev pub expired_flag : ℕ
expired_flag = 1

-- `time_after`
abbrev pub time_after : ℕ → ℕ → Bool
time_after a b = ltb b a

-- `object_init`
unfoldable pub object_init : ℕ → Object
object_init now = record { crea = now; exp = 0; flags = 0 ∷ [] }

-- `object_has_expired`
unfoldable pub object_has_expired : ℕ → Object → Run (Bool × Object)
object_has_expired now obj = do
  flag ← test_bit expired_flag obj.flags
  elim (flag == 0) [
    | false ↦ ok (true, obj)
    | true ↦ elim (time_after now obj.exp) [
      | false ↦ ok (false, obj)
      | true ↦ do flags ← set_bit expired_flag obj.flags; ok (true, record obj { flags = flags })
    ]
  ]

-- `object_set_expiry`; `true` is `-XFIREDB_OK`
unfoldable pub object_set_expiry : ℕ → ℕ → Object → Run (Bool × Object)
object_set_expiry now exp obj = elim (exp == 0 || time_after now exp) [
  | true ↦ ok (false, obj)
  | false ↦ do
    flags ← clear_bit expired_flag obj.flags
    ok (true, record obj { exp = exp; flags = flags })
]
