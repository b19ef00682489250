-- ===== src/Engine/Values.antt =====
-- What the engine's containers stand for, and when an engine stands for a map from keys to values.
use xfire_db.Base.{
  ℕ, ◌+◌, ◌^◌, ◌<◌, ◌≡◌, Option, none, some, List, [], ◌∷◌, if◌then◌else◌, str_eq, CString,
}
use xfire_db.Database.Pointers.{pointer}
use xfire_db.Dict.Api.{get_size}
use xfire_db.Dict.Valid.{IsValid, IsSmall}
use xfire_db.Engine.{Str, Container, string, list, Engine}

-- A value of the database: a text, or a list of texts.
pub data Value : Type 0 where
  text : CString → Value
  items : List CString → Value

abbrev pub Store : Type 0
Store = CString → Option Value

-- The strings hold the texts.
pub data Texts : List Str → List CString → Type 0 where
  no_texts : Texts [] []
  one_more :
      {t : CString} {n : ℕ} {ss : List Str} {ts : List CString}
      → Texts ss ts
      → Texts (record { str = some t; len = n } ∷ ss) (t ∷ ts)

-- The container holds the value.
pub data Denotes : Container → Value → Type 0 where
  denotes_text :
      {t : CString} {n : ℕ} → Denotes (string (record { str = some t; len = n })) (text t)
  denotes_items : {ss : List Str} {ts : List CString} → Texts ss ts → Denotes (list ss) (items ts)

-- What the heap holds behind a pointer.
pub data Behind (heap : ℕ → Option Container) (next : ℕ) : Option ℕ → Option Value → Type 0 where
  nowhere : Behind heap next none none
  there :
      {a : ℕ} {c : Container} {v : Value}
      → a < next
      → heap a ≡ some c
      → Denotes c v
      → Behind heap next (some a) (some v)

-- The engine stands for the map `m`. No container stands under two keys.
pub record Stands (m : Store) (en : Engine) : Type 0 where
  pub valid : IsValid en.db
  pub behind : (q : CString) → Behind en.heap en.next (pointer en.db q) (m q)
  pub apart : (q r : CString) (a : ℕ) → pointer en.db q ≡ some a → pointer en.db r ≡ some a → q ≡ r

-- The engine stands for the map `m`, its dictionary is small, and has room for `n` more keys.
pub record Represents (n : ℕ) (m : Store) (en : Engine) : Type 0 where
  pub valid : IsValid en.db
  pub room : get_size en.db + n < 2 ^ 30
  pub small : IsSmall en.db
  pub behind : (q : CString) → Behind en.heap en.next (pointer en.db q) (m q)
  pub apart : (q r : CString) (a : ℕ) → pointer en.db q ≡ some a → pointer en.db r ≡ some a → q ≡ r

pub Represents-Stands : {n : ℕ} {m : Store} {en : Engine} → Represents n m en → Stands m en
Represents-Stands h = record { valid = h.valid; behind = h.behind; apart = h.apart }

abbrev pub assign : CString → Option Value → Store → Store
assign k v m q = if str_eq k q then v else m q
