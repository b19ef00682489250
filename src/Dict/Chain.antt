-- ===== src/Dict/Chain.antt =====
-- The loops of storage/dict.c along one bucket's chain.
pub mod Laws
use xfire_db.Base.{Option, none, some, [], ◌∷◌, CString, str_eq, if◌then◌else◌}
use xfire_db.Dict.{DictEntry, Chain}

-- the first entry with the key
unfoldable pub find : CString → Chain → Option DictEntry
find key [] = none
find key (e ∷ next) = if str_eq key e.key then some e else find key next

-- the chain without the first entry with the key
unfoldable pub unlink : CString → Chain → Chain
unlink key [] = []
unlink key (e ∷ next) = if str_eq key e.key then next else e ∷ unlink key next

-- a write through a pointer to the first entry with the key
unfoldable pub modify : CString → (DictEntry → DictEntry) → Chain → Chain
modify key f [] = []
modify key f (e ∷ next) = if str_eq key e.key then f e ∷ next else e ∷ modify key f next
