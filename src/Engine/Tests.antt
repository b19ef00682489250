-- ===== src/Engine/Tests.antt =====
-- A run of requests, and the theorem on it.
use xfire_db.Base.{
  ℕ, ◌≡◌, refl, true, false, none, some, List, [], ◌∷◌, Returns, fault, arith, str_eq,
}
use xfire_db.Dict.{Config}
use xfire_db.Engine.{init, xfiredb_list_clear, xfiredb_list_length}
use xfire_db.Base.Int.{pos, negsuc}
use xfire_db.Engine.Ends.{negative_indices}
use xfire_db.Engine.Items.{xfiredb_list_get, xfiredb_list_pop}
use xfire_db.Engine.Values.{items, Represents, Represents-Stands}
use xfire_db.Engine.Requests.{
  Request, get_string, set_string, list_length, push_list, delete_key, get_item, set_item, pop_item,
  requests, expected, expected_all,
}
use xfire_db.Engine.Clears.{xfiredb_list_clear-dangling}
use xfire_db.Engine.Sessions.{init-Represents, requests-expected_all}

abbrev memory : ℕ → ℕ
memory a = a

abbrev config : Config
config = record { resize_ratio = 5; can_expand = true }

abbrev several : List Request
several =
    set_string (b'k' ∷ []) (b'v' ∷ [])
    ∷ push_list (b'l' ∷ []) (b'x' ∷ []) true
    ∷ push_list (b'l' ∷ []) (b'y' ∷ []) false
    ∷ push_list (b'k' ∷ []) (b'y' ∷ []) false
    ∷ list_length (b'l' ∷ [])
    ∷ get_string (b'k' ∷ [])
    ∷ set_item (b'l' ∷ []) 1 (b'z' ∷ [])
    ∷ set_item (b'l' ∷ []) 7 (b'u' ∷ [])
    ∷ get_item (b'l' ∷ []) 2
    ∷ pop_item (b'l' ∷ []) 0
    ∷ pop_item (b'l' ∷ []) 0
    ∷ delete_key (b'l' ∷ [])
    ∷ []

requests-expected_all_example : Returns (requests memory config 0 several init) λ (answers, e).
    (answers ≡ (expected_all several (λ q. none)).0)
    × Represents 0 (expected_all several (λ q. none)).1 e
requests-expected_all_example =
    requests-expected_all memory config 0 several (λ q. none) init
      (init-Represents 12 (omega arith)) (λ q. omega arith)

abbrev two_pushes : List Request
two_pushes = push_list (b'l' ∷ []) (b'x' ∷ []) true ∷ push_list (b'l' ∷ []) (b'y' ∷ []) false ∷ []

-- an engine with a list of two texts
filled : Returns (requests memory config 0 two_pushes init) λ (answers, e).
    (answers ≡ (expected_all two_pushes (λ q. none)).0)
    × Represents 0 (expected_all two_pushes (λ q. none)).1 e
filled =
    requests-expected_all memory config 0 two_pushes (λ q. none) init
      (init-Represents 2 (omega arith)) (λ q. omega arith)

two_texts :
    (expected_all two_pushes (λ q. none)).1 (b'l' ∷ [])
    ≡ some (items ((b'x' ∷ []) ∷ (b'y' ∷ []) ∷ []))
unfolding expected_all expected str_eq
two_texts = refl

xfiredb_list_clear-dangling_example :
    Returns (xfiredb_list_clear memory config 0 (b'l' ∷ []) filled.0.1) λ (r, e).
      (r ≡ some ((b'x' ∷ []) ∷ (b'y' ∷ []) ∷ [])) × (xfiredb_list_length (b'l' ∷ []) e ≡ fault)
xfiredb_list_clear-dangling_example =
    xfiredb_list_clear-dangling memory config 0 (expected_all two_pushes (λ q. none)).1 filled.0.1
      (b'l' ∷ []) ((b'x' ∷ []) ∷ (b'y' ∷ []) ∷ []) (Represents-Stands filled.2.1) two_texts

negative_indices_example :
    (xfiredb_list_get (b'l' ∷ []) (negsuc 0 ∷ []) filled.0.1
      ≡ xfiredb_list_get (b'l' ∷ []) (pos 1 ∷ []) filled.0.1)
    × (xfiredb_list_pop memory config 0 (b'l' ∷ []) (negsuc 0 ∷ []) filled.0.1
        ≡ xfiredb_list_pop memory config 0 (b'l' ∷ []) (pos 1 ∷ []) filled.0.1)
negative_indices_example =
    negative_indices memory config 0 (b'l' ∷ []) ((b'x' ∷ []) ∷ (b'y' ∷ []) ∷ []) 0
      (Represents-Stands filled.2.1) two_texts (omega arith)
