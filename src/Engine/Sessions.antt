-- ===== src/Engine/Sessions.antt =====
-- Every sequence of requests refines the map from keys to values.
use xfire_db.Base.{
  ℕ, suc, ◌^◌, ◌<◌, ◌≡◌, refl, none, List, [], ◌∷◌, length, CString, Returns, arith,
}
use xfire_db.Dict.Api
use xfire_db.Dict.Api.Clears
use xfire_db.Database.Pointers.{pointer}
use xfire_db.Dict.{Config}
use xfire_db.Engine.{Engine, init}
use xfire_db.Engine.Values.{Store, nowhere, Represents}
use xfire_db.Engine.Requests.{
  Request, get_string, set_string, list_length, push_list, delete_key, get_item, set_item, pop_item,
  request, requests, expected, expected_all, Meets, Short,
}
use xfire_db.Engine.Lengths.{expected-Short}
use xfire_db.Engine.Reads.{get_string-Meets, list_length-Meets}
use xfire_db.Engine.Writes.{set_string-Meets, push_list-Meets}
use xfire_db.Engine.Deletes.{delete_key-Meets}
use xfire_db.Engine.Sets.{get_item-Meets, set_item-Meets}
use xfire_db.Engine.Pops.{pop_item-Meets}

-- An engine with an empty database stands for the empty map, with room for fewer than 2 ^ 30 keys.
pub init-Represents : (n : ℕ) → n < 2 ^ 30 → Represents n (λ q. none) init
unfolding init
init-Represents n small = record {
  valid = Clears.init-IsValid.0;
  room = omega (arith, Clears.init-IsValid.2, small);
  small = Clears.init-IsSmall;
  behind = λ q. rw (empty q) nowhere;
  apart = λ q r a e f. ground (arith, empty q, e);
}
  where
    empty : (q : CString) → pointer Api.init q ≡ none
    empty q = unfold pointer in rw (Clears.init-IsValid.1 q) refl

module _ (memory : ℕ → ℕ) (cfg : Config) (level : ℕ) where
  request-Meets :
      (r : Request) {n : ℕ} {m : Store} {en : Engine}
      → Represents (suc n) m en
      → Short (suc n) m
      → Meets n (expected r m) (request memory cfg level r en)
  request-Meets (get_string k) h short = get_string-Meets memory cfg level h k
  request-Meets (set_string k t) h short = set_string-Meets memory cfg level h k t
  request-Meets (list_length k) h short = list_length-Meets memory cfg level h k short
  request-Meets (push_list k t left) h short = push_list-Meets memory cfg level h k t left
  request-Meets (delete_key k) h short = delete_key-Meets memory cfg level h k short
  request-Meets (get_item k j) h short = get_item-Meets memory cfg level h k j
  request-Meets (set_item k j t) h short = set_item-Meets memory cfg level h k j t
  request-Meets (pop_item k j) h short = pop_item-Meets memory cfg level h k j

  -- In an engine that stands for a map, with room for a key more and a text more in each list for each
  -- of a sequence of requests (fewer than 2 ^ 30 keys, at most 2 ^ 31 buckets in each map of its
  -- dictionary, fewer than 2 ^ 31 texts in a list), the requests do not fault. They answer as the map promises, and leave an engine that stands for
  -- the promised map: setting and pushing change one key, unless its value has another type, a
  -- deletion counts the entries under its key, and reading changes nothing. At one position that is
  -- not negative, a list's text is read, replaced (behind the end it is appended) or taken out, and a
  -- list that becomes empty is taken out of the map.
  pub requests-expected_all :
      (rs : List Request) (m : Store) (en : Engine)
      → Represents (length rs) m en
      → Short (length rs) m
      → Returns
          (requests memory cfg level rs en)
          λ (answers, e). (answers ≡ (expected_all rs m).0) × Represents 0 (expected_all rs m).1 e
  unfolding requests expected_all
  requests-expected_all [] m en h short = (([], en), refl, (refl, h))
  requests-expected_all (r ∷ rs) m en h short =
      let ((a, e), run, (same, h')) = request-Meets r h short in
      let ((more, f), run', (same', h'')) =
        requests-expected_all rs (expected r m).1 e h' (expected-Short r (length rs) m short) in
      ((a ∷ more, f), rw (run, run'), (rw (same, same'), h''))
