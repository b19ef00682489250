-- ===== src/Dict/Tests.antt =====
-- Runs of the dictionary, and its theorems at concrete inputs.
use xfire_db.Base.{
  ℕ, ◌+◌, ◌*◌, ◌^◌, ◌<◌, ◌≡◌, refl, sym, ap, ◌∙◌, inl, inr, length, Returns, not, is_some, or_else,
  ◌≤◌, fault, true, false, none, some, List, [], ◌∷◌, ◌++◌, arith, CString, str_eq, Run, ok, ◌>>=◌,
}
use xfire_db.Base.Int.{int_of}
use xfire_db.Dict.{DictType, DictStatus, DictEntry, Dict, Config}
use xfire_db.Dict.Valid.{IsSmall, IsValid, IsRehashing, Same, view, IsIdle}
use xfire_db.Dict.Api.Clears.{init-IsValid, init-IsSmall, entries, clear-entries}
use xfire_db.Dict.Api.Stores.{word, revalue, fresh, raw_add-Update}
use xfire_db.Dict.Api.Changes.{raw_update-Update}
use xfire_db.Dict.Api.Reads.{contents, deletion, lookup-view, key_available-view, delete-Update}
use xfire_db.Dict.Entries.Updates.{Update}
use xfire_db.Dict.Rehash.Laws.{rehash-Rehashed, rehash-Advanced}
use xfire_db.Dict.Rehash.Loop.{Rehashed, Worked}
use xfire_db.Dict.Worker.{rehash_ms}
use xfire_db.Dict.Worker.Ends.{Returned, rehash_ms-Same, rehash_ms-stuck}
use xfire_db.Dict.Size.Powers.{real_size-power}
use mathlib.Core.Option
use xfire_db.Dict.Session.Holding.{store}
use xfire_db.Dict.Session.Refines.{calls-expected_all}
use xfire_db.Dict.Api.{
  init, add, raw_add, update, raw_update, delete, lookup, key_available, clear, get_size, set_val,
  store_val, get_entry_length, write_entry, free_chain, clear_loop, clear_map,
}
use xfire_db.Dict.Chain.{find, unlink, modify}
use xfire_db.Dict.Entries.{
  prepare, search_map, choose_index, calc_index, insert_entry, insert_at, is_error, add_locked,
  add_entry, delete_in, delete_locked, delete_entry, lookup_locked, lookup_entry,
}
use xfire_db.Dict.Expand.{is_null, new_map, expand, should_expand, expand_if}
use xfire_db.Dict.Hash.{hash_key}
use xfire_db.Dict.Iterator
use xfire_db.Dict.Rehash.{
  slot, move_chain, skip_empty, finish_bucket, finish_rehash, rehash_round, rehash_loop, rehash,
  has_iterators, rehash_step,
}
use xfire_db.Dict.Session.{Call, call_add, call_delete, Reply, call, calls, expected_all}
use xfire_db.Dict.Size.{smear_by, smear, real_size}

-- all the code of a session
program : Unit {0}
unfolding str_eq init add raw_add update raw_update delete lookup clear get_size set_val store_val
    get_entry_length write_entry free_chain clear_loop clear_map find unlink modify prepare
    search_map choose_index calc_index insert_entry insert_at add_locked add_entry delete_in
    delete_locked delete_entry lookup_locked lookup_entry is_null new_map expand should_expand
    expand_if hash_key Iterator.create Iterator.get_safe Iterator.free slot move_chain skip_empty
    finish_bucket finish_rehash is_error int_of rehash_round rehash_loop rehash has_iterators
    rehash_step call calls smear_by smear real_size
program = tt

abbrev memory : ℕ → ℕ
memory a = a + 1

abbrev config : Config
config = record { resize_ratio = 5; can_expand = true }

abbrev key : ℕ → CString
key c = c ∷ []

-- five additions: the fifth starts the growth to eight buckets
abbrev five : List Call
five =
    call_add (key b'a') 1 DictType.dict_ptr
    ∷ call_add (key b'b') 2 DictType.dict_u64
    ∷ call_add (key b'c') 3 DictType.dict_ptr
    ∷ call_add (key b'd') 4 DictType.dict_ptr
    ∷ call_add (key b'e') 5 DictType.dict_ptr
    ∷ []

replies_of : Run (List Reply × Dict) → Run (List Reply)
replies_of r = do (rs, d) ← r; ok rs

dict_of : Run (List Reply × Dict) → Run Dict
dict_of r = do (rs, d) ← r; ok d

-- two deletions that leave the primary map empty while the dictionary rehashes
abbrev seven : List Call
seven = five ++ (call_delete (key b'd') false ∷ call_delete (key b'b') false ∷ [])

after : Run Dict
unfolding program dict_of
after = dict_of (calls memory config seven init)

after_five : Run Dict
unfolding program dict_of
after_five = dict_of (calls memory config five init)

-- what holds of a run's value holds of the value it has
result_of : {A : Type 0} {r : Run A} {P : A → Type 0} {a : A} → Returns r P → r ≡ ok a → P a
result_of {A} {r} {P} {a} (b, run, p) e = rw (at_value (sym run ∙ e)) at p
  where
    value : A → Run A → A
    value x (ok y) = y
    value x fault = x

    at_value : ok b ≡ ok a → b ≡ a
    at_value q = ap (value a) q

init-store : (q : CString) → store init q ≡ none
unfolding store
init-store q = rw (init-IsValid.1 q) refl

calls-expected_all_example : Returns (calls memory config seven init) λ (rs, e).
    (rs ≡ (expected_all memory seven (λ q. none)).0)
    × IsValid e
    × IsSmall e
    × ((q : CString) → store e q ≡ (expected_all memory seven (λ q. none)).1 q)
calls-expected_all_example =
    calls-expected_all memory config seven (λ q. none) init init-IsValid.0 init-IsSmall init-store
      (omega (arith, init-IsValid.2))

abbrev entry : ℕ → ℕ → DictEntry
entry c value = record { key = key c; value = value; length = 8; type = DictType.dict_ptr }

-- The dictionary behind `five`, in the middle of its growth.
abbrev growing : Dict
growing = record {
  primary = record {
    array =
        (entry b'c' 3 ∷ []) ∷ (entry b'a' 1 ∷ []) ∷ [] ∷ (entry b'd' 4 ∷ entry b'b' 3 ∷ []) ∷ [];
    size = 4;
    sizemask = 3;
    length = 4;
  };
  rehash = record {
    array = [] ∷ [] ∷ [] ∷ [] ∷ [] ∷ [] ∷ (entry b'e' 5 ∷ []) ∷ [] ∷ [];
    size = 8;
    sizemask = 7;
    length = 1;
  };
  status = DictStatus.status_none;
  rehashidx = 0;
  rehashing = true;
  iterators = 0;
}

-- The dictionary behind `seven`: rehashing, with an empty primary map.
abbrev stuck : Dict
stuck = record {
  primary = record { array = [] ∷ [] ∷ [] ∷ [] ∷ []; size = 4; sizemask = 3; length = 0 };
  rehash = record {
    array =
        (entry b'c' 3 ∷ [])
        ∷ (entry b'a' 1 ∷ [])
        ∷ []
        ∷ []
        ∷ []
        ∷ []
        ∷ (entry b'e' 5 ∷ [])
        ∷ []
        ∷ [];
    size = 8;
    sizemask = 7;
    length = 3;
  };
  status = DictStatus.status_none;
  rehashidx = 2;
  rehashing = true;
  iterators = 0;
}

calls-five : dict_of (calls memory config five init) ≡ ok growing
unfolding program dict_of
calls-five = refl

calls-seven : dict_of (calls memory config seven init) ≡ ok stuck
unfolding program dict_of
calls-seven = refl

-- the sessions above leave valid dictionaries
session-IsValid :
    (cs : List Call) (d : Dict)
    → length cs < 100
    → dict_of (calls memory config cs init) ≡ ok d
    → IsValid d
session-IsValid cs d few e =
    let ((rs, f), run, (same, v, small, h)) =
      calls-expected_all memory config cs (λ q. none) init init-IsValid.0 init-IsSmall init-store
        (omega (arith, init-IsValid.2)) in
    result_of {r = dict_of (calls memory config cs init)} {P = IsValid} {a = d}
      (f, unfold dict_of in rw run, v) e

growing-IsRehashing : IsRehashing growing
growing-IsRehashing = elim (session-IsValid five growing (omega arith) calls-five) [
  | inl v ↦ absurd (ground (arith, v.off))
  | inr v ↦ v
]

growing_few : get_size growing < 2 ^ 30
unfolding get_size
growing_few = omega arith

raw_add-Update_example :
    Returns (raw_add memory config growing (key b'a') 6 DictType.dict_u64 8) λ (done, e).
      (done ≡ not (is_some (view growing (key b'a'))))
      × Update
          (key b'a')
          (or_else
            (view growing (key b'a'))
            (some (fresh (key b'a') (word memory 6 DictType.dict_u64) 8)))
          growing
          e
raw_add-Update_example =
    raw_add-Update memory config 6 DictType.dict_u64 8 growing (key b'a') (inr growing-IsRehashing)
      (omega arith, omega arith) growing_few

raw_update-Update_example :
    Returns (raw_update memory config growing (key b'a') 6 DictType.dict_u64 5) λ (done, e).
      (done ≡ true)
      × Update
          (key b'a')
          (or_else
            (Option.map (revalue (word memory 6 DictType.dict_u64) 5) (view growing (key b'a')))
            (some (
              fresh
                (key b'a')
                (word memory 6 DictType.dict_u64)
                (get_entry_length DictType.dict_u64))))
          growing
          e
raw_update-Update_example =
    raw_update-Update memory config 6 DictType.dict_u64 5 growing (key b'a')
      (inr growing-IsRehashing) (omega arith, omega arith) growing_few

lookup-view_example :
    Returns
      (lookup growing (some (key b'e')))
      λ (r, e). (r ≡ Option.map contents (view growing (key b'e'))) × Same growing e
lookup-view_example = lookup-view growing (key b'e') (inr growing-IsRehashing)

key_available-view_example :
    Returns
      (key_available growing (some (key b'z')))
      λ (r, e). (r ≡ is_some (view growing (key b'z'))) × Same growing e
key_available-view_example = key_available-view growing (key b'z') (inr growing-IsRehashing)

delete-Update_example :
    Returns
      (delete growing (some (key b'd')) true)
      λ (r, e). (r ≡ deletion true (view growing (key b'd'))) × Update (key b'd') none growing e
delete-Update_example = delete-Update growing (key b'd') true (inr growing-IsRehashing)

rehash-Rehashed_example : Returns (rehash growing 3) (Rehashed growing)
rehash-Rehashed_example = rehash-Rehashed growing 3 (inr growing-IsRehashing)

rehash-Advanced_example : Returns (rehash growing 2) (Worked 1 growing)
rehash-Advanced_example = rehash-Advanced growing 1 growing-IsRehashing (omega arith)

rehash_ms-Same_example : Returns (rehash_ms (λ i. false) 5 growing) (Returned (λ i. false) growing)
rehash_ms-Same_example =
    rehash_ms-Same (λ i. false) 5 growing growing-IsRehashing (omega arith) (omega arith)
      (omega arith)

rehash_ms-stuck_example :
    (rehash stuck 100 ≡ ok (true, stuck)) × (rehash_ms (λ i. false) 1000 stuck ≡ ok none)
rehash_ms-stuck_example = rehash_ms-stuck 1000 stuck refl refl

clear-entries_example : Returns (clear growing) λ (all, e).
    (all ≡ entries growing.primary.array ++ entries growing.rehash.array)
    × IsIdle e
    × ((q : CString) → view e q ≡ none)
    × (get_size e ≡ 0)
    × (e.iterators ≡ growing.iterators)
    × IsSmall e
clear-entries_example = clear-entries growing (inr growing-IsRehashing)

real_size-power_example : (k : ℕ) × (real_size 13 ≡ 2 ^ k) × (13 ≤ 2 ^ k) × (2 ^ k < 2 * 13)
real_size-power_example = real_size-power 13 (omega arith) (omega arith)
