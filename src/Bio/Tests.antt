-- ===== src/Bio/Tests.antt =====
-- The theorems on background I/O at a concrete sequence of changes.
use xfire_db.Base.{
  ℕ, ◌+◌, ◌*◌, ◌<◌, ◌≡◌, refl, Option, none, some, List, [], ◌∷◌, length, CString, Run, ok, arith,
}
use xfire_db.Bio.{
  BioOperation, BioQ, BioQHead, DiskOps, init, take_tail, queue_pop, dispatch, worker, Step, add,
  take, steps,
}
use xfire_db.Bio.Order.{backlog, store_all, worker-store_all}
use xfire_db.Bio.History.{all_queued, History, steps-History}
use xfire_db.Bio.Wakeups.{add_all, add_all-wakes}

-- a disk that writes down the keys and the data it is given
abbrev Journal : Type 0
Journal = List (Option CString)

abbrev journal : DiskOps Journal
journal = record {
  store_string = λ k v d. k ∷ v ∷ d;
  update_string = λ k v d. k ∷ v ∷ d;
  delete_string = λ k d. k ∷ d;
  store_list_entry = λ k v d. k ∷ v ∷ d;
  delete_list = λ k a d. k ∷ a ∷ d;
  update_list = λ k a v d. k ∷ a ∷ v ∷ d;
  store_hm_node = λ k a v d. k ∷ a ∷ v ∷ d;
  delete_hashmapnode = λ k a d. k ∷ a ∷ d;
  update_hm = λ k a v d. k ∷ a ∷ v ∷ d;
  store_set_key = λ k a d. k ∷ a ∷ d;
  delete_set_key = λ k a d. k ∷ a ∷ d;
}

abbrev change : BioOperation → ℕ → BioQ
change operation c = record {
  key = some (c ∷ []);
  arg = none;
  newdata = some (b'v' ∷ []);
  operation = operation;
}

abbrev queue : BioQHead
queue = record {
  entries = change BioOperation.string_del b'k' ∷ change BioOperation.string_add b'k' ∷ [];
  size = 2;
}

abbrev interleaved : List (Step journal)
interleaved =
    add (change BioOperation.string_add b'a')
    ∷ take
    ∷ add (change BioOperation.string_update b'a')
    ∷ add (change BioOperation.list_add b'b')
    ∷ take
    ∷ []

drained : Run (BioQHead × Journal)
unfolding worker queue_pop take_tail dispatch
drained = worker journal 3 queue []

worker-store_all_example :
    worker journal 3 queue []
    ≡ ok (record { entries = []; size = 0 }, store_all journal (backlog queue.entries) [])
worker-store_all_example = worker-store_all journal 3 queue [] refl (omega arith) (omega arith)

steps-History_example :
    (stored : List BioQ) × History journal
      (all_queued journal 1 interleaved)
      (init, [])
      (steps journal 1 interleaved (init, []))
      stored
steps-History_example =
    steps-History journal 1 interleaved (init, []) init-IsCounted (unfold init in omega arith)
  where
    init-IsCounted : init.queue.size ≡ length init.queue.entries
    init-IsCounted = unfold init in refl

add_all-wakes_example :
    ((add_all 1 queue.entries init).signals * (1 + 1)
        + (add_all 1 queue.entries init).wake_up_counter
      ≡ init.signals * (1 + 1) + init.wake_up_counter + length queue.entries)
    × ((add_all 1 queue.entries init).wake_up_counter < 1 + 1)
add_all-wakes_example =
    add_all-wakes 1 queue.entries init (omega arith) (unfold init in omega arith)
