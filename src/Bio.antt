-- ===== src/Bio.antt =====
-- The background I/O of libxfiredbengine/storage/bio.c: the engine queues each change of the
-- database, and a worker thread takes the changes out and stores them on the disk. A queue is the
-- list that `next` leads through, from the newest entry to `tail`; a null pointer is `none`. The
-- functions of storage/disk.c are an interface.
pub mod Order
pub mod History
pub mod Wakeups
mod Tests
use xfire_db.Base.{
  ℕ, zero, suc, ◌+◌, ◌-◌, ◌%◌, ◌^◌, Bool, true, false, Option, none, some, List, [], ◌∷◌, ◌==◌, leb,
  if◌then◌else◌, u64, CString, Run, ok, fault, ◌>>=◌,
}

-- `bio_operation_t`
pub data BioOperation : Type 0 where
  string_add string_del string_update list_add list_del list_update : BioOperation
  hm_add hm_del hm_update set_add set_del : BioOperation

-- `struct bio_q`
pub record BioQ : Type 0 where
  pub key : Option CString
  pub arg : Option CString
  pub newdata : Option CString
  pub operation : BioOperation

-- `struct bio_q_head`
pub record BioQHead : Type 0 where
  pub entries : List BioQ
  pub size : ℕ

-- The static state of the file, with the number of signals sent to the worker.
pub record Bio : Type 0 where
  pub queue : BioQHead
  pub wake_up_counter : ℕ
  pub signals : ℕ

-- What the worker calls of storage/disk.c, on a disk of any kind.
pub record DiskOps {ℓ} (D : Type ℓ) : Type ℓ where
  pub store_string : Option CString → Option CString → D → D
  pub update_string : Option CString → Option CString → D → D
  pub delete_string : Option CString → D → D
  pub store_list_entry : Option CString → Option CString → D → D
  pub delete_list : Option CString → Option CString → D → D
  pub update_list : Option CString → Option CString → Option CString → D → D
  pub store_hm_node : Option CString → Option CString → Option CString → D → D
  pub delete_hashmapnode : Option CString → Option CString → D → D
  pub update_hm : Option CString → Option CString → Option CString → D → D
  pub store_set_key : Option CString → Option CString → D → D
  pub delete_set_key : Option CString → Option CString → D → D

-- `bio_init`
unfoldable pub init : Bio
init = record { queue = record { entries = []; size = 0 }; wake_up_counter = 0; signals = 0 }

-- the tail, and the entries before it
unfoldable pub take_tail : List BioQ → Option BioQ × List BioQ
take_tail [] = (none, [])
take_tail (q ∷ []) = (some q, [])
take_tail (p ∷ q ∷ rest) = let (tail, left) = take_tail (q ∷ rest) in (tail, p ∷ left)

-- `bio_queue_pop`
unfoldable pub queue_pop : BioQHead → Option BioQ × BioQHead
queue_pop h =
    let (tail, left) = take_tail h.entries in
    (
      tail,
      elim tail [ none ↦ h | some q ↦ record { entries = left; size = u64 (h.size + 2 ^ 64 - 1) } ],
    )

-- `bio_try_wakeup_worker`
unfoldable pub try_wakeup_worker : ℕ → Bio → Bio
try_wakeup_worker persist_level b =
    let counter = b.wake_up_counter + 1 in
    if counter % (persist_level + 1) == 0
    then record b { wake_up_counter = 0; signals = b.signals + 1 }
    else record b { wake_up_counter = counter }

-- `bio_queue_add`
unfoldable pub queue_add : ℕ → BioQ → Bio → Bio
queue_add persist_level q b =
    if leb 3 persist_level
    then b
    else let queue : BioQHead = record {
      entries = q ∷ b.queue.entries;
      size = u64 (b.queue.size + 1);
    } in
      try_wakeup_worker persist_level (record b { queue = queue })

module _ {ℓ} {D : Type ℓ} (disk : DiskOps D) where
  -- the `switch` of `bio_worker`
  unfoldable pub dispatch : BioQ → D → D
  dispatch q = elim q.operation [
    | string_add ↦ disk.store_string q.key q.newdata
    | string_update ↦ disk.update_string q.key q.newdata
    | string_del ↦ disk.delete_string q.key
    | list_add ↦ disk.store_list_entry q.key q.newdata
    | list_del ↦ disk.delete_list q.key q.arg
    | list_update ↦ disk.update_list q.key q.arg q.newdata
    | hm_add ↦ disk.store_hm_node q.key q.arg q.newdata
    | hm_del ↦ disk.delete_hashmapnode q.key q.arg
    | hm_update ↦ disk.update_hm q.key q.arg q.newdata
    | set_add ↦ disk.store_set_key q.key q.arg
    | set_del ↦ disk.delete_set_key q.key q.arg
  ]

  -- `bio_worker` on fuel
  unfoldable pub worker : ℕ → BioQHead → D → Run (BioQHead × D)
  worker zero h d = fault
  worker (suc fuel) h d =
      let (q, h') = queue_pop h in
      elim q [ none ↦ ok (h', d) | some q ↦ worker fuel h' (dispatch q d) ]

  -- One step of one thread: an addition, or one round of the worker's loop.
  pub data Step : Type 0 where
    add : BioQ → Step
    take : Step

  unfoldable pub step : ℕ → Step → Bio × D → Bio × D
  step persist_level (add q) (b, d) = (queue_add persist_level q b, d)
  step persist_level take (b, d) =
      let (q, h) = queue_pop b.queue in
      elim q [ none ↦ (b, d) | some q ↦ (record b { queue = h }, dispatch q d) ]

  unfoldable pub steps : ℕ → List Step → Bio × D → Bio × D
  steps persist_level [] s = s
  steps persist_level (e ∷ es) s = steps persist_level es (step persist_level e s)
