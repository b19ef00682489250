-- ===== src/Bio/Order.antt =====
-- What one removal takes from the queue, and what the worker stores.
use xfire_db.Base.{
  ℕ, zero, suc, ◌+◌, ◌-◌, ◌^◌, ◌<◌, ◌≡◌, refl, ap, ◌∙◌, Option, none, some, List, [], ◌∷◌, ◌++◌,
  u64, length, length-append, Run, ok, arith,
}
use xfire_db.Bio.{BioQ, BioQHead, DiskOps, take_tail, queue_pop, dispatch, worker}

-- the entries of a queue, the oldest first
abbrev pub backlog : List BioQ → List BioQ
backlog [] = []
backlog (q ∷ qs) = backlog qs ++ (q ∷ [])

length-backlog : (qs : List BioQ) → length (backlog qs) ≡ length qs
length-backlog [] = refl
length-backlog (q ∷ qs) = omega (arith, length-append (backlog qs) (q ∷ []), length-backlog qs)

-- The queue's `size` counts its entries.
abbrev pub IsCounted : BioQHead → Type 0
IsCounted h = h.size ≡ length h.entries

-- what one removal does
pub data Popped (h : BioQHead) : Option BioQ × BioQHead → Type 0 where
  empty : h.entries ≡ [] → Popped h (none, h)
  taken :
      (q : BioQ) (h' : BioQHead)
      → backlog h.entries ≡ q ∷ backlog h'.entries
      → length h.entries ≡ suc (length h'.entries)
      → IsCounted h'
      → Popped h (some q, h')

take_tail-backlog :
    (q : BioQ) (qs : List BioQ)
    → (t : BioQ) × (left : List BioQ) × (take_tail (q ∷ qs) ≡ (some t, left))
      × (backlog (q ∷ qs) ≡ t ∷ backlog left)
      × (length qs ≡ length left)
unfolding take_tail
take_tail-backlog q [] = (q, [], refl, refl, refl)
take_tail-backlog p (q ∷ qs) =
    let (t, left, e, b, l) = take_tail-backlog q qs in
    (t, p ∷ left, rw (take_tail, e) refl, rw b refl, omega (arith, l))

record_pop-Popped :
    (es : List BioQ) (size : ℕ)
    → size ≡ length es
    → length es < 2 ^ 64
    → Popped
        (record { entries = es; size = size })
        (queue_pop (record { entries = es; size = size }))
unfolding queue_pop take_tail
record_pop-Popped [] size c small = empty refl
record_pop-Popped (q ∷ qs) size c small =
    let (t, left, e, b, l) = take_tail-backlog q qs in
    rw (e, ap (λ r. r.1) e)
      (taken t (record { entries = left; size = u64 (size + 2 ^ 64 - 1) }) b (omega (arith, l))
        (omega (arith, c, l, small)))

pub queue_pop-Popped :
    (h : BioQHead) → IsCounted h → length h.entries < 2 ^ 64 → Popped h (queue_pop h)
queue_pop-Popped h c small = record_pop-Popped h.entries h.size c small

emptied :
    (es : List BioQ) (size : ℕ)
    → es ≡ []
    → size ≡ 0
    → ◌≡◌ {A = BioQHead} (record { entries = es; size = size }) (record { entries = []; size = 0 })
emptied es size e z = rw (e, z) refl

module _ {ℓ} {D : Type ℓ} (disk : DiskOps D) where
  -- the changes stored on a disk, one after the other
  unfoldable pub store_all : List BioQ → D → D
  store_all [] d = d
  store_all (q ∷ qs) d = store_all qs (dispatch disk q d)

  -- With fuel for every entry and one more round, `bio_worker` ends with an empty queue, having stored
  -- all its entries in the order in which they were added.
  pub worker-store_all :
      (fuel : ℕ) (h : BioQHead) (d : D)
      → IsCounted h
      → length h.entries < 2 ^ 64
      → length h.entries < fuel
      → worker disk fuel h d
        ≡ ok (record { entries = []; size = 0 }, store_all (backlog h.entries) d)
  unfolding worker
  worker-store_all zero h d c small enough = absurd (omega (arith, enough))
  worker-store_all (suc fuel) h d c small enough =
      outcome (queue_pop h) (queue_pop-Popped h c small) (λ h' d' c' less.
        worker-store_all fuel h' d' c' (omega (arith, less, small)) (omega (arith, less, enough)))
    where
      outcome :
          (r : Option BioQ × BioQHead)
          → Popped h r
          → ((h' : BioQHead) (d' : D)
              → IsCounted h'
              → length h.entries ≡ suc (length h'.entries)
              → worker disk fuel h' d'
                ≡ ok (record { entries = []; size = 0 }, store_all (backlog h'.entries) d'))
          → elim r.0 as (λ o. Run (BioQHead × D)) [
            | none ↦ ok (r.1, d)
            | some q ↦ worker disk fuel r.1 (dispatch disk q d)
          ]
            ≡ ok (record { entries = []; size = 0 }, store_all (backlog h.entries) d)
      outcome _ (empty e) ih =
          rw (emptied h.entries h.size e (omega (arith, c, ap length e))) (unfold store_all in refl)
      outcome _ (taken q h' b l c') ih =
          unfold store_all in ih h' (dispatch disk q d) c' l ∙ rw b refl
