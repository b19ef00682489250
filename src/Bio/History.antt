-- ===== src/Bio/History.antt =====
-- The order in which changes reach the disk, when additions and removals interleave.
use mathlib.Core.List.{append-nil, append_assoc}
use xfire_db.Base.{
  ℕ, ◌+◌, ◌^◌, ◌≤◌, ◌<◌, ◌≡◌, refl, sym, ap, ◌∙◌, inl, inr, true, false, Option, none, some, List,
  [], ◌∷◌, ◌++◌, leb, if◌then◌else◌, u64, length, arith, Bool-cases,
}
use xfire_db.Bio.{
  BioQ, BioQHead, Bio, DiskOps, queue_pop, try_wakeup_worker, queue_add, dispatch, Step, add, take,
  step, steps,
}
use xfire_db.Bio.Order.{backlog, IsCounted, Popped, empty, taken, queue_pop-Popped, store_all}

module _ {ℓ} {D : Type ℓ} (disk : DiskOps D) where
  -- what a step adds to the queue: with a persist level of 3 or more, nothing
  unfoldable pub queued : ℕ → Step disk → List BioQ
  queued persist_level (add q) = if leb 3 persist_level then [] else q ∷ []
  queued persist_level take = []

  abbrev pub all_queued : ℕ → List (Step disk) → List BioQ
  all_queued persist_level [] = []
  all_queued persist_level (e ∷ es) = queued persist_level e ++ all_queued persist_level es

  store_all-append :
      (ps qs : List BioQ) (d : D)
      → store_all disk (ps ++ qs) d ≡ store_all disk qs (store_all disk ps d)
  unfolding store_all
  store_all-append [] qs d = refl
  store_all-append (p ∷ ps) qs d = store_all-append ps qs (dispatch disk p d)

  -- What has happened between two states: `stored` went to the disk, `added` into the queue.
  pub record History (added : List BioQ) (s t : Bio × D) (stored : List BioQ) : Type ℓ where
    pub order : stored ++ backlog t.0.queue.entries ≡ backlog s.0.queue.entries ++ added
    pub disk_state : t.1 ≡ store_all disk stored s.1
    pub counted : IsCounted t.0.queue

  wakeup-queue : (p : ℕ) (b : Bio) → (try_wakeup_worker p b).queue ≡ b.queue
  unfolding try_wakeup_worker
  wakeup-queue p b = ground arith

  queue_add-off : (p : ℕ) (q : BioQ) (b : Bio) → leb 3 p ≡ true → queue_add p q b ≡ b
  unfolding queue_add
  queue_add-off p q b off = ground (arith, off)

  queue_add-on :
      (p : ℕ) (q : BioQ) (b : Bio)
      → leb 3 p ≡ false
      → (queue_add p q b).queue
        ≡ record { entries = q ∷ b.queue.entries; size = u64 (b.queue.size + 1) }
  unfolding queue_add
  queue_add-on p q b on = ground (
    arith,
    on,
    wakeup-queue p (record b {
      queue = record { entries = q ∷ b.queue.entries; size = u64 (b.queue.size + 1) };
    }),
  )

  queued-off : (p : ℕ) (q : BioQ) → leb 3 p ≡ true → queued p (add q) ≡ []
  unfolding queued
  queued-off p q off = ground (arith, off)

  queued-on : (p : ℕ) (q : BioQ) → leb 3 p ≡ false → queued p (add q) ≡ q ∷ []
  unfolding queued
  queued-on p q on = ground (arith, on)

  step-History :
      (p : ℕ) (e : Step disk) (s : Bio × D)
      → IsCounted s.0.queue
      → length s.0.queue.entries + 1 < 2 ^ 64
      → (stored : List BioQ) × History (queued p e) s (step disk p e s) stored
        × (length (step disk p e s).0.queue.entries ≤ length s.0.queue.entries + 1)
  unfolding step queued
  step-History p (add q) (b, d) c small = elim (Bool-cases (leb 3 p)) [
    | inl off ↦
        rw (queue_add-off p q b off, queued-off p q off)
          (
            [],
            record {
              order = sym (append-nil _);
              disk_state = unfold store_all in refl;
              counted = c;
            },
            omega arith,
          )
    | inr on ↦
        let e = queue_add-on p q b on in
        rw (queued-on p q on) (
          [],
          record {
            order = rw e refl;
            disk_state = unfold store_all in refl;
            counted = rw e (omega (arith, c, small));
          },
          rw e (omega arith),
        )
  ]
  step-History p take (b, d) c small =
      outcome (queue_pop b.queue) (queue_pop-Popped b.queue c (omega (arith, small)))
    where
      outcome :
          (r : Option BioQ × BioQHead)
          → Popped b.queue r
          → (stored : List BioQ) × History []
              (b, d)
              (elim r.0 as (λ o. Bio × D) [
                | none ↦ (b, d)
                | some q ↦ (record b { queue = r.1 }, dispatch disk q d)
              ])
              stored
            × (length
                  (elim r.0 as (λ o. Bio × D) [
                    | none ↦ (b, d)
                    | some q ↦ (record b { queue = r.1 }, dispatch disk q d)
                  ]).0.queue.entries
                ≤ length b.queue.entries + 1)
      outcome _ (empty e) = (
        [],
        record { order = sym (append-nil _); disk_state = unfold store_all in refl; counted = c },
        omega arith,
      )
      outcome _ (taken q h' bl l c') = (
        q ∷ [],
        record {
          order = sym bl ∙ sym (append-nil _);
          disk_state = unfold store_all in refl;
          counted = c';
        },
        omega (arith, l),
      )

  joined :
      (now later b b' b'' q rest : List BioQ)
      → now ++ b' ≡ b ++ q
      → later ++ b'' ≡ b' ++ rest
      → (now ++ later) ++ b'' ≡ b ++ (q ++ rest)
  joined now later b b' b'' q rest e e' =
      append_assoc now later b''
      ∙ ap (λ r. now ++ r) e'
      ∙ sym (append_assoc now b' rest)
      ∙ ap (λ r. r ++ rest) e
      ∙ append_assoc b q rest

  -- Additions and rounds of the worker may interleave in any order. As long as the counter of the queue
  -- does not overflow, the changes reach the disk in the order in which they were added, each once:
  -- those stored, with those left in the queue behind them, are those queued at first and then those
  -- added. With a persist level of 3 or more, nothing is added.
  pub steps-History :
      (p : ℕ) (es : List (Step disk)) (s : Bio × D)
      → IsCounted s.0.queue
      → length s.0.queue.entries + length es < 2 ^ 64
      → (stored : List BioQ) × History (all_queued p es) s (steps disk p es s) stored
  unfolding steps
  steps-History p [] s c small = (
    [],
    record { order = sym (append-nil _); disk_state = unfold store_all in refl; counted = c },
  )
  steps-History p (e ∷ es) s c small =
      let (now, h, grown) = step-History p e s c (omega (arith, small)) in
      let (later, h') =
        steps-History p es (step disk p e s) h.counted (omega (arith, grown, small)) in
      (
        now ++ later,
        record {
          order = joined now later _ _ _ (queued p e) _ h.order h'.order;
          disk_state =
              h'.disk_state
              ∙ ap (store_all disk later) h.disk_state
              ∙ sym (store_all-append now later s.1);
          counted = h'.counted;
        },
      )
