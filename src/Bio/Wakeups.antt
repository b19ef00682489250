-- ===== src/Bio/Wakeups.antt =====
-- How often the worker is woken.
use xfire_db.Base.{ℕ, zero, suc, ◌+◌, ◌*◌, ◌<◌, ◌≡◌, List, [], ◌∷◌, arith, length}
use xfire_db.Bio.{BioQ, Bio, try_wakeup_worker, queue_add}

-- the additions one after the other
unfoldable pub add_all : ℕ → List BioQ → Bio → Bio
add_all p [] b = b
add_all p (q ∷ qs) b = add_all p qs (queue_add p q b)

queue_add-wakes :
    (p : ℕ) (q : BioQ) (b : Bio)
    → p < 3
    → b.wake_up_counter < p + 1
    → ((queue_add p q b).signals * (p + 1) + (queue_add p q b).wake_up_counter
        ≡ b.signals * (p + 1) + b.wake_up_counter + 1)
      × ((queue_add p q b).wake_up_counter < p + 1)
unfolding queue_add try_wakeup_worker
queue_add-wakes zero q b small low = (ground (arith, low), ground (arith, low))
queue_add-wakes (suc zero) q b small low = (ground (arith, low), ground (arith, low))
queue_add-wakes (suc (suc zero)) q b small low = (ground (arith, low), ground (arith, low))
queue_add-wakes (suc (suc (suc p))) q b small low = absurd (omega (arith, small))

-- With a persist level below 3 every `persist_level + 1` additions send one signal to the worker: after
-- any number of additions the signals times that, with the count since the last one, is the number
-- of additions, and the count stays below it.
pub add_all-wakes :
    (p : ℕ) (qs : List BioQ) (b : Bio)
    → p < 3
    → b.wake_up_counter < p + 1
    → ((add_all p qs b).signals * (p + 1) + (add_all p qs b).wake_up_counter
        ≡ b.signals * (p + 1) + b.wake_up_counter + length qs)
      × ((add_all p qs b).wake_up_counter < p + 1)
unfolding add_all
add_all-wakes p [] b small low = (omega arith, low)
add_all-wakes p (q ∷ qs) b small low =
    let (once, low') = queue_add-wakes p q b small low in
    let (e, low'') = add_all-wakes p qs (queue_add p q b) small low' in
    (omega (arith, e, once), low'')
