-- ===== src/Dict/Rehash/Loop.antt =====
-- The loop of `dict_rehash`, while the primary map holds entries.
use xfire_db.Base.{
  ℕ, zero, suc, ◌+◌, ◌≤◌, ◌<◌, ◌≡◌, refl, sym, ◌∙◌, inl, inr, Bool, true, false, ◌∷◌, arith, ◌==◌,
  ltb, if◌then◌else◌, length, Returns, ok, ◌>>=◌, ==_iff, Bool-cases,
}
use xfire_db.Dict.{DictEntry, Chain, DictMap, Dict}
use xfire_db.Dict.Api.{get_size}
use xfire_db.Dict.Rehash.{
  move_chain, finish_bucket, finish_rehash, Search, stopped, found, rehash_loop, Round, gave_up,
  emptied, more, rehash_round,
}
use xfire_db.Dict.Rehash.Finish.{
  moves, finish_bucket-IsRehashing, view-finish_bucket, get_size-finish_bucket, finish_rehash-Same,
}
use xfire_db.Dict.Rehash.Moves.{Moved}
use xfire_db.Dict.Rehash.Rounds.{Swept, Skipped, lt-length_of_Swept, skip_empty-Skipped}
use xfire_db.Dict.Table.{bucket, total, IsTable}
use xfire_db.Dict.Valid.{IsRehashing, Same, Same-trans, view}

-- what a call of `dict_rehash` comes to: it returns 1 exactly if the dictionary is still rehashing
pub record Rehashed (d : Dict) (r : Bool × Dict) : Type 0 where
  pub same : Same d r.1
  pub tells : r.0 ≡ r.1.rehashing

-- A call that asks for more has moved `rehashidx` on by `gain` at least, in a primary map of the same
-- size that is not empty yet.
pub record Advanced (gain : ℕ) (d : Dict) (r : Bool × Dict) : Type 0 where
  pub further : d.rehashidx + gain ≤ r.1.rehashidx
  pub full : 0 < r.1.primary.length
  pub size : r.1.primary.size ≡ d.primary.size

pub record Worked (gain : ℕ) (d : Dict) (r : Bool × Dict) : Type 0 where
  pub rehashed : Rehashed d r
  pub advanced : r.0 ≡ true → IsRehashing r.1 × Advanced gain d r

abbrev pub gain : ℕ → ℕ
gain zero = 0
gain (suc n) = 1

module _ (d : Dict) (v : IsRehashing d) where
  -- the search gave up
  stop-Worked :
      (j : ℕ)
      → 0 < d.primary.length
      → Skipped d.primary d.rehashidx (stopped j)
      → Worked 1 d (true, record d { rehashidx = j })
  unfolding view get_size
  stop-Worked j full (on, swept) = record {
    rehashed = record {
      same = record {
        valid = inr still;
        views = λ q. refl;
        sizes = refl;
        iterators = refl;
        status = refl;
        small = λ h. h;
      };
      tells = sym v.on;
    };
    advanced = λ e. (still, record { further = omega arith; full = full; size = refl });
  }
    where
      still : IsRehashing (record d { rehashidx = j })
      still = record {
        on = v.on;
        primary = v.primary;
        rehash = v.rehash;
        apart = v.apart;
        swept = swept;
      }

  module _ (j : ℕ) (inside : j < length d.primary.array) (swept : Swept d.primary.array j)
      (r : DictMap × ℕ) where
    bucket-Same :
        Moved (bucket d.primary j) d.rehash d.primary.length r → Same d (finish_bucket d j r)
    bucket-Same m = record {
      valid = inr (finish_bucket-IsRehashing d v j inside swept r m);
      views = view-finish_bucket d v j inside swept r m;
      sizes = get_size-finish_bucket d v j inside swept r m;
      iterators = unfold finish_bucket in refl;
      status = unfold finish_bucket in refl;
      small = λ (p, q). unfold finish_bucket in (p, omega (arith, m.same_size, q));
    }

full_of_total : {map : DictMap} → IsTable map → 0 < map.length → 0 < total map.array
full_of_total t h = omega (arith, t.counted)

-- what a round comes to
abbrev RoundDone : Dict → Round → Type 0
RoundDone d (gave_up e) = Worked 1 d (true, e)
RoundDone d (emptied e) = Same d e × IsRehashing e × (e.primary.length ≡ 0)
RoundDone d (more visits e) =
    Same d e
    × IsRehashing e
    × (0 < visits)
    × (d.rehashidx < e.rehashidx)
    × (0 < e.primary.length)
    × (e.primary.size ≡ d.primary.size)

module _ (d : Dict) (v : IsRehashing d) (full : 0 < d.primary.length) where
  entries : 0 < total d.primary.array
  entries = full_of_total v.primary full

  found-RoundDone :
      (j visits : ℕ) (de : DictEntry) (next : Chain)
      → Skipped d.primary d.rehashidx (found j visits de next)
      → Returns
          (move_chain (de ∷ next) d.rehash d.primary.length >>= λ moved.
            let d' = finish_bucket d j moved in
            ok (if d'.primary.length == 0 then emptied d' else more visits d'))
          (RoundDone d)
  found-RoundDone j visits de next (on, some_visits, e, swept) =
      let inside = lt-length_of_Swept d.primary.array j swept entries in
      let (r, run, m) = moves d v j inside swept in
      let same = bucket-Same d v j inside swept r m in
      let still = finish_bucket-IsRehashing d v j inside swept r m in
      rw (← e, run)
        (elim (Bool-cases ((finish_bucket d j r).primary.length == 0)) [
          | inl p ↦ rw p (emptied _, refl, (same, still, (==_iff _ _).0 p))
          | inr p ↦ rw p (
            more visits _,
            refl,
            (
              same,
              still,
              some_visits,
              unfold finish_bucket in omega arith,
              ground arith,
              unfold finish_bucket in refl,
            ),
          )
        ])

  rehash_round-RoundDone : (visits : ℕ) → 0 < visits → Returns (rehash_round visits d) (RoundDone d)
  unfolding rehash_round
  rehash_round-RoundDone visits h =
      let idx_lt = lt-length_of_Swept d.primary.array d.rehashidx v.swept entries in
      let test : ltb d.rehashidx d.primary.size ≡ true = ground (arith, v.primary.sized) in
      let (r, run, p) = skip_empty-Skipped visits d.primary d.rehashidx entries v.swept h in
      rw (test, rehash_round, run) (outcome r p)
    where
      outcome :
          (r : Search)
          → Skipped d.primary d.rehashidx r
          → Returns
              (elim r [
                | stopped idx ↦ ok (gave_up (record d { rehashidx = idx }))
                | found idx visits' de next ↦
                    move_chain (de ∷ next) d.rehash d.primary.length >>= λ moved.
                    let d' = finish_bucket d idx moved in
                    ok (if d'.primary.length == 0 then emptied d' else more visits' d')
              ])
              (RoundDone d)
      outcome (stopped j) p = (gave_up _, refl, stop-Worked d v j full p)
      outcome (found j visits' de next) p = found-RoundDone j visits' de next p

-- no round is left, or the primary map has become empty on the way
idle-Worked : (d : Dict) → IsRehashing d → 0 < d.primary.length → Worked 0 d (true, d)
idle-Worked d v full = record {
  rehashed = record {
    same = record {
      valid = inr v;
      views = λ q. refl;
      sizes = refl;
      iterators = refl;
      status = refl;
      small = λ h. h;
    };
    tells = sym v.on;
  };
  advanced = λ e. (v, record { further = omega arith; full = full; size = refl });
}

emptied-Worked : (d e : Dict) → RoundDone d (emptied e) → Worked 1 d (false, finish_rehash e)
emptied-Worked d e (same, v, none_left) = record {
  rehashed = record {
    same = Same-trans same (finish_rehash-Same e v none_left);
    tells = unfold finish_rehash in refl;
  };
  advanced = λ e. cc;
}

more-Worked :
    (d e : Dict) (visits k : ℕ) (r : Bool × Dict)
    → RoundDone d (more visits e)
    → Worked k e r
    → Worked 1 d r
more-Worked d e visits k r (same, v, h, on, full, size) w = record {
  rehashed = record { same = Same-trans same w.rehashed.same; tells = w.rehashed.tells };
  advanced = λ t.
      let (still, a) = w.advanced t in
      (still, record { further = omega (arith, a.further); full = a.full; size = a.size ∙ size });
}

-- the loop with rounds and visits left
pub rehash_loop-Worked :
    (num visits : ℕ) (d : Dict)
    → IsRehashing d
    → 0 < d.primary.length
    → 0 < visits
    → Returns (rehash_loop num visits d) (Worked (gain num) d)
unfolding rehash_loop
rehash_loop-Worked zero visits d v full h = ((true, d), refl, idle-Worked d v full)
rehash_loop-Worked (suc num) visits d v full h =
    let test : (d.primary.length == 0) ≡ false = ground arith in
    let (r, run, p) = rehash_round-RoundDone d v full visits h in
    rw (test, rehash_loop, run)
      (outcome r p (λ visits' e still full' h'. rehash_loop-Worked num visits' e still full' h'))
  where
    outcome :
        (r : Round)
        → RoundDone d r
        → ((visits' : ℕ) (e : Dict)
            → IsRehashing e
            → 0 < e.primary.length
            → 0 < visits'
            → Returns (rehash_loop num visits' e) (Worked (gain num) e))
        → Returns
            (elim r [
              | gave_up d' ↦ ok (true, d')
              | emptied d' ↦ ok (false, finish_rehash d')
              | more visits' d' ↦ rehash_loop num visits' d'
            ])
            (Worked 1 d)
    outcome (gave_up e) p ih = ((true, e), refl, p)
    outcome (emptied e) p ih = (_, refl, emptied-Worked d e p)
    outcome (more visits' e) p ih =
        let (same, still, h', on, full', size) = p in
        let (r, run, w) = ih visits' e still full' h' in
        (r, run, more-Worked d e visits' (gain num) r p w)
