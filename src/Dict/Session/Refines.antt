-- ===== src/Dict/Session/Refines.antt =====
-- Every session refines the map from keys to values.
use mathlib.Core.Option
use xfire_db.Base.{
  ℕ, suc, ◌+◌, ◌^◌, ◌<◌, ◌≡◌, refl, sym, ap, ◌∙◌, inl, inr, Bool, not, Option, none, some, List, [],
  ◌∷◌, arith, or_else, is_some, length, CString, Returns, Run, Option-cases,
}
use xfire_db.Dict.{DictType, DictEntry, Dict, Config}
use xfire_db.Dict.Api.{get_size, get_entry_length, add, update}
use xfire_db.Dict.Api.Stores.{word, revalue, fresh, raw_add-Update}
use xfire_db.Dict.Api.Changes.{raw_update-Update}
use xfire_db.Dict.Api.Reads
use xfire_db.Dict.Api.Reads.{contents, lookup-view, delete-Update}
use xfire_db.Dict.Api.Clears.{clear-entries}
use xfire_db.Dict.Iterator
use xfire_db.Dict.Rehash.Laws.{rehash-Rehashed}
use xfire_db.Dict.Valid.{IsValid, IsSmall, view}
use xfire_db.Dict.Session.{
  Call, call_add, call_update, call_lookup, call_delete, call_clear, iterator_get, iterator_free,
  work, Reply, code, found, deleted, nothing, call, calls, Store, deletion, expected, expected_all,
}
use xfire_db.Dict.Session.Holding.{
  store, Holds, Same-Holds, Update-Holds, assign_self-Holds, Iterators-Holds,
}

-- a call replies as expected, and leaves a dictionary that holds what is expected
abbrev Meets : ℕ → Reply × Store → Run (Reply × Dict) → Type 0
Meets n (reply, m) run = Returns run λ (r, d). (r ≡ reply) × Holds n m d

module _ (memory : ℕ → ℕ) (cfg : Config) (n : ℕ) (m : Store) (d : Dict)
    (h : Holds (suc n) m d) where
  add-Meets :
      (k : CString) (a : ℕ) (t : DictType)
      → Meets n (expected memory (call_add k a t) m) (call memory cfg (call_add k a t) d)
  unfolding call expected add store
  add-Meets k a t =
      let ((done, e), run, (tells, u)) =
        raw_add-Update memory cfg a t (get_entry_length t) d k h.valid h.small
          (omega (arith, h.room)) in
      elim (Option-cases (view d k)) [
        | inl absent ↦
            let free : m k ≡ none = sym (h.holds k) ∙ ap (Option.map contents) absent in
            (
              (code done, e),
              rw run,
              rw free (
                ap code (tells ∙ ap (λ v. not (is_some v)) absent),
                Update-Holds n k (some (fresh k (word memory a t) (get_entry_length t))) m d e h
                    (rw absent at u),
              ),
            )
        | inr (x, there) ↦
            let taken : m k ≡ some (contents x) =
              sym (h.holds k) ∙ ap (Option.map contents) there in
            (
              (code done, e),
              rw run,
              rw taken (
                ap code (tells ∙ ap (λ v. not (is_some v)) there),
                assign_self-Holds n k m e (some (contents x)) taken
                    (Update-Holds n k (some x) m d e h (rw there at u)),
              ),
            )
      ]

  update-Meets :
      (k : CString) (a : ℕ) (t : DictType)
      → Meets n (expected memory (call_update k a t) m) (call memory cfg (call_update k a t) d)
  unfolding call expected update
  update-Meets k a t =
      let size = get_entry_length t in
      let ((done, e), run, (tells, u)) =
        raw_update-Update memory cfg a t size d k h.valid h.small (omega (arith, h.room)) in
      (
        (code done, e),
        rw run,
        (ap code tells, rw (stored (view d k)) at (Update-Holds n k _ m d e h u)),
      )
    where
      stored :
          (o : Option DictEntry)
          → Option.map contents (
              or_else
                (Option.map (revalue (word memory a t) (get_entry_length t)) o)
                (some (fresh k (word memory a t) (get_entry_length t))))
            ≡ some (word memory a t, get_entry_length t)
      stored none = refl
      stored (some x) = refl

  lookup-Meets :
      (k : CString)
      → Meets n (expected memory (call_lookup k) m) (call memory cfg (call_lookup k) d)
  unfolding call expected
  lookup-Meets k =
      let ((r, e), run, (same, s)) = lookup-view d k h.valid in
      ((found r, e), rw run, (ap found (same ∙ unfold store in h.holds k), Same-Holds n m d e h s))

  delete-Meets :
      (k : CString) (free : Bool)
      → Meets n (expected memory (call_delete k free) m) (call memory cfg (call_delete k free) d)
  unfolding call expected
  delete-Meets k free =
      let ((r, e), run, (same, u)) = delete-Update d k free h.valid in
      (
        (deleted r, e),
        rw run,
        (
          ap deleted (same ∙ replies (view d k) ∙ ap (deletion free) (unfold store in h.holds k)),
          Update-Holds n k none m d e h u,
        ),
      )
    where
      replies :
          (o : Option DictEntry) → Reads.deletion free o ≡ deletion free (Option.map contents o)
      replies none = refl
      replies (some x) = refl

  clear-Meets : Meets n (expected memory call_clear m) (call memory cfg call_clear d)
  unfolding call expected store
  clear-Meets =
      let ((entries, e), run, (all, idle, empty, size, same, few)) = clear-entries d h.valid in
      (
        (nothing, e),
        rw run,
        (
          refl,
          record {
            valid = inl idle;
            holds = λ q. ap (Option.map contents) (empty q);
            room = omega (arith, h.room);
            small = few;
          },
        ),
      )

  work-Meets : (k : ℕ) → Meets n (expected memory (work k) m) (call memory cfg (work k) d)
  unfolding call expected
  work-Meets k =
      let ((more, e), run, w) = rehash-Rehashed d k h.valid in
      ((nothing, e), rw run, (refl, Same-Holds n m d e h w.same))

  get-Meets : Meets n (expected memory iterator_get m) (call memory cfg iterator_get d)
  unfolding call expected Iterator.get_safe
  get-Meets = ((nothing, _), refl, (refl, Iterators-Holds n m d _ h))

  free-Meets : Meets n (expected memory iterator_free m) (call memory cfg iterator_free d)
  unfolding call expected Iterator.free Iterator.create
  free-Meets = ((nothing, _), refl, (refl, Iterators-Holds n m d _ h))

  call-Meets : (c : Call) → Meets n (expected memory c m) (call memory cfg c d)
  call-Meets (call_add k a t) = add-Meets k a t
  call-Meets (call_update k a t) = update-Meets k a t
  call-Meets (call_lookup k) = lookup-Meets k
  call-Meets (call_delete k free) = delete-Meets k free
  call-Meets call_clear = clear-Meets
  call-Meets iterator_get = get-Meets
  call-Meets iterator_free = free-Meets
  call-Meets (work k) = work-Meets k

module _ (memory : ℕ → ℕ) (cfg : Config) where
  -- From any valid dictionary with at most 2 ^ 31 buckets in each map, a sequence of calls does not
  -- fault as long as the entries and the calls are together fewer than 2 ^ 30. It replies as the map
  -- from keys to values and lengths promises, and leaves a valid dictionary that stands for the promised
  -- map, again with at most 2 ^ 31 buckets in each map. Calls of the rehash worker, with any number of
  -- rounds, may stand anywhere among the others.
  pub calls-expected_all :
      (cs : List Call) (m : Store) (d : Dict)
      → IsValid d
      → IsSmall d
      → ((q : CString) → store d q ≡ m q)
      → get_size d + length cs < 2 ^ 30
      → Returns (calls memory cfg cs d) λ (rs, e).
        (rs ≡ (expected_all memory cs m).0)
        × IsValid e
        × IsSmall e
        × ((q : CString) → store e q ≡ (expected_all memory cs m).1 q)
  unfolding calls expected_all
  calls-expected_all [] m d v small h room = (([], d), refl, (refl, v, small, h))
  calls-expected_all (c ∷ cs) m d v small h room =
      let ((r, e), run, (same, holds)) =
        call-Meets memory cfg (length cs) m d
          (record { valid = v; holds = h; room = room; small = small }) c in
      let ((rs, f), run', (same', v', small', h')) =
        calls-expected_all cs (expected memory c m).1 e holds.valid holds.small holds.holds
          holds.room in
      ((r ∷ rs, f), rw (run, run'), (rw (same, same'), v', small', h'))
