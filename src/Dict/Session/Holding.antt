-- ===== src/Dict/Session/Holding.antt =====
-- When a dictionary stands for a map from keys to values and lengths, and what keeps it so.
use mathlib.Core.Option
use xfire_db.Base.{
  ℕ, suc, ◌+◌, ◌^◌, ◌≤◌, ◌<◌, ◌≡◌, sym, ap, ◌∙◌, inl, inr, Option, none, some, arith, CString,
  str_eq, str_eq_iff, Bool-cases,
}
use xfire_db.Dict.{DictEntry, Dict}
use xfire_db.Dict.Api.{get_size}
use xfire_db.Dict.Api.Reads.{contents}
use xfire_db.Dict.Entries.Updates
use xfire_db.Dict.Entries.Updates.{Update}
use xfire_db.Dict.Valid.{IsValid, IsSmall, Same, view}
use xfire_db.Dict.Session.{Store, assign}

-- the map that a dictionary stands for
unfoldable pub store : Dict → Store
store d q = Option.map contents (view d q)

-- a valid dictionary with room for `n` more entries that stands for `m`
pub record Holds (n : ℕ) (m : Store) (d : Dict) : Type 0 where
  pub valid : IsValid d
  pub holds : (q : CString) → store d q ≡ m q
  pub room : get_size d + n < 2 ^ 30
  pub small : IsSmall d

pub Same-Holds : (n : ℕ) (m : Store) (d e : Dict) → Holds (suc n) m d → Same d e → Holds n m e
unfolding store
Same-Holds n m d e h s = record {
  valid = s.valid;
  holds = λ q. ap (Option.map contents) (s.views q) ∙ h.holds q;
  room = omega (arith, s.sizes, h.room);
  small = s.small h.small;
}

found-le-one : (o : Option DictEntry) → Updates.found o ≤ 1
found-le-one none = omega arith
found-le-one (some e) = omega arith

pub Update-Holds :
    (n : ℕ) (k : CString) (v : Option DictEntry) (m : Store) (d e : Dict)
    → Holds (suc n) m d
    → Update k v d e
    → Holds n (assign k (Option.map contents v) m) e
unfolding store
Update-Holds n k v m d e h u = record {
  valid = u.valid;
  holds = λ q.
      ap (Option.map contents) (u.views q)
      ∙ elim (Bool-cases (str_eq k q)) [ inl here ↦ rw here | inr other ↦ rw other (h.holds q) ];
  room = omega (arith, u.sizes, h.room, found-le-one v);
  small = u.small h.small;
}

pub assign_self-Holds :
    (n : ℕ) (k : CString) (m : Store) (d : Dict) (v : Option (ℕ × ℕ))
    → m k ≡ v
    → Holds n (assign k v m) d
    → Holds n m d
assign_self-Holds n k m d v same h = record {
  valid = h.valid;
  holds = λ q. h.holds q ∙ elim (Bool-cases (str_eq k q)) [
    | inl here ↦ rw here (sym same ∙ ap m ((str_eq_iff k q).0 here))
    | inr other ↦ rw other
  ];
  room = h.room;
  small = h.small;
}

pub Iterators-Holds :
    (n : ℕ) (m : Store) (d : Dict) (i : ℕ)
    → Holds (suc n) m d
    → Holds n m (record d { iterators = i })
unfolding store view
Iterators-Holds n m d i h = record {
  valid = elim h.valid [
    | inl w ↦ inl (record { off = w.off; cleared = w.cleared; primary = w.primary })
    | inr w ↦ inr (record {
      on = w.on;
      primary = w.primary;
      rehash = w.rehash;
      apart = w.apart;
      swept = w.swept;
    })
  ];
  holds = h.holds;
  room = unfold get_size in omega (arith, h.room);
  small = h.small;
}
