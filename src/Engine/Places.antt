-- ===== src/Engine/Places.antt =====
-- The loops of `xfiredb_list_get`, `xfiredb_list_set` and `xfiredb_list_pop`, against positions in a list
-- of texts.
use mathlib.Core.Path.{subst}
use xfire_db.Base.{
  ℕ, zero, suc, ◌+◌, ◌≤◌, ◌<◌, ◌≡◌, refl, ◌∙◌, ap, Bool, true, false, none, some, List, [], ◌∷◌,
  ◌++◌, leb, length, CString, ok, arith, Returns,
}
use xfire_db.Base.Int.{pos}
use xfire_db.Bio.{Bio, BioOperation}
use xfire_db.Dict.{Config}
use xfire_db.Engine.{Str, Engine, notice, string_get, string_set, string_alloc}
use xfire_db.Engine.Items.{wrap, is_at, get_items, set_items, pop_items}
use xfire_db.Engine.Values.{Texts, no_texts, one_more}

-- the text at a position, if there is one
abbrev pub item : ℕ → List CString → List CString
item j [] = []
item zero (t ∷ ts) = t ∷ []
item (suc j) (t ∷ ts) = item j ts

-- a text put at a position, or at the end if there is none
abbrev pub put_item : ℕ → CString → List CString → List CString
put_item j t [] = t ∷ []
put_item zero t (u ∷ us) = t ∷ us
put_item (suc j) t (u ∷ us) = u ∷ put_item j t us

-- the texts without the one at a position, if there is one
abbrev pub drop_item : ℕ → List CString → List CString
drop_item j [] = []
drop_item zero (t ∷ ts) = ts
drop_item (suc j) (t ∷ ts) = t ∷ drop_item j ts

-- a position and the one that the loop is at
pub is_at_here : (i : ℕ) → is_at (pos i) i ≡ true
unfolding is_at
is_at_here i = ground arith

is_at_later : (i d : ℕ) → is_at (pos (i + suc d)) i ≡ false
unfolding is_at
is_at_later i d = ground arith

next_place : (i d : ℕ) → i + suc d ≡ i + 1 + d
next_place i d = omega arith

pub from_zero : (d : ℕ) → 0 + d ≡ d
from_zero d = omega arith

this_place : (i : ℕ) → i + 0 ≡ i
this_place i = omega arith

get_items-item_from :
    {ss : List Str} {ts : List CString} (n i d : ℕ)
    → Texts ss ts
    → get_items n ss i (pos (i + d) ∷ []) ≡ ok (item d ts)
unfolding get_items wrap string_get
get_items-item_from n i d no_texts = refl
get_items-item_from n i zero (one_more x) = rw (get_items, wrap, this_place i, is_at_here i) refl
get_items-item_from n i (suc d) (one_more x) =
    rw (get_items, wrap, is_at_later i d, next_place i d) (get_items-item_from n (i + 1) d x)

-- The loop of `xfiredb_list_get` for one position finds the text there, if there is one.
pub get_items-item :
    {ss : List Str} {ts : List CString} (n d : ℕ)
    → Texts ss ts
    → get_items n ss 0 (pos d ∷ []) ≡ ok (item d ts)
get_items-item {ss} {ts} n d x =
    subst (λ j. get_items n ss 0 (pos j ∷ []) ≡ ok (item d ts)) (from_zero d)
      (get_items-item_from n 0 d x)

-- A list holds the texts, and the loop has changed nothing else but the background I/O.
abbrev pub Leaves : Engine → List Str → List CString → Engine → Type 0
Leaves en ss ts en' = Texts ss ts × ((bio : Bio) × (en' ≡ record en { bio = bio }))

module _ (memory : ℕ → ℕ) (cfg : Config) (level : ℕ) (key : CString) where
  pub pop_items-drop_item :
      {ss : List Str} {ts : List CString} (n i d counter : ℕ) (en : Engine)
      → Texts ss ts
      → Returns
          (pop_items memory cfg level key n ss i (pos (i + d) ∷ []) counter en)
          λ (rest, counter', en').
            (counter' ≡ counter + length (item d ts)) × Leaves en rest (drop_item d ts) en'
  unfolding pop_items wrap string_get notice
  pop_items-drop_item n i d counter en no_texts =
      (([], counter, en), refl, (omega arith, (no_texts, (en.bio, refl))))
  pop_items-drop_item n i zero counter en (one_more {t} {n = m} {ss} x) =
      let e = notice level key (some t) none BioOperation.list_del en in
      (
        (ss, counter + 1, e),
        rw (pop_items, wrap, this_place i, is_at_here i) refl,
        (refl, (x, (e.bio, refl))),
      )
  pop_items-drop_item n i (suc d) counter en (one_more {t} {n = m} x) =
      let ((rest, counter', en'), run, (counted, (left, other))) =
        pop_items-drop_item n (i + 1) d counter en x in
      (
        (record { str = some t; len = m } ∷ rest, counter', en'),
        rw (pop_items, wrap, is_at_later i d, next_place i d, run) refl,
        (counted, (one_more left, other)),
      )

  pub add-Texts :
      {ss : List Str} {ts : List CString} (t : CString)
      → Texts ss ts
      → Texts (ss ++ (string_alloc t ∷ [])) (ts ++ (t ∷ []))
  unfolding string_alloc
  add-Texts t no_texts = one_more no_texts
  add-Texts t (one_more x) = one_more (add-Texts t x)

  set_here :
      (n i : ℕ) (text t : CString) (m : ℕ) (ss : List Str) (en : Engine)
      → set_items memory cfg level key
          (pos (i + 0))
          text
          n
          i
          (record { str = some t; len = m } ∷ ss)
          en
        ≡ ok (
          true,
          string_set text (record { str = some t; len = m }) ∷ ss,
          notice level key (some t) (some text) BioOperation.list_update en,
        )
  unfolding set_items string_get
  set_here n i text t m ss en = rw (set_items, this_place i, is_at_here i) refl

  set_last :
      (n i d : ℕ) (text : CString) (s : Str) (ss : List Str) (en : Engine)
      → n ≤ i + 1
      → set_items memory cfg level key (pos (i + suc d)) text n i (s ∷ ss) en
        ≡ ok (true, s ∷ (ss ++ (string_alloc text ∷ [])), en)
  unfolding set_items
  set_last n i d text s ss en le =
      let last : leb n (i + 1) ≡ true = ground (arith, le) in
      rw (set_items, is_at_later i d, last) refl

  set_later :
      (n i d : ℕ) (text : CString) (s : Str) (ss rest : List Str) (done : Bool) (en en' : Engine)
      → i + 1 < n
      → set_items memory cfg level key (pos (i + 1 + d)) text n (i + 1) ss en ≡ ok (done, rest, en')
      → set_items memory cfg level key (pos (i + suc d)) text n i (s ∷ ss) en
        ≡ ok (done, s ∷ rest, en')
  unfolding set_items
  set_later n i d text s ss rest done en en' lt run =
      let more : leb n (i + 1) ≡ false = ground (arith, lt) in
      let run' : set_items memory cfg level key (pos (i + suc d)) text n (i + 1) ss en
          ≡ ok (done, rest, en') =
        ap (λ j. set_items memory cfg level key (pos j) text n (i + 1) ss en) (next_place i d)
        ∙ run in
      rw (set_items, is_at_later i d, more, run') refl

  pub set_items-put_item :
      {s : Str} {ss : List Str} {ts : List CString} (n i d : ℕ) (text : CString) (en : Engine)
      → n ≡ i + suc (length ss)
      → Texts (s ∷ ss) ts
      → Returns
          (set_items memory cfg level key (pos (i + d)) text n i (s ∷ ss) en)
          λ (done, rest, en'). (done ≡ true) × Leaves en rest (put_item d text ts) en'
  unfolding string_set notice
  set_items-put_item n i zero text en e (one_more {t} {n = m} {ss} x) =
      let e = notice level key (some t) (some text) BioOperation.list_update en in
      (
        (true, string_set text (record { str = some t; len = m }) ∷ ss, e),
        set_here n i text t m ss en,
        (refl, (one_more x, (e.bio, refl))),
      )
  set_items-put_item n i (suc d) text en e (one_more {t = t} {n = m} {ss = []} no_texts) = (
    (true, record { str = some t; len = m } ∷ (string_alloc text ∷ []), en),
    set_last n i d text (record { str = some t; len = m }) [] en (omega (arith, e)),
    (refl, (one_more (add-Texts text no_texts), (en.bio, refl))),
  )
  set_items-put_item n i (suc d) text en e (one_more {t = t} {n = m} {ss = s ∷ ss} x) =
      let ((done, rest, en'), run, (fine, (left, other))) =
        set_items-put_item n (i + 1) d text en (omega (arith, e)) x in
      (
        (done, record { str = some t; len = m } ∷ rest, en'),
        set_later n i d text (record { str = some t; len = m }) (s ∷ ss) rest done en en'
            (omega (arith, e)) run,
        (fine, (one_more left, other)),
      )
