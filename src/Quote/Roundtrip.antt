-- ===== src/Quote/Roundtrip.antt =====
-- Unescaping what was escaped, with the sizes of the two buffers.
use mathlib.Core.List.{append-nil, append_assoc}
use xfire_db.Base.{
  ℕ, ◌^◌, ◌+◌, ◌*◌, ◌≤◌, ◌<◌, ◌≡◌, refl, ◌∙◌, ◌≢◌, inl, inr, Bool, true, false, Option, none, some,
  List, [], ◌∷◌, ◌++◌, ◌&&◌, ◌||◌, not, is_some, ◌==◌, ltb, leb, if◌then◌else◌, length,
  length-append, CString, ok, fault, ◌>>=◌, arith, Bool-cases,
}
use xfire_db.Quote.{
  backslash, unescape_char, letter, c_string, read_string, unescape_loop, unescape_string,
  escape_string,
}
use xfire_db.Quote.Loops.{
  quoted, escaped, put-room, put-full, escape_loop-room, letter-back, letter-backslash,
}

-- a C string holds no terminator
abbrev pub IsText : CString → Type 0
IsText [] = Unit {0}
IsText (c ∷ cs) = (c ≢ 0) × IsText cs

-- the characters that C writes with a backslash: those from \a to \r, and the quotation marks and the
-- backslash itself
abbrev pub is_special : ℕ → Bool
is_special c = (leb 7 c && leb c 13) || (c == 34) || (c == 39) || (c == 92)

letter-special : (c : ℕ) → is_some (letter c) ≡ is_special c
unfolding letter
letter-special c = ground arith

-- every character is special, or none is
abbrev pub all_special : CString → Bool
all_special [] = true
all_special (c ∷ cs) = is_special c && all_special cs

abbrev pub all_plain : CString → Bool
all_plain [] = true
all_plain (c ∷ cs) = not (is_special c) && all_plain cs

length-quoted : (c : ℕ) → length (quoted c) ≡ (if is_special c then 2 else 1)
unfolding quoted
length-quoted c = outcome (letter c) ∙ rw (letter-special c) refl
  where
    outcome :
        (o : Option ℕ)
        → length (elim o as (λ o. List ℕ) [ none ↦ c ∷ [] | some x ↦ backslash ∷ x ∷ [] ])
          ≡ (if is_some o then 2 else 1)
    outcome none = refl
    outcome (some x) = refl

-- The escaped form takes from one to two bytes for each character; two exactly if all are special,
-- and one if all are plain.
length-escaped_most :
    (s : CString)
    → (length (escaped s) ≤ length s * 2)
      × (ltb (length (escaped s)) (length s * 2) ≡ not (all_special s))
unfolding escaped
length-escaped_most [] = (omega arith, refl)
length-escaped_most (c ∷ s) =
    let (le, tells) = length-escaped_most s in
    let split = length-append (quoted c) (escaped s) in
    let part = length-quoted c in
    (ground (arith, le, split, part), ground (arith, le, tells, split, part))

length-escaped_least :
    (s : CString)
    → (length s ≤ length (escaped s)) × (ltb (length s) (length (escaped s)) ≡ not (all_plain s))
unfolding escaped
length-escaped_least [] = (omega arith, refl)
length-escaped_least (c ∷ s) =
    let (le, tells) = length-escaped_least s in
    let split = length-append (quoted c) (escaped s) in
    let part = length-quoted c in
    (ground (arith, le, split, part), ground (arith, le, tells, split, part))

c_string-end : (s : CString) → IsText s → c_string (s ++ (0 ∷ [])) ≡ s
unfolding c_string
c_string-end [] t = refl
c_string-end (c ∷ s) (ne, t) = let rest = c_string-end s t in ground (arith, rest)

read_string-text : (s : CString) → IsText s → read_string s ≡ fault
unfolding read_string
read_string-text [] t = refl
read_string-text (c ∷ s) (ne, t) =
    let off : (c == 0) ≡ false = ground arith in rw (read_string, off, read_string-text s t) refl

read_string-end : (s : CString) → IsText s → read_string (s ++ (0 ∷ [])) ≡ ok s
unfolding read_string
read_string-end [] t = refl
read_string-end (c ∷ s) (ne, t) =
    let off : (c == 0) ≡ false = ground arith in rw (read_string, off, read_string-end s t) refl

letter-ne_zero : (c x : ℕ) → letter c ≡ some x → x ≢ 0
unfolding letter
letter-ne_zero c x h = ground arith

escaped-IsText : (s : CString) → IsText s → IsText (escaped s)
unfolding escaped quoted
escaped-IsText [] t = tt
escaped-IsText (c ∷ s) (ne, t) = outcome (letter c) (letter-ne_zero c) (escaped-IsText s t)
  where
    outcome :
        (o : Option ℕ)
        → ((x : ℕ) → o ≡ some x → x ≢ 0)
        → IsText (escaped s)
        → IsText
            ((elim o as (λ o. List ℕ) [ none ↦ c ∷ [] | some x ↦ backslash ∷ x ∷ [] ]) ++ escaped s)
    outcome none h rest = (ne, rest)
    outcome (some x) h rest = (ground arith, (h x refl, rest))

module _ (size : ℕ) where
  unescape_loop-plain :
      (c : ℕ) (src : CString) (dst : List ℕ)
      → (c == backslash) ≡ false
      → length dst < size
      → unescape_loop size (c ∷ src) dst ≡ unescape_loop size src (dst ++ (c ∷ []))
  unfolding unescape_loop
  unescape_loop-plain c [] dst e h = rw e (put-room size c dst h)
  unescape_loop-plain c (x ∷ src) dst e h = rw (unescape_loop, e, put-room size c dst h) refl

  unescape_loop-escaped :
      (s : CString) (dst : List ℕ)
      → length dst + length s ≤ size
      → unescape_loop size (escaped s) dst ≡ ok (dst ++ s)
  unfolding escaped quoted unescape_loop
  unescape_loop-escaped [] dst h = rw (append-nil dst) refl
  unescape_loop-escaped (c ∷ s) dst h = outcome (letter c) (letter-backslash c) (letter-back c) (
      unescape_loop-escaped s (dst ++ (c ∷ [])) (omega (arith, length-append dst (c ∷ [])))
      ∙ rw (append_assoc dst (c ∷ []) s) refl)
    where
      outcome :
          (o : Option ℕ)
          → (o ≡ none → (c == backslash) ≡ false)
          → ((x : ℕ) → o ≡ some x → unescape_char x ≡ c)
          → unescape_loop size (escaped s) (dst ++ (c ∷ [])) ≡ ok (dst ++ (c ∷ s))
          → unescape_loop size
              ((elim o as (λ o. List ℕ) [ none ↦ c ∷ [] | some x ↦ backslash ∷ x ∷ [] ])
                ++ escaped s)
              dst
            ≡ ok (dst ++ (c ∷ s))
      outcome none plain back rest =
          unescape_loop-plain c (escaped s) dst (plain refl) (omega (arith, h)) ∙ rest
      outcome (some x) plain back rest =
          rw (back x refl, put-room size c dst (omega (arith, h))) rest

pub escape_string_lem :
    (s : CString) → IsText s → escape_string s ≡ (if all_special s then fault else ok (escaped s))
unfolding escape_string
escape_string_lem s t =
    let (le, tells) = length-escaped_most s in
    rw (escape_loop-room (length s * 2) s [] (omega (arith, le)))
      (elim (Bool-cases (all_special s)) [
        | inl e ↦ rw (e, put-full (length s * 2) 0 (escaped s) (ground arith)) refl
        | inr e ↦
            rw
              (
                e,
                put-room (length s * 2) 0 (escaped s) (ground arith),
                c_string-end (escaped s) (escaped-IsText s t),
              )
              refl
      ])

-- Unescaping the escaped form of a C string, with a terminator, gives the string back if at least one
-- character is special; otherwise, the terminator is written behind the end of the block, which is a
-- fault.
pub unescape_string-escaped :
    (s : CString)
    → IsText s
    → unescape_string (escaped s ++ (0 ∷ [])) ≡ (if all_plain s then fault else ok s)
unfolding unescape_string
unescape_string-escaped s t =
    let (le, tells) = length-escaped_least s in
    let size = length (escaped s) in
    rw
      (
        read_string-end (escaped s) (escaped-IsText s t),
        unescape_loop-escaped size s [] (omega (arith, le)),
      )
      (elim (Bool-cases (all_plain s)) [
        | inl e ↦ rw (e, put-full size 0 s (ground arith)) refl
        | inr e ↦ rw (e, put-room size 0 s (ground arith), c_string-end s t) refl
      ])

-- Unescaping the block that escaping a C string of fewer than 2 ^ 30 bytes returns, so that an `int`
-- holds twice its length, is a fault for every string, as the block has no terminator. With a terminator put behind it, the string comes back if it has both a special
-- character (from \a to \r, a quotation mark or a backslash) and one that is not; otherwise one of
-- the two functions writes its own terminator behind the end of its block.
pub unescape_string-escape_string :
    (s : CString)
    → IsText s
    → length s < 2 ^ 30
    → ((escape_string s >>= unescape_string) ≡ fault)
      × ((escape_string s >>= λ b. unescape_string (b ++ (0 ∷ [])))
          ≡ (if all_special s || all_plain s then fault else ok s))
unescape_string-escape_string s t short = (
  rw (escape_string_lem s t) (elim (Bool-cases (all_special s)) [
    | inl e ↦ rw e refl
    | inr e ↦ rw e (unfold unescape_string in rw unread refl)
  ]),
  rw (escape_string_lem s t) (elim (Bool-cases (all_special s)) [
    | inl e ↦ rw e refl
    | inr e ↦ rw e (unescape_string-escaped s t)
  ]),
)
  where
    unread : read_string (escaped s) ≡ fault
    unread = read_string-text (escaped s) (escaped-IsText s t)
