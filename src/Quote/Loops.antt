-- ===== src/Quote/Loops.antt =====
-- What the loops of quotearg.c write, and when there is room for it.
use xfire_db.Base.{
  ℕ, ◌+◌, ◌≤◌, ◌<◌, ◌≡◌, refl, ◌∙◌, false, Option, none, some, List, [], ◌∷◌, ◌++◌, ◌==◌, length,
  length-append, CString, Run, ok, fault, ◌>>=◌, arith,
}
use mathlib.Core.List.{append-nil, append_assoc}
use xfire_db.Quote.{backslash, unescape_char, letter, put, escape_char, escape_loop}

-- the text that a character is escaped to
unfoldable pub quoted : ℕ → List ℕ
quoted c = elim (letter c) [ none ↦ c ∷ [] | some x ↦ backslash ∷ x ∷ [] ]

-- the escaped form of a text
unfoldable pub escaped : CString → CString
escaped [] = []
escaped (c ∷ cs) = quoted c ++ escaped cs

pub put-room :
    (size c : ℕ) (dst : List ℕ) → length dst < size → put size c dst ≡ ok (dst ++ (c ∷ []))
unfolding put
put-room size c dst h = ground arith

pub put-full : (size c : ℕ) (dst : List ℕ) → size ≤ length dst → put size c dst ≡ fault
unfolding put
put-full size c dst h = ground arith

pub escape_char-room :
    (size c : ℕ) (dst : List ℕ)
    → length dst + length (quoted c) ≤ size
    → escape_char size c dst ≡ ok (dst ++ quoted c)
unfolding escape_char quoted
escape_char-room size c dst h = outcome (letter c) h
  where
    outcome :
        (o : Option ℕ)
        → length dst
            + length (elim o as (λ o. List ℕ) [ none ↦ c ∷ [] | some x ↦ backslash ∷ x ∷ [] ])
          ≤ size
        → elim o as (λ o. Run (List ℕ)) [
          | none ↦ put size c dst
          | some x ↦ put size backslash dst >>= λ dst. put size x dst
        ]
          ≡ ok (dst ++ elim o as (λ o. List ℕ) [ none ↦ c ∷ [] | some x ↦ backslash ∷ x ∷ [] ])
    outcome none h = put-room size c dst (omega (arith, h))
    outcome (some x) h = rw (put-room size backslash dst (omega (arith, h))) (
        put-room size x (dst ++ (backslash ∷ []))
          (omega (arith, h, length-append dst (backslash ∷ [])))
        ∙ rw (append_assoc dst (backslash ∷ []) (x ∷ [])) refl)

pub escape_loop-room :
    (size : ℕ) (s : CString) (dst : List ℕ)
    → length dst + length (escaped s) ≤ size
    → escape_loop size s dst ≡ ok (dst ++ escaped s)
unfolding escape_loop escaped
escape_loop-room size [] dst h = rw (append-nil dst) refl
escape_loop-room size (c ∷ s) dst h =
    rw
      (
        escape_char-room size c dst (omega (arith, length-append (quoted c) (escaped s))),
        escape_loop-room size s (dst ++ quoted c)
            (omega (arith, length-append dst (quoted c), length-append (quoted c) (escaped s))),
      )
      (rw (append_assoc dst (quoted c) (escaped s)) refl)

pub letter-back : (c x : ℕ) → letter c ≡ some x → unescape_char x ≡ c
unfolding letter unescape_char
letter-back c x h = ground arith

pub letter-backslash : (c : ℕ) → letter c ≡ none → (c == backslash) ≡ false
unfolding letter
letter-backslash c h = ground arith
