-- ===== src/Quote.antt =====
-- libxfiredbengine/quotearg.c: escaping and unescaping of strings. A buffer is the bytes written to
-- it and its size, and a write behind its end is a fault. The block that `xfiredb_realloc` returns
-- is its bytes, with no room for a terminator. The argument of `escape_string` is the text before a
-- terminator; that of `unescape_string` is a block, in which it looks for one. A
-- length is a natural number, which the `int` of the code holds for strings of fewer than 2 ^ 30 bytes.
pub mod Loops
pub mod Roundtrip
mod Tests
use xfire_db.Base.{
  ℕ, zero, suc, ◌+◌, ◌*◌, ◌<◌, Bool, true, false, Option, none, some, List, [], ◌∷◌, ◌++◌, ◌==◌,
  ltb, if◌then◌else◌, length, CString, Run, ok, fault, ◌>>=◌,
}

abbrev pub backslash : ℕ
backslash = 92

-- `xfiredb_unescape_char`
unfoldable pub unescape_char : ℕ → ℕ
unescape_char c =
    if c == b'a'
    then 7
    else if c == b'b'
    then 8
    else if c == b'f'
    then 12
    else if c == b'n'
    then 10
    else if c == b'r'
    then 13
    else if c == b't'
    then 9
    else if c == b'v'
    then 11
    else c

-- the letter behind the backslash for a character that is escaped
unfoldable pub letter : ℕ → Option ℕ
letter c =
    if c == 7
    then some b'a'
    else if c == 8
    then some b'b'
    else if c == 12
    then some b'f'
    else if c == 10
    then some b'n'
    else if c == 13
    then some b'r'
    else if c == 9
    then some b't'
    else if c == 11
    then some b'v'
    else if c == backslash
    then some backslash
    else if c == 34
    then some 34
    else if c == 39
    then some 39
    else none

-- `*(dst++) = c` in a buffer of `size` bytes
unfoldable pub put : ℕ → ℕ → List ℕ → Run (List ℕ)
put size c dst = if ltb (length dst) size then ok (dst ++ (c ∷ [])) else fault

-- the bytes before the first terminator
unfoldable pub c_string : List ℕ → CString
c_string [] = []
c_string (c ∷ cs) = if c == 0 then [] else c ∷ c_string cs

-- `strlen` of a block, as the text before its terminator; without one the end of the block is passed
unfoldable pub read_string : List ℕ → Run CString
read_string [] = fault
read_string (c ∷ cs) = elim (c == 0) [ true ↦ ok [] | false ↦ read_string cs >>= λ s. ok (c ∷ s) ]

-- the loop of `xfiredb_unescape_string`; a backslash at the end makes it read behind the terminator
unfoldable pub unescape_loop : ℕ → CString → List ℕ → Run (List ℕ)
unescape_loop size [] dst = ok dst
unescape_loop size (c ∷ []) dst = if c == backslash then fault else put size c dst
unescape_loop size (c ∷ e ∷ src) dst = elim (c == backslash) [
  | true ↦ put size (unescape_char e) dst >>= λ dst. unescape_loop size src dst
  | false ↦ put size c dst >>= λ dst. unescape_loop size (e ∷ src) dst
]

-- `xfiredb_unescape_string`
unfoldable pub unescape_string : List ℕ → Run (List ℕ)
unescape_string block = do
  src ← read_string block
  dst ← unescape_loop (length src) src []
  all ← put (length src) 0 dst
  ok (c_string all)

-- one pass through the `switch` of `xfiredb_escape_string`
unfoldable pub escape_char : ℕ → ℕ → List ℕ → Run (List ℕ)
escape_char size c dst = elim (letter c) [
  | none ↦ put size c dst
  | some x ↦ put size backslash dst >>= λ dst. put size x dst
]

unfoldable pub escape_loop : ℕ → CString → List ℕ → Run (List ℕ)
escape_loop size [] dst = ok dst
escape_loop size (c ∷ src) dst = do dst ← escape_char size c dst; escape_loop size src dst

-- `xfiredb_escape_string`
unfoldable pub escape_string : CString → Run (List ℕ)
escape_string src = do
  dst ← escape_loop (length src * 2) src []
  all ← put (length src * 2) 0 dst
  ok (c_string all)
