-- ===== src/Quote/Tests.antt =====
-- The theorems on escaping at a concrete string.
use xfire_db.Base.{◌≡◌, [], ◌∷◌, ◌++◌, ◌||◌, if◌then◌else◌, CString, ok, fault, ◌>>=◌, arith}
use xfire_db.Quote.{escape_string, unescape_string}
use xfire_db.Quote.Loops.{escaped}
use xfire_db.Quote.Roundtrip.{
  IsText, all_special, all_plain, unescape_string-escaped, unescape_string-escape_string,
}

-- a letter, a newline and a quotation mark
abbrev text : CString
text = b'x' ∷ 10 ∷ 34 ∷ []

text-IsText : IsText text
text-IsText = (ground arith, (ground arith, (ground arith, tt)))

unescape_string-escaped_example :
    unescape_string (escaped text ++ (0 ∷ [])) ≡ (if all_plain text then fault else ok text)
unescape_string-escaped_example = unescape_string-escaped text text-IsText

unescape_string-escape_string_example :
    ((escape_string text >>= unescape_string) ≡ fault)
    × ((escape_string text >>= λ b. unescape_string (b ++ (0 ∷ [])))
        ≡ (if all_special text || all_plain text then fault else ok text))
unescape_string-escape_string_example = unescape_string-escape_string text text-IsText (omega arith)
