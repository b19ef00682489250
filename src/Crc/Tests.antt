-- ===== src/Crc/Tests.antt =====
-- The checksum of a concrete string.
use xfire_db.Base.{◌≡◌, refl, [], ◌∷◌, CString}
use xfire_db.Crc.{crc_byte, crc_loop, xfiredb_crc16}
use xfire_db.Crc.Table.{divide_text, xfiredb_crc16-divide_text}

-- the check value of this checksum: that of the digits from 1 to 9
abbrev digits : CString
digits = b'1' ∷ b'2' ∷ b'3' ∷ b'4' ∷ b'5' ∷ b'6' ∷ b'7' ∷ b'8' ∷ b'9' ∷ []

crc-digits : xfiredb_crc16 digits ≡ 0x31c3
unfolding xfiredb_crc16 crc_loop crc_byte
crc-digits = refl

xfiredb_crc16-divide_text_example : xfiredb_crc16 digits ≡ divide_text 0 digits
xfiredb_crc16-divide_text_example = xfiredb_crc16-divide_text digits
