-- ===== src/Crc/Table.antt =====
-- The table of crc16.c against the division by single bits.
use xfire_db.Base.{
  ℕ, zero, suc, ◌*◌, ◌^◌, ◌<◌, ◌≡◌, refl, ap, ◌∙◌, Bool, true, [], ◌∷◌, ◌==◌, ==_iff, ltb,
  if◌then◌else◌, inl, inr, Bool-cases, get_or, bit_xor, bit_and, shl, shr, CString, arith, ◌&&◌,
}
use xfire_db.Base.Bits.{bit_and-le}
use xfire_db.Crc.{u16, crc16tab, crc_byte, crc_loop, xfiredb_crc16}

-- one step of the division by x ^ 16 + x ^ 12 + x ^ 5 + 1
abbrev pub divide_bit : ℕ → ℕ
divide_bit crc = if ltb crc (2 ^ 15) then crc * 2 else bit_xor (u16 (crc * 2)) 0x1021

abbrev pub divide : ℕ → ℕ → ℕ
divide zero crc = crc
divide (suc n) crc = divide n (divide_bit crc)

matches : ℕ → Bool
matches zero = true
matches (suc i) = (get_or crc16tab i 0 == divide 8 (i * 2 ^ 8)) && matches i

matches-256 : matches 256 ≡ true
unfolding matches
matches-256 = refl

matches-below :
    (n : ℕ) → matches n ≡ true → (i : ℕ) → i < n → get_or crc16tab i 0 ≡ divide 8 (i * 2 ^ 8)
unfolding matches
matches-below zero h i low = absurd (omega (arith, low))
matches-below (suc n) h i low = elim (Bool-cases (get_or crc16tab n 0 == divide 8 (n * 2 ^ 8))) [
  | inl e ↦ elim (Bool-cases (i == n)) [
    | inl same ↦ rw ((==_iff i n).0 same) ((==_iff _ _).0 e)
    | inr other ↦ matches-below n (rw e at h) i (ground (arith, low, other))
  ]
  | inr e ↦ absurd (ground (arith, h, e))
]

-- Each entry of the table is what eight steps of division make of its index.
pub crc16tab-divide : (i : ℕ) → i < 256 → get_or crc16tab i 0 ≡ divide 8 (i * 2 ^ 8)
crc16tab-divide = matches-below 256 matches-256

-- the checksum without a table
unfoldable pub divide_text : ℕ → CString → ℕ
divide_text crc [] = crc
divide_text crc (c ∷ str) =
    divide_text
      (bit_xor (u16 (shl crc 8)) (divide 8 (bit_and (bit_xor (shr crc 8) c) 0xff * 2 ^ 8))) str

crc_byte-divide :
    (crc c : ℕ)
    → crc_byte crc c
      ≡ bit_xor (u16 (shl crc 8)) (divide 8 (bit_and (bit_xor (shr crc 8) c) 0xff * 2 ^ 8))
unfolding crc_byte
crc_byte-divide crc c =
    let index = bit_and (bit_xor (shr crc 8) c) 0xff in
    rw (crc16tab-divide index (omega (arith, bit_and-le (bit_xor (shr crc 8) c) 0xff))) refl

crc_loop-divide_text : (str : CString) (crc : ℕ) → crc_loop crc str ≡ divide_text crc str
unfolding crc_loop divide_text
crc_loop-divide_text [] crc = refl
crc_loop-divide_text (c ∷ str) crc =
    ap (λ crc. crc_loop crc str) (crc_byte-divide crc c)
    ∙ crc_loop-divide_text str
        (bit_xor (u16 (shl crc 8)) (divide 8 (bit_and (bit_xor (shr crc 8) c) 0xff * 2 ^ 8)))

-- The checksum of a string is the one computed by eight steps of division for each byte.
pub xfiredb_crc16-divide_text : (str : CString) → xfiredb_crc16 str ≡ divide_text 0 str
unfolding xfiredb_crc16
xfiredb_crc16-divide_text str = crc_loop-divide_text str 0
