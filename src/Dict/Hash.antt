-- ===== src/Dict/Hash.antt =====
-- `dict_hash_key` of storage/dict.c, which storage/skiplist.c repeats: a 32-bit hash of a key. The
-- blocks are read little-endian, and a `char` is signed, as on x86.
use xfire_db.Base.{
  ℕ, ◌+◌, ◌-◌, ◌*◌, ◌^◌, [], ◌∷◌, bit_or, bit_xor, ltb, if◌then◌else◌, u32, shl, shr, CString,
  length,
}

abbrev pub murmur_c1 : ℕ
murmur_c1 = 0xcc9e2d51

abbrev pub murmur_c2 : ℕ
murmur_c2 = 0x1b873593

-- `DICT_SEED`
abbrev pub dict_seed : ℕ
dict_seed = 0x8FE3C9A1

-- one round of the loop over `blocks`
mix_block : ℕ → ℕ → ℕ
mix_block hash k =
    let k1 = u32 (k * murmur_c1) in
    let k1 = bit_or (u32 (shl k1 15)) (shr k1 17) in
    let k1 = u32 (k1 * murmur_c2) in
    let hash = bit_xor hash k1 in u32 (bit_or (u32 (shl hash 13)) (shr hash 19) * 5 + 0xe6546b64)

-- a `char` as the `u32` that it is converted to
sign_extend : ℕ → ℕ
sign_extend c = if ltb c 128 then c else 2 ^ 32 - 256 + c

-- `case 1` with the mixing of `k2`; the rotation takes `MURMUR_R2` left and 32 - `MURMUR_R1` right
mix_tail : ℕ → ℕ → ℕ
mix_tail hash k2 =
    let k2 = u32 (k2 * murmur_c1) in
    let k2 = bit_or (u32 (shl k2 13)) (shr k2 17) in
    let k2 = u32 (k2 * murmur_c2) in bit_xor hash k2

-- the loop over the blocks, and the `switch` on the bytes that are left
hash_body : ℕ → CString → ℕ
unfolding mix_block sign_extend mix_tail
hash_body hash [] = hash
hash_body hash (a ∷ []) = mix_tail hash (sign_extend a)
hash_body hash (a ∷ b ∷ []) = mix_tail hash (bit_xor (u32 (shl (sign_extend b) 8)) (sign_extend a))
hash_body hash (a ∷ b ∷ c ∷ []) =
    let k2 = bit_xor (u32 (shl (sign_extend c) 16)) (u32 (shl (sign_extend b) 8)) in
    mix_tail hash (bit_xor k2 (sign_extend a))
hash_body hash (a ∷ b ∷ c ∷ d ∷ rest) =
    hash_body (mix_block hash (a + b * 2 ^ 8 + c * 2 ^ 16 + d * 2 ^ 24)) rest

unfoldable pub hash_key : CString → ℕ → ℕ
unfolding hash_body
hash_key key seed =
    let hash = bit_xor (hash_body seed key) (length key) in
    let hash = bit_xor hash (shr hash 16) in
    let hash = u32 (hash * 0x85ebca6b) in
    let hash = bit_xor hash (shr hash 13) in
    let hash = u32 (hash * 0xc2b2ae35) in bit_xor hash (shr hash 16)
