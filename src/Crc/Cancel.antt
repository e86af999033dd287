-- ===== src/Crc/Cancel.antt =====
-- The CRC over a block and its own CRC.
use mts_utils.Base.{
  ℕ, zero, suc, ◌*◌, ◌/◌, ◌%◌, ◌^◌, ◌<◌, ◌≡◌, refl, ◌∙◌, arith, List, [], ◌∷◌, ◌++◌,
}
use mts_utils.Base.{bit_and, bit_xor}
use mts_utils.Bits.{bit_xor_self, bit_xor-zero, bit_xor-lt, mask_0xFF}
use mts_utils.Crc.{crc32_poly, crc_shift, crc_shifts, crc_table, crc_byte, crc32_block}

-- A block may be given in pieces.
pub crc32_block-append :
    (crc : ℕ) (xs ys : List ℕ) → crc32_block crc (xs ++ ys) ≡ crc32_block (crc32_block crc xs) ys
unfolding crc32_block
crc32_block-append crc [] ys = refl
crc32_block-append crc (x ∷ xs) ys = crc32_block-append (crc_byte crc x) xs ys

crc_table_first : crc_table 0 ≡ 0
unfolding crc_table
crc_table_first = refl

crc_shift-lt : (crc : ℕ) → crc_shift crc < 2 ^ 32
unfolding crc_shift
crc_shift-lt crc =
    ground (arith, bit_xor-lt 32 (crc * 2 ^ 1 % 2 ^ 32) crc32_poly (omega arith) (omega arith))

pub crc_shifts-lt : (n crc : ℕ) → crc < 2 ^ 32 → crc_shifts n crc < 2 ^ 32
unfolding crc_shifts
crc_shifts-lt zero crc h = h
crc_shifts-lt (suc n) crc h = crc_shifts-lt n (crc_shift crc) (crc_shift-lt crc)

pub crc_byte-lt : (crc byte : ℕ) → crc_byte crc byte < 2 ^ 32
unfolding crc_byte crc_table
crc_byte-lt crc byte =
    let i = bit_and (bit_xor (crc / 2 ^ 24) byte) 0xff in
    let small : i < 256 = omega (arith, mask_0xFF (bit_xor (crc / 2 ^ 24) byte)) in
    bit_xor-lt 32 (crc * 2 ^ 8 % 2 ^ 32) (crc_table i) (omega arith)
      (crc_shifts-lt 8 (i * 2 ^ 24) (omega arith))

-- The register stays within 32 bits.
pub crc32_block-lt :
    (start : ℕ) (block : List ℕ) → start < 2 ^ 32 → crc32_block start block < 2 ^ 32
unfolding crc32_block
crc32_block-lt start [] h = h
crc32_block-lt start (x ∷ xs) h = crc32_block-lt (crc_byte start x) xs (crc_byte-lt start x)

-- The top byte of the register, fed back, is shifted out.
feed_top : (crc byte : ℕ) → byte ≡ crc / 2 ^ 24 → crc_byte crc byte ≡ crc * 2 ^ 8 % 2 ^ 32
unfolding crc_byte
feed_top crc byte e = rw (e, bit_xor_self, crc_table_first, bit_xor-zero)

-- The four bytes of a CRC, the highest first.
abbrev pub big_endian : ℕ → List ℕ
big_endian crc = crc / 2 ^ 24 ∷ crc / 2 ^ 16 % 256 ∷ crc / 2 ^ 8 % 256 ∷ crc % 256 ∷ []

feed_all : (crc : ℕ) → crc < 2 ^ 32 → crc32_block crc (big_endian crc) ≡ 0
unfolding crc32_block
feed_all crc h =
    let one = crc * 2 ^ 8 % 2 ^ 32 in
    let two = one * 2 ^ 8 % 2 ^ 32 in
    let three = two * 2 ^ 8 % 2 ^ 32 in
    rw
      (
        feed_top crc _ refl,
        feed_top one (crc / 2 ^ 16 % 256) (omega arith),
        feed_top two (crc / 2 ^ 8 % 256) (omega arith),
        feed_top three (crc % 256) (omega arith),
      )
      (omega arith)

-- From a start value of 32 bits, the CRC over a block with its CRC behind it is 0, whatever the
-- block.
pub crc32_block-cancel :
    (start : ℕ) (block : List ℕ)
    → start < 2 ^ 32
    → crc32_block start (block ++ big_endian (crc32_block start block)) ≡ 0
crc32_block-cancel start block h =
    crc32_block-append start block (big_endian (crc32_block start block))
    ∙ feed_all (crc32_block start block) (crc32_block-lt start block h)
