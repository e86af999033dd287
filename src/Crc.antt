-- ===== src/Crc.antt =====
-- The CRC of PAT and PMT sections: make_crc_table and crc32_block of include/misc.h.
pub mod Cancel
pub mod Bitwise
mod Runs
use mts_utils.Base.{ℕ, zero, suc, ◌+◌, ◌*◌, ◌/◌, ◌%◌, ◌^◌, ◌==◌, if◌then◌else◌}
use mts_utils.Base.{List, [], ◌∷◌, bit_and, bit_xor}
use mts_utils.Bits.{◌<<<◌, ◌>>>◌}

abbrev pub crc32_poly : ℕ
crc32_poly = 0x04c11db7

-- The body of the inner loop of make_crc_table, on a uint32_t.
pub crc_shift : ℕ → ℕ
crc_shift crc =
    if bit_and crc 0x80000000 == 0
    then (crc <<< 1) % 2 ^ 32
    else bit_xor ((crc <<< 1) % 2 ^ 32) crc32_poly

pub crc_shifts : ℕ → ℕ → ℕ
crc_shifts zero crc = crc
crc_shifts (suc n) crc = crc_shifts n (crc_shift crc)

-- crc_table[i]
unfoldable pub crc_table : ℕ → ℕ
unfolding crc_shifts crc_shift
crc_table i = crc_shifts 8 (i <<< 24)

-- The body of the loop of crc32_block.
unfoldable pub crc_byte : ℕ → ℕ → ℕ
unfolding crc_table
crc_byte crc byte =
    let i = bit_and (bit_xor (crc >>> 24) byte) 0xff in bit_xor ((crc <<< 8) % 2 ^ 32) (crc_table i)

unfoldable pub crc32_block : ℕ → List ℕ → ℕ
crc32_block crc [] = crc
crc32_block crc (byte ∷ rest) = crc32_block (crc_byte crc byte) rest
