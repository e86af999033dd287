-- ===== src/Crc/Runs.antt =====
-- The CRC of concrete blocks.
use mts_utils.Base.{ℕ, ◌≡◌, refl, arith, List, [], ◌∷◌, ◌++◌}
use mts_utils.Crc.{crc32_block, crc_table}
use mts_utils.Crc.Cancel.{big_endian, crc32_block-cancel}
use mts_utils.Crc.Bitwise.{bitwise_crc, crc32_block-eq-bitwise_crc}

-- The program association section for program 1 at PID 0x66 of stream 1.
abbrev section : List ℕ
section = 0x00 ∷ 0xB0 ∷ 0x0D ∷ 0x00 ∷ 0x01 ∷ 0xC1 ∷ 0x00 ∷ 0x00 ∷ 0x00 ∷ 0x01 ∷ 0xE0 ∷ 0x66 ∷ []

first_entry : crc_table 1 ≡ 0x04c11db7
unfolding crc_table
first_entry = refl

crc32_block-cancel_example :
    crc32_block 0xffffffff (section ++ big_endian (crc32_block 0xffffffff section)) ≡ 0
crc32_block-cancel_example = crc32_block-cancel 0xffffffff section (omega arith)

crc32_block-eq-bitwise_crc_example :
    crc32_block 0xffffffff (0x00 ∷ 0xB0 ∷ []) ≡ bitwise_crc 0xffffffff (0x00 ∷ 0xB0 ∷ [])
crc32_block-eq-bitwise_crc_example =
    crc32_block-eq-bitwise_crc 0xffffffff (0x00 ∷ 0xB0 ∷ []) (omega arith)
      (omega arith, (omega arith, tt))
