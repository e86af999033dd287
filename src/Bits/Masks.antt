-- ===== src/Bits/Masks.antt =====
-- The masks that the code uses, as division and remainder, and `|` with what it sets.
use mts_utils.Base.{ℕ, ◌+◌, ◌*◌, ◌/◌, ◌%◌, ◌<◌, ◌≡◌, bit_and, bit_or, arith}
use mts_utils.Bits.Fields.{bit_and-low, bit_and-field, bit_or-eq-add}

pub mask_0x01 : (x : ℕ) → bit_and x 0x01 ≡ x % 2
mask_0x01 = bit_and-low 1

pub mask_0x07 : (x : ℕ) → bit_and x 0x07 ≡ x % 8
mask_0x07 = bit_and-low 3

pub mask_0x0F : (x : ℕ) → bit_and x 0x0F ≡ x % 16
mask_0x0F = bit_and-low 4

pub mask_0x1F : (x : ℕ) → bit_and x 0x1F ≡ x % 32
mask_0x1F = bit_and-low 5

pub mask_0x3F : (x : ℕ) → bit_and x 0x3F ≡ x % 64
mask_0x3F = bit_and-low 6

pub mask_0x7F : (x : ℕ) → bit_and x 0x7F ≡ x % 128
mask_0x7F = bit_and-low 7

pub mask_0xFF : (x : ℕ) → bit_and x 0xFF ≡ x % 256
mask_0xFF = bit_and-low 8

pub mask_0x7FFF : (x : ℕ) → bit_and x 0x7FFF ≡ x % 32768
mask_0x7FFF = bit_and-low 15

pub mask_0x0E : (x : ℕ) → bit_and x 0x0E ≡ x / 2 % 8 * 2
mask_0x0E = bit_and-field 1 3

pub mask_0x10 : (x : ℕ) → bit_and x 0x10 ≡ x / 16 % 2 * 16
mask_0x10 = bit_and-field 4 1

pub mask_0x30 : (x : ℕ) → bit_and x 0x30 ≡ x / 16 % 4 * 16
mask_0x30 = bit_and-field 4 2

pub mask_0x40 : (x : ℕ) → bit_and x 0x40 ≡ x / 64 % 2 * 64
mask_0x40 = bit_and-field 6 1

pub mask_0xC0 : (x : ℕ) → bit_and x 0xC0 ≡ x / 64 % 4 * 64
mask_0xC0 = bit_and-field 6 2

pub mask_0xF0 : (x : ℕ) → bit_and x 0xF0 ≡ x / 16 % 16 * 16
mask_0xF0 = bit_and-field 4 4

pub mask_0x3E : (x : ℕ) → bit_and x 0x3E ≡ x / 2 % 32 * 2
mask_0x3E = bit_and-field 1 5

pub mask_0xFE : (x : ℕ) → bit_and x 0xFE ≡ x / 2 % 128 * 2
mask_0xFE = bit_and-field 1 7

pub mask_0x7F80 : (x : ℕ) → bit_and x 0x7F80 ≡ x / 128 % 256 * 128
mask_0x7F80 = bit_and-field 7 8

pub mask_0x1F00 : (x : ℕ) → bit_and x 0x1F00 ≡ x / 256 % 32 * 256
mask_0x1F00 = bit_and-field 8 5

pub mask_0x0F00 : (x : ℕ) → bit_and x 0x0F00 ≡ x / 256 % 16 * 256
mask_0x0F00 = bit_and-field 8 4

pub mask_0xFF00 : (x : ℕ) → bit_and x 0xFF00 ≡ x / 256 % 256 * 256
mask_0xFF00 = bit_and-field 8 8

pub ruleset masks = (
  mask_0x01, mask_0x07, mask_0x0F, mask_0x1F, mask_0x3F, mask_0x7F, mask_0xFF, mask_0x7FFF,
  mask_0x0E, mask_0x10, mask_0x30, mask_0x40, mask_0xC0, mask_0xF0, mask_0x3E, mask_0xFE,
  mask_0x7F80, mask_0x1F00, mask_0x0F00, mask_0xFF00,
)

-- `(hi << 8) | lo`
pub join_bytes : (hi lo : ℕ) → lo < 256 → bit_or (hi * 256) lo ≡ hi * 256 + lo
join_bytes hi lo h = bit_or-eq-add 8 (hi * 256) lo (omega arith) h
