-- ===== src/Crc/Bitwise.antt =====
-- The CRC by table against the CRC by single bits.
use mts_utils.Base.{
  ℕ, zero, suc, ◌+◌, ◌*◌, ◌/◌, ◌%◌, ◌^◌, ◌==◌, if◌then◌else◌, ◌<◌, ◌≡◌, refl, arith,
}
use mts_utils.Base.{sym, ap, ◌∙◌, All, List, [], ◌∷◌, bit_and, bit_xor}
use mts_utils.Bits.{
  bit_and-field, bit_xor_comm, bit_xor_assoc, bit_xor-zero, bit_xor_swap, bit_xor-shift,
}
use mts_utils.Bits.{bit_xor-double, bit_xor-div, bit_xor-mod, bit_xor-fields, bit_xor-lt, mask_0xFF}
use native.Mathlib.Nat.{pow-suc, one-le-pow}
use mts_utils.Crc.Cancel.{crc_shifts-lt, crc_byte-lt}
use mts_utils.Crc.{crc32_poly, crc_shift, crc_shifts, crc_table, crc_byte, crc32_block}

-- The specification: the register takes a byte into its top eight bits, and is then divided by the
-- polynomial one bit at a time.
pub bitwise_byte : ℕ → ℕ → ℕ
bitwise_byte crc byte = crc_shifts 8 (bit_xor crc (byte * 2 ^ 24))

pub bitwise_crc : ℕ → List ℕ → ℕ
bitwise_crc crc [] = crc
bitwise_crc crc (byte ∷ rest) = bitwise_crc (bitwise_byte crc byte) rest

-- One shift, with the top bit as a number.
top : ℕ → ℕ
top x = x / 2 ^ 31 % 2

top-lt : (x : ℕ) → top x < 2
unfolding top
top-lt x = omega arith

poly_of : ℕ → ℕ
poly_of t = if t == 0 then 0 else crc32_poly

crc_shift_lem : (x : ℕ) → crc_shift x ≡ bit_xor (x * 2 % 2 ^ 32) (poly_of (top x))
unfolding crc_shift top poly_of
crc_shift_lem x = ground (arith, bit_and-field 31 1 x, bit_xor-zero (x * 2 % 2 ^ 32))

top-bit_xor : (x y : ℕ) → top (bit_xor x y) ≡ bit_xor (top x) (top y)
unfolding top
top-bit_xor x y = rw (bit_xor-div 31 x y) (bit_xor-mod 1 (x / 2 ^ 31) (y / 2 ^ 31))

double-bit_xor : (x y : ℕ) → bit_xor x y * 2 % 2 ^ 32 ≡ bit_xor (x * 2 % 2 ^ 32) (y * 2 % 2 ^ 32)
double-bit_xor x y = rw (← bit_xor-double x y) (bit_xor-mod 32 (x * 2) (y * 2))

poly_of-bit_xor :
    (t u : ℕ) → t < 2 → u < 2 → poly_of (bit_xor t u) ≡ bit_xor (poly_of t) (poly_of u)
unfolding poly_of
poly_of-bit_xor zero zero p q = refl
poly_of-bit_xor zero (suc zero) p q = refl
poly_of-bit_xor (suc zero) zero p q = refl
poly_of-bit_xor (suc zero) (suc zero) p q = refl
poly_of-bit_xor zero (suc (suc u)) p q = absurd (omega arith)
poly_of-bit_xor (suc zero) (suc (suc u)) p q = absurd (omega arith)
poly_of-bit_xor (suc (suc t)) u p q = absurd (omega arith)

poly_of-lt : (t : ℕ) → poly_of t < 2 ^ 32
unfolding poly_of
poly_of-lt t = ground arith

crc_shift-bit_xor : (x y : ℕ) → crc_shift (bit_xor x y) ≡ bit_xor (crc_shift x) (crc_shift y)
crc_shift-bit_xor x y =
    crc_shift_lem (bit_xor x y)
    ∙ rw
        (
          double-bit_xor x y,
          top-bit_xor x y,
          poly_of-bit_xor (top x) (top y) (top-lt x) (top-lt y),
          crc_shift_lem x,
          crc_shift_lem y,
        )
        (bit_xor_swap 32 (x * 2 % 2 ^ 32) (y * 2 % 2 ^ 32) (poly_of (top x)) (poly_of (top y))
          (omega arith) (omega arith) (poly_of-lt (top x)) (poly_of-lt (top y)))

crc_shifts-bit_xor :
    (n x y : ℕ) → crc_shifts n (bit_xor x y) ≡ bit_xor (crc_shifts n x) (crc_shifts n y)
unfolding crc_shifts
crc_shifts-bit_xor zero x y = refl
crc_shifts-bit_xor (suc n) x y =
    ap (crc_shifts n) (crc_shift-bit_xor x y) ∙ crc_shifts-bit_xor n (crc_shift x) (crc_shift y)

crc_shift_clear : (x : ℕ) → x < 2 ^ 31 → crc_shift x ≡ x * 2
unfolding crc_shift
crc_shift_clear x h = ground (arith, bit_and-field 31 1 x)

-- Where no set bit reaches the top, shifting is all there is.
crc_shifts_clear : (n x : ℕ) → x * 2 ^ n < 2 ^ 32 → crc_shifts n x ≡ x * 2 ^ n
unfolding crc_shifts
crc_shifts_clear zero x h = omega arith
crc_shifts_clear (suc n) x h =
    let room : x * 2 * 2 ^ n < 2 ^ 32 = omega (arith, ap (λ (t : ℕ). x * t) (pow-suc 2 n)) in
    let low : x < 2 ^ 31 = grind (arith, one-le-pow n 2) in
    ap (crc_shifts n) (crc_shift_clear x low)
    ∙ crc_shifts_clear n (x * 2) room
    ∙ omega (arith, ap (λ (t : ℕ). x * t) (pow-suc 2 n))

regroup :
    (crc byte : ℕ)
    → crc < 2 ^ 32
    → byte < 256
    → bit_xor crc (byte * 2 ^ 24) ≡ bit_xor (bit_xor (crc / 2 ^ 24) byte * 2 ^ 24) (crc % 2 ^ 24)
regroup crc byte hc hb =
    let high = crc / 2 ^ 24 * 2 ^ 24 in
    let low = crc % 2 ^ 24 in
    let put = byte * 2 ^ 24 in
    let small : put < 2 ^ 32 = omega arith in
    let high_small : high < 2 ^ 32 = omega arith in
    let low_small : low < 2 ^ 32 = omega arith in
    let parts : crc ≡ high + low = omega arith in
    ap (λ t. bit_xor t put) (parts ∙ sym (bit_xor-fields 24 (crc / 2 ^ 24) low (omega arith)))
    ∙ bit_xor_assoc 32 high low put high_small low_small small
    ∙ ap (bit_xor high) (bit_xor_comm 32 low put low_small small)
    ∙ sym (bit_xor_assoc 32 high put low high_small small low_small)
    ∙ ap (λ t. bit_xor t low) (bit_xor-shift 24 (crc / 2 ^ 24) byte)

-- One byte by the table comes to the same as by eight single bits.
crc_byte-eq-bitwise_byte :
    (crc byte : ℕ) → crc < 2 ^ 32 → byte < 256 → crc_byte crc byte ≡ bitwise_byte crc byte
unfolding crc_byte bitwise_byte crc_table
crc_byte-eq-bitwise_byte crc byte hc hb =
    let index = bit_xor (crc / 2 ^ 24) byte in
    let small : index < 256 = bit_xor-lt 8 (crc / 2 ^ 24) byte (omega arith) hb in
    let masked : bit_and index 0xff ≡ index = omega (arith, mask_0xFF index) in
    let entry = crc_shifts 8 (index * 2 ^ 24) in
    let entry_small : entry < 2 ^ 32 = crc_shifts-lt 8 (index * 2 ^ 24) (omega arith) in
    let low : crc_shifts 8 (crc % 2 ^ 24) ≡ crc * 2 ^ 8 % 2 ^ 32 =
      crc_shifts_clear 8 (crc % 2 ^ 24) (omega arith) ∙ omega arith in
    ap (λ t. bit_xor (crc * 2 ^ 8 % 2 ^ 32) (crc_shifts 8 (t * 2 ^ 24))) masked
    ∙ bit_xor_comm 32 (crc * 2 ^ 8 % 2 ^ 32) entry (omega arith) entry_small
    ∙ ap (bit_xor entry) (sym low)
    ∙ sym (crc_shifts-bit_xor 8 (index * 2 ^ 24) (crc % 2 ^ 24))
    ∙ ap (crc_shifts 8) (sym (regroup crc byte hc hb))

-- From a start value of 32 bits, on a block of bytes, crc32_block with its table computes the CRC
-- that single bits define.
pub crc32_block-eq-bitwise_crc :
    (crc : ℕ) (block : List ℕ)
    → crc < 2 ^ 32
    → All (λ b. b < 256) block
    → crc32_block crc block ≡ bitwise_crc crc block
unfolding crc32_block bitwise_crc
crc32_block-eq-bitwise_crc crc [] hc hb = refl
crc32_block-eq-bitwise_crc crc (byte ∷ rest) hc hb =
    crc32_block-eq-bitwise_crc (crc_byte crc byte) rest (crc_byte-lt crc byte) hb.1
    ∙ ap (λ t. bitwise_crc t rest) (crc_byte-eq-bitwise_byte crc byte hc hb.0)
