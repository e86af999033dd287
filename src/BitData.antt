-- ===== src/BitData.antt =====
-- Reading byte data as bits, and Exp-Golomb codes in it, in include/bitdata.h. A call gives its value,
-- `none` where it returns -1 or the status 1, and the changed structure; `fault` is a read outside the
-- data, a failed assertion, or a conversion to int of a number that is too large for it.
pub mod Stream
pub mod Numbers
pub mod Codes
pub mod Encode
pub mod Steps
mod Runs
use mts_utils.Base.{
  ℕ, zero, suc, ◌+◌, ◌-◌, ◌*◌, ◌/◌, ◌%◌, ◌^◌, ◌==◌, ltb, if◌then◌else◌, List, [], ◌∷◌, length,
  Option, none, some, bit_and, bit_or,
}
use mts_utils.Base.Int.{ℤ, sub_ℕ, pos}
use mts_utils.Base.Outcome.{Outcome, ok, fault, ◌>>=◌, at}
use mts_utils.Bits.{◌<<<◌, ◌>>>◌}

-- `cur_bit` is one more than in the code, where it starts at -1: it is the place of the next bit.
pub record BitData : Type 0 where
  pub bytes : List ℕ
  pub cur_byte : ℕ
  pub cur_bit : ℕ

-- MASK
abbrev pub masks : List ℕ
masks = 0x80 ∷ 0x40 ∷ 0x20 ∷ 0x10 ∷ 0x08 ∷ 0x04 ∷ 0x02 ∷ 0x01 ∷ []

unfoldable pub build_bitdata : List ℕ → BitData
build_bitdata bytes = record { bytes = bytes; cur_byte = 0; cur_bit = 0 }

-- The bit at a place of the current byte
unfoldable pub bit_here : BitData → ℕ → Outcome (Option ℕ × BitData)
bit_here bitdata bit = do
  byte ← at bitdata.bytes bitdata.cur_byte
  mask ← at masks bit
  ok (some (bit_and byte mask >>> (7 - bit)), bitdata)

unfoldable pub next_bit : BitData → Outcome (Option ℕ × BitData)
unfolding bit_here
next_bit bitdata =
    let bit = bitdata.cur_bit in
    if bit == 8
    then (let moved = record bitdata { cur_byte = suc bitdata.cur_byte; cur_bit = 1 } in
        if ltb (length moved.bytes - 1) moved.cur_byte then ok (none, moved) else bit_here moved 0)
    else bit_here (record bitdata { cur_bit = suc bit }) bit

unfoldable pub read_bit : BitData → Outcome (Option ℕ × BitData)
read_bit = next_bit

-- The loop of read_bits and read_bits_into_byte, with `left` rounds to go. The result is an unsigned
-- number of `width` bits.
unfoldable pub bits_loop : ℕ → ℕ → ℕ → BitData → Outcome (Option ℕ × BitData)
bits_loop width zero result bitdata = ok (some result, bitdata)
bits_loop width (suc left) result bitdata = next_bit bitdata >>= λ (bit, after). elim bit [
  | none ↦ ok (none, after)
  | some b ↦ bits_loop width left (bit_or (result <<< 1) b % 2 ^ width) after
]

unfoldable pub read_bits : BitData → ℕ → Outcome (Option ℕ × BitData)
unfolding bits_loop
read_bits bitdata count = if ltb 32 count then fault else bits_loop 32 count 0 bitdata

unfoldable pub read_bits_into_byte : BitData → ℕ → Outcome (Option ℕ × BitData)
unfolding bits_loop
read_bits_into_byte bitdata count = if ltb 8 count then fault else bits_loop 8 count 0 bitdata

-- `while (next_bit(bitdata) == 0) count++;` with fuel, whose end would be a fault
unfoldable pub zeros_loop : ℕ → ℕ → BitData → Outcome (ℕ × BitData)
zeros_loop zero count bitdata = fault
zeros_loop (suc fuel) count bitdata = next_bit bitdata >>= λ (bit, after). elim bit [
  | none ↦ ok (count, after)
  | some b ↦
      (let rest = zeros_loop fuel (suc count) after in if b == 0 then rest else ok (count, after))
]

-- There are no more rounds than bits in the data, and one.
unfoldable pub count_zero_bits : BitData → Outcome (ℕ × BitData)
unfolding zeros_loop
count_zero_bits bitdata = zeros_loop (suc (8 * length bitdata.bytes)) 0 bitdata

-- `(int)(pow(2, leading_zero_bits) - 1 + next)`: the numbers are exact as doubles.
unfoldable pub exp_golomb_value : ℕ → ℕ → Outcome ℕ
exp_golomb_value zeros next =
    let value = 2 ^ zeros - 1 + next in if ltb value 0x80000000 then ok value else fault

unfoldable pub read_exp_golomb : BitData → Outcome (Option ℕ × BitData)
unfolding exp_golomb_value
read_exp_golomb bitdata = count_zero_bits bitdata >>= λ (zeros, at_one).
    read_bits at_one zeros >>= λ (next, after). elim next [
      | none ↦ ok (none, after)
      | some n ↦ (exp_golomb_value zeros n >>= λ value. ok (some value, after))
    ]

-- `(int)(pow(-1, (val + 1)) * ceil(val / 2.0))`
unfoldable pub signed_value : ℕ → ℤ
signed_value val = if (val + 1) % 2 == 0 then pos ((val + 1) / 2) else sub_ℕ 0 ((val + 1) / 2)

unfoldable pub read_signed_exp_golomb : BitData → Outcome (Option ℤ × BitData)
unfolding signed_value
read_signed_exp_golomb bitdata = read_exp_golomb bitdata >>= λ (val, after). elim val [
  | none ↦ ok (none, after)
  | some v ↦ ok (some (signed_value v), after)
]
