-- ===== src/BitData/Runs.antt =====
-- Concrete runs of the bit reader of include/bitdata.h.
use mts_utils.Base.{◌≡◌, refl, arith, [], ◌∷◌, ◌++◌, some}
use mts_utils.Base.Int.{negsuc}
use mts_utils.Base.Outcome
use mts_utils.Base.Outcome.{ok}
use mts_utils.BitData.{
  BitData, read_bits, read_exp_golomb, read_signed_exp_golomb, count_zero_bits, zeros_loop,
  next_bit, bit_here, bits_loop, exp_golomb_value,
}
use mts_utils.BitData.Stream.{At, Yields, remaining}
use mts_utils.BitData.Codes.{ReadsBits, read_bits-ReadsBits}
use mts_utils.BitData.Encode.{se, log2_upto, read_signed_exp_golomb-se}

-- 00101 1 10, of which the first five bits are se(-2).
abbrev one_byte : BitData
one_byte = record { bytes = 0x2E ∷ []; cur_byte = 0; cur_bit = 0 }

one_byte-At : At one_byte (0 ∷ 0 ∷ 1 ∷ 0 ∷ 1 ∷ 1 ∷ 1 ∷ 0 ∷ [])
unfolding remaining
one_byte-At = record { inside = omega arith; in_byte = omega arith; rest = refl }

read_bits-ReadsBits_example :
    ReadsBits 5 (0 ∷ 0 ∷ 1 ∷ 0 ∷ 1 ∷ 1 ∷ 1 ∷ 0 ∷ []) (read_bits one_byte 5)
read_bits-ReadsBits_example =
    read_bits-ReadsBits one_byte 5 (0 ∷ 0 ∷ 1 ∷ 0 ∷ 1 ∷ 1 ∷ 1 ∷ 0 ∷ []) (omega arith) one_byte-At

signed_At : At one_byte (se (negsuc 1) ++ 1 ∷ 1 ∷ 0 ∷ [])
unfolding remaining log2_upto
signed_At = record { inside = omega arith; in_byte = omega arith; rest = refl }

read_signed_exp_golomb-se_example :
    Yields (read_signed_exp_golomb one_byte) (some (negsuc 1)) (1 ∷ 1 ∷ 0 ∷ [])
read_signed_exp_golomb-se_example =
    read_signed_exp_golomb-se (negsuc 1) one_byte (1 ∷ 1 ∷ 0 ∷ []) (omega arith) signed_At

-- Eight zeros and the end: the count is 8, and the bits for the number are read outside the data.
abbrev no_one : BitData
no_one = record { bytes = 0 ∷ []; cur_byte = 0; cur_bit = 0 }

-- Behind the last bit a code is read all the same, as 0.
abbrev used_up : BitData
used_up = record { bytes = 0 ∷ []; cur_byte = 0; cur_bit = 8 }

beyond_the_end :
    read_exp_golomb used_up ≡ ok (some 0, record { bytes = 0 ∷ []; cur_byte = 1; cur_bit = 1 })
unfolding read_exp_golomb count_zero_bits zeros_loop next_bit bit_here read_bits bits_loop
    exp_golomb_value
beyond_the_end = refl

outside_the_data : read_exp_golomb no_one ≡ Outcome.fault
unfolding read_exp_golomb count_zero_bits zeros_loop next_bit bit_here read_bits bits_loop
    exp_golomb_value
outside_the_data = refl
