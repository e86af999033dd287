-- ===== src/BitData/Codes.antt =====
-- Exp-Golomb codes, and fields of a fixed width, as include/bitdata.h reads them.
use mts_utils.Base.{
  ℕ, zero, suc, ◌+◌, ◌-◌, ◌*◌, ◌^◌, ◌≤◌, ◌<◌, ◌≡◌, inl, inr, refl, sym, ap, ◌∙◌, arith, ltb, List,
  [], ◌∷◌, ◌++◌, take, drop, length, get_or, replicate, Option, none, some, ltb-eq-true,
  ltb-eq-false, Bool-cases, length-append, length-replicate, length-take, take-append-drop,
  length-drop,
}
use mts_utils.Base.Outcome.{Outcome, ok}
use mathlib.Core.Path.{subst}
use native.Mathlib.Nat.{pow-le-pow_right, add-zero}
use mts_utils.BitData.{
  BitData, bits_loop, read_bits, read_bits_into_byte, zeros_loop, count_zero_bits, exp_golomb_value,
  read_exp_golomb,
}
use mts_utils.BitData.Stream.{At, Yields, next-Yields, remaining, bits_of, digits}
use mts_utils.BitData.Numbers.{binary, binary-lt, bits_loop-Yields, bits_loop-none}

-- So many bits are there, and read as a number; or there are fewer, which the status says.
pub data ReadsBits (count : ℕ) (bits : List ℕ) (call : Outcome (Option ℕ × BitData)) : Type 0 where
  enough :
      count ≤ length bits
      → binary 0 (take count bits) < 2 ^ count
      → Yields call (some (binary 0 (take count bits))) (drop count bits)
      → ReadsBits count bits call
  too_few :
      length bits < count → (after : BitData) → call ≡ ok (none, after) → ReadsBits count bits call

pub fits_in : (width count : ℕ) → count ≤ width → (0 + 1) * 2 ^ count ≤ 2 ^ width
fits_in width count h = omega (arith, pow-le-pow_right {n = 2} (omega arith) h)

loop-ReadsBits :
    (width count : ℕ) (bd : BitData) (bits : List ℕ)
    → count ≤ width
    → At bd bits
    → ReadsBits count bits (bits_loop width count 0 bd)
loop-ReadsBits width count bd bits h here = elim (Bool-cases (ltb (length bits) count)) [
  | inl few ↦
      let short : length bits < count = ground arith in
      let (after, ends) = bits_loop-none width count 0 bd bits here short in
      too_few short after ends
  | inr there ↦
      let many : count ≤ length bits = ground arith in
      let long : length (take count bits) ≡ count = length-take count bits many in
      let split : At bd (take count bits ++ drop count bits) =
        subst (At bd) (sym (take-append-drop count bits)) here in
      let small = binary-lt (take count bits) 0 bd (drop count bits) split in
      let read =
        bits_loop-Yields width (take count bits) 0 bd (drop count bits)
          (fits_in width (length (take count bits)) (omega (arith, long, h))) split in
      enough many
        (subst (λ (t : ℕ). binary 0 (take count bits) < 2 ^ t) long (omega (arith, small)))
        (subst
          (λ (t : ℕ).
            Yields (bits_loop width t 0 bd) (some (binary 0 (take count bits))) (drop count bits))
          long read)
]

-- For a reader that stands in its data and a count of 32 at most, read_bits gives the number that
-- the next bits make, which is below 2 to the count, and leaves the bits behind them to be read,
-- if there are so many; if there are fewer, it gives the status 1.
pub read_bits-ReadsBits :
    (bd : BitData) (count : ℕ) (bits : List ℕ)
    → count ≤ 32
    → At bd bits
    → ReadsBits count bits (read_bits bd count)
unfolding read_bits
read_bits-ReadsBits bd count bits h here =
    rw (ltb-eq-false 32 count h) (loop-ReadsBits 32 count bd bits h here)

pub read_bits_into_byte-ReadsBits :
    (bd : BitData) (count : ℕ) (bits : List ℕ)
    → count ≤ 8
    → At bd bits
    → ReadsBits count bits (read_bits_into_byte bd count)
unfolding read_bits_into_byte
read_bits_into_byte-ReadsBits bd count bits h here =
    rw (ltb-eq-false 8 count h) (loop-ReadsBits 8 count bd bits h here)

zeros_loop-Yields :
    (n fuel count : ℕ) (bd : BitData) (more : List ℕ)
    → n < fuel
    → At bd (replicate n 0 ++ 1 ∷ more)
    → Yields (zeros_loop fuel count bd) (n + count) more
unfolding zeros_loop
zeros_loop-Yields n zero count bd more h here = absurd (omega (arith, h))
zeros_loop-Yields zero (suc fuel) count bd more h here =
    let read = next-Yields bd 1 more here in
    record {
      after = read.after;
      succeeds = rw read.succeeds (ap (λ (t : ℕ). ok (t, read.after)) (omega arith));
      there = read.there;
    }
zeros_loop-Yields (suc n) (suc fuel) count bd more h here =
    let read = next-Yields bd 0 (replicate n 0 ++ 1 ∷ more) here in
    let further =
      zeros_loop-Yields n fuel (suc count) read.after more (omega (arith, h)) read.there in
    record {
      after = further.after;
      succeeds =
          rw read.succeeds (further.succeeds ∙ ap (λ (t : ℕ). ok (t, further.after)) (omega arith));
      there = further.there;
    }

pub length-digits : (w x : ℕ) → length (digits w x) ≡ w
length-digits zero x = refl
length-digits (suc w) x = omega (arith, length-digits w x)

pub length-bits_of : (bytes : List ℕ) → length (bits_of bytes) ≡ 8 * length bytes
length-bits_of [] = refl
length-bits_of (b ∷ bytes) =
    omega (arith, length-append (digits 8 b) (bits_of bytes), length-bits_of bytes)

-- There are no more bits to come than the data has.
length-bits : (bd : BitData) (bits : List ℕ) → At bd bits → length bits ≤ 8 * length bd.bytes
unfolding remaining
length-bits bd bits here =
    let w = 8 - bd.cur_bit in
    let byte = get_or bd.bytes bd.cur_byte 0 in
    omega (
      arith,
      ap length here.rest,
      length-append (digits w byte) (bits_of (drop (suc bd.cur_byte) bd.bytes)),
      length-digits w byte,
      length-bits_of (drop (suc bd.cur_byte) bd.bytes),
      length-drop (suc bd.cur_byte) bd.bytes,
      here.inside,
    )

pub count_zero_bits-Yields :
    (n : ℕ) (bd : BitData) (more : List ℕ)
    → At bd (replicate n 0 ++ 1 ∷ more)
    → Yields (count_zero_bits bd) n more
unfolding count_zero_bits
count_zero_bits-Yields n bd more here =
    subst (λ (t : ℕ). Yields (zeros_loop (suc (8 * length bd.bytes)) 0 bd) t more) (add-zero n)
      (zeros_loop-Yields n (suc (8 * length bd.bytes)) 0 bd more
        (omega (
          arith,
          length-bits bd (replicate n 0 ++ 1 ∷ more) here,
          length-append (replicate n 0) (1 ∷ more),
          length-replicate {A = ℕ} n 0,
        ))
        here)

-- The bits of a code word: zeros, a 1, and as many bits as there are zeros
pub read_exp_golomb-binary :
    (n : ℕ) (bs : List ℕ) (bd : BitData) (more : List ℕ)
    → length bs ≡ n
    → n ≤ 32
    → 2 ^ n - 1 + binary 0 bs < 0x80000000
    → At bd (replicate n 0 ++ 1 ∷ (bs ++ more))
    → Yields (read_exp_golomb bd) (some (2 ^ n - 1 + binary 0 bs)) more
unfolding read_exp_golomb exp_golomb_value read_bits
read_exp_golomb-binary n bs bd more long h small here =
    let zeros = count_zero_bits-Yields n bd (bs ++ more) here in
    let read =
      bits_loop-Yields 32 bs 0 zeros.after more (fits_in 32 (length bs) (omega (arith, long, h)))
        zeros.there in
    let taken : read_bits zeros.after n ≡ ok (some (binary 0 bs), read.after) =
      rw (ltb-eq-false 32 n h)
        (ap (λ (t : ℕ). bits_loop 32 t 0 zeros.after) (sym long) ∙ read.succeeds) in
    record {
      after = read.after;
      succeeds =
          rw zeros.succeeds
            (rw taken (rw (ltb-eq-true (2 ^ n - 1 + binary 0 bs) 0x80000000 small) refl));
      there = read.there;
    }
