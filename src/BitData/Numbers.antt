-- ===== src/BitData/Numbers.antt =====
-- What read_bits and read_exp_golomb of include/bitdata.h make of the bits to come.
use mts_utils.Base.{
  ℕ, zero, suc, ◌+◌, ◌*◌, ◌%◌, ◌^◌, ◌≤◌, ◌<◌, ◌≡◌, refl, ap, ◌∙◌, arith, List, [], ◌∷◌, ◌++◌,
  length, none, some, bit_or,
}
use mts_utils.Base.Outcome.{ok}
use native.Mathlib.Nat.{mod-eq_of_lt, pow-suc, mul-le-mul_right, mul-le-mul_left}
use mts_utils.Bits.{◌<<<◌, bit_or-eq-add}
use mts_utils.BitData.{BitData, bits_loop}
use mts_utils.BitData.Stream.{At, Yields, next-Yields, next-none, bit_lt_two, two_pow_pos}

-- Bits as a number, behind those of another
abbrev pub binary : ℕ → List ℕ → ℕ
binary acc [] = acc
binary acc (b ∷ bs) = binary (acc * 2 + b) bs

room_after : (acc b p m : ℕ) → b < 2 → (acc + 1) * (p * 2) ≤ m → (acc * 2 + b + 1) * p ≤ m
room_after acc b p m small fits =
    let wider : (acc * 2 + b + 1) * p ≤ ((acc + 1) * 2) * p =
      mul-le-mul_right p (omega (arith, small)) in
    let same : ((acc + 1) * 2) * p ≡ (acc + 1) * (p * 2) = grind arith in
    omega (arith, wider, same, fits)

room : (acc b p m : ℕ) → b < 2 → 0 < p → (acc + 1) * (p * 2) ≤ m → acc * 2 + b < m
room acc b p m small pos fits =
    let after = room_after acc b p m small fits in
    let once : (acc * 2 + b + 1) * 1 ≤ (acc * 2 + b + 1) * p =
      mul-le-mul_left (acc * 2 + b + 1) pos in
    omega (arith, after, once)

shifted_in :
    (width acc b : ℕ)
    → b < 2
    → acc * 2 + b < 2 ^ width
    → bit_or (acc <<< 1) b % 2 ^ width ≡ acc * 2 + b
shifted_in width acc b small fits =
    ap (λ t. t % 2 ^ width) (bit_or-eq-add 1 (acc * 2) b (omega arith) small) ∙ mod-eq_of_lt fits

-- The result has room for the bits to come.
abbrev Fits : ℕ → ℕ → ℕ → Type 0
Fits width acc n = (acc + 1) * 2 ^ n ≤ 2 ^ width

module _ (width : ℕ) where
  pub bits_loop-Yields :
      (bs : List ℕ) (acc : ℕ) (bd : BitData) (more : List ℕ)
      → Fits width acc (length bs)
      → At bd (bs ++ more)
      → Yields (bits_loop width (length bs) acc bd) (some (binary acc bs)) more
  unfolding bits_loop
  bits_loop-Yields [] acc bd more fits here = record { after = bd; succeeds = refl; there = here }
  bits_loop-Yields (b ∷ bs) acc bd more fits here =
      let read = next-Yields bd b (bs ++ more) here in
      let small = bit_lt_two bd b (bs ++ more) here in
      let wide : (acc + 1) * (2 ^ length bs * 2) ≤ 2 ^ width = rw (← pow-suc 2 (length bs)) fits in
      let joined =
        shifted_in width acc b small
          (room acc b (2 ^ length bs) (2 ^ width) small (two_pow_pos (length bs)) wide) in
      let further =
        bits_loop-Yields bs (acc * 2 + b) read.after more
          (room_after acc b (2 ^ length bs) (2 ^ width) small wide) read.there in
      record {
        after = further.after;
        succeeds =
            rw read.succeeds
              (ap (λ (t : ℕ). bits_loop width (length bs) t read.after) joined ∙ further.succeeds);
        there = further.there;
      }

  pub bits_loop-none :
      (count acc : ℕ) (bd : BitData) (bits : List ℕ)
      → At bd bits
      → length bits < count
      → (after : BitData) × (bits_loop width count acc bd ≡ ok (none, after))
  unfolding bits_loop
  bits_loop-none zero acc bd bits here h = absurd (omega (arith, h))
  bits_loop-none (suc count) acc bd [] here h =
      let (after, ends) = next-none bd here in (after, rw ends refl)
  bits_loop-none (suc count) acc bd (b ∷ bits) here h =
      let read = next-Yields bd b bits here in
      let (after, ends) =
        bits_loop-none count (bit_or (acc <<< 1) b % 2 ^ width) read.after bits read.there
          (omega (arith, h)) in
      (after, rw read.succeeds ends)

pub binary-lt :
    (bs : List ℕ) (acc : ℕ) (bd : BitData) (more : List ℕ)
    → At bd (bs ++ more)
    → binary acc bs < (acc + 1) * 2 ^ length bs
binary-lt [] acc bd more here = omega arith
binary-lt (b ∷ bs) acc bd more here =
    let read = next-Yields bd b (bs ++ more) here in
    let small = bit_lt_two bd b (bs ++ more) here in
    let rest = binary-lt bs (acc * 2 + b) read.after more read.there in
    let wide =
      room_after acc b (2 ^ length bs) ((acc + 1) * (2 ^ length bs * 2)) small (omega arith) in
    rw pow-suc (omega (arith, rest, wide))
