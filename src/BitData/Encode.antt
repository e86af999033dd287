-- ===== src/BitData/Encode.antt =====
-- The codes that H.264 gives to numbers, ue(v), se(v) and u(n), and that include/bitdata.h reads them back.
use mts_utils.Base.{
  ℕ, zero, suc, ◌+◌, ◌-◌, ◌*◌, ◌/◌, ◌%◌, ◌^◌, ◌≤◌, ◌<◌, ◌≡◌, inl, inr, refl, sym, ap, ◌∙◌, arith,
  ltb, List, ◌∷◌, ◌++◌, length, replicate, some, if◌then◌else◌, ltb-eq-false, Bool-cases,
}
use mts_utils.Base.Int.{ℤ, pos, negsuc}
use mts_utils.Base.Outcome.{ok}
use mathlib.Core.Path.{subst}
use mathlib.Core.List.{append_assoc}
use native.Mathlib.Nat.{
  mod-eq_of_lt, pow-suc, mul-add-mod_self_right, mod-lt, div-add-mod', mod-eq-sub-mod,
  mul-le-mul_right,
}
use mts_utils.BitData.{
  BitData, bits_loop, read_bits, read_bits_into_byte, read_bit, read_exp_golomb, signed_value,
  read_signed_exp_golomb,
}
use mts_utils.BitData.Stream.{At, Yields, next-Yields, two_pow_pos, digits}
use mts_utils.BitData.Numbers.{binary, bits_loop-Yields}
use mts_utils.BitData.Codes.{read_exp_golomb-binary, length-digits, fits_in}

regroup : (h e p r : ℕ) → (h * 2 + e) * p + r ≡ h * (p * 2) + (e * p + r)
regroup h e p r = grind arith

digit_small : (e p r : ℕ) → e < 2 → r < p → e * p + r < p * 2
digit_small e p r small below =
    let once : e * p ≤ 1 * p = mul-le-mul_right p (omega (arith, small)) in
    omega (arith, once, below)

-- A remainder by the double, digit first
mod_by_double : (x p : ℕ) → 0 < p → x % (p * 2) ≡ x / p % 2 * p + x % p
mod_by_double x p h =
    let q = x / p in
    let r = x % p in
    let whole : x ≡ q / 2 * (p * 2) + (q % 2 * p + r) =
      sym (div-add-mod' x p)
      ∙ ap (λ (t : ℕ). t * p + r) (let halves : q ≡ q / 2 * 2 + q % 2 = omega arith in halves)
      ∙ regroup (q / 2) (q % 2) p r in
    let small : q % 2 * p + r < p * 2 = digit_small (q % 2) p r (omega arith) (mod-lt x h) in
    ap (λ t. t % (p * 2)) whole
    ∙ mul-add-mod_self_right (q / 2) (p * 2) (q % 2 * p + r)
    ∙ mod-eq_of_lt small

pub binary-digits : (w x acc : ℕ) → binary acc (digits w x) ≡ acc * 2 ^ w + x % 2 ^ w
binary-digits zero x acc = omega arith
binary-digits (suc w) x acc =
    let b = x / 2 ^ w % 2 in
    binary-digits w x (acc * 2 + b)
    ∙ rw pow-suc (rw (mod_by_double x (2 ^ w) (two_pow_pos w)) (regroup acc b (2 ^ w) (x % 2 ^ w)))

-- The place of the highest 1 of a number, within `fuel` places
unfoldable pub log2_upto : ℕ → ℕ → ℕ
log2_upto zero n = 0
log2_upto (suc fuel) n = let rest = suc (log2_upto fuel (n / 2)) in if ltb n 2 then 0 else rest

log2_bounds :
    (fuel n : ℕ)
    → 0 < n
    → n < 2 ^ suc fuel
    → (2 ^ log2_upto fuel n ≤ n) × (n < 2 ^ log2_upto fuel n * 2) × (log2_upto fuel n ≤ fuel)
unfolding log2_upto
log2_bounds zero n positive small = omega (arith, positive, small)
log2_bounds (suc fuel) n positive small = elim (Bool-cases (ltb n 2)) [
  | inl low ↦ rw low (ground arith)
  | inr high ↦
      let half : n / 2 < 2 ^ suc fuel = omega (arith, small, pow-suc 2 (suc fuel)) in
      let below = log2_bounds fuel (n / 2) (ground arith) half in
      rw high (rw pow-suc (omega (arith, below)))
]

-- ue(v)
abbrev pub ue : ℕ → List ℕ
ue v = replicate (log2_upto 31 (v + 1)) 0 ++ 1 ∷ digits (log2_upto 31 (v + 1)) (v + 1)

-- The number of a signed one in the order 0, 1, -1, 2, -2, ...
abbrev pub se_number : ℤ → ℕ
se_number (pos zero) = 0
se_number (pos (suc n)) = 2 * n + 1
se_number (negsuc n) = 2 * (n + 1)

-- se(v)
abbrev pub se : ℤ → List ℕ
se z = ue (se_number z)

code_value : (k n : ℕ) → 2 ^ k ≤ n → n < 2 ^ k * 2 → 2 ^ k - 1 + binary 0 (digits k n) ≡ n - 1
code_value k n low high =
    let left : n % 2 ^ k ≡ n - 2 ^ k =
      mod-eq-sub-mod low ∙ mod-eq_of_lt (omega (arith, low, high)) in
    omega (arith, binary-digits k n 0, left, low, two_pow_pos k)

pub read_exp_golomb-ue :
    (v : ℕ) (bd : BitData) (more : List ℕ)
    → v < 0x80000000
    → At bd (ue v ++ more)
    → Yields (read_exp_golomb bd) (some v) more
read_exp_golomb-ue v bd more small here =
    let k = log2_upto 31 (v + 1) in
    let bounds = log2_bounds 31 (v + 1) (omega arith) (omega (arith, small)) in
    let value : 2 ^ k - 1 + binary 0 (digits k (v + 1)) ≡ v =
      code_value k (v + 1) bounds.0 bounds.1 ∙ omega arith in
    let split : At bd (replicate k 0 ++ 1 ∷ (digits k (v + 1) ++ more)) =
      subst (At bd) (append_assoc (replicate k 0) (1 ∷ digits k (v + 1)) more) here in
    subst (λ (t : ℕ). Yields (read_exp_golomb bd) (some t) more) value
      (read_exp_golomb-binary k (digits k (v + 1)) bd more (length-digits k (v + 1))
        (omega (arith, bounds.2)) (omega (arith, value, small)) split)

pub signed_value-se_number : (z : ℤ) → signed_value (se_number z) ≡ z
unfolding signed_value
signed_value-se_number (pos zero) = refl
signed_value-se_number (pos (suc n)) = ground arith
signed_value-se_number (negsuc n) = ground arith

-- Where a reader stands before the code se(v) of H.264 for a signed number whose place in the
-- order 0, 1, -1, 2, -2 is below 2 to the 31, read_signed_exp_golomb gives the number, and leaves
-- what is behind the code to be read.
pub read_signed_exp_golomb-se :
    (z : ℤ) (bd : BitData) (more : List ℕ)
    → se_number z < 0x80000000
    → At bd (se z ++ more)
    → Yields (read_signed_exp_golomb bd) (some z) more
unfolding read_signed_exp_golomb
read_signed_exp_golomb-se z bd more small here =
    let read = read_exp_golomb-ue (se_number z) bd more small here in
    record {
      after = read.after;
      succeeds =
          rw read.succeeds (ap (λ (t : ℤ). ok (some t, read.after)) (signed_value-se_number z));
      there = read.there;
    }

loop-digits :
    (width w x : ℕ) (bd : BitData) (more : List ℕ)
    → w ≤ width
    → x < 2 ^ w
    → At bd (digits w x ++ more)
    → Yields (bits_loop width w 0 bd) (some x) more
loop-digits width w x bd more h small here =
    let long = length-digits w x in
    let value : binary 0 (digits w x) ≡ x =
      omega (arith, binary-digits w x 0, mod-eq_of_lt {n = x} small) in
    subst (λ (t : ℕ). Yields (bits_loop width w 0 bd) (some t) more) value
      (subst (λ (t : ℕ). Yields (bits_loop width t 0 bd) (some (binary 0 (digits w x))) more) long
        (bits_loop-Yields width (digits w x) 0 bd more
          (fits_in width (length (digits w x)) (omega (arith, long, h))) here))

pub read_bits-digits :
    (w x : ℕ) (bd : BitData) (more : List ℕ)
    → w ≤ 32
    → x < 2 ^ w
    → At bd (digits w x ++ more)
    → Yields (read_bits bd w) (some x) more
unfolding read_bits
read_bits-digits w x bd more h small here =
    rw (ltb-eq-false 32 w h) (loop-digits 32 w x bd more h small here)

pub read_bits_into_byte-digits :
    (w x : ℕ) (bd : BitData) (more : List ℕ)
    → w ≤ 8
    → x < 2 ^ w
    → At bd (digits w x ++ more)
    → Yields (read_bits_into_byte bd w) (some x) more
unfolding read_bits_into_byte
read_bits_into_byte-digits w x bd more h small here =
    rw (ltb-eq-false 8 w h) (loop-digits 8 w x bd more h small here)

pub read_bit-Yields :
    (b : ℕ) (bd : BitData) (more : List ℕ) → At bd (b ∷ more) → Yields (read_bit bd) (some b) more
unfolding read_bit
read_bit-Yields b bd more here = next-Yields bd b more here
