-- ===== src/Bits/Fields.antt =====
-- `<<`, `>>`, `&` with a mask of adjacent ones, and `|` of fields that do not overlap.
use native.Mathlib.Nat.{
  pow-suc, one-le-pow, mod-eq_of_lt, add-mul-mod_self_left, mod-add-div, div-div-eq-div-mul,
}
use mts_utils.Base.{ℕ, zero, suc, ◌+◌, ◌-◌, ◌*◌, ◌/◌, ◌%◌, ◌^◌, ◌≤◌, ◌<◌, ◌≡◌, refl, ap, ◌∙◌}
use mts_utils.Base.{bit_and, bit_or, arith}
use mts_utils.Bits.Digits.{bit_and-halves, bit_or-halves}

-- `x << k` (before any truncation) and `x >> k`
infixl 68 ◌<<<◌ ◌>>>◌
abbrev pub ◌<<<◌ : ℕ → ℕ → ℕ
x <<< k = x * 2 ^ k

abbrev pub ◌>>>◌ : ℕ → ℕ → ℕ
x >>> k = x / 2 ^ k

-- `(byte)x`
abbrev pub to_byte : ℕ → ℕ
to_byte x = x % 256

bit_and-zero_upto : (n a : ℕ) → a ≤ n → bit_and a 0 ≡ 0
bit_and-zero_upto n zero h = refl
bit_and-zero_upto zero (suc a) h = absurd (omega arith)
bit_and-zero_upto (suc n) (suc a) h =
    omega (arith, bit_and-halves (suc a) 0, bit_and-zero_upto n (suc a / 2) (omega arith))

bit_or-zero_upto : (n a : ℕ) → a ≤ n → bit_or a 0 ≡ a
bit_or-zero_upto n zero h = refl
bit_or-zero_upto zero (suc a) h = absurd (omega arith)
bit_or-zero_upto (suc n) (suc a) h =
    omega (arith, bit_or-halves (suc a) 0, bit_or-zero_upto n (suc a / 2) (omega arith))

pub bit_and-zero : (a : ℕ) → bit_and a 0 ≡ 0
bit_and-zero a = bit_and-zero_upto a a (omega arith)

pub bit_or-zero : (a : ℕ) → bit_or a 0 ≡ a
bit_or-zero a = bit_or-zero_upto a a (omega arith)

-- The remainder by an even number, from that of the half.
pub mod-double : (a p : ℕ) → 0 < p → a % (p * 2) ≡ a / 2 % p * 2 + a % 2
mod-double a p h =
    ap (λ t. t % (p * 2)) whole
    ∙ add-mul-mod_self_left (a / 2 % p * 2 + a % 2) (p * 2) (a / 2 / p)
    ∙ mod-eq_of_lt small
  where
    whole : a ≡ a / 2 % p * 2 + a % 2 + p * 2 * (a / 2 / p)
    whole = omega (arith, mod-add-div (a / 2) p)

    small : a / 2 % p * 2 + a % 2 < p * 2
    small = omega arith

-- `x & (2^w - 1)`
pub bit_and-low : (w a : ℕ) → bit_and a (2 ^ w - 1) ≡ a % 2 ^ w
bit_and-low zero a = omega (arith, bit_and-zero a)
bit_and-low (suc w) a = rw pow-suc (
    ground (
      arith,
      one-le-pow w 2,
      mod-double a (2 ^ w),
      bit_and-halves a (2 ^ w * 2 - 1),
      bit_and-low w (a / 2),
    ))

-- `x & ((2^w - 1) << lo)`
pub bit_and-field : (lo w a : ℕ) → bit_and a ((2 ^ w - 1) * 2 ^ lo) ≡ a / 2 ^ lo % 2 ^ w * 2 ^ lo
bit_and-field zero w a = ground (arith, bit_and-low w a)
bit_and-field (suc lo) w a = rw pow-suc (
    ground (
      arith,
      div-div-eq-div-mul a 2 (2 ^ lo),
      bit_and-halves a ((2 ^ w - 1) * (2 ^ lo * 2)),
      bit_and-field lo w (a / 2),
    ))

-- `a | b` is a sum where the low `k` bits of `a` are clear and `b` has no others.
pub bit_or-eq-add : (k a b : ℕ) → a % 2 ^ k ≡ 0 → b < 2 ^ k → bit_or a b ≡ a + b
bit_or-eq-add zero a b clear small = ground (arith, bit_or-zero a)
bit_or-eq-add (suc k) a b clear small = ground (
  arith,
  pow-suc 2 k,
  one-le-pow k 2,
  mod-double a (2 ^ k),
  bit_or-halves a b,
  bit_or-eq-add k (a / 2) (b / 2),
)
