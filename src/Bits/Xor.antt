-- ===== src/Bits/Xor.antt =====
-- `^`: what the CRC needs of it.
use Prim.Native.Nat.{differ}
use native.Mathlib.Nat.{pow-suc, mod-one, one-le-pow, div-div-eq-div-mul}
use mts_utils.Base.{
  ℕ, zero, suc, ◌+◌, ◌*◌, ◌/◌, ◌%◌, ◌^◌, ◌≤◌, ◌<◌, ◌≡◌, refl, sym, ap, ◌∙◌, bit_xor, arith,
}
use mathlib.Core.Path.{ap₂}
use mts_utils.Bits.Digits.{bit_xor-halves}
use mts_utils.Bits.Fields.{mod-double}

differ_self : (d : ℕ) → differ d d ≡ 0
differ_self zero = refl
differ_self (suc d) = differ_self d

differ-zero : (d : ℕ) → differ d 0 ≡ d
differ-zero zero = refl
differ-zero (suc d) = refl

bit_xor_self_upto : (n a : ℕ) → a ≤ n → bit_xor a a ≡ 0
bit_xor_self_upto n zero h = refl
bit_xor_self_upto zero (suc a) h = absurd (omega arith)
bit_xor_self_upto (suc n) (suc a) h = omega (
  arith,
  bit_xor-halves (suc a) (suc a),
  differ_self (suc a % 2),
  bit_xor_self_upto n (suc a / 2) (omega arith),
)

pub bit_xor_self : (a : ℕ) → bit_xor a a ≡ 0
bit_xor_self a = bit_xor_self_upto a a (omega arith)

bit_xor-zero_upto : (n a : ℕ) → a ≤ n → bit_xor a 0 ≡ a
bit_xor-zero_upto n zero h = refl
bit_xor-zero_upto zero (suc a) h = absurd (omega arith)
bit_xor-zero_upto (suc n) (suc a) h = omega (
  arith,
  bit_xor-halves (suc a) 0,
  differ-zero (suc a % 2),
  bit_xor-zero_upto n (suc a / 2) (omega arith),
)

pub bit_xor-zero : (a : ℕ) → bit_xor a 0 ≡ a
bit_xor-zero a = bit_xor-zero_upto a a (omega arith)

differ-lt_two : (d e : ℕ) → d < 2 → e < 2 → differ d e < 2
differ-lt_two zero e p q = q
differ-lt_two (suc d) zero p q = p
differ-lt_two (suc d) (suc e) p q = differ-lt_two d e (omega arith) (omega arith)

-- `^` of two numbers of `w` bits has `w` bits.
pub bit_xor-lt : (w a b : ℕ) → a < 2 ^ w → b < 2 ^ w → bit_xor a b < 2 ^ w
bit_xor-lt zero a b p q = ground (arith)
bit_xor-lt (suc w) a b p q = ground (
  arith,
  pow-suc 2 w,
  bit_xor-halves a b,
  differ-lt_two (a % 2) (b % 2),
  bit_xor-lt w (a / 2) (b / 2),
)

differ_comm : (d e : ℕ) → differ d e ≡ differ e d
differ_comm zero zero = refl
differ_comm zero (suc e) = refl
differ_comm (suc d) zero = refl
differ_comm (suc d) (suc e) = differ_comm d e

differ_assoc_bits :
    (d e f : ℕ) → d < 2 → e < 2 → f < 2 → differ (differ d e) f ≡ differ d (differ e f)
differ_assoc_bits zero e f p q r = refl
differ_assoc_bits (suc d) zero f p q r = refl
differ_assoc_bits (suc zero) (suc zero) zero p q r = refl
differ_assoc_bits (suc zero) (suc zero) (suc zero) p q r = refl
differ_assoc_bits (suc zero) (suc zero) (suc (suc f)) p q r = absurd (omega arith)
differ_assoc_bits (suc zero) (suc (suc e)) f p q r = absurd (omega arith)
differ_assoc_bits (suc (suc d)) (suc e) f p q r = absurd (omega arith)

-- The digits of `^`: the higher ones and the lowest.
pub bit_xor-half : (a b : ℕ) → bit_xor a b / 2 ≡ bit_xor (a / 2) (b / 2)
bit_xor-half a b = omega (arith, bit_xor-halves a b, differ-lt_two (a % 2) (b % 2))

bit_xor-odd : (a b : ℕ) → bit_xor a b % 2 ≡ differ (a % 2) (b % 2)
bit_xor-odd a b = omega (arith, bit_xor-halves a b, differ-lt_two (a % 2) (b % 2))

-- `^` of numbers of `n` bits.
pub bit_xor_assoc :
    (n a b c : ℕ)
    → a < 2 ^ n
    → b < 2 ^ n
    → c < 2 ^ n
    → bit_xor (bit_xor a b) c ≡ bit_xor a (bit_xor b c)
bit_xor_assoc zero a b c p q r = ground arith
bit_xor_assoc (suc n) a b c p q r = ground (
  arith,
  pow-suc 2 n,
  bit_xor-halves (bit_xor a b) c,
  bit_xor-halves a (bit_xor b c),
  bit_xor-half a b,
  bit_xor-half b c,
  bit_xor-odd a b,
  bit_xor-odd b c,
  differ_assoc_bits (a % 2) (b % 2) (c % 2),
  bit_xor_assoc n (a / 2) (b / 2) (c / 2),
)

pub bit_xor_comm : (n a b : ℕ) → a < 2 ^ n → b < 2 ^ n → bit_xor a b ≡ bit_xor b a
bit_xor_comm zero a b p q = ground arith
bit_xor_comm (suc n) a b p q = ground (
  arith,
  pow-suc 2 n,
  bit_xor-halves a b,
  bit_xor-halves b a,
  differ_comm (a % 2) (b % 2),
  bit_xor_comm n (a / 2) (b / 2),
)

pub bit_xor-double : (a b : ℕ) → bit_xor (a * 2) (b * 2) ≡ bit_xor a b * 2
bit_xor-double a b = ground (arith, bit_xor-halves (a * 2) (b * 2))

pub bit_xor-div : (k a b : ℕ) → bit_xor a b / 2 ^ k ≡ bit_xor (a / 2 ^ k) (b / 2 ^ k)
bit_xor-div zero a b = ground arith
bit_xor-div (suc k) a b = rw pow-suc (
    ground (
      arith,
      bit_xor-half a b,
      div-div-eq-div-mul a 2 (2 ^ k),
      div-div-eq-div-mul b 2 (2 ^ k),
      div-div-eq-div-mul (bit_xor a b) 2 (2 ^ k),
      bit_xor-div k (a / 2) (b / 2),
    ))

bit_xor-digit :
    (x y d e : ℕ) → d < 2 → e < 2 → bit_xor (x * 2 + d) (y * 2 + e) ≡ bit_xor x y * 2 + differ d e
bit_xor-digit x y d e p q =
    bit_xor-halves (x * 2 + d) (y * 2 + e)
    ∙ ap₂ (λ s t. s * 2 + t) (ap₂ bit_xor hx hy) (ap₂ differ hd he)
  where
    hx : (x * 2 + d) / 2 ≡ x
    hx = omega arith

    hy : (y * 2 + e) / 2 ≡ y
    hy = omega arith

    hd : (x * 2 + d) % 2 ≡ d
    hd = omega arith

    he : (y * 2 + e) % 2 ≡ e
    he = omega arith

module _ (p a b : ℕ) (pos : 0 < p) where
  bit_xor-mod_double :
      bit_xor (a / 2) (b / 2) % p ≡ bit_xor (a / 2 % p) (b / 2 % p)
      → bit_xor a b % (p * 2) ≡ bit_xor (a % (p * 2)) (b % (p * 2))
  bit_xor-mod_double ih =
      rw (mod-double a p pos, mod-double b p pos, mod-double (bit_xor a b) p pos)
        (rw (
          bit_xor-half a b,
          bit_xor-odd a b,
          bit_xor-digit (a / 2 % p) (b / 2 % p) (a % 2) (b % 2) (omega arith) (omega arith),
          ih,
        ))

pub bit_xor-mod : (k a b : ℕ) → bit_xor a b % 2 ^ k ≡ bit_xor (a % 2 ^ k) (b % 2 ^ k)
bit_xor-mod zero a b = rw (mod-one a, mod-one b) (mod-one _)
bit_xor-mod (suc k) a b =
    rw pow-suc (
      bit_xor-mod_double (2 ^ k) a b (one-le-pow k 2 (omega arith)) (bit_xor-mod k (a / 2) (b / 2)))

-- `^` of fields that do not overlap.
pub bit_xor-fields : (k hi lo : ℕ) → lo < 2 ^ k → bit_xor (hi * 2 ^ k) lo ≡ hi * 2 ^ k + lo
bit_xor-fields zero hi lo h = ground (arith, bit_xor-zero hi)
bit_xor-fields (suc k) hi lo h =
    ground (arith, pow-suc 2 k, bit_xor-halves (hi * (2 ^ k * 2)) lo, bit_xor-fields k hi (lo / 2))

pub bit_xor-shift : (k a b : ℕ) → bit_xor (a * 2 ^ k) (b * 2 ^ k) ≡ bit_xor a b * 2 ^ k
bit_xor-shift zero a b = ground arith
bit_xor-shift (suc k) a b =
    rw pow-suc (ground (arith, bit_xor-double (a * 2 ^ k) (b * 2 ^ k), bit_xor-shift k a b))

-- Two pairs may be regrouped.
pub bit_xor_swap :
    (n a b c d : ℕ)
    → a < 2 ^ n
    → b < 2 ^ n
    → c < 2 ^ n
    → d < 2 ^ n
    → bit_xor (bit_xor a b) (bit_xor c d) ≡ bit_xor (bit_xor a c) (bit_xor b d)
bit_xor_swap n a b c d ha hb hc hd =
    bit_xor_assoc n a b (bit_xor c d) ha hb (bit_xor-lt n c d hc hd)
    ∙ ap (bit_xor a) (
        sym (bit_xor_assoc n b c d hb hc hd)
        ∙ ap (λ t. bit_xor t d) (bit_xor_comm n b c hb hc)
        ∙ bit_xor_assoc n c b d hc hb hd)
    ∙ sym (bit_xor_assoc n a c (bit_xor b d) ha hc (bit_xor-lt n b d hb hd))
