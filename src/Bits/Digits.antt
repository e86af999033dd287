-- ===== src/Bits/Digits.antt =====
-- The native bit operations are a recursion on binary digits that counts them down; here the
-- count is gone, and each operation has one equation for the lowest digit.
use Prim.Native.Nat.{min, max, differ, digits, bitwise}
use Prim.Native.Nat.{bit_and-bitwise, bit_or-bitwise, bit_xor-bitwise}
use mts_utils.Base.{ℕ, zero, suc, ◌+◌, ◌*◌, ◌/◌, ◌%◌, ◌≤◌, ◌≡◌, refl, ap, arith}
use mts_utils.Base.{bit_and, bit_or, bit_xor}

module _ (rest : ℕ → ℕ) (op : ℕ → ℕ → ℕ) where
  -- Any two counts that cover the first number give the same result.
  count_free : (a b n m : ℕ) → a ≤ n → a ≤ m → digits rest op n a b ≡ digits rest op m a b
  count_free zero b zero zero p q = refl
  count_free zero b zero (suc m) p q = refl
  count_free zero b (suc n) zero p q = refl
  count_free zero b (suc n) (suc m) p q = refl
  count_free (suc a) b zero m p q = absurd (omega arith)
  count_free (suc a) b (suc n) zero p q = absurd (omega arith)
  count_free (suc a) b (suc n) (suc m) p q =
      let same = count_free (suc a / 2) (b / 2) n m (omega arith) (omega arith) in
      ap (λ t. t * 2 + op (suc a % 2) (b % 2)) same

  -- The lowest digit apart, where the first number has one.
  lowest :
      (a b : ℕ)
      → bitwise rest op (suc a) b ≡ bitwise rest op (suc a / 2) (b / 2) * 2 + op (suc a % 2) (b % 2)
  lowest a b =
      let same = count_free (suc a / 2) (b / 2) a (suc a / 2) (omega arith) (omega arith) in
      ap (λ t. t * 2 + op (suc a % 2) (b % 2)) same

pub bit_and-halves : (a b : ℕ) → bit_and a b ≡ bit_and (a / 2) (b / 2) * 2 + min (a % 2) (b % 2)
bit_and-halves zero b = omega (arith, bit_and-bitwise 0 b, bit_and-bitwise 0 (b / 2))
bit_and-halves (suc a) b =
    omega (
      arith,
      bit_and-bitwise (suc a) b,
      bit_and-bitwise (suc a / 2) (b / 2),
      lowest (λ y. 0) min a b,
    )

pub bit_or-halves : (a b : ℕ) → bit_or a b ≡ bit_or (a / 2) (b / 2) * 2 + max (a % 2) (b % 2)
bit_or-halves zero b = omega (arith, bit_or-bitwise 0 b, bit_or-bitwise 0 (b / 2))
bit_or-halves (suc a) b =
    omega
      (arith, bit_or-bitwise (suc a) b, bit_or-bitwise (suc a / 2) (b / 2), lowest (λ y. y) max a b)

pub bit_xor-halves : (a b : ℕ) → bit_xor a b ≡ bit_xor (a / 2) (b / 2) * 2 + differ (a % 2) (b % 2)
bit_xor-halves zero b = omega (arith, bit_xor-bitwise 0 b, bit_xor-bitwise 0 (b / 2))
bit_xor-halves (suc a) b = omega (
  arith,
  bit_xor-bitwise (suc a) b,
  bit_xor-bitwise (suc a / 2) (b / 2),
  lowest (λ y. y) differ a b,
)
