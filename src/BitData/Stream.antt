-- ===== src/BitData/Stream.antt =====
-- The bits of the data of include/bitdata.h as a list, and where a reader stands in them.
use mts_utils.Base.{
  ℕ, zero, suc, ◌-◌, ◌*◌, ◌/◌, ◌%◌, ◌^◌, ◌≤◌, ◌<◌, ◌≡◌, inl, inr, refl, ap, ◌∙◌, arith, ltb, List,
  [], ◌∷◌, ◌++◌, drop, get_or, length, Option, none, some, bit_and, ==-eq-true, ==-eq-false,
  drop-eq-cons, Bool-cases,
}
use mts_utils.Base.Outcome.{Outcome, ok, at}
use mathlib.Core.Path.{subst}
use native.Mathlib.Nat.{mul-div_cancel, one-le-pow}
use mts_utils.Bits.{◌>>>◌, bit_and-field}
use mts_utils.BitData.{BitData, masks, next_bit, bit_here}

-- The last `w` binary digits of a number, the highest first
abbrev pub digits : ℕ → ℕ → List ℕ
digits zero x = []
digits (suc w) x = (x / 2 ^ w % 2) ∷ digits w x

-- The bits of bytes, from the most significant one of the first
abbrev pub bits_of : List ℕ → List ℕ
bits_of [] = []
bits_of (byte ∷ bytes) = digits 8 byte ++ bits_of bytes

-- What is still to be read
unfoldable pub remaining : BitData → List ℕ
remaining bd =
    digits (8 - bd.cur_bit) (get_or bd.bytes bd.cur_byte 0)
    ++ bits_of (drop (suc bd.cur_byte) bd.bytes)

-- A reader that stands in its data, before these bits
pub record At (bd : BitData) (bits : List ℕ) : Type 0 where
  pub inside : bd.cur_byte < length bd.bytes
  pub in_byte : bd.cur_bit ≤ 8
  pub rest : remaining bd ≡ bits

pub two_pow_pos : (k : ℕ) → 0 < 2 ^ k
two_pow_pos k = one-le-pow k 2 (omega arith)

bit_of : (byte k : ℕ) → bit_and byte ((2 ^ 1 - 1) * 2 ^ k) >>> k ≡ byte / 2 ^ k % 2
bit_of byte k =
    ap (λ t. t / 2 ^ k) (bit_and-field k 1 byte) ∙ mul-div_cancel (byte / 2 ^ k % 2) (two_pow_pos k)

mask_at : (bit : ℕ) → bit < 8 → at masks bit ≡ ok ((2 ^ 1 - 1) * 2 ^ (7 - bit))
mask_at zero h = refl
mask_at (suc zero) h = refl
mask_at (suc (suc zero)) h = refl
mask_at (suc (suc (suc zero))) h = refl
mask_at (suc (suc (suc (suc zero)))) h = refl
mask_at (suc (suc (suc (suc (suc zero))))) h = refl
mask_at (suc (suc (suc (suc (suc (suc zero)))))) h = refl
mask_at (suc (suc (suc (suc (suc (suc (suc zero))))))) h = refl
mask_at (suc (suc (suc (suc (suc (suc (suc (suc n)))))))) h = absurd (omega (arith, h))

abbrev byte_now : BitData → ℕ
byte_now bd = get_or bd.bytes bd.cur_byte 0

byte_at : (bytes : List ℕ) (i : ℕ) → i < length bytes → at bytes i ≡ ok (get_or bytes i 0)
byte_at [] i h = absurd (omega (arith, h))
byte_at (b ∷ bytes) zero h = refl
byte_at (b ∷ bytes) (suc i) h = byte_at bytes i (omega (arith, h))

bit_here_lem :
    (bd : BitData) (bit : ℕ)
    → bd.cur_byte < length bd.bytes
    → bit < 8
    → bit_here bd bit ≡ ok (some (byte_now bd / 2 ^ (7 - bit) % 2), bd)
unfolding bit_here
bit_here_lem bd bit inside h =
    rw (byte_at bd.bytes bd.cur_byte inside, mask_at bit h)
      (ap (λ (t : ℕ). ok (some t, bd)) (bit_of (byte_now bd) (7 - bit)))

drop_past : (bytes : List ℕ) (i : ℕ) → length bytes ≤ i → drop i bytes ≡ []
drop_past [] zero h = refl
drop_past [] (suc i) h = refl
drop_past (b ∷ bytes) zero h = absurd (omega (arith, h))
drop_past (b ∷ bytes) (suc i) h = drop_past bytes i (omega (arith, h))

-- There is no bit, which is said; or the first one is read.
pub data NextBit (bd : BitData) (result : Outcome (Option ℕ × BitData)) : Type 0 where
  ended : remaining bd ≡ [] → (after : BitData) → result ≡ ok (none, after) → NextBit bd result
  bit_read :
      (bit : ℕ) (more : List ℕ) (after : BitData)
      → remaining bd ≡ bit ∷ more
      → bit < 2
      → result ≡ ok (some bit, after)
      → At after more
      → NextBit bd result

next_in_byte :
    (bd : BitData) → bd.cur_byte < length bd.bytes → bd.cur_bit < 8 → NextBit bd (next_bit bd)
unfolding next_bit remaining
next_in_byte bd inside h =
    let bit = bd.cur_bit in
    let after = record bd { cur_bit = suc bit } in
    let byte = byte_now bd in
    let beyond = bits_of (drop (suc bd.cur_byte) bd.bytes) in
    let one_less : 8 - bit ≡ suc (7 - bit) = omega (arith, h) in
    let left : 8 - suc bit ≡ 7 - bit = omega (arith, h) in
    bit_read (byte / 2 ^ (7 - bit) % 2) (digits (7 - bit) byte ++ beyond) after
      (ap (λ (t : ℕ). digits t byte ++ beyond) one_less) (omega arith)
      (rw (==-eq-false bit 8 (λ e. absurd (omega (arith, h, e)))) (bit_here_lem after bit inside h))
      (record {
        inside = inside;
        in_byte = omega (arith, h);
        rest = ap (λ (t : ℕ). digits t byte ++ beyond) left;
      })

next_in_next :
    (bd : BitData) → bd.cur_byte < length bd.bytes → bd.cur_bit ≡ 8 → NextBit bd (next_bit bd)
unfolding next_bit remaining
next_in_next bd inside full =
    let moved = record bd { cur_byte = suc bd.cur_byte; cur_bit = 1 } in
    let here : remaining bd ≡ bits_of (drop (suc bd.cur_byte) bd.bytes) =
      ap (λ (t : ℕ). digits (8 - t) (byte_now bd) ++ bits_of (drop (suc bd.cur_byte) bd.bytes))
        full in
    elim (Bool-cases (ltb (length bd.bytes - 1) (suc bd.cur_byte))) [
      | inl over ↦
          ended (here ∙ ap bits_of (drop_past bd.bytes (suc bd.cur_byte) (ground arith))) moved
            (rw (==-eq-true bd.cur_bit 8 full) (rw over refl))
      | inr more ↦
          let inside_next : suc bd.cur_byte < length bd.bytes = ground arith in
          let byte = byte_now moved in
          let beyond = bits_of (drop (suc (suc bd.cur_byte)) bd.bytes) in
          bit_read (byte / 2 ^ 7 % 2) (digits 7 byte ++ beyond) moved
            (here ∙ ap bits_of (drop-eq-cons bd.bytes (suc bd.cur_byte) 0 inside_next))
            (omega arith)
            (rw (==-eq-true bd.cur_bit 8 full)
              (rw more (bit_here_lem moved 0 inside_next (omega arith))))
            (record { inside = inside_next; in_byte = omega arith; rest = refl })
    ]

pub next-NextBit : (bd : BitData) (bits : List ℕ) → At bd bits → NextBit bd (next_bit bd)
next-NextBit bd bits here = elim (Bool-cases (ltb bd.cur_bit 8)) [
  | inl before ↦ next_in_byte bd here.inside (ground arith)
  | inr full ↦ next_in_next bd here.inside (let h = here.in_byte in ground arith)
]

-- A call that succeeds with a value, and leaves these bits to read
pub record Yields {ℓ} {A : Type ℓ} (call : Outcome (A × BitData)) (value : A) (more : List ℕ)
    : Type ℓ where
  pub after : BitData
  pub succeeds : call ≡ ok (value, after)
  pub there : At after more

pub bit_lt_two : (bd : BitData) (b : ℕ) (more : List ℕ) → At bd (b ∷ more) → b < 2
bit_lt_two bd b more here = elim (next-NextBit bd (b ∷ more) here) [
  | ended e after s ↦ cc (e, here.rest)
  | bit_read bit others after e small s there ↦
      let same : bit ≡ b = cc (e, here.rest) in omega (arith, same, small)
]

pub next-Yields :
    (bd : BitData) (b : ℕ) (more : List ℕ) → At bd (b ∷ more) → Yields (next_bit bd) (some b) more
next-Yields bd b more here = elim (next-NextBit bd (b ∷ more) here) [
  | ended e after s ↦ cc (e, here.rest)
  | bit_read bit others after e small s there ↦
      let same : bit ≡ b = cc (e, here.rest) in
      let rest : others ≡ more = cc (e, here.rest) in
      record {
        after = after;
        succeeds = s ∙ ap (λ (t : ℕ). ok (some t, after)) same;
        there = subst (At after) rest there;
      }
]

pub next-none : (bd : BitData) → At bd [] → (after : BitData) × (next_bit bd ≡ ok (none, after))
next-none bd here = elim (next-NextBit bd [] here) [
  | ended e after s ↦ (after, s)
  | bit_read bit others after e small s there ↦ cc (e, here.rest)
]
