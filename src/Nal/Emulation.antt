-- ===== src/Nal/Emulation.antt =====
-- Emulation prevention in NAL units, which remove_emulation_prevention of include/nalunit.h takes out.
use mts_utils.Base.{
  ℕ, ◌≡◌, ◌≢◌, inl, inr, refl, sym, ◌∙◌, arith, ◌==◌, leb, if◌then◌else◌, ◌&&◌, Bool, true, not,
  List, [], ◌∷◌, Bool-cases, ==-eq-false,
}
use mts_utils.Nal.{emulation_loop, remove_emulation_prevention}

-- The bytes with a 3 before each of 0 to 3 that comes after two zeros; the two bytes before are given.
unfoldable pub protect : ℕ → ℕ → List ℕ → List ℕ
protect prev1 prev2 [] = []
protect prev1 prev2 (b ∷ bytes) =
    let guarded = 3 ∷ b ∷ protect b 3 bytes in
    let plain = b ∷ protect b prev1 bytes in
    if prev2 == 0 && prev1 == 0 && leb b 3 then guarded else plain

-- No 00 00 00, 00 00 01 or 00 00 02 among the bytes, the two before included
abbrev pub is_free : ℕ → ℕ → List ℕ → Bool
is_free prev1 prev2 [] = true
is_free prev1 prev2 (b ∷ bytes) = not (prev2 == 0 && prev1 == 0 && leb b 2) && is_free b prev1 bytes

loop-protect :
    (prev1 prev2 : ℕ) (bytes : List ℕ)
    → emulation_loop prev1 prev2 (protect prev1 prev2 bytes) ≡ bytes
unfolding emulation_loop protect
loop-protect prev1 prev2 [] = refl
loop-protect prev1 prev2 (b ∷ bytes) = elim (Bool-cases (prev2 == 0 && prev1 == 0 && leb b 3)) [
  | inl e ↦ rw e (ground (arith, loop-protect b 3 bytes))
  | inr e ↦ rw e (ground (arith, loop-protect b prev1 bytes))
]

-- It matters only which of the bytes before are 0.
loop_same :
    (p1 p2 q1 q2 : ℕ) (bytes : List ℕ)
    → (p1 == 0) ≡ (q1 == 0)
    → (p2 == 0) ≡ (q2 == 0)
    → emulation_loop p1 p2 bytes ≡ emulation_loop q1 q2 bytes
unfolding emulation_loop
loop_same p1 p2 q1 q2 [] e1 e2 = refl
loop_same p1 p2 q1 q2 (b ∷ bytes) e1 e2 = rw (e1, e2) (rw (loop_same b p1 b q1 bytes refl e1) refl)

protect-is_free :
    (prev1 prev2 : ℕ) (bytes : List ℕ) → is_free prev1 prev2 (protect prev1 prev2 bytes) ≡ true
unfolding protect
protect-is_free prev1 prev2 [] = refl
protect-is_free prev1 prev2 (b ∷ bytes) = elim (Bool-cases (prev2 == 0 && prev1 == 0 && leb b 3)) [
  | inl e ↦ rw e (ground (arith, protect-is_free b 3 bytes))
  | inr e ↦ rw e (ground (arith, protect-is_free b prev1 bytes))
]

-- remove_emulation_prevention takes the emulation prevention bytes out of a NAL unit that starts
-- with a byte other than 0, so that the bytes to be sent are there again; among the bytes with
-- them there is no 00 00 00, 00 00 01 or 00 00 02.
pub remove_emulation_prevention-protect :
    (head : ℕ) (bytes : List ℕ)
    → head ≢ 0
    → (remove_emulation_prevention (head ∷ protect head 1 bytes) ≡ bytes)
      × (is_free head 1 (protect head 1 bytes) ≡ true)
unfolding remove_emulation_prevention
remove_emulation_prevention-protect head bytes h = (
  loop_same 27 27 head 1 (protect head 1 bytes) (sym (==-eq-false head 0 h)) refl
      ∙ loop-protect head 1 bytes,
  protect-is_free head 1 bytes,
)
