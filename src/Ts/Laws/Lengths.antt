-- ===== src/Ts/Laws/Lengths.antt =====
-- The lengths that write_some_TS_PES_packet of include/ts.h counts in 32 bits.
use mts_utils.Base.{ℕ, ◌+◌, ◌-◌, ◌≤◌, ◌<◌, ◌^◌, ◌≡◌, ◌⊎◌, inl, inr, arith, List, [], ◌∷◌, length}
use mts_utils.Ts.Write.{pes_data_len, word_minus}

-- Header and data together are counted in 32 bits, and data without a header is not added up.
abbrev pub NoWrap : List ℕ → List ℕ → Type 0
NoWrap pes_hdr data1 = (pes_hdr ≡ []) ⊎ (length data1 + length pes_hdr < 2 ^ 32)

cons-is_not_nil : (b : ℕ) (bs : List ℕ) → b ∷ bs ≡ [] → ⊥
cons-is_not_nil b bs h = cc

pub pes_data_len_lem :
    (pes_hdr data1 : List ℕ)
    → NoWrap pes_hdr data1
    → pes_data_len pes_hdr (length data1) ≡ length data1 + length pes_hdr
unfolding pes_data_len
pes_data_len_lem [] data1 room = omega arith
pes_data_len_lem (b ∷ bs) data1 (inl none_there) = elim (cons-is_not_nil b bs none_there) [ ]
pes_data_len_lem (b ∷ bs) data1 (inr small) = omega (arith, small)

pub word_minus_lem : (a b : ℕ) → a < 2 ^ 32 → b ≤ a → word_minus a b ≡ a - b
unfolding word_minus
word_minus_lem a b small less = omega arith
