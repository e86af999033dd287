-- ===== src/Psi/Laws/Section.antt =====
-- The section of a PAT for one program, as write_pat makes it.
use mts_utils.Base.{ℕ, ◌+◌, ◌/◌, ◌%◌, ◌^◌, ◌≤◌, ◌<◌, ◌≡◌, refl, arith}
use mts_utils.Base.{List, [], ◌∷◌, ◌++◌, length, take, drop, length-drop, bit_and, bit_or}
use mts_utils.Base.{some}
use mts_utils.Base.Outcome.{ok}
use mts_utils.Bits.{masks, bit_and-field, bit_or-eq-add, mask_0xFF, mask_0xFF00}
use mts_utils.Crc.{crc32_block}
use mts_utils.Crc.Cancel.{big_endian, crc32_block-cancel}
use mts_utils.PidintList.{
  PidintList, build_pidint_list, append_to_pidint_list, extend_if_full, store_pair,
}
use mts_utils.Psi.Write.{pat_start, pat_entry, pat_entries, place_crc}

-- The section without its CRC, in plain arithmetic.
unfoldable pub pat_block : ℕ → ℕ → ℕ → List ℕ
pat_block tsid number pid =
    0
    ∷ 0xB0
    ∷ 13
    ∷ (tsid / 256)
    ∷ (tsid % 256)
    ∷ 0xC1
    ∷ 0
    ∷ 0
    ∷ (number / 256)
    ∷ (number % 256)
    ∷ (0xE0 + pid / 256)
    ∷ (pid % 256)
    ∷ []

abbrev pub one_program : ℕ → ℕ → PidintList
one_program number pid = record {
  number = number ∷ 0 ∷ 0 ∷ 0 ∷ 0 ∷ [];
  pid = pid ∷ 0 ∷ 0 ∷ 0 ∷ 0 ∷ [];
  length = 1;
  size = 5;
}

pub appended :
    (number pid : ℕ)
    → append_to_pidint_list (some build_pidint_list) pid number ≡ ok (one_program number pid)
unfolding append_to_pidint_list extend_if_full store_pair build_pidint_list
appended number pid = refl

high_bits : (pid : ℕ) → pid < 0x2000 → bit_or 0xE0 (pid / 256) ≡ 0xE0 + pid / 256
high_bits pid h = bit_or-eq-add 5 0xE0 (pid / 256) refl (omega arith)

pub written_lem :
    (tsid number pid : ℕ)
    → tsid < 2 ^ 16
    → number < 2 ^ 16
    → pid < 0x2000
    → pat_start 13 tsid ++ pat_entries 1 0 (one_program number pid) ≡ pat_block tsid number pid
unfolding pat_start pat_entries pat_entry pat_block
written_lem tsid number pid ht hn hp = simp masks (ground (arith, high_bits pid hp))

four_more :
    (xs : List ℕ)
    → 4 ≤ length xs
    → (a : ℕ) × (b : ℕ) × (c : ℕ) × (d : ℕ) × (rest : List ℕ) × (xs ≡ a ∷ b ∷ c ∷ d ∷ rest)
four_more (a ∷ b ∷ c ∷ d ∷ rest) h = (a, b, c, d, rest, refl)
four_more [] h = absurd (omega arith)
four_more (a ∷ []) h = absurd (omega arith)
four_more (a ∷ b ∷ []) h = absurd (omega arith)
four_more (a ∷ b ∷ c ∷ []) h = absurd (omega arith)

crc_0 : (crc : ℕ) → crc < 2 ^ 32 → bit_and crc 0xff000000 / 2 ^ 24 % 256 ≡ crc / 2 ^ 24
crc_0 crc h = omega (arith, bit_and-field 24 8 crc)

crc_1 : (crc : ℕ) → bit_and crc 0x00ff0000 / 2 ^ 16 % 256 ≡ crc / 2 ^ 16 % 256
crc_1 crc = omega (arith, bit_and-field 16 8 crc)

crc_2 : (crc : ℕ) → bit_and crc 0x0000ff00 / 2 ^ 8 % 256 ≡ crc / 2 ^ 8 % 256
crc_2 crc = omega (arith, mask_0xFF00 crc)

crc_3 : (crc : ℕ) → bit_and crc 0xff % 256 ≡ crc % 256
crc_3 crc = omega (arith, mask_0xFF crc)

pub place_crc_lem :
    (tsid number pid crc : ℕ) (stack : List ℕ)
    → 16 ≤ length stack
    → crc < 2 ^ 32
    → take 16 (place_crc crc (pat_block tsid number pid ++ drop 12 stack))
      ≡ pat_block tsid number pid ++ big_endian crc
unfolding place_crc pat_block
place_crc_lem tsid number pid crc stack hs hc =
    let (a, b, c, d, rest, e) = four_more (drop 12 stack) (omega (arith, length-drop 12 stack)) in
    rw (e, crc_0 crc hc, crc_1 crc, crc_2 crc, crc_3 crc) refl

unfoldable pub pat_section : ℕ → ℕ → ℕ → List ℕ
pat_section tsid number pid =
    pat_block tsid number pid ++ big_endian (crc32_block 0xffffffff (pat_block tsid number pid))

pub pat_section-cancels :
    (tsid number pid : ℕ) → crc32_block 0xffffffff (pat_section tsid number pid) ≡ 0
unfolding pat_section
pat_section-cancels tsid number pid =
    crc32_block-cancel 0xffffffff (pat_block tsid number pid) (omega arith)

pub length-pat_section : (tsid number pid : ℕ) → length (pat_section tsid number pid) ≡ 16
unfolding pat_section pat_block
length-pat_section tsid number pid = refl

pub length-pat_block : (tsid number pid : ℕ) → length (pat_block tsid number pid) ≡ 12
unfolding pat_block
length-pat_block tsid number pid = refl
