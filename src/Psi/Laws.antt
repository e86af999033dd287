-- ===== src/Psi/Laws.antt =====
-- What the readers of program tables make of what is written.
pub mod Section
pub mod Entries
pub mod Streams
pub mod Pat
mod Runs
use mts_utils.Base.{ℕ, suc, ◌+◌, ◌-◌, ◌*◌, ◌%◌, ◌≤◌, ◌<◌, ltb, if◌then◌else◌, ◌≡◌, arith, refl}
use mts_utils.Base.{
  List, [], ◌∷◌, ◌++◌, length, take, drop, some, none, bit_or, bit_and, drop-append, length-append,
}
use mts_utils.Base.Outcome.{ok, fault}
use mts_utils.Bits.{mask_0x0F, join_bytes}
use mts_utils.Psi.Read.{build_psi_data, start_psi_data, PsiData}

behind_pointer :
    (pointer : ℕ) (stuffing rest : List ℕ)
    → length stuffing ≡ pointer
    → drop (pointer + 1) (pointer ∷ (stuffing ++ rest)) ≡ rest
behind_pointer pointer stuffing rest h =
    let unary : pointer + 1 ≡ suc (length stuffing) = omega arith in
    rw unary (drop-append stuffing rest)

-- For the first packet of a section, with any stuffing before it, build_psi_data makes the
-- section and counts all of it as used if the packet holds all of it, and reads past the end of
-- the packet if it does not.
pub build_psi_data_lem :
    (table high low : ℕ) (stuffing body : List ℕ)
    → low < 256
    → let payload = length stuffing ∷ (stuffing ++ table ∷ high ∷ low ∷ body) in
      let n = high % 16 * 256 + low in
      build_psi_data (some payload) (length payload) none ≡ (
        if ltb (length body) n
        then fault
        else ok (record { bytes = table ∷ high ∷ low ∷ take n body; len = n + 3; used = n + 3 }))
unfolding build_psi_data start_psi_data
build_psi_data_lem table high low stuffing body h =
    let len = length-append stuffing (table ∷ high ∷ low ∷ body) in
    rw (behind_pointer (length stuffing) stuffing (table ∷ high ∷ low ∷ body) refl)
      (ground (arith, len, mask_0x0F high, join_bytes (high % 16) low))
