-- ===== src/Pes/Agree.antt =====
-- The four readers of PES timestamps against one another.
use mts_utils.Base.{
  ℕ, List, Option, none, some, ◌≡◌, arith, ◌/◌, ◌*◌, ◌==◌, bit_and, Bool, true, false, ◌≢◌,
}
use mts_utils.Base.Outcome.{ok, ◌>>=◌}
use mts_utils.Bits.{mask_0xF0}
use mts_utils.Pes.{pes_start, decode_at, pes_packet_has_pts}
use mts_utils.Pes.{dissect, find_pts_in_pes, find_dts_in_pes, find_pts_dts_in_pes}

-- What find_PTS_DTS_in_PES returns for the PTS and the DTS that the packet holds.
abbrev pub with_fallback : Option ℕ → Option ℕ → Option ℕ × Option ℕ
with_fallback pts dts = (pts, elim dts [ some d ↦ some d | none ↦ pts ])

marker_three : (byte : ℕ) → (bit_and byte 0xF0 / 16 == 3) ≡ (bit_and byte 0xF0 == 0x30)
marker_three byte = rw (mask_0xF0 byte) (ground arith)

-- Reading both timestamps at once comes to the same as reading the PTS and then the DTS, on every
-- array, errors and faults included; a packet without a DTS is then given its PTS for one.
pub find_pts_dts_in_pes-eq_both :
    (data1 : List ℕ)
    → find_pts_dts_in_pes data1
      ≡ (do pts ← find_pts_in_pes data1; dts ← find_dts_in_pes data1; ok (with_fallback pts dts))
unfolding find_pts_dts_in_pes find_pts_in_pes find_dts_in_pes dissect
find_pts_dts_in_pes-eq_both data1 = grind (arith, marker_three)

abbrev pub is_some : Option ℕ → Bool
is_some none = false
is_some (some v) = true

mark_bits : (byte : ℕ) → bit_and byte 0xF0 ≡ bit_and byte 0xF0 / 16 * 16
mark_bits byte = rw (mask_0xF0 byte) (omega arith)

-- Where the packet states a length other than 0 and a search for the PTS succeeds,
-- PES_packet_has_PTS says whether it found one.
pub pes_packet_has_pts-find_pts_in_pes :
    (data1 : List ℕ) (stream_id packet_length : ℕ) (found : Option ℕ)
    → pes_start data1 ≡ ok (stream_id, packet_length)
    → packet_length ≢ 0
    → find_pts_in_pes data1 ≡ ok found
    → pes_packet_has_pts data1 ≡ ok (is_some found)
unfolding find_pts_in_pes pes_packet_has_pts dissect decode_at
pes_packet_has_pts-find_pts_in_pes data1 stream_id packet_length found start positive search =
    grind (arith, mark_bits)
