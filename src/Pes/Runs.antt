-- ===== src/Pes/Runs.antt =====
-- PES packets of concrete bytes.
use mts_utils.Base.{ℕ, ◌≡◌, refl, arith, List, [], ◌∷◌, ◌++◌, true, false, some}
use mts_utils.Base.Outcome.{ok, ◌>>=◌}
use mts_utils.Timestamp.{decode_pts_dts, encode_pts_dts}
use mts_utils.Pes.{pes_header, find_pts_in_pes, find_dts_in_pes, find_pts_dts_in_pes, is_data_only}
use mts_utils.Pes.{
  pes_packet_has_pts, pes_start, dissect, mpeg1_posn, skip_stuffing, decode_at, length_part,
  timing_part,
}
use mts_utils.Pes.Header.{find_pts_dts_in_pes-pes_header}
use mts_utils.Pes.Length.{pes_start-pes_header}
use mts_utils.Pes.Agree.{
  find_pts_dts_in_pes-eq_both, pes_packet_has_pts-find_pts_in_pes, with_fallback,
}

-- An MPEG-1 video packet: two bytes of stuffing, then a PTS.
abbrev mpeg1_packet : List ℕ
mpeg1_packet =
    0 ∷ 0 ∷ 1 ∷ 0xE0 ∷ 0 ∷ 9 ∷ 0xFF ∷ 0xFF ∷ 0x21 ∷ 0x00 ∷ 0x05 ∷ 0xBF ∷ 0x21 ∷ 0xAA ∷ 0xBB ∷ []

mpeg1_pts : find_pts_in_pes mpeg1_packet ≡ ok (some 90000)
unfolding find_pts_in_pes dissect pes_start is_data_only mpeg1_posn skip_stuffing decode_at
    decode_pts_dts
mpeg1_pts = refl

find_pts_dts_in_pes-pes_header_example :
    find_pts_dts_in_pes (pes_header 2 0xE0 true 90000 true 86400 ++ 0xAA ∷ 0xBB ∷ [])
    ≡ ok (some 90000, some 86400)
unfolding is_data_only
find_pts_dts_in_pes-pes_header_example =
    find_pts_dts_in_pes-pes_header 2 0xE0 true 90000 true 86400 (0xAA ∷ 0xBB ∷ []) refl
      (omega arith) (omega arith)

pes_start-pes_header_example :
    pes_start (pes_header 2 0xE0 true 90000 false 0 ++ 0xAA ∷ 0xBB ∷ []) ≡ ok (0xE0, 10)
unfolding pes_header length_part timing_part encode_pts_dts
pes_start-pes_header_example = pes_start-pes_header 0xE0 true 90000 false 0 (0xAA ∷ 0xBB ∷ [])

find_pts_dts_in_pes-eq_both_example : find_pts_dts_in_pes mpeg1_packet ≡ (do
  pts ← find_pts_in_pes mpeg1_packet
  dts ← find_dts_in_pes mpeg1_packet
  ok (with_fallback pts dts))
find_pts_dts_in_pes-eq_both_example = find_pts_dts_in_pes-eq_both mpeg1_packet

pes_packet_has_pts-find_pts_in_pes_example : pes_packet_has_pts mpeg1_packet ≡ ok true
unfolding pes_start
pes_packet_has_pts-find_pts_in_pes_example =
    pes_packet_has_pts-find_pts_in_pes mpeg1_packet 0xE0 9 (some 90000) refl (λ e. omega arith)
      mpeg1_pts
