-- ===== src/Ts/Es.antt =====
-- Elementary stream data as a Transport Stream PES packet: write_ES_as_TS_PES_packet, its variants with
-- a PTS and a DTS and with a PCR, and write_PES_as_TS_PES_packet, all of include/ts.h, and
-- calc_mpeg1_pes_offset of include/pes.h.
use mts_utils.Base.{
  ℕ, suc, ◌+◌, ◌-◌, ◌==◌, ltb, not, if◌then◌else◌, List, [], length, drop, bit_and,
}
use mts_utils.Base.{Bool, true, false, Option, none, some}
use mts_utils.Base.Outcome.{Outcome, ok, err, fault, ◌>>=◌, at}
use mts_utils.Pes.{pes_header, skip_stuffing, find_pts_dts_in_pes}
use mts_utils.Ts.Write.{Sent, Output, write_some_ts_pes_packet}

-- Where the elementary stream data of an MPEG-1 packet starts.
unfoldable pub calc_mpeg1_pes_offset : List ℕ → ℕ → Outcome ℕ
calc_mpeg1_pes_offset data1 data_len = do
  posn0 ← skip_stuffing (data_len - 6) data1 6
  if not (ltb posn0 data_len) then ok posn0 else (do
    byte0 ← at data1 posn0
    let posn = if bit_and byte0 0xC0 == 0x40 then posn0 + 2 else posn0
    byte ← at data1 posn
    ok (
        if bit_and byte 0xF0 == 0x20
        then posn + 5
        else if bit_and byte 0xF0 == 0x30
        then posn + 10
        else posn + 1))

-- "Just try to carry on..."
abbrev pub found_or_nothing : Outcome (Option ℕ × Option ℕ) → Outcome (Option ℕ × Option ℕ)
found_or_nothing (ok found) = ok found
found_or_nothing err = ok (none, none)
found_or_nothing fault = fault

-- A value and whether it is there.
abbrev pub got : Option ℕ → Bool × ℕ
got none = (false, 0)
got (some value) = (true, value)

module _ {W : Type 0} (tswrite_write : W → Sent → Option W) where
  -- Each round of write_some_TS_PES_packet sends a byte of the data at least.
  abbrev pub enough : List ℕ → ℕ
  enough data1 = suc (length data1)

  unfoldable pub write_es_as_ts_pes_packet : Output W → List ℕ → ℕ → ℕ → Outcome (Output W)
  write_es_as_ts_pes_packet output data1 pid stream_id =
      let pes_hdr = pes_header (length data1) stream_id false 0 false 0 in
      write_some_ts_pes_packet tswrite_write (enough data1) output pes_hdr data1 true true pid false
        0 0

  unfoldable pub write_es_as_ts_pes_packet_with_pts_dts :
      Output W → List ℕ → ℕ → ℕ → Bool → ℕ → Bool → ℕ → Outcome (Output W)
  write_es_as_ts_pes_packet_with_pts_dts output data1 pid stream_id got_pts pts got_dts dts =
      let pes_hdr = pes_header (length data1) stream_id got_pts pts got_dts dts in
      write_some_ts_pes_packet tswrite_write (enough data1) output pes_hdr data1 true true pid
        got_dts dts 0

  unfoldable pub write_es_as_ts_pes_packet_with_pcr :
      Output W → List ℕ → ℕ → ℕ → ℕ → ℕ → Outcome (Output W)
  write_es_as_ts_pes_packet_with_pcr output data1 pid stream_id pcr_base pcr_extn =
      let pes_hdr = pes_header (length data1) stream_id false 0 false 0 in
      write_some_ts_pes_packet tswrite_write (enough data1) output pes_hdr data1 true true pid true
        pcr_base pcr_extn

  -- H.222.0 packets are sent as they are, MPEG-1 packets as the elementary stream data in them, with
  -- what timestamps are found. An offset behind the end makes the length wrap round.
  unfoldable pub write_pes_as_ts_pes_packet :
      Output W → List ℕ → ℕ → ℕ → Bool → ℕ → ℕ → Outcome (Output W)
  unfolding write_es_as_ts_pes_packet_with_pts_dts
  write_pes_as_ts_pes_packet output data1 pid stream_id got_pcr pcr_base pcr_extn = do
    data_6 ← at data1 6
    if bit_and data_6 0xC0 == 0x80
        then write_some_ts_pes_packet tswrite_write (enough data1) output [] data1 true true pid
            got_pcr pcr_base pcr_extn
        else (do
          offset ← calc_mpeg1_pes_offset data1 (length data1)
          (pts, dts) ← found_or_nothing (find_pts_dts_in_pes data1)
          let (got_pts, pts_value) = got pts
          let (got_dts, dts_value) = got dts
          if ltb (length data1) offset
              then fault
              else write_es_as_ts_pes_packet_with_pts_dts output (drop offset data1) pid stream_id
                  got_pts pts_value got_dts dts_value)
