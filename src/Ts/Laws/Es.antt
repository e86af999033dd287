-- ===== src/Ts/Laws/Es.antt =====
-- Elementary stream data from end to end: write_ES_as_TS_PES_packet and its variants, a receiver, and
-- find_PTS_DTS_in_PES of include/pes.h.
use mts_utils.Base.{
  ℕ, ◌+◌, ◌^◌, inl, inr, refl, ◌<◌, ◌≤◌, arith, List, ◌++◌, length, Bool, true, false,
}
use mts_utils.Pes.{pes_header, extra_len}
use mts_utils.Base.{◌&&◌, ◌||◌, not, if◌then◌else◌, ◌==◌}
use mts_utils.Pes.Length.{length-timing_part}
use mts_utils.Pes.Header.{length_part_lem}
use mts_utils.Ts.Write.{Sent, Output}
use mts_utils.Ts.Es.{enough, write_es_as_ts_pes_packet_with_pts_dts, write_es_as_ts_pes_packet}
use mts_utils.Ts.Es.{write_es_as_ts_pes_packet_with_pcr, write_pes_as_ts_pes_packet}
use mts_utils.Base.Outcome.{ok, at, ◌>>=◌}
use mts_utils.Base.{[], bit_and, ◌≡◌}
use mts_utils.Timestamp.{max_pts_value}
use mts_utils.Pes.{is_data_only, find_pts_dts_in_pes}
use mts_utils.Pes.Header.{expected, find_pts_dts_in_pes-pes_header}
use mts_utils.Ts.Laws.Receiver.{logging, reassemble, Delivers}
use mts_utils.Ts.Laws.Transport.{write_some-DeliversTimed}
use mts_utils.Ts.Laws.Timing.{DeliversTimed}

extra_len-le : (with_pts with_dts : Bool) → extra_len with_pts with_dts ≤ 13
extra_len-le with_pts with_dts = ground arith

-- The longest header has nineteen bytes.
pub pes_header-le :
    (n sid : ℕ) (with_pts : Bool) (pts : ℕ) (with_dts : Bool) (dts : ℕ)
    → length (pes_header n sid with_pts pts with_dts dts) ≤ 19
unfolding pes_header
pes_header-le n sid with_pts pts with_dts dts =
    let pts' = if with_dts && not with_pts then dts else pts in
    let has_pts = with_pts || with_dts in
    let has_dts = with_dts && not (pts' == dts) in
    rw (length_part_lem)
      (omega (arith, length-timing_part has_pts pts' has_dts dts, extra_len-le has_pts has_dts))

pes_header-short :
    (n sid : ℕ) (with_pts : Bool) (pts : ℕ) (with_dts : Bool) (dts : ℕ)
    → length (pes_header n sid with_pts pts with_dts dts) < 176
pes_header-short n sid with_pts pts with_dts dts =
    omega (arith, pes_header-le n sid with_pts pts with_dts dts)

module _ (output : Output (List Sent)) (data1 : List ℕ) (pid sid : ℕ) (low : 0x0010 ≤ pid)
    (high : pid ≤ 0x1ffe) where
  -- For a legal PID, elementary stream data whose length, with that of its PES header, is below
  -- 2 to the 32 is sent with success, with or without a PTS and a DTS, as packets which the
  -- receiver of the PID joins to the PES header for the data and the data itself. The first
  -- packet alone has a PCR, which is the DTS, if there is a DTS; otherwise none has.
  pub write_es_with_pts_dts-DeliversTimed :
      (got_pts : Bool) (pts : ℕ) (got_dts : Bool) (dts : ℕ)
      → length data1 + length (pes_header (length data1) sid got_pts pts got_dts dts) < 2 ^ 32
      → DeliversTimed got_dts got_dts dts 0 true pid output
          (pes_header (length data1) sid got_pts pts got_dts dts ++ data1)
          (write_es_as_ts_pes_packet_with_pts_dts logging output data1 pid sid got_pts pts got_dts
            dts)
  unfolding write_es_as_ts_pes_packet_with_pts_dts
  write_es_with_pts_dts-DeliversTimed got_pts pts got_dts dts room =
      write_some-DeliversTimed (enough logging data1) output _ data1 true true pid got_dts dts 0
        (omega arith) (pes_header-short (length data1) sid got_pts pts got_dts dts) (inr room) low
        high

  -- For a legal PID, elementary stream data whose length, with that of its PES header, is below
  -- 2 to the 32 is sent with success, both by write_ES_as_TS_PES_packet_with_pcr and by
  -- write_ES_as_TS_PES_packet; both times what is joined is the PES header without timestamps
  -- and the data. With the first, the writer is told of the PCR with the first packet alone,
  -- and the PCR stands in the adaptation field of that packet; with the second, it is told of
  -- none.
  pub write_es_with_pcr-DeliversTimed :
      (pcr_base pcr_extn : ℕ)
      → length data1 + length (pes_header (length data1) sid false 0 false 0) < 2 ^ 32
      → DeliversTimed true true pcr_base pcr_extn true pid output
          (pes_header (length data1) sid false 0 false 0 ++ data1)
          (write_es_as_ts_pes_packet_with_pcr logging output data1 pid sid pcr_base pcr_extn)
        × DeliversTimed false false 0 0 true pid output
            (pes_header (length data1) sid false 0 false 0 ++ data1)
            (write_es_as_ts_pes_packet logging output data1 pid sid)
  unfolding write_es_as_ts_pes_packet_with_pcr write_es_as_ts_pes_packet
  write_es_with_pcr-DeliversTimed pcr_base pcr_extn room =
      let short = pes_header-short (length data1) sid false 0 false 0 in
      (
        write_some-DeliversTimed (enough logging data1) output _ data1 true true pid true pcr_base
            pcr_extn (omega arith) short (inr room) low high,
        write_some-DeliversTimed (enough logging data1) output _ data1 true true pid false 0 0
            (omega arith) short (inr room) low high,
      )

  -- An H.222.0 PES packet that is passed on under a legal PID is sent with success, and what is
  -- joined is the packet.
  pub write_pes-Delivers :
      (byte : ℕ) (got_pcr : Bool) (pcr_base pcr_extn : ℕ)
      → at data1 6 ≡ ok byte
      → (bit_and byte 0xC0 == 0x80) ≡ true
      → Delivers true pid output data1
          (write_pes_as_ts_pes_packet logging output data1 pid sid got_pcr pcr_base pcr_extn)
  unfolding write_pes_as_ts_pes_packet
  write_pes-Delivers byte got_pcr pcr_base pcr_extn sixth h222 =
      rw (sixth, h222)
        ((write_some-DeliversTimed (enough logging data1) output [] data1 true true pid got_pcr
          pcr_base pcr_extn (omega arith) (omega arith) (inl refl) low high).delivers)

  -- For a legal PID, timestamps that fit 33 bits and a stream id that can carry them,
  -- elementary stream data whose length, with that of its PES header, is below 2 to the 32 is
  -- sent with success, and find_PTS_DTS_in_PES finds the timestamps that were given in what the
  -- receiver of the PID joins from the packets.
  pub write_es_with_pts_dts-find_pts_dts_in_pes :
      (got_pts : Bool) (pts : ℕ) (got_dts : Bool) (dts : ℕ)
      → is_data_only sid ≡ false
      → pts ≤ max_pts_value
      → dts ≤ max_pts_value
      → length data1 + length (pes_header (length data1) sid got_pts pts got_dts dts) < 2 ^ 32
      → (final : Output (List Sent)) × (sent : List Sent) × (write_es_as_ts_pes_packet_with_pts_dts
            logging output data1 pid sid got_pts pts got_dts dts
          ≡ ok final)
        × (final.writer ≡ output.writer ++ sent)
        × ((reassemble 1 pid (output.continuity_counter pid) sent >>= find_pts_dts_in_pes)
            ≡ ok (expected got_pts pts got_dts dts))
  write_es_with_pts_dts-find_pts_dts_in_pes got_pts pts got_dts dts hs hp hd room =
      let delivers = (write_es_with_pts_dts-DeliversTimed got_pts pts got_dts dts room).delivers in
      (
        delivers.final,
        delivers.sent,
        delivers.succeeds,
        delivers.logged,
        rw delivers.joined (
            find_pts_dts_in_pes-pes_header (length data1) sid got_pts pts got_dts dts data1 hs hp
              hd),
      )
