-- ===== src/Ts/Laws/Wraps.antt =====
-- write_some_TS_PES_packet of include/ts.h on data of any length that its uint32_t can hold: what is sent, or the
-- fault where the sum of the lengths wraps round.
use mts_utils.Base.{
  ℕ, zero, suc, ◌+◌, ◌-◌, ◌%◌, ◌^◌, ◌≤◌, ◌<◌, ◌≡◌, ◌⊎◌, inl, inr, refl, sym, arith, List, [], ◌∷◌,
  ◌++◌, length, Bool, ◌&&◌, ltb-eq-false, ltb-eq-true, ==-eq-true,
}
use mts_utils.Base.Outcome.{fault}
use mts_utils.Ts.Write.{
  Sent, Output, next_continuity_count, ts_header, write_ts_packet_parts, write_some_ts_pes_packet,
  pes_data_len, pcr_of,
}
use mts_utils.Ts.Laws.Receiver.{logging, next_count}
use mts_utils.Ts.Laws.Fits.{ts_header-Fits}
use mts_utils.Ts.Laws.Lengths.{NoWrap}
use mts_utils.Ts.Laws.Timing.{DeliversTimed}
use mts_utils.Ts.Laws.Transport.{write_some-DeliversTimed}

-- The headers are longer than the packet, and the negative length of the data makes up for it.
parts-fault :
    (output : Output (List Sent)) (header pes_hdr data1 : List ℕ) (data_len pid : ℕ)
    (got_pcr : Bool) (pcr : ℕ)
    → length header + length pes_hdr + data_len ≡ 188 + 2 ^ 32
    → data_len < 2 ^ 32
    → write_ts_packet_parts logging output header pes_hdr data1 data_len pid got_pcr pcr ≡ fault
unfolding write_ts_packet_parts
parts-fault output header pes_hdr data1 data_len pid got_pcr pcr h small =
    rw
      (
        ==-eq-true ((length header + length pes_hdr + data_len) % 2 ^ 32) 188 (omega arith),
        ltb-eq-true 188 (length header + length pes_hdr) (omega arith),
      )
      refl

pes_data_len-wraps :
    (pes_hdr : List ℕ) (data_len : ℕ)
    → length pes_hdr < 2 ^ 32
    → data_len < 2 ^ 32
    → 2 ^ 32 ≤ data_len + length pes_hdr
    → pes_data_len pes_hdr data_len ≡ data_len + length pes_hdr - 2 ^ 32
unfolding pes_data_len
pes_data_len-wraps [] data_len short small wrap = absurd (omega arith)
pes_data_len-wraps (b ∷ bs) data_len short small wrap = omega arith

module _ (output : Output (List Sent)) (pes_hdr data1 : List ℕ) (start set_pusi : Bool) (pid : ℕ)
    (got_pcr : Bool) (base extn : ℕ) (short : length pes_hdr < 176) (low : 0x0010 ≤ pid)
    (high : pid ≤ 0x1ffe) where
  abbrev wrapped : ℕ
  wrapped = length data1 + length pes_hdr - 2 ^ 32

  abbrev made : List ℕ × ℕ
  made =
      ts_header (start && set_pusi) (start && got_pcr) pid
        (next_continuity_count output.continuity_counter pid).0 base extn wrapped

  abbrev counted : Output (List Sent)
  counted = record output {
    continuity_counter = (next_continuity_count output.continuity_counter pid).1;
  }

  wraps-fault :
      (fuel : ℕ)
      → length data1 < 2 ^ 32
      → 2 ^ 32 ≤ length data1 + length pes_hdr
      → length made.0 + made.1 ≡ 188
      → made.1 ≡ wrapped
      → write_some_ts_pes_packet logging
          (suc fuel)
          output
          pes_hdr
          data1
          start
          set_pusi
          pid
          got_pcr
          base
          extn
        ≡ fault
  unfolding write_some_ts_pes_packet
  wraps-fault fuel small wrap size exact =
      rw
        (
          ltb-eq-false pid 0x0010 low,
          ltb-eq-false 0x1ffe pid high,
          pes_data_len-wraps pes_hdr (length data1) (omega arith) small wrap,
          ==-eq-true wrapped made.1 (sym exact),
          parts-fault counted made.0 pes_hdr data1 (length data1) pid got_pcr (pcr_of base extn)
              (omega arith) small,
        )
        refl

  write_some-wraps :
      (fuel : ℕ)
      → length data1 < 2 ^ 32
      → 2 ^ 32 ≤ length data1 + length pes_hdr
      → write_some_ts_pes_packet logging
          (suc fuel)
          output
          pes_hdr
          data1
          start
          set_pusi
          pid
          got_pcr
          base
          extn
        ≡ fault
  write_some-wraps fuel small wrap =
      let count : (next_continuity_count output.continuity_counter pid).0 < 16 =
        omega (arith, next_count output pid) in
      let fits =
        ts_header-Fits (start && set_pusi) pid
          (next_continuity_count output.continuity_counter pid).0 (omega arith) count
          (start && got_pcr) base extn wrapped in
      elim fits.room [
        | inl exact ↦ wraps-fault fuel small wrap fits.size exact
        | inr (large, less) ↦ absurd (omega arith)
      ]

fits_or_wraps : (a b : ℕ) → (a + b < 2 ^ 32) ⊎ (2 ^ 32 ≤ a + b)
fits_or_wraps a b = ground arith

-- For a legal PID, a header of fewer than 176 bytes, data of fewer than 2 to the 32 bytes and
-- fuel beyond the length of the data, there are two cases. Where there is no header, or header
-- and data have fewer than 2 to the 32 bytes together, write_some_TS_PES_packet succeeds and
-- sends packets of 188 bytes whose payloads joined are the header and the data, with continuity
-- counts that follow one another and the start indicator in the first alone, where start and
-- set_pusi ask for it; the writer is told of the PCR with the first packet alone, if there is
-- one, and at the start of a PES packet the PCR stands in the adaptation field of that packet.
-- Otherwise the sum wraps round, and the call is a fault: the headers are copied past the packet.
pub write_some_lem :
    (output : Output (List Sent)) (pes_hdr data1 : List ℕ) (start set_pusi : Bool) (pid : ℕ)
    (got_pcr : Bool) (base extn : ℕ) (fuel : ℕ)
    → length data1 < fuel
    → length data1 < 2 ^ 32
    → length pes_hdr < 176
    → 0x0010 ≤ pid
    → pid ≤ 0x1ffe
    → (NoWrap pes_hdr data1
        × DeliversTimed
            (start && got_pcr)
            got_pcr
            base
            extn
            (start && set_pusi)
            pid
            output
            (pes_hdr ++ data1)
            (write_some_ts_pes_packet logging fuel output pes_hdr data1 start set_pusi pid got_pcr
              base extn))
      ⊎ ((2 ^ 32 ≤ length data1 + length pes_hdr)
          × (write_some_ts_pes_packet logging fuel output pes_hdr data1 start set_pusi pid got_pcr
                base extn
              ≡ fault))
write_some_lem output pes_hdr data1 start set_pusi pid got_pcr base extn zero enough small short low
      high =
    absurd (omega arith)
write_some_lem output pes_hdr data1 start set_pusi pid got_pcr base extn (suc fuel) enough small
      short low high =
    elim (fits_or_wraps (length data1) (length pes_hdr)) [
      | inl room ↦ inl (
        inr room,
        write_some-DeliversTimed (suc fuel) output pes_hdr data1 start set_pusi pid got_pcr base
            extn enough short (inr room) low high,
      )
      | inr wrap ↦ inr (
        wrap,
        write_some-wraps output pes_hdr data1 start set_pusi pid got_pcr base extn short low high
            fuel small wrap,
      )
    ]
