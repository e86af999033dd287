-- ===== src/Pes/Header.antt =====
-- Reading back the header that PES_header writes.
use mts_utils.Base.{ℕ, ◌+◌, ◌/◌, ◌%◌, ◌≤◌, ◌<◌, ◌==◌, ltb, if◌then◌else◌}
use mts_utils.Base.{◌≡◌, refl, arith, List, [], ◌∷◌, ◌++◌, bit_and}
use mts_utils.Base.{Bool, true, false, Bool-cases, ==_iff, ==-eq-true, inl, inr, Option, none, some}
use mts_utils.Base.Outcome.{ok}
use mts_utils.Bits.{mask_0xFF, mask_0xFF00}
use mts_utils.Timestamp.{max_pts_value, encode_pts_dts}
use mts_utils.Timestamp.Encode.{stamp, encode_pts_dts-eq-stamp, reduce_value_lem}
use mts_utils.Timestamp.RoundTrip.{reading-stamp}
use mts_utils.Pes.{is_data_only, pes_start, decode_at, dissect, timing_part, length_part}
use mts_utils.Pes.{is_audio_stream_id, pes_header, find_pts_dts_in_pes}

encode-small :
    (guard v : ℕ) → guard < 16 → v ≤ max_pts_value → encode_pts_dts guard v ≡ stamp guard v
encode-small guard v hg hv = ground (arith, encode_pts_dts-eq-stamp guard v, reduce_value_lem v)

-- The value of the length field.
abbrev pub field_length : ℕ → ℕ → ℕ
field_length n e = if ltb 0xFFFF (n + e) then 0 else n + e

pub length_part_lem :
    (n e : ℕ) → length_part n e ≡ (field_length n e / 256) ∷ (field_length n e % 256) ∷ []
unfolding length_part
length_part_lem n e = ground (arith, mask_0xFF (n + e), mask_0xFF00 (n + e))

module _ (sid l1 l2 f pts dts : ℕ) (payload : List ℕ) (dissected : is_data_only sid ≡ false)
    (h222 : (bit_and f 0xC0 == 0x80) ≡ true) (pts_fits : pts ≤ max_pts_value)
    (dts_fits : dts ≤ max_pts_value) where
  reads_both :
      find_pts_dts_in_pes
        (0 ∷ 0 ∷ 1 ∷ sid ∷ l1 ∷ l2 ∷ f ∷ 0xC0 ∷ 0x0A ∷ ((stamp 3 pts ++ stamp 1 dts) ++ payload))
      ≡ ok (some pts, some dts)
  unfolding find_pts_dts_in_pes dissect pes_start decode_at stamp
  reads_both =
      ground (arith, reading-stamp 3 pts 3 (stamp 1 dts ++ payload), reading-stamp 1 dts 1 payload)

  reads_pts :
      find_pts_dts_in_pes (0 ∷ 0 ∷ 1 ∷ sid ∷ l1 ∷ l2 ∷ f ∷ 0x80 ∷ 0x05 ∷ (stamp 2 pts ++ payload))
      ≡ ok (some pts, some pts)
  unfolding find_pts_dts_in_pes dissect pes_start decode_at stamp
  reads_pts = ground (arith, reading-stamp 2 pts 2 payload)

  reads_none :
      find_pts_dts_in_pes (0 ∷ 0 ∷ 1 ∷ sid ∷ l1 ∷ l2 ∷ f ∷ 0x00 ∷ 0x00 ∷ payload) ≡ ok (none, none)
  unfolding find_pts_dts_in_pes dissect pes_start
  reads_none = ground arith

-- The PTS and the DTS that a reader is to find.
abbrev pub expected : Bool → ℕ → Bool → ℕ → Option ℕ × Option ℕ
expected true pts true dts = (some pts, some dts)
expected true pts false dts = (some pts, some pts)
expected false pts true dts = (some dts, some dts)
expected false pts false dts = (none, none)

flag_byte : ℕ → ℕ
flag_byte sid = if is_audio_stream_id sid then 0x84 else 0x80

flag_byte-is_h222 : (sid : ℕ) → (bit_and (flag_byte sid) 0xC0 == 0x80) ≡ true
unfolding flag_byte
flag_byte-is_h222 sid = elim (Bool-cases (is_audio_stream_id sid)) [
  | inl audio ↦ rw audio
  | inr other ↦ rw other
]

-- find_PTS_DTS_in_PES finds in a packet the timestamps that PES_header was given, if they fit 33
-- bits and the stream id can carry them; a DTS without a PTS stands for both, and a PTS alone is
-- given for the DTS.
pub find_pts_dts_in_pes-pes_header :
    (data_len sid : ℕ) (with_pts : Bool) (pts : ℕ) (with_dts : Bool) (dts : ℕ) (payload : List ℕ)
    → is_data_only sid ≡ false
    → pts ≤ max_pts_value
    → dts ≤ max_pts_value
    → find_pts_dts_in_pes (pes_header data_len sid with_pts pts with_dts dts ++ payload)
      ≡ ok (expected with_pts pts with_dts dts)
unfolding pes_header timing_part flag_byte
find_pts_dts_in_pes-pes_header n sid true pts true dts payload h hp hd =
    elim (Bool-cases (pts == dts)) [
      | inl same ↦
          rw (same, length_part_lem, encode-small 2 pts (omega arith) hp)
            (rw (← (==_iff pts dts).0 same)
              (reads_pts sid _ _ _ pts pts payload h (flag_byte-is_h222 sid) hp hp))
      | inr differ ↦
          rw
            (
              differ,
              length_part_lem,
              encode-small 3 pts (omega arith) hp,
              encode-small 1 dts (omega arith) hd,
            )
            (reads_both sid _ _ _ pts dts payload h (flag_byte-is_h222 sid) hp hd)
    ]
find_pts_dts_in_pes-pes_header n sid true pts false dts payload h hp hd =
    rw (length_part_lem, encode-small 2 pts (omega arith) hp)
      (reads_pts sid _ _ _ pts dts payload h (flag_byte-is_h222 sid) hp hd)
find_pts_dts_in_pes-pes_header n sid false pts true dts payload h hp hd =
    rw (==-eq-true dts dts refl, length_part_lem, encode-small 2 dts (omega arith) hd)
      (reads_pts sid _ _ _ dts dts payload h (flag_byte-is_h222 sid) hd hd)
find_pts_dts_in_pes-pes_header n sid false pts false dts payload h hp hd =
    rw length_part_lem (reads_none sid _ _ _ pts dts payload h (flag_byte-is_h222 sid) hp hd)
