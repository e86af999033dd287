-- ===== src/Pes/Length.antt =====
-- The length field that PES_header writes.
use mts_utils.Base.{ℕ, ◌+◌, ◌-◌, ◌/◌, ◌%◌, ◌==◌, ltb, if◌then◌else◌, not, ◌&&◌, ◌||◌}
use mts_utils.Base.{◌≡◌, refl, arith, List, ◌++◌, length, length-append, Bool, true, false}
use mts_utils.Base.Outcome.{ok}
use mts_utils.Bits.{join_bytes}
use mts_utils.Timestamp.{encode_pts_dts}
use mts_utils.Timestamp.RoundTrip.{length-encode_pts_dts}
use mts_utils.Pes.{pes_start, timing_part, pes_header, extra_len}
use mts_utils.Pes.Header.{field_length, length_part_lem}

pub length-timing_part :
    (with_pts : Bool) (pts : ℕ) (with_dts : Bool) (dts : ℕ)
    → 1 + length (timing_part with_pts pts with_dts dts) ≡ extra_len with_pts with_dts
unfolding timing_part
length-timing_part true pts true dts = omega (
  arith,
  length-append (encode_pts_dts 3 pts) (encode_pts_dts 1 dts),
  length-encode_pts_dts 3 pts,
  length-encode_pts_dts 1 dts,
)
length-timing_part true pts false dts = omega (arith, length-encode_pts_dts 2 pts)
length-timing_part false pts true dts = refl
length-timing_part false pts false dts = refl

-- The length field of a packet that PES_header heads counts the bytes behind the field, those of
-- the header and the data; it is 0 where they are more than 16 bits can say.
pub pes_start-pes_header :
    (sid : ℕ) (with_pts : Bool) (pts : ℕ) (with_dts : Bool) (dts : ℕ) (payload : List ℕ)
    → let packet = pes_header (length payload) sid with_pts pts with_dts dts ++ payload in
      pes_start packet ≡ ok (sid, if ltb 0xFFFF (length packet - 6) then 0 else length packet - 6)
unfolding pes_header pes_start
pes_start-pes_header sid with_pts pts0 with_dts dts payload =
    let pts = if with_dts && not with_pts then dts else pts0 in
    let has_pts = with_pts || with_dts in
    let has_dts = with_dts && not (pts == dts) in
    let total = field_length (length payload) (extra_len has_pts has_dts) in
    rw (length_part_lem) (
      ground (
        arith,
        join_bytes (total / 256) (total % 256),
        length-timing_part has_pts pts has_dts dts,
        length-append (timing_part has_pts pts has_dts dts) payload,
      ))
