-- ===== src/Pes.antt =====
-- PES packet headers: PES_header of include/ts.h writes them, and find_PTS_in_PES,
-- find_DTS_in_PES, find_PTS_DTS_in_PES and PES_packet_has_PTS of include/pes.h read them.
pub mod Agree
pub mod Header
pub mod Length
mod Runs
use mts_utils.Base.{ℕ, zero, suc, ◌+◌, ◌-◌, ◌*◌, ◌/◌, ◌%◌, ◌^◌, ◌==◌, ltb, leb, if◌then◌else◌, not}
use mts_utils.Base.{List, [], ◌∷◌, ◌++◌, drop, length, Bool, true, false, ◌&&◌, ◌||◌}
use mts_utils.Base.{Option, none, some, bit_and, bit_or}
use mts_utils.Base.Outcome.{Outcome, ok, ◌>>=◌, ◌>>◌, refuse_if, at}
use mts_utils.Bits.{◌<<<◌, ◌>>>◌, to_byte}
use mts_utils.Timestamp.{decode_pts_dts, encode_pts_dts}

-- IS_AUDIO_STREAM_ID
abbrev pub is_audio_stream_id : ℕ → Bool
is_audio_stream_id id = id == 0xBD || (leb 0xC0 id && leb id 0xDF)

-- The bytes from PES_hdr[7] on: the PTS and DTS flags, the length of what follows, and that.
pub timing_part : Bool → ℕ → Bool → ℕ → List ℕ
timing_part with_pts pts with_dts dts =
    if with_dts && with_pts
    then 0xC0 ∷ 0x0A ∷ (encode_pts_dts 3 pts ++ encode_pts_dts 1 dts)
    else if with_pts
    then 0x80 ∷ 0x05 ∷ encode_pts_dts 2 pts
    else 0x00 ∷ 0x00 ∷ []

-- How many bytes follow the length field, apart from the data.
abbrev pub extra_len : Bool → Bool → ℕ
extra_len with_pts with_dts = if with_dts && with_pts then 3 + 10 else if with_pts then 3 + 5 else 3

-- PES_hdr[4] and PES_hdr[5]
pub length_part : ℕ → ℕ → List ℕ
length_part data_len extra =
    if ltb 0xFFFF data_len || ltb 0xFFFF (data_len + extra)
    then 0 ∷ 0 ∷ []
    else to_byte (bit_and (data_len + extra) 0xFF00 >>> 8)
      ∷ to_byte (bit_and (data_len + extra) 0x00FF)
      ∷ []

-- The header; its length is `PES_hdr_len`.
unfoldable pub pes_header : ℕ → ℕ → Bool → ℕ → Bool → ℕ → List ℕ
pes_header data_len stream_id with_pts0 pts0 with_dts0 dts =
    let pts = if with_dts0 && not with_pts0 then dts else pts0 in
    let with_pts = with_pts0 || with_dts0 in
    let with_dts = with_dts0 && not (pts == dts) in
    0x00
    ∷ 0x00
    ∷ 0x01
    ∷ stream_id
    ∷ (length_part data_len (extra_len with_pts with_dts)
        ++ (if is_audio_stream_id stream_id then 0x84 else 0x80)
          ∷ timing_part with_pts pts with_dts dts)

-- The stream ids whose packets hold no more than data or padding.
unfoldable pub is_data_only : ℕ → Bool
is_data_only id =
    id == 0xbc
    || id == 0xbf
    || id == 0xf0
    || id == 0xf1
    || id == 0xff
    || id == 0xf2
    || id == 0xf8
    || id == 0xbe

-- The start of each function below: the start code, then `stream_id` and `packet_length`.
pub pes_start : List ℕ → Outcome (ℕ × ℕ)
pes_start data1 = do
  data_0 ← at data1 0
  refuse_if (not (data_0 == 0))
  data_1 ← at data1 1
  refuse_if (not (data_1 == 0))
  data_2 ← at data1 2
  refuse_if (not (data_2 == 1))
  stream_id ← at data1 3
  data_4 ← at data1 4
  data_5 ← at data1 5
  ok (stream_id, bit_or (data_4 <<< 8) data_5)

-- `while (posn < packet_length && bytes[posn] == 0xFF) posn++;`, where the first argument is
-- `packet_length - posn`.
pub skip_stuffing : ℕ → List ℕ → ℕ → Outcome ℕ
skip_stuffing zero bytes posn = ok posn
skip_stuffing (suc left) bytes posn = do
  byte ← at bytes posn
  let rest = skip_stuffing left bytes (posn + 1)
  if byte == 0xFF then rest else ok posn

-- Where an MPEG-1 packet has its PTS and DTS; `none` where it has no space for them.
pub mpeg1_posn : List ℕ → ℕ → Outcome (Option ℕ)
mpeg1_posn bytes packet_length = do
  posn0 ← skip_stuffing packet_length bytes 0
  if ltb posn0 packet_length
      then (do
        byte ← at bytes posn0
        let posn = if bit_and byte 0xC0 == 0x40 then posn0 + 2 else posn0
        ok (if posn == packet_length then none else some posn))
      else ok none

-- `decode_pts_dts(&bytes[posn], guard, ...)`, and the value is there.
pub decode_at : List ℕ → ℕ → ℕ → Outcome (Option ℕ)
decode_at bytes posn guard = do value ← decode_pts_dts (drop posn bytes) guard; ok (some value)

-- What the functions below have in common, each in its own copy: the start of the packet, the
-- stream ids that are left alone, and the two layouts. `length_of` gives the length that the search
-- for an MPEG-1 field goes by, `h222` is done with the flags of an H.222.0 packet, and `mpeg1` with
-- the byte at the place where an MPEG-1 packet has its fields.
pub dissect {ℓ} :
    {A : Type ℓ}
    → (ℕ → ℕ)
    → A
    → (List ℕ → ℕ → Outcome A)
    → (List ℕ → ℕ → ℕ → Outcome A)
    → List ℕ
    → Outcome A
dissect length_of nothing h222 mpeg1 data1 = do
  (stream_id, packet_length) ← pes_start data1
  if is_data_only stream_id then ok nothing else (do
    let bytes = drop 6 data1
    data_6 ← at data1 6
    if bit_and data_6 0xC0 == 0x80
        then (do flags_byte ← at bytes 1; h222 bytes (bit_and flags_byte 0xC0 >>> 6))
        else (do
          found ← mpeg1_posn bytes (length_of packet_length)
          elim found [
            | none ↦ ok nothing
            | some posn ↦ (do byte ← at bytes posn; mpeg1 bytes posn byte)
          ]))

-- `got_pts` and `pts` together.
unfoldable pub find_pts_in_pes : List ℕ → Outcome (Option ℕ)
find_pts_in_pes =
    dissect (λ packet_length. packet_length) none
      (λ bytes flags. if flags == 2 || flags == 3 then decode_at bytes 3 flags else ok none)
      (λ bytes posn byte.
        let marker = bit_and byte 0xF0 >>> 4 in
        if marker == 2 || marker == 3 then decode_at bytes posn marker else ok none)

-- `got_dts` and `dts` together.
unfoldable pub find_dts_in_pes : List ℕ → Outcome (Option ℕ)
find_dts_in_pes =
    dissect (λ packet_length. packet_length) none
      (λ bytes flags. if flags == 3 then decode_at bytes 8 1 else ok none)
      (λ bytes posn byte.
        if bit_and byte 0xF0 == 0x30 then decode_at bytes (posn + 5) 1 else ok none)

-- Both; a packet with a PTS alone has it for its DTS.
unfoldable pub find_pts_dts_in_pes : List ℕ → Outcome (Option ℕ × Option ℕ)
find_pts_dts_in_pes data1 = do
  (pts, dts) ←
      dissect (λ packet_length. packet_length) (none, none)
        (λ bytes flags. do
          pts ← if flags == 2 || flags == 3 then decode_at bytes 3 flags else ok none
          dts ← if flags == 3 then decode_at bytes 8 1 else ok none
          ok (pts, dts))
        (λ bytes posn byte. do
          let marker = bit_and byte 0xF0 >>> 4
          pts ← if marker == 2 || marker == 3 then decode_at bytes posn marker else ok none
          dts ← if marker == 3 then decode_at bytes (posn + 5) 1 else ok none
          ok (pts, dts))
        data1
  ok (pts, elim dts [ some d ↦ some d | none ↦ pts ])

-- Whether there is a PTS. A start code that is wrong is reported, and means no; here that is `err`.
-- A length of 0 stands for the rest of the packet.
unfoldable pub pes_packet_has_pts : List ℕ → Outcome Bool
pes_packet_has_pts data1 =
    dissect (λ packet_length. if packet_length == 0 then length data1 - 6 else packet_length) false
      (λ bytes flags. ok (flags == 2 || flags == 3))
      (λ bytes posn byte.
        let marker_bits = bit_and byte 0xF0 in
        let flags : ℕ = if marker_bits == 0x20 then 2 else if marker_bits == 0x30 then 3 else 0 in
        ok (flags == 2 || flags == 3))
      data1
