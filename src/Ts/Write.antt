-- ===== src/Ts/Write.antt =====
-- Making Transport Stream packets: next_continuity_count, write_TS_packet_parts and
-- write_some_TS_PES_packet of include/ts.h. What tswrite_write does with a packet is a parameter:
-- it takes the writer to its next state, or fails.
use mts_utils.Base.{ℕ, zero, suc, ◌+◌, ◌-◌, ◌*◌, ◌%◌, ◌^◌, ◌==◌, ltb, if◌then◌else◌, not}
use mts_utils.Base.{List, [], ◌∷◌, ◌++◌, length, take, drop, replicate, bit_and, bit_or}
use mts_utils.Base.{Bool, false, ◌&&◌, ◌||◌, Option, none, some}
use mts_utils.Base.Outcome.{Outcome, ok, err, fault, ◌>>=◌}
use mts_utils.Bits.{◌<<<◌, ◌>>>◌, to_byte}
use mts_utils.Ts.Read.{ts_packet_size, max_ts_payload_size}

-- What tswrite_write is handed.
pub record Sent : Type 0 where
  pub packet : List ℕ
  pub pid : ℕ
  pub got_pcr : Bool
  pub pcr : ℕ

-- The writer, and the array `continuity_counter`.
pub record Output (W : Type 0) : Type 0 where
  pub continuity_counter : ℕ → ℕ
  pub writer : W

-- The next count, and the array with it.
unfoldable pub next_continuity_count : (ℕ → ℕ) → ℕ → ℕ × (ℕ → ℕ)
next_continuity_count counter pid =
    let next = bit_and (counter pid + 1) 0x0f in
    (next, λ other. if other == pid then next else counter other)

-- TS_packet[0] to TS_packet[3]
unfoldable pub first_bytes : Bool → ℕ → ℕ → ℕ → List ℕ
first_bytes start_indicator pid controls count =
    0x47
    ∷ to_byte (bit_or (if start_indicator then 0x40 else 0x00) (bit_and pid 0x1f00 >>> 8))
    ∷ to_byte (bit_and pid 0xff)
    ∷ to_byte (bit_or controls count)
    ∷ []

-- TS_packet[4] to TS_packet[11] where there is a PCR
unfoldable pub pcr_field : ℕ → ℕ → List ℕ
pcr_field pcr_base pcr_extn =
    7
    ∷ 0x10
    ∷ to_byte (pcr_base >>> 25)
    ∷ to_byte (bit_and (pcr_base >>> 17) 0xFF)
    ∷ to_byte (bit_and (pcr_base >>> 9) 0xFF)
    ∷ to_byte (bit_and (pcr_base >>> 1) 0xFF)
    ∷ to_byte (bit_or (bit_or (bit_and pcr_base 0x1 <<< 7) 0x7E) (pcr_extn >>> 8))
    ∷ to_byte (pcr_extn >>> 1)
    ∷ []

-- The adaptation field before any stuffing, as far as it is written, and the space for the payload
-- behind it; `none` where the packet has no such field.
unfoldable pub adaptation : Bool → ℕ → ℕ → ℕ → Option (List ℕ × ℕ)
adaptation with_pcr pcr_base pcr_extn pes_data_len =
    if with_pcr
    then some (pcr_field pcr_base pcr_extn, max_ts_payload_size - 8)
    else if ltb pes_data_len max_ts_payload_size
    then (if pes_data_len == max_ts_payload_size - 1
        then some (0 ∷ [], max_ts_payload_size - 1)
        else some (1 ∷ 0 ∷ [], max_ts_payload_size - 2))
    else none

-- `TS_packet[4] += padlen;` on the field, whose first byte that is
abbrev pub lengthen : ℕ → List ℕ → List ℕ
lengthen padlen [] = []
lengthen padlen (len ∷ rest) = to_byte (len + padlen) ∷ rest

-- The field with stuffing, if the data leaves space, and the space that is left.
unfoldable pub stuffed : List ℕ → ℕ → ℕ → List ℕ × ℕ
stuffed field space_left pes_data_len =
    if ltb pes_data_len space_left
    then (let padlen = space_left - pes_data_len in
        (lengthen padlen field ++ replicate padlen 0xFF, space_left - padlen))
    else (field, space_left)

-- The TS header around an adaptation field, or without one, and `space_left`.
abbrev pub with_field : Bool → ℕ → ℕ → ℕ → Option (List ℕ × ℕ) → List ℕ × ℕ
with_field start_indicator pid count pes_data_len none =
    (first_bytes start_indicator pid 0x10 count, max_ts_payload_size)
with_field start_indicator pid count pes_data_len (some (field, space_left)) =
    let (field', space_left') = stuffed field space_left pes_data_len in
    (first_bytes start_indicator pid 0x30 count ++ field', space_left')

-- What `TS_packet` holds up to `TS_hdr_len`, and `space_left`.
unfoldable pub ts_header : Bool → Bool → ℕ → ℕ → ℕ → ℕ → ℕ → List ℕ × ℕ
ts_header start_indicator with_pcr pid count pcr_base pcr_extn pes_data_len =
    with_field start_indicator pid count pes_data_len
      (adaptation with_pcr pcr_base pcr_extn pes_data_len)

-- A null header is the empty list, and not counted; otherwise the sum is one of uint32_t.
unfoldable pub pes_data_len : List ℕ → ℕ → ℕ
pes_data_len [] data_len = data_len
pes_data_len (b ∷ bs) data_len = (data_len + length (b ∷ bs)) % 2 ^ 32

-- `space_left - pes_hdr_len`, of uint32_t
unfoldable pub word_minus : ℕ → ℕ → ℕ
word_minus a b = (a + 2 ^ 32 - b) % 2 ^ 32

-- `(PCR_base * 300) + PCR_extn`, of uint64_t
unfoldable pub pcr_of : ℕ → ℕ → ℕ
pcr_of pcr_base pcr_extn = (pcr_base * 300 + pcr_extn) % 2 ^ 64

module _ {W : Type 0} (tswrite_write : W → Sent → Option W) where
  -- The lengths of the headers are those of the lists. `data_len` is an int, given as the 32 bits of
  -- it, so that the total is one of these too: a negative length is 2 ^ 31 or more. The headers are
  -- copied behind one another into TS_packet, which has 188 bytes.
  unfoldable pub write_ts_packet_parts :
      Output W → List ℕ → List ℕ → List ℕ → ℕ → ℕ → Bool → ℕ → Outcome (Output W)
  write_ts_packet_parts output ts_hdr pes_hdr data1 data_len pid got_pcr pcr =
      let front = length ts_hdr + length pes_hdr in
      let sent : Sent = record {
        packet = ts_hdr ++ (pes_hdr ++ take data_len data1);
        pid = pid;
        got_pcr = got_pcr;
        pcr = pcr;
      } in
      if not ((front + data_len) % 2 ^ 32 == ts_packet_size)
      then err
      else if ltb ts_packet_size front || ltb (length data1) data_len
      then fault
      else (elim (tswrite_write output.writer sent) [
        | none ↦ err
        | some writer ↦ ok (record output { writer = writer })
      ])

  -- The recursion hands on the data that is left; the first argument bounds its depth. `data_len` is
  -- the length of the data, which a uint32_t holds.
  unfoldable pub write_some_ts_pes_packet :
      ℕ → Output W → List ℕ → List ℕ → Bool → Bool → ℕ → Bool → ℕ → ℕ → Outcome (Output W)
  unfolding write_ts_packet_parts
  write_some_ts_pes_packet zero output pes_hdr data1 start set_pusi pid got_pcr pcr_base pcr_extn =
      fault
  write_some_ts_pes_packet (suc fuel) output pes_hdr data1 start set_pusi pid got_pcr pcr_base
        pcr_extn =
      if ltb pid 0x0010 || ltb 0x1ffe pid
      then err
      else (let data_len = length data1 in
          let total = pes_data_len pes_hdr data_len in
          let (count, counter) = next_continuity_count output.continuity_counter pid in
          let (ts_hdr, space_left) =
            ts_header (start && set_pusi) (start && got_pcr) pid count pcr_base pcr_extn total in
          let counted : Output W = record output { continuity_counter = counter } in
          let pcr = pcr_of pcr_base pcr_extn in
          if total == space_left
          then write_ts_packet_parts counted ts_hdr pes_hdr data1 data_len pid got_pcr pcr
          else (let increment = word_minus space_left (length pes_hdr) in
              let more = λ (written : Output W).
                write_some_ts_pes_packet fuel written [] (drop increment data1) false false pid
                  false 0 0 in
              do
                written ←
                    write_ts_packet_parts counted ts_hdr pes_hdr data1 increment pid got_pcr pcr
                if ltb 0 (data_len - increment) then more written else ok written))
