-- ===== src/Psi/Write.antt =====
-- Writing program tables: TS_program_packet_hdr, write_pat, write_pmt, write_pat_and_pmt,
-- write_single_program_pat, write_TS_program_data and write_TS_null_packet of include/ts.h. The
-- parameter `stack` is what the local array `data` of write_pat holds before it is written to.
use mts_utils.Base.{ℕ, zero, suc, ◌+◌, ◌-◌, ◌*◌, ◌%◌, ◌^◌, ◌==◌, ltb, not}
use mts_utils.Base.{
  List, [], ◌∷◌, ◌++◌, length, take, drop, set, get_or, replicate, bit_and, bit_or,
}
use mts_utils.Base.{false, Option, some}
use mts_utils.Base.Outcome.{Outcome, ok, ◌>>=◌, ◌>>◌, refuse_if}
use mts_utils.Bits.{◌>>>◌, to_byte}
use mts_utils.Crc.{crc32_block}
use mts_utils.PidintList.{PidintList, build_pidint_list, append_to_pidint_list}
use mts_utils.Pmt.{
  PmtStream, Pmt, build_pmt, add_stream_to_pmt, pid_in_pmt, copy_bytes, bytes_of, is_illegal_pid,
}
use mts_utils.Ts.Read.{ts_packet_size}
use mts_utils.Ts.Write.{Sent, Output, next_continuity_count, write_ts_packet_parts}

-- `TS_hdr` as far as `TS_hdr_len`, and the array `continuity_counter`.
unfoldable pub ts_program_packet_hdr : (ℕ → ℕ) → ℕ → ℕ → Outcome (List ℕ × (ℕ → ℕ))
ts_program_packet_hdr counter pid data_len = do
  refuse_if (ltb (ts_packet_size - 5) data_len)
  let (count, counter') = next_continuity_count counter pid
  let pointer = to_byte (ts_packet_size - 5 - data_len)
  ok (
    0x47
        ∷ to_byte (bit_or 0x40 (bit_and pid 0x1f00 >>> 8))
        ∷ to_byte (bit_and pid 0xff)
        ∷ to_byte (bit_or 0x10 count)
        ∷ pointer
        ∷ replicate pointer 0xff,
    counter',
  )

-- The bytes of a 32-bit number, as they are written behind a section.
unfoldable pub crc_bytes : ℕ → List ℕ
crc_bytes crc32 =
    to_byte (bit_and crc32 0xff000000 >>> 24)
    ∷ to_byte (bit_and crc32 0x00ff0000 >>> 16)
    ∷ to_byte (bit_and crc32 0x0000ff00 >>> 8)
    ∷ to_byte (bit_and crc32 0x000000ff)
    ∷ []

-- data[0] to data[7] for a PAT
unfoldable pub pat_start : ℕ → ℕ → List ℕ
pat_start section_length transport_stream_id =
    0x00
    ∷ to_byte (bit_or 0xb0 (bit_and section_length 0x0F00 >>> 8))
    ∷ to_byte (bit_and section_length 0x0FF)
    ∷ to_byte (bit_and transport_stream_id 0xFF00 >>> 8)
    ∷ to_byte (bit_and transport_stream_id 0x00FF)
    ∷ 0xc1
    ∷ 0x00
    ∷ 0x00
    ∷ []

-- The four bytes of an entry.
unfoldable pub pat_entry : ℕ → ℕ → List ℕ
pat_entry number pid =
    to_byte (bit_and number 0xFF00 >>> 8)
    ∷ to_byte (bit_and number 0x00FF)
    ∷ to_byte (bit_or 0xE0 (bit_and pid 0x1F00 >>> 8))
    ∷ to_byte (bit_and pid 0x00FF)
    ∷ []

-- The loop over the programs, with `left` rounds to go.
unfoldable pub pat_entries : ℕ → ℕ → PidintList → List ℕ
unfolding pat_entry
pat_entries zero ii prog_list = []
pat_entries (suc left) ii prog_list =
    pat_entry (get_or prog_list.number ii 0) (get_or prog_list.pid ii 0)
    ++ pat_entries left (suc ii) prog_list

-- The CRC goes to data[12] to data[15].
unfoldable pub place_crc : ℕ → List ℕ → List ℕ
place_crc crc32 array =
    set
      (set
        (set (set array 12 (to_byte (bit_and crc32 0xff000000 >>> 24))) 13
          (to_byte (bit_and crc32 0x00ff0000 >>> 16)))
        14 (to_byte (bit_and crc32 0x0000ff00 >>> 8)))
      15 (to_byte (bit_and crc32 0x000000ff))

-- The bytes of a stream in a PMT.
unfoldable pub pmt_entry : PmtStream → Outcome (List ℕ)
pmt_entry stream = do
  info ← copy_bytes stream.es_info_length (bytes_of stream.es_info)
  ok (
      stream.stream_type
      ∷ to_byte (bit_or 0xE0 (bit_and stream.elementary_pid 0x1F00 >>> 8))
      ∷ to_byte (bit_and stream.elementary_pid 0x00FF)
      ∷ to_byte (bit_or (bit_and stream.es_info_length 0xFF00 >>> 8) 0xF0)
      ∷ to_byte (bit_and stream.es_info_length 0x00FF)
      ∷ info)

-- The loop over the streams in use.
unfoldable pub pmt_entries : List PmtStream → Outcome (List ℕ)
unfolding pmt_entry
pmt_entries [] = ok []
pmt_entries (stream ∷ more) = do
  entry ← pmt_entry stream
  rest ← pmt_entries more
  ok (entry ++ rest)

-- What the streams add to the length of the section.
unfoldable pub entries_len : List PmtStream → ℕ
entries_len [] = 0
entries_len (stream ∷ more) = 5 + stream.es_info_length + entries_len more

-- data[0] to data[11] for a PMT
unfoldable pub pmt_start : ℕ → Pmt → List ℕ
pmt_start section_length pmt =
    0x02
    ∷ to_byte (bit_or 0xb0 (bit_and section_length 0x0F00 >>> 8))
    ∷ to_byte (bit_and section_length 0x0FF)
    ∷ to_byte (bit_and pmt.program_number 0xFF00 >>> 8)
    ∷ to_byte (bit_and pmt.program_number 0x00FF)
    ∷ 0xc1
    ∷ 0x00
    ∷ 0x00
    ∷ to_byte (bit_or 0xE0 (bit_and pmt.pcr_pid 0x1F00 >>> 8))
    ∷ to_byte (bit_and pmt.pcr_pid 0x00FF)
    ∷ 0xF0
    ∷ to_byte pmt.program_info_length
    ∷ []

module _ {W : Type 0} (tswrite_write : W → Sent → Option W) where
  -- The end of write_pat and of write_pmt: the checks of the length and of the CRC, and the packet.
  -- `sent_pid` is what tswrite_write is told.
  unfoldable pub send_section : Output W → ℕ → ℕ → ℕ → List ℕ → Outcome (Output W)
  unfolding ts_program_packet_hdr
  send_section output pid sent_pid section_length section = do
    refuse_if (not (length section == section_length + 3))
    refuse_if (not (crc32_block 0xffffffff section == 0))
    (ts_hdr, counter) ← ts_program_packet_hdr output.continuity_counter pid (length section)
    write_ts_packet_parts tswrite_write (record output { continuity_counter = counter }) ts_hdr []
        section (length section) sent_pid false 0

  unfoldable pub write_pat : List ℕ → Output W → ℕ → PidintList → Outcome (Output W)
  write_pat stack output transport_stream_id prog_list = do
    let section_length = 9 + prog_list.length * 4
    refuse_if (ltb 1021 section_length)
    let written =
        pat_start section_length transport_stream_id ++ pat_entries prog_list.length 0 prog_list
    let offset = length written
    let crc32 = crc32_block 0xffffffff written
    let array = place_crc crc32 (written ++ drop offset stack)
    send_section output 0x00 0x00 section_length (take (offset + 4) array)

  -- A null `pmt` is not dealt with.
  unfoldable pub write_pmt : Output W → ℕ → Pmt → Outcome (Output W)
  write_pmt output pmt_pid pmt = do
    refuse_if (is_illegal_pid pmt_pid)
    refuse_if (pid_in_pmt (some pmt) pmt_pid)
    let streams = take pmt.num_streams pmt.streams
    let section_length = 13 + pmt.program_info_length + entries_len streams
    refuse_if (ltb 1021 section_length)
    info ← copy_bytes pmt.program_info_length (bytes_of pmt.program_info)
    entries ← pmt_entries streams
    let written = pmt_start section_length pmt ++ (info ++ entries)
    let section = written ++ crc_bytes (crc32_block 0xffffffff written)
    send_section output pmt_pid 0x02 section_length section

  unfoldable pub write_pat_and_pmt :
      List ℕ → Output W → ℕ → PidintList → ℕ → Pmt → Outcome (Output W)
  write_pat_and_pmt stack output transport_stream_id prog_list pmt_pid pmt = do
    output' ← write_pat stack output transport_stream_id prog_list
    write_pmt output' pmt_pid pmt

  unfoldable pub write_single_program_pat : List ℕ → Output W → ℕ → ℕ → ℕ → Outcome (Output W)
  write_single_program_pat stack output transport_stream_id program_number pmt_pid = do
    prog_list ← append_to_pidint_list (some build_pidint_list) pmt_pid program_number
    write_pat stack output transport_stream_id prog_list

  unfoldable pub write_ts_program_data : List ℕ → Output W → ℕ → ℕ → ℕ → ℕ → ℕ → Outcome (Output W)
  write_ts_program_data stack output transport_stream_id program_number pmt_pid pid stream_type = do
    prog_list ← append_to_pidint_list (some build_pidint_list) pmt_pid program_number
    pmt ← build_pmt (program_number % 2 ^ 16) 0 pid
    pmt' ← add_stream_to_pmt (some pmt) pid stream_type 0 []
    write_pat_and_pmt stack output transport_stream_id prog_list pmt_pid pmt'

  unfoldable pub write_ts_null_packet : Output W → Outcome (Output W)
  write_ts_null_packet output =
      write_ts_packet_parts tswrite_write output (0x47 ∷ 0x1F ∷ 0xFF ∷ 0x20 ∷ replicate 184 0xFF) []
        [] 0 0x1FF false 0
