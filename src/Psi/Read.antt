-- ===== src/Psi/Read.antt =====
-- Reading program tables: build_psi_data, extract_prog_list_from_pat and extract_pmt of include/ts.h,
-- apart from what they report. A null pointer is `none`; another is what it leads to, up to the end
-- of its array.
use mts_utils.Base.{ℕ, zero, suc, ◌+◌, ◌-◌, ◌/◌, ◌==◌, ltb, if◌then◌else◌, not}
use mts_utils.Base.{List, ◌++◌, take, drop, bit_and, bit_or}
use mts_utils.Base.{Option, none, some}
use mts_utils.Base.Outcome.{Outcome, ok, err, fault, ◌>>=◌, ◌>>◌, refuse_if, at}
use mts_utils.Bits.{◌<<<◌, ◌>>>◌}
use mts_utils.Crc.{crc32_block}
use mts_utils.PidintList.{PidintList, build_pidint_list, append_to_pidint_list}
use mts_utils.Pmt.{Pmt, build_pmt, set_pmt_program_info, add_stream_to_pmt, copy_bytes}

-- `*data`, `*data_len` and `*data_used`
pub record PsiData : Type 0 where
  pub bytes : List ℕ
  pub len : ℕ
  pub used : ℕ

-- The first packet of a section, whose payload begins with a pointer.
unfoldable pub start_psi_data : List ℕ → ℕ → Outcome PsiData
unfolding copy_bytes
start_psi_data payload payload_len = do
  pointer ← at payload 0
  refuse_if (ltb (payload_len - 1) pointer)
  let packet_data = drop (pointer + 1) payload
  let packet_data_len = payload_len - pointer - 1
  high ← at packet_data 1
  low ← at packet_data 2
  let data_len = bit_or (bit_and high 0xF <<< 8) low + 3
  copied ← copy_bytes data_len packet_data
  ok (record {
    bytes = copied;
    len = data_len;
    used = if ltb data_len packet_data_len then data_len else packet_data_len;
  })

-- A packet that continues one.
unfoldable pub continue_psi_data : List ℕ → ℕ → PsiData → Outcome PsiData
unfolding copy_bytes
continue_psi_data payload payload_len psi = do
  let space_left = psi.len - psi.used
  let n = if ltb payload_len space_left then payload_len else space_left
  copied ← copy_bytes n payload
  ok (record psi {
    bytes = take psi.used psi.bytes ++ (copied ++ drop (psi.used + n) psi.bytes);
    used = psi.used + n;
  })

unfoldable pub build_psi_data : Option (List ℕ) → ℕ → Option PsiData → Outcome PsiData
unfolding start_psi_data continue_psi_data
build_psi_data payload payload_len psi = if payload_len == 0 then err else (elim payload [
  | none ↦ err
  | some bytes ↦ elim psi [
    | none ↦ start_psi_data bytes payload_len
    | some so_far ↦ continue_psi_data bytes payload_len so_far
  ]
])

-- `data[data_len - back]`, where the index may be negative.
unfoldable pub at_back : List ℕ → ℕ → ℕ → Outcome ℕ
at_back data1 data_len back = if ltb data_len back then fault else at data1 (data_len - back)

-- Both functions fetch the CRC, and report it only.
unfoldable pub fetch_crc : List ℕ → ℕ → Outcome (Unit {0})
unfolding at_back
fetch_crc data1 data_len = do
  crc_0 ← at_back data1 data_len 4
  crc_1 ← at_back data1 data_len 3
  crc_2 ← at_back data1 data_len 2
  crc_3 ← at_back data1 data_len 1
  ok tt

-- The loop of extract_prog_list_from_pat, with `left` rounds to go.
unfoldable pub program_loop : ℕ → List ℕ → PidintList → Outcome PidintList
program_loop zero program_data prog_list = ok prog_list
program_loop (suc left) program_data prog_list = do
  data_0 ← at program_data 0
  data_1 ← at program_data 1
  data_2 ← at program_data 2
  data_3 ← at program_data 3
  let program_number = bit_or (data_0 <<< 8) data_1
  let pid = bit_or (bit_and data_2 0x1F <<< 8) data_3
  prog_list' ←
      if program_number == 0
      then ok prog_list
      else append_to_pidint_list (some prog_list) pid program_number
  program_loop left (drop 4 program_data) prog_list'

-- The length of a section, which must not be more than the data that is left.
unfoldable pub section_end : List ℕ → ℕ → Outcome ℕ
section_end data1 data_len = do
  data_1 ← at data1 1
  data_2 ← at data1 2
  let section_length = bit_or (bit_and data_1 0xF <<< 8) data_2
  refuse_if (ltb data_len (section_length + 3))
  ok (section_length + 3)

-- An entry takes four bytes, and one that is cut off is read all the same.
unfoldable pub extract_prog_list_from_pat : Option (List ℕ) → ℕ → Outcome PidintList
unfolding section_end fetch_crc program_loop
extract_prog_list_from_pat none data_len = err
extract_prog_list_from_pat (some data1) data_len0 = do
  refuse_if (data_len0 == 0)
  table_id ← at data1 0
  refuse_if (not (table_id == 0))
  data_len ← section_end data1 data_len0
  data_3 ← at data1 3
  data_4 ← at data1 4
  data_5 ← at data1 5
  data_6 ← at data1 6
  data_7 ← at data1 7
  fetch_crc data1 data_len
  refuse_if (not (crc32_block 0xffffffff (take data_len data1) == 0))
  program_loop ((data_len - 8 - 4 + 3) / 4) (drop 8 data1) build_pidint_list

-- The loop of extract_pmt. A round takes five bytes at least; the first argument bounds the rounds.
unfoldable pub stream_loop : ℕ → List ℕ → ℕ → Pmt → Outcome Pmt
stream_loop zero stream_data stream_data_len pmt = if ltb 0 stream_data_len then fault else ok pmt
stream_loop (suc fuel) stream_data stream_data_len pmt =
    if not (ltb 0 stream_data_len) then ok pmt else (do
      stream_type ← at stream_data 0
      data_1 ← at stream_data 1
      data_2 ← at stream_data 2
      data_3 ← at stream_data 3
      data_4 ← at stream_data 4
      let pid = bit_or (bit_and data_1 0x1F <<< 8) data_2
      let es_info_length = bit_or (bit_and data_3 0x0F <<< 8) data_4
      pmt' ← add_stream_to_pmt (some pmt) pid stream_type es_info_length (drop 5 stream_data)
      stream_loop fuel (drop (5 + es_info_length) stream_data)
          (stream_data_len - 5 - es_info_length) pmt')

-- A table of another kind comes to an empty PMT; a CRC that is wrong is only reported.
unfoldable pub extract_pmt : Option (List ℕ) → ℕ → Outcome Pmt
unfolding section_end fetch_crc stream_loop
extract_pmt none data_len = err
extract_pmt (some data1) data_len0 = do
  refuse_if (data_len0 == 0)
  table_id ← at data1 0
  if not (table_id == 2) then build_pmt 0 0 0 else (do
    data_len ← section_end data1 data_len0
    data_3 ← at data1 3
    data_4 ← at data1 4
    let program_number = bit_or (data_3 <<< 8) data_4
    data_5 ← at data1 5
    let version_number = bit_and data_5 0x3E >>> 1
    data_6 ← at data1 6
    data_7 ← at data1 7
    data_8 ← at data1 8
    data_9 ← at data1 9
    let pcr_pid = bit_or (bit_and data_8 0x1F <<< 8) data_9
    data_10 ← at data1 10
    data_11 ← at data1 11
    let program_info_length = bit_or (bit_and data_10 0x0F <<< 8) data_11
    fetch_crc data1 data_len
    pmt ← build_pmt program_number version_number pcr_pid
    pmt' ←
        if ltb 0 program_info_length
        then set_pmt_program_info pmt program_info_length (drop 12 data1)
        else ok pmt
    let stream_data_len = data_len - 12 - program_info_length - 4
    stream_loop stream_data_len (drop (12 + program_info_length) data1) stream_data_len pmt')
