-- ===== src/Psi/Laws/Runs.antt =====
-- Program tables of concrete bytes.
use mts_utils.Base.{ℕ, ◌≡◌, refl, arith, List, [], ◌∷◌, replicate, some, none}
use mts_utils.Base.Outcome.{ok, fault}
use mts_utils.Ts.Read.{split_ts_packet}
use mts_utils.Ts.Write.{Sent, Output}
use mts_utils.Psi.Read.{build_psi_data, start_psi_data}
use mts_utils.Base.Outcome.{err}
use mts_utils.PidintList.{PidintList}
use mts_utils.Crc.{crc32_block, crc_byte, crc_table}
use mts_utils.Psi.Write.{write_pat, pat_start, pat_entries, pat_entry, place_crc, send_section}
use mts_utils.Ts.Laws.Receiver.{logging}
use mts_utils.Base.{inr}
use mts_utils.Pmt.{Pmt, PmtStream, fresh_stream}
use mts_utils.Pmt.Laws.{IsValid, IsStream}
use mts_utils.Psi.Write.{pmt_entries}
use mts_utils.Psi.Read.{stream_loop}
use mts_utils.Base.{length, ◌++◌}
use mts_utils.Psi.Laws.Streams.{Grown, stream_loop-pmt_entries}
use mts_utils.Psi.Laws.{build_psi_data_lem}
use mts_utils.Psi.Laws.Pat.{IsOther, Announces, write_single_program_pat-find_pat}

abbrev idle_output : Output (List Sent)
idle_output = record { continuity_counter = λ pid. 15; writer = [] }

abbrev null_packet : List ℕ
null_packet = 0x47 ∷ 0x1F ∷ 0xFF ∷ 0x20 ∷ replicate 184 0xFF

null_packet-IsOther : IsOther null_packet
unfolding split_ts_packet
null_packet-IsOther = (_, refl, refl)

abbrev two_entries : PidintList
two_entries = record {
  number = 1 ∷ 2 ∷ 0 ∷ 0 ∷ 0 ∷ [];
  pid = 0x66 ∷ 0x77 ∷ 0 ∷ 0 ∷ 0 ∷ [];
  length = 2;
  size = 5;
}

-- A list of two programs, where `data` held zeros.
two_refused : write_pat logging (replicate 1024 0) idle_output 1 two_entries ≡ err
unfolding write_pat pat_start pat_entries pat_entry place_crc send_section crc32_block crc_byte
    crc_table
two_refused = refl

-- A section of 200 bytes behind its length, in a packet that holds 2 of them.
overread : build_psi_data (some (0 ∷ 0x02 ∷ 0xB0 ∷ 200 ∷ 1 ∷ 2 ∷ [])) 6 none ≡ fault
unfolding build_psi_data start_psi_data
overread = refl

build_psi_data_example :
    build_psi_data (some (1 ∷ 0xFF ∷ 0x02 ∷ 0xB0 ∷ 2 ∷ 7 ∷ 8 ∷ 0xFF ∷ [])) 8 none
    ≡ ok (record { bytes = 0x02 ∷ 0xB0 ∷ 2 ∷ 7 ∷ 8 ∷ []; len = 5; used = 5 })
build_psi_data_example =
    build_psi_data_lem 0x02 0xB0 2 (0xFF ∷ []) (7 ∷ 8 ∷ 0xFF ∷ []) (omega arith)

write_single_program_pat-find_pat_example :
    (final : Output (List Sent)) × (sent : Sent) × Announces
      (replicate 1024 0)
      idle_output
      1
      1
      0x66
      (null_packet ∷ [])
      []
      final
      sent
write_single_program_pat-find_pat_example =
    write_single_program_pat-find_pat (replicate 1024 0) idle_output 1 1 0x66 (null_packet ∷ []) []
      (omega arith) (omega arith) (omega arith) (omega arith) (omega arith)
      (null_packet-IsOther, tt)

abbrev camera : PmtStream
camera = record {
  stream_type = 0x1b;
  elementary_pid = 0x100;
  es_info_length = 2;
  es_info = some (0x0A ∷ 0x00 ∷ []);
}

abbrev bare_table : Pmt
bare_table = record {
  program_number = 1;
  version_number = 0;
  pcr_pid = 0x100;
  program_info_length = 0;
  program_info = none;
  streams_size = 5;
  num_streams = 0;
  streams = replicate 5 fresh_stream;
}

bare_table-IsValid : IsValid bare_table
bare_table-IsValid = record {
  cells = refl;
  fits = omega arith;
  good = tt;
  counted = refl;
  short = omega arith;
  version = omega arith;
  pcr = inr refl;
}

camera-IsStream : IsStream camera
camera-IsStream = record { legal = refl; counted = refl; short = omega arith }

stream_loop-pmt_entries_example :
    (bytes : List ℕ) × (pmt' : Pmt) × (pmt_entries (camera ∷ []) ≡ ok bytes)
    × (stream_loop (length bytes) (bytes ++ 1 ∷ 2 ∷ 3 ∷ 4 ∷ []) (length bytes) bare_table ≡ ok pmt')
    × Grown bare_table (camera ∷ []) pmt'
stream_loop-pmt_entries_example =
    stream_loop-pmt_entries (camera ∷ []) (1 ∷ 2 ∷ 3 ∷ 4 ∷ []) bare_table bare_table-IsValid
      (camera-IsStream, tt)
