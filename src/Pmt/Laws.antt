-- ===== src/Pmt/Laws.antt =====
-- Program map tables that are well formed, and the search for a PID in one.
pub mod Build
pub mod Add
pub mod Remove
use mts_utils.Base.{
  ℕ, suc, ◌-◌, ◌%◌, ◌≤◌, ◌<◌, ◌≡◌, ◌==◌, refl, sym, ap, ◌∙◌, arith, ◌⊎◌, Option-cases,
}
use mts_utils.Base.{List, [], ◌∷◌, ◌++◌, length, take, replicate, true, false, Bool-cases, inl, inr}
use mts_utils.Base.{
  Option, none, some, length-append, length-set, length-take, All, All-append, ==-eq-true,
  take-length, ltb-eq-false, ltb-eq-true, ==_iff, ltb, if◌then◌else◌,
}
use mts_utils.Base.Outcome.{ok, err}
use mts_utils.Arrays.Loops.{
  find_index, find_index-lt, erase_at, erase_at-close_gap, All-erase_at, take-set_next, take-grown,
}
use mts_utils.Arrays.Loops.{length-close_gap, search_loop-eq-find_index}
use mts_utils.Pmt.{
  PmtStream, Pmt, is_illegal_pid, build_pmt, copy_bytes, set_pmt_program_info, fresh_stream,
}
use mts_utils.Pmt.{extend_streams, store_stream, kept_info, add_stream_to_pmt, pid_index_in_pmt}
use mts_utils.Pmt.{close_stream, remove_stream_from_pmt, bytes_of}

-- A stream has a legal PID, and as many bytes of information as it says, which is not too many.
pub record IsStream (stream : PmtStream) : Type 0 where
  pub legal : is_illegal_pid stream.elementary_pid ≡ false
  pub counted : length (bytes_of stream.es_info) ≡ stream.es_info_length
  pub short : stream.es_info_length ≤ 0x3FF

-- The array has `streams_size` cells, and no more are in use; the streams and the program information
-- are well formed; the version is a number of five bits, and the PID of the PCR is legal or unset.
pub record IsValid (pmt : Pmt) : Type 0 where
  pub cells : length pmt.streams ≡ pmt.streams_size
  pub fits : pmt.num_streams ≤ pmt.streams_size
  pub good : All IsStream (take pmt.num_streams pmt.streams)
  pub counted : length (bytes_of pmt.program_info) ≡ pmt.program_info_length
  pub short : pmt.program_info_length ≤ 0x3FF
  pub version : pmt.version_number < 32
  pub pcr : (pmt.pcr_pid ≡ 0x1FFF) ⊎ (is_illegal_pid pmt.pcr_pid ≡ false)

-- The streams in use.
abbrev pub streams_of : Pmt → List PmtStream
streams_of pmt = take pmt.num_streams pmt.streams

-- On a valid table pid_index_in_pmt finds the first stream with the PID, or none.
pub pid_index_in_pmt_lem :
    (pmt : Pmt) (pid : ℕ)
    → IsValid pmt
    → pid_index_in_pmt (some pmt) pid ≡ find_index (λ s. s.elementary_pid == pid) (streams_of pmt)
unfolding pid_index_in_pmt
pid_index_in_pmt_lem pmt pid v =
    search_loop-eq-find_index (λ s. s.elementary_pid == pid) pmt.num_streams pmt.streams
      (omega (arith, v.cells, v.fits))
