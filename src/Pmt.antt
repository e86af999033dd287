-- ===== src/Pmt.antt =====
-- Program map tables, the second half of include/pidint.h. The streams are an array of
-- `streams_size` cells with `num_streams` in use. A null pointer is `none`. Memory is taken to
-- suffice, and a fresh cell, which is not read before it is written, is a stream of zeros.
pub mod Laws
pub mod Lookup
pub mod Same
mod Runs
use mts_utils.Base
use mts_utils.Base.{ℕ, zero, suc, ◌+◌, ◌-◌, ◌%◌, ◌==◌, ltb, if◌then◌else◌, not}
use mts_utils.Base.{
  List, [], ◌∷◌, ◌++◌, set, take, replicate, get_elem?, Bool, true, false, ◌&&◌, ◌||◌,
}
use mts_utils.Base.{Option, none, some}
use mts_utils.Base.Outcome.{Outcome, ok, err, fault, ◌>>=◌, ◌>>◌, refuse_if}
use mts_utils.Arrays.{search_loop, close_gap}

pub record PmtStream : Type 0 where
  pub stream_type : ℕ
  pub elementary_pid : ℕ
  pub es_info_length : ℕ
  pub es_info : Option (List ℕ)

pub record Pmt : Type 0 where
  pub program_number : ℕ
  pub version_number : ℕ
  pub pcr_pid : ℕ
  pub program_info_length : ℕ
  pub program_info : Option (List ℕ)
  pub streams_size : ℕ
  pub num_streams : ℕ
  pub streams : List PmtStream

abbrev pub pmt_streams_start_size : ℕ
pmt_streams_start_size = 5

abbrev pub pmt_streams_increment : ℕ
pmt_streams_increment = 10

abbrev pub pmt_max_info_length : ℕ
pmt_max_info_length = 0x3FF

abbrev pub fresh_stream : PmtStream
fresh_stream = record { stream_type = 0; elementary_pid = 0; es_info_length = 0; es_info = none }

-- `elementary_PID < 0x0010 || elementary_PID > 0x1ffe`
abbrev pub is_illegal_pid : ℕ → Bool
is_illegal_pid pid = ltb pid 0x0010 || ltb 0x1ffe pid

-- with init_pmt_streams; `err` is the null pointer that it returns
unfoldable pub build_pmt : ℕ → ℕ → ℕ → Outcome Pmt
build_pmt program_number version_number pcr_pid =
    let version = if ltb 31 version_number then version_number % 32 else version_number in
    let pcr = if pcr_pid == 0 then 0x1FFF else pcr_pid in
    if not (pcr == 0x1FFF) && is_illegal_pid pcr
    then err
    else ok (record {
      program_number = program_number;
      version_number = version;
      pcr_pid = pcr;
      program_info_length = 0;
      program_info = none;
      streams_size = pmt_streams_start_size;
      num_streams = 0;
      streams = replicate pmt_streams_start_size fresh_stream;
    })

-- memcpy to a fresh array of `n` bytes
unfoldable pub copy_bytes : ℕ → List ℕ → Outcome (List ℕ)
copy_bytes n bytes = if ltb (Base.length bytes) n then fault else ok (take n bytes)

-- Whether `program_info` was null, was of that size or is reallocated, all its bytes are replaced.
unfoldable pub set_pmt_program_info : Pmt → ℕ → List ℕ → Outcome Pmt
unfolding copy_bytes
set_pmt_program_info pmt program_info_length program_info = do
  refuse_if (ltb pmt_max_info_length program_info_length)
  copied ← copy_bytes program_info_length program_info
  ok (record pmt { program_info = some copied; program_info_length = program_info_length })

-- realloc, where the array is full
unfoldable pub extend_streams : Pmt → Pmt
extend_streams pmt =
    if pmt.num_streams == pmt.streams_size
    then record pmt {
      streams = pmt.streams ++ replicate pmt_streams_increment fresh_stream;
      streams_size = pmt.streams_size + pmt_streams_increment;
    }
    else pmt

-- the assignments to `pmt->streams[pmt->num_streams]`
unfoldable pub store_stream : Pmt → PmtStream → Pmt
store_stream pmt stream = record pmt {
  streams = set pmt.streams pmt.num_streams stream;
  num_streams = suc pmt.num_streams;
}

-- `ES_info` as it is kept
unfoldable pub kept_info : ℕ → List ℕ → Outcome (Option (List ℕ))
unfolding copy_bytes
kept_info es_info_length es_info =
    if ltb 0 es_info_length
    then (do copied ← copy_bytes es_info_length es_info; ok (some copied))
    else ok none

unfoldable pub add_stream_to_pmt : Option Pmt → ℕ → ℕ → ℕ → List ℕ → Outcome Pmt
unfolding extend_streams store_stream kept_info
add_stream_to_pmt none elementary_pid stream_type es_info_length es_info = err
add_stream_to_pmt (some pmt) elementary_pid stream_type es_info_length es_info = do
  refuse_if (is_illegal_pid elementary_pid)
  refuse_if (ltb pmt_max_info_length es_info_length)
  kept ← kept_info es_info_length es_info
  ok (
      store_stream (extend_streams pmt) (record {
        stream_type = stream_type;
        elementary_pid = elementary_pid;
        es_info_length = es_info_length;
        es_info = kept;
      }))

-- `none` is -1
unfoldable pub pid_index_in_pmt : Option Pmt → ℕ → Option ℕ
pid_index_in_pmt none pid = none
pid_index_in_pmt (some pmt) pid =
    search_loop (λ stream. stream.elementary_pid == pid) pmt.num_streams 0 pmt.streams

-- the stream that the pointer points to; the same loop as above
unfoldable pub pid_stream_in_pmt : Option Pmt → ℕ → Option PmtStream
pid_stream_in_pmt none pid = none
pid_stream_in_pmt (some pmt) pid =
    elim (search_loop (λ stream. stream.elementary_pid == pid) pmt.num_streams 0 pmt.streams) [
      | none ↦ none
      | some ii ↦ get_elem? pmt.streams ii
    ]

unfoldable pub pid_in_pmt : Option Pmt → ℕ → Bool
unfolding pid_index_in_pmt
pid_in_pmt pmt pid = elim (pid_index_in_pmt pmt pid) [ none ↦ false | some ii ↦ true ]

-- the loop that moves the streams behind `index` down, and `(pmt->num_streams)--`
unfoldable pub close_stream : Pmt → ℕ → Pmt
close_stream pmt index = record pmt {
  streams = close_gap (pmt.num_streams - 1 - index) index pmt.streams;
  num_streams = pmt.num_streams - 1;
}

unfoldable pub remove_stream_from_pmt : Option Pmt → ℕ → Outcome Pmt
unfolding close_stream
remove_stream_from_pmt none pid = err
remove_stream_from_pmt (some pmt) pid = elim (pid_index_in_pmt (some pmt) pid) [
  | none ↦ err
  | some index ↦ ok (close_stream pmt index)
]

-- The bytes behind a pointer, none behind the null pointer.
abbrev pub bytes_of : Option (List ℕ) → List ℕ
bytes_of none = []
bytes_of (some bytes) = bytes

-- `!memcmp(xs, ys, n)`, for arrays that hold as many bytes
unfoldable pub same_bytes : ℕ → List ℕ → List ℕ → Bool
same_bytes zero xs ys = true
same_bytes (suc n) (x ∷ xs) (y ∷ ys) = if x == y then same_bytes n xs ys else false
same_bytes (suc n) _ ys = false

-- for two streams that are there and not the same one
unfoldable pub same_pmt_stream : PmtStream → PmtStream → Bool
unfolding same_bytes
same_pmt_stream str1 str2 =
    if not (str1.elementary_pid == str2.elementary_pid)
    then false
    else if not (str1.es_info_length == str2.es_info_length)
    then false
    else if not (same_bytes str1.es_info_length (bytes_of str1.es_info) (bytes_of str2.es_info))
    then false
    else true

-- One round of the loop of same_pmt for a stream of `pmt1`.
unfoldable pub stream_matches : Pmt → PmtStream → Bool
unfolding same_pmt_stream
stream_matches pmt2 stream = elim (pid_index_in_pmt (some pmt2) stream.elementary_pid) [
  | none ↦ false
  | some idx ↦ elim (get_elem? pmt2.streams idx) [
    | none ↦ false
    | some other ↦ if not (same_pmt_stream stream other) then false else true
  ]
]

-- The loop, with `left` rounds to go.
unfoldable pub same_streams : ℕ → ℕ → Pmt → Pmt → Bool
same_streams zero ii pmt1 pmt2 = true
same_streams (suc left) ii pmt1 pmt2 =
    let rest = same_streams left (suc ii) pmt1 pmt2 in
    elim (get_elem? pmt1.streams ii) [
      | none ↦ false
      | some stream ↦ if not (stream_matches pmt2 stream) then false else rest
    ]

-- `same_pointer` says that both arguments are one pointer.
unfoldable pub same_pmt : Bool → Option Pmt → Option Pmt → Bool
unfolding same_streams
same_pmt true pmt1 pmt2 = true
same_pmt false none pmt2 = false
same_pmt false (some pmt1) none = false
same_pmt false (some pmt1) (some pmt2) =
    if not (pmt1.pcr_pid == pmt2.pcr_pid)
    then false
    else if not (pmt1.version_number == pmt2.version_number)
    then false
    else if not (pmt1.program_info_length == pmt2.program_info_length)
    then false
    else if not (pmt1.num_streams == pmt2.num_streams)
    then false
    else if not (
        same_bytes pmt1.program_info_length (bytes_of pmt1.program_info)
          (bytes_of pmt2.program_info))
    then false
    else same_streams pmt1.num_streams 0 pmt1 pmt2
