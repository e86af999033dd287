-- ===== src/Es.antt =====
-- ES units of a bare elementary stream, from include/es.h, where `reading_ES` is set. What the calls
-- of `read` that are still to come return is a list: `some bytes` for a read that gives these,
-- none at all at the end of the file, and `none` for a read that fails. Memory is taken to suffice,
-- and a fresh cell, which is not read before it is written, is a 0.
pub mod Codes
pub mod Walk
pub mod Units
pub mod Laws
pub mod Next
pub mod All
mod Runs
use mts_utils.Base.{
  ℕ, zero, suc, ◌+◌, ◌-◌, ◌==◌, ltb, if◌then◌else◌, ◌&&◌, Bool, List, [], ◌∷◌, ◌++◌, length, drop,
  set, replicate, Option, none, some,
}
use mts_utils.Base.Outcome.{Outcome, ok, err, fault, ◌>>=◌, at}

-- `data` is what lies between `data` and `data_end`, and `data_ptr` is an offset from `data`.
pub record Es : Type 0 where
  pub read_ahead_posn : ℕ
  pub read_ahead_len : ℕ
  pub bytes : List ℕ
  pub data_ptr : ℕ
  pub posn_of_next_byte : ℕ
  pub cur_byte : ℕ
  pub prev1_byte : ℕ
  pub prev2_byte : ℕ

pub record EsUnit : Type 0 where
  pub start_posn : ℕ
  pub cells : List ℕ
  pub data_len : ℕ
  pub data_size : ℕ
  pub start_code : ℕ

abbrev pub Input : Type 0
Input = List (Option (List ℕ))

abbrev pub es_unit_data_start_size : ℕ
es_unit_data_start_size = 1000

abbrev pub es_unit_data_increment : ℕ
es_unit_data_increment = 500

unfoldable pub setup_es_unit : EsUnit
setup_es_unit = record {
  start_posn = 0;
  cells = replicate es_unit_data_start_size 0;
  data_len = 0;
  data_size = es_unit_data_start_size;
  start_code = 0;
}

-- `ok none` is EOF. The argument `got` is what `read` returns.
unfoldable pub get_more_data : Es → Option (List ℕ) → Outcome (Option Es)
get_more_data es none = err
get_more_data es (some []) = ok none
get_more_data es (some (b ∷ bs)) = ok (
    some (record es {
      read_ahead_posn = es.read_ahead_posn + es.read_ahead_len;
      read_ahead_len = length (b ∷ bs);
      bytes = b ∷ bs;
      data_ptr = 0;
    }))

-- The prefix 00 00 01 ends at this byte.
unfoldable pub is_prefix : ℕ → ℕ → ℕ → Bool
is_prefix prev2 prev1 byte = prev2 == 0 && prev1 == 0 && byte == 1

-- How the inner loop of find_ES_unit_start leaves: at the byte 01, or with the last two bytes.
pub data Scan : Type 0 where
  at_code : ℕ → Scan
  ran_out : ℕ → ℕ → Scan

unfoldable pub scan_start : ℕ → ℕ → ℕ → List ℕ → Scan
scan_start prev2 prev1 ptr [] = ran_out prev2 prev1
scan_start prev2 prev1 ptr (b ∷ bs) =
    let rest = scan_start prev1 b (suc ptr) bs in
    if is_prefix prev2 prev1 b then at_code ptr else rest

-- `unit` has been started or ended; or the file has come to its end.
pub data Reading : Type 0 where
  found : Es → Input → EsUnit → Reading
  at_eof : Es → Input → Reading

-- What is done at the byte 01.
unfoldable pub start_unit : Es → ℕ → Input → EsUnit → Outcome Reading
start_unit es ptr input unit =
    if ltb 2 unit.data_size
    then ok (
        found (record es { prev1_byte = 0; prev2_byte = 0; cur_byte = 1; data_ptr = suc ptr }) input
          (record unit {
            start_posn = es.read_ahead_posn + ptr - 2;
            cells = set (set (set unit.cells 0 0) 1 0) 2 1;
            data_len = 3;
          }))
    else fault

-- The outer loop of find_ES_unit_start.
unfoldable pub start_loop : Input → Es → ℕ → ℕ → EsUnit → Outcome Reading
start_loop [] es prev2 prev1 unit =
    elim (scan_start prev2 prev1 es.data_ptr (drop es.data_ptr es.bytes)) [
      | at_code ptr ↦ start_unit es ptr [] unit
      | ran_out p2 p1 ↦ ok (at_eof es [])
    ]
start_loop (got ∷ input) es prev2 prev1 unit =
    elim (scan_start prev2 prev1 es.data_ptr (drop es.data_ptr es.bytes)) [
      | at_code ptr ↦ start_unit es ptr (got ∷ input) unit
      | ran_out p2 p1 ↦ get_more_data es got >>= λ more. elim more [
        | none ↦ ok (at_eof es input)
        | some filled ↦ start_loop input filled p2 p1 unit
      ]
    ]

unfoldable pub find_es_unit_start : Es → Input → EsUnit → Outcome Reading
find_es_unit_start es input unit = start_loop input es es.prev2_byte es.prev1_byte unit

-- `unit->data[unit->data_len++] = *ptr`, behind the realloc where the array is full
unfoldable pub put_byte : EsUnit → ℕ → EsUnit
put_byte unit b =
    let grown =
      if unit.data_len == unit.data_size
      then record unit {
        cells = unit.cells ++ replicate es_unit_data_increment 0;
        data_size = unit.data_size + es_unit_data_increment;
      }
      else unit in
    record grown { cells = set grown.cells unit.data_len b; data_len = suc unit.data_len }

-- The inner loop of find_ES_unit_end; the unit has grown meanwhile.
unfoldable pub scan_end : ℕ → ℕ → ℕ → List ℕ → EsUnit → Scan × EsUnit
scan_end prev2 prev1 ptr [] unit = (ran_out prev2 prev1, unit)
scan_end prev2 prev1 ptr (b ∷ bs) unit =
    let rest = scan_end prev1 b (suc ptr) bs (put_byte unit b) in
    if is_prefix prev2 prev1 b then (at_code ptr, unit) else rest

-- What is done at the byte 01 of the next unit.
unfoldable pub end_unit : Es → ℕ → EsUnit → Input → Outcome Reading
end_unit es ptr unit input = ok (
    found
      (record es {
        data_ptr = ptr;
        prev2_byte = 0;
        cur_byte = 1;
        posn_of_next_byte = es.read_ahead_posn + ptr - 2;
      })
      input (record unit { data_len = unit.data_len - 2 }))

-- What is done at the end of the file: `ptr` is `data_end`.
unfoldable pub end_at_eof : Es → ℕ → ℕ → EsUnit → Input → Outcome Reading
end_at_eof es prev2 prev1 unit input = ok (
    found
      (record es {
        data_ptr = length es.bytes;
        prev2_byte = prev2;
        prev1_byte = prev1;
        cur_byte = 0xFF;
        posn_of_next_byte = es.read_ahead_posn + length es.bytes;
      })
      input unit)

-- The outer loop of find_ES_unit_end.
unfoldable pub end_loop : Input → Es → ℕ → ℕ → EsUnit → Outcome Reading
end_loop [] es prev2 prev1 unit =
    let (stop, grown) = scan_end prev2 prev1 es.data_ptr (drop es.data_ptr es.bytes) unit in
    elim stop [
      | at_code ptr ↦ end_unit es ptr grown []
      | ran_out p2 p1 ↦ end_at_eof es p2 p1 grown []
    ]
end_loop (got ∷ input) es prev2 prev1 unit =
    let (stop, grown) = scan_end prev2 prev1 es.data_ptr (drop es.data_ptr es.bytes) unit in
    elim stop [
      | at_code ptr ↦ end_unit es ptr grown (got ∷ input)
      | ran_out p2 p1 ↦ get_more_data es got >>= λ more. elim more [
        | none ↦ end_at_eof es p2 p1 grown input
        | some filled ↦ end_loop input filled p2 p1 grown
      ]
    ]

unfoldable pub find_es_unit_end : Es → Input → EsUnit → Outcome Reading
find_es_unit_end es input unit = end_loop input es es.prev1_byte es.cur_byte unit

unfoldable pub find_next_es_unit : Es → Input → EsUnit → Outcome Reading
find_next_es_unit es input unit = find_es_unit_start es input unit >>= λ started. elim started [
  | at_eof es1 input1 ↦ ok (at_eof es1 input1)
  | found es1 input1 unit1 ↦ find_es_unit_end es1 input1 unit1 >>= λ ended. elim ended [
    | at_eof es2 input2 ↦ ok (at_eof es2 input2)
    | found es2 input2 unit2 ↦
        at unit2.cells 3 >>= λ code. ok (found es2 input2 (record unit2 { start_code = code }))
  ]
]

unfoldable pub find_and_build_next_es_unit : Es → Input → Outcome Reading
unfolding setup_es_unit
find_and_build_next_es_unit es input = find_next_es_unit es input setup_es_unit

-- setup_readahead and build_elementary_stream_file, which ignores what setup_readahead returns: on a
-- file whose first read gives less than three bytes the bytes in memory are not set, which is `none`.
unfoldable pub build_elementary_stream_file : Input → Option (Es × Input)
build_elementary_stream_file [] = none
build_elementary_stream_file (none ∷ input) = none
build_elementary_stream_file (some bs ∷ input) =
    if ltb (length bs) 3
    then none
    else some (
      record {
        read_ahead_posn = 0;
        read_ahead_len = length bs;
        bytes = bs;
        data_ptr = 0;
        posn_of_next_byte = 0;
        cur_byte = 0xFF;
        prev1_byte = 0xFF;
        prev2_byte = 0xFF;
      },
      input,
    )
