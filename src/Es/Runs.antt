-- ===== src/Es/Runs.antt =====
-- Elementary streams of concrete data.
use mts_utils.Base.{ℕ, refl, arith, List, [], ◌∷◌, some}
use mts_utils.Es.{Es, Input, setup_es_unit, find_next_es_unit}
use mts_utils.Es.Codes.{next_code}
use mts_utils.Es.Laws.{pending}
use mts_utils.Es.Next.{NextUnit, find_next-NextUnit}
use mts_utils.Es.All.{FileReads, read_file-ReadsAll, setup-IsUnit}

-- The second prefix stands across the end of the first read.
abbrev first_read : List ℕ
first_read = 7 ∷ 0 ∷ 0 ∷ 1 ∷ 0xB3 ∷ 5 ∷ 0 ∷ []

abbrev later_reads : Input
later_reads = some (0 ∷ 1 ∷ 0x09 ∷ []) ∷ some (0 ∷ []) ∷ []

abbrev opened_es : Es
opened_es = record {
  read_ahead_posn = 0;
  read_ahead_len = 7;
  bytes = first_read;
  data_ptr = 0;
  posn_of_next_byte = 0;
  cur_byte = 0xFF;
  prev1_byte = 0xFF;
  prev2_byte = 0xFF;
}

find_next_example :
    NextUnit opened_es later_reads
      (next_code (pending opened_es later_reads))
      (find_next_es_unit opened_es later_reads setup_es_unit)
find_next_example =
    find_next-NextUnit opened_es later_reads setup_es_unit setup-IsUnit
      (record { counted = refl; inside = omega arith }) (tt, (tt, tt))

read_file_example : FileReads first_read later_reads 30
read_file_example =
    read_file-ReadsAll first_read later_reads 30 (omega arith) (tt, (tt, tt)) (omega arith)
