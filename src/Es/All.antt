-- ===== src/Es/All.antt =====
-- All the units of a file: the calls of find_and_build_next_ES_unit (include/es.h) until EOF.
use mts_utils.Base.{
  ℕ, zero, suc, ◌+◌, ◌≤◌, ◌<◌, ◌≡◌, refl, sym, ap, ◌∙◌, arith, List, [], ◌∷◌, ◌++◌, length, drop,
  All, Option, none, some, Option-cases, inl, inr,
}
use mts_utils.Base.{length-replicate, length-append, length-drop, ltb-eq-false}
use mts_utils.Base.Outcome.{Outcome, ok, fault, ◌>>=◌}
use mts_utils.Es.{
  is_prefix, Es, EsUnit, Input, Reading, found, at_eof, setup_es_unit, find_next_es_unit,
  find_and_build_next_es_unit, build_elementary_stream_file,
}
use mts_utils.Es.Codes.{next_code, later}
use mts_utils.Es.Walk.{Readable, IsReading, rest_of}
use mts_utils.Es.Units.{IsUnit, contents}
use mts_utils.Es.Laws.{pending, to_come}
use mts_utils.Es.Next.{ReadsUnit, NextUnit, find_next-NextUnit}

-- The units until EOF, with at most `calls` calls.
unfoldable pub read_units : ℕ → Es → Input → Outcome (List EsUnit)
read_units zero es input = fault
read_units (suc calls) es input = find_and_build_next_es_unit es input >>= λ reading. elim reading [
  | at_eof es1 input1 ↦ ok []
  | found es1 input1 unit ↦ read_units calls es1 input1 >>= λ more. ok (unit ∷ more)
]

abbrev pub join_units : List EsUnit → List ℕ
join_units [] = []
join_units (unit ∷ more) = contents unit ++ join_units more

-- A prefix, and no other behind it.
pub record IsOneUnit (unit : EsUnit) : Type 0 where
  pub body : List ℕ
  pub bytes : contents unit ≡ 0 ∷ 0 ∷ 1 ∷ body
  pub ends : next_code (0 ∷ 1 ∷ body) ≡ none

pub record ReadsAll (bytes : List ℕ) (result : Outcome (List EsUnit)) : Type 0 where
  pub units : List EsUnit
  pub succeeds : result ≡ ok units
  pub joined : join_units units ≡ to_come bytes
  pub each : All IsOneUnit units

pub setup-IsUnit : IsUnit setup_es_unit
unfolding setup_es_unit
setup-IsUnit = record {
  measured = length-replicate {A = ℕ} 1000 0;
  inside = omega arith;
  large = omega arith;
}

more_units :
    (calls : ℕ) (es : Es) (input : Input) (k : ℕ)
    (reads : ReadsUnit es input k (find_next_es_unit es input setup_es_unit))
    → ReadsAll
        (pending reads.es_after reads.input_after)
        (read_units calls reads.es_after reads.input_after)
    → ReadsAll (pending es input) (read_units (suc calls) es input)
unfolding read_units find_and_build_next_es_unit
more_units calls es input k reads further = record {
  units = reads.unit_after ∷ further.units;
  succeeds = rw (reads.succeeds, further.succeeds) refl;
  joined = ap (λ (t : List ℕ). contents reads.unit_after ++ t) further.joined ∙ sym reads.split;
  each = (record { body = reads.body; bytes = reads.bytes; ends = reads.ends }, further.each);
}

no_more :
    (calls : ℕ) (es es1 : Es) (input : Input)
    → next_code (pending es input) ≡ none
    → find_next_es_unit es input setup_es_unit ≡ ok (at_eof es1 [])
    → ReadsAll (pending es input) (read_units (suc calls) es input)
unfolding read_units find_and_build_next_es_unit
no_more calls es es1 input nothing end = record {
  units = [];
  succeeds = rw end refl;
  joined = rw (nothing, to_come) refl;
  each = tt;
}

shorter :
    (es : Es) (input : Input) (k : ℕ) {result : Outcome Reading}
    (reads : ReadsUnit es input k result)
    → length (to_come (pending reads.es_after reads.input_after))
      < length (to_come (pending es input))
shorter es input k reads = omega (
  arith,
  ap length reads.split,
  ap length reads.bytes,
  length-append (contents reads.unit_after) (to_come (pending reads.es_after reads.input_after)),
)

abbrev AllRead : ℕ → Type 0
AllRead calls =
    (es : Es) (input : Input)
    → IsReading es
    → Readable input
    → length (to_come (pending es input)) < calls
    → ReadsAll (pending es input) (read_units calls es input)

by_code :
    (calls : ℕ) (es : Es) (input : Input)
    → AllRead calls
    → length (to_come (pending es input)) < suc calls
    → (code : Option ℕ) → next_code (pending es input) ≡ code
    → NextUnit es input code (find_next_es_unit es input setup_es_unit)
    → ReadsAll (pending es input) (read_units (suc calls) es input)
by_code calls es input further enough none e (es1, end) = no_more calls es es1 input e end
by_code calls es input further enough (some k) e reads = more_units calls es input k reads (
    further reads.es_after reads.input_after reads.reads_on reads.readable
      (omega (arith, shorter es input k reads)))

all_read : (calls : ℕ) → AllRead calls
all_read zero es input reading readable enough = absurd (omega arith)
all_read (suc calls) es input reading readable enough =
    by_code calls es input (all_read calls) enough (next_code (pending es input)) refl
      (find_next-NextUnit es input setup_es_unit setup-IsUnit reading readable)

skip_0xFF : (bytes : List ℕ) → next_code (0xFF ∷ bytes) ≡ later 1 (next_code bytes)
unfolding next_code is_prefix
skip_0xFF [] = refl
skip_0xFF (a ∷ []) = refl
skip_0xFF (a ∷ b ∷ rest) = refl

to_come-0xFF : (bytes : List ℕ) → to_come (0xFF ∷ bytes) ≡ to_come bytes
to_come-0xFF bytes = elim (Option-cases (next_code bytes)) [
  | inl e ↦ rw (to_come, skip_0xFF bytes, e) refl
  | inr (k, e) ↦
      let one : 1 + k ≡ suc k = omega arith in
      rw (to_come, skip_0xFF bytes, e) (ap (λ (t : ℕ). drop t (0xFF ∷ bytes)) one)
]

to_come-length : (bytes : List ℕ) → length (to_come bytes) ≤ length bytes
to_come-length bytes = elim (Option-cases (next_code bytes)) [
  | inl e ↦ rw (to_come, e) (omega arith)
  | inr (k, e) ↦ rw (to_come, e) (omega (arith, length-drop k bytes))
]

-- The file is opened, and all its units are read.
abbrev pub FileReads : List ℕ → Input → ℕ → Type 0
FileReads first input calls =
    (opened : Es × Input) × (build_elementary_stream_file (some first ∷ input) ≡ some opened)
    × ReadsAll (first ++ rest_of input) (read_units calls opened.0 opened.1)

-- A bare elementary stream whose first read gives three bytes at least is opened, and calls of
-- find_and_build_next_ES_unit, more of them than the file has bytes, come to EOF without an
-- error; joined, the units are the bytes of the file from its first prefix 00 00 01 on, whatever
-- way the reads divide the file, and each unit starts with a prefix and holds no other.
pub read_file-ReadsAll :
    (first : List ℕ) (input : Input) (calls : ℕ)
    → 3 ≤ length first
    → Readable input
    → length (first ++ rest_of input) < calls
    → FileReads first input calls
unfolding build_elementary_stream_file
read_file-ReadsAll first input calls long readable enough =
    let opened : Es = record {
      read_ahead_posn = 0;
      read_ahead_len = length first;
      bytes = first;
      data_ptr = 0;
      posn_of_next_byte = 0;
      cur_byte = 0xFF;
      prev1_byte = 0xFF;
      prev2_byte = 0xFF;
    } in
    let same : to_come (pending opened input) ≡ to_come (first ++ rest_of input) =
      to_come-0xFF (0xFF ∷ (first ++ rest_of input)) ∙ to_come-0xFF (first ++ rest_of input) in
    let all =
      all_read calls opened input (record { counted = refl; inside = omega arith }) readable
        (omega (arith, ap length same, to_come-length (first ++ rest_of input))) in
    (
      (opened, input),
      rw (ltb-eq-false (length first) 3 long) refl,
      record {
        units = all.units;
        succeeds = all.succeeds;
        joined = all.joined ∙ same;
        each = all.each;
      },
    )
