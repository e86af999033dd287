-- ===== src/Es/Next.antt =====
-- find_next_ES_unit of include/es.h: the next unit of the bytes that are to come, or EOF.
use mts_utils.Base.{
  ℕ, suc, ◌+◌, ◌-◌, ◌≤◌, ◌≡◌, ◌⊎◌, inl, inr, refl, sym, ap, ◌∙◌, arith, List, [], ◌∷◌, ◌++◌, length,
  drop, take, set, Option, none, some,
}
use mts_utils.Base.{length-set, length-take, ltb-eq-true, get_elem?, get_elem?-take}
use mts_utils.Base.Outcome.{Outcome, ok, at, at_below}
use mathlib.Core.Path.{subst}
use mathlib.Core.Option.{some-injective}
use mts_utils.Es.{
  Es, EsUnit, Input, Reading, found, at_eof, start_unit, find_es_unit_start, find_es_unit_end,
  find_next_es_unit,
}
use mts_utils.Es.Codes.{next_code, code_split}
use mts_utils.Es.Walk.{
  Readable, IsReading, left, place, rest_of, Walk, stopped, ended, walk, Stops, walk-Stops,
}
use mts_utils.Es.Units.{IsUnit, contents, begun, start_loop_lem}
use mts_utils.Es.Laws.{pending, to_come, EndsUnit, find_end-EndsUnit}

-- A unit is read that starts at offset `k` of the bytes that are pending.
pub record ReadsUnit (es : Es) (input : Input) (k : ℕ) (result : Outcome Reading) : Type 0 where
  pub es_after : Es
  pub input_after : Input
  pub unit_after : EsUnit
  pub body : List ℕ
  pub succeeds : result ≡ ok (found es_after input_after unit_after)
  pub reads_on : IsReading es_after
  pub readable : Readable input_after
  pub good : IsUnit unit_after
  pub bytes : contents unit_after ≡ 0 ∷ 0 ∷ 1 ∷ body
  pub ends : next_code (0 ∷ 1 ∷ body) ≡ none
  pub split :
      to_come (pending es input) ≡ contents unit_after ++ to_come (pending es_after input_after)
  pub starts_at : unit_after.start_posn ≡ place es + k - 2
  pub coded : (body ≡ []) ⊎ ((rest : List ℕ) × (body ≡ unit_after.start_code ∷ rest))

abbrev pub NextUnit : Es → Input → Option ℕ → Outcome Reading → Type 0
NextUnit es input none result = (es_after : Es) × (result ≡ ok (at_eof es_after []))
NextUnit es input (some k) result = ReadsUnit es input k result

prefix_cells :
    (cells : List ℕ)
    → 4 ≤ length cells
    → take 3 (set (set (set cells 0 0) 1 0) 2 1) ≡ 0 ∷ 0 ∷ 1 ∷ []
prefix_cells [] h = absurd (omega arith)
prefix_cells (a ∷ []) h = absurd (omega arith)
prefix_cells (a ∷ b ∷ []) h = absurd (omega arith)
prefix_cells (a ∷ b ∷ c ∷ r) h = refl

-- The unit once its prefix is found
started : Es → ℕ → EsUnit → EsUnit
started es ptr unit = record unit {
  start_posn = es.read_ahead_posn + ptr - 2;
  cells = set (set (set unit.cells 0 0) 1 0) 2 1;
  data_len = 3;
}

started-IsUnit : (es : Es) (ptr : ℕ) (unit : EsUnit) → IsUnit unit → IsUnit (started es ptr unit)
unfolding started
started-IsUnit es ptr unit good = record {
  measured =
      length-set (set (set unit.cells 0 0) 1 0) 2 1
      ∙ length-set (set unit.cells 0 0) 1 0
      ∙ length-set unit.cells 0 0
      ∙ good.measured;
  inside = omega (arith, good.large);
  large = good.large;
}

after_prefix : Es → ℕ → Es
after_prefix es ptr = record es { prev1_byte = 0; prev2_byte = 0; cur_byte = 1; data_ptr = suc ptr }

start_unit_lem :
    (es : Es) (ptr : ℕ) (input : Input) (unit : EsUnit)
    → IsUnit unit
    → start_unit es ptr input unit ≡ ok (found (after_prefix es ptr) input (started es ptr unit))
unfolding start_unit started after_prefix
start_unit_lem es ptr input unit good =
    rw (ltb-eq-true 2 unit.data_size (omega (arith, good.large))) refl

find_next_step :
    (es e1 e2 : Es) (input i1 i2 : Input) (unit u1 u2 : EsUnit) (c : ℕ)
    → find_es_unit_start es input unit ≡ ok (found e1 i1 u1)
    → find_es_unit_end e1 i1 u1 ≡ ok (found e2 i2 u2)
    → at u2.cells 3 ≡ ok c
    → find_next_es_unit es input unit ≡ ok (found e2 i2 (record u2 { start_code = c }))
unfolding find_next_es_unit
find_next_step es e1 e2 input i1 i2 unit u1 u2 c start end byte = rw (start, end, byte) refl

find_next_eof :
    (es e1 : Es) (input i1 : Input) (unit : EsUnit)
    → find_es_unit_start es input unit ≡ ok (at_eof e1 i1)
    → find_next_es_unit es input unit ≡ ok (at_eof e1 i1)
unfolding find_next_es_unit
find_next_eof es e1 input i1 unit start = rw start refl

to_come-some : (k : ℕ) (bytes : List ℕ) → next_code bytes ≡ some k → to_come bytes ≡ drop k bytes
to_come-some k bytes h = rw (h, to_come) refl

-- The fourth cell is the fourth byte, where there is one.
fourth :
    (unit : EsUnit) (c : ℕ) (d : ℕ) (rest : List ℕ)
    → get_elem? unit.cells 3 ≡ some c
    → contents unit ≡ 0 ∷ 0 ∷ 1 ∷ d ∷ rest
    → unit.data_len ≤ length unit.cells
    → c ≡ d
fourth unit c d rest cell bytes inside =
    let n : length (contents unit) ≡ unit.data_len = length-take unit.data_len unit.cells inside in
    let kept : get_elem? (contents unit) 3 ≡ get_elem? unit.cells 3 =
      get_elem?-take unit.data_len unit.cells 3 (omega (arith, n, ap length bytes)) in
    some-injective c d (sym cell ∙ sym kept ∙ ap (λ (t : List ℕ). get_elem? t 3) bytes)

coded_by :
    (unit : EsUnit) (c : ℕ) (body : List ℕ)
    → get_elem? unit.cells 3 ≡ some c
    → contents unit ≡ 0 ∷ 0 ∷ 1 ∷ body
    → unit.data_len ≤ length unit.cells
    → (body ≡ []) ⊎ ((rest : List ℕ) × (body ≡ c ∷ rest))
coded_by unit c [] cell bytes inside = inl refl
coded_by unit c (d ∷ rest) cell bytes inside =
    inr (rest, ap (λ (t : ℕ). t ∷ rest) (sym (fourth unit c d rest cell bytes inside)))

module _ (es : Es) (input : Input) (unit : EsUnit) (good : IsUnit unit) where
  read_body :
      (e : Es) (q : ℕ) (i : Input) (more : List ℕ)
      → find_es_unit_start es input unit ≡ start_unit e q i unit
      → Stops es es.prev2_byte es.prev1_byte (left es input) (stopped e q i more)
      → EndsUnit
          (after_prefix e q)
          i
          (started e q unit)
          (find_es_unit_end (after_prefix e q) i (started e q unit))
      → ReadsUnit es input (length more) (find_next_es_unit es input unit)
  unfolding after_prefix started
  read_body e q i more start (code, split, posn, low, at_q, counted, same, readable) end =
      let (c, cell, byte) =
        at_below end.unit_after.cells 3 (omega (arith, end.good.large, end.good.measured)) in
      record {
        es_after = end.es_after;
        input_after = end.input_after;
        unit_after = record end.unit_after { start_code = c };
        body = end.body;
        succeeds =
            find_next_step es (after_prefix e q) end.es_after input i end.input_after unit
              (started e q unit) end.unit_after c (start ∙ start_unit_lem e q i unit good)
              end.succeeds byte;
        reads_on = end.reads_on;
        readable = end.readable;
        good = record {
          measured = end.good.measured;
          inside = end.good.inside;
          large = end.good.large;
        };
        bytes = end.bytes;
        ends = end.ends;
        split =
            to_come-some (length more) (pending es input) code
            ∙ ap (λ (t : List ℕ). drop (length more) (es.prev2_byte ∷ es.prev1_byte ∷ t)) split
            ∙ code_split es.prev2_byte es.prev1_byte 1 more (drop (suc q) e.bytes ++ rest_of i) (
                ap (λ (t : List ℕ). next_code (es.prev2_byte ∷ es.prev1_byte ∷ t)) (sym split)
                ∙ code)
            ∙ ap (λ (t : List ℕ). 0 ∷ 0 ∷ 1 ∷ t) end.split
            ∙ sym (
                ap (λ (t : List ℕ). t ++ to_come (pending end.es_after end.input_after)) end.bytes);
        starts_at = end.same_start ∙ ap (λ (t : ℕ). t - 2) posn;
        coded =
            coded_by end.unit_after c end.body cell end.bytes
              (omega (arith, end.good.inside, end.good.measured));
      }

  next_where :
      (w : Walk)
      → find_es_unit_start es input unit ≡ begun unit w
      → Stops es es.prev2_byte es.prev1_byte (left es input) w
      → NextUnit es input (next_code (pending es input)) (find_next_es_unit es input unit)
  unfolding after_prefix started
  next_where (stopped e q i more) start stops =
      let (code, split, posn, low, at_q, counted, same, readable) = stops in
      let reading : IsReading (after_prefix e q) = record { counted = counted; inside = low } in
      let end =
        find_end-EndsUnit (after_prefix e q) i (started e q unit) (started-IsUnit e q unit good)
          (prefix_cells unit.cells (omega (arith, good.large, good.measured))) refl reading readable
          refl in
      subst (λ o. NextUnit es input o (find_next_es_unit es input unit)) (sym code)
        (read_body e q i more start stops end)
  next_where (ended e q2 q1 more) start (code, all_left, counted) =
      subst (λ o. NextUnit es input o (find_next_es_unit es input unit)) (sym code)
        (e, find_next_eof es e input [] unit start)

  -- On a reader whose offset lies in its buffer, further reads that give bytes, and a unit with
  -- a sound array, find_next_ES_unit comes to EOF if there is no prefix among the two
  -- remembered bytes and all bytes to come; otherwise it reads the unit from the first prefix
  -- up to the next or to the end of the file, notes its place in the file and the byte behind
  -- its prefix, and leaves a sound reader at the next prefix.
  pub find_next-NextUnit :
      IsReading es
      → Readable input
      → NextUnit es input (next_code (pending es input)) (find_next_es_unit es input unit)
  unfolding find_es_unit_start
  find_next-NextUnit reading readable =
      next_where (walk input es es.prev2_byte es.prev1_byte)
        (start_loop_lem input es es.prev2_byte es.prev1_byte unit readable)
        (walk-Stops input es es.prev2_byte es.prev1_byte reading readable)
