-- ===== src/Es/Laws.antt =====
-- What find_next_ES_unit of include/es.h reads, on the bytes of the file, however the reads divide
-- them.
use mts_utils.Base.{
  ℕ, zero, suc, ◌+◌, ◌-◌, ◌≡◌, refl, sym, ap, ◌∙◌, arith, List, [], ◌∷◌, ◌++◌, length, drop, take,
  none, some,
}
use mts_utils.Base.{length-append, length-take}
use mts_utils.Base.Outcome.{Outcome, ok}
use mathlib.Core.Path.{subst}
use mathlib.Core.List.{append_assoc, append-nil}
use mts_utils.Es.{
  is_prefix, Es, EsUnit, Input, Reading, found, end_unit, end_at_eof, end_loop, find_es_unit_end,
}
use mts_utils.Es.Codes.{next_code, code_last, put_all, two_bytes}
use mts_utils.Es.Walk.{
  rest_of, Readable, IsReading, left, Walk, stopped, ended, walk, Stops, walk-Stops,
}
use mts_utils.Es.Units.{IsUnit, contents, put_all_lem, finished, end_loop_lem}

-- The last two bytes that were looked at, and all that follow.
abbrev pub pending : Es → Input → List ℕ
pending es input = es.prev2_byte ∷ es.prev1_byte ∷ left es input

-- What a list of bytes has from its first prefix on.
abbrev pub to_come : List ℕ → List ℕ
to_come bytes = elim (next_code bytes) [ none ↦ [] | some k ↦ drop k bytes ]

take-first : (n : ℕ) (xs ys zs : List ℕ) → take n xs ≡ ys ++ zs → take (length ys) xs ≡ ys
take-first n xs [] zs h = refl
take-first zero xs (y ∷ ys) zs h = cc
take-first (suc n) [] (y ∷ ys) zs h = cc
take-first (suc n) (x ∷ xs) (y ∷ ys) zs h =
    let same : x ≡ y = cc in
    let more : take n xs ≡ ys ++ zs = cc in rw (same, take-first n xs ys zs more) refl

drop-all : (xs : List ℕ) → drop (length xs) xs ≡ []
drop-all [] = refl
drop-all (x ∷ xs) = drop-all xs

pub record EndsUnit (es : Es) (input : Input) (unit : EsUnit) (result : Outcome Reading)
    : Type 0 where
  pub es_after : Es
  pub input_after : Input
  pub unit_after : EsUnit
  pub body : List ℕ
  pub succeeds : result ≡ ok (found es_after input_after unit_after)
  pub reads_on : IsReading es_after
  pub readable : Readable input_after
  pub good : IsUnit unit_after
  pub bytes : contents unit_after ≡ 0 ∷ 0 ∷ 1 ∷ body
  pub ends : next_code (0 ∷ 1 ∷ body) ≡ none
  pub split : left es input ≡ body ++ to_come (pending es_after input_after)
  pub same_start : unit_after.start_posn ≡ unit.start_posn

-- What precedes the two zeros of the next prefix.
two_zeros :
    (more rest : List ℕ)
    → next_code (0 ∷ 1 ∷ (more ++ 1 ∷ rest)) ≡ some (length more)
    → (body : List ℕ) × (more ≡ body ++ 0 ∷ 0 ∷ []) × (next_code (0 ∷ 1 ∷ body) ≡ none)
two_zeros [] rest h = let (none_before, zeros) = code_last 0 1 1 [] rest h in cc
two_zeros (m ∷ []) rest h = let (none_before, zeros) = code_last 0 1 1 (m ∷ []) rest h in cc
two_zeros (m ∷ n ∷ r) rest h =
    let (none_before, zeros) = code_last 0 1 1 (m ∷ n ∷ r) rest h in
    (take (length r) (m ∷ n ∷ r), cc, none_before)

to_come-none : (bytes : List ℕ) → next_code bytes ≡ none → to_come bytes ≡ []
to_come-none bytes h = rw (h, to_come) refl

to_come-some : (k : ℕ) (bytes : List ℕ) → next_code bytes ≡ some k → to_come bytes ≡ drop k bytes
to_come-some k bytes h = rw (h, to_come) refl

starts_here : (rest : List ℕ) → next_code (0 ∷ 0 ∷ 1 ∷ rest) ≡ some 0
unfolding next_code is_prefix
starts_here rest = refl

kept_bytes :
    (unit : EsUnit) (body : List ℕ)
    → IsUnit unit
    → contents unit ≡ 0 ∷ 0 ∷ 1 ∷ (body ++ 0 ∷ 0 ∷ [])
    → take (unit.data_len - 2) unit.cells ≡ 0 ∷ 0 ∷ 1 ∷ body
kept_bytes unit body good all =
    let n : length (contents unit) ≡ unit.data_len =
      length-take unit.data_len unit.cells (omega (arith, good.inside, good.measured)) in
    let m : unit.data_len - 2 ≡ length (0 ∷ 0 ∷ 1 ∷ body) =
      omega (arith, n, ap length all, length-append body (0 ∷ 0 ∷ [])) in
    ap (λ (t : ℕ). take t unit.cells) m
    ∙ take-first unit.data_len unit.cells (0 ∷ 0 ∷ 1 ∷ body) (0 ∷ 0 ∷ []) all

-- Where a unit ends, what is to come is the next prefix and all behind it.
next_is_first :
    (q : ℕ) (i : Input) (e : Es)
    → drop q e.bytes ≡ 1 ∷ drop (suc q) e.bytes
    → e.prev1_byte ≡ 0
    → to_come (0 ∷ e.prev1_byte ∷ (drop q e.bytes ++ rest_of i))
      ≡ 0 ∷ 0 ∷ 1 ∷ (drop (suc q) e.bytes ++ rest_of i)
next_is_first q i e at_q zero_byte =
    let here : 0 ∷ e.prev1_byte ∷ (drop q e.bytes ++ rest_of i)
        ≡ 0 ∷ 0 ∷ 1 ∷ (drop (suc q) e.bytes ++ rest_of i) =
      rw (at_q, zero_byte) refl in
    ap to_come here
    ∙ to_come-some 0 (0 ∷ 0 ∷ 1 ∷ (drop (suc q) e.bytes ++ rest_of i))
        (starts_here (drop (suc q) e.bytes ++ rest_of i))

module _ (es : Es) (input : Input) (unit : EsUnit) (good : IsUnit unit)
    (begun_with : contents unit ≡ 0 ∷ 0 ∷ 1 ∷ []) (prev1 : es.prev1_byte ≡ 0) where
  ends_at_code :
      (e : Es) (q : ℕ) (i : Input) (more : List ℕ)
      → Stops es 0 1 (left es input) (stopped e q i more)
      → EndsUnit es input unit (finished unit (stopped e q i more))
  unfolding end_unit
  ends_at_code e q i more (code, split, posn, low, at_q, counted, same, readable) =
      let rest : List ℕ = drop (suc q) e.bytes ++ rest_of i in
      let (body, zeros, ends) = two_zeros more rest (rw split at code) in
      let (all_good, all, posn1) = put_all_lem more unit good in
      let bytes_kept = kept_bytes (put_all unit more) body all_good (
        all
        ∙ ap (λ (t : List ℕ). t ++ more) begun_with
        ∙ ap (λ (t : List ℕ). 0 ∷ 0 ∷ 1 ∷ t) zeros) in
      record {
        es_after = record e {
          data_ptr = q;
          prev2_byte = 0;
          cur_byte = 1;
          posn_of_next_byte = e.read_ahead_posn + q - 2;
        };
        input_after = i;
        unit_after = record (put_all unit more) { data_len = (put_all unit more).data_len - 2 };
        body = body;
        succeeds = refl;
        reads_on = record { counted = counted; inside = omega (arith, low) };
        readable = readable;
        good = record {
          measured = all_good.measured;
          inside = omega (arith, all_good.inside);
          large = all_good.large;
        };
        bytes = bytes_kept;
        ends = ends;
        split =
            split
            ∙ ap (λ (t : List ℕ). t ++ 1 ∷ rest) zeros
            ∙ append_assoc body (0 ∷ 0 ∷ []) (1 ∷ rest)
            ∙ ap (λ (t : List ℕ). body ++ t) (sym (next_is_first q i e at_q (same ∙ prev1)));
        same_start = posn1;
      }

  ends_at_eof :
      (e : Es) (q2 q1 : ℕ) (more : List ℕ)
      → Stops es 0 1 (left es input) (ended e q2 q1 more)
      → EndsUnit es input unit (finished unit (ended e q2 q1 more))
  unfolding end_at_eof
  ends_at_eof e q2 q1 more (code, all_left, counted) =
      let (all_good, all, posn1) = put_all_lem more unit good in
      record {
        es_after = record e {
          data_ptr = length e.bytes;
          prev2_byte = q2;
          prev1_byte = q1;
          cur_byte = 0xFF;
          posn_of_next_byte = e.read_ahead_posn + length e.bytes;
        };
        input_after = [];
        unit_after = put_all unit more;
        body = more;
        succeeds = refl;
        reads_on = record { counted = counted; inside = omega arith };
        readable = tt;
        good = all_good;
        bytes = all ∙ ap (λ (t : List ℕ). t ++ more) begun_with;
        ends = rw all_left code;
        split =
            sym all_left
            ∙ sym (append-nil more)
            ∙ ap (λ (t : List ℕ). more ++ t)
                (sym (
                  to_come-none (q2 ∷ q1 ∷ (drop (length e.bytes) e.bytes ++ [])) (
                    ap (λ (t : List ℕ). next_code (q2 ∷ q1 ∷ (t ++ []))) (drop-all e.bytes)
                    ∙ two_bytes q2 q1)));
        same_start = posn1;
      }

  ends_where :
      (w : Walk) → Stops es 0 1 (left es input) w → EndsUnit es input unit (finished unit w)
  ends_where (stopped e q i more) stops = ends_at_code e q i more stops
  ends_where (ended e q2 q1 more) stops = ends_at_eof e q2 q1 more stops

  pub find_end-EndsUnit :
      IsReading es
      → Readable input
      → es.cur_byte ≡ 1
      → EndsUnit es input unit (find_es_unit_end es input unit)
  unfolding find_es_unit_end
  find_end-EndsUnit reading readable cur =
      let here : find_es_unit_end es input unit ≡ finished unit (walk input es 0 1) =
        ap (λ (t : ℕ). end_loop input es t es.cur_byte unit) prev1
        ∙ ap (λ (t : ℕ). end_loop input es 0 t unit) cur
        ∙ end_loop_lem input es 0 1 unit readable in
      subst (EndsUnit es input unit) (sym here)
        (ends_where (walk input es 0 1) (walk-Stops input es 0 1 reading readable))
