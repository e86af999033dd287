-- ===== src/Es/Units.antt =====
-- The units that find_next_ES_unit (include/es.h) reads: their bytes and their array.
use mts_utils.Base.{
  ℕ, ◌+◌, ◌≤◌, ◌<◌, ◌≡◌, refl, sym, ap, ◌∙◌, arith, ◌==◌, if◌then◌else◌, List, [], ◌∷◌, ◌++◌,
  length, take, replicate, none, some, Bool-cases, inl, inr, ◌⊎◌,
}
use mts_utils.Base.{length-set, length-append, length-replicate}
use mts_utils.Base.Outcome.{Outcome, ok}
use mathlib.Core.List.{append_assoc, append-nil}
use mts_utils.Arrays.Loops.{take-set_next, take-grown}
use mts_utils.Es.{
  Es, EsUnit, Input, Reading, at_eof, Scan, at_code, ran_out, scan_start, get_more_data, start_unit,
  start_loop, end_unit, end_at_eof, end_loop, put_byte, es_unit_data_increment,
}
use mts_utils.Es.Codes.{put_all, scan_end_lem}
use mts_utils.Es.Walk.{Readable, Walk, stopped, ended, walk, past, refill, in_hand}

abbrev pub contents : EsUnit → List ℕ
contents unit = take unit.data_len unit.cells

pub record IsUnit (unit : EsUnit) : Type 0 where
  pub measured : length unit.cells ≡ unit.data_size
  pub inside : unit.data_len ≤ unit.data_size
  pub large : 4 ≤ unit.data_size

-- The array with room for one more byte
grown : EsUnit → EsUnit
grown unit =
    if unit.data_len == unit.data_size
    then record unit {
      cells = unit.cells ++ replicate es_unit_data_increment 0;
      data_size = unit.data_size + es_unit_data_increment;
    }
    else unit

room :
    (unit : EsUnit)
    → IsUnit unit
    → IsUnit (grown unit)
      × ((grown unit).data_len ≡ unit.data_len)
      × (unit.data_len < (grown unit).data_size)
      × (take unit.data_len (grown unit).cells ≡ contents unit)
unfolding grown
room unit good = elim (Bool-cases (unit.data_len == unit.data_size)) [
  | inl full ↦ rw full (
    record {
      measured =
          length-append unit.cells (replicate es_unit_data_increment 0)
          ∙ omega (arith, good.measured, length-replicate {A = ℕ} es_unit_data_increment 0);
      inside = omega (arith, good.inside);
      large = omega (arith, good.large);
    },
    refl,
    omega (arith, good.inside),
    take-grown unit.data_len unit.cells (replicate es_unit_data_increment 0)
        (omega (arith, good.measured, good.inside)),
  )
  | inr not_full ↦ rw not_full (good, refl, ground (arith, good.inside), refl)
]

pub put_byte_lem :
    (unit : EsUnit) (b : ℕ)
    → IsUnit unit
    → IsUnit (put_byte unit b)
      × (contents (put_byte unit b) ≡ contents unit ++ b ∷ [])
      × ((put_byte unit b).start_posn ≡ unit.start_posn)
unfolding put_byte grown
put_byte_lem unit b good =
    let (still, same, low, kept) = room unit good in
    (
      record {
        measured = length-set (grown unit).cells unit.data_len b ∙ still.measured;
        inside = low;
        large = still.large;
      },
      take-set_next unit.data_len (grown unit).cells b (omega (arith, still.measured, low))
          ∙ ap (λ (t : List ℕ). t ++ b ∷ []) kept,
      elim (Bool-cases (unit.data_len == unit.data_size)) [ inl e ↦ rw e refl | inr e ↦ rw e refl ],
    )

pub put_all_lem :
    (bs : List ℕ) (unit : EsUnit)
    → IsUnit unit
    → IsUnit (put_all unit bs)
      × (contents (put_all unit bs) ≡ contents unit ++ bs)
      × ((put_all unit bs).start_posn ≡ unit.start_posn)
put_all_lem [] unit good = (good, sym (append-nil (contents unit)), refl)
put_all_lem (b ∷ bs) unit good =
    let (one_good, one, posn1) = put_byte_lem unit b good in
    let (all_good, all, posn) = put_all_lem bs (put_byte unit b) one_good in
    (
      all_good,
      all ∙ ap (λ (t : List ℕ). t ++ bs) one ∙ append_assoc (contents unit) (b ∷ []) bs,
      posn ∙ posn1,
    )

put_all-append :
    (bs cs : List ℕ) (unit : EsUnit) → put_all unit (bs ++ cs) ≡ put_all (put_all unit bs) cs
put_all-append [] cs unit = refl
put_all-append (b ∷ bs) cs unit = put_all-append bs cs (put_byte unit b)

Scan-cases : (s : Scan) → ((q : ℕ) × (s ≡ at_code q)) ⊎ ((q2 : ℕ) × (q1 : ℕ) × (s ≡ ran_out q2 q1))
Scan-cases (at_code q) = inl (q, refl)
Scan-cases (ran_out q2 q1) = inr (q2, q1, refl)

-- What the two loops do where the walk stops.
abbrev pub begun : EsUnit → Walk → Outcome Reading
begun unit (stopped es q input more) = start_unit es q input unit
begun unit (ended es q2 q1 more) = ok (at_eof es [])

abbrev pub finished : EsUnit → Walk → Outcome Reading
finished unit (stopped es q input more) = end_unit es q (put_all unit more) input
finished unit (ended es q2 q1 more) = end_at_eof es q2 q1 (put_all unit more) []

begun-past : (unit : EsUnit) (bs : List ℕ) (w : Walk) → begun unit (past bs w) ≡ begun unit w
begun-past unit bs (stopped es q input more) = refl
begun-past unit bs (ended es q2 q1 more) = refl

finished-past :
    (unit : EsUnit) (bs : List ℕ) (w : Walk)
    → finished unit (past bs w) ≡ finished (put_all unit bs) w
finished-past unit bs (stopped es q input more) = rw (put_all-append bs more unit) refl
finished-past unit bs (ended es q2 q1 more) = rw (put_all-append bs more unit) refl

pub start_loop_lem :
    (input : Input) (es : Es) (p2 p1 : ℕ) (unit : EsUnit)
    → Readable input
    → start_loop input es p2 p1 unit ≡ begun unit (walk input es p2 p1)
unfolding start_loop walk get_more_data
start_loop_lem [] es p2 p1 unit readable =
    elim (Scan-cases (scan_start p2 p1 es.data_ptr (in_hand es))) [
      | inl (q, e) ↦ rw (e, start_loop) refl
      | inr (q2, q1, e) ↦ rw (e, start_loop) refl
    ]
start_loop_lem (none ∷ input) es p2 p1 unit readable = absurd readable.0
start_loop_lem (some [] ∷ input) es p2 p1 unit readable = absurd readable.0
start_loop_lem (some (b ∷ bs) ∷ input) es p2 p1 unit readable =
    elim (Scan-cases (scan_start p2 p1 es.data_ptr (in_hand es))) [
      | inl (q, e) ↦ rw (e, start_loop) refl
      | inr (q2, q1, e) ↦
          rw (e, start_loop)
            (start_loop_lem input (refill es (b ∷ bs)) q2 q1 unit readable.1
              ∙ sym (begun-past unit (in_hand es) (walk input (refill es (b ∷ bs)) q2 q1)))
    ]

pub end_loop_lem :
    (input : Input) (es : Es) (p2 p1 : ℕ) (unit : EsUnit)
    → Readable input
    → end_loop input es p2 p1 unit ≡ finished unit (walk input es p2 p1)
unfolding end_loop walk get_more_data
end_loop_lem [] es p2 p1 unit readable =
    rw (scan_end_lem p2 p1 es.data_ptr (in_hand es) unit, end_loop)
      (elim (Scan-cases (scan_start p2 p1 es.data_ptr (in_hand es))) [
        | inl (q, e) ↦ rw (e, scan_end_lem p2 p1 es.data_ptr (in_hand es) unit, e) refl
        | inr (q2, q1, e) ↦ rw (e, scan_end_lem p2 p1 es.data_ptr (in_hand es) unit, e) refl
      ])
end_loop_lem (none ∷ input) es p2 p1 unit readable = absurd readable.0
end_loop_lem (some [] ∷ input) es p2 p1 unit readable = absurd readable.0
end_loop_lem (some (b ∷ bs) ∷ input) es p2 p1 unit readable =
    rw (scan_end_lem p2 p1 es.data_ptr (in_hand es) unit, end_loop)
      (elim (Scan-cases (scan_start p2 p1 es.data_ptr (in_hand es))) [
        | inl (q, e) ↦ rw (e, scan_end_lem p2 p1 es.data_ptr (in_hand es) unit, e) refl
        | inr (q2, q1, e) ↦
            rw (e, scan_end_lem p2 p1 es.data_ptr (in_hand es) unit, e)
              (end_loop_lem input (refill es (b ∷ bs)) q2 q1 (put_all unit (in_hand es)) readable.1
                ∙ sym (finished-past unit (in_hand es) (walk input (refill es (b ∷ bs)) q2 q1)))
      ])
