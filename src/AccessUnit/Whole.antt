-- ===== src/AccessUnit/Whole.antt =====
-- Frames that get_next_h264_frame (include/accessunit.h) puts together, on a stream of slices and of what
-- comes before them
use mts_utils.Base.{
  ℕ, zero, ◌<◌, suc, ◌≡◌, ◌⊎◌, inl, inr, refl, sym, ap, ◌∙◌, arith, ◌==◌, if◌then◌else◌, Bool, true,
  false, Bool-cases, List, length, Option, none, some, Option-cases,
}
use mts_utils.Base.Outcome.{Outcome, ok, err, ◌>>=◌}
use mathlib.Core.Path.{subst}
use mts_utils.Nal.{NalUnit}
use mts_utils.AccessUnit.{AccessUnit, AccessUnitContext, NalRead, get_next_access_unit}
use mts_utils.AccessUnit.Loop.{AreOrdinary}
use mts_utils.AccessUnit.Next.{Gives, get_next-Gives}
use mts_utils.AccessUnit.Stream.{Going, no_more}
use mts_utils.AccessUnit.Frames.{
  Found, non_empty_loop, get_next_non_empty_access_unit, second_field, or_error,
  get_next_field_of_pair, get_next_h264_frame, merge_access_unit_nals,
}

-- The calls still to come give ordinary units, or nothing more is read.
abbrev pub IsReady : AccessUnitContext → List NalRead → Type 0
IsReady context reads = (Going context × AreOrdinary reads) ⊎ (context.no_more_data ≡ true)

-- EOF, an error, or a unit of a kind
pub data Answers (Is : AccessUnit → Type 0) (result : Outcome Found) : Type 0 where
  at_eof :
      (after : AccessUnitContext) (more : List NalRead)
      → result ≡ ok (none, after, more)
      → Answers Is result
  refused : result ≡ err → Answers Is result
  answered :
      (access_unit : AccessUnit) (after : AccessUnitContext) (more : List NalRead)
      → result ≡ ok (some access_unit, after, more)
      → Is access_unit
      → IsReady after more
      → Answers Is result

abbrev pub IsUnit : AccessUnit → Type 0
IsUnit access_unit = Unit {0}

abbrev pub IsFrame : AccessUnit → Type 0
IsFrame access_unit = (access_unit.field_pic_flag == 1) ≡ false

-- What the loop does with the answer of a call
abbrev looked_at : ℕ → Outcome Found → Outcome Found
looked_at fuel result = result >>= λ (found, after, more). elim found [
  | none ↦ ok (none, after, more)
  | some access_unit ↦ elim access_unit.primary_start [
    | none ↦ non_empty_loop fuel after more
    | some start ↦ ok (some access_unit, after, more)
  ]
]

loop-eof :
    (fuel : ℕ) (context : AccessUnitContext) (reads : List NalRead)
    → context.no_more_data ≡ true
    → non_empty_loop (suc fuel) context reads ≡ ok (none, context, reads)
unfolding non_empty_loop
loop-eof fuel context reads no_data = ap (looked_at fuel) (no_more context reads no_data)

loop_step :
    (fuel : ℕ) (context : AccessUnitContext) (reads : List NalRead) (result : Outcome Found)
    → get_next_access_unit context reads ≡ result
    → non_empty_loop (suc fuel) context reads ≡ looked_at fuel result
unfolding non_empty_loop
loop_step fuel context reads result call = ap (looked_at fuel) call

Gives-IsReady :
    {context : AccessUnitContext} {reads : List NalRead} {result : Outcome Found}
    (gives : Gives context reads result)
    → IsReady gives.after gives.more
Gives-IsReady gives = elim gives.progress [
  | inl (going, less) ↦ inl ((going, gives.pending, gives.earlier), gives.ordinary)
  | inr (no_data, none_left) ↦ inr no_data
]

-- A unit without a slice is passed over.
started :
    (fuel : ℕ) (found : AccessUnit) (after : AccessUnitContext) (more : List NalRead)
    → IsReady after more
    → (found.primary_start ≡ none → Answers IsUnit (non_empty_loop fuel after more))
    → Answers IsUnit (looked_at fuel (ok (some found, after, more)))
started fuel found after more ready later =
    let look : Option NalUnit → Outcome Found = λ (t : Option NalUnit). elim t [
      | none ↦ non_empty_loop fuel after more
      | some start ↦ ok (some found, after, more)
    ] in
    elim (Option-cases found.primary_start) [
      | inl e ↦ subst (Answers IsUnit) (sym (ap look e)) (later e)
      | inr (start, e) ↦ answered found after more (ap look e) tt ready
    ]

passed :
    (fuel : ℕ) (context : AccessUnitContext) (reads : List NalRead)
    (gives : Gives context reads (get_next_access_unit context reads))
    → Answers IsUnit (non_empty_loop fuel gives.after gives.more)
    → Answers IsUnit (non_empty_loop (suc fuel) context reads)
passed fuel context reads gives later =
    let step =
      loop_step fuel context reads (ok (gives.found, gives.after, gives.more)) gives.succeeds in
    elim (Option-cases gives.found) [
      | inl e ↦ at_eof gives.after gives.more (
          step ∙ ap (λ (t : Option AccessUnit). looked_at fuel (ok (t, gives.after, gives.more))) e)
      | inr (found, e) ↦
          subst (Answers IsUnit)
            (sym (
              step
              ∙ ap (λ (t : Option AccessUnit). looked_at fuel (ok (t, gives.after, gives.more))) e))
            (started fuel found gives.after gives.more (Gives-IsReady gives) (λ none_there. later))
    ]

none_below : (n : ℕ) → n < 0 → ⊥
none_below n h = omega arith

shorter : (a b n : ℕ) → a < b → b < suc n → a < n
shorter a b n h k = omega arith

loop-Answers :
    (fuel : ℕ) (context : AccessUnitContext) (reads : List NalRead)
    → length reads < fuel
    → IsReady context reads
    → Answers IsUnit (non_empty_loop (suc fuel) context reads)
loop-Answers zero context reads short ready = elim (none_below (length reads) short) [ ]
loop-Answers (suc fuel) context reads short (inr no_data) =
    at_eof context reads (loop-eof (suc fuel) context reads no_data)
loop-Answers (suc fuel) context reads short (inl ((more_data, pending, earlier), ordinary)) =
    let gives = get_next-Gives context reads more_data pending earlier ordinary in
    passed (suc fuel) context reads gives (elim gives.progress [
      | inl (going, less) ↦
          loop-Answers fuel gives.after gives.more
            (shorter (length gives.more) (length reads) fuel less short)
            (inl ((going, gives.pending, gives.earlier), gives.ordinary))
      | inr (no_data, none_left) ↦
          at_eof gives.after gives.more (loop-eof fuel gives.after gives.more no_data)
    ])

just_over : (n : ℕ) → n < suc n
just_over n = omega arith

non_empty-Answers :
    (context : AccessUnitContext) (reads : List NalRead)
    → IsReady context reads
    → Answers IsUnit (get_next_non_empty_access_unit context reads)
unfolding get_next_non_empty_access_unit
non_empty-Answers context reads ready =
    loop-Answers (suc (length reads)) context reads (just_over (length reads)) ready

-- What is done with the second field, where there is one
abbrev with_second :
    (AccessUnit → AccessUnitContext → List NalRead → Outcome Found)
    → AccessUnit
    → Outcome Found
    → Outcome Found
with_second differ access_unit result = result >>= λ (found, after, more). elim found [
  | none ↦ ok (none, after, more)
  | some second ↦
      if second.field_pic_flag == 0
      then ok (some second, after, more)
      else if access_unit.frame_num == second.frame_num
      then ok (some (merge_access_unit_nals access_unit second), after, more)
      else differ second after more
]

zero_is_frame : (flag : ℕ) → (flag == 0) ≡ true → (flag == 1) ≡ false
zero_is_frame flag h = ground arith

module _ (differ : AccessUnit → AccessUnitContext → List NalRead → Outcome Found)
    (good : (second : AccessUnit) (after : AccessUnitContext) (more : List NalRead)
      → IsReady after more
      → Answers IsFrame (differ second after more)) where
  matched :
      (access_unit second : AccessUnit) (after : AccessUnitContext) (more : List NalRead)
      → IsReady after more
      → Answers IsFrame (with_second differ access_unit (ok (some second, after, more)))
  unfolding merge_access_unit_nals
  matched access_unit second after more ready =
      let merged = merge_access_unit_nals access_unit second in
      let by_number =
        λ (t : Bool). if t then ok (some merged, after, more) else differ second after more in
      let by_flag = λ (t : Bool).
        if t
        then ok (some second, after, more)
        else by_number (access_unit.frame_num == second.frame_num) in
      elim (Bool-cases (second.field_pic_flag == 0)) [
        | inl frame ↦
            answered second after more (ap by_flag frame)
              (zero_is_frame second.field_pic_flag frame) ready
        | inr field ↦ elim (Bool-cases (access_unit.frame_num == second.frame_num)) [
          | inl same ↦ answered merged after more (ap by_flag field ∙ ap by_number same) refl ready
          | inr other ↦
              subst (Answers IsFrame) (sym (ap by_flag field ∙ ap by_number other))
                (good second after more ready)
        ]
      ]

  second-Answers :
      (access_unit : AccessUnit) (context : AccessUnitContext) (reads : List NalRead)
      → IsReady context reads
      → Answers IsFrame (second_field differ access_unit context reads)
  unfolding second_field
  second-Answers access_unit context reads ready = elim (non_empty-Answers context reads ready) [
    | at_eof after more e ↦ at_eof after more (ap (with_second differ access_unit) e)
    | refused e ↦ refused (ap (with_second differ access_unit) e)
    | answered second after more e there still ↦
        subst (Answers IsFrame) (sym (ap (with_second differ access_unit) e))
          (matched access_unit second after more still)
  ]

or_error-Answers :
    {Is : AccessUnit → Type 0} (result : Outcome Found)
    → Answers Is result
    → Answers Is (or_error result)
unfolding or_error
or_error-Answers result (at_eof after more e) = refused (ap or_error e)
or_error-Answers result (refused e) = refused (ap or_error e)
or_error-Answers result (answered access_unit after more e is ready) =
    answered access_unit after more (ap or_error e) is ready

pair-Answers :
    (access_unit : AccessUnit) (context : AccessUnitContext) (reads : List NalRead)
    → IsReady context reads
    → Answers IsFrame (get_next_field_of_pair true access_unit context reads)
unfolding get_next_field_of_pair
pair-Answers =
    second-Answers
      (λ second after more. or_error (second_field (λ third last rest. err) second after more))
      (λ second after more ready. or_error-Answers _ (
        second-Answers (λ third last rest. err) (λ third last rest still. refused refl) second after
          more ready))

abbrev with_first : Outcome Found → Outcome Found
with_first result = result >>= λ (found, after, more). elim found [
  | none ↦ ok (none, after, more)
  | some access_unit ↦
      if access_unit.field_pic_flag == 1
      then or_error (get_next_field_of_pair true access_unit after more)
      else ok (some access_unit, after, more)
]

paired :
    (access_unit : AccessUnit) (after : AccessUnitContext) (more : List NalRead)
    → IsReady after more
    → Answers IsFrame (with_first (ok (some access_unit, after, more)))
paired access_unit after more ready =
    let by_flag = λ (t : Bool).
      if t
      then or_error (get_next_field_of_pair true access_unit after more)
      else ok (some access_unit, after, more) in
    elim (Bool-cases (access_unit.field_pic_flag == 1)) [
      | inl field ↦
          subst (Answers IsFrame) (sym (ap by_flag field))
            (or_error-Answers _ (pair-Answers access_unit after more ready))
      | inr frame ↦ answered access_unit after more (ap by_flag frame) frame ready
    ]

-- On a context that reads on, with decoded slices that are not redundant, SEI, parameter sets,
-- units held like them and broken units to come, or on one that has come to its end,
-- get_next_h264_frame gives EOF, a reported error, or an access unit whose field_pic_flag is not
-- 1, and then the context is again one of these two.
pub get_next_h264_frame-Answers :
    (context : AccessUnitContext) (reads : List NalRead)
    → IsReady context reads
    → Answers IsFrame (get_next_h264_frame context reads)
unfolding get_next_h264_frame
get_next_h264_frame-Answers context reads ready = elim (non_empty-Answers context reads ready) [
  | at_eof after more e ↦ at_eof after more (ap with_first e)
  | refused e ↦ refused (ap with_first e)
  | answered access_unit after more e there still ↦
      subst (Answers IsFrame) (sym (ap with_first e)) (paired access_unit after more still)
]
