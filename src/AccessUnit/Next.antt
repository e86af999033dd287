-- ===== src/AccessUnit/Next.antt =====
-- get_next_access_unit (include/accessunit.h) on a stream of slices and of what comes before them: every
-- unit is returned once, in order.
use mts_utils.Base.{
  ℕ, ◌<◌, suc, ◌≡◌, ◌⊎◌, inl, inr, refl, sym, ap, ◌∙◌, ◌==◌, if◌then◌else◌, Bool, true, false,
  Bool-cases, List, [], ◌∷◌, ◌++◌, length, ◌&&◌, arith, Option, none, some,
}
use mts_utils.Base.Outcome.{Outcome, ok, ◌>>=◌}
use mathlib.Core.List.{append_assoc, append-nil}
use mts_utils.Es.{EsUnit}
use mts_utils.Nal.{NalUnit}
use mts_utils.AccessUnit.{
  AccessUnit, AccessUnitContext, NalRead, no_pending, access_loop, take_pending, finish_access_unit,
  get_next_access_unit, next_index, build_access_unit,
}
use mts_utils.AccessUnit.Kept.{bytes_of, one_or_none, kept, IsSliceOrNone}
use mts_utils.AccessUnit.Takes.{InLoop, had, append_start-Appends}
use mts_utils.AccessUnit.Loop.{AreOrdinary, read_bytes, access_loop-Loops}

-- The unit that was kept is the first of the access unit.
record Begins (context : AccessUnitContext) (pending : Option NalUnit)
    (result : Outcome (AccessUnitContext × AccessUnit)) : Type 0 where
  pub ready : AccessUnitContext
  pub begun : AccessUnit
  pub succeeds : result ≡ ok (ready, begun)
  pub in_loop : IsSliceOrNone context.earlier_primary_start → InLoop ready
  pub units : had ready begun ≡ bytes_of (context.pending_list ++ one_or_none pending)

take_pending-Begins :
    (context : AccessUnitContext) (pending : Option NalUnit)
    → context.no_more_data ≡ false
    → context.pending_nal ≡ pending
    → IsSliceOrNone pending
    → Begins context pending (take_pending context pending (build_access_unit (next_index context)))
unfolding take_pending build_access_unit
take_pending-Begins context none more_data same good = record {
  ready = context;
  begun = build_access_unit (next_index context);
  succeeds = refl;
  in_loop = λ earlier. record { more_data = more_data; none_pending = same; earlier = earlier };
  units = ap (λ (t : Option NalUnit). bytes_of (context.pending_list ++ one_or_none t)) same;
}
take_pending-Begins context (some nal) more_data same (s, h) =
    let fresh = build_access_unit (next_index context) in
    let longer = append_start-Appends fresh nal s context.pending_list refl h in
    record {
      ready = record (no_pending context) { pending_nal = none };
      begun = longer.longer;
      succeeds = rw longer.succeeds refl;
      in_loop = λ earlier. record { more_data = more_data; none_pending = refl; earlier = earlier };
      units = ap (λ (t : List NalUnit). bytes_of t ++ []) longer.units ∙ append-nil _;
    }

-- The bytes of the unit that is found
abbrev pub units_of : Option AccessUnit → List EsUnit
units_of none = []
units_of (some access_unit) = bytes_of access_unit.nal_units

-- What comes out of the loop is returned, or there is no unit in it.
record Finishes (access_unit : AccessUnit) (context : AccessUnitContext) (reads : List NalRead)
    (result : Option AccessUnit × AccessUnitContext × List NalRead) : Type 0 where
  pub found : Option AccessUnit
  pub index : ℕ
  pub ended : found ≡ none → context.no_more_data ≡ true
  pub same : result ≡ (found, record context { access_unit_index = index }, reads)
  pub units : units_of found ≡ bytes_of access_unit.nal_units

no_units : (ended : Bool) (count : ℕ) → ended && (count == 0) ≡ true → count ≡ 0
no_units ended count h = ground arith

found_one : (access_unit : AccessUnit) → some access_unit ≡ none → ⊥
found_one access_unit same = cc

and-left : (a b : Bool) → a && b ≡ true → a ≡ true
and-left a b h = ground arith

suc-is_not_zero : (n : ℕ) → suc n ≡ 0 → ⊥
suc-is_not_zero n h = omega arith

length-zero : {A : Type 0} (items : List A) → length items ≡ 0 → items ≡ []
length-zero [] h = refl
length-zero (x ∷ items) h = elim (suc-is_not_zero _ h) [ ]

finish-Finishes :
    (access_unit : AccessUnit) (context : AccessUnitContext) (reads : List NalRead)
    → Finishes access_unit context reads (finish_access_unit context access_unit reads)
unfolding finish_access_unit
finish-Finishes access_unit context reads =
    elim (Bool-cases (context.no_more_data && (length access_unit.nal_units == 0))) [
      | inl none_there ↦ record {
        found = none;
        ended =
            λ same. and-left context.no_more_data (length access_unit.nal_units == 0) none_there;
        index = context.access_unit_index;
        same =
            ap
              (λ (t : Bool). if t then (none, context, reads) else (
                some access_unit,
                record context { access_unit_index = next_index context },
                reads,
              ))
              none_there;
        units = ap bytes_of (
            sym (
              length-zero access_unit.nal_units
                (no_units context.no_more_data (length access_unit.nal_units) none_there)));
      }
      | inr there ↦ record {
        found = some access_unit;
        ended = λ same. elim (found_one access_unit same) [ ];
        index = next_index context;
        same =
            ap
              (λ (t : Bool). if t then (none, context, reads) else (
                some access_unit,
                record context { access_unit_index = next_index context },
                reads,
              ))
              there;
        units = refl;
      }
    ]

-- What a call of get_next_access_unit that gives no error leaves
pub record Gives (context : AccessUnitContext) (reads : List NalRead)
    (result : Outcome (Option AccessUnit × AccessUnitContext × List NalRead)) : Type 0 where
  pub found : Option AccessUnit
  pub after : AccessUnitContext
  pub more : List NalRead
  pub succeeds : result ≡ ok (found, after, more)
  pub ended : found ≡ none → after.no_more_data ≡ true
  pub pending : IsSliceOrNone after.pending_nal
  pub earlier : IsSliceOrNone after.earlier_primary_start
  pub progress :
      ((after.no_more_data ≡ false) × (length more < length reads))
      ⊎ ((after.no_more_data ≡ true) × (more ≡ []))
  pub ordinary : AreOrdinary more
  pub units :
      units_of found ++ (bytes_of (kept after) ++ read_bytes more)
      ≡ bytes_of (kept context) ++ read_bytes reads

-- The lists, when what was kept is in the unit, and what is read behind it
give_units :
    (found units kept_after more kept_before reads had_after had_before : List EsUnit)
    → found ≡ units
    → had_after ≡ units ++ kept_after
    → had_before ≡ kept_before
    → had_after ++ more ≡ had_before ++ reads
    → found ++ (kept_after ++ more) ≡ kept_before ++ reads
give_units found units kept_after more kept_before reads had_after had_before same after before
      all =
    ap (λ (t : List EsUnit). t ++ (kept_after ++ more)) same
    ∙ sym (append_assoc units kept_after more)
    ∙ ap (λ (t : List EsUnit). t ++ more) (sym after)
    ∙ all
    ∙ ap (λ (t : List EsUnit). t ++ reads) before

opened :
    (context : AccessUnitContext) (reads : List NalRead)
    → context.no_more_data ≡ false
    → get_next_access_unit context reads ≡ (
        take_pending context context.pending_nal (build_access_unit (next_index context))
        >>= λ (ready, begun). access_loop ready begun reads >>= λ (after, done, more).
            ok (finish_access_unit after done more))
unfolding get_next_access_unit
opened context reads more_data =
    ap
      (λ (t : Bool).
        if t
        then ok (none, context, reads)
        else (take_pending context context.pending_nal (build_access_unit (next_index context))
            >>= λ (ready, begun). access_loop ready begun reads >>= λ (after, done, more).
                ok (finish_access_unit after done more)))
      more_data

pub get_next-Gives :
    (context : AccessUnitContext) (reads : List NalRead)
    → context.no_more_data ≡ false
    → IsSliceOrNone context.pending_nal
    → IsSliceOrNone context.earlier_primary_start
    → AreOrdinary reads
    → Gives context reads (get_next_access_unit context reads)
get_next-Gives context reads more_data pending earlier ordinary =
    let begins = take_pending-Begins context context.pending_nal more_data refl pending in
    let loops =
      access_loop-Loops reads begins.ready begins.begun (begins.in_loop earlier) ordinary in
    let finishes = finish-Finishes loops.done loops.after loops.more in
    record {
      found = finishes.found;
      after = record loops.after { access_unit_index = finishes.index };
      more = loops.more;
      succeeds =
          opened context reads more_data ∙ rw (begins.succeeds, loops.succeeds, finishes.same) refl;
      ended = finishes.ended;
      pending = loops.pending;
      earlier = loops.earlier;
      progress = loops.progress;
      ordinary = loops.ordinary;
      units =
          give_units (units_of finishes.found) (bytes_of loops.done.nal_units)
            (bytes_of (kept loops.after)) (read_bytes loops.more) (bytes_of (kept context))
            (read_bytes reads) (had loops.after loops.done) (had begins.ready begins.begun)
            finishes.units refl begins.units loops.units;
    }
