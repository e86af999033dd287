-- ===== src/AccessUnit/Loop.antt =====
-- The loop of get_next_access_unit (include/accessunit.h), on a stream of slices and of
-- what comes before them: what is read is in the unit, or kept for the next.
use mts_utils.Base.{
  ℕ, suc, ◌≡◌, ◌⊎◌, inl, inr, refl, sym, ap, ◌∙◌, true, false, List, [], ◌∷◌, ◌++◌, length, ◌<◌,
  arith,
}
use mts_utils.Base.Outcome.{Outcome, ok, ◌>>=◌}
use mathlib.Core.Path.{subst}
use mathlib.Core.List.{append_assoc}
use mts_utils.Es.{EsUnit}
use mts_utils.AccessUnit.{
  AccessUnit, AccessUnitContext, NalRead, nal_read, broken, failed, Step, go, stop, access_loop,
}
use mts_utils.AccessUnit.Kept.{IsOrdinary, IsSliceOrNone}
use mts_utils.AccessUnit.Takes.{InLoop, had, goes, stops}
use mts_utils.AccessUnit.Cases.{take_nal-Takes}

abbrev pub AreOrdinary : List NalRead → Type 0
AreOrdinary [] = Unit {0}
AreOrdinary (nal_read nal ∷ reads) = IsOrdinary nal × AreOrdinary reads
AreOrdinary (broken ∷ reads) = AreOrdinary reads
AreOrdinary (failed ∷ reads) = ⊥

-- The bytes of the units that are read
abbrev pub read_bytes : List NalRead → List EsUnit
read_bytes [] = []
read_bytes (nal_read nal ∷ reads) = nal.unit ∷ read_bytes reads
read_bytes (broken ∷ reads) = read_bytes reads
read_bytes (failed ∷ reads) = read_bytes reads

pub record Loops (context : AccessUnitContext) (access_unit : AccessUnit) (reads : List NalRead)
    (result : Outcome (AccessUnitContext × AccessUnit × List NalRead)) : Type 0 where
  pub after : AccessUnitContext
  pub done : AccessUnit
  pub more : List NalRead
  pub succeeds : result ≡ ok (after, done, more)
  pub pending : IsSliceOrNone after.pending_nal
  pub earlier : IsSliceOrNone after.earlier_primary_start
  pub progress :
      ((after.no_more_data ≡ false) × (length more < length reads))
      ⊎ ((after.no_more_data ≡ true) × (more ≡ []))
  pub ordinary : AreOrdinary more
  pub units : had after done ++ read_bytes more ≡ had context access_unit ++ read_bytes reads

-- One unit in front of the rest
joined :
    (front rest : List EsUnit) (u : EsUnit) (all : List EsUnit)
    → all ≡ front ++ u ∷ []
    → all ++ rest ≡ front ++ u ∷ rest
joined front rest u all same =
    ap (λ (t : List EsUnit). t ++ rest) same ∙ append_assoc front (u ∷ []) rest

-- What the loop does with one step
stepped : List NalRead → Outcome Step → Outcome (AccessUnitContext × AccessUnit × List NalRead)
stepped reads result = result >>= λ step. elim step [
  | stop after done ↦ ok (after, done, reads)
  | go after longer ↦ access_loop after longer reads
]

pending-IsSliceOrNone :
    (context : AccessUnitContext) → InLoop context → IsSliceOrNone context.pending_nal
pending-IsSliceOrNone context loop = subst IsSliceOrNone (sym loop.none_pending) tt

reads_on : (n : ℕ) → n < suc n
reads_on n = omega arith

further :
    {going ended : Type 0} {more reads : ℕ}
    → (going × (more < reads)) ⊎ ended
    → (going × (more < suc reads)) ⊎ ended
further (inl (going, less)) = inl (going, omega arith)
further (inr ended) = inr ended

pub access_loop-Loops :
    (reads : List NalRead) (context : AccessUnitContext) (access_unit : AccessUnit)
    → InLoop context
    → AreOrdinary reads
    → Loops context access_unit reads (access_loop context access_unit reads)
unfolding access_loop stepped
access_loop-Loops [] context access_unit loop ordinary = record {
  after = record context { no_more_data = true };
  done = access_unit;
  more = [];
  succeeds = refl;
  pending = pending-IsSliceOrNone context loop;
  earlier = loop.earlier;
  progress = inr (refl, refl);
  ordinary = ordinary;
  units = refl;
}
access_loop-Loops (broken ∷ reads) context access_unit loop ordinary =
    let rest =
      access_loop-Loops reads context
        (record access_unit { ignored_broken_nal_units = suc access_unit.ignored_broken_nal_units })
        loop ordinary in
    record {
      after = rest.after;
      done = rest.done;
      more = rest.more;
      succeeds = rest.succeeds;
      pending = rest.pending;
      earlier = rest.earlier;
      progress = further rest.progress;
      ordinary = rest.ordinary;
      units = rest.units;
    }
access_loop-Loops (nal_read nal ∷ reads) context access_unit loop (this, ordinary) =
    elim (take_nal-Takes context access_unit nal loop this) [
      | goes after longer taken still same ↦
          let rest = access_loop-Loops reads after longer still ordinary in
          record {
            after = rest.after;
            done = rest.done;
            more = rest.more;
            succeeds = ap (stepped reads) taken ∙ rest.succeeds;
            pending = rest.pending;
            earlier = rest.earlier;
            progress = further rest.progress;
            ordinary = rest.ordinary;
            units =
                rest.units
                ∙ joined (had context access_unit) (read_bytes reads) nal.unit (had after longer)
                    same;
          }
      | stops after done taken going pending earlier same ↦ record {
        after = after;
        done = done;
        more = reads;
        succeeds = ap (stepped reads) taken;
        pending = pending;
        earlier = earlier;
        progress = inl (going, reads_on (length reads));
        ordinary = ordinary;
        units = joined (had context access_unit) (read_bytes reads) nal.unit (had after done) same;
      }
    ]
access_loop-Loops (failed ∷ reads) context access_unit loop ordinary = elim ordinary [ ]
