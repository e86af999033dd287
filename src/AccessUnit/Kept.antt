-- ===== src/AccessUnit/Kept.antt =====
-- One NAL unit in the loop of get_next_access_unit (include/accessunit.h): where it is kept.
use mts_utils.Base.{
  ◌≡◌, ◌⊎◌, inl, inr, refl, sym, ap, ◌∙◌, ◌==◌, if◌then◌else◌, Bool, true, false, Bool-cases, not,
  ◌&&◌, List, [], ◌∷◌, ◌++◌, map, Option, none, some,
}
use mts_utils.Base.Outcome.{Outcome, ok, ◌>>=◌}
use mathlib.Core.Path.{subst}
use mts_utils.Es.{EsUnit}
use mts_utils.Nal.{NalUnit, NalSliceData, StartReason, nal_is_slice, slice_of, nal_non_idr, nal_idr}
use mts_utils.Nal.First.{nal_is_first_vcl_nal, nal_is_redundant, differs, set_start}
use mts_utils.AccessUnit.{AccessUnitContext, is_held}

-- The bytes of NAL units, without what is known of them
abbrev pub bytes_of : List NalUnit → List EsUnit
bytes_of = map (λ (nal : NalUnit). nal.unit)

abbrev pub one_or_none : Option NalUnit → List NalUnit
one_or_none none = []
one_or_none (some nal) = nal ∷ []

-- What a context keeps for the units to come
abbrev pub kept : AccessUnitContext → List NalUnit
kept context = context.pending_list ++ one_or_none context.pending_nal

-- A slice that is decoded, and not redundant; SEI, a parameter set, or what is held like them
abbrev pub IsOrdinary : NalUnit → Type 0
IsOrdinary nal =
    ((nal_is_slice nal ≡ true)
      × ((s : NalSliceData) × (slice_of nal ≡ ok s))
      × (nal.decoded ≡ true)
      × (nal.starts_picture_decided ≡ false)
      × (nal_is_redundant nal ≡ ok false))
    ⊎ ((nal_is_slice nal ≡ false) × ((nal.nal_unit_type ≡ 6) ⊎ (is_held nal.nal_unit_type ≡ true)))

-- What the start of the picture before is, where it is remembered
abbrev pub IsSliceOrNone : Option NalUnit → Type 0
IsSliceOrNone none = Unit {0}
IsSliceOrNone (some nal) = (s : NalSliceData) × (slice_of nal ≡ ok s)

-- Whether the unit is one that nal_is_first_VCL_NAL made of it.
pub record Looked (nal : NalUnit) (result : Outcome (Bool × NalUnit)) : Type 0 where
  pub first : Bool
  pub looked : NalUnit
  pub succeeds : result ≡ ok (first, looked)
  pub same_unit : looked.unit ≡ nal.unit
  pub same_slice : slice_of looked ≡ slice_of nal
  pub same_redundant : nal_is_redundant looked ≡ nal_is_redundant nal

set_start-Looked :
    (nal : NalUnit) (reason : Option StartReason) → Looked nal (ok (set_start nal reason))
unfolding nal_is_redundant nal_is_slice
set_start-Looked nal none = record {
  first = false;
  looked = (set_start nal none).1;
  succeeds = refl;
  same_unit = refl;
  same_slice = refl;
  same_redundant = refl;
}
set_start-Looked nal (some reason) = record {
  first = true;
  looked = (set_start nal (some reason)).1;
  succeeds = refl;
  same_unit = refl;
  same_slice = refl;
  same_redundant = refl;
}

-- Whether a unit that is not decided differs from the slice before
abbrev compared : NalUnit → Option NalUnit → Outcome (Bool × NalUnit)
compared nal last = elim last [
  | none ↦ ok (set_start nal (some StartReason.first_slice))
  | some before ↦
      (slice_of nal >>= λ this.
      slice_of before >>= λ that. ok (set_start nal (differs nal before this that)))
]

abbrev undecided_first : NalUnit → Option NalUnit → Outcome (Bool × NalUnit)
undecided_first nal last =
    if not (nal.nal_unit_type == nal_non_idr) && not (nal.nal_unit_type == nal_idr)
    then ok (set_start nal none)
    else compared nal last

compared-Looked :
    (nal : NalUnit) (last : Option NalUnit) (s : NalSliceData)
    → slice_of nal ≡ ok s
    → IsSliceOrNone last
    → Looked nal (compared nal last)
compared-Looked nal none s h good = set_start-Looked nal (some StartReason.first_slice)
compared-Looked nal (some before) s h (that, e) =
    let with_this : compared nal (some before)
        ≡ (slice_of before >>= λ that. ok (set_start nal (differs nal before s that))) =
      ap
        (λ (t : Outcome NalSliceData). t >>= λ this.
          slice_of before >>= λ that. ok (set_start nal (differs nal before this that)))
        h in
    let with_that : (slice_of before >>= λ that. ok (set_start nal (differs nal before s that)))
        ≡ ok (set_start nal (differs nal before s that)) =
      ap
        (λ (t : Outcome NalSliceData). t >>= λ that. ok (set_start nal (differs nal before s that)))
        e in
    subst (Looked nal) (sym (with_this ∙ with_that))
      (set_start-Looked nal (differs nal before s that))

pub first-Looked :
    (nal : NalUnit) (last : Option NalUnit) (s : NalSliceData)
    → nal.decoded ≡ true
    → nal.starts_picture_decided ≡ false
    → slice_of nal ≡ ok s
    → IsSliceOrNone last
    → Looked nal (nal_is_first_vcl_nal nal last)
unfolding nal_is_first_vcl_nal
first-Looked nal last s decoded undecided h good =
    let opened : nal_is_first_vcl_nal nal last ≡ undecided_first nal last =
      ap
        (λ (t : Bool).
          if t
          then ok (nal.starts_picture, nal)
          else if not nal.decoded
          then ok (false, nal)
          else undecided_first nal last)
        undecided
      ∙ ap (λ (t : Bool). if not t then ok (false, nal) else undecided_first nal last) decoded in
    subst (Looked nal) (sym opened)
      (elim (Bool-cases
        (not (nal.nal_unit_type == nal_non_idr) && not (nal.nal_unit_type == nal_idr))) [
          | inl other ↦ rw other (set_start-Looked nal none)
          | inr either ↦ rw either (compared-Looked nal last s h good)
        ])
