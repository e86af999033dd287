-- ===== src/AccessUnit/Stream.antt =====
-- Calls of get_next_access_unit (include/accessunit.h) until it gives EOF, on a stream of slices and of what
-- comes before them
use mts_utils.Base.{
  ℕ, zero, ◌<◌, suc, ◌≡◌, inl, inr, refl, sym, ap, ◌∙◌, arith, Bool, true, false, List, [], ◌∷◌,
  ◌++◌, length, Option, none, some, Option-cases,
}
use mts_utils.Base.Outcome.{ok}
use mathlib.Core.Path.{subst}
use mathlib.Core.List.{append_assoc, append-nil}
use mts_utils.Es.{EsUnit}
use mts_utils.AccessUnit.{
  AccessUnit, AccessUnitContext, NalRead, get_next_access_unit, build_access_unit_context,
}
use mts_utils.AccessUnit.Kept.{bytes_of, kept, IsSliceOrNone}
use mts_utils.AccessUnit.Loop.{AreOrdinary, read_bytes}
use mts_utils.AccessUnit.Next.{get_next-Gives, units_of}

-- The calls from a context on: the access units they give, and the context when they give EOF
pub data AllUnits
    : AccessUnitContext → List NalRead → List AccessUnit → AccessUnitContext → Type 0 where
  ended :
      (context : AccessUnitContext) (reads : List NalRead) (after : AccessUnitContext)
      → get_next_access_unit context reads ≡ ok (none, after, [])
      → AllUnits context reads [] after
  found :
      (context : AccessUnitContext) (reads : List NalRead) (access_unit : AccessUnit)
      (between : AccessUnitContext) (more : List NalRead) (units : List AccessUnit)
      (after : AccessUnitContext)
      → get_next_access_unit context reads ≡ ok (some access_unit, between, more)
      → AllUnits between more units after
      → AllUnits context reads (access_unit ∷ units) after

abbrev pub bytes_of_all : List AccessUnit → List EsUnit
bytes_of_all [] = []
bytes_of_all (access_unit ∷ units) = bytes_of access_unit.nal_units ++ bytes_of_all units

-- The units of a whole stream
pub record Reads (context : AccessUnitContext) (reads : List NalRead) : Type 0 where
  pub units : List AccessUnit
  pub after : AccessUnitContext
  pub calls : AllUnits context reads units after
  pub all_there :
      bytes_of_all units ++ bytes_of (kept after) ≡ bytes_of (kept context) ++ read_bytes reads

false≢true : {x : Bool} → x ≡ false → x ≡ true → ⊥
false≢true f t = cc

pub no_more :
    (context : AccessUnitContext) (reads : List NalRead)
    → context.no_more_data ≡ true
    → get_next_access_unit context reads ≡ ok (none, context, reads)
unfolding get_next_access_unit
no_more context reads no_data = rw no_data refl

-- A unit in front of those that the later calls give
module _ (context : AccessUnitContext) (reads : List NalRead) (access_unit : AccessUnit)
    (between : AccessUnitContext) (more : List NalRead)
    (call : get_next_access_unit context reads ≡ ok (some access_unit, between, more))
    (units : bytes_of access_unit.nal_units ++ (bytes_of (kept between) ++ read_bytes more)
      ≡ bytes_of (kept context) ++ read_bytes reads) where
  one_more : Reads between more → Reads context reads
  one_more rest = record {
    units = access_unit ∷ rest.units;
    after = rest.after;
    calls = found context reads access_unit between more rest.units rest.after call rest.calls;
    all_there =
        append_assoc (bytes_of access_unit.nal_units) (bytes_of_all rest.units)
          (bytes_of (kept rest.after))
        ∙ ap (λ (t : List EsUnit). bytes_of access_unit.nal_units ++ t) rest.all_there
        ∙ units;
  }

at_end : (context : AccessUnitContext) → context.no_more_data ≡ true → Reads context []
at_end context no_data = record {
  units = [];
  after = context;
  calls = ended context [] context (no_more context [] no_data);
  all_there = sym (append-nil _);
}

none_found :
    (context : AccessUnitContext) (reads : List NalRead) (last : Option AccessUnit)
    (after : AccessUnitContext) (more : List NalRead)
    → get_next_access_unit context reads ≡ ok (last, after, more)
    → last ≡ none
    → more ≡ []
    → units_of last ++ (bytes_of (kept after) ++ read_bytes more)
      ≡ bytes_of (kept context) ++ read_bytes reads
    → Reads context reads
none_found context reads last after more call no_unit none_left units = record {
  units = [];
  after = after;
  calls = ended context reads after (
      call
      ∙ ap (λ (t : Option AccessUnit). ok (t, after, more)) no_unit
      ∙ ap (λ (t : List NalRead). ok (none, after, t)) none_left);
  all_there =
      sym (append-nil _)
      ∙ ap (λ (t : List NalRead). bytes_of (kept after) ++ read_bytes t) (sym none_left)
      ∙ ap (λ (t : Option AccessUnit). units_of t ++ (bytes_of (kept after) ++ read_bytes more))
          (sym no_unit)
      ∙ units;
}

abbrev pub Going : AccessUnitContext → Type 0
Going context =
    (context.no_more_data ≡ false)
    × IsSliceOrNone context.pending_nal
    × IsSliceOrNone context.earlier_primary_start

-- With the calls that are still to come, where there is data
next_call :
    (context : AccessUnitContext) (reads : List NalRead)
    → Going context
    → AreOrdinary reads
    → ((after : AccessUnitContext) (more : List NalRead)
        → length more < length reads
        → Going after
        → AreOrdinary more
        → Reads after more)
    → Reads context reads
next_call context reads (more_data, pending, earlier) ordinary later =
    let gives = get_next-Gives context reads more_data pending earlier ordinary in
    elim (Option-cases gives.found) [
      | inl e ↦ elim gives.progress [
        | inl (going, less) ↦ elim (false≢true going (gives.ended e)) [ ]
        | inr (no_data, none_left) ↦
            none_found context reads gives.found gives.after gives.more gives.succeeds e none_left
              gives.units
      ]
      | inr (access_unit, e) ↦
          let call =
            gives.succeeds ∙ ap (λ (t : Option AccessUnit). ok (t, gives.after, gives.more)) e in
          let units =
            ap
              (λ (t : Option AccessUnit).
                units_of t ++ (bytes_of (kept gives.after) ++ read_bytes gives.more))
              (sym e)
            ∙ gives.units in
          one_more context reads access_unit gives.after gives.more call units
            (elim gives.progress [
              | inl (going, less) ↦
                  later gives.after gives.more less (going, gives.pending, gives.earlier)
                    gives.ordinary
              | inr (no_data, none_left) ↦
                  subst (Reads gives.after) (sym none_left) (at_end gives.after no_data)
            ])
    ]

none_below : (n : ℕ) → n < 0 → ⊥
none_below n h = omega arith

just_over : (n : ℕ) → n < suc n
just_over n = omega arith

shorter : (a b n : ℕ) → a < b → b < suc n → a < n
shorter a b n h k = omega arith

read_on :
    (n : ℕ) (context : AccessUnitContext) (reads : List NalRead)
    → length reads < n
    → Going context
    → AreOrdinary reads
    → Reads context reads
read_on zero context reads short going ordinary = elim (none_below (length reads) short) [ ]
read_on (suc n) context reads short going ordinary =
    next_call context reads going ordinary
      (λ after more less. read_on n after more (shorter (length more) (length reads) n less short))

-- From a new context, on a stream of NAL units that are decoded slices which are not redundant,
-- SEI, parameter sets or of the types that are held like them, with broken units between,
-- get_next_access_unit called again and again comes to EOF without an error, and the NAL units of
-- the access units it gave, joined, with those that the context still keeps behind them, are all
-- the units of the stream in their order.
pub read_all-Reads :
    (reads : List NalRead) → AreOrdinary reads → Reads build_access_unit_context reads
unfolding build_access_unit_context
read_all-Reads reads ordinary =
    read_on (suc (length reads)) build_access_unit_context reads (just_over (length reads))
      (refl, tt, tt) ordinary
