-- ===== src/AccessUnit.antt =====
-- Access units of H.264, from include/accessunit.h: the NAL units of a picture are put together, one after
-- another. What the calls of find_next_NAL_unit that are still to come return is a list. Lists of NAL units
-- are lists, and the reverse data of a context is left out. A unit that is freed is dropped.
pub mod Kept
pub mod Takes
pub mod Cases
pub mod Loop
pub mod Next
pub mod Stream
pub mod Frames
pub mod Whole
pub mod Write
pub mod Sends
pub mod Written
mod Runs
use mts_utils.Base.{
  ℕ, suc, ◌+◌, ◌%◌, ◌^◌, ◌==◌, if◌then◌else◌, ◌&&◌, ◌||◌, Bool, true, false, List, [], ◌∷◌, ◌++◌,
  length, Option, none, some,
}
use mts_utils.Base.Outcome.{Outcome, ok, err, ◌>>=◌}
use mts_utils.Nal.{NalUnit, build_nal_unit, nal_is_slice, slice_of, first_of_unit}
use mts_utils.Nal.First.{nal_is_first_vcl_nal, nal_is_redundant}

pub record AccessUnit : Type 0 where
  pub index : ℕ
  pub started_primary_picture : Bool
  pub primary_start : Option NalUnit
  pub nal_units : List NalUnit
  pub ignored_broken_nal_units : ℕ
  pub frame_num : ℕ
  pub field_pic_flag : ℕ
  pub bottom_field_flag : ℕ

pub record AccessUnitContext : Type 0 where
  pub end_of_sequence : Option NalUnit
  pub end_of_stream : Option NalUnit
  pub access_unit_index : ℕ
  pub pending_nal : Option NalUnit
  pub earlier_primary_start : Option NalUnit
  pub pending_list : List NalUnit
  pub no_more_data : Bool

-- The statuses 0, 2 and 1 of find_next_NAL_unit; the end of the list is EOF.
pub data NalRead : Type 0 where
  nal_read : NalUnit → NalRead
  broken : NalRead
  failed : NalRead

abbrev pub nal_access_unit_delim : ℕ
nal_access_unit_delim = 9

abbrev pub nal_end_of_seq : ℕ
nal_end_of_seq = 10

abbrev pub nal_end_of_stream : ℕ
nal_end_of_stream = 11

unfoldable pub build_access_unit : ℕ → AccessUnit
build_access_unit index = record {
  index = index;
  started_primary_picture = false;
  primary_start = none;
  nal_units = [];
  ignored_broken_nal_units = 0;
  frame_num = 0;
  field_pic_flag = 0;
  bottom_field_flag = 0;
}

abbrev pub next_index : AccessUnitContext → ℕ
next_index context = (context.access_unit_index + 1) % 2 ^ 32

unfoldable pub build_access_unit_context : AccessUnitContext
build_access_unit_context = record {
  end_of_sequence = none;
  end_of_stream = none;
  access_unit_index = 0;
  pending_nal = none;
  earlier_primary_start = none;
  pending_list = [];
  no_more_data = false;
}

-- The units that are freed are dropped; where the next unit is read from is not the context's.
unfoldable pub reset_access_unit_context : AccessUnitContext → AccessUnitContext
reset_access_unit_context context = record context {
  earlier_primary_start = none;
  end_of_sequence = none;
  end_of_stream = none;
  pending_nal = none;
  pending_list = [];
  no_more_data = false;
}

unfoldable pub append_to_nal_unit_list : List NalUnit → NalUnit → List NalUnit
append_to_nal_unit_list list nal = list ++ nal ∷ []

-- What the start of the primary picture notes
unfoldable pub start_primary : AccessUnit → NalUnit → Outcome AccessUnit
start_primary access_unit nal = slice_of nal >>= λ s. ok (record access_unit {
  primary_start = some nal;
  started_primary_picture = true;
  frame_num = s.frame_num;
  field_pic_flag = s.field_pic_flag;
  bottom_field_flag = s.bottom_field_flag;
})

-- The pending units and the unit, behind those that are there
unfoldable pub append_units : AccessUnit → NalUnit → List NalUnit → AccessUnit
unfolding append_to_nal_unit_list
append_units access_unit nal pending = record access_unit {
  nal_units = access_unit.nal_units ++ append_to_nal_unit_list pending nal;
}

unfoldable pub access_unit_append : AccessUnit → NalUnit → Bool → List NalUnit → Outcome AccessUnit
access_unit_append access_unit nal starts_primary pending =
    if starts_primary && access_unit.started_primary_picture
    then err
    else if starts_primary
    then (start_primary access_unit nal >>= λ started. ok (append_units started nal pending))
    else ok (append_units access_unit nal pending)

abbrev pub target : Option NalUnit → NalUnit
target none = build_nal_unit
target (some tgt) = tgt

unfoldable pub remember_earlier_primary_start : AccessUnitContext → NalUnit → AccessUnitContext
remember_earlier_primary_start context nal =
    let tgt = target context.earlier_primary_start in
    record context {
      earlier_primary_start = some (record tgt {
        starts_picture_decided = nal.starts_picture_decided;
        starts_picture = nal.starts_picture;
        start_reason = nal.start_reason;
        decoded = nal.decoded;
        nal_ref_idc = nal.nal_ref_idc;
        nal_unit_type = nal.nal_unit_type;
        u = nal.u;
        unit = record tgt.unit { start_posn = nal.unit.start_posn; data_len = nal.unit.data_len };
      });
    }

-- The loop of get_next_access_unit goes on, or is left by `break`.
pub data Step : Type 0 where
  go : AccessUnitContext → AccessUnit → Step
  stop : AccessUnitContext → AccessUnit → Step

abbrev pub no_pending : AccessUnitContext → AccessUnitContext
no_pending context = record context { pending_list = [] }

-- A slice while there was none in the unit
unfoldable pub first_slice_of : AccessUnitContext → AccessUnit → NalUnit → Outcome Step
first_slice_of context access_unit nal =
    let reason = record nal { start_reason = some first_of_unit } in
    access_unit_append access_unit reason true context.pending_list >>= λ longer.
    ok (go (remember_earlier_primary_start (no_pending context) reason) longer)

-- A slice behind others: it starts the next unit, or is redundant, or belongs to this one.
unfoldable pub later_slice : AccessUnitContext → AccessUnit → NalUnit → Outcome Step
later_slice context access_unit nal =
    nal_is_first_vcl_nal nal context.earlier_primary_start >>= λ (first, looked).
    if first
    then ok (
        stop (record (remember_earlier_primary_start context looked) { pending_nal = some looked })
          access_unit)
    else (nal_is_redundant looked >>= λ redundant.
        if redundant
        then ok (go context access_unit)
        else (access_unit_append access_unit looked false context.pending_list >>= λ longer.
            ok (go (no_pending context) longer)))

unfoldable pub hold_nal : AccessUnitContext → NalUnit → AccessUnitContext
unfolding append_to_nal_unit_list
hold_nal context nal = record context {
  pending_list = append_to_nal_unit_list context.pending_list nal;
}

-- What is there of an incomplete unit is dropped.
unfoldable pub take_delimiter : AccessUnitContext → AccessUnit → NalUnit → Outcome Step
take_delimiter context access_unit nal =
    if access_unit.started_primary_picture
    then ok (stop (hold_nal context nal) access_unit)
    else (access_unit_append (record access_unit { nal_units = [] }) nal false [] >>= λ longer.
        ok (go (no_pending context) longer))

unfoldable pub take_sei : AccessUnitContext → AccessUnit → NalUnit → Step
take_sei context access_unit nal =
    if access_unit.started_primary_picture
    then stop (hold_nal context nal) access_unit
    else go (hold_nal context nal) access_unit

-- Parameter sets, and what is reserved for units before a slice
abbrev pub is_held : ℕ → Bool
is_held kind =
    kind == 7
    || kind == 8
    || kind == 13
    || kind == 14
    || kind == 15
    || kind == 16
    || kind == 17
    || kind == 18

unfoldable pub take_nal : AccessUnitContext → AccessUnit → NalUnit → Outcome Step
take_nal context access_unit nal =
    if nal_is_slice nal
    then (if access_unit.started_primary_picture
        then later_slice context access_unit nal
        else first_slice_of context access_unit nal)
    else if nal.nal_unit_type == nal_access_unit_delim
    then take_delimiter context access_unit nal
    else if nal.nal_unit_type == 6
    then ok (take_sei context access_unit nal)
    else if is_held nal.nal_unit_type
    then ok (go (hold_nal context nal) access_unit)
    else if nal.nal_unit_type == nal_end_of_seq
    then ok (stop (record (no_pending context) { end_of_sequence = some nal }) access_unit)
    else if nal.nal_unit_type == nal_end_of_stream
    then ok (
        stop (record (no_pending context) { end_of_stream = some nal; no_more_data = true })
          access_unit)
    else ok (go context access_unit)

-- With what comes out of the loop, the calls still to come
unfoldable pub access_loop :
    AccessUnitContext
    → AccessUnit
    → List NalRead
    → Outcome (AccessUnitContext × AccessUnit × List NalRead)
access_loop context access_unit [] = ok (record context { no_more_data = true }, access_unit, [])
access_loop context access_unit (failed ∷ reads) = err
access_loop context access_unit (broken ∷ reads) =
    access_loop context
      (record access_unit { ignored_broken_nal_units = suc access_unit.ignored_broken_nal_units })
      reads
access_loop context access_unit (nal_read nal ∷ reads) =
    take_nal context access_unit nal >>= λ step. elim step [
      | stop after done ↦ ok (after, done, reads)
      | go after longer ↦ access_loop after longer reads
    ]

-- A unit that was kept for this access unit
unfoldable pub take_pending :
    AccessUnitContext → Option NalUnit → AccessUnit → Outcome (AccessUnitContext × AccessUnit)
take_pending context none access_unit = ok (context, access_unit)
take_pending context (some nal) access_unit =
    access_unit_append access_unit nal true context.pending_list >>= λ longer.
    ok (record (no_pending context) { pending_nal = none }, longer)

-- The unit in hand is returned, or EOF: `none`
unfoldable pub finish_access_unit :
    AccessUnitContext
    → AccessUnit
    → List NalRead
    → Option AccessUnit × AccessUnitContext × List NalRead
finish_access_unit context access_unit reads =
    if context.no_more_data && (length access_unit.nal_units == 0)
    then (none, context, reads)
    else (some access_unit, record context { access_unit_index = next_index context }, reads)

unfoldable pub get_next_access_unit :
    AccessUnitContext
    → List NalRead
    → Outcome (Option AccessUnit × AccessUnitContext × List NalRead)
get_next_access_unit context reads =
    if context.no_more_data
    then ok (none, context, reads)
    else (take_pending context context.pending_nal (build_access_unit (next_index context))
        >>= λ (ready, begun). access_loop ready begun reads >>= λ (after, done, more).
            ok (finish_access_unit after done more))
