-- ===== src/AccessUnit/Takes.antt =====
-- One NAL unit in the loop of get_next_access_unit (include/accessunit.h) is kept, behind what was there.
use mts_utils.Base.{
  ◌≡◌, refl, ap, ◌∙◌, if◌then◌else◌, Bool, true, false, List, [], ◌∷◌, ◌++◌, none, some,
}
use mts_utils.Base.Outcome.{Outcome, ok, err, ◌>>=◌}
use mathlib.Core.List.{append_assoc, append-nil, map-append}
use mts_utils.Nal.{NalUnit, NalSliceData, slice_of}
use mts_utils.AccessUnit.{
  AccessUnit, AccessUnitContext, Step, go, stop, access_unit_append, append_units,
  append_to_nal_unit_list, start_primary,
}
use mts_utils.AccessUnit.Kept.{bytes_of, kept, IsSliceOrNone}
use mts_utils.Es.{EsUnit}

-- Where the loop stands
pub record InLoop (context : AccessUnitContext) : Type 0 where
  pub more_data : context.no_more_data ≡ false
  pub none_pending : context.pending_nal ≡ none
  pub earlier : IsSliceOrNone context.earlier_primary_start

-- What the unit in hand and the context have, in order
abbrev pub had : AccessUnitContext → AccessUnit → List EsUnit
had context access_unit = bytes_of access_unit.nal_units ++ bytes_of (kept context)

pub data Takes (context : AccessUnitContext) (access_unit : AccessUnit) (nal : NalUnit)
    (result : Outcome Step) : Type 0 where
  goes :
      (after : AccessUnitContext) (longer : AccessUnit)
      → result ≡ ok (go after longer)
      → InLoop after
      → had after longer ≡ had context access_unit ++ nal.unit ∷ []
      → Takes context access_unit nal result
  stops :
      (after : AccessUnitContext) (done : AccessUnit)
      → result ≡ ok (stop after done)
      → after.no_more_data ≡ false
      → IsSliceOrNone after.pending_nal
      → IsSliceOrNone after.earlier_primary_start
      → had after done ≡ had context access_unit ++ nal.unit ∷ []
      → Takes context access_unit nal result

-- A unit appended to the access unit
pub record Appends (access_unit : AccessUnit) (nal : NalUnit) (pending : List NalUnit)
    (result : Outcome AccessUnit) : Type 0 where
  pub longer : AccessUnit
  pub succeeds : result ≡ ok longer
  pub units : longer.nal_units ≡ access_unit.nal_units ++ (pending ++ nal ∷ [])

pub append_start-Appends :
    (access_unit : AccessUnit) (nal : NalUnit) (s : NalSliceData) (pending : List NalUnit)
    → access_unit.started_primary_picture ≡ false
    → slice_of nal ≡ ok s
    → Appends access_unit nal pending (access_unit_append access_unit nal true pending)
unfolding access_unit_append start_primary append_units append_to_nal_unit_list
append_start-Appends access_unit nal s pending not_started h =
    let started = record access_unit {
      primary_start = some nal;
      started_primary_picture = true;
      frame_num = s.frame_num;
      field_pic_flag = s.field_pic_flag;
      bottom_field_flag = s.bottom_field_flag;
    } in
    record {
      longer = append_units started nal pending;
      succeeds =
          ap
            (λ (t : Bool).
              if t
              then err
              else (start_primary access_unit nal >>= λ begun. ok (append_units begun nal pending)))
            not_started
          ∙ ap
              (λ (t : Outcome NalSliceData).
                (t >>= λ d. ok (record access_unit {
                  primary_start = some nal;
                  started_primary_picture = true;
                  frame_num = d.frame_num;
                  field_pic_flag = d.field_pic_flag;
                  bottom_field_flag = d.bottom_field_flag;
                }))
                >>= λ begun. ok (append_units begun nal pending))
              h;
      units = refl;
    }

pub append_later-Appends :
    (access_unit : AccessUnit) (nal : NalUnit) (pending : List NalUnit)
    → Appends access_unit nal pending (access_unit_append access_unit nal false pending)
unfolding access_unit_append append_units append_to_nal_unit_list
append_later-Appends access_unit nal pending = record {
  longer = append_units access_unit nal pending;
  succeeds = refl;
  units = refl;
}

-- The lists when the unit goes behind those pending, in the access unit or in the context
module _ (units pending : List NalUnit) (nal : NalUnit) where
  pub moved_in :
      bytes_of (units ++ (pending ++ nal ∷ [])) ++ bytes_of ([] ++ [])
      ≡ (bytes_of units ++ bytes_of (pending ++ [])) ++ nal.unit ∷ []
  moved_in = simp (map-append, append_assoc, append-nil)

  pub held_back :
      bytes_of units ++ bytes_of ((pending ++ nal ∷ []) ++ [])
      ≡ (bytes_of units ++ bytes_of (pending ++ [])) ++ nal.unit ∷ []
  held_back = simp (map-append, append_assoc, append-nil)
