-- ===== src/AccessUnit/Runs.antt =====
-- Concrete streams of NAL units for include/accessunit.h.
use mts_utils.Base.{
  ℕ, ◌≡◌, refl, List, [], ◌∷◌, ◌++◌, length, replicate, some, arith, true, false, inl, inr,
}
use mts_utils.Nal.{NalUnit, NalSliceData, build_nal_unit, slice, nal_is_slice}
use mts_utils.Nal.First.{nal_is_redundant}
use mts_utils.Nal.Slice.{blank_slice}
use mts_utils.AccessUnit.{
  AccessUnit, AccessUnitContext, build_access_unit, NalRead, nal_read, broken,
  build_access_unit_context,
}
use mts_utils.Ts.Write.{Sent, Output}
use mts_utils.Ts.Laws.Receiver.{logging}
use mts_utils.AccessUnit.Write.{write_access_unit_as_ts_with_pts_dts}
use mts_utils.AccessUnit.Sends.{plain, timed}
use mts_utils.AccessUnit.Written.{
  Writes, ends_of, without_ends, write_access_unit_with_pts_dts-Writes,
}
use mts_utils.AccessUnit.Kept.{IsOrdinary}
use mts_utils.AccessUnit.Loop.{AreOrdinary}
use mts_utils.AccessUnit.Stream.{Reads, read_all-Reads}
use mts_utils.AccessUnit.Frames.{get_next_h264_frame}
use mts_utils.AccessUnit.Whole.{Answers, IsFrame, get_next_h264_frame-Answers}

abbrev of_kind : ℕ → NalUnit
of_kind kind = record build_nal_unit { nal_unit_type = kind; nal_ref_idc = 1 }

abbrev with_slice : NalSliceData → NalUnit
with_slice s = record build_nal_unit {
  nal_unit_type = 1;
  nal_ref_idc = 1;
  decoded = true;
  u = slice s;
}

slice-IsOrdinary :
    (s : NalSliceData) → s.redundant_pic_cnt_present ≡ false → IsOrdinary (with_slice s)
unfolding build_nal_unit nal_is_slice nal_is_redundant
slice-IsOrdinary s needed = inl (refl, (s, refl), refl, refl, rw needed refl)

-- A parameter set, a picture of two slices with a broken unit between them, SEI, and the next picture
abbrev pictures : List NalRead
pictures =
    nal_read (of_kind 7)
    ∷ nal_read (with_slice (record blank_slice { frame_num = 4 }))
    ∷ broken
    ∷ nal_read (with_slice (record blank_slice { frame_num = 4; first_mb_in_slice = 40 }))
    ∷ nal_read (of_kind 6)
    ∷ nal_read (with_slice (record blank_slice { frame_num = 5 }))
    ∷ []

pictures-AreOrdinary : AreOrdinary pictures
unfolding build_nal_unit nal_is_slice
pictures-AreOrdinary = (
  inr (refl, inr refl),
  (
    slice-IsOrdinary (record blank_slice { frame_num = 4 }) refl,
    (
      slice-IsOrdinary (record blank_slice { frame_num = 4; first_mb_in_slice = 40 }) refl,
      (inr (refl, inl refl), (slice-IsOrdinary (record blank_slice { frame_num = 5 }) refl, tt)),
    ),
  ),
)

read_all-Reads_example : Reads build_access_unit_context pictures
read_all-Reads_example = read_all-Reads pictures pictures-AreOrdinary

abbrev field : ℕ → ℕ → NalSliceData
field number bottom = record blank_slice {
  frame_num = number;
  field_pic_flag = 1;
  bottom_field_flag = bottom;
  bottom_field_flag_present = true;
}

-- A field without its other field, and the fields of a frame
abbrev fields : List NalRead
fields =
    nal_read (with_slice (field 3 1))
    ∷ nal_read (with_slice (field 4 0))
    ∷ nal_read (with_slice (field 4 1))
    ∷ []

fields-AreOrdinary : AreOrdinary fields
fields-AreOrdinary = (
  slice-IsOrdinary (field 3 1) refl,
  (slice-IsOrdinary (field 4 0) refl, (slice-IsOrdinary (field 4 1) refl, tt)),
)

get_next_h264_frame-Answers_example :
    Answers IsFrame (get_next_h264_frame build_access_unit_context fields)
unfolding build_access_unit_context
get_next_h264_frame-Answers_example =
    get_next_h264_frame-Answers build_access_unit_context fields
      (inl ((refl, tt, tt), fields-AreOrdinary))

abbrev with_bytes : List ℕ → NalUnit → NalUnit
with_bytes bytes nal = record nal {
  unit = record {
    start_posn = 0;
    cells = bytes;
    data_len = length bytes;
    data_size = length bytes;
    start_code = 0;
  };
}

abbrev two_slices : AccessUnit
two_slices = record (build_access_unit 1) {
  nal_units =
      with_bytes (0 ∷ 0 ∷ 1 ∷ 0x21 ∷ replicate 300 0x55)
        (with_slice (record blank_slice { frame_num = 4 }))
      ∷ with_bytes (0 ∷ 0 ∷ 1 ∷ 0x21 ∷ 0x9A ∷ [])
          (with_slice (record blank_slice { frame_num = 4; first_mb_in_slice = 40 }))
      ∷ [];
}

abbrev with_end : AccessUnitContext
with_end = record build_access_unit_context {
  end_of_sequence = some (with_bytes (0 ∷ 0 ∷ 1 ∷ 10 ∷ []) (of_kind 10));
}

abbrev idle : Output (List Sent)
idle = record { continuity_counter = λ pid. 15; writer = [] }

write_access_unit_with_pts_dts_example :
    Writes 0x100 idle
      (timed true 90000 false 0 two_slices.nal_units ++ plain (ends_of (some with_end)))
      (without_ends (some with_end))
      (write_access_unit_as_ts_with_pts_dts logging 0x100 two_slices
        (some with_end)
        idle
        true
        90000
        false
        0)
unfolding build_access_unit_context
write_access_unit_with_pts_dts_example =
    write_access_unit_with_pts_dts-Writes 0x100 (omega arith) (omega arith) two_slices
      (some with_end) idle true 90000 false 0 (omega arith, (omega arith, tt)) (omega arith, tt)
