-- ===== src/Nal/Runs.antt =====
-- Concrete runs on NAL units of include/nalunit.h.
use mts_utils.Base.{ℕ, ◌≡◌, refl, arith, List, [], ◌∷◌, true, false, none, some}
use mts_utils.Arrays.{search_loop}
use mts_utils.BitData.Stream.{bits_of}
use mts_utils.BitData.Encode.{log2_upto}
use mts_utils.Nal.{
  NalUnit, NalInnards, NalSliceData, NalPicParamData, NalSeqParamData, pic, seq, unset,
  remove_emulation_prevention, nal_is_slice,
}
use mts_utils.Nal.Params.{ParamDict, index_of_id}
use mts_utils.Nal.Dict.{IsParamDict, stored}
use mts_utils.Nal.Slice.{Dicts, blank_slice}
use mts_utils.Nal.SliceBits.{InRange, slice_bits}
use mts_utils.Nal.Emulation.{protect, is_free, remove_emulation_prevention-protect}
use mts_utils.Nal.Header.{Holds, ReadsSlice, with_slice, read_rbsp_data-ReadsSlice}
use mts_utils.Nal.Read.{read_rbsp_data}

abbrev with_zeros : List ℕ
with_zeros = 5 ∷ 0 ∷ 0 ∷ 1 ∷ 0 ∷ 0 ∷ []

remove_emulation_prevention-protect_example :
    (remove_emulation_prevention (0x65 ∷ protect 0x65 1 with_zeros) ≡ with_zeros)
    × (is_free 0x65 1 (protect 0x65 1 with_zeros) ≡ true)
remove_emulation_prevention-protect_example =
    remove_emulation_prevention-protect 0x65 with_zeros (omega arith)

abbrev frames : NalSeqParamData
frames = record {
  profile_idc = 77;
  constraint_set0_flag = 0;
  constraint_set1_flag = 0;
  constraint_set2_flag = 0;
  level_idc = 30;
  seq_parameter_set_id = 0;
  log2_max_frame_num = 4;
  pic_order_cnt_type = 0;
  log2_max_pic_order_cnt_lsb = 4;
  delta_pic_order_always_zero_flag = 0;
  frame_mbs_only_flag = 1;
}

abbrev simple : NalPicParamData
simple = record {
  pic_parameter_set_id = 0;
  seq_parameter_set_id = 0;
  entropy_coding_mode_flag = 0;
  pic_order_present_flag = 0;
  num_slice_groups = 1;
  slice_group_map_type = 0;
  redundant_pic_cnt_present_flag = 0;
}

abbrev idr_slice : NalSliceData
idr_slice = record blank_slice { slice_type = 7; pic_order_cnt_lsb = 3 }

abbrev one_entry : NalInnards → ParamDict
one_entry u = record {
  last = none;
  ids = 0 ∷ [];
  params = u ∷ [];
  posns = 0 ∷ [];
  data_lens = 9 ∷ [];
  size = 1;
  length = 1;
}

one_entry-IsParamDict : (u : NalInnards) → IsParamDict (one_entry u)
one_entry-IsParamDict u = record { ids = refl; params = refl; inside = omega arith; last = tt }

abbrev both : Dicts
both = record { seq_param_dict = one_entry (seq frames); pic_param_dict = one_entry (pic simple) }

both-Holds : Holds both 0 simple frames
unfolding stored index_of_id search_loop
both-Holds = record {
  sound = record {
    seq_param_dict = one_entry-IsParamDict (seq frames);
    pic_param_dict = one_entry-IsParamDict (pic simple);
  };
  pic_there = refl;
  seq_there = refl;
}

-- 1 0001000 1 0000 1 0011, and what follows, in which 00 00 01 is protected
abbrev payload : List ℕ
payload = 0x88 ∷ 0x84 ∷ 0xE0 ∷ 0 ∷ 0 ∷ 1 ∷ []

abbrev behind : List ℕ
behind = 1 ∷ 0 ∷ 0 ∷ 0 ∷ 0 ∷ 0 ∷ bits_of (0 ∷ 0 ∷ 1 ∷ [])

abbrev idr_unit : NalUnit
idr_unit = record {
  unit = record {
    start_posn = 40;
    cells = 0 ∷ 0 ∷ 1 ∷ 0x65 ∷ 0x88 ∷ 0x84 ∷ 0xE0 ∷ 0 ∷ 0 ∷ 3 ∷ 1 ∷ [];
    data_len = 11;
    data_size = 11;
    start_code = 0x65;
  };
  bytes = 0x65 ∷ 0x88 ∷ 0x84 ∷ 0xE0 ∷ 0 ∷ 0 ∷ 3 ∷ 1 ∷ [];
  data_len = 8;
  rbsp = none;
  bit_data = none;
  nal_ref_idc = 3;
  nal_unit_type = 5;
  starts_picture_decided = false;
  starts_picture = false;
  start_reason = none;
  decoded = false;
  u = unset;
}

idr_slice-InRange : InRange frames idr_slice
idr_slice-InRange = record {
  first_mb_in_slice = omega arith;
  slice_type = omega arith;
  pic_parameter_set_id = omega arith;
  frame_num_width = omega arith;
  frame_num = omega arith;
  idr_pic_id = omega arith;
  lsb_width = omega arith;
  lsb = omega arith;
  bottom = omega arith;
  first_delta = omega arith;
  second_delta = omega arith;
  redundant_pic_cnt = omega arith;
}

payload_bits : bits_of payload ≡ slice_bits 5 simple frames idr_slice behind
unfolding log2_upto
payload_bits = refl

protected : idr_unit.bytes ≡ 0x65 ∷ protect 0x65 1 payload
unfolding protect
protected = refl

is_slice : nal_is_slice idr_unit ≡ true
unfolding nal_is_slice
is_slice = refl

read_rbsp_data-ReadsSlice_example :
    ReadsSlice idr_unit
      (with_slice 5 simple frames idr_slice blank_slice)
      (read_rbsp_data idr_unit (some both))
read_rbsp_data-ReadsSlice_example =
    read_rbsp_data-ReadsSlice idr_unit 0x65 payload behind both simple frames idr_slice refl refl
      refl is_slice (omega arith) protected both-Holds idr_slice-InRange payload_bits
