-- ===== src/Nal/SliceBits.antt =====
-- The syntax of a slice header (H.264, 7.3.3) up to the count of redundant pictures, and that
-- read_slice_data of include/nalunit.h reads it.
use mts_utils.Base.{ℕ, ◌^◌, ◌≤◌, ◌<◌, refl, ◌==◌, if◌then◌else◌, ◌&&◌, not, Bool, List, ◌∷◌, ◌++◌}
use mts_utils.Base.Int.{ℤ, pos}
use mts_utils.BitData.{BitData}
use mts_utils.BitData.Stream.{At, Yields, digits}
use mts_utils.BitData.Encode.{ue, se, se_number, read_exp_golomb-ue}
use mts_utils.Nal.{NalSliceData, NalPicParamData, NalSeqParamData}
use mts_utils.Nal.Slice.{read_slice_start}

-- The numbers of a header fit their codes.
pub record InRange (seq_param : NalSeqParamData) (s : NalSliceData) : Type 0 where
  pub first_mb_in_slice : s.first_mb_in_slice < 0x80000000
  pub slice_type : s.slice_type < 0x80000000
  pub pic_parameter_set_id : s.pic_parameter_set_id < 0x80000000
  pub frame_num_width : seq_param.log2_max_frame_num ≤ 32
  pub frame_num : s.frame_num < 2 ^ seq_param.log2_max_frame_num
  pub idr_pic_id : s.idr_pic_id < 0x80000000
  pub lsb_width : seq_param.log2_max_pic_order_cnt_lsb ≤ 32
  pub lsb : s.pic_order_cnt_lsb < 2 ^ seq_param.log2_max_pic_order_cnt_lsb
  pub bottom : se_number s.delta_pic_order_cnt_bottom < 0x80000000
  pub first_delta : se_number s.delta_pic_order_cnt_0 < 0x80000000
  pub second_delta : se_number s.delta_pic_order_cnt_1 < 0x80000000
  pub redundant_pic_cnt : s.redundant_pic_cnt < 0x80000000

-- What is there of a header, and its bits, with those behind them
module _ (nal_unit_type : ℕ) (pic_param : NalPicParamData) (seq_param : NalSeqParamData)
    (s : NalSliceData) where
  abbrev pub may_be_field : Bool
  may_be_field = seq_param.frame_mbs_only_flag == 0

  abbrev pub is_field : Bool
  is_field = may_be_field && not (s.field_pic_flag == 0)

  abbrev pub has_lsb : Bool
  has_lsb = seq_param.pic_order_cnt_type == 0

  abbrev pub has_deltas : Bool
  has_deltas = seq_param.pic_order_cnt_type == 1 && seq_param.delta_pic_order_always_zero_flag == 0

  -- Both counts of a frame
  abbrev pub has_second : Bool
  has_second = not (pic_param.pic_order_present_flag == 0) && not is_field

  abbrev pub flag_bits : List ℕ → List ℕ
  flag_bits more =
      if may_be_field
      then s.field_pic_flag ∷ (if s.field_pic_flag == 0 then more else s.bottom_field_flag ∷ more)
      else more

  abbrev pub idr_bits : List ℕ → List ℕ
  idr_bits more = if nal_unit_type == 5 then ue s.idr_pic_id ++ more else more

  abbrev pub second_bits : ℤ → List ℕ → List ℕ
  second_bits z more = if has_second then se z ++ more else more

  abbrev pub order_bits : List ℕ → List ℕ
  order_bits more =
      if has_lsb
      then digits seq_param.log2_max_pic_order_cnt_lsb s.pic_order_cnt_lsb
        ++ second_bits s.delta_pic_order_cnt_bottom more
      else if has_deltas
      then se s.delta_pic_order_cnt_0 ++ second_bits s.delta_pic_order_cnt_1 more
      else more

  abbrev pub redundant_bits : List ℕ → List ℕ
  redundant_bits more =
      if pic_param.redundant_pic_cnt_present_flag == 0 then more else ue s.redundant_pic_cnt ++ more

  abbrev pub rest_bits : List ℕ → List ℕ
  rest_bits more =
      digits seq_param.log2_max_frame_num s.frame_num
      ++ flag_bits (idr_bits (order_bits (redundant_bits more)))

  abbrev pub slice_bits : List ℕ → List ℕ
  slice_bits more =
      ue s.first_mb_in_slice ++ (ue s.slice_type ++ (ue s.pic_parameter_set_id ++ rest_bits more))

  -- What a reader knows of a header then: fields that are not there have their defaults, or are as before.
  abbrev pub with_start : NalSliceData → NalSliceData
  with_start before = record before {
    first_mb_in_slice = s.first_mb_in_slice;
    slice_type = s.slice_type;
    pic_parameter_set_id = s.pic_parameter_set_id;
  }

  abbrev pub with_flags : NalSliceData → NalSliceData
  with_flags before = record before {
    field_pic_flag = if may_be_field then s.field_pic_flag else 0;
    bottom_field_flag = if is_field then s.bottom_field_flag else 0;
    bottom_field_flag_present = is_field;
  }

  abbrev pub with_idr : NalSliceData → NalSliceData
  with_idr before = record before {
    idr_pic_id = if nal_unit_type == 5 then s.idr_pic_id else before.idr_pic_id;
  }

  abbrev pub with_counts : NalSliceData → NalSliceData
  with_counts before = record before {
    pic_order_cnt_lsb = if has_lsb then s.pic_order_cnt_lsb else before.pic_order_cnt_lsb;
    delta_pic_order_cnt_bottom =
        if has_lsb && has_second then s.delta_pic_order_cnt_bottom else pos 0;
    delta_pic_order_cnt_0 = if not has_lsb && has_deltas then s.delta_pic_order_cnt_0 else pos 0;
    delta_pic_order_cnt_1 =
        if (not has_lsb && has_deltas) && has_second then s.delta_pic_order_cnt_1 else pos 0;
  }

  abbrev pub with_redundant : NalSliceData → NalSliceData
  with_redundant before =
      let present = not (pic_param.redundant_pic_cnt_present_flag == 0) in
      record before {
        redundant_pic_cnt = if present then s.redundant_pic_cnt else 0;
        redundant_pic_cnt_present = present;
      }

  abbrev pub with_rest : NalSliceData → NalSliceData
  with_rest before = with_redundant (
      with_counts (
        with_idr (
          with_flags (record before {
            seq_param_set_pic_order_cnt_type = seq_param.pic_order_cnt_type;
            frame_num = s.frame_num;
          }))))

module _ (nal_unit_type : ℕ) (pic_param : NalPicParamData) (seq_param : NalSeqParamData)
    (s : NalSliceData) (range : InRange seq_param s) where
  pub read_slice_start-Yields :
      (before : NalSliceData) (bd : BitData) (more : List ℕ)
      → At bd (slice_bits nal_unit_type pic_param seq_param s more)
      → Yields
          (read_slice_start before bd)
          (with_start nal_unit_type pic_param seq_param s before)
          (rest_bits nal_unit_type pic_param seq_param s more)
  unfolding read_slice_start
  read_slice_start-Yields before bd more here =
      let first = read_exp_golomb-ue s.first_mb_in_slice bd _ range.first_mb_in_slice here in
      let kind = read_exp_golomb-ue s.slice_type first.after _ range.slice_type first.there in
      let id =
        read_exp_golomb-ue s.pic_parameter_set_id kind.after _ range.pic_parameter_set_id
          kind.there in
      rw first.succeeds (
        rw kind.succeeds
          (rw id.succeeds (record { after = id.after; succeeds = refl; there = id.there })))
