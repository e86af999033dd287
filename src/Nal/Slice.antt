-- ===== src/Nal/Slice.antt =====
-- The start of a slice header: read_slice_data of include/nalunit.h.
use mts_utils.Base.{ℕ, ◌==◌, if◌then◌else◌, ◌&&◌, not, Bool, true, false, Option, none, some}
use mts_utils.Base.Int.{ℤ, pos}
use mts_utils.Base.Outcome
use mts_utils.Base.Outcome.{Outcome, ok, err, fault}
use mts_utils.BitData.{read_bit, read_bits, read_exp_golomb, read_signed_exp_golomb}
use mts_utils.BitData.Steps.{Reading, pure, ◌>>=◌, field}
use mts_utils.Nal.{NalSliceData, NalPicParamData, NalSeqParamData, NalInnards, slice}
use mts_utils.Nal.Params.{ParamDict, get_pic_param_data, get_seq_param_data}

abbrev pub blank_slice : NalSliceData
blank_slice = record {
  seq_param_set_pic_order_cnt_type = 0;
  first_mb_in_slice = 0;
  slice_type = 0;
  pic_parameter_set_id = 0;
  frame_num = 0;
  field_pic_flag = 0;
  bottom_field_flag = 0;
  bottom_field_flag_present = false;
  idr_pic_id = 0;
  pic_order_cnt_lsb = 0;
  delta_pic_order_cnt_bottom = pos 0;
  delta_pic_order_cnt_0 = pos 0;
  delta_pic_order_cnt_1 = pos 0;
  redundant_pic_cnt = 0;
  redundant_pic_cnt_present = false;
}

abbrev pub slice_before : NalInnards → NalSliceData
slice_before (slice s) = s
slice_before _ = blank_slice

-- Up to the id of the picture parameter set
unfoldable pub read_slice_start : NalSliceData → Reading NalSliceData
read_slice_start before = do
  first_mb_in_slice ← field before.first_mb_in_slice read_exp_golomb
  slice_type ← field before.slice_type read_exp_golomb
  pic_parameter_set_id ← field 0 read_exp_golomb
  pure (record before {
    first_mb_in_slice = first_mb_in_slice;
    slice_type = slice_type;
    pic_parameter_set_id = pic_parameter_set_id;
  })

unfoldable pub read_bottom_field : NalSliceData → Reading NalSliceData
read_bottom_field before = if before.field_pic_flag == 0 then pure before else do
  bottom_field_flag ← field before.bottom_field_flag read_bit
  pure (record before { bottom_field_flag_present = true; bottom_field_flag = bottom_field_flag })

unfoldable pub read_field_flags : NalSeqParamData → NalSliceData → Reading NalSliceData
unfolding read_bottom_field
read_field_flags seq_param before =
    let frame = record before {
      field_pic_flag = 0;
      bottom_field_flag = 0;
      bottom_field_flag_present = false;
    } in
    if seq_param.frame_mbs_only_flag == 0
    then (do
      field_pic_flag ← field frame.field_pic_flag read_bit
      read_bottom_field (record frame { field_pic_flag = field_pic_flag }))
    else pure frame

unfoldable pub read_idr_pic_id : ℕ → NalSliceData → Reading NalSliceData
read_idr_pic_id nal_unit_type before =
    if nal_unit_type == 5
    then (do
      idr_pic_id ← field before.idr_pic_id read_exp_golomb
      pure (record before { idr_pic_id = idr_pic_id }))
    else pure before

-- The second count of a frame, where the picture parameter set says that it is there
unfoldable pub read_frame_count : NalPicParamData → NalSliceData → Reading ℤ
read_frame_count pic_param before =
    if not (pic_param.pic_order_present_flag == 0) && before.field_pic_flag == 0
    then field (pos 0) read_signed_exp_golomb
    else pure (pos 0)

unfoldable pub read_order_counts :
    NalPicParamData → NalSeqParamData → NalSliceData → Reading NalSliceData
read_order_counts pic_param seq_param start =
    let before = record start {
      delta_pic_order_cnt_bottom = pos 0;
      delta_pic_order_cnt_0 = pos 0;
      delta_pic_order_cnt_1 = pos 0;
    } in
    if seq_param.pic_order_cnt_type == 0
    then (do
      pic_order_cnt_lsb ←
          field before.pic_order_cnt_lsb λ bd. read_bits bd seq_param.log2_max_pic_order_cnt_lsb
      bottom ← read_frame_count pic_param before
      pure (record before {
        pic_order_cnt_lsb = pic_order_cnt_lsb;
        delta_pic_order_cnt_bottom = bottom;
      }))
    else if seq_param.pic_order_cnt_type == 1 && seq_param.delta_pic_order_always_zero_flag == 0
    then (do
      first ← field (pos 0) read_signed_exp_golomb
      second ← read_frame_count pic_param before
      pure (record before { delta_pic_order_cnt_0 = first; delta_pic_order_cnt_1 = second }))
    else pure before

unfoldable pub read_redundant_pic_cnt : NalPicParamData → NalSliceData → Reading NalSliceData
read_redundant_pic_cnt pic_param start =
    let before = record start { redundant_pic_cnt = 0; redundant_pic_cnt_present = false } in
    if pic_param.redundant_pic_cnt_present_flag == 0 then pure before else do
      redundant_pic_cnt ← field before.redundant_pic_cnt read_exp_golomb
      pure (record before {
        redundant_pic_cnt_present = true;
        redundant_pic_cnt = redundant_pic_cnt;
      })

-- What the parameter sets are needed for
unfoldable pub read_slice_rest :
    ℕ → NalPicParamData → NalSeqParamData → NalSliceData → Reading NalSliceData
read_slice_rest nal_unit_type pic_param seq_param start = do
  let before = record start { seq_param_set_pic_order_cnt_type = seq_param.pic_order_cnt_type }
  frame_num ← field before.frame_num (λ bd. read_bits bd seq_param.log2_max_frame_num)
  flagged ← read_field_flags seq_param (record before { frame_num = frame_num })
  with_idr ← read_idr_pic_id nal_unit_type flagged
  counted ← read_order_counts pic_param seq_param with_idr
  read_redundant_pic_cnt pic_param counted

pub record Dicts : Type 0 where
  pub seq_param_dict : ParamDict
  pub pic_param_dict : ParamDict

-- The parameter sets for a picture parameter set id, `none` where one is not there
unfoldable pub find_param_sets :
    Dicts → ℕ → Outcome (Option (NalPicParamData × NalSeqParamData) × Dicts)
find_param_sets dicts id = elim (get_pic_param_data dicts.pic_param_dict id) [
  | fault ↦ fault
  | err ↦ ok (none, dicts)
  | ok (pic_param, pic_dict) ↦
      let looked = record dicts { pic_param_dict = pic_dict } in
      elim (get_seq_param_data dicts.seq_param_dict pic_param.seq_parameter_set_id) [
        | fault ↦ fault
        | err ↦ ok (none, looked)
        | ok (seq_param, seq_dict) ↦
            ok (some (pic_param, seq_param), record looked { seq_param_dict = seq_dict })
      ]
]

-- With what is read, whether it is all (`decoded`); `none` is the status 1. Without parameter sets only
-- the start is read.
unfoldable pub read_slice_data :
    ℕ → NalSliceData → Option Dicts → Reading (Option (NalSliceData × Bool) × Option Dicts)
read_slice_data nal_unit_type before no_dicts_or = read_slice_start before >>= λ start.
    elim no_dicts_or [
      | none ↦ pure (some (start, false), none)
      | some dicts ↦ λ bd.
          Outcome.◌>>=◌ (find_param_sets dicts start.pic_parameter_set_id) λ (sets, after).
            elim sets [
              | none ↦ ok ((none, some after), bd)
              | some (pic_param, seq_param) ↦
                  (do
                    whole ← read_slice_rest nal_unit_type pic_param seq_param start
                    pure (some (whole, true), some after))
                    bd
            ]
    ]
