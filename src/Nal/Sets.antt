-- ===== src/Nal/Sets.antt =====
-- Reading picture and sequence parameter sets in include/nalunit.h.
use mts_utils.Base.{
  ℕ, zero, suc, ◌+◌, ◌-◌, ◌^◌, ◌==◌, leb, ltb, if◌then◌else◌, ◌||◌, Option, none, some,
}
use mts_utils.BitData.{
  read_bit, read_bits, read_bits_into_byte, read_exp_golomb, read_signed_exp_golomb,
}
use mts_utils.BitData.Steps.{Reading, pure, ◌>>=◌, ◌>>◌, field, ignore}
use mts_utils.Nal.{NalPicParamData, NalSeqParamData}

-- `for (ii = 0; ii < count; ii++)` over a call whose value is not used
unfoldable pub repeat_call : ℕ → Reading (Unit {0}) → Reading (Unit {0})
repeat_call zero call = pure tt
repeat_call (suc count) call = call >>= λ _. repeat_call count call

-- `ceil(log2(n))`: the first `k` from `from` on with n ≤ 2 ^ k, within 32 of them
unfoldable pub ceil_log2 : ℕ → ℕ → ℕ → ℕ
ceil_log2 zero k n = k
ceil_log2 (suc left) k n = let rest = ceil_log2 left (suc k) n in if leb n (2 ^ k) then k else rest

unfoldable pub read_map_type : ℕ → ℕ → Reading (Unit {0})
unfolding repeat_call ceil_log2
read_map_type map_type num_slice_groups =
    if map_type == 0
    then repeat_call num_slice_groups (ignore read_exp_golomb)
    else if map_type == 2
    then repeat_call (num_slice_groups - 1) (ignore read_exp_golomb >>= λ _. ignore read_exp_golomb)
    else if map_type == 3 || map_type == 4 || map_type == 5
    then (ignore read_bit >>= λ _. ignore read_exp_golomb)
    else if map_type == 6
    then (do
      pic_size ← field 0 read_exp_golomb
      repeat_call (suc pic_size) (ignore λ bd. read_bits bd (ceil_log2 32 0 num_slice_groups)))
    else pure tt

-- The slice groups: their number, and the type of their map where there are more than one
unfoldable pub read_slice_groups : NalPicParamData → Reading NalPicParamData
unfolding read_map_type
read_slice_groups before = do
  minus_one ← field before.num_slice_groups read_exp_golomb
  let counted = record before { num_slice_groups = suc minus_one }
  if ltb 1 counted.num_slice_groups
      then (do
        map_type ← field counted.slice_group_map_type read_exp_golomb
        read_map_type map_type counted.num_slice_groups
        pure (record counted { slice_group_map_type = map_type }))
      else pure counted

abbrev pub blank_pic : NalPicParamData
blank_pic = record {
  pic_parameter_set_id = 0;
  seq_parameter_set_id = 0;
  entropy_coding_mode_flag = 0;
  pic_order_present_flag = 0;
  num_slice_groups = 0;
  slice_group_map_type = 0;
  redundant_pic_cnt_present_flag = 0;
}

unfoldable pub read_pic_param_set_data : Reading NalPicParamData
unfolding read_slice_groups
read_pic_param_set_data = do
  pic_parameter_set_id ← field 0 read_exp_golomb
  seq_parameter_set_id ← field pic_parameter_set_id read_exp_golomb
  entropy_coding_mode_flag ← field 0 read_bit
  pic_order_present_flag ← field 0 read_bit
  grouped ← read_slice_groups (record blank_pic {
    pic_parameter_set_id = pic_parameter_set_id;
    seq_parameter_set_id = seq_parameter_set_id;
    entropy_coding_mode_flag = entropy_coding_mode_flag;
    pic_order_present_flag = pic_order_present_flag;
  })
  ignore read_exp_golomb
  ignore read_exp_golomb
  ignore read_bit
  ignore λ bd. read_bits bd 2
  ignore read_signed_exp_golomb
  ignore read_signed_exp_golomb
  ignore read_signed_exp_golomb
  ignore read_bit
  ignore read_bit
  redundant ← field 0 read_bit
  pure (record grouped { redundant_pic_cnt_present_flag = redundant })

abbrev pub blank_seq : NalSeqParamData
blank_seq = record {
  profile_idc = 0;
  constraint_set0_flag = 0;
  constraint_set1_flag = 0;
  constraint_set2_flag = 0;
  level_idc = 0;
  seq_parameter_set_id = 0;
  log2_max_frame_num = 0;
  pic_order_cnt_type = 0;
  log2_max_pic_order_cnt_lsb = 0;
  delta_pic_order_always_zero_flag = 0;
  frame_mbs_only_flag = 0;
}

unfoldable pub read_order_cnt : NalSeqParamData → Reading NalSeqParamData
unfolding repeat_call
read_order_cnt before =
    if before.pic_order_cnt_type == 0
    then (do
      minus_four ← field before.log2_max_pic_order_cnt_lsb read_exp_golomb
      pure (record before { log2_max_pic_order_cnt_lsb = minus_four + 4 }))
    else if before.pic_order_cnt_type == 1
    then (do
      always_zero ← field before.delta_pic_order_always_zero_flag read_bit
      ignore read_signed_exp_golomb
      ignore read_signed_exp_golomb
      num_ref_frames_in_pic_order_cnt_cycle ← field 0 read_exp_golomb
      repeat_call num_ref_frames_in_pic_order_cnt_cycle (ignore read_signed_exp_golomb)
      pure (record before { delta_pic_order_always_zero_flag = always_zero }))
    else pure before

-- Behind the reserved bits
unfoldable pub read_seq_rest : NalSeqParamData → Reading NalSeqParamData
unfolding read_order_cnt
read_seq_rest before = do
  level_idc ← field before.level_idc λ bd. read_bits_into_byte bd 8
  seq_parameter_set_id ← field 0 read_exp_golomb
  minus_four ← field before.log2_max_frame_num read_exp_golomb
  pic_order_cnt_type ← field before.pic_order_cnt_type read_exp_golomb
  ordered ← read_order_cnt (record before {
    level_idc = level_idc;
    seq_parameter_set_id = seq_parameter_set_id;
    log2_max_frame_num = minus_four + 4;
    pic_order_cnt_type = pic_order_cnt_type;
  })
  ignore read_exp_golomb
  ignore read_bit
  ignore read_exp_golomb
  ignore read_exp_golomb
  frame_mbs_only_flag ← field ordered.frame_mbs_only_flag read_bit
  pure (record ordered { frame_mbs_only_flag = frame_mbs_only_flag })

-- `none` is the status 1.
unfoldable pub read_seq_param_set_data : Reading (Option NalSeqParamData)
unfolding read_seq_rest
read_seq_param_set_data = do
  profile_idc ← field 0 λ bd. read_bits_into_byte bd 8
  set0 ← field 0 read_bit
  set1 ← field 0 read_bit
  set2 ← field 0 read_bit
  reserved_zero_5bits ← field 0 λ bd. read_bits_into_byte bd 5
  if reserved_zero_5bits == 0
      then (do
        whole ← read_seq_rest (record blank_seq {
          profile_idc = profile_idc;
          constraint_set0_flag = set0;
          constraint_set1_flag = set1;
          constraint_set2_flag = set2;
        })
        pure (some whole))
      else pure none
