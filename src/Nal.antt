-- ===== src/Nal.antt =====
-- NAL units of H.264 (include/nalunit.h, include/nalunit_defns.h): the unit, its data without emulation
-- prevention, and what kind of unit it is. Flags that are read as bits are 0 or 1. Memory is taken to
-- suffice, and a fresh cell is a 0, `false` or `unset`; messages are left out.
pub mod First
pub mod Params
pub mod Slice
pub mod Sets
pub mod Read
pub mod Next
pub mod Emulation
pub mod Dict
pub mod SliceBits
pub mod SliceTrip
pub mod Header
mod Runs
use mts_utils.Base.{
  ℕ, zero, suc, ◌+◌, ◌-◌, ◌==◌, if◌then◌else◌, ◌&&◌, ◌||◌, not, Bool, true, false, List, [], ◌∷◌,
  drop, take, Option, none, some, bit_and,
}
use mts_utils.Base.Int.{ℤ, pos}
use mts_utils.Base.Outcome.{Outcome, ok, err, fault, ◌>>=◌, ◌>>◌, refuse_if, at}
use mts_utils.Bits.{◌>>>◌}
use mts_utils.BitData.{BitData, build_bitdata}
use mts_utils.Es.{EsUnit, setup_es_unit}

pub record NalSliceData : Type 0 where
  pub seq_param_set_pic_order_cnt_type : ℕ
  pub first_mb_in_slice : ℕ
  pub slice_type : ℕ
  pub pic_parameter_set_id : ℕ
  pub frame_num : ℕ
  pub field_pic_flag : ℕ
  pub bottom_field_flag : ℕ
  pub bottom_field_flag_present : Bool
  pub idr_pic_id : ℕ
  pub pic_order_cnt_lsb : ℕ
  pub delta_pic_order_cnt_bottom : ℤ
  pub delta_pic_order_cnt_0 : ℤ
  pub delta_pic_order_cnt_1 : ℤ
  pub redundant_pic_cnt : ℕ
  pub redundant_pic_cnt_present : Bool

pub record NalSeqParamData : Type 0 where
  pub profile_idc : ℕ
  pub constraint_set0_flag : ℕ
  pub constraint_set1_flag : ℕ
  pub constraint_set2_flag : ℕ
  pub level_idc : ℕ
  pub seq_parameter_set_id : ℕ
  pub log2_max_frame_num : ℕ
  pub pic_order_cnt_type : ℕ
  pub log2_max_pic_order_cnt_lsb : ℕ
  pub delta_pic_order_always_zero_flag : ℕ
  pub frame_mbs_only_flag : ℕ

pub record NalPicParamData : Type 0 where
  pub pic_parameter_set_id : ℕ
  pub seq_parameter_set_id : ℕ
  pub entropy_coding_mode_flag : ℕ
  pub pic_order_present_flag : ℕ
  pub num_slice_groups : ℕ
  pub slice_group_map_type : ℕ
  pub redundant_pic_cnt_present_flag : ℕ

pub record NalSeiRecoveryData : Type 0 where
  pub payload_type : ℕ
  pub payload_size : ℕ
  pub recovery_frame_cnt : ℕ
  pub exact_match_flag : ℕ
  pub broken_link_flag : ℕ
  pub changing_slice_group_idc : ℕ

-- The union, with the member that was set last
pub data NalInnards : Type 0 where
  unset : NalInnards
  slice : NalSliceData → NalInnards
  seq : NalSeqParamData → NalInnards
  pic : NalPicParamData → NalInnards
  sei_recovery : NalSeiRecoveryData → NalInnards

pub data StartReason : Type 0 where
  first_slice : StartReason
  first_of_unit : StartReason
  frame_number : StartReason
  field_or_frame : StartReason
  bottom_or_top : StartReason
  reference : StartReason
  order_counts : StartReason
  delta_counts : StartReason
  one_idr : StartReason
  different_idrs : StartReason

-- `bytes` and `data_len` are `data` and its length.
pub record NalUnit : Type 0 where
  pub unit : EsUnit
  pub bytes : List ℕ
  pub data_len : ℕ
  pub rbsp : Option (List ℕ)
  pub bit_data : Option BitData
  pub nal_ref_idc : ℕ
  pub nal_unit_type : ℕ
  pub starts_picture_decided : Bool
  pub starts_picture : Bool
  pub start_reason : Option StartReason
  pub decoded : Bool
  pub u : NalInnards

abbrev pub nal_unspecified : ℕ
nal_unspecified = 0

abbrev pub nal_non_idr : ℕ
nal_non_idr = 1

abbrev pub nal_idr : ℕ
nal_idr = 5

unfoldable pub build_nal_unit : NalUnit
unfolding setup_es_unit
build_nal_unit = record {
  unit = setup_es_unit;
  bytes = [];
  data_len = 0;
  rbsp = none;
  bit_data = none;
  nal_ref_idc = 0;
  nal_unit_type = nal_unspecified;
  starts_picture_decided = false;
  starts_picture = false;
  start_reason = none;
  decoded = false;
  u = unset;
}

-- The loop of remove_emulation_prevention over the bytes from `data[ii]` on
unfoldable pub emulation_loop : ℕ → ℕ → List ℕ → List ℕ
emulation_loop prev1 prev2 [] = []
emulation_loop prev1 prev2 (b ∷ bytes) =
    let rest = emulation_loop b prev1 bytes in
    if prev2 == 0 && prev1 == 0 && b == 3 then rest else b ∷ rest

-- The argument is the `data_len` bytes of `data`, of which the first is left out.
unfoldable pub remove_emulation_prevention : List ℕ → List ℕ
unfolding emulation_loop
remove_emulation_prevention bytes = emulation_loop 27 27 (drop 1 bytes)

-- prepare_rbsp, on what there is of bits and of bytes without emulation prevention
unfoldable pub prepare_from : NalUnit → Option BitData → Option (List ℕ) → NalUnit
unfolding remove_emulation_prevention build_bitdata
prepare_from nal (some bd) rbsp = nal
prepare_from nal none (some rbsp) = record nal { bit_data = some (build_bitdata rbsp) }
prepare_from nal none none =
    let rbsp = remove_emulation_prevention (take nal.data_len nal.bytes) in
    record nal { rbsp = some rbsp; bit_data = some (build_bitdata rbsp) }

unfoldable pub prepare_rbsp : NalUnit → NalUnit
unfolding prepare_from
prepare_rbsp nal = prepare_from nal nal.bit_data nal.rbsp

unfoldable pub setup_nal_data : NalUnit → Outcome NalUnit
setup_nal_data nal = do
  let bytes = drop 3 nal.unit.cells
  let data_len = nal.unit.data_len - 3
  first ← at bytes 0
  refuse_if (not (bit_and first 0x80 == 0))
  ok (record nal {
    bytes = bytes;
    data_len = data_len;
    nal_ref_idc = bit_and first 0x60 >>> 5;
    nal_unit_type = bit_and first 0x1F;
  })

unfoldable pub nal_is_slice : NalUnit → Bool
nal_is_slice nal = nal.nal_unit_type == 1 || nal.nal_unit_type == 5

unfoldable pub nal_is_pic_param_set : NalUnit → Bool
nal_is_pic_param_set nal = nal.nal_unit_type == 8

unfoldable pub nal_is_seq_param_set : NalUnit → Bool
nal_is_seq_param_set nal = nal.nal_unit_type == 7

-- `u.slice`; a read of another member of the union is taken for a fault.
abbrev pub slice_of : NalUnit → Outcome NalSliceData
slice_of nal = elim nal.u [ slice s ↦ ok s | _ ↦ fault ]
