-- ===== src/Nal/First.antt =====
-- Whether a NAL unit starts a picture: nal_is_redundant and nal_is_first_VCL_NAL of include/nalunit.h.
use mts_utils.Base.{◌==◌, if◌then◌else◌, ◌&&◌, ◌||◌, not, Bool, true, false, Option, none, some}
use mts_utils.Base.Int.{ℤ, pos, negsuc}
use mts_utils.Base.Outcome.{Outcome, ok, ◌>>=◌}
use mts_utils.Nal.{
  NalUnit, NalSliceData, StartReason, nal_is_slice, slice_of, nal_non_idr, nal_idr, first_slice,
  frame_number, field_or_frame, bottom_or_top, reference, order_counts, delta_counts, one_idr,
  different_idrs,
}

abbrev same_int : ℤ → ℤ → Bool
same_int (pos a) (pos b) = a == b
same_int (negsuc a) (negsuc b) = a == b
same_int _ _ = false

unfoldable pub nal_is_redundant : NalUnit → Outcome Bool
unfolding nal_is_slice
nal_is_redundant nal =
    if nal_is_slice nal
    then (slice_of nal >>= λ s. ok (s.redundant_pic_cnt_present && not (s.redundant_pic_cnt == 0)))
    else ok false

-- The chain of comparisons with a slice of the picture before; `none` where all agree
unfoldable pub differs : NalUnit → NalUnit → NalSliceData → NalSliceData → Option StartReason
differs nal last this that =
    if not (this.frame_num == that.frame_num)
    then some frame_number
    else if not (this.field_pic_flag == that.field_pic_flag)
    then some field_or_frame
    else if this.bottom_field_flag_present
        && that.bottom_field_flag_present
        && not (this.bottom_field_flag == that.bottom_field_flag)
    then some bottom_or_top
    else if not (nal.nal_ref_idc == last.nal_ref_idc)
        && (nal.nal_ref_idc == 0 || last.nal_ref_idc == 0)
    then some reference
    else if this.seq_param_set_pic_order_cnt_type == 0
        && that.seq_param_set_pic_order_cnt_type == 0
        && (not (this.pic_order_cnt_lsb == that.pic_order_cnt_lsb)
            || not (same_int this.delta_pic_order_cnt_bottom that.delta_pic_order_cnt_bottom))
    then some order_counts
    else if this.seq_param_set_pic_order_cnt_type == 1
        && that.seq_param_set_pic_order_cnt_type == 1
        && (not (same_int this.delta_pic_order_cnt_0 that.delta_pic_order_cnt_0)
            || not (same_int this.delta_pic_order_cnt_1 that.delta_pic_order_cnt_1))
    then some delta_counts
    else if (nal.nal_unit_type == 5 || last.nal_unit_type == 5)
        && not (nal.nal_unit_type == last.nal_unit_type)
    then some one_idr
    else if nal.nal_unit_type == 5
        && last.nal_unit_type == 5
        && not (this.idr_pic_id == that.idr_pic_id)
    then some different_idrs
    else none

abbrev pub set_start : NalUnit → Option StartReason → Bool × NalUnit
set_start nal none = (false, record nal { starts_picture = false; starts_picture_decided = true })
set_start nal (some reason) = (
  true,
  record nal { starts_picture = true; starts_picture_decided = true; start_reason = some reason },
)

-- With the answer, the unit, which remembers it
unfoldable pub nal_is_first_vcl_nal : NalUnit → Option NalUnit → Outcome (Bool × NalUnit)
unfolding differs
nal_is_first_vcl_nal nal last =
    if nal.starts_picture_decided
    then ok (nal.starts_picture, nal)
    else if not nal.decoded
    then ok (false, nal)
    else if not (nal.nal_unit_type == nal_non_idr) && not (nal.nal_unit_type == nal_idr)
    then ok (set_start nal none)
    else elim last [
      | none ↦ ok (set_start nal (some first_slice))
      | some before ↦
          (slice_of nal >>= λ this.
          slice_of before >>= λ that. ok (set_start nal (differs nal before this that)))
    ]
