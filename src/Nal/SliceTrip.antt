-- ===== src/Nal/SliceTrip.antt =====
-- read_slice_data of include/nalunit.h reads the syntax of a slice header, part by part.
use mts_utils.Base.{
  ℕ, ◌<◌, ◌≡◌, refl, arith, ◌==◌, if◌then◌else◌, ◌&&◌, not, Bool-cases, inl, inr, List,
}
use mts_utils.Base.Int.{ℤ, pos}
use mts_utils.Base.Outcome.{ok}
use mts_utils.BitData.{BitData}
use mts_utils.BitData.Stream.{At, Yields}
use mts_utils.BitData.Encode.{
  se_number, read_exp_golomb-ue, read_signed_exp_golomb-se, read_bits-digits, read_bit-Yields,
}
use mts_utils.Nal.{NalSliceData, NalPicParamData, NalSeqParamData}
use mts_utils.Nal.Slice.{
  read_bottom_field, read_field_flags, read_idr_pic_id, read_frame_count, read_order_counts,
  read_redundant_pic_cnt, read_slice_rest,
}
use mts_utils.Nal.SliceBits.{
  InRange, is_field, has_deltas, has_second, flag_bits, idr_bits, second_bits, order_bits,
  redundant_bits, rest_bits, with_flags, with_idr, with_counts, with_redundant, with_rest,
}

-- A reader that has read what there is
abbrev done {ℓ} :
    {A : Type ℓ} (a : A) (bd : BitData) (more : List ℕ) → At bd more → Yields (ok (a, bd)) a more
done a bd more here = record { after = bd; succeeds = refl; there = here }

module _ (nal_unit_type : ℕ) (pic_param : NalPicParamData) (seq_param : NalSeqParamData)
    (s : NalSliceData) (range : InRange seq_param s) (bd : BitData) (more : List ℕ) where
  read_field_flags-Yields :
      (before : NalSliceData)
      → At bd (flag_bits nal_unit_type pic_param seq_param s more)
      → Yields
          (read_field_flags seq_param before bd)
          (with_flags nal_unit_type pic_param seq_param s before)
          more
  unfolding read_field_flags read_bottom_field
  read_field_flags-Yields before here = elim (Bool-cases (seq_param.frame_mbs_only_flag == 0)) [
    | inr frame ↦ rw frame (done _ bd more (rw frame at here))
    | inl fields ↦
        let flag = read_bit-Yields s.field_pic_flag bd _ (rw fields at here) in
        rw fields (
          rw flag.succeeds (elim (Bool-cases (s.field_pic_flag == 0)) [
            | inl whole ↦ rw whole (done _ flag.after more (rw whole at (flag.there)))
            | inr half ↦
                let bottom =
                  read_bit-Yields s.bottom_field_flag flag.after more (rw half at (flag.there)) in
                rw half (rw bottom.succeeds (done _ bottom.after more bottom.there))
          ]))
  ]

  read_idr_pic_id-Yields :
      (before : NalSliceData)
      → At bd (idr_bits nal_unit_type pic_param seq_param s more)
      → Yields
          (read_idr_pic_id nal_unit_type before bd)
          (with_idr nal_unit_type pic_param seq_param s before)
          more
  unfolding read_idr_pic_id
  read_idr_pic_id-Yields before here = elim (Bool-cases (nal_unit_type == 5)) [
    | inr other ↦ rw other (done _ bd more (rw other at here))
    | inl idr ↦
        let id = read_exp_golomb-ue s.idr_pic_id bd more range.idr_pic_id (rw idr at here) in
        rw idr (rw id.succeeds (done _ id.after more id.there))
  ]

  read_redundant_pic_cnt-Yields :
      (before : NalSliceData)
      → At bd (redundant_bits nal_unit_type pic_param seq_param s more)
      → Yields
          (read_redundant_pic_cnt pic_param before bd)
          (with_redundant nal_unit_type pic_param seq_param s before)
          more
  unfolding read_redundant_pic_cnt
  read_redundant_pic_cnt-Yields before here =
      elim (Bool-cases (pic_param.redundant_pic_cnt_present_flag == 0)) [
        | inl absent ↦ rw absent (done _ bd more (rw absent at here))
        | inr present ↦
            let count =
              read_exp_golomb-ue s.redundant_pic_cnt bd more range.redundant_pic_cnt
                (rw present at here) in
            rw present (rw count.succeeds (done _ count.after more count.there))
      ]

  read_frame_count-Yields :
      (before : NalSliceData) (z : ℤ)
      → se_number z < 0x80000000
      → (before.field_pic_flag == 0) ≡ not (is_field nal_unit_type pic_param seq_param s)
      → At bd (second_bits nal_unit_type pic_param seq_param s z more)
      → Yields
          (read_frame_count pic_param before bd)
          (if has_second nal_unit_type pic_param seq_param s then z else pos 0)
          more
  unfolding read_frame_count
  read_frame_count-Yields before z small same here =
      rw same (elim (Bool-cases (has_second nal_unit_type pic_param seq_param s)) [
        | inr absent ↦ rw absent (done _ bd more (rw absent at here))
        | inl present ↦
            let count = read_signed_exp_golomb-se z bd more small (rw present at here) in
            rw present (rw count.succeeds (done _ count.after more count.there))
      ])

module _ (nal_unit_type : ℕ) (pic_param : NalPicParamData) (seq_param : NalSeqParamData)
    (s : NalSliceData) (range : InRange seq_param s) (bd : BitData) (more : List ℕ) where
  read_order_counts-Yields :
      (before : NalSliceData)
      → (before.field_pic_flag == 0) ≡ not (is_field nal_unit_type pic_param seq_param s)
      → At bd (order_bits nal_unit_type pic_param seq_param s more)
      → Yields
          (read_order_counts pic_param seq_param before bd)
          (with_counts nal_unit_type pic_param seq_param s before)
          more
  unfolding read_order_counts
  read_order_counts-Yields before same here =
      let cleared = record before {
        delta_pic_order_cnt_bottom = pos 0;
        delta_pic_order_cnt_0 = pos 0;
        delta_pic_order_cnt_1 = pos 0;
      } in
      elim (Bool-cases (seq_param.pic_order_cnt_type == 0)) [
        | inl lsb ↦
            let count =
              read_bits-digits seq_param.log2_max_pic_order_cnt_lsb s.pic_order_cnt_lsb bd _
                range.lsb_width range.lsb (rw lsb at here) in
            let second =
              read_frame_count-Yields nal_unit_type pic_param seq_param s range count.after more
                cleared s.delta_pic_order_cnt_bottom range.bottom same count.there in
            rw lsb (rw count.succeeds (rw second.succeeds (done _ second.after more second.there)))
        | inr no_lsb ↦ elim (Bool-cases (has_deltas nal_unit_type pic_param seq_param s)) [
          | inr no_deltas ↦ rw (no_lsb, no_deltas) (done _ bd more (rw (no_lsb, no_deltas) at here))
          | inl deltas ↦
              let first =
                read_signed_exp_golomb-se s.delta_pic_order_cnt_0 bd _ range.first_delta
                  (rw (no_lsb, deltas) at here) in
              let second =
                read_frame_count-Yields nal_unit_type pic_param seq_param s range first.after more
                  cleared s.delta_pic_order_cnt_1 range.second_delta same first.there in
              rw (no_lsb, deltas)
                (rw first.succeeds (rw second.succeeds (done _ second.after more second.there)))
        ]
      ]

flag_agrees :
    (seq_param : NalSeqParamData) (s : NalSliceData)
    → ((if seq_param.frame_mbs_only_flag == 0 then s.field_pic_flag else 0) == 0)
      ≡ not ((seq_param.frame_mbs_only_flag == 0) && not (s.field_pic_flag == 0))
flag_agrees seq_param s = ground arith

module _ (nal_unit_type : ℕ) (pic_param : NalPicParamData) (seq_param : NalSeqParamData)
    (s : NalSliceData) (range : InRange seq_param s) (bd : BitData) (more : List ℕ) where
  pub read_slice_rest-Yields :
      (before : NalSliceData)
      → At bd (rest_bits nal_unit_type pic_param seq_param s more)
      → Yields
          (read_slice_rest nal_unit_type pic_param seq_param before bd)
          (with_rest nal_unit_type pic_param seq_param s before)
          more
  unfolding read_slice_rest
  read_slice_rest-Yields before here =
      let start = record before {
        seq_param_set_pic_order_cnt_type = seq_param.pic_order_cnt_type;
        frame_num = s.frame_num;
      } in
      let number =
        read_bits-digits seq_param.log2_max_frame_num s.frame_num bd _ range.frame_num_width
          range.frame_num here in
      let flags =
        read_field_flags-Yields nal_unit_type pic_param seq_param s range number.after _ start
          number.there in
      let flagged = with_flags nal_unit_type pic_param seq_param s start in
      let idr =
        read_idr_pic_id-Yields nal_unit_type pic_param seq_param s range flags.after _ flagged
          flags.there in
      let with_id = with_idr nal_unit_type pic_param seq_param s flagged in
      let counts =
        read_order_counts-Yields nal_unit_type pic_param seq_param s range idr.after _ with_id
          (flag_agrees seq_param s) idr.there in
      let counted = with_counts nal_unit_type pic_param seq_param s with_id in
      let last =
        read_redundant_pic_cnt-Yields nal_unit_type pic_param seq_param s range counts.after more
          counted counts.there in
      rw number.succeeds (rw flags.succeeds (rw idr.succeeds (rw counts.succeeds last)))
