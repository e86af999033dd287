-- ===== src/Nal/Read.antt =====
-- Reading the innards of NAL units in include/nalunit.h: SEI, and read_rbsp_data, which chooses what is read.
use mts_utils.Base.{
  ℕ, zero, suc, ◌+◌, ◌==◌, if◌then◌else◌, ◌||◌, Bool, true, false, length, Option, none, some,
}
use mts_utils.Base.Outcome
use mts_utils.Base.Outcome.{Outcome, ok, err, fault}
use mts_utils.BitData.{BitData, read_bit, read_bits, read_exp_golomb}
use mts_utils.BitData.Steps.{Reading, pure, ◌>>=◌, field}
use mts_utils.Nal.{
  NalUnit, NalSeiRecoveryData, NalInnards, slice, seq, pic, sei_recovery, prepare_rbsp,
}
use mts_utils.Nal.Slice.{Dicts, slice_before, read_slice_data}
use mts_utils.Nal.Sets.{read_pic_param_set_data, read_seq_param_set_data}

unfoldable pub read_sei_recovery_point : NalSeiRecoveryData → Reading NalSeiRecoveryData
read_sei_recovery_point before = do
  recovery_frame_cnt ← field 0 read_exp_golomb
  exact_match_flag ← field before.exact_match_flag read_bit
  broken_link_flag ← field before.broken_link_flag read_bit
  changing ← field before.changing_slice_group_idc λ bd. read_bits bd 2
  pure (record before {
    recovery_frame_cnt = recovery_frame_cnt;
    exact_match_flag = exact_match_flag;
    broken_link_flag = broken_link_flag;
    changing_slice_group_idc = changing;
  })

-- The loops that add up bytes as long as they are 0xFF, with the sum and the last value of `temp`. A round
-- takes a byte, and the second one behind the end reads outside the data: so do the rounds for which
-- there is no fuel.
unfoldable pub ff_loop : ℕ → ℕ → ℕ → Reading (ℕ × ℕ)
ff_loop zero sum temp = λ bd. fault
ff_loop (suc fuel) sum temp = field temp (λ bd. read_bits bd 8) >>= λ next.
    let rest = ff_loop fuel (sum + 0xFF) next in if next == 0xFF then rest else pure (sum, next)

-- With whether the unit is decoded
unfoldable pub read_sei : Reading (NalSeiRecoveryData × Bool)
unfolding ff_loop read_sei_recovery_point
read_sei bd =
    let fuel = length bd.bytes + 2 in
    (do
      kind ← ff_loop fuel 0 0
      size ← ff_loop fuel 0 kind.1
      let start : NalSeiRecoveryData = record {
        payload_type = kind.0 + kind.1;
        payload_size = size.0 + size.1;
        recovery_frame_cnt = 0;
        exact_match_flag = 0;
        broken_link_flag = 0;
        changing_slice_group_idc = 0;
      }
      if start.payload_type == 6
          then (read_sei_recovery_point start >>= λ point. pure (point, true))
          else pure (start, false))
      bd

-- The innards of a unit with whether they are all read, `none` for the status 1; the kinds
-- that are not looked into stay as they are.
unfoldable pub read_innards :
    NalUnit → Option Dicts → Reading (Option (NalInnards × Bool) × Option Dicts)
read_innards nal dicts =
    if nal.nal_unit_type == 1 || nal.nal_unit_type == 5
    then (do
      read ← read_slice_data nal.nal_unit_type (slice_before nal.u) dicts
      elim read.0 [
        | none ↦ pure (none, read.1)
        | some (s, decoded) ↦ pure (some (slice s, decoded), read.1)
      ])
    else if nal.nal_unit_type == 8
    then (read_pic_param_set_data >>= λ p. pure (some (pic p, true), dicts))
    else if nal.nal_unit_type == 7
    then (read_seq_param_set_data >>= λ read. elim read [
      | none ↦ pure (none, dicts)
      | some s ↦ pure (some (seq s, true), dicts)
    ])
    else if nal.nal_unit_type == 6
    then (read_sei >>= λ (point, decoded). pure (some (sei_recovery point, decoded), dicts))
    else pure (some (nal.u, false), dicts)

-- read_rbsp_data with its bits ready: the unit with its innards, `none` for the status 1. The bytes and bits
-- made for it are freed.
unfoldable pub read_ready :
    NalUnit → Option Dicts → Option BitData → Outcome (Option NalUnit × Option Dicts)
read_ready ready dicts none = fault
read_ready ready dicts (some bd) = Outcome.◌>>=◌ (read_innards ready dicts bd) λ ((read, after), _).
    elim read [
      | none ↦ ok (none, after)
      | some (innards, decoded) ↦ ok (
        some (record ready { u = innards; decoded = decoded; rbsp = none; bit_data = none }),
        after,
      )
    ]

unfoldable pub read_rbsp_data : NalUnit → Option Dicts → Outcome (Option NalUnit × Option Dicts)
read_rbsp_data nal dicts =
    if nal.decoded
    then ok (some nal, dicts)
    else (let ready = prepare_rbsp nal in read_ready ready dicts ready.bit_data)
