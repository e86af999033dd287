-- ===== src/Nal/Next.antt =====
-- The next NAL unit of an elementary stream: find_next_NAL_unit and check_profile of include/nalunit.h.
use mts_utils.Base.{ℕ, suc, if◌then◌else◌, ◌&&◌, Bool, false, none, some}
use mts_utils.Base.Outcome.{Outcome, ok, fault, ◌>>=◌}
use mts_utils.Es.{Es, Input, EsUnit, find_next_es_unit, at_eof, found}
use mts_utils.Nal.{
  NalUnit, build_nal_unit, setup_nal_data, nal_is_pic_param_set, nal_is_seq_param_set, seq, pic,
}
use mts_utils.Nal.Params.{build_param_dict, remember_param_data}
use mts_utils.Nal.Slice.{Dicts}
use mts_utils.Nal.Read.{read_rbsp_data}

-- With the reads to come, and the static `need_first_seq_param_set`
pub record NalUnitContext : Type 0 where
  pub es : Es
  pub input : Input
  pub need_first_seq_param_set : Bool
  pub count : ℕ
  pub dicts : Dicts

unfoldable pub build_nal_unit_context : Es → Input → Bool → NalUnitContext
unfolding build_param_dict
build_nal_unit_context es input need_first = record {
  es = es;
  input = input;
  need_first_seq_param_set = need_first;
  count = 0;
  dicts = record { seq_param_dict = build_param_dict; pic_param_dict = build_param_dict };
}

-- The statuses 0, EOF and 2; 1 is `err`.
pub data NextNal : Type 0 where
  next_nal : NalUnit → NalUnitContext → NextNal
  no_more : NalUnitContext → NextNal
  not_understood : NalUnitContext → NextNal

-- What check_profile does to a sequence parameter set, besides the messages: it is read without the
-- parameter sets, and stays as it was where that fails.
unfoldable pub check_profile : NalUnit → Outcome NalUnit
unfolding read_rbsp_data
check_profile nal =
    read_rbsp_data nal none >>= λ (read, _). elim read [ none ↦ ok nal | some done ↦ ok done ]

unfoldable pub check_first : NalUnit → NalUnitContext → Outcome (NalUnit × NalUnitContext)
unfolding nal_is_seq_param_set check_profile
check_first nal context =
    if nal_is_seq_param_set nal && context.need_first_seq_param_set
    then (check_profile nal >>= λ checked.
        ok (checked, record context { need_first_seq_param_set = false }))
    else ok (nal, context)

-- Parameter sets are remembered, by their own id.
unfoldable pub remember_params : NalUnit → Dicts → Outcome Dicts
unfolding nal_is_pic_param_set nal_is_seq_param_set remember_param_data
remember_params nal dicts =
    if nal_is_pic_param_set nal
    then elim nal.u [
      | pic p ↦
          (remember_param_data dicts.pic_param_dict p.pic_parameter_set_id nal >>= λ after.
          ok (record dicts { pic_param_dict = after }))
      | _ ↦ fault
    ]
    else if nal_is_seq_param_set nal
    then elim nal.u [
      | seq s ↦
          (remember_param_data dicts.seq_param_dict s.seq_parameter_set_id nal >>= λ after.
          ok (record dicts { seq_param_dict = after }))
      | _ ↦ fault
    ]
    else ok dicts

-- What is made of a unit that was read
unfoldable pub interpret_unit : EsUnit → NalUnitContext → Outcome NextNal
unfolding build_nal_unit setup_nal_data check_first read_rbsp_data remember_params
interpret_unit unit context = do
  nal ← setup_nal_data (record build_nal_unit { unit = unit })
  (checked, looked) ← check_first nal context
  (read, dicts) ← read_rbsp_data checked (some looked.dicts)
  elim dicts [
    | none ↦ fault
    | some known ↦ elim read [
      | none ↦ ok (not_understood (record looked { dicts = known }))
      | some done ↦
          (remember_params done known >>= λ remembered.
          ok (next_nal done (record looked { dicts = remembered })))
    ]
  ]

unfoldable pub find_next_nal_unit : NalUnitContext → Outcome NextNal
unfolding find_next_es_unit build_nal_unit interpret_unit
find_next_nal_unit context =
    find_next_es_unit context.es context.input build_nal_unit.unit >>= λ started. elim started [
      | at_eof es input ↦ ok (no_more (record context { es = es; input = input }))
      | found es input unit ↦
          interpret_unit unit (record context { es = es; input = input; count = suc context.count })
    ]
