-- ===== src/Nal/Params.antt =====
-- The "dictionaries" of picture and of sequence parameter sets in include/nalunit.h. An id is compared
-- as an unsigned number.
use mts_utils.Base.{ℕ, suc, ◌==◌, if◌then◌else◌, List, get_or, set, replicate, Option, none, some}
use mts_utils.Base.Outcome.{Outcome, ok, err, fault, ◌>>=◌}
use mts_utils.Arrays.{search_loop}
use mts_utils.Nal.{NalUnit, NalInnards, NalPicParamData, NalSeqParamData, unset, pic, seq}

-- `last` is `last_id` with `last_index`, `none` where both are -1.
pub record ParamDict : Type 0 where
  pub last : Option (ℕ × ℕ)
  pub ids : List ℕ
  pub params : List NalInnards
  pub posns : List ℕ
  pub data_lens : List ℕ
  pub size : ℕ
  pub length : ℕ

abbrev pub nal_pic_param_start_size : ℕ
nal_pic_param_start_size = 20

unfoldable pub build_param_dict : ParamDict
build_param_dict = record {
  last = none;
  ids = replicate nal_pic_param_start_size 0;
  params = replicate nal_pic_param_start_size unset;
  posns = replicate nal_pic_param_start_size 0;
  data_lens = replicate nal_pic_param_start_size 0;
  size = nal_pic_param_start_size;
  length = 0;
}

-- The index in `last`, if its id is this one
unfoldable pub last_with : Option (ℕ × ℕ) → ℕ → Option ℕ
last_with none param_id = none
last_with (some last) param_id = if param_id == last.0 then some last.1 else none

unfoldable pub index_of_id : ParamDict → ℕ → Option ℕ
index_of_id dict param_id = search_loop (λ id. id == param_id) dict.length 0 dict.ids

-- All four arrays at an index
unfoldable pub put_param : ParamDict → ℕ → ℕ → NalUnit → ParamDict
put_param dict ii param_id nal = record dict {
  ids = set dict.ids ii param_id;
  params = set dict.params ii nal.u;
  posns = set dict.posns ii nal.unit.start_posn;
  data_lens = set dict.data_lens ii nal.unit.data_len;
  last = some (param_id, ii);
}

-- The entry that is there is overwritten; the id already is this one.
unfoldable pub renew_param : ParamDict → ℕ → ℕ → NalUnit → ParamDict
renew_param dict ii param_id nal = record dict {
  params = set dict.params ii nal.u;
  posns = set dict.posns ii nal.unit.start_posn;
  data_lens = set dict.data_lens ii nal.unit.data_len;
  last = some (param_id, ii);
}

-- The code that makes full arrays longer gives `params` to realloc for `posns` and `data_lens` too, after
-- realloc was given it before: what follows is undefined.
unfoldable pub append_param : ParamDict → ℕ → NalUnit → Outcome ParamDict
unfolding put_param
append_param dict param_id nal =
    if dict.length == dict.size
    then fault
    else ok (record (put_param dict dict.length param_id nal) { length = suc dict.length })

unfoldable pub remember_param_data : ParamDict → ℕ → NalUnit → Outcome ParamDict
unfolding last_with index_of_id renew_param append_param
remember_param_data dict param_id nal = elim (last_with dict.last param_id) [
  | some ii ↦ ok (record dict { params = set dict.params ii nal.u })
  | none ↦ elim (index_of_id dict param_id) [
    | some ii ↦ ok (renew_param dict ii param_id nal)
    | none ↦ append_param dict param_id nal
  ]
]

-- The data, with the dictionary, whose last one it now is
unfoldable pub lookup_param_data : ParamDict → ℕ → Outcome (NalInnards × ParamDict)
unfolding index_of_id
lookup_param_data dict param_id = elim (index_of_id dict param_id) [
  | none ↦ err
  | some ii ↦ ok (get_or dict.params ii unset, record dict { last = some (param_id, ii) })
]

-- `&(innards->pic)`; another member of the union is taken for a fault.
unfoldable pub get_pic_param_data : ParamDict → ℕ → Outcome (NalPicParamData × ParamDict)
unfolding lookup_param_data
get_pic_param_data dict param_id = lookup_param_data dict param_id >>= λ (innards, after).
    elim innards [ pic p ↦ ok (p, after) | _ ↦ fault ]

unfoldable pub get_seq_param_data : ParamDict → ℕ → Outcome (NalSeqParamData × ParamDict)
unfolding lookup_param_data
get_seq_param_data dict param_id = lookup_param_data dict param_id >>= λ (innards, after).
    elim innards [ seq s ↦ ok (s, after) | _ ↦ fault ]
