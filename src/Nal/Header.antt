-- ===== src/Nal/Header.antt =====
-- A slice of a NAL unit from its bytes on: emulation prevention, parameter sets and the header, through
-- read_rbsp_data of include/nalunit.h.
use mts_utils.Base.{
  ℕ, ◌*◌, ◌<◌, ◌≡◌, ◌≢◌, refl, ap, ◌∙◌, arith, if◌then◌else◌, Bool, true, false, List, [], ◌∷◌,
  ◌++◌, length, length-append, take, Option, none, some,
}
use mts_utils.Base.Outcome.{Outcome, ok}
use mathlib.Core.Path.{subst}
use mts_utils.BitData.{BitData, build_bitdata}
use mts_utils.BitData.Stream.{At, Yields, remaining, bits_of}
use mts_utils.BitData.Codes.{length-bits_of}
use mts_utils.Nal.{
  NalUnit, NalSliceData, NalPicParamData, NalSeqParamData, NalInnards, slice, pic, seq,
  prepare_from, prepare_rbsp, nal_is_slice, remove_emulation_prevention,
}
use mts_utils.Nal.Params.{ParamDict, get_pic_param_data, get_seq_param_data, lookup_param_data}
use mts_utils.Nal.Dict.{IsParamDict, stored, LooksUp, lookup-LooksUp}
use mts_utils.Nal.Slice.{Dicts, slice_before, read_slice_data, find_param_sets}
use mts_utils.Nal.SliceBits.{InRange, slice_bits, with_start, with_rest, read_slice_start-Yields}
use mts_utils.Nal.SliceTrip.{read_slice_rest-Yields}
use mts_utils.Nal.Emulation.{protect, remove_emulation_prevention-protect}
use mts_utils.Nal.Read.{read_innards, read_ready, read_rbsp_data}

pub record AreDicts (dicts : Dicts) : Type 0 where
  pub seq_param_dict : IsParamDict dicts.seq_param_dict
  pub pic_param_dict : IsParamDict dicts.pic_param_dict

-- Dictionaries that hold the parameter sets a slice needs
pub record Holds (dicts : Dicts) (id : ℕ) (pic_param : NalPicParamData)
    (seq_param : NalSeqParamData) : Type 0 where
  pub sound : AreDicts dicts
  pub pic_there : stored dicts.pic_param_dict id ≡ some (pic pic_param)
  pub seq_there : stored dicts.seq_param_dict pic_param.seq_parameter_set_id ≡ some (seq seq_param)

pub record Finds (dicts : Dicts) (pic_param : NalPicParamData) (seq_param : NalSeqParamData)
    (result : Outcome (Option (NalPicParamData × NalSeqParamData) × Dicts)) : Type 0 where
  pub after : Dicts
  pub succeeds : result ≡ ok (some (pic_param, seq_param), after)
  pub sound : AreDicts after

pic_step :
    (dict after : ParamDict) (id : ℕ) (p : NalPicParamData)
    → lookup_param_data dict id ≡ ok (pic p, after)
    → get_pic_param_data dict id ≡ ok (p, after)
unfolding get_pic_param_data
pic_step dict after id p h = rw h refl

seq_step :
    (dict after : ParamDict) (id : ℕ) (q : NalSeqParamData)
    → lookup_param_data dict id ≡ ok (seq q, after)
    → get_seq_param_data dict id ≡ ok (q, after)
unfolding get_seq_param_data
seq_step dict after id q h = rw h refl

find_step :
    (dicts : Dicts) (id : ℕ) (pic_param : NalPicParamData) (seq_param : NalSeqParamData)
    (pic_dict seq_dict : ParamDict)
    → lookup_param_data dicts.pic_param_dict id ≡ ok (pic pic_param, pic_dict)
    → lookup_param_data dicts.seq_param_dict pic_param.seq_parameter_set_id
      ≡ ok (seq seq_param, seq_dict)
    → find_param_sets dicts id
      ≡ ok (
        some (pic_param, seq_param),
        record { seq_param_dict = seq_dict; pic_param_dict = pic_dict },
      )
unfolding find_param_sets
find_step dicts id pic_param seq_param pic_dict seq_dict p q =
    rw (pic_step dicts.pic_param_dict pic_dict id pic_param p, find_param_sets)
      (rw
        (
          seq_step dicts.seq_param_dict seq_dict pic_param.seq_parameter_set_id seq_param q,
          find_param_sets,
        )
        refl)

pub find-Finds :
    (dicts : Dicts) (id : ℕ) (pic_param : NalPicParamData) (seq_param : NalSeqParamData)
    → Holds dicts id pic_param seq_param
    → Finds dicts pic_param seq_param (find_param_sets dicts id)
find-Finds dicts id pic_param seq_param holds =
    let seq_id = pic_param.seq_parameter_set_id in
    let (pic_dict, pic_found, pic_good, pic_same) =
      subst
        (λ (t : Option NalInnards).
          LooksUp dicts.pic_param_dict id t (lookup_param_data dicts.pic_param_dict id))
        holds.pic_there (lookup-LooksUp dicts.pic_param_dict id holds.sound.pic_param_dict) in
    let (seq_dict, seq_found, seq_good, seq_same) =
      subst
        (λ (t : Option NalInnards).
          LooksUp dicts.seq_param_dict seq_id t (lookup_param_data dicts.seq_param_dict seq_id))
        holds.seq_there (lookup-LooksUp dicts.seq_param_dict seq_id holds.sound.seq_param_dict) in
    record {
      after = record { seq_param_dict = seq_dict; pic_param_dict = pic_dict };
      succeeds = find_step dicts id pic_param seq_param pic_dict seq_dict pic_found seq_found;
      sound = record { seq_param_dict = seq_good; pic_param_dict = pic_good };
    }

build-At : (bytes : List ℕ) → 0 < length bytes → At (build_bitdata bytes) (bits_of bytes)
unfolding build_bitdata remaining
build-At [] h = absurd (omega (arith, h))
build-At (b ∷ bytes) h = record { inside = omega arith; in_byte = omega arith; rest = refl }

code_not_empty : (zeros digits more : List ℕ) → 0 < length ((zeros ++ 1 ∷ digits) ++ more)
code_not_empty zeros digits more =
    omega (arith, length-append (zeros ++ 1 ∷ digits) more, length-append zeros (1 ∷ digits))

-- What there is of a slice, from the start of its header on
module _ (nal_unit_type : ℕ) (pic_param : NalPicParamData) (seq_param : NalSeqParamData)
    (s : NalSliceData) where
  abbrev pub with_slice : NalSliceData → NalSliceData
  with_slice before =
      with_rest nal_unit_type pic_param seq_param s
        (with_start nal_unit_type pic_param seq_param s before)

  bits-At :
      (payload more : List ℕ)
      → bits_of payload ≡ slice_bits nal_unit_type pic_param seq_param s more
      → At (build_bitdata payload) (slice_bits nal_unit_type pic_param seq_param s more)
  bits-At payload more e =
      let some_bits : 0 < length (slice_bits nal_unit_type pic_param seq_param s more) =
        code_not_empty _ _ _ in
      let long : length (bits_of payload) ≡ 8 * length payload = length-bits_of payload in
      subst (At (build_bitdata payload)) e
        (build-At payload (omega (arith, some_bits, long, ap length e)))

-- A slice that is read, with dictionaries that stay sound
pub record ReadsSlice (nal : NalUnit) (s : NalSliceData)
    (result : Outcome (Option NalUnit × Option Dicts)) : Type 0 where
  pub after : Dicts
  pub succeeds :
      result
      ≡ ok (
        some (record nal { u = slice s; decoded = true; rbsp = none; bit_data = none }),
        some after,
      )
  pub sound : AreDicts after

module _ (nal_unit_type : ℕ) (dicts : Dicts) (pic_param : NalPicParamData)
    (seq_param : NalSeqParamData) (s : NalSliceData)
    (holds : Holds dicts s.pic_parameter_set_id pic_param seq_param) (range : InRange seq_param s)
    (before : NalSliceData) (bd : BitData) (more : List ℕ) where
  pub read_slice_data-Yields :
      At bd (slice_bits nal_unit_type pic_param seq_param s more)
      → Yields
          (read_slice_data nal_unit_type before (some dicts) bd)
          (
            some (with_slice nal_unit_type pic_param seq_param s before, true),
            some (find-Finds dicts s.pic_parameter_set_id pic_param seq_param holds).after,
          )
          more
  unfolding read_slice_data
  read_slice_data-Yields here =
      let start =
        read_slice_start-Yields nal_unit_type pic_param seq_param s range before bd more here in
      let sets = find-Finds dicts s.pic_parameter_set_id pic_param seq_param holds in
      let rest =
        read_slice_rest-Yields nal_unit_type pic_param seq_param s range start.after more
          (with_start nal_unit_type pic_param seq_param s before) start.there in
      rw start.succeeds (
        rw sets.succeeds
          (rw rest.succeeds (record { after = rest.after; succeeds = refl; there = rest.there })))

module _ (nal : NalUnit) (head : ℕ) (payload : List ℕ) where
  ready_lem :
      nal.bit_data ≡ none
      → nal.rbsp ≡ none
      → head ≢ 0
      → take nal.data_len nal.bytes ≡ head ∷ protect head 1 payload
      → prepare_rbsp nal
        ≡ record nal { rbsp = some payload; bit_data = some (build_bitdata payload) }
  unfolding prepare_rbsp prepare_from
  ready_lem no_bits no_rbsp not_zero bytes =
      let plain : remove_emulation_prevention (take nal.data_len nal.bytes) ≡ payload =
        ap remove_emulation_prevention bytes
        ∙ (remove_emulation_prevention-protect head payload not_zero).0 in
      ap (λ (t : Option BitData). prepare_from nal t nal.rbsp) no_bits
      ∙ ap (λ (t : Option (List ℕ)). prepare_from nal none t) no_rbsp
      ∙ ap (λ (t : List ℕ). record nal { rbsp = some t; bit_data = some (build_bitdata t) }) plain

innards_step :
    (nal : NalUnit) (dicts : Option Dicts) (bd after : BitData) (s : NalSliceData)
    (dicts_after : Option Dicts)
    → nal_is_slice nal ≡ true
    → read_slice_data nal.nal_unit_type (slice_before nal.u) dicts bd
      ≡ ok ((some (s, true), dicts_after), after)
    → read_innards nal dicts bd ≡ ok ((some (slice s, true), dicts_after), after)
unfolding read_innards nal_is_slice
innards_step nal dicts bd after s dicts_after is_slice h = rw is_slice (rw h refl)

ready_step :
    (ready : NalUnit) (dicts : Option Dicts) (bd after : BitData) (u : NalInnards)
    (dicts_after : Option Dicts)
    → read_innards ready dicts bd ≡ ok ((some (u, true), dicts_after), after)
    → read_ready ready dicts (some bd)
      ≡ ok
          (some (record ready { u = u; decoded = true; rbsp = none; bit_data = none }), dicts_after)
unfolding read_ready
ready_step ready dicts bd after u dicts_after h = rw h refl

module _ (nal : NalUnit) (head : ℕ) (payload more : List ℕ) (dicts : Dicts)
    (pic_param : NalPicParamData) (seq_param : NalSeqParamData) (s : NalSliceData) where
  -- A NAL unit for a slice, not decoded yet, whose data is a head other than 0 and a payload
  -- with emulation prevention, is given with sound dictionaries that hold the picture parameter
  -- set of the slice and the sequence parameter set of that. If the bits of the payload are a
  -- slice header, with numbers that fit their codes, in the syntax of H.264, and anything
  -- behind it, read_rbsp_data succeeds, the dictionaries stay sound, and the unit is decoded:
  -- its fields are those of the header, and a field that the syntax leaves out is 0 or absent,
  -- but for the IDR picture id and the low bits of the order count, which stay as they were.
  pub read_rbsp_data-ReadsSlice :
      nal.decoded ≡ false
      → nal.bit_data ≡ none
      → nal.rbsp ≡ none
      → nal_is_slice nal ≡ true
      → head ≢ 0
      → take nal.data_len nal.bytes ≡ head ∷ protect head 1 payload
      → Holds dicts s.pic_parameter_set_id pic_param seq_param
      → InRange seq_param s
      → bits_of payload ≡ slice_bits nal.nal_unit_type pic_param seq_param s more
      → ReadsSlice nal
          (with_slice nal.nal_unit_type pic_param seq_param s (slice_before nal.u))
          (read_rbsp_data nal (some dicts))
  unfolding read_rbsp_data nal_is_slice
  read_rbsp_data-ReadsSlice undecoded no_bits no_rbsp is_slice not_zero bytes holds range bits =
      let kind = nal.nal_unit_type in
      let bd = build_bitdata payload in
      let ready = record nal { rbsp = some payload; bit_data = some bd } in
      let before = slice_before nal.u in
      let read =
        read_slice_data-Yields kind dicts pic_param seq_param s holds range before bd more
          (bits-At kind pic_param seq_param s payload more bits) in
      let sets = find-Finds dicts s.pic_parameter_set_id pic_param seq_param holds in
      let known = with_slice kind pic_param seq_param s before in
      record {
        after = sets.after;
        succeeds =
            ap
              (λ (t : Bool).
                if t
                then ok (some nal, some dicts)
                else read_ready (prepare_rbsp nal) (some dicts) (prepare_rbsp nal).bit_data)
              undecoded
            ∙ ap (λ (t : NalUnit). read_ready t (some dicts) t.bit_data)
                (ready_lem nal head payload no_bits no_rbsp not_zero bytes)
            ∙ ready_step ready (some dicts) bd read.after (slice known) (some sets.after) (
                innards_step ready (some dicts) bd read.after known (some sets.after) is_slice
                  read.succeeds);
        sound = sets.sound;
      }
