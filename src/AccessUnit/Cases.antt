-- ===== src/AccessUnit/Cases.antt =====
-- The kinds of NAL units in the loop of get_next_access_unit (include/accessunit.h), one by one.
use mts_utils.Base.{
  ℕ, ◌≡◌, inl, inr, refl, sym, ap, ◌∙◌, arith, ◌==◌, if◌then◌else◌, Bool, true, false, Bool-cases,
  List, [], ◌∷◌, ◌++◌, Option, some,
}
use mts_utils.Base.Outcome.{ok}
use mathlib.Core.Path.{subst}
use mathlib.Core.List.{append_assoc, append-nil, map-append}
use mts_utils.Nal.{NalUnit, NalSliceData, nal_is_slice, slice_of, first_of_unit}
use mts_utils.Nal.First.{nal_is_first_vcl_nal, nal_is_redundant}
use mts_utils.AccessUnit.{
  AccessUnit, AccessUnitContext, go, stop, append_to_nal_unit_list, remember_earlier_primary_start,
  no_pending, first_slice_of, later_slice, hold_nal, take_sei, is_held, take_nal,
}
use mts_utils.AccessUnit.Kept.{bytes_of, one_or_none, IsOrdinary, IsSliceOrNone, first-Looked}
use mts_utils.AccessUnit.Takes.{
  InLoop, had, Takes, goes, stops, append_start-Appends, append_later-Appends, moved_in, held_back,
}
use mts_utils.Es.{EsUnit}

module _ (context : AccessUnitContext) (access_unit : AccessUnit) (nal : NalUnit)
    (loop : InLoop context) where
  had_now :
      had context access_unit
      ≡ bytes_of access_unit.nal_units ++ bytes_of (context.pending_list ++ [])
  had_now =
      ap
        (λ (t : Option NalUnit).
          bytes_of access_unit.nal_units ++ bytes_of (context.pending_list ++ one_or_none t))
        loop.none_pending

  -- A unit put behind those pending, in the access unit
  had_moved :
      (longer : AccessUnit)
      → longer.nal_units ≡ access_unit.nal_units ++ (context.pending_list ++ nal ∷ [])
      → had (no_pending context) longer ≡ had context access_unit ++ nal.unit ∷ []
  had_moved longer units =
      ap (λ (t : Option NalUnit). bytes_of longer.nal_units ++ bytes_of ([] ++ one_or_none t))
        loop.none_pending
      ∙ ap (λ (t : List NalUnit). bytes_of t ++ bytes_of ([] ++ [])) units
      ∙ moved_in access_unit.nal_units context.pending_list nal
      ∙ ap (λ (t : List EsUnit). t ++ nal.unit ∷ []) (sym had_now)

  -- A unit put behind those pending, in the context
  had_held : had (hold_nal context nal) access_unit ≡ had context access_unit ++ nal.unit ∷ []
  unfolding hold_nal append_to_nal_unit_list
  had_held =
      ap
        (λ (t : Option NalUnit).
          bytes_of access_unit.nal_units
          ++ bytes_of ((context.pending_list ++ nal ∷ []) ++ one_or_none t))
        loop.none_pending
      ∙ held_back access_unit.nal_units context.pending_list nal
      ∙ ap (λ (t : List EsUnit). t ++ nal.unit ∷ []) (sym had_now)

  had_kept :
      had (record context { pending_nal = some nal }) access_unit
      ≡ had context access_unit ++ nal.unit ∷ []
  had_kept =
      (let same : bytes_of access_unit.nal_units ++ bytes_of (context.pending_list ++ nal ∷ [])
            ≡ (bytes_of access_unit.nal_units ++ bytes_of (context.pending_list ++ []))
              ++ nal.unit ∷ [] =
          simp (map-append, append_assoc, append-nil) in
        same)
      ∙ ap (λ (t : List EsUnit). t ++ nal.unit ∷ []) (sym had_now)

  hold-InLoop : InLoop (hold_nal context nal)
  unfolding hold_nal
  hold-InLoop = record {
    more_data = loop.more_data;
    none_pending = loop.none_pending;
    earlier = loop.earlier;
  }

held_tests : (kind : ℕ) → is_held kind ≡ true → ((kind == 9) ≡ false) × ((kind == 6) ≡ false)
held_tests kind h = (ground arith, ground arith)

sei_tests : (kind : ℕ) → kind ≡ 6 → ((kind == 9) ≡ false) × ((kind == 6) ≡ true)
sei_tests kind h = (ground arith, ground arith)

module _ (context : AccessUnitContext) (access_unit : AccessUnit) (nal : NalUnit)
    (loop : InLoop context) where
  first_slice-Takes :
      (s : NalSliceData)
      → access_unit.started_primary_picture ≡ false
      → slice_of nal ≡ ok s
      → Takes context access_unit nal (first_slice_of context access_unit nal)
  unfolding first_slice_of remember_earlier_primary_start
  first_slice-Takes s not_started h =
      let reason = record nal { start_reason = some first_of_unit } in
      let longer = append_start-Appends access_unit reason s context.pending_list not_started h in
      goes (remember_earlier_primary_start (no_pending context) reason) longer.longer
        (rw longer.succeeds refl)
        (record { more_data = loop.more_data; none_pending = loop.none_pending; earlier = (s, h) })
        (had_moved context access_unit reason loop longer.longer longer.units)

  -- It starts the next access unit.
  later_starts :
      (s : NalSliceData) (looked : NalUnit)
      → nal_is_first_vcl_nal nal context.earlier_primary_start ≡ ok (true, looked)
      → looked.unit ≡ nal.unit
      → slice_of looked ≡ ok s
      → Takes context access_unit nal (later_slice context access_unit nal)
  unfolding later_slice remember_earlier_primary_start
  later_starts s looked first same_unit h =
      stops (record (remember_earlier_primary_start context looked) { pending_nal = some looked })
        access_unit (rw first refl) loop.more_data (s, h) (s, h)
        (had_kept context access_unit looked loop
          ∙ ap (λ (t : EsUnit). had context access_unit ++ t ∷ []) same_unit)

  later_belongs :
      (looked : NalUnit)
      → nal_is_first_vcl_nal nal context.earlier_primary_start ≡ ok (false, looked)
      → looked.unit ≡ nal.unit
      → nal_is_redundant looked ≡ ok false
      → Takes context access_unit nal (later_slice context access_unit nal)
  unfolding later_slice
  later_belongs looked first same_unit needed =
      let longer = append_later-Appends access_unit looked context.pending_list in
      goes (no_pending context) longer.longer (rw first (rw needed (rw longer.succeeds refl)))
        (record {
          more_data = loop.more_data;
          none_pending = loop.none_pending;
          earlier = loop.earlier;
        })
        (had_moved context access_unit looked loop longer.longer longer.units
          ∙ ap (λ (t : EsUnit). had context access_unit ++ t ∷ []) same_unit)

  later_slice-Takes :
      (s : NalSliceData)
      → slice_of nal ≡ ok s
      → nal.decoded ≡ true
      → nal.starts_picture_decided ≡ false
      → nal_is_redundant nal ≡ ok false
      → Takes context access_unit nal (later_slice context access_unit nal)
  later_slice-Takes s h decoded undecided needed =
      let look =
        first-Looked nal context.earlier_primary_start s decoded undecided h loop.earlier in
      elim (Bool-cases look.first) [
        | inl e ↦
            later_starts s look.looked (look.succeeds ∙ ap (λ (t : Bool). ok (t, look.looked)) e)
              look.same_unit (look.same_slice ∙ h)
        | inr e ↦
            later_belongs look.looked (look.succeeds ∙ ap (λ (t : Bool). ok (t, look.looked)) e)
              look.same_unit (look.same_redundant ∙ needed)
      ]

  sei-Takes : Takes context access_unit nal (ok (take_sei context access_unit nal))
  unfolding take_sei hold_nal
  sei-Takes = elim (Bool-cases access_unit.started_primary_picture) [
    | inl started ↦
        stops (hold_nal context nal) access_unit
          (ap
            (λ (t : Bool). ok (
              if t
              then stop (hold_nal context nal) access_unit
              else go (hold_nal context nal) access_unit))
            started)
          loop.more_data (subst IsSliceOrNone (sym loop.none_pending) tt)
          (hold-InLoop context access_unit nal loop).earlier (had_held context access_unit nal loop)
    | inr not_started ↦
        goes (hold_nal context nal) access_unit
          (ap
            (λ (t : Bool). ok (
              if t
              then stop (hold_nal context nal) access_unit
              else go (hold_nal context nal) access_unit))
            not_started)
          (hold-InLoop context access_unit nal loop) (had_held context access_unit nal loop)
  ]

  slice-Takes :
      (s : NalSliceData)
      → nal_is_slice nal ≡ true
      → slice_of nal ≡ ok s
      → nal.decoded ≡ true
      → nal.starts_picture_decided ≡ false
      → nal_is_redundant nal ≡ ok false
      → Takes context access_unit nal (take_nal context access_unit nal)
  unfolding take_nal
  slice-Takes s is_slice h decoded undecided needed =
      let choice = λ (t : Bool).
        if t then later_slice context access_unit nal else first_slice_of context access_unit nal in
      let taken : take_nal context access_unit nal ≡ choice access_unit.started_primary_picture =
        rw is_slice refl in
      subst (Takes context access_unit nal) (sym taken)
        (elim (Bool-cases access_unit.started_primary_picture) [
          | inl started ↦
              subst (Takes context access_unit nal) (sym (ap choice started))
                (later_slice-Takes s h decoded undecided needed)
          | inr not_started ↦
              subst (Takes context access_unit nal) (sym (ap choice not_started))
                (first_slice-Takes s not_started h)
        ])

  take_nal-sei :
      nal_is_slice nal ≡ false
      → nal.nal_unit_type ≡ 6
      → take_nal context access_unit nal ≡ ok (take_sei context access_unit nal)
  unfolding take_nal
  take_nal-sei other kind =
      let tests = sei_tests nal.nal_unit_type kind in rw other (rw tests.0 (rw tests.1 refl))

  take_nal-hold :
      nal_is_slice nal ≡ false
      → is_held nal.nal_unit_type ≡ true
      → take_nal context access_unit nal ≡ ok (go (hold_nal context nal) access_unit)
  unfolding take_nal
  take_nal-hold other kind =
      let tests = held_tests nal.nal_unit_type kind in
      rw other (rw tests.0 (rw tests.1 (rw kind refl)))

  pub take_nal-Takes :
      IsOrdinary nal → Takes context access_unit nal (take_nal context access_unit nal)
  take_nal-Takes (inl (is_slice, (s, h), decoded, undecided, needed)) =
      slice-Takes s is_slice h decoded undecided needed
  take_nal-Takes (inr (other, inl sei)) =
      subst (Takes context access_unit nal) (sym (take_nal-sei other sei)) sei-Takes
  take_nal-Takes (inr (other, inr held)) =
      goes (hold_nal context nal) access_unit (take_nal-hold other held)
        (hold-InLoop context access_unit nal loop) (had_held context access_unit nal loop)
