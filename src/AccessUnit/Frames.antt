-- ===== src/AccessUnit/Frames.antt =====
-- What is asked of an access unit, and frames made of fields: include/accessunit.h. No reverse data is kept
-- with the context.
use mts_utils.Base.{
  ℕ, zero, suc, ◌+◌, ◌%◌, ◌^◌, ◌==◌, if◌then◌else◌, ◌&&◌, ◌||◌, Bool, true, false, not, List, [],
  ◌∷◌, ◌++◌, length, Option, none, some,
}
use mts_utils.Base.Outcome.{Outcome, ok, err, fault, ◌>>=◌}
use mts_utils.Nal.{NalUnit, nal_is_slice, slice_of}
use mts_utils.AccessUnit.{AccessUnit, AccessUnitContext, NalRead, get_next_access_unit}

unfoldable pub num_slices : List NalUnit → ℕ
num_slices [] = 0
num_slices (nal ∷ nals) = if nal_is_slice nal then suc (num_slices nals) else num_slices nals

-- The place of the first unit in the file, and the number of bytes of all
unfoldable pub total_length : List NalUnit → ℕ
total_length [] = 0
total_length (nal ∷ nals) = (nal.unit.data_len + total_length nals) % 2 ^ 32

unfoldable pub get_access_unit_bounds : AccessUnit → Outcome (ℕ × ℕ)
get_access_unit_bounds access_unit = elim access_unit.primary_start [
  | none ↦ err
  | some start ↦ elim access_unit.nal_units [
    | [] ↦ fault
    | first ∷ rest ↦ ok (first.unit.start_posn, total_length (first ∷ rest))
  ]
]

-- Are there only slices of these kinds?
unfoldable pub only_slices : (ℕ → Bool) → List NalUnit → Outcome Bool
only_slices kinds [] = ok true
only_slices kinds (nal ∷ nals) =
    let rest = only_slices kinds nals in
    if nal_is_slice nal
    then (slice_of nal >>= λ s. if kinds s.slice_type then rest else ok false)
    else rest

-- A kind that the first slice states for all slices, one that holds for it alone, and those that all may have
unfoldable pub all_slices : (ℕ → Bool) → (ℕ → Bool) → (ℕ → Bool) → AccessUnit → Outcome Bool
all_slices for_all for_one kinds access_unit = elim access_unit.primary_start [
  | none ↦ ok false
  | some start ↦
      if not (nal_is_slice start)
      then ok false
      else (slice_of start >>= λ s.
          if for_all s.slice_type
          then ok true
          else if (num_slices access_unit.nal_units == 1) && for_one s.slice_type
          then ok true
          else only_slices kinds access_unit.nal_units)
]

abbrev pub is_kind : ℕ → ℕ → Bool
is_kind kind slice_type = slice_type == kind

unfoldable pub all_slices_i : AccessUnit → Outcome Bool
all_slices_i = all_slices (is_kind 7) (is_kind 2) (is_kind 2)

unfoldable pub all_slices_p : AccessUnit → Outcome Bool
all_slices_p = all_slices (is_kind 5) (is_kind 0) (is_kind 0)

unfoldable pub all_slices_b : AccessUnit → Outcome Bool
all_slices_b = all_slices (is_kind 6) (is_kind 1) (is_kind 1)

unfoldable pub all_slices_i_or_p : AccessUnit → Outcome Bool
all_slices_i_or_p =
    all_slices (λ kind. kind == 2 || kind == 0) (λ kind. kind == 7 || kind == 5)
      (λ kind. kind == 2 || kind == 0)

unfoldable pub merge_access_unit_nals : AccessUnit → AccessUnit → AccessUnit
merge_access_unit_nals first second = record first {
  nal_units = first.nal_units ++ second.nal_units;
  ignored_broken_nal_units = first.ignored_broken_nal_units + second.ignored_broken_nal_units;
  field_pic_flag = 0;
}

-- An access unit or EOF, the context after it, and the calls still to come
abbrev pub Found : Type 0
Found = Option AccessUnit × AccessUnitContext × List NalRead

-- A call that gives no more data comes after one for each unit at most; without fuel it is a fault.
unfoldable pub non_empty_loop : ℕ → AccessUnitContext → List NalRead → Outcome Found
non_empty_loop zero context reads = fault
non_empty_loop (suc fuel) context reads =
    get_next_access_unit context reads >>= λ (found, after, more). elim found [
      | none ↦ ok (none, after, more)
      | some access_unit ↦ elim access_unit.primary_start [
        | none ↦ non_empty_loop fuel after more
        | some start ↦ ok (some access_unit, after, more)
      ]
    ]

unfoldable pub get_next_non_empty_access_unit : AccessUnitContext → List NalRead → Outcome Found
get_next_non_empty_access_unit context reads =
    non_empty_loop (suc (suc (length reads))) context reads

-- What is done where the frame numbers differ is a parameter.
unfoldable pub second_field :
    (AccessUnit → AccessUnitContext → List NalRead → Outcome Found)
    → AccessUnit
    → AccessUnitContext
    → List NalRead
    → Outcome Found
second_field differ access_unit context reads =
    get_next_non_empty_access_unit context reads >>= λ (found, after, more). elim found [
      | none ↦ ok (none, after, more)
      | some second ↦
          if second.field_pic_flag == 0
          then ok (some second, after, more)
          else if access_unit.frame_num == second.frame_num
          then ok (some (merge_access_unit_nals access_unit second), after, more)
          else differ second after more
    ]

-- `if (err) return 1;`, with EOF among the errors
unfoldable pub or_error : Outcome Found → Outcome Found
or_error result = result >>= λ (found, after, more). elim found [
  | none ↦ err
  | some access_unit ↦ ok (some access_unit, after, more)
]

-- With `first_time`, a second field that does not match is taken for the first.
unfoldable pub get_next_field_of_pair :
    Bool → AccessUnit → AccessUnitContext → List NalRead → Outcome Found
get_next_field_of_pair false = second_field (λ second after more. err)
get_next_field_of_pair true =
    second_field
      (λ second after more. or_error (second_field (λ third last rest. err) second after more))

unfoldable pub get_next_h264_frame : AccessUnitContext → List NalRead → Outcome Found
get_next_h264_frame context reads =
    get_next_non_empty_access_unit context reads >>= λ (found, after, more). elim found [
      | none ↦ ok (none, after, more)
      | some access_unit ↦
          if access_unit.field_pic_flag == 1
          then or_error (get_next_field_of_pair true access_unit after more)
          else ok (some access_unit, after, more)
    ]
