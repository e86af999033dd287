-- ===== src/PidintList/Runs.antt =====
-- Lists of PID and integer pairs with concrete entries.
use mts_utils.Base.{ℕ, ◌≡◌, ◌↔◌, ◌⊎◌, refl, arith, [], ◌∷◌, false, true, none, some}
use mts_utils.PidintList.{PidintList, append_to_pidint_list, extend_if_full, store_pair}
use mts_utils.PidintList.{pid_int_in_pidint_list, same_pidint_list}
use mts_utils.PidintList.Laws.{IsValid, pids_of, numbers_of, Appended, Removed, LacksPid}
use mts_utils.PidintList.Laws.{append_to_pidint_list_lem, remove_from_pidint_list_lem}
use mts_utils.PidintList.Same.{Covered, pid_int-append_to_pidint_list, same_pidint_list_lem}

abbrev two_programs : PidintList
two_programs = record {
  number = 1 ∷ 2 ∷ 0 ∷ 0 ∷ 0 ∷ [];
  pid = 0x100 ∷ 0x200 ∷ 0 ∷ 0 ∷ 0 ∷ [];
  length = 2;
  size = 5;
}

abbrev two_swapped : PidintList
two_swapped = record {
  number = 2 ∷ 1 ∷ 0 ∷ 0 ∷ 0 ∷ [];
  pid = 0x200 ∷ 0x100 ∷ 0 ∷ 0 ∷ 0 ∷ [];
  length = 2;
  size = 5;
}

abbrev three_programs : PidintList
three_programs = record {
  number = 1 ∷ 2 ∷ 3 ∷ 0 ∷ 0 ∷ [];
  pid = 0x100 ∷ 0x200 ∷ 0x300 ∷ 0 ∷ 0 ∷ [];
  length = 3;
  size = 5;
}

two_programs-IsValid : IsValid two_programs
two_programs-IsValid = record { numbers = refl; pids = refl; fits = omega arith }

two_swapped-IsValid : IsValid two_swapped
two_swapped-IsValid = record { numbers = refl; pids = refl; fits = omega arith }

append_to_pidint_list_example : (list' : PidintList) × Appended two_programs 0x300 3 list'
append_to_pidint_list_example = append_to_pidint_list_lem two_programs 0x300 3 two_programs-IsValid

remove_from_pidint_list_example :
    LacksPid two_programs 0x100
    ⊎ ((index : ℕ) × (list' : PidintList) × Removed two_programs 0x100 index list')
remove_from_pidint_list_example =
    remove_from_pidint_list_lem two_programs 0x100 two_programs-IsValid

pid_int-append_to_pidint_list_example :
    pid_int_in_pidint_list (some three_programs) 0x300
    ≡ elim (pid_int_in_pidint_list (some two_programs) 0x300) [ some m ↦ some m | none ↦ some 3 ]
unfolding append_to_pidint_list extend_if_full store_pair
pid_int-append_to_pidint_list_example =
    pid_int-append_to_pidint_list two_programs three_programs 0x300 3 0x300 two_programs-IsValid
      refl

same_pidint_list_example :
    (same_pidint_list false (some two_programs) (some two_swapped) ≡ true) ↔ (
      (two_programs.length ≡ two_swapped.length)
      × Covered
          (λ pid. pid_int_in_pidint_list (some two_swapped) pid)
          (pids_of two_programs)
          (numbers_of two_programs))
same_pidint_list_example =
    same_pidint_list_lem two_programs two_swapped two_programs-IsValid two_swapped-IsValid
