-- ===== src/PidintList.antt =====
-- Lists of PID and integer pairs, the first half of include/pidint.h. A list is two arrays of
-- `size` cells with `length` entries in use. A null pointer is `none`. Memory is taken to suffice,
-- and what malloc leaves in a fresh cell, which is not read before it is written, is a 0. An entry's
-- `int` is only stored and compared, so a number stands for its bits.
pub mod Laws
pub mod Same
mod Runs
use mts_utils.Base.{ℕ, zero, suc, ◌+◌, ◌-◌, ◌*◌, ◌≤◌, ◌<◌, ◌≡◌, ◌==◌, if◌then◌else◌, not}
use mts_utils.Base.{List, [], ◌∷◌, ◌++◌, get_or, set, replicate, Bool, true, false}
use mts_utils.Base.{Option, none, some}
use mts_utils.Base.Outcome.{Outcome, ok, err}
use mts_utils.Arrays.{search_loop, close_gap}

pub record PidintList : Type 0 where
  pub number : List ℕ
  pub pid : List ℕ
  pub length : ℕ
  pub size : ℕ

abbrev pub pidint_list_start_size : ℕ
pidint_list_start_size = 5

abbrev pub pidint_list_increment : ℕ
pidint_list_increment = 10

-- init_pidint_list, which build_pidint_list calls on a fresh structure.
unfoldable pub build_pidint_list : PidintList
build_pidint_list = record {
  number = replicate pidint_list_start_size 0;
  pid = replicate pidint_list_start_size 0;
  length = 0;
  size = pidint_list_start_size;
}

-- realloc of both arrays, where they are full
unfoldable pub extend_if_full : PidintList → PidintList
extend_if_full list =
    if list.length == list.size
    then record list {
      number = list.number ++ replicate pidint_list_increment 0;
      pid = list.pid ++ replicate pidint_list_increment 0;
      size = list.size + pidint_list_increment;
    }
    else list

-- the three statements behind it
unfoldable pub store_pair : PidintList → ℕ → ℕ → PidintList
store_pair list pid program = record list {
  number = set list.number list.length program;
  pid = set list.pid list.length pid;
  length = suc list.length;
}

unfoldable pub append_to_pidint_list : Option PidintList → ℕ → ℕ → Outcome PidintList
unfolding extend_if_full store_pair
append_to_pidint_list none pid program = err
append_to_pidint_list (some list) pid program = ok (store_pair (extend_if_full list) pid program)

-- `none` is -1
unfoldable pub pid_index_in_pidint_list : Option PidintList → ℕ → Option ℕ
pid_index_in_pidint_list none pid = none
pid_index_in_pidint_list (some list) pid = search_loop (λ p. p == pid) list.length 0 list.pid

-- the loop that moves the entries behind `index` down, and `(list->length)--`
unfoldable pub close_entry : PidintList → ℕ → PidintList
close_entry list index = record list {
  number = close_gap (list.length - 1 - index) index list.number;
  pid = close_gap (list.length - 1 - index) index list.pid;
  length = list.length - 1;
}

unfoldable pub remove_from_pidint_list : Option PidintList → ℕ → Outcome PidintList
unfolding close_entry
remove_from_pidint_list none pid = err
remove_from_pidint_list (some list) pid = elim (pid_index_in_pidint_list (some list) pid) [
  | none ↦ err
  | some index ↦ ok (close_entry list index)
]

-- `none` is -1, and nothing in `*number`; a place that is found is inside the array `number`.
unfoldable pub pid_int_in_pidint_list : Option PidintList → ℕ → Option ℕ
pid_int_in_pidint_list none pid = none
pid_int_in_pidint_list (some list) pid = elim (search_loop (λ p. p == pid) list.length 0 list.pid) [
  | none ↦ none
  | some ii ↦ some (get_or list.number ii 0)
]

unfoldable pub pid_in_pidint_list : Option PidintList → ℕ → Bool
unfolding pid_index_in_pidint_list
pid_in_pidint_list list pid = elim (pid_index_in_pidint_list list pid) [
  | none ↦ false
  | some ii ↦ true
]

-- The loop of same_pidint_list, with `left` rounds to go.
unfoldable pub same_loop : ℕ → ℕ → PidintList → PidintList → Bool
same_loop zero ii list1 list2 = true
same_loop (suc left) ii list1 list2 =
    let rest = same_loop left (suc ii) list1 list2 in
    elim (pid_index_in_pidint_list (some list2) (get_or list1.pid ii 0)) [
      | none ↦ false
      | some idx ↦
          if not (get_or list1.number ii 0 == get_or list2.number idx 0) then false else rest
    ]

-- `same_pointer` says that both arguments are one pointer.
unfoldable pub same_pidint_list : Bool → Option PidintList → Option PidintList → Bool
unfolding same_loop
same_pidint_list true list1 list2 = true
same_pidint_list false none list2 = false
same_pidint_list false (some list1) none = false
same_pidint_list false (some list1) (some list2) =
    if not (list1.length == list2.length) then false else same_loop list1.length 0 list1 list2
