-- ===== src/PidintList/Laws.antt =====
-- What the operations do to the entries in use.
use mts_utils.Base.{
  ℕ, zero, suc, ◌+◌, ◌-◌, ◌*◌, ◌≤◌, ◌<◌, ◌≡◌, ◌≢◌, ◌==◌, refl, sym, ap, ◌∙◌, arith, ◌⊎◌,
  Option-cases,
}
use mts_utils.Base.{List, [], ◌∷◌, ◌++◌, get_or, set, take, replicate, Bool, true, false}
use mts_utils.Base.{
  Option, none, some, length-append, length-set, length-take, length-replicate, Bool-cases, inl,
  inr,
}
use mts_utils.Base
use mts_utils.Base.Outcome.{ok, err}
use mts_utils.Arrays.Loops.{
  find_index, find_index-lt, erase_at, erase_at-close_gap, take-set_next, take-grown,
}
use mts_utils.Arrays.Loops.{length-close_gap, search_loop-eq-find_index}
use mts_utils.PidintList.{PidintList, build_pidint_list, extend_if_full, store_pair}
use mts_utils.PidintList.{append_to_pidint_list, pid_index_in_pidint_list, close_entry}
use mts_utils.PidintList.{remove_from_pidint_list}

-- Both arrays have `size` cells, and no more are in use.
pub record IsValid (list : PidintList) : Type 0 where
  pub numbers : Base.length list.number ≡ list.size
  pub pids : Base.length list.pid ≡ list.size
  pub fits : list.length ≤ list.size

-- The entries in use.
abbrev pub pids_of : PidintList → List ℕ
pids_of list = take list.length list.pid

abbrev pub numbers_of : PidintList → List ℕ
numbers_of list = take list.length list.number

-- A new list is valid and holds nothing.
pub build_pidint_list-IsValid : IsValid build_pidint_list × (build_pidint_list.length ≡ 0)
unfolding build_pidint_list
build_pidint_list-IsValid = (record { numbers = refl; pids = refl; fits = omega arith }, refl)

extend_if_full-room :
    (list : PidintList)
    → IsValid list
    → let list' = extend_if_full list in
      IsValid list'
      × (list'.length < list'.size)
      × (list'.length ≡ list.length)
      × (take list.length list'.pid ≡ pids_of list)
      × (take list.length list'.number ≡ numbers_of list)
unfolding extend_if_full
extend_if_full-room list v = ground (
  arith,
  length-append list.number (replicate 10 0),
  length-append list.pid (replicate 10 0),
  take-grown list.length list.pid (replicate 10 0),
  take-grown list.length list.number (replicate 10 0),
)

store_pair-IsValid :
    (list : PidintList) (pid program : ℕ)
    → IsValid list
    → list.length < list.size
    → IsValid (store_pair list pid program)
unfolding store_pair
store_pair-IsValid list pid program v room =
    ground (arith, length-set list.number list.length program, length-set list.pid list.length pid)

stored :
    (cells : List ℕ) (v n m : ℕ) (used : List ℕ)
    → m ≡ n
    → take n cells ≡ used
    → m < Base.length cells
    → take (suc m) (set cells m v) ≡ used ++ v ∷ []
stored cells v n m used same e room =
    take-set_next m cells v room ∙ ap (λ t. t ++ v ∷ []) (ap (λ k. take k cells) same ∙ e)

abbrev pub Appended : PidintList → ℕ → ℕ → PidintList → Type 0
Appended list pid program list' =
    (append_to_pidint_list (some list) pid program ≡ ok list')
    × IsValid list'
    × (pids_of list' ≡ pids_of list ++ pid ∷ [])
    × (numbers_of list' ≡ numbers_of list ++ program ∷ [])

-- Appending to a valid list succeeds, keeps it valid and puts the pair behind its entries, which
-- stay.
pub append_to_pidint_list_lem :
    (list : PidintList) (pid program : ℕ)
    → IsValid list
    → (list' : PidintList) × Appended list pid program list'
unfolding append_to_pidint_list
append_to_pidint_list_lem list pid program v =
    let list' = extend_if_full list in
    let (valid, room, same, pids, numbers) = extend_if_full-room list v in
    (
      store_pair list' pid program,
      (
        refl,
        store_pair-IsValid list' pid program valid room,
        stored list'.pid pid list.length list'.length (pids_of list) same pids
            (omega (arith, valid.pids)),
        stored list'.number program list.length list'.length (numbers_of list) same numbers
            (omega (arith, valid.numbers)),
      ),
    )

-- On a valid list pid_index_in_pidint_list finds the first entry for the PID, or none.
pub pid_index_in_pidint_list_lem :
    (list : PidintList) (pid : ℕ)
    → IsValid list
    → pid_index_in_pidint_list (some list) pid ≡ find_index (λ p. p == pid) (pids_of list)
unfolding pid_index_in_pidint_list
pid_index_in_pidint_list_lem list pid v =
    search_loop-eq-find_index (λ p. p == pid) list.length list.pid (omega arith)

close_entry-IsValid :
    (list : PidintList) (index : ℕ) → IsValid list → IsValid (close_entry list index)
unfolding close_entry
close_entry-IsValid list index v = ground (
  arith,
  length-close_gap (list.length - 1 - index) index list.number,
  length-close_gap (list.length - 1 - index) index list.pid,
)

abbrev pub place_of : PidintList → ℕ → Option ℕ
place_of list pid = find_index (λ p. p == pid) (pids_of list)

abbrev pub Removed : PidintList → ℕ → ℕ → PidintList → Type 0
Removed list pid index list' =
    (place_of list pid ≡ some index)
    × (remove_from_pidint_list (some list) pid ≡ ok list')
    × IsValid list'
    × (pids_of list' ≡ erase_at index (pids_of list))
    × (numbers_of list' ≡ erase_at index (numbers_of list))

abbrev pub LacksPid : PidintList → ℕ → Type 0
LacksPid list pid = (place_of list pid ≡ none) × (remove_from_pidint_list (some list) pid ≡ err)

-- Removing a PID from a valid list is the error if no entry has it; otherwise the first such
-- entry is taken out, the others keep their order, and the list stays valid.
pub remove_from_pidint_list_lem :
    (list : PidintList) (pid : ℕ)
    → IsValid list
    → LacksPid list pid ⊎ ((index : ℕ) × (list' : PidintList) × Removed list pid index list')
unfolding remove_from_pidint_list
remove_from_pidint_list_lem list pid v =
    elim (Option-cases (pid_index_in_pidint_list (some list) pid)) [
      | inl absent ↦ inl (
        sym (pid_index_in_pidint_list_lem list pid v) ∙ absent,
        rw (absent, remove_from_pidint_list),
      )
      | inr (index, found) ↦
          let e : find_index (λ p. p == pid) (pids_of list) ≡ some index =
            sym (pid_index_in_pidint_list_lem list pid v) ∙ found in
          let lt : index < list.length = omega (
            arith,
            length-take list.length list.pid (omega arith),
            find_index-lt (λ p. p == pid) (pids_of list) index e,
          ) in
          inr (
            index,
            close_entry list index,
            (
              e,
              rw (found, remove_from_pidint_list),
              close_entry-IsValid list index v,
              unfold close_entry in erase_at-close_gap list.pid list.length index (omega arith) lt,
              unfold close_entry in
                  erase_at-close_gap list.number list.length index (omega arith) lt,
            ),
          )
    ]
