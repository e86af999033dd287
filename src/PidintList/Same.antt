-- ===== src/PidintList/Same.antt =====
-- Looking numbers up, and comparing two lists.
use mts_utils.Base
use mts_utils.Base.{ℕ, zero, suc, ◌+◌, ◌-◌, ◌≤◌, ◌<◌, ◌≡◌, ◌==◌, refl, sym, ap, ◌∙◌, arith, ◌↔◌}
use mts_utils.Base.{List, [], ◌∷◌, ◌++◌, get_or, take, drop, Bool, true, false, if◌then◌else◌, not}
use mts_utils.Base.{
  Option, none, some, Option-cases, Bool-cases, inl, inr, drop-eq-cons, get_or-take,
}
use mts_utils.Base.{==_iff, early, length-take}
use mathlib.Core.Option.{some-injective}
use mts_utils.Base.Outcome.{ok}
use mts_utils.Arrays.Loops.{find_index, up_one, find_index-lt}
use mts_utils.PidintList.{PidintList, pid_index_in_pidint_list, pid_int_in_pidint_list}
use mts_utils.PidintList.{append_to_pidint_list, same_loop, same_pidint_list}
use mts_utils.PidintList.Laws.{IsValid, pids_of, numbers_of, pid_index_in_pidint_list_lem}
use mts_utils.PidintList.Laws.{append_to_pidint_list_lem}

-- The number of the first entry for a PID.
abbrev pub lookup_pair : List ℕ → List ℕ → ℕ → Option ℕ
lookup_pair (p ∷ ps) (n ∷ ns) pid = if p == pid then some n else lookup_pair ps ns pid
lookup_pair _ _ pid = none

at_place : List ℕ → Option ℕ → Option ℕ
at_place ns none = none
at_place ns (some i) = some (get_or ns i 0)

at_place-up_one :
    (n : ℕ) (ns : List ℕ) (o : Option ℕ) → at_place (n ∷ ns) (up_one o) ≡ at_place ns o
unfolding at_place
at_place-up_one n ns none = refl
at_place-up_one n ns (some i) = refl

at_place-find_index :
    (ps ns : List ℕ) (pid : ℕ)
    → Base.length ps ≡ Base.length ns
    → at_place ns (find_index (λ p. p == pid) ps) ≡ lookup_pair ps ns pid
unfolding at_place
at_place-find_index [] [] pid h = refl
at_place-find_index [] (n ∷ ns) pid h = refl
at_place-find_index (p ∷ ps) [] pid h = absurd (omega arith)
at_place-find_index (p ∷ ps) (n ∷ ns) pid h = elim (Bool-cases (p == pid)) [
  | inl hit ↦ rw hit
  | inr miss ↦ rw miss (
      at_place-up_one n ns (find_index (λ q. q == pid) ps)
      ∙ at_place-find_index ps ns pid (omega arith))
]

same_lengths :
    (list : PidintList) → IsValid list → Base.length (pids_of list) ≡ Base.length (numbers_of list)
same_lengths list v = omega (
  arith,
  length-take list.length list.pid (omega arith),
  length-take list.length list.number (omega arith),
)

at_place-take :
    (list : PidintList) (pid : ℕ)
    → IsValid list
    → at_place list.number (find_index (λ p. p == pid) (pids_of list))
      ≡ at_place (numbers_of list) (find_index (λ p. p == pid) (pids_of list))
at_place-take list pid v = elim (Option-cases (find_index (λ p. p == pid) (pids_of list))) [
  | inl e ↦ rw e (unfold at_place in refl)
  | inr (i, e) ↦ rw e (
      unfold at_place in
      ap some (
        sym (
          get_or-take list.length list.number i 0 (
            omega (
              arith,
              find_index-lt (λ p. p == pid) (pids_of list) i e,
              length-take list.length list.pid (omega arith),
            )))))
]

by_index :
    (list : PidintList) (pid : ℕ)
    → pid_int_in_pidint_list (some list) pid
      ≡ at_place list.number (pid_index_in_pidint_list (some list) pid)
unfolding pid_int_in_pidint_list pid_index_in_pidint_list at_place
by_index list pid = ground arith

-- On a valid list pid_int_in_pidint_list returns the number of the first entry for the PID, or
-- nothing where there is none.
pub pid_int_in_pidint_list_lem :
    (list : PidintList) (pid : ℕ)
    → IsValid list
    → pid_int_in_pidint_list (some list) pid ≡ lookup_pair (pids_of list) (numbers_of list) pid
pid_int_in_pidint_list_lem list pid v =
    by_index list pid
    ∙ ap (at_place list.number) (pid_index_in_pidint_list_lem list pid v)
    ∙ at_place-take list pid v
    ∙ at_place-find_index (pids_of list) (numbers_of list) pid (same_lengths list v)

-- What an entry behind the others adds to a search.
lookup_pair-append :
    (ps ns : List ℕ) (p n pid : ℕ)
    → Base.length ps ≡ Base.length ns
    → lookup_pair (ps ++ p ∷ []) (ns ++ n ∷ []) pid
      ≡ elim (lookup_pair ps ns pid) [ some m ↦ some m | none ↦ if p == pid then some n else none ]
lookup_pair-append [] [] p n pid h = refl
lookup_pair-append [] (m ∷ ns) p n pid h = absurd (omega arith)
lookup_pair-append (q ∷ ps) [] p n pid h = absurd (omega arith)
lookup_pair-append (q ∷ ps) (m ∷ ns) p n pid h = ground (arith, lookup_pair-append ps ns p n pid)

-- After a pair is appended to a valid list, its PID has the number unless an earlier entry had
-- the PID, and every other PID has the number it had.
pub pid_int-append_to_pidint_list :
    (list list' : PidintList) (pid program other : ℕ)
    → IsValid list
    → append_to_pidint_list (some list) pid program ≡ ok list'
    → pid_int_in_pidint_list (some list') other ≡ elim (pid_int_in_pidint_list (some list) other) [
      | some m ↦ some m
      | none ↦ if pid == other then some program else none
    ]
pid_int-append_to_pidint_list list list' pid program other v h =
    let (made, (e, valid, pids, numbers)) = append_to_pidint_list_lem list pid program v in
    let same : made ≡ list' = cc in
    rw (← same) (
      rw
        (
          pid_int_in_pidint_list_lem made other valid,
          pid_int_in_pidint_list_lem list other v,
          pids,
          numbers,
        )
        (lookup_pair-append (pids_of list) (numbers_of list) pid program other
          (same_lengths list v)))

-- Every pair of the two lists is what a search finds for its PID.
abbrev pub Covered : (ℕ → Option ℕ) → List ℕ → List ℕ → Type 0
Covered find [] ns = Unit {0}
Covered find (p ∷ ps) [] = ⊥
Covered find (p ∷ ps) (n ∷ ns) = (find p ≡ some n) × Covered find ps ns

round_iff :
    (o : Option ℕ) (m : ℕ) (more : Bool) {C : Type 0}
    → (more ≡ true) ↔ C
    → ((elim o [ none ↦ false | some n ↦ if m == n then more else false ]) ≡ true)
      ↔ ((o ≡ some m) × C)
round_iff none m more h = (λ e. cc, λ e. cc (e.0))
round_iff (some n) m more h = elim (Bool-cases (m == n)) [
  | inl same ↦
      let e : m ≡ n = (==_iff m n).0 same in rw same (λ t. (ap some (sym e), h.0 t), λ c. h.1 c.1)
  | inr other ↦
      rw other
        (λ t. cc, λ c. let e : m ≡ n = some-injective m n (sym c.0) in cc (other, (==_iff m n).1 e))
]

module _ (list1 list2 : PidintList) (v1 : IsValid list1) (v2 : IsValid list2) where
  find : ℕ → Option ℕ
  find pid = pid_int_in_pidint_list (some list2) pid

  one_round :
      (left ii : ℕ)
      → same_loop (suc left) ii list1 list2 ≡ elim (find (get_or list1.pid ii 0)) [
        | none ↦ false
        | some n ↦
            if get_or list1.number ii 0 == n then same_loop left (suc ii) list1 list2 else false
      ]
  unfolding same_loop find pid_int_in_pidint_list pid_index_in_pidint_list
  one_round left ii = ground arith

  same_loop-Covered :
      (left ii : ℕ)
      → ii + left ≤ list1.size
      → (same_loop left ii list1 list2 ≡ true)
        ↔ Covered find (take left (drop ii list1.pid)) (take left (drop ii list1.number))
  same_loop-Covered zero ii h = (λ _. tt, λ _. unfold same_loop in refl)
  same_loop-Covered (suc left) ii h =
      rw
        (
          one_round left ii,
          drop-eq-cons list1.pid ii 0 (omega (arith, v1.pids)),
          drop-eq-cons list1.number ii 0 (omega (arith, v1.numbers)),
        )
        (round_iff (find (get_or list1.pid ii 0)) (get_or list1.number ii 0)
          (same_loop left (suc ii) list1 list2) (same_loop-Covered left (suc ii) (omega arith)))

  -- Two valid lists behind different pointers are reported the same exactly when they have as
  -- many entries and a search of the second for each PID of the first gives the number it has
  -- there.
  pub same_pidint_list_lem : (same_pidint_list false (some list1) (some list2) ≡ true) ↔ (
      (list1.length ≡ list2.length)
      × Covered (λ pid. pid_int_in_pidint_list (some list2) pid) (pids_of list1) (numbers_of list1))
  unfolding find
  same_pidint_list_lem =
      let (there, back) = same_loop-Covered list1.length 0 (omega (arith, v1.fits)) in
      let stop = early list1.length list2.length (same_loop list1.length 0 list1 list2) in
      (
        λ t. let (e, more) = stop.0 (unfold same_pidint_list in t) in (e, there more),
        λ c. unfold same_pidint_list in stop.1 (c.0, back c.1),
      )
