-- ===== src/PesReader/Laws.antt =====
-- The list of packets in progress of include/pes.h as a map from PIDs to packets.
use mts_utils.Base.{
  ℕ, zero, suc, ◌+◌, ◌≤◌, ◌<◌, ◌≡◌, ◌≢◌, ◌==◌, refl, sym, ap, ◌∙◌, arith, if◌then◌else◌, Bool, true,
  false, List, [], ◌∷◌, ◌++◌, length, get_or, set, take, replicate, Option, none, some,
  Option-cases, Bool-cases, inl, inr, ==_iff, ==-eq-true, ==-eq-false,
}
use mts_utils.Base
use mts_utils.Base.{length-set, length-append, length-take, get_or-take}
use mts_utils.Arrays.Loops.{find_index, search_loop-eq-find_index, take-grown}
use mts_utils.Arrays.Lookups.{get_or-set-same, get_or-set-other, is, place_of-lt, same_key}
use mts_utils.PesReader.{PesPacketData, Peslist, pid_index_in_peslist, extend_peslist, set_entry}

pub record IsPeslist (list : Peslist) : Type 0 where
  pub pids : Base.length list.pid ≡ list.size
  pub cells : Base.length list.packet ≡ list.size
  pub inside : list.length ≤ list.size

abbrev pub entry_at : List (Option PesPacketData) → Option ℕ → Option PesPacketData
entry_at cells none = none
entry_at cells (some ii) = get_or cells ii none

-- The packet in progress for a PID
unfoldable pub in_progress : Peslist → ℕ → Option PesPacketData
in_progress list pid = entry_at list.packet (pid_index_in_peslist list pid)

get_or-grown {ℓ} :
    {A : Type ℓ} (xs : List (Option A)) (i : ℕ) → get_or (xs ++ none ∷ []) i none ≡ get_or xs i none
get_or-grown [] zero = refl
get_or-grown [] (suc i) = refl
get_or-grown (x ∷ xs) zero = refl
get_or-grown (x ∷ xs) (suc i) = get_or-grown xs i

pub index_lem :
    (list : Peslist) (pid : ℕ)
    → IsPeslist list
    → pid_index_in_peslist list pid ≡ find_index (is pid) (take list.length list.pid)
unfolding pid_index_in_peslist
index_lem list pid good =
    search_loop-eq-find_index (is pid) list.length list.pid (omega (arith, good.pids, good.inside))

-- An index that is found is of an entry in use, which has the PID.
pub index-lt :
    (list : Peslist) (pid i : ℕ)
    → IsPeslist list
    → pid_index_in_peslist list pid ≡ some i
    → i < list.length
index-lt list pid i good h =
    place_of-lt list.pid list.length pid i (omega (arith, good.pids, good.inside))
      (sym (index_lem list pid good) ∙ h)

same_pid :
    (list : Peslist) (p q i : ℕ)
    → IsPeslist list
    → pid_index_in_peslist list p ≡ some i
    → pid_index_in_peslist list q ≡ some i
    → p ≡ q
same_pid list p q i good hp hq =
    same_key list.pid list.length p q i (sym (index_lem list p good) ∙ hp)
      (sym (index_lem list q good) ∙ hq)

module _ (list : Peslist) (good : IsPeslist list) where
  pub set_entry-IsPeslist :
      (ii : ℕ) (packet : Option PesPacketData) → IsPeslist (set_entry list ii packet)
  unfolding set_entry
  set_entry-IsPeslist ii packet = record {
    pids = good.pids;
    cells = length-set list.packet ii packet ∙ good.cells;
    inside = good.inside;
  }

  pub index-set_entry :
      (pid ii : ℕ) (packet : Option PesPacketData)
      → pid_index_in_peslist (set_entry list ii packet) pid ≡ pid_index_in_peslist list pid
  unfolding set_entry pid_index_in_peslist
  index-set_entry pid ii packet = refl

  pub in_progress-set_entry :
      (pid ii : ℕ) (packet : Option PesPacketData)
      → pid_index_in_peslist list pid ≡ some ii
      → in_progress (set_entry list ii packet) pid ≡ packet
  unfolding in_progress set_entry
  in_progress-set_entry pid ii packet h =
      ap (entry_at (set list.packet ii packet)) (index-set_entry pid ii packet ∙ h)
      ∙ get_or-set-same list.packet ii packet none
          (omega (arith, index-lt list pid ii good h, good.cells, good.inside))

  pub in_progress-set_entry_other :
      (pid other ii : ℕ) (packet : Option PesPacketData)
      → other ≢ pid
      → pid_index_in_peslist list pid ≡ some ii
      → in_progress (set_entry list ii packet) other ≡ in_progress list other
  unfolding in_progress set_entry
  in_progress-set_entry_other pid other ii packet differ h =
      ap (entry_at (set list.packet ii packet)) (index-set_entry other ii packet)
      ∙ (elim (Option-cases (pid_index_in_peslist list other)) [
        | inl e ↦ rw e refl
        | inr (j, e) ↦
            let apart : j ≢ ii =
              λ same. differ (same_pid list other pid ii good (e ∙ ap some same) h) in
            rw e (get_or-set-other list.packet j ii packet none apart)
      ])

  pub extend-IsPeslist :
      IsPeslist (extend_peslist list) × ((extend_peslist list).length < (extend_peslist list).size)
  unfolding extend_peslist
  extend-IsPeslist = elim (Bool-cases (list.length == list.size)) [
    | inl full ↦ rw full (
      record {
        pids = omega (arith, length-append list.pid (0 ∷ []), good.pids);
        cells = omega (arith, length-append list.packet (none ∷ []), good.cells);
        inside = omega (arith, good.inside);
      },
      omega (arith, good.inside),
    )
    | inr room ↦ rw room (good, ground (arith, good.inside))
  ]

  grown_index :
      (pid : ℕ)
      → pid_index_in_peslist
          (record list {
            pid = list.pid ++ 0 ∷ [];
            packet = list.packet ++ none ∷ [];
            size = list.size + 1;
          })
          pid
        ≡ pid_index_in_peslist list pid
  grown_index pid =
      let longer = record list {
        pid = list.pid ++ 0 ∷ [];
        packet = list.packet ++ none ∷ [];
        size = list.size + 1;
      } in
      let longer_good : IsPeslist longer = record {
        pids = omega (arith, length-append list.pid (0 ∷ []), good.pids);
        cells = omega (arith, length-append list.packet (none ∷ []), good.cells);
        inside = omega (arith, good.inside);
      } in
      index_lem longer pid longer_good
      ∙ ap (find_index (is pid))
          (take-grown list.length list.pid (0 ∷ []) (omega (arith, good.pids, good.inside)))
      ∙ sym (index_lem list pid good)

  pub extend-index :
      (pid : ℕ) → pid_index_in_peslist (extend_peslist list) pid ≡ pid_index_in_peslist list pid
  unfolding extend_peslist
  extend-index pid = elim (Bool-cases (list.length == list.size)) [
    | inl full ↦ rw (full, extend_peslist) (grown_index pid)
    | inr room ↦ rw (room, extend_peslist) refl
  ]

  entry_at-grown : (o : Option ℕ) → entry_at (list.packet ++ none ∷ []) o ≡ entry_at list.packet o
  entry_at-grown none = refl
  entry_at-grown (some ii) = get_or-grown list.packet ii

  extend-cells : (o : Option ℕ) → entry_at (extend_peslist list).packet o ≡ entry_at list.packet o
  unfolding extend_peslist
  extend-cells o = elim (Bool-cases (list.length == list.size)) [
    | inl full ↦ rw full (entry_at-grown o)
    | inr room ↦ rw room refl
  ]

  pub in_progress-extend : (pid : ℕ) → in_progress (extend_peslist list) pid ≡ in_progress list pid
  unfolding in_progress
  in_progress-extend pid =
      ap (entry_at (extend_peslist list).packet) (extend-index pid)
      ∙ extend-cells (pid_index_in_peslist list pid)
