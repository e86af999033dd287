-- ===== src/PesReader/Starts.antt =====
-- Starting and clearing an entry of the list of packets in progress, in include/pes.h.
use mts_utils.Base.{
  ℕ, ◌<◌, ◌≡◌, ◌≢◌, refl, sym, ap, ◌∙◌, arith, set, none, some, Option-cases, inl, inr, ==-eq-true,
  ==-eq-false,
}
use mts_utils.Base.{length-set}
use mts_utils.Base.Outcome.{Outcome, ok}
use mts_utils.PesReader.{
  PesPacketData, Peslist, pid_index_in_peslist, extend_peslist, add_entry, set_entry,
  start_packet_in_peslist, clear_packet_in_peslist,
}
use mts_utils.Arrays.Lookups.{is, one_more, place_of-set, get_or-set-same, get_or-set-other}
use mts_utils.PesReader.Laws.{
  IsPeslist, in_progress, entry_at, index_lem, index-lt, set_entry-IsPeslist, in_progress-set_entry,
  in_progress-set_entry_other, extend-IsPeslist, extend-index, in_progress-extend,
}

none_is_not_some : (packet : PesPacketData) → none ≡ some packet → ⊥
none_is_not_some packet e = cc

module _ (list : Peslist) (good : IsPeslist list) (room : list.length < list.size) (pid : ℕ)
    (packet : PesPacketData) where
  add_entry-IsPeslist : IsPeslist (add_entry list pid packet)
  unfolding add_entry
  add_entry-IsPeslist = record {
    pids = length-set list.pid list.length pid ∙ good.pids;
    cells = length-set list.packet list.length (some packet) ∙ good.cells;
    inside = room;
  }

  index-one_more :
      (other : ℕ)
      → pid_index_in_peslist (add_entry list pid packet) other
        ≡ one_more (is other) pid list.length (pid_index_in_peslist list other)
  unfolding add_entry
  index-one_more other =
      index_lem (add_entry list pid packet) other add_entry-IsPeslist
      ∙ place_of-set list.pid list.length pid other (omega (arith, good.pids, room))
      ∙ ap (one_more (is other) pid list.length) (sym (index_lem list other good))

  in_progress-add_entry :
      pid_index_in_peslist list pid ≡ none
      → in_progress (add_entry list pid packet) pid ≡ some packet
  unfolding in_progress add_entry
  in_progress-add_entry missing =
      let here : one_more (is pid) pid list.length none ≡ some list.length =
        rw (==-eq-true pid pid refl) refl in
      ap (entry_at (set list.packet list.length (some packet)))
        (index-one_more pid ∙ ap (one_more (is pid) pid list.length) missing ∙ here)
      ∙ get_or-set-same list.packet list.length (some packet) none (omega (arith, good.cells, room))

  in_progress-add_entry_other :
      (other : ℕ)
      → other ≢ pid
      → in_progress (add_entry list pid packet) other ≡ in_progress list other
  unfolding in_progress add_entry
  in_progress-add_entry_other other differ =
      ap (entry_at (set list.packet list.length (some packet))) (index-one_more other)
      ∙ (elim (Option-cases (pid_index_in_peslist list other)) [
        | inl e ↦ rw (e, ==-eq-false pid other (λ same. differ (sym same))) refl
        | inr (j, e) ↦ rw e (
            get_or-set-other list.packet j list.length (some packet) none
              (λ same. omega (arith, same, index-lt list other j good e)))
      ])

pub record Starts (list after : Peslist) (pid : ℕ) (packet : PesPacketData) : Type 0 where
  pub good : IsPeslist after
  pub here : in_progress after pid ≡ some packet
  pub others : (other : ℕ) → other ≢ pid → in_progress after other ≡ in_progress list other

module _ (list : Peslist) (good : IsPeslist list) (pid : ℕ) (packet : PesPacketData) where
  start_new_entry :
      pid_index_in_peslist list pid ≡ none
      → Starts list (add_entry (extend_peslist list) pid packet) pid packet
  start_new_entry missing =
      let (long_good, room) = extend-IsPeslist list good in
      record {
        good = add_entry-IsPeslist (extend_peslist list) long_good room pid packet;
        here =
            in_progress-add_entry (extend_peslist list) long_good room pid packet
              (extend-index list good pid ∙ missing);
        others = λ other differ.
            in_progress-add_entry_other (extend_peslist list) long_good room pid packet other differ
            ∙ in_progress-extend list good other;
      }

  replace_entry :
      (ii : ℕ)
      → pid_index_in_peslist list pid ≡ some ii
      → Starts list (set_entry list ii (some packet)) pid packet
  replace_entry ii there = record {
    good = set_entry-IsPeslist list good ii (some packet);
    here = in_progress-set_entry list good pid ii (some packet) there;
    others = λ other differ.
        in_progress-set_entry_other list good pid other ii (some packet) differ there;
  }

  pub start_packet-Starts : Starts list (start_packet_in_peslist list pid packet) pid packet
  unfolding start_packet_in_peslist
  start_packet-Starts = elim (Option-cases (pid_index_in_peslist list pid)) [
    | inl e ↦ rw (e, start_packet_in_peslist) (start_new_entry e)
    | inr (ii, e) ↦ rw (e, start_packet_in_peslist) (replace_entry ii e)
  ]

-- An entry that is in progress can be cleared.
pub record Clears (list : Peslist) (pid : ℕ) (result : Outcome Peslist) : Type 0 where
  pub after : Peslist
  pub succeeds : result ≡ ok after
  pub good : IsPeslist after
  pub here : in_progress after pid ≡ none
  pub others : (other : ℕ) → other ≢ pid → in_progress after other ≡ in_progress list other

pub index_of :
    (list : Peslist) (pid : ℕ) (packet : PesPacketData)
    → in_progress list pid ≡ some packet
    → (ii : ℕ) × (pid_index_in_peslist list pid ≡ some ii)
unfolding in_progress
index_of list pid packet h = elim (Option-cases (pid_index_in_peslist list pid)) [
  | inl e ↦ absurd (none_is_not_some packet (sym (ap (entry_at list.packet) e) ∙ h))
  | inr found ↦ found
]

pub clear-Clears :
    (list : Peslist) (pid : ℕ) (packet : PesPacketData)
    → IsPeslist list
    → in_progress list pid ≡ some packet
    → Clears list pid (clear_packet_in_peslist list pid)
unfolding clear_packet_in_peslist
clear-Clears list pid packet good h =
    let (ii, e) = index_of list pid packet h in
    record {
      after = set_entry list ii none;
      succeeds = rw (e, clear_packet_in_peslist) refl;
      good = set_entry-IsPeslist list good ii none;
      here = in_progress-set_entry list good pid ii none e;
      others = λ other differ. in_progress-set_entry_other list good pid other ii none differ e;
    }
