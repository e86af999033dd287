-- ===== src/PesReader/Calls.antt =====
-- What start_new_PES_packet and continue_PES_packet of include/pes.h do, on every branch.
use mts_utils.Base.{
  ℕ, suc, ◌+◌, ◌≡◌, ◌≢◌, ◌==◌, ◌⊎◌, refl, sym, ap, ◌∙◌, arith, if◌then◌else◌, true, false, not,
  List, ◌∷◌, length, get_or, Option, none, some, Option-cases, Bool-cases, inl, inr, bit_or,
  ltb-eq-false,
}
use mts_utils.Base.Outcome.{Outcome, ok}
use mts_utils.Bits.{◌<<<◌}
use mts_utils.PesReader.{
  PesPacketData, Peslist, PesReader, pid_index_in_peslist, set_entry, start_packet_in_peslist,
  find_packet_in_peslist, extend_pes_packet_data, build_pes_packet_data, ended_by_start,
  is_finished, if_finished, first_data, answer, begin_packet, start_new_pes_packet, continue_entry,
  continue_pes_packet,
}
use mts_utils.PesReader.Laws.{
  IsPeslist, in_progress, entry_at, set_entry-IsPeslist, in_progress-set_entry,
  in_progress-set_entry_other,
}
use mts_utils.PesReader.Starts.{Starts, start_packet-Starts, clear-Clears, index_of}

-- The packet has all its bytes: it is handed on, and its PID has none in progress; or it stays.
abbrev pub Ends : PesPacketData → Option PesPacketData → Peslist → ℕ → Type 0
Ends packet finished after pid =
    ((is_finished packet ≡ true) × (finished ≡ some packet) × (in_progress after pid ≡ none))
    ⊎ ((is_finished packet ≡ false) × (finished ≡ none) × (in_progress after pid ≡ some packet))

pub record Proceeds (list : Peslist) (pid : ℕ) (packet : PesPacketData)
    (result : Outcome (Option PesPacketData × Peslist)) : Type 0 where
  pub finished : Option PesPacketData
  pub after : Peslist
  pub succeeds : result ≡ ok (finished, after)
  pub good : IsPeslist after
  pub ends : Ends packet finished after pid
  pub others : (other : ℕ) → other ≢ pid → in_progress after other ≡ in_progress list other

if_finished-Proceeds :
    (list before : Peslist) (pid : ℕ) (packet : PesPacketData)
    → Starts before list pid packet
    → Proceeds before pid packet (if_finished list pid packet)
unfolding if_finished
if_finished-Proceeds list before pid packet starts = elim (Bool-cases (is_finished packet)) [
  | inl e ↦
      let clears = clear-Clears list pid packet starts.good starts.here in
      record {
        finished = some packet;
        after = clears.after;
        succeeds = rw (e, clears.succeeds) refl;
        good = clears.good;
        ends = inl (e, refl, clears.here);
        others = λ other differ. clears.others other differ ∙ starts.others other differ;
      }
  | inr e ↦ record {
    finished = none;
    after = list;
    succeeds = rw e refl;
    good = starts.good;
    ends = inr (e, refl, starts.here);
    others = starts.others;
  }
]

-- A call that puts bytes to a PID.
pub record Feeds (reader : PesReader) (pid : ℕ) (packet : PesPacketData)
    (result : Outcome (Option PesPacketData × PesReader)) : Type 0 where
  pub finished : Option PesPacketData
  pub after : Peslist
  pub succeeds : result ≡ ok (finished, record reader { packets = after })
  pub good : IsPeslist after
  pub ends : Ends packet finished after pid
  pub others :
      (other : ℕ) → other ≢ pid → in_progress after other ≡ in_progress reader.packets other

pub continue-Feeds :
    (reader : PesReader) (pid : ℕ) (before : PesPacketData) (payload : List ℕ)
    → IsPeslist reader.packets
    → in_progress reader.packets pid ≡ some before
    → Feeds reader pid
        (extend_pes_packet_data before payload)
        (continue_pes_packet reader pid payload)
unfolding continue_pes_packet continue_entry in_progress
continue-Feeds reader pid before payload good h =
    let (ii, e) = index_of reader.packets pid before h in
    let packet = extend_pes_packet_data before payload in
    let there : get_or reader.packets.packet ii none ≡ some before =
      sym (ap (entry_at reader.packets.packet) e) ∙ h in
    let starts : Starts reader.packets (set_entry reader.packets ii (some packet)) pid packet =
      record {
        good = set_entry-IsPeslist reader.packets good ii (some packet);
        here = in_progress-set_entry reader.packets good pid ii (some packet) e;
        others = λ other differ.
            in_progress-set_entry_other reader.packets good pid other ii (some packet) differ e;
      } in
    let proceeds =
      if_finished-Proceeds (set_entry reader.packets ii (some packet)) reader.packets pid packet
        starts in
    record {
      finished = proceeds.finished;
      after = proceeds.after;
      succeeds = rw (e, continue_pes_packet) (rw there (rw proceeds.succeeds refl));
      good = proceeds.good;
      ends = proceeds.ends;
      others = proceeds.others;
    }

pub continue-none :
    (reader : PesReader) (pid : ℕ) (payload : List ℕ)
    → in_progress reader.packets pid ≡ none
    → continue_pes_packet reader pid payload ≡ ok (none, reader)
unfolding continue_pes_packet in_progress
continue-none reader pid payload h = elim (Option-cases (pid_index_in_peslist reader.packets pid)) [
  | inl e ↦ rw (e, continue_pes_packet) refl
  | inr (ii, e) ↦
      let there : get_or reader.packets.packet ii none ≡ none =
        sym (ap (entry_at reader.packets.packet) e) ∙ h in
      rw (e, continue_pes_packet) (rw there refl)
]

-- The packet that a start makes of a payload that states a length.
abbrev pub new_packet : PesReader → ℕ → List ℕ → ℕ → PesPacketData
new_packet reader pid payload stated = record {
  bytes = some payload;
  data_len = length payload;
  length = if not (stated == 0) then stated + 6 else stated;
  posn = reader.posn;
  is_video = pid == reader.video_pid;
}

-- A packet of unknown length, which a start of the next ends
abbrev pub unbounded : Option PesPacketData → Option PesPacketData
unbounded none = none
unbounded (some packet) = if packet.length == 0 then some packet else none

pub record StartFeeds (reader : PesReader) (pid : ℕ) (packet : PesPacketData)
    (result : Outcome (Option PesPacketData × PesReader)) : Type 0 where
  pub finished : Option PesPacketData
  pub after : Peslist
  pub succeeds :
      result
      ≡ ok (
          answer
            (record reader { packets = after })
            (unbounded (in_progress reader.packets pid))
            finished)
  pub good : IsPeslist after
  pub ends : Ends packet finished after pid
  pub others :
      (other : ℕ) → other ≢ pid → in_progress after other ≡ in_progress reader.packets other

ended_lem : (list : Peslist) (pid : ℕ) → ended_by_start list pid ≡ unbounded (in_progress list pid)
unfolding ended_by_start find_packet_in_peslist in_progress
ended_lem list pid = elim (Option-cases (pid_index_in_peslist list pid)) [
  | inl e ↦ rw (e, ended_by_start) refl
  | inr (ii, e) ↦
      rw (e, ended_by_start)
        (elim (Option-cases (get_or list.packet ii none)) [
          | inl f ↦ rw f refl
          | inr (p, f) ↦ rw f refl
        ])
]

first_data_lem :
    (reader : PesReader) (pid : ℕ) (a b c sid hi lo : ℕ) (rest : List ℕ)
    → first_data reader pid (a ∷ b ∷ c ∷ sid ∷ hi ∷ lo ∷ rest)
      ≡ ok (new_packet reader pid (a ∷ b ∷ c ∷ sid ∷ hi ∷ lo ∷ rest) (bit_or (hi <<< 8) lo))
unfolding first_data extend_pes_packet_data build_pes_packet_data
first_data_lem reader pid a b c sid hi lo rest = refl

begin_step :
    (reader : PesReader) (pid : ℕ) (packet : PesPacketData) (finished : Option PesPacketData)
    (after : Peslist)
    → if_finished (start_packet_in_peslist reader.packets pid packet) pid packet
      ≡ ok (finished, after)
    → begin_packet reader pid packet
      ≡ ok (
          answer
            (record reader { packets = after })
            (unbounded (in_progress reader.packets pid))
            finished)
unfolding begin_packet
begin_step reader pid packet finished after h = rw h (
    ap (λ (t : Option PesPacketData). ok (answer (record reader { packets = after }) t finished))
      (ended_lem reader.packets pid))

start_step :
    (reader : PesReader) (pid sid hi lo : ℕ) (rest : List ℕ)
    → start_new_pes_packet reader pid (0 ∷ 0 ∷ 1 ∷ sid ∷ hi ∷ lo ∷ rest)
      ≡ begin_packet reader pid
          (new_packet reader pid (0 ∷ 0 ∷ 1 ∷ sid ∷ hi ∷ lo ∷ rest) (bit_or (hi <<< 8) lo))
unfolding start_new_pes_packet
start_step reader pid sid hi lo rest =
    rw
      (
        ltb-eq-false (suc (suc (suc (suc (suc (suc (length rest))))))) 6 (omega arith),
        first_data_lem reader pid 0 0 1 sid hi lo rest,
      )
      refl

pub start-StartFeeds :
    (reader : PesReader) (pid sid hi lo : ℕ) (rest : List ℕ)
    → IsPeslist reader.packets
    → StartFeeds reader pid
        (new_packet reader pid (0 ∷ 0 ∷ 1 ∷ sid ∷ hi ∷ lo ∷ rest) (bit_or (hi <<< 8) lo))
        (start_new_pes_packet reader pid (0 ∷ 0 ∷ 1 ∷ sid ∷ hi ∷ lo ∷ rest))
start-StartFeeds reader pid sid hi lo rest good =
    let payload = 0 ∷ 0 ∷ 1 ∷ sid ∷ hi ∷ lo ∷ rest in
    let packet = new_packet reader pid payload (bit_or (hi <<< 8) lo) in
    let proceeds =
      if_finished-Proceeds (start_packet_in_peslist reader.packets pid packet) reader.packets pid
        packet (start_packet-Starts reader.packets good pid packet) in
    record {
      finished = proceeds.finished;
      after = proceeds.after;
      succeeds =
          start_step reader pid sid hi lo rest
          ∙ begin_step reader pid packet proceeds.finished proceeds.after proceeds.succeeds;
      good = proceeds.good;
      ends = proceeds.ends;
      others = proceeds.others;
    }
