-- ===== src/PesReader/Runs.antt =====
-- Concrete runs of the assembly of PES packets of include/pes.h.
use mts_utils.Base.{
  ◌≡◌, refl, sym, ap, ◌+◌, arith, true, false, List, [], ◌∷◌, none, some, bit_or, All, inl, inr,
}
use mts_utils.Bits.{◌<<<◌}
use mts_utils.PesReader.{
  PesPacketData, PesReader, start_new_pes_packet, build_peslist, pid_index_in_peslist,
}
use mts_utils.Arrays.{search_loop}
use mts_utils.PesReader.{check_for_eof_packet}
use mts_utils.PesReader.Eof.{check_for_eof_packet_lem, with_packets, taken, is_endless}
use mts_utils.Arrays.Loops.{find_index}
use mts_utils.PesReader.Calls.{new_packet}
use mts_utils.PesReader.Ends.{HandsOn, start-HandsOn}
use mts_utils.PesReader.Laws.{IsPeslist, in_progress}
use mts_utils.PesReader.Feeds.{Feed, IsFeed}
use mts_utils.PesReader.Assembles.{start_of, Assembled, start-Assembled}

abbrev fresh : PesReader
fresh = record { packets = build_peslist; video_pid = 0x100; posn = 0; deferred = none }

fresh-IsPeslist : IsPeslist build_peslist
unfolding build_peslist
fresh-IsPeslist = record { pids = refl; cells = refl; inside = omega arith }

fresh_has_none : in_progress build_peslist 0x100 ≡ none
unfolding in_progress build_peslist pid_index_in_peslist search_loop
fresh_has_none = refl

-- The second is of another PID.
abbrev two_more : List Feed
two_more =
    record { is_start = false; pid = 0x100; posn = 188; payload = 7 ∷ 8 ∷ [] }
    ∷ record {
      is_start = true;
      pid = 0x101;
      posn = 376;
      payload = 0 ∷ 0 ∷ 1 ∷ 0xC0 ∷ 0 ∷ 9 ∷ 5 ∷ [];
    }
    ∷ record { is_start = false; pid = 0x100; posn = 564; payload = 9 ∷ [] }
    ∷ []

two_more-IsFeed : All (IsFeed 0x100) two_more
two_more-IsFeed = (
  inr (refl, refl),
  (inl (omega arith, inr (refl, (0xC0, 0, 9, 5 ∷ [], refl))), (inr (refl, refl), tt)),
)

states_four : bit_or (0 <<< 8) 4 ≡ 4
states_four = refl

start-Assembled_example :
    Assembled fresh 0x100 (bit_or (0 <<< 8) 4) (start_of 0x100 0 0xE0 0 4 (6 ∷ [])) two_more
start-Assembled_example =
    start-Assembled fresh 0x100 0 0xE0 0 4 (6 ∷ []) two_more fresh-IsPeslist fresh_has_none
      (omega (arith, states_four)) (omega (arith, states_four)) (ap (λ n. n + 6) (sym states_four))
      two_more-IsFeed

-- A packet of unknown length is in progress for PID 0x100.
abbrev endless : PesPacketData
endless = record {
  bytes = some (0 ∷ 0 ∷ 1 ∷ 0xE0 ∷ 0 ∷ 0 ∷ []);
  data_len = 6;
  length = 0;
  posn = 0;
  is_video = true;
}

abbrev with_endless : PesReader
with_endless = record {
  packets = record {
    pid = 0x100 ∷ 0 ∷ [];
    packet = some endless ∷ none ∷ [];
    length = 1;
    size = 2;
  };
  video_pid = 0x100;
  posn = 188;
  deferred = none;
}

with_endless-IsPeslist : IsPeslist with_endless.packets
with_endless-IsPeslist = record { pids = refl; cells = refl; inside = omega arith }

has_endless : in_progress with_endless.packets 0x100 ≡ some endless
unfolding in_progress pid_index_in_peslist search_loop
has_endless = refl

start-HandsOn_example :
    HandsOn with_endless 0x100 endless
      (new_packet with_endless 0x100 (0 ∷ 0 ∷ 1 ∷ 0xE0 ∷ 0 ∷ 1 ∷ 7 ∷ []) (bit_or (0 <<< 8) 1))
      (start_new_pes_packet with_endless 0x100 (0 ∷ 0 ∷ 1 ∷ 0xE0 ∷ 0 ∷ 1 ∷ 7 ∷ []))
start-HandsOn_example =
    start-HandsOn with_endless 0x100 0xE0 0 1 (7 ∷ []) endless with_endless-IsPeslist has_endless
      refl

check_for_eof_packet_example :
    check_for_eof_packet with_endless
    ≡ with_packets with_endless
        (taken with_endless.packets (find_index is_endless (some endless ∷ [])))
check_for_eof_packet_example = check_for_eof_packet_lem with_endless with_endless-IsPeslist
