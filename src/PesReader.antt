-- ===== src/PesReader.antt =====
-- Putting PES packets together from the payloads of TS packets, in include/pes.h: the list of the
-- packets in progress, one for each PID, and what starts, continues and ends them. A null pointer is
-- `none`. Memory is taken to suffice, and a fresh cell, which is not read before it is written, is a 0
-- or `none`.
pub mod Laws
pub mod Starts
pub mod Calls
pub mod Feeds
pub mod Finishes
pub mod Grows
pub mod Assembles
pub mod Ends
pub mod Eof
mod Runs
use mts_utils.Base.{
  ℕ, zero, suc, ◌+◌, ◌-◌, ◌*◌, ◌==◌, ltb, if◌then◌else◌, Bool, true, false, not, ◌&&◌, ◌||◌, List,
  [], ◌∷◌, ◌++◌, length, get_or, set, replicate, Option, none, some, bit_or,
}
use mts_utils.Base.Outcome.{Outcome, ok, err, ◌>>=◌, ◌>>◌, refuse_if, at}
use mts_utils.Bits.{◌<<<◌}
use mts_utils.Arrays.{search_loop}

pub record PesPacketData : Type 0 where
  pub bytes : Option (List ℕ)
  pub data_len : ℕ
  pub length : ℕ
  pub posn : ℕ
  pub is_video : Bool

-- The arrays `pid` and `data`
pub record Peslist : Type 0 where
  pub pid : List ℕ
  pub packet : List (Option PesPacketData)
  pub length : ℕ
  pub size : ℕ

-- What of the reader these functions use; its list of packets is there from the start.
pub record PesReader : Type 0 where
  pub packets : Peslist
  pub video_pid : ℕ
  pub posn : ℕ
  pub deferred : Option PesPacketData

abbrev pub peslist_start_size : ℕ
peslist_start_size = 2

abbrev pub peslist_increment : ℕ
peslist_increment = 1

unfoldable pub build_peslist : Peslist
build_peslist = record {
  pid = replicate peslist_start_size 0;
  packet = replicate peslist_start_size none;
  length = 0;
  size = peslist_start_size;
}

unfoldable pub build_pes_packet_data : PesPacketData
build_pes_packet_data = record { bytes = none; data_len = 0; length = 0; posn = 0; is_video = true }

unfoldable pub extend_pes_packet_data : PesPacketData → List ℕ → PesPacketData
extend_pes_packet_data packet bytes = elim packet.bytes [
  | none ↦ record packet { bytes = some bytes; data_len = length bytes }
  | some before ↦ record packet {
    bytes = some (before ++ bytes);
    data_len = packet.data_len + length bytes;
  }
]

-- `none` is -1.
unfoldable pub pid_index_in_peslist : Peslist → ℕ → Option ℕ
pid_index_in_peslist list pid = search_loop (λ p. p == pid) list.length 0 list.pid

-- realloc of both arrays, where they are full
unfoldable pub extend_peslist : Peslist → Peslist
extend_peslist list =
    if list.length == list.size
    then record list {
      pid = list.pid ++ replicate peslist_increment 0;
      packet = list.packet ++ replicate peslist_increment none;
      size = list.size + peslist_increment;
    }
    else list

-- A new entry behind the others
unfoldable pub add_entry : Peslist → ℕ → PesPacketData → Peslist
add_entry list pid packet = record list {
  pid = set list.pid list.length pid;
  packet = set list.packet list.length (some packet);
  length = suc list.length;
}

-- Changes what an entry points to.
unfoldable pub set_entry : Peslist → ℕ → Option PesPacketData → Peslist
set_entry list ii packet = record list { packet = set list.packet ii packet }

-- start_packet_in_peslist with the packet that it returns. The caller goes on to fill the packet
-- through the pointer, which the list holds too; here the packet is put in when it is filled.
unfoldable pub start_packet_in_peslist : Peslist → ℕ → PesPacketData → Peslist
unfolding pid_index_in_peslist extend_peslist add_entry set_entry
start_packet_in_peslist list pid packet = elim (pid_index_in_peslist list pid) [
  | none ↦ add_entry (extend_peslist list) pid packet
  | some ii ↦ set_entry list ii (some packet)
]

-- `none` is the status 1, and `some none` a null pointer.
unfoldable pub find_packet_in_peslist : Peslist → ℕ → Option (Option PesPacketData)
unfolding pid_index_in_peslist
find_packet_in_peslist list pid = elim (pid_index_in_peslist list pid) [
  | none ↦ none
  | some index ↦ some (get_or list.packet index none)
]

unfoldable pub clear_packet_in_peslist : Peslist → ℕ → Outcome Peslist
unfolding pid_index_in_peslist set_entry
clear_packet_in_peslist list pid = elim (pid_index_in_peslist list pid) [
  | none ↦ err
  | some index ↦ ok (set_entry list index none)
]

-- The packet that a new start for the PID ends: one of unknown length.
unfoldable pub ended_by_start : Peslist → ℕ → Option PesPacketData
unfolding find_packet_in_peslist
ended_by_start list pid = elim (find_packet_in_peslist list pid) [
  | none ↦ none
  | some none ↦ none
  | some (some packet) ↦ if packet.length == 0 then some packet else none
]

-- Whether a packet has all its bytes, or more, which is reported and accepted
-- (ALLOW_OVERLONG_PACKETS).
unfoldable pub is_finished : PesPacketData → Bool
is_finished packet =
    ltb packet.length packet.data_len && not (packet.length == 0)
    || packet.length == packet.data_len

-- The packet that is finished, if it is, and the list with its entry cleared.
unfoldable pub if_finished : Peslist → ℕ → PesPacketData → Outcome (Option PesPacketData × Peslist)
unfolding is_finished clear_packet_in_peslist
if_finished list pid packet =
    if is_finished packet
    then (clear_packet_in_peslist list pid >>= λ cleared. ok (some packet, cleared))
    else ok (none, list)

-- The packet that a first payload makes.
unfoldable pub first_data : PesReader → ℕ → List ℕ → Outcome PesPacketData
unfolding extend_pes_packet_data build_pes_packet_data
first_data reader pid payload = do
  payload_4 ← at payload 4
  payload_5 ← at payload 5
  let packet =
      extend_pes_packet_data (record build_pes_packet_data { is_video = pid == reader.video_pid })
        payload
  let stated = bit_or (payload_4 <<< 8) payload_5
  ok (record packet {
    length = if not (stated == 0) then stated + 6 else stated;
    posn = reader.posn;
  })

-- Where the start also ends the packet before, that is what is finished, and the new packet, if it is
-- finished too, is deferred.
abbrev pub answer :
    PesReader → Option PesPacketData → Option PesPacketData → Option PesPacketData × PesReader
answer after none finished = (finished, after)
answer after (some ended) finished = (some ended, record after { deferred = finished })

-- The packet is put into the list, and out of it where it is finished.
unfoldable pub begin_packet :
    PesReader → ℕ → PesPacketData → Outcome (Option PesPacketData × PesReader)
begin_packet reader pid packet =
    let just_ended = ended_by_start reader.packets pid in
    if_finished (start_packet_in_peslist reader.packets pid packet) pid packet
    >>= λ (finished, packets). ok (answer (record reader { packets = packets }) just_ended finished)

-- `finished` comes with the reader.
unfoldable pub start_new_pes_packet :
    PesReader → ℕ → List ℕ → Outcome (Option PesPacketData × PesReader)
start_new_pes_packet reader pid payload = do
  refuse_if (ltb (length payload) 6)
  payload_0 ← at payload 0
  payload_1 ← at payload 1
  payload_2 ← at payload 2
  refuse_if (not (payload_0 == 0) || not (payload_1 == 0) || not (payload_2 == 1))
  packet ← first_data reader pid payload
  begin_packet reader pid packet

-- The bytes are put behind those of the packet that the entry points to.
unfoldable pub continue_entry :
    PesReader → ℕ → ℕ → PesPacketData → List ℕ → Outcome (Option PesPacketData × PesReader)
unfolding extend_pes_packet_data set_entry if_finished
continue_entry reader pid ii before payload =
    let packet = extend_pes_packet_data before payload in
    if_finished (set_entry reader.packets ii (some packet)) pid packet >>= λ (finished, packets).
    ok (finished, record reader { packets = packets })

unfoldable pub continue_pes_packet :
    PesReader → ℕ → List ℕ → Outcome (Option PesPacketData × PesReader)
unfolding pid_index_in_peslist continue_entry
continue_pes_packet reader pid payload = elim (pid_index_in_peslist reader.packets pid) [
  | none ↦ ok (none, reader)
  | some ii ↦ elim (get_or reader.packets.packet ii none) [
    | none ↦ ok (none, reader)
    | some before ↦ continue_entry reader pid ii before payload
  ]
]

-- The loop of check_for_EOF_packet, with `left` rounds to go.
unfoldable pub eof_loop : ℕ → ℕ → Peslist → Option PesPacketData × Peslist
unfolding set_entry
eof_loop zero ii list = (none, list)
eof_loop (suc left) ii list =
    let rest = eof_loop left (suc ii) list in
    elim (get_or list.packet ii none) [
      | none ↦ rest
      | some packet ↦ if packet.length == 0 then (some packet, set_entry list ii none) else rest
    ]

unfoldable pub check_for_eof_packet : PesReader → Option PesPacketData × PesReader
unfolding eof_loop
check_for_eof_packet reader =
    let (packet, packets) = eof_loop reader.packets.length 0 reader.packets in
    (packet, record reader { packets = packets })
