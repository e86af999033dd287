-- ===== src/Circular.antt =====
-- The circular buffer of include/tswrite.h, between the parent process that fills it with TS packets
-- and the child process that sends its items. The parent times items by the rate alone
-- (TSWRITE_PCR_MODE_NONE), and items have no RTP header. The data array of an item is a list of its
-- own, of `item_size` cells.
pub mod Steps
pub mod Region
pub mod Held
pub mod Stages
pub mod Refine
pub mod Simulate
pub mod Fill
pub mod Ends
pub mod Kept
pub mod Takes
pub mod Ordered
pub mod Safety
pub mod Calls
mod Runs
use mts_utils.Base.{
  ℕ, zero, suc, ◌+◌, ◌-◌, ◌*◌, ◌/◌, ◌%◌, ◌^◌, ◌==◌, ltb, leb, if◌then◌else◌, Bool, true, false, not,
  ◌||◌, ◌&&◌, List, [], ◌∷◌, ◌++◌, length, take, drop, set, replicate, Option, none, some,
}
use mts_utils.Base.Outcome.{Outcome, ok, err, fault, ◌>>=◌, at}
use mts_utils.Ts.Read.{ts_packet_size}

pub record CircularBufferItem : Type 0 where
  pub time : ℕ
  pub length : ℕ
  pub cells : List ℕ

pub record CircularBuffer : Type 0 where
  pub start : ℕ
  pub end : ℕ
  pub pending : ℕ
  pub size : ℕ
  pub eos : Bool
  pub item_size : ℕ
  pub item : List CircularBufferItem

-- buffered_TS_output, with the static `last_time` of set_buffer_item_time_plain
pub record BufferedTsOutput : Type 0 where
  pub buffer : CircularBuffer
  pub which : ℕ
  pub started : Bool
  pub num_packets : ℕ
  pub rate : ℕ
  pub last_time : ℕ

-- mmap gives memory that is zero.
unfoldable pub map_circular_buffer : ℕ → ℕ → CircularBuffer
map_circular_buffer circ_buf_size ts_in_packet = record {
  start = 1;
  end = 0;
  pending = 0;
  size = circ_buf_size;
  eos = false;
  item_size = ts_in_packet * ts_packet_size;
  item =
      replicate circ_buf_size
        (record { time = 0; length = 0; cells = replicate (ts_in_packet * ts_packet_size) 0 });
}

unfoldable pub build_buffered_ts_output : ℕ → ℕ → ℕ → BufferedTsOutput
unfolding map_circular_buffer
build_buffered_ts_output circ_buf_size ts_in_packet rate =
    let circular = map_circular_buffer circ_buf_size ts_in_packet in
    record {
      buffer = circular;
      which = (circular.pending + 1) % circular.size;
      started = false;
      num_packets = 0;
      rate = rate;
      last_time = 0;
    }

unfoldable pub circular_buffer_empty : CircularBuffer → Bool
circular_buffer_empty circular = circular.start == (circular.end + 1) % circular.size

unfoldable pub circular_buffer_full : CircularBuffer → Bool
circular_buffer_full circular = (circular.pending + 2) % circular.size == circular.start

unfoldable pub circular_buffer_jammed : CircularBuffer → Bool
circular_buffer_jammed circular = (circular.pending + 1) % circular.size == circular.end

-- Changes an item; an index outside the array is a fault.
unfoldable pub update_item :
    CircularBuffer → ℕ → (CircularBufferItem → CircularBufferItem) → Outcome CircularBuffer
update_item circular which change = at circular.item which >>= λ it.
    ok (record circular { item = set circular.item which (change it) })

-- set_buffer_item_time_plain. Its double is the exact quotient, cut to a whole number; num_bytes is
-- far below what a double holds.
unfoldable pub set_buffer_item_time_plain : BufferedTsOutput → Outcome BufferedTsOutput
unfolding update_item
set_buffer_item_time_plain writer =
    let num_bytes = writer.num_packets * ts_packet_size in
    let last_time = (writer.last_time + num_bytes * 1000000 / writer.rate) % 2 ^ 32 in
    update_item writer.buffer writer.which (λ it. record it { time = last_time }) >>= λ buffer.
    ok (record writer { buffer = buffer; last_time = last_time })

-- The first half of internal_flush_buffered_TS_output: the item gets its time, and `end` moves on to it.
unfoldable pub complete_item : BufferedTsOutput → Outcome BufferedTsOutput
unfolding set_buffer_item_time_plain
complete_item writer = set_buffer_item_time_plain writer >>= λ timed.
    ok (record timed { buffer = record timed.buffer { end = timed.which } })

-- The second half: `pending` follows, and the next item is prepared.
unfoldable pub next_item : BufferedTsOutput → BufferedTsOutput
next_item writer = record writer {
  buffer = record writer.buffer { pending = writer.which };
  which = (writer.which + 1) % writer.buffer.size;
  started = false;
  num_packets = 0;
}

unfoldable pub internal_flush_buffered_ts_output : BufferedTsOutput → Outcome BufferedTsOutput
unfolding complete_item next_item
internal_flush_buffered_ts_output writer = at writer.buffer.item writer.which >>= λ it.
    if not writer.started || it.length == 0
    then ok writer
    else (complete_item writer >>= λ completed. ok (next_item completed))

-- The child moves `start` on while the parent waits: `looks n` is the `start` that the parent sees at
-- look n. It gives up when the buffer is jammed, which also sets `eos`, or after 1000 looks.
unfoldable pub wait_if_buffer_full : ℕ → (ℕ → ℕ) → ℕ → CircularBuffer → Outcome CircularBuffer
unfolding circular_buffer_full circular_buffer_jammed
wait_if_buffer_full zero looks n circular = err
wait_if_buffer_full (suc left) looks n circular =
    let seen = record circular { start = looks n } in
    let rest = wait_if_buffer_full left looks (suc n) seen in
    if circular_buffer_full seen
    then (if circular_buffer_jammed seen then err else rest)
    else ok seen

-- An item is started: its length is set to 0.
unfoldable pub start_item : BufferedTsOutput → Outcome BufferedTsOutput
unfolding update_item
start_item writer =
    update_item writer.buffer writer.which (λ it. record it { length = 0 }) >>= λ buffer.
    ok (record writer { buffer = buffer; started = true; num_packets = 0 })

-- memcpy to a place in an array
unfoldable pub copy_to : List ℕ → ℕ → List ℕ → Outcome (List ℕ)
copy_to cells posn packet =
    if leb (posn + length packet) (length cells)
    then ok (take posn cells ++ packet ++ drop (posn + length packet) cells)
    else fault

-- A packet is put behind those that the item has.
unfoldable pub copy_packet : BufferedTsOutput → List ℕ → Outcome BufferedTsOutput
unfolding copy_to
copy_packet writer packet = at writer.buffer.item writer.which >>= λ it.
    copy_to it.cells it.length packet >>= λ cells. ok (record writer {
      buffer = record writer.buffer {
        item =
            set writer.buffer.item writer.which
              (record it { cells = cells; length = it.length + length packet });
      };
      num_packets = suc writer.num_packets;
    })

unfoldable pub give_up_after : ℕ
give_up_after = 1001

unfoldable pub write_to_buffered_ts_output :
    (ℕ → ℕ) → BufferedTsOutput → List ℕ → Outcome BufferedTsOutput
unfolding wait_if_buffer_full start_item copy_packet internal_flush_buffered_ts_output give_up_after
write_to_buffered_ts_output looks writer packet = do
  ready ←
      if not writer.started
      then (wait_if_buffer_full give_up_after looks 0 writer.buffer >>= λ buffer.
          start_item (record writer { buffer = buffer }))
      else ok writer
  copied ← copy_packet ready packet
  it ← at copied.buffer.item copied.which
  if leb copied.buffer.item_size it.length
      then internal_flush_buffered_ts_output copied
      else ok copied

-- The marker of add_eof_entry: one byte of data, 1.
unfoldable pub mark_eof : BufferedTsOutput → ℕ → Outcome BufferedTsOutput
unfolding set_buffer_item_time_plain update_item
mark_eof writer data_pos = do
  timed ← set_buffer_item_time_plain writer
  buffer ←
      update_item timed.buffer data_pos (λ it. record it { cells = set it.cells 0 1; length = 1 })
  ok (record timed { buffer = buffer })

-- `end` moves on to the marker.
unfoldable pub release_eof : BufferedTsOutput → ℕ → BufferedTsOutput
release_eof writer data_pos = record writer {
  buffer = record writer.buffer { end = data_pos; eos = true };
}

unfoldable pub add_eof_entry : (ℕ → ℕ) → BufferedTsOutput → Outcome BufferedTsOutput
unfolding wait_if_buffer_full mark_eof release_eof give_up_after
add_eof_entry looks writer = do
  buffer ← wait_if_buffer_full give_up_after looks 0 writer.buffer
  let data_pos = (buffer.pending + 1) % buffer.size
  marked ← mark_eof (record writer { buffer = buffer }) data_pos
  ok (release_eof marked data_pos)

unfoldable pub write_eof_to_buffered_ts_output :
    (ℕ → ℕ) → BufferedTsOutput → Outcome BufferedTsOutput
unfolding internal_flush_buffered_ts_output add_eof_entry
write_eof_to_buffered_ts_output looks writer =
    internal_flush_buffered_ts_output writer >>= λ flushed. add_eof_entry looks flushed

-- The child's view of the next item.
unfoldable pub is_eof_item : CircularBufferItem → Outcome Bool
is_eof_item it = if it.length == 1 then (at it.cells 0 >>= λ first. ok (first == 1)) else ok false

unfoldable pub relinquish : CircularBuffer → CircularBuffer
relinquish circular = record circular { start = (circular.start + 1) % circular.size }

-- received_EOF, with the buffer after it.
unfoldable pub received_eof : CircularBuffer → Outcome (Bool × CircularBuffer)
unfolding is_eof_item relinquish
received_eof circular = at circular.item circular.start >>= λ it.
    is_eof_item it >>= λ is_eof. ok (is_eof, if is_eof then relinquish circular else circular)

-- What write_circular_data hands to write_socket_data: the first `length` bytes of the item.
unfoldable pub sent_data : CircularBuffer → Outcome (List ℕ)
sent_data circular = at circular.item circular.start >>= λ it.
    if leb it.length (length it.cells) then ok (take it.length it.cells) else fault

-- What follows in it: the first byte is cleared, and the item relinquished.
unfoldable pub clear_and_relinquish : CircularBuffer → Outcome CircularBuffer
unfolding update_item relinquish
clear_and_relinquish circular =
    update_item circular circular.start (λ it. record it { cells = set it.cells 0 0 })
    >>= λ cleared. ok (relinquish cleared)
