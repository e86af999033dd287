-- ===== src/Circular/Runs.antt =====
-- A circular buffer of three items, of a packet each.
use mts_utils.Base.{ℕ, ◌≡◌, ◌∷◌, refl, arith, List, [], replicate, false}
use mts_utils.Base.Outcome.{Outcome, ok, err, fault}
use mts_utils.Circular.{
  BufferedTsOutput, write_to_buffered_ts_output, wait_if_buffer_full, circular_buffer_full,
  circular_buffer_jammed, circular_buffer_empty, start_item, copy_packet, copy_to, update_item,
  internal_flush_buffered_ts_output, complete_item, next_item, set_buffer_item_time_plain,
  build_buffered_ts_output, map_circular_buffer, give_up_after, received_eof, is_eof_item,
  sent_data, relinquish,
}
use mts_utils.Circular.Steps.{System, Reach, next, Step, start, send, sending}
use mts_utils.Circular.Refine.{Matches}
use mts_utils.Circular.Safety.{fresh, empty, fresh-Represents, SendsInOrder, Reach-SendsInOrder}
use mts_utils.Circular.Ordered.{Step-Matches}
use mts_utils.Circular.Calls.{between, write-Reach}

abbrev packet : List ℕ
packet = 0x47 ∷ replicate 187 0xFF

abbrev begin : System
begin = fresh 3 1 250000

or_begin : Outcome BufferedTsOutput → BufferedTsOutput
or_begin (ok writer) = writer
or_begin err = begin.writer
or_begin fault = begin.writer

abbrev begun : BufferedTsOutput
begun = or_begin (start_item begin.writer)

abbrev written : BufferedTsOutput
written =
    or_begin (write_to_buffered_ts_output (λ t. begin.writer.buffer.start) begin.writer packet)

-- The writer wrote the packet, and the child finds it.
written_lem :
    (write_to_buffered_ts_output (λ t. begin.writer.buffer.start) begin.writer packet ≡ ok written)
    × (circular_buffer_empty written.buffer ≡ false)
    × (received_eof written.buffer ≡ ok (false, written.buffer))
    × (sent_data written.buffer ≡ ok packet)
unfolding write_to_buffered_ts_output wait_if_buffer_full circular_buffer_full
    circular_buffer_jammed start_item copy_packet copy_to update_item
    internal_flush_buffered_ts_output complete_item next_item set_buffer_item_time_plain
    build_buffered_ts_output map_circular_buffer give_up_after or_begin circular_buffer_empty
    received_eof is_eof_item relinquish sent_data
written_lem = (refl, refl, refl, refl)

begun_lem :
    (begin.writer.started ≡ false)
    × (circular_buffer_full begin.writer.buffer ≡ false)
    × (start_item begin.writer ≡ ok begun)
unfolding circular_buffer_full start_item update_item build_buffered_ts_output map_circular_buffer
    or_begin
begun_lem = (refl, refl, refl)

first-Step : Step begin (record begin { writer = begun })
first-Step = start begin begun refl begun_lem.0 begun_lem.1 begun_lem.2

written-Reach : Reach begin (between begin written packet)
written-Reach = write-Reach begin packet written refl refl written_lem.0

-- The packet is complete and has been sent.
abbrev after_send : System
after_send = record (between begin written packet) { child = sending; sent = packet ∷ [] }

Step-Matches_example : Matches begin.writer.buffer.size (record begin { writer = begun }) empty
Step-Matches_example =
    Step-Matches empty (fresh-Represents 3 1 250000 (omega arith) (omega arith)) first-Step

write-Reach_example : Reach begin (between begin written packet)
write-Reach_example = write-Reach begin packet written refl refl written_lem.0

Reach-SendsInOrder_example : SendsInOrder after_send
Reach-SendsInOrder_example = Reach-SendsInOrder 3 1 250000 (omega arith) (omega arith) (
    next written-Reach
      (send (between begin written packet) packet refl written_lem.1 written_lem.2 written_lem.3))
