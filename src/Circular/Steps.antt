-- ===== src/Circular/Steps.antt =====
-- The parent and the child of include/tswrite.h at work on one circular buffer. A step is one of the
-- stages of write_to_buffered_TS_output, write_EOF_to_buffered_TS_output or write_from_circular, so
-- that either process may be stopped between two stages of the other.
use mts_utils.Base.{ℕ, ◌+◌, ◌%◌, ◌≡◌, ◌≢◌, Bool, true, false, List, [], ◌∷◌, ◌++◌, length}
use mts_utils.Base.Outcome.{ok}
use mts_utils.Circular.{
  BufferedTsOutput, CircularBuffer, circular_buffer_empty, circular_buffer_full, start_item,
  copy_packet, complete_item, next_item, mark_eof, release_eof, received_eof, sent_data,
  clear_and_relinquish, CircularBufferItem,
}
use mts_utils.Base.Outcome.{at}

-- Where the parent is.
pub data Parent : Type 0 where
  filling : Parent
  completed : Parent
  marked : Parent
  done : Parent

-- Where the child is.
pub data Child : Type 0 where
  waiting : Child
  sending : Child
  stopped : Child

-- `handed` is all that the parent was handed, and `sent` what the child has handed on, item by item.
pub record System : Type 0 where
  pub writer : BufferedTsOutput
  pub parent : Parent
  pub child : Child
  pub handed : List ℕ
  pub sent : List (List ℕ)

abbrev pub with_buffer : System → CircularBuffer → System
with_buffer s buffer = record s { writer = record s.writer { buffer = buffer } }

pub data Step : System → System → Type 0 where
  -- behind wait_if_buffer_full
  start :
      (s : System) (writer : BufferedTsOutput)
      → s.parent ≡ filling
      → s.writer.started ≡ false
      → circular_buffer_full s.writer.buffer ≡ false
      → start_item s.writer ≡ ok writer
      → Step s (record s { writer = writer })
  copy :
      (s : System) (packet : List ℕ) (writer : BufferedTsOutput)
      → s.parent ≡ filling
      → s.writer.started ≡ true
      → length packet ≡ 188
      → copy_packet s.writer packet ≡ ok writer
      → Step s (record s { writer = writer; handed = s.handed ++ packet })
  -- the two stages of a flush
  complete :
      (s : System) (it : CircularBufferItem) (writer : BufferedTsOutput)
      → s.parent ≡ filling
      → s.writer.started ≡ true
      → at s.writer.buffer.item s.writer.which ≡ ok it
      → it.length ≢ 0
      → complete_item s.writer ≡ ok writer
      → Step s (record s { writer = writer; parent = completed })
  prepare :
      (s : System)
      → s.parent ≡ completed
      → Step s (record s { writer = next_item s.writer; parent = filling })
  -- the two stages of add_eof_entry, behind wait_if_buffer_full
  mark :
      (s : System) (writer : BufferedTsOutput)
      → s.parent ≡ filling
      → s.writer.started ≡ false
      → circular_buffer_full s.writer.buffer ≡ false
      → mark_eof s.writer ((s.writer.buffer.pending + 1) % s.writer.buffer.size) ≡ ok writer
      → Step s (record s { writer = writer; parent = marked })
  release :
      (s : System)
      → s.parent ≡ marked
      → Step s (record s {
        writer = release_eof s.writer ((s.writer.buffer.pending + 1) % s.writer.buffer.size);
        parent = done;
      })
  -- behind wait_if_buffer_empty
  send :
      (s : System) (bytes : List ℕ)
      → s.child ≡ waiting
      → circular_buffer_empty s.writer.buffer ≡ false
      → received_eof s.writer.buffer ≡ ok (false, s.writer.buffer)
      → sent_data s.writer.buffer ≡ ok bytes
      → Step s (record s { child = sending; sent = s.sent ++ bytes ∷ [] })
  advance :
      (s : System) (buffer : CircularBuffer)
      → s.child ≡ sending
      → clear_and_relinquish s.writer.buffer ≡ ok buffer
      → Step s (record (with_buffer s buffer) { child = waiting })
  stop :
      (s : System) (buffer : CircularBuffer)
      → s.child ≡ waiting
      → circular_buffer_empty s.writer.buffer ≡ false
      → received_eof s.writer.buffer ≡ ok (true, buffer)
      → Step s (record (with_buffer s buffer) { child = stopped })

pub data Reach (s : System) : System → Type 0 where
  here : Reach s s
  next : {t u : System} → Reach s t → Step t u → Reach s u

-- The queue that the buffer stands for: items that are complete, the item that is being filled, and
-- what has come out. `closing` is whether the end has been put in, and `closed` whether it has come out.
pub data Entry : Type 0 where
  packets : List ℕ → Entry
  eof : Entry

pub record Queue : Type 0 where
  pub entries : List Entry
  pub current : List ℕ
  pub out : List (List ℕ)
  pub closing : Bool
  pub closed : Bool
