-- ===== src/Circular/Stages.antt =====
-- What the stages of the parent and of the child in include/tswrite.h do to the buffer, where the
-- item that they are about is there.
use mts_utils.Base.{
  ℕ, suc, ◌+◌, ◌*◌, ◌/◌, ◌%◌, ◌^◌, ◌≤◌, ◌≡◌, refl, arith, List, ◌++◌, length, take, drop, set, some,
  get_elem?, Bool-cases, inl, inr, true, false, leb, ==-eq-true, ==-eq-false,
}
use mts_utils.Base.Outcome.{ok, fault, at}
use mts_utils.Circular.{
  CircularBuffer, CircularBufferItem, BufferedTsOutput, start_item, copy_packet, copy_to,
  complete_item, mark_eof, update_item, set_buffer_item_time_plain, received_eof, is_eof_item,
  relinquish, sent_data, clear_and_relinquish,
}

pub at-some {ℓ} :
    {A : Type ℓ} (xs : List A) (i : ℕ) (x : A) → get_elem? xs i ≡ some x → at xs i ≡ ok x
at-some xs i x h = rw (at, h) refl

fault_is_not_ok {ℓ} : {A : Type ℓ} (a : A) → fault ≡ ok a → ⊥
fault_is_not_ok a e = cc

abbrev pub with_items : BufferedTsOutput → List CircularBufferItem → BufferedTsOutput
with_items writer items = record writer { buffer = record writer.buffer { item = items } }

module _ (writer : BufferedTsOutput) (it : CircularBufferItem)
    (there : get_elem? writer.buffer.item writer.which ≡ some it) where
  here : at writer.buffer.item writer.which ≡ ok it
  here = at-some writer.buffer.item writer.which it there

  pub start_item_lem :
      start_item writer
      ≡ ok
          (record (with_items writer
            (set writer.buffer.item writer.which (record it { length = 0 }))) {
              started = true;
              num_packets = 0;
            })
  unfolding start_item update_item
  start_item_lem = rw here refl

  pub copy_packet_lem :
      (packet : List ℕ)
      → it.length + length packet ≤ length it.cells
      → copy_packet writer packet
        ≡ ok
            (record (with_items writer (
              set writer.buffer.item writer.which (record it {
                cells =
                    take it.length it.cells ++ packet ++ drop (it.length + length packet) it.cells;
                length = it.length + length packet;
              }))) { num_packets = suc writer.num_packets })
  unfolding copy_packet copy_to
  copy_packet_lem packet fits =
      let e : leb (it.length + length packet) (length it.cells) ≡ true = ground arith in
      rw (here, e) refl

  pub copy_packet_fits :
      (packet : List ℕ) (after : BufferedTsOutput)
      → copy_packet writer packet ≡ ok after
      → it.length + length packet ≤ length it.cells
  unfolding copy_packet copy_to
  copy_packet_fits packet after h =
      elim (Bool-cases (leb (it.length + length packet) (length it.cells))) [
        | inl e ↦ ground arith
        | inr e ↦
            let faulty : fault ≡ ok after = rw (here, e) at h in
            absurd (fault_is_not_ok after faulty)
      ]

  abbrev pub new_time : ℕ
  new_time = (writer.last_time + writer.num_packets * 188 * 1000000 / writer.rate) % 2 ^ 32

  abbrev pub timed : BufferedTsOutput
  timed =
      record (with_items writer
        (set writer.buffer.item writer.which (record it { time = new_time }))) {
          last_time = new_time;
        }

  set_time_lem : set_buffer_item_time_plain writer ≡ ok timed
  unfolding set_buffer_item_time_plain update_item
  set_time_lem = rw here refl

  pub complete_item_lem :
      complete_item writer
      ≡ ok (record timed { buffer = record timed.buffer { end = writer.which } })
  unfolding complete_item
  complete_item_lem = rw set_time_lem refl

  pub mark_eof_lem :
      (marked_it : CircularBufferItem)
      → get_elem? timed.buffer.item writer.which ≡ some marked_it
      → mark_eof writer writer.which
        ≡ ok (
            with_items timed (
              set timed.buffer.item writer.which
                (record marked_it { cells = set marked_it.cells 0 1; length = 1 })))
  unfolding mark_eof update_item
  mark_eof_lem marked_it h =
      rw set_time_lem (rw (at-some timed.buffer.item writer.which marked_it h) refl)

module _ (circular : CircularBuffer) (it : CircularBufferItem)
    (there : get_elem? circular.item circular.start ≡ some it) where
  at_start : at circular.item circular.start ≡ ok it
  at_start = at-some circular.item circular.start it there

  pub received_eof-data : 188 ≤ it.length → received_eof circular ≡ ok (false, circular)
  unfolding received_eof is_eof_item
  received_eof-data long = rw (at_start, ==-eq-false it.length 1 (λ e. omega (arith, e))) refl

  pub received_eof-marker :
      it.length ≡ 1
      → get_elem? it.cells 0 ≡ some 1
      → received_eof circular
        ≡ ok (true, record circular { start = (circular.start + 1) % circular.size })
  unfolding received_eof is_eof_item relinquish
  received_eof-marker one byte =
      rw (at_start, ==-eq-true it.length 1 one, at-some it.cells 0 1 byte) refl

  pub sent_data_lem :
      it.length ≤ length it.cells → sent_data circular ≡ ok (take it.length it.cells)
  unfolding sent_data
  sent_data_lem inside =
      let e : leb it.length (length it.cells) ≡ true = ground arith in rw (at_start, e) refl

  pub clear_lem :
      clear_and_relinquish circular
      ≡ ok (record circular {
        item = set circular.item circular.start (record it { cells = set it.cells 0 0 });
        start = (circular.start + 1) % circular.size;
      })
  unfolding clear_and_relinquish update_item relinquish
  clear_lem = rw at_start refl
