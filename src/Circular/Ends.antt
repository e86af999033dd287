-- ===== src/Circular/Ends.antt =====
-- The end of the data, in include/tswrite.h: the parent's add_eof_entry, and the child, which takes
-- items from the buffer until it finds the marker.
use mts_utils.Base.{
  ℕ, ◌+◌, ◌%◌, ◌<◌, ◌≡◌, refl, sym, ap, ◌∙◌, arith, List, [], ◌∷◌, ◌++◌, length, set, some,
  get_elem?, true, false,
}
use mts_utils.Base.{length-set}
use mts_utils.Base.Outcome.{ok}
use mathlib.Core.Path.{subst}
use mathlib.Core.List.{append-nil}
use mts_utils.Circular.{
  CircularBufferItem, BufferedTsOutput, circular_buffer_full, mark_eof, release_eof,
}
use mts_utils.Circular.Steps.{eof, filling, marked, done, System, Queue}
use mts_utils.Circular.Region.{get_elem?-set-same}
use mts_utils.Circular.Held.{Held, in_use-le, write_slot, push}
use mts_utils.Circular.Stages.{mark_eof_lem, new_time, timed, with_items}
use mts_utils.Circular.Refine.{
  join, join_entries, rest, close, Hand, Stage, Represents, Matches, is_done,
}
use mts_utils.Circular.Simulate.{ok-injective, has_room, slot_there, in_slot, which_in}
use mts_utils.Circular.Fill.{join_entries-snoc}

pub mark-Matches :
    (s : System) (q : Queue) (writer : BufferedTsOutput)
    → Represents s q
    → s.parent ≡ filling
    → s.writer.started ≡ false
    → circular_buffer_full s.writer.buffer ≡ false
    → mark_eof s.writer ((s.writer.buffer.pending + 1) % s.writer.buffer.size) ≡ ok writer
    → Matches s.writer.buffer.size (record s { writer = writer; parent = marked }) q
mark-Matches s q writer reps is_filling not_started not_full step =
    let (same, at_slot, hand) = subst (λ p. Stage p s.writer s.child q) is_filling reps.stage in
    let no_bytes : q.current ≡ [] = subst (λ b. Hand b s.writer s.child q) not_started hand in
    let (it, there0, full) = slot_there s q reps.held in
    let b = s.writer.buffer in
    let slot = (b.end + 1) % b.size in
    let there : get_elem? b.item s.writer.which ≡ some it =
      ap (get_elem? b.item) at_slot ∙ there0 in
    let timed_it : CircularBufferItem = record it { time = new_time s.writer it there } in
    let items = set b.item s.writer.which timed_it in
    let held1 : Held b.start b.end b.size b.item_size items s.child q.entries =
      in_slot s q reps.held timed_it full at_slot in
    let again : get_elem? items s.writer.which ≡ some timed_it =
      get_elem?-set-same b.item s.writer.which timed_it (which_in s q reps.held at_slot) in
    let marker : CircularBufferItem = record timed_it { cells = set it.cells 0 1; length = 1 } in
    let after = with_items (timed s.writer it there) (set items s.writer.which marker) in
    let pos : (b.pending + 1) % b.size ≡ s.writer.which =
      ap (λ (t : ℕ). (t + 1) % b.size) same ∙ sym at_slot in
    let same_writer : after ≡ writer = ok-injective after writer (
      sym (mark_eof_lem s.writer it there timed_it again)
      ∙ sym (ap (mark_eof s.writer) pos)
      ∙ step) in
    let marker_full : length marker.cells ≡ b.item_size = length-set it.cells 0 1 ∙ full in
    let held2 : Held b.start b.end b.size b.item_size (set items slot marker) s.child q.entries =
      write_slot b.start b.end b.size b.item_size items s.child q.entries marker marker_full
        held1 in
    let inside : s.writer.which < length items =
      omega (arith, which_in s q reps.held at_slot, length-set b.item s.writer.which timed_it) in
    subst (λ w. Matches b.size (record s { writer = w; parent = marked }) q) same_writer
      (record {
        after = q;
        step = rest q;
        represents = record {
          held =
              subst
                (λ t. Held b.start b.end b.size b.item_size (set items t marker) s.child q.entries)
                (sym at_slot) held2;
          stage = (
            same,
            has_room s q reps.held same not_full,
            (
              marker,
              ap (get_elem? (set items s.writer.which marker)) (sym at_slot)
                  ∙ get_elem?-set-same items s.writer.which marker inside,
              refl,
              get_elem?-set-same it.cells 0 1 (omega (arith, full, reps.held.large)),
            ),
            no_bytes,
          );
          sent = reps.sent;
          closing = reps.closing ∙ ap is_done is_filling;
          closed = reps.closed;
          handed = reps.handed;
        };
      })

pub release-Matches :
    (s : System) (q : Queue)
    → Represents s q
    → s.parent ≡ marked
    → Matches s.writer.buffer.size
        (record s {
          writer = release_eof s.writer ((s.writer.buffer.pending + 1) % s.writer.buffer.size);
          parent = done;
        })
        q
unfolding release_eof
release-Matches s q reps is_marked =
    let (same, room, (marker, there, one, byte), no_bytes) =
      subst (λ p. Stage p s.writer s.child q) is_marked reps.stage in
    let b = s.writer.buffer in
    let pos : (b.pending + 1) % b.size ≡ (b.end + 1) % b.size =
      ap (λ (t : ℕ). (t + 1) % b.size) same in
    let entries = q.entries ++ eof ∷ [] in
    record {
      after = record q { entries = entries; closing = true };
      step =
          close q (reps.closing ∙ ap is_done is_marked) no_bytes
            (omega (arith, room, in_use-le s.child (length q.entries)));
      represents = record {
        held =
            subst (λ t. Held b.start t b.size b.item_size b.item s.child entries) (sym pos)
              (push b.start b.end b.size b.item_size b.item s.child q.entries eof marker room there
                (one, byte) reps.held);
        stage = no_bytes;
        sent = reps.sent;
        closing = refl;
        closed = reps.closed;
        handed =
            reps.handed
            ∙ ap (λ (t : List ℕ). join q.out ++ (t ++ q.current))
                (sym (append-nil (join_entries q.entries)) ∙ sym (join_entries-snoc q.entries eof));
      };
    }
