-- ===== src/Circular/Fill.antt =====
-- Packets that the parent in include/tswrite.h puts into an item, and the flush of the item.
use mts_utils.Base.{
  ℕ, suc, ◌+◌, ◌%◌, ◌≤◌, ◌≡◌, ◌≢◌, inl, inr, refl, sym, ap, ◌∙◌, arith, List, [], ◌∷◌, ◌++◌, length,
  take, drop, set, some, get_elem?, true,
}
use mts_utils.Base.{length-append, length-take, length-drop, take-append}
use mts_utils.Base.Outcome.{ok, at}
use mathlib.Core.Path.{subst}
use mathlib.Core.List.{append_assoc, append-nil}
use mts_utils.Circular.{CircularBufferItem, BufferedTsOutput, copy_packet, complete_item, next_item}
use mts_utils.Circular.Steps.{Entry, packets, eof, filling, completed, System, Queue}
use mts_utils.Circular.Region.{get_elem?-set-same}
use mts_utils.Circular.Held.{Held, in_use-le, push, All-get}
use mts_utils.Circular.Stages.{
  at-some, with_items, copy_packet_lem, copy_packet_fits, complete_item_lem, new_time, timed,
}
use mts_utils.Circular.Refine.{
  join, join_entries, rest, put, commit, Fills, Hand, Stage, HeldBy, Represents, Matches, is_done,
}
use mts_utils.Circular.Simulate.{ok-injective, in_slot, which_in}

take-copied :
    (n : ℕ) (cells packet : List ℕ)
    → n ≤ length cells
    → take (n + length packet) (take n cells ++ packet ++ drop (n + length packet) cells)
      ≡ take n cells ++ packet
take-copied n cells packet inside =
    let count : n + length packet ≡ length (take n cells ++ packet) =
      omega (arith, length-append (take n cells) packet, length-take n cells inside) in
    ap (λ (t : ℕ). take t (take n cells ++ packet ++ drop (n + length packet) cells)) count
    ∙ take-append (take n cells ++ packet) (drop (n + length packet) cells)

length-copied :
    (n : ℕ) (cells packet : List ℕ)
    → n + length packet ≤ length cells
    → length (take n cells ++ packet ++ drop (n + length packet) cells) ≡ length cells
length-copied n cells packet inside = omega (
  arith,
  length-append (take n cells ++ packet) (drop (n + length packet) cells),
  length-append (take n cells) packet,
  length-take n cells (omega (arith, inside)),
  length-drop (n + length packet) cells,
)

pub copy-Matches :
    (s : System) (q : Queue) (packet : List ℕ) (writer : BufferedTsOutput)
    → Represents s q
    → s.parent ≡ filling
    → s.writer.started ≡ true
    → length packet ≡ 188
    → copy_packet s.writer packet ≡ ok writer
    → Matches s.writer.buffer.size (record s { writer = writer; handed = s.handed ++ packet }) q
copy-Matches s q packet writer reps is_filling started long step =
    let (same, at_slot, hand) = subst (λ p. Stage p s.writer s.child q) is_filling reps.stage in
    let (room, fills) = subst (λ b. Hand b s.writer s.child q) started hand in
    let it = fills.it in
    let fits : it.length + length packet ≤ length it.cells =
      copy_packet_fits s.writer it fills.there packet writer step in
    let new : CircularBufferItem = record it {
      cells = take it.length it.cells ++ packet ++ drop (it.length + length packet) it.cells;
      length = it.length + length packet;
    } in
    let copied = record (with_items s.writer (set s.writer.buffer.item s.writer.which new)) {
      num_packets = suc s.writer.num_packets;
    } in
    let same_writer : copied ≡ writer =
      ok-injective copied writer
        (sym (copy_packet_lem s.writer it fills.there packet fits) ∙ step) in
    let count : length new.cells ≡ length it.cells = length-copied it.length it.cells packet fits in
    let full : length it.cells ≡ s.writer.buffer.item_size =
      All-get (λ it. length it.cells ≡ s.writer.buffer.item_size) s.writer.buffer.item
        s.writer.which it reps.held.cells fills.there in
    let longer : HeldBy copied.buffer s.child q.entries =
      in_slot s q reps.held new (count ∙ full) at_slot in
    let now : Fills copied.buffer.item copied.which (q.current ++ packet) = record {
      it = new;
      there =
          get_elem?-set-same s.writer.buffer.item s.writer.which new
            (which_in s q reps.held at_slot);
      bytes =
          take-copied it.length it.cells packet fills.inside
          ∙ ap (λ (t : List ℕ). t ++ packet) fills.bytes;
      whole = inr (omega (arith, long));
      inside = omega (arith, count, fits);
    } in
    subst
      (λ w. Matches s.writer.buffer.size (record s { writer = w; handed = s.handed ++ packet }) q)
      same_writer
      (record {
        after = record q { current = q.current ++ packet };
        step = put q packet (reps.closing ∙ ap is_done is_filling);
        represents = record {
          held = longer;
          stage =
              subst (λ p. Stage p copied s.child (record q { current = q.current ++ packet }))
                (sym is_filling)
                (
                  same,
                  at_slot,
                  subst (λ b. Hand b copied s.child (record q { current = q.current ++ packet }))
                      (sym started) (room, now),
                );
          sent = reps.sent;
          closing = reps.closing;
          closed = reps.closed;
          handed =
              ap (λ (t : List ℕ). t ++ packet) reps.handed
              ∙ append_assoc (join q.out) (join_entries q.entries ++ q.current) packet
              ∙ ap (λ (t : List ℕ). join q.out ++ t)
                  (append_assoc (join_entries q.entries) q.current packet);
        };
      })

pub join_entries-snoc :
    (es : List Entry) (e : Entry)
    → join_entries (es ++ e ∷ []) ≡ join_entries es ++ join_entries (e ∷ [])
join_entries-snoc [] e = refl
join_entries-snoc (packets bytes ∷ es) e =
    ap (λ (t : List ℕ). bytes ++ t) (join_entries-snoc es e)
    ∙ sym (append_assoc bytes (join_entries es) (join_entries (e ∷ [])))
join_entries-snoc (eof ∷ es) e = join_entries-snoc es e

pub complete-Matches :
    (s : System) (q : Queue) (seen : CircularBufferItem) (writer : BufferedTsOutput)
    → Represents s q
    → s.parent ≡ filling
    → s.writer.started ≡ true
    → at s.writer.buffer.item s.writer.which ≡ ok seen
    → seen.length ≢ 0
    → complete_item s.writer ≡ ok writer
    → Matches s.writer.buffer.size (record s { writer = writer; parent = completed }) q
complete-Matches s q seen writer reps is_filling started looked not_empty step =
    let (same, at_slot, hand) = subst (λ p. Stage p s.writer s.child q) is_filling reps.stage in
    let (room, fills) = subst (λ b. Hand b s.writer s.child q) started hand in
    let it = fills.it in
    let seen_it : it ≡ seen =
      ok-injective it seen
        (sym (at-some s.writer.buffer.item s.writer.which it fills.there) ∙ looked) in
    let long : 188 ≤ it.length = elim fills.whole [
      | inl z ↦ absurd (not_empty (ap (λ (t : CircularBufferItem). t.length) (sym seen_it) ∙ z))
      | inr l ↦ l
    ] in
    let new : CircularBufferItem = record it { time = new_time s.writer it fills.there } in
    let done_item = record (timed s.writer it fills.there) {
      buffer = record (timed s.writer it fills.there).buffer { end = s.writer.which };
    } in
    let same_writer : done_item ≡ writer =
      ok-injective done_item writer (sym (complete_item_lem s.writer it fills.there) ∙ step) in
    let full : length it.cells ≡ s.writer.buffer.item_size =
      All-get (λ it. length it.cells ≡ s.writer.buffer.item_size) s.writer.buffer.item
        s.writer.which it reps.held.cells fills.there in
    let b = s.writer.buffer in
    let items = set b.item s.writer.which new in
    let there : get_elem? items ((b.end + 1) % b.size) ≡ some new =
      ap (get_elem? items) (sym at_slot)
      ∙ get_elem?-set-same b.item s.writer.which new (which_in s q reps.held at_slot) in
    let pushed : Held b.start ((b.end + 1) % b.size) b.size b.item_size items s.child
        (q.entries ++ packets q.current ∷ []) =
      push b.start b.end b.size b.item_size items s.child q.entries (packets q.current) new room
        there (fills.bytes, long, fills.inside) (in_slot s q reps.held new full at_slot) in
    let entries = q.entries ++ packets q.current ∷ [] in
    subst (λ w. Matches b.size (record s { writer = w; parent = completed }) q) same_writer
      (record {
        after = record q { entries = entries; current = [] };
        step =
            commit q (reps.closing ∙ ap is_done is_filling)
              (omega (arith, room, in_use-le s.child (length q.entries)));
        represents = record {
          held =
              subst (λ t. Held b.start t b.size b.item_size items s.child entries) (sym at_slot)
                pushed;
          stage = (refl, refl);
          sent = reps.sent;
          closing = reps.closing ∙ ap is_done is_filling;
          closed = reps.closed;
          handed =
              reps.handed
              ∙ ap (λ (t : List ℕ). join q.out ++ t)
                  (ap (λ (t : List ℕ). join_entries q.entries ++ t) (sym (append-nil q.current))
                    ∙ sym (join_entries-snoc q.entries (packets q.current))
                    ∙ sym (append-nil (join_entries entries)));
        };
      })

pub prepare-Matches :
    (s : System) (q : Queue)
    → Represents s q
    → s.parent ≡ completed
    → Matches s.writer.buffer.size (record s { writer = next_item s.writer; parent = filling }) q
unfolding next_item
prepare-Matches s q reps is_completed =
    let (at_end, no_bytes) = subst (λ p. Stage p s.writer s.child q) is_completed reps.stage in
    record {
      after = q;
      step = rest q;
      represents = record {
        held = reps.held;
        stage = (at_end, ap (λ (t : ℕ). (t + 1) % s.writer.buffer.size) at_end, no_bytes);
        sent = reps.sent;
        closing = reps.closing ∙ ap is_done is_completed;
        closed = reps.closed;
        handed = reps.handed;
      };
    }
