-- ===== src/Circular/Takes.antt =====
-- The child process of include/tswrite.h: it sends the first item, gives it back, and stops at the
-- marker of the end.
use mts_utils.Base.{
  ℕ, ◌+◌, ◌%◌, ◌≡◌, ◌≢◌, refl, sym, ap, ◌∙◌, arith, List, [], ◌∷◌, ◌++◌, length, take, set, some,
  get_elem?, Bool, true, false,
}
use mts_utils.Base.{length-set}
use mts_utils.Base.Outcome.{Outcome, ok, at_below}
use mathlib.Core.Path.{subst}
use mathlib.Core.List.{append_assoc, append-nil}
use mts_utils.Circular.{
  CircularBuffer, CircularBufferItem, circular_buffer_empty, received_eof, sent_data,
  clear_and_relinquish,
}
use mts_utils.Circular.Steps.{
  Entry, packets, eof, waiting, sending, stopped, System, Queue, with_buffer,
}
use mts_utils.Circular.Region.{mod-Ahead, get_elem?-set-other, IsEntry}
use mts_utils.Circular.Held.{All-get, read_first, give_back, drop_first}
use mts_utils.Circular.Stages.{received_eof-data, received_eof-marker, sent_data_lem, clear_lem}
use mts_utils.Circular.Refine.{
  join, join_entries, rest, take_out, finish, Stage, HeldBy, Represents, Matches, is_stopped,
}
use mts_utils.Circular.Simulate.{ok-injective}
use mts_utils.Circular.Kept.{nonempty, Stage-kept}

join-snoc : (out : List (List ℕ)) (bytes : List ℕ) → join (out ++ bytes ∷ []) ≡ join out ++ bytes
join-snoc [] bytes = append-nil bytes
join-snoc (x ∷ out) bytes =
    ap (λ (t : List ℕ). x ++ t) (join-snoc out bytes) ∙ sym (append_assoc x (join out) bytes)

abbrev Answer : Type 0
Answer = Outcome (Bool × CircularBuffer)

false_is_not_true : (b c : CircularBuffer) → ◌≡◌ {A = Answer} (ok (false, b)) (ok (true, c)) → ⊥
false_is_not_true b c e = cc

module _ (s : System) (q : Queue) (reps : Represents s q) (waits : s.child ≡ waiting) where
  send_entry :
      (e : Entry) (es : List Entry) (it : CircularBufferItem) (bytes : List ℕ)
      → q.entries ≡ e ∷ es
      → HeldBy s.writer.buffer waiting (e ∷ es)
      → get_elem? s.writer.buffer.item s.writer.buffer.start ≡ some it
      → IsEntry e it
      → received_eof s.writer.buffer ≡ ok (false, s.writer.buffer)
      → sent_data s.writer.buffer ≡ ok bytes
      → Matches s.writer.buffer.size (record s { child = sending; sent = s.sent ++ bytes ∷ [] }) q
  send_entry eof es it bytes entries held there (one, byte) not_eof read = absurd (
      false_is_not_true s.writer.buffer
        (record s.writer.buffer { start = (s.writer.buffer.start + 1) % s.writer.buffer.size })
        (sym not_eof ∙ received_eof-marker s.writer.buffer it there one byte))
  send_entry (packets bs) es it bytes entries held there (same, long, inside) not_eof read =
      let b = s.writer.buffer in
      let sent : bs ≡ bytes =
        sym same
        ∙ ok-injective (take it.length it.cells) bytes
            (sym (sent_data_lem b it there inside) ∙ read) in
      let q2 : Queue = record q { entries = es; out = q.out ++ bs ∷ [] } in
      subst (λ t. Matches b.size (record s { child = sending; sent = s.sent ++ t ∷ [] }) q) sent
        (record {
          after = q2;
          step = take_out q bs es entries;
          represents = record {
            held = read_first b.start b.end b.size b.item_size b.item (packets bs) es held;
            stage =
                Stage-kept s.writer waiting sending q q2 b.item b.start
                  (omega (arith, ap length entries)) refl refl s.parent
                  (subst (λ c. Stage s.parent s.writer c q) waits reps.stage);
            sent = ap (λ (t : List (List ℕ)). t ++ bs ∷ []) reps.sent;
            closing = reps.closing;
            closed = reps.closed ∙ ap is_stopped waits;
            handed =
                reps.handed
                ∙ ap (λ (t : List Entry). join q.out ++ (join_entries t ++ q.current)) entries
                ∙ ap (λ (t : List ℕ). join q.out ++ t) (append_assoc bs (join_entries es) q.current)
                ∙ sym (append_assoc (join q.out) bs (join_entries es ++ q.current))
                ∙ ap (λ (t : List ℕ). t ++ (join_entries es ++ q.current))
                    (sym (join-snoc q.out bs));
          };
        })

  stop_entry :
      (e : Entry) (es : List Entry) (it : CircularBufferItem) (buffer : CircularBuffer)
      → q.entries ≡ e ∷ es
      → HeldBy s.writer.buffer waiting (e ∷ es)
      → get_elem? s.writer.buffer.item s.writer.buffer.start ≡ some it
      → IsEntry e it
      → received_eof s.writer.buffer ≡ ok (true, buffer)
      → Matches s.writer.buffer.size (record (with_buffer s buffer) { child = stopped }) q
  stop_entry (packets bs) es it buffer entries held there (same, long, inside) is_eof = absurd (
      false_is_not_true s.writer.buffer buffer
        (sym (received_eof-data s.writer.buffer it there long) ∙ is_eof))
  stop_entry eof es it buffer entries held there (one, byte) is_eof =
      let b = s.writer.buffer in
      let after : CircularBuffer = record b { start = (b.start + 1) % b.size } in
      let same : after ≡ buffer =
        ap (λ (t : Bool × CircularBuffer). t.1)
          (ok-injective {A = Bool × CircularBuffer} (true, after) (true, buffer)
            (sym (received_eof-marker b it there one byte) ∙ is_eof)) in
      let q2 : Queue = record q { entries = es; closed = true } in
      subst (λ t. Matches b.size (record (with_buffer s t) { child = stopped }) q) same
        (record {
          after = q2;
          step = finish q es entries;
          represents = record {
            held = drop_first b.start b.end b.size b.item_size b.item eof es held;
            stage =
                Stage-kept s.writer waiting stopped q q2 b.item ((b.start + 1) % b.size)
                  (omega (arith, ap length entries)) refl refl s.parent
                  (subst (λ c. Stage s.parent s.writer c q) waits reps.stage);
            sent = reps.sent;
            closing = reps.closing;
            closed = refl;
            handed =
                reps.handed
                ∙ ap (λ (t : List Entry). join q.out ++ (join_entries t ++ q.current)) entries;
          };
        })

  waiting_held : HeldBy s.writer.buffer waiting q.entries
  waiting_held = subst (λ c. HeldBy s.writer.buffer c q.entries) waits reps.held

  pub send-Matches :
      (bytes : List ℕ)
      → circular_buffer_empty s.writer.buffer ≡ false
      → received_eof s.writer.buffer ≡ ok (false, s.writer.buffer)
      → sent_data s.writer.buffer ≡ ok bytes
      → Matches s.writer.buffer.size (record s { child = sending; sent = s.sent ++ bytes ∷ [] }) q
  send-Matches bytes not_empty not_eof read =
      let (e, es, entries) = nonempty s.writer.buffer q.entries waiting_held not_empty in
      let held = subst (HeldBy s.writer.buffer waiting) entries waiting_held in
      let (it, there, good) = held.holds.0 in
      send_entry e es it bytes entries held there good not_eof read

  pub stop-Matches :
      (buffer : CircularBuffer)
      → circular_buffer_empty s.writer.buffer ≡ false
      → received_eof s.writer.buffer ≡ ok (true, buffer)
      → Matches s.writer.buffer.size (record (with_buffer s buffer) { child = stopped }) q
  stop-Matches buffer not_empty is_eof =
      let (e, es, entries) = nonempty s.writer.buffer q.entries waiting_held not_empty in
      let held = subst (HeldBy s.writer.buffer waiting) entries waiting_held in
      let (it, there, good) = held.holds.0 in
      stop_entry e es it buffer entries held there good is_eof

pub advance-Matches :
    (s : System) (q : Queue) (buffer : CircularBuffer)
    → Represents s q
    → s.child ≡ sending
    → clear_and_relinquish s.writer.buffer ≡ ok buffer
    → Matches s.writer.buffer.size (record (with_buffer s buffer) { child = waiting }) q
advance-Matches s q buffer reps sends step =
    let b = s.writer.buffer in
    let held : HeldBy b sending q.entries = subst (λ c. HeldBy b c q.entries) sends reps.held in
    let (it, there, byte) = at_below b.item b.start (omega (arith, held.start_in, held.count)) in
    let full : length it.cells ≡ b.item_size =
      All-get (λ it. length it.cells ≡ b.item_size) b.item b.start it held.cells there in
    let cleared : CircularBufferItem = record it { cells = set it.cells 0 0 } in
    let after : CircularBuffer = record b {
      item = set b.item b.start cleared;
      start = (b.start + 1) % b.size;
    } in
    let same : after ≡ buffer = ok-injective after buffer (sym (clear_lem b it there) ∙ step) in
    let (slot_in, one) = mod-Ahead b.size b.end 1 held.end_in (omega (arith, held.two)) in
    let other : (b.end + 1) % b.size ≢ b.start =
      λ e. omega (arith, e, held.span, held.fits, held.start_in) in
    subst (λ t. Matches b.size (record (with_buffer s t) { child = waiting }) q) same
      (record {
        after = q;
        step = rest q;
        represents = record {
          held =
              give_back b.start b.end b.size b.item_size b.item q.entries cleared
                (length-set it.cells 0 0 ∙ full) held;
          stage =
              Stage-kept s.writer sending waiting q q (set b.item b.start cleared)
                ((b.start + 1) % b.size) (omega arith) refl
                (get_elem?-set-other b.item ((b.end + 1) % b.size) b.start cleared other) s.parent
                (subst (λ c. Stage s.parent s.writer c q) sends reps.stage);
          sent = reps.sent;
          closing = reps.closing;
          closed = reps.closed ∙ ap is_stopped sends;
          handed = reps.handed;
        };
      })
