-- ===== src/Circular/Simulate.antt =====
-- Each step of the parent in include/tswrite.h is one of the queue, or none.
use mts_utils.Base.{
  ℕ, suc, ◌+◌, ◌%◌, ◌<◌, ◌≡◌, ◌≢◌, inl, refl, sym, ap, ◌∙◌, arith, [], length, set, some, get_elem?,
  true, false, ==-eq-true,
}
use mts_utils.Base.Outcome.{ok, err, fault, at_below}
use mathlib.Core.Path.{subst}
use mts_utils.Circular.{CircularBufferItem, BufferedTsOutput, circular_buffer_full, start_item}
use mts_utils.Circular.Steps.{filling, System, Queue}
use mts_utils.Circular.Region.{Ahead, mod-Ahead, get_elem?-set-same}
use mts_utils.Circular.Held.{in_use, write_slot, All-get}
use mts_utils.Circular.Stages.{with_items, start_item_lem}
use mts_utils.Circular.Refine.{rest, HasRoom, Hand, Stage, HeldBy, Represents, Matches}

pub ok-injective {ℓ} : {A : Type ℓ} (a b : A) → ok a ≡ ok b → a ≡ b
ok-injective a b e = ap (λ r. elim r [ ok x ↦ x | err ↦ a | fault ↦ a ]) e

pub true_is_not_false : true ≡ false → ⊥
true_is_not_false e = cc

not_last :
    (n start end used slot two : ℕ)
    → start < n
    → end < n
    → used < n
    → slot < n
    → two < n
    → Ahead n end 1 slot
    → Ahead n end 2 two
    → Ahead n start used slot
    → two ≢ start
    → suc used < n
not_last n start end used slot two start_in end_in used_in slot_in two_in one further span other =
    ground arith

-- A buffer that is not full has room for an entry.
pub has_room :
    (s : System) (q : Queue)
    → HeldBy s.writer.buffer s.child q.entries
    → s.writer.buffer.pending ≡ s.writer.buffer.end
    → circular_buffer_full s.writer.buffer ≡ false
    → HasRoom s.writer s.child q.entries
unfolding circular_buffer_full
has_room s q held same not_full =
    let b = s.writer.buffer in
    let (slot_in, one) = mod-Ahead b.size b.end 1 held.end_in (omega (arith, held.two)) in
    let (two_in, further) = mod-Ahead b.size b.end 2 held.end_in held.two in
    let pending_two : (b.pending + 2) % b.size ≡ (b.end + 2) % b.size =
      ap (λ (t : ℕ). (t + 2) % b.size) same in
    let other : (b.end + 2) % b.size ≢ b.start = λ e.
      true_is_not_false
        (sym (==-eq-true ((b.pending + 2) % b.size) b.start (pending_two ∙ e)) ∙ not_full) in
    not_last b.size b.start b.end (in_use s.child (length q.entries)) ((b.end + 1) % b.size)
      ((b.end + 2) % b.size) held.start_in held.end_in held.fits slot_in two_in one further
      held.span other

module _ (s : System) (q : Queue) (held : HeldBy s.writer.buffer s.child q.entries) where
  slot_in : (s.writer.buffer.end + 1) % s.writer.buffer.size < s.writer.buffer.size
  slot_in =
      (mod-Ahead s.writer.buffer.size s.writer.buffer.end 1 held.end_in (omega (arith, held.two))).0

  -- The item behind the entries
  pub slot_there :
      (it : CircularBufferItem) × (get_elem? s.writer.buffer.item
          ((s.writer.buffer.end + 1) % s.writer.buffer.size)
        ≡ some it)
      × (length it.cells ≡ s.writer.buffer.item_size)
  slot_there =
      let slot = (s.writer.buffer.end + 1) % s.writer.buffer.size in
      let (it, there, byte) =
        at_below s.writer.buffer.item slot (omega (arith, slot_in, held.count)) in
      (
        it,
        there,
        All-get (λ it. length it.cells ≡ s.writer.buffer.item_size) s.writer.buffer.item slot it
            held.cells there,
      )

  -- Another item in its place
  pub in_slot :
      (it : CircularBufferItem)
      → length it.cells ≡ s.writer.buffer.item_size
      → s.writer.which ≡ (s.writer.buffer.end + 1) % s.writer.buffer.size
      → HeldBy
          (record s.writer.buffer { item = set s.writer.buffer.item s.writer.which it })
          s.child
          q.entries
  in_slot it full at_slot =
      subst
        (λ t.
          HeldBy (record s.writer.buffer { item = set s.writer.buffer.item t it }) s.child
            q.entries)
        (sym at_slot)
        (write_slot s.writer.buffer.start s.writer.buffer.end s.writer.buffer.size
          s.writer.buffer.item_size s.writer.buffer.item s.child q.entries it full held)

  pub which_in :
      s.writer.which ≡ (s.writer.buffer.end + 1) % s.writer.buffer.size
      → s.writer.which < length s.writer.buffer.item
  which_in at_slot = omega (arith, slot_in, held.count, at_slot)

pub start-Matches :
    (s : System) (q : Queue) (writer : BufferedTsOutput)
    → Represents s q
    → s.parent ≡ filling
    → s.writer.started ≡ false
    → circular_buffer_full s.writer.buffer ≡ false
    → start_item s.writer ≡ ok writer
    → Matches s.writer.buffer.size (record s { writer = writer }) q
start-Matches s q writer reps is_filling not_started not_full step =
    let (same, at_slot, hand) = subst (λ p. Stage p s.writer s.child q) is_filling reps.stage in
    let no_bytes : q.current ≡ [] = subst (λ b. Hand b s.writer s.child q) not_started hand in
    let (it, there0, full) = slot_there s q reps.held in
    let there : get_elem? s.writer.buffer.item s.writer.which ≡ some it =
      ap (get_elem? s.writer.buffer.item) at_slot ∙ there0 in
    let new : CircularBufferItem = record it { length = 0 } in
    let started = record (with_items s.writer (set s.writer.buffer.item s.writer.which new)) {
      started = true;
      num_packets = 0;
    } in
    let same_writer : started ≡ writer =
      ok-injective started writer (sym (start_item_lem s.writer it there) ∙ step) in
    subst (λ w. Matches s.writer.buffer.size (record s { writer = w }) q) same_writer
      (record {
        after = q;
        step = rest q;
        represents = record {
          held = in_slot s q reps.held new full at_slot;
          stage =
              subst (λ p. Stage p started s.child q) (sym is_filling)
                (
                  same,
                  at_slot,
                  (
                    has_room s q reps.held same not_full,
                    record {
                      it = new;
                      there =
                          get_elem?-set-same s.writer.buffer.item s.writer.which new
                            (which_in s q reps.held at_slot);
                      bytes = sym no_bytes;
                      whole = inl refl;
                      inside = omega arith;
                    },
                  ),
                );
          sent = reps.sent;
          closing = reps.closing;
          closed = reps.closed;
          handed = reps.handed;
        };
      })
