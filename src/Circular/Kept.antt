-- ===== src/Circular/Kept.antt =====
-- What the parent of include/tswrite.h has in hand while the child process changes the buffer.
use mts_utils.Base.{
  ℕ, ◌+◌, ◌%◌, ◌≤◌, ◌≡◌, refl, sym, ap, ◌∙◌, arith, List, [], ◌∷◌, length, get_elem?, Bool, true,
  false, ==-eq-true,
}
use mts_utils.Circular.{CircularBuffer, CircularBufferItem, BufferedTsOutput, circular_buffer_empty}
use mts_utils.Circular.Steps.{
  Entry, Child, waiting, Parent, filling, completed, marked, done, Queue,
}
use mts_utils.Circular.Region.{mod-Ahead}
use mts_utils.Circular.Held.{in_use}
use mts_utils.Circular.Refine.{Hand, Stage, HeldBy, Fills}
use mts_utils.Circular.Simulate.{true_is_not_false}

-- A buffer that is not empty holds an entry.
pub nonempty :
    (b : CircularBuffer) (entries : List Entry)
    → HeldBy b waiting entries
    → circular_buffer_empty b ≡ false
    → (e : Entry) × (es : List Entry) × (entries ≡ e ∷ es)
unfolding circular_buffer_empty
nonempty b [] held not_empty =
    let (slot_in, one) = mod-Ahead b.size b.end 1 held.end_in (omega (arith, held.two)) in
    let same : b.start ≡ (b.end + 1) % b.size = omega (arith, held.span, held.start_in) in
    absurd (true_is_not_false (sym (==-eq-true b.start ((b.end + 1) % b.size) same) ∙ not_empty))
nonempty b (e ∷ es) held not_empty = (e, es, refl)

-- The parent goes on undisturbed where the child changes another item and moves `start`.
abbrev pub moved : BufferedTsOutput → List CircularBufferItem → ℕ → BufferedTsOutput
moved w items start = record w { buffer = record w.buffer { item = items; start = start } }

Fills-kept :
    (items items2 : List CircularBufferItem) (which : ℕ) (current current2 : List ℕ)
    → get_elem? items2 which ≡ get_elem? items which
    → current2 ≡ current
    → Fills items which current
    → Fills items2 which current2
Fills-kept items items2 which current current2 kept same fills = record {
  it = fills.it;
  there = kept ∙ fills.there;
  bytes = fills.bytes ∙ sym same;
  whole = fills.whole;
  inside = fills.inside;
}

module _ (w : BufferedTsOutput) (child child2 : Child) (q q2 : Queue)
    (items : List CircularBufferItem) (start : ℕ)
    (less : in_use child2 (length q2.entries) ≤ in_use child (length q.entries))
    (same : q2.current ≡ q.current)
    (kept : get_elem? items ((w.buffer.end + 1) % w.buffer.size)
      ≡ get_elem? w.buffer.item ((w.buffer.end + 1) % w.buffer.size)) where
  Hand-kept :
      (b : Bool)
      → w.which ≡ (w.buffer.end + 1) % w.buffer.size
      → Hand b w child q
      → Hand b (moved w items start) child2 q2
  Hand-kept true at_slot (room, fills) = (
    omega (arith, less, room),
    Fills-kept w.buffer.item items w.which q.current q2.current
        (ap (get_elem? items) at_slot ∙ kept ∙ sym (ap (get_elem? w.buffer.item) at_slot)) same
        fills,
  )
  Hand-kept false at_slot no_bytes = same ∙ no_bytes

  pub Stage-kept : (p : Parent) → Stage p w child q → Stage p (moved w items start) child2 q2
  Stage-kept filling (pend, at_slot, hand) = (pend, at_slot, Hand-kept w.started at_slot hand)
  Stage-kept completed (at_end, no_bytes) = (at_end, same ∙ no_bytes)
  Stage-kept marked (pend, room, (it, there, one, byte), no_bytes) =
      (pend, omega (arith, less, room), (it, kept ∙ there, one, byte), same ∙ no_bytes)
  Stage-kept done no_bytes = same ∙ no_bytes
