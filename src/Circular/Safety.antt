-- ===== src/Circular/Safety.antt =====
-- All that the parent and the child of include/tswrite.h can do together, from a fresh buffer.
use mts_utils.Base.{
  ℕ, zero, suc, ◌*◌, ◌%◌, ◌≤◌, ◌≡◌, ◌⊎◌, inl, inr, refl, sym, ap, ◌∙◌, arith, List, [], ◌++◌,
  length, replicate, All, false, length-replicate,
}
use native.Mathlib.Nat.{mod-eq_of_lt}
use mts_utils.Circular.{CircularBufferItem, build_buffered_ts_output, map_circular_buffer}
use mts_utils.Circular.Steps.{Entry, waiting, filling, System, Reach, here, next, Queue}
use mts_utils.Circular.Refine.{is_stopped, join, join_entries, Represents}
use mts_utils.Circular.Ordered.{Step-Matches, IsOrdered, QueueStep-IsOrdered}

-- The system when it starts.
abbrev pub fresh : ℕ → ℕ → ℕ → System
fresh circ_buf_size ts_in_packet rate = record {
  writer = build_buffered_ts_output circ_buf_size ts_in_packet rate;
  parent = filling;
  child = waiting;
  handed = [];
  sent = [];
}

abbrev pub empty : Queue
empty = record { entries = []; current = []; out = []; closing = false; closed = false }

All-replicate :
    (n item_size : ℕ) (it : CircularBufferItem)
    → length it.cells ≡ item_size
    → All (λ t. length t.cells ≡ item_size) (replicate n it)
All-replicate zero item_size it h = tt
All-replicate (suc n) item_size it h = (h, All-replicate n item_size it h)

pub fresh-Represents :
    (circ_buf_size ts_in_packet rate : ℕ)
    → 2 ≤ circ_buf_size
    → 1 ≤ ts_in_packet
    → Represents (fresh circ_buf_size ts_in_packet rate) empty
unfolding build_buffered_ts_output map_circular_buffer
fresh-Represents n ts rate two one =
    let blank : CircularBufferItem = record {
      time = 0;
      length = 0;
      cells = replicate (ts * 188) 0;
    } in
    let slot : 1 % n ≡ 1 = mod-eq_of_lt two in
    record {
      held = record {
        two = two;
        large = omega (arith, one);
        count = length-replicate n blank;
        cells = All-replicate n (ts * 188) blank (length-replicate (ts * 188) 0);
        start_in = omega (arith, two);
        end_in = omega (arith, two);
        span = inl (sym slot);
        fits = omega (arith, two);
        holds = tt;
      };
      stage = (refl, refl, refl);
      sent = refl;
      closing = refl;
      closed = refl;
      handed = refl;
    }

pub record Delivered (t : System) : Type 0 where
  pub queue : Queue
  pub represents : Represents t queue
  pub ordered : IsOrdered queue

Reach-Delivered :
    (n ts rate : ℕ) {t : System} → 2 ≤ n → 1 ≤ ts → Reach (fresh n ts rate) t → Delivered t
Reach-Delivered n ts rate two one here = record {
  queue = empty;
  represents = fresh-Represents n ts rate two one;
  ordered = inl (refl, refl, tt);
}
Reach-Delivered n ts rate two one (next reach step) =
    let before = Reach-Delivered n ts rate two one reach in
    let matched = Step-Matches before.queue before.represents step in
    record {
      queue = matched.after;
      represents = matched.represents;
      ordered = QueueStep-IsOrdered matched.step before.ordered;
    }

-- What has been sent is what was handed over, in order, but for the bytes that are still to be sent;
-- once the child has stopped, none are.
abbrev pub SendsInOrder : System → Type 0
SendsInOrder t =
    (to_send : List ℕ) × (t.handed ≡ join t.sent ++ to_send)
    × ((is_stopped t.child ≡ false) ⊎ (to_send ≡ []))

ordered_end :
    (t : System) (q : Queue)
    → Represents t q
    → IsOrdered q
    → (is_stopped t.child ≡ false) ⊎ (join_entries q.entries ++ q.current ≡ [])
ordered_end t q reps (inl (o, unclosed, no_eof)) = inl (sym reps.closed ∙ unclosed)
ordered_end t q reps (inr (closing, no_bytes, inl (ds, e, no_eof, unclosed))) =
    inl (sym reps.closed ∙ unclosed)
ordered_end t q reps (inr (closing, no_bytes, inr e)) =
    inr (ap (λ (u : List Entry). join_entries u ++ q.current) e ∙ no_bytes)

-- From a fresh circular buffer of two items at least, with room for a packet in each, whatever
-- the order in which the stages of the parent's calls and of the child's follow one another, what
-- the child has sent, joined, is the start of what the parent was handed, and all of it once the
-- child has stopped.
pub Reach-SendsInOrder :
    (n ts rate : ℕ) {t : System} → 2 ≤ n → 1 ≤ ts → Reach (fresh n ts rate) t → SendsInOrder t
Reach-SendsInOrder n ts rate two one reach =
    let delivered = Reach-Delivered n ts rate two one reach in
    let q = delivered.queue in
    let reps = delivered.represents in
    (
      join_entries q.entries ++ q.current,
      reps.handed
          ∙ ap (λ (u : List (List ℕ)). join u ++ (join_entries q.entries ++ q.current))
              (sym reps.sent),
      ordered_end _ q reps delivered.ordered,
    )
