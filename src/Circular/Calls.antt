-- ===== src/Circular/Calls.antt =====
-- The calls of the parent in include/tswrite.h, made while the child rests, as steps of the system.
use mts_utils.Base.{
  ℕ, zero, suc, ◌≡◌, ◌≢◌, inl, inr, refl, sym, ap, ◌∙◌, List, ◌++◌, length, Bool, true, false,
  Bool-cases, leb, not, ◌||◌, ◌==◌, ==_iff, if◌then◌else◌,
}
use mathlib.Core.Path.{subst}
use mts_utils.Base.Outcome.{ok, err, ◌>>=◌, at, bind-ok}
use mts_utils.Circular.{
  BufferedTsOutput, CircularBuffer, CircularBufferItem, circular_buffer_full,
  circular_buffer_jammed, start_item, copy_packet, copy_to, update_item, complete_item, next_item,
  internal_flush_buffered_ts_output, wait_if_buffer_full, write_to_buffered_ts_output,
  give_up_after,
}
use mts_utils.Circular.Steps.{
  System, filling, completed, start, copy, complete, prepare, Reach, here, next,
}
use mts_utils.Circular.Simulate.{ok-injective, true_is_not_false}

err_is_not_ok {ℓ} : {A : Type ℓ} (a : A) → err ≡ ok a → ⊥
err_is_not_ok a e = cc

-- A wait during which nothing moves ends at once or not at all.
wait_lem :
    (left n : ℕ) (circular after : CircularBuffer)
    → wait_if_buffer_full left (λ t. circular.start) n circular ≡ ok after
    → (after ≡ circular) × (circular_buffer_full circular ≡ false)
unfolding wait_if_buffer_full
wait_lem zero n circular after h = cc
wait_lem (suc left) n circular after h = elim (Bool-cases (circular_buffer_full circular)) [
  | inl full ↦ elim (Bool-cases (circular_buffer_jammed circular)) [
    | inl jammed ↦ absurd (err_is_not_ok after (rw (full, jammed) at h))
    | inr not_jammed ↦ wait_lem left (suc n) circular after (rw (full, not_jammed) at h)
  ]
  | inr not_full ↦ (sym (ok-injective circular after (rw (not_full) at h)), not_full)
]

if-true {ℓ} : {A : Type ℓ} (c : Bool) (x y : A) → c ≡ true → (if c then x else y) ≡ x
if-true c x y e = rw e refl

if-false {ℓ} : {A : Type ℓ} (c : Bool) (x y : A) → c ≡ false → (if c then x else y) ≡ y
if-false c x y e = rw e refl

started-by : (writer after : BufferedTsOutput) → start_item writer ≡ ok after → after.started ≡ true
unfolding start_item update_item
started-by writer after h =
    let (buffer, e, f) =
      bind-ok (update_item writer.buffer writer.which (λ it. record it { length = 0 }))
        (λ buffer. ok (record writer { buffer = buffer; started = true; num_packets = 0 })) after
        h in
    sym (
      ap (λ (t : BufferedTsOutput). t.started)
        (ok-injective (record writer { buffer = buffer; started = true; num_packets = 0 }) after f))

-- Copying leaves the item started.
copied-started :
    (writer after : BufferedTsOutput) (packet : List ℕ)
    → copy_packet writer packet ≡ ok after
    → after.started ≡ writer.started
unfolding copy_packet
copied-started writer after packet h =
    let (it, e, f) = bind-ok (at writer.buffer.item writer.which) _ after h in
    let (cells, e2, g) = bind-ok (copy_to it.cells it.length packet) _ after f in
    sym (ap (λ (t : BufferedTsOutput). t.started) (ok-injective _ after g))

-- The system with its parent between two calls
abbrev pub between : System → BufferedTsOutput → List ℕ → System
between s writer handed = record s { writer = writer; parent = filling; handed = handed }

module _ (s : System) (handed : List ℕ) where
  flushed :
      (w after : BufferedTsOutput) (it : CircularBufferItem)
      → Reach s (between s w handed)
      → w.started ≡ true
      → at w.buffer.item w.which ≡ ok it
      → it.length ≢ 0
      → complete_item w >>= (λ completed. ok (next_item completed)) ≡ ok after
      → Reach s (between s after handed)
  flushed w after it reach started looked long h =
      let (c, e, f) = bind-ok (complete_item w) (λ completed. ok (next_item completed)) after h in
      subst (λ t. Reach s (between s t handed)) (ok-injective (next_item c) after f)
        (next (next reach (complete (between s w handed) it c refl started looked long e))
          (prepare (record (between s w handed) { writer = c; parent = completed }) refl))

  flush-Reach :
      (w after : BufferedTsOutput)
      → Reach s (between s w handed)
      → w.started ≡ true
      → internal_flush_buffered_ts_output w ≡ ok after
      → Reach s (between s after handed)
  unfolding internal_flush_buffered_ts_output
  flush-Reach w after reach started h =
      let (it, looked, f) = bind-ok (at w.buffer.item w.which) _ after h in
      let finish = complete_item w >>= (λ completed. ok (next_item completed)) in
      let c : Bool = not w.started || it.length == 0 in
      let test : c ≡ (it.length == 0) = ap (λ b. not b || it.length == 0) started in
      elim (Bool-cases (it.length == 0)) [
        | inl zero_long ↦
            let same : ok w ≡ ok after = sym (if-true c (ok w) finish (test ∙ zero_long)) ∙ f in
            subst (λ t. Reach s (between s t handed)) (ok-injective w after same) reach
        | inr long ↦
            flushed w after it reach started looked
              (λ z. true_is_not_false (sym ((==_iff it.length 0).1 z) ∙ long))
              (sym (if-false c (ok w) finish (test ∙ long)) ∙ f)
      ]

ready-Reach :
    (s : System) (ready : BufferedTsOutput)
    → s.parent ≡ filling
    → (if not s.writer.started
        then (wait_if_buffer_full give_up_after (λ t. s.writer.buffer.start) 0 s.writer.buffer
            >>= λ buffer. start_item (record s.writer { buffer = buffer }))
        else ok s.writer)
      ≡ ok ready
    → Reach s (between s ready s.handed) × (ready.started ≡ true)
ready-Reach s ready fills h =
    let at_rest : Reach s (between s s.writer s.handed) =
      subst (λ p. Reach s (record s { parent = p })) fills here in
    elim (Bool-cases s.writer.started) [
      | inl started ↦
          let same : ok s.writer ≡ ok ready =
            sym (if-false (not s.writer.started) _ (ok s.writer) (ap not started)) ∙ h in
          let e : s.writer ≡ ready = ok-injective s.writer ready same in
          (
            subst (λ t. Reach s (between s t s.handed)) e at_rest,
            ap (λ (t : BufferedTsOutput). t.started) (sym e) ∙ started,
          )
      | inr not_started ↦
          let waited =
            sym (if-true (not s.writer.started) _ (ok s.writer) (ap not not_started)) ∙ h in
          let (buffer, e, f) =
            bind-ok
              (wait_if_buffer_full give_up_after (λ t. s.writer.buffer.start) 0 s.writer.buffer)
              (λ buffer. start_item (record s.writer { buffer = buffer })) ready waited in
          let (same, not_full) = wait_lem give_up_after 0 s.writer.buffer buffer e in
          let begins : start_item s.writer ≡ ok ready =
            sym (ap (λ (t : CircularBuffer). start_item (record s.writer { buffer = t })) same)
            ∙ f in
          (
            next at_rest
                (start (between s s.writer s.handed) ready refl not_started not_full begins),
            started-by s.writer ready begins,
          )
    ]

-- A call of write_to_buffered_TS_output that succeeds while the child rests, with a packet of 188
-- bytes, is a sequence of steps of the system that hand the packet over.
pub write-Reach :
    (s : System) (packet : List ℕ) (after : BufferedTsOutput)
    → s.parent ≡ filling
    → length packet ≡ 188
    → write_to_buffered_ts_output (λ t. s.writer.buffer.start) s.writer packet ≡ ok after
    → Reach s (between s after (s.handed ++ packet))
unfolding write_to_buffered_ts_output
write-Reach s packet after fills long h =
    let (ready, e, f) = bind-ok _ _ after h in
    let (reach, started) = ready-Reach s ready fills e in
    let (copied, e2, g) = bind-ok (copy_packet ready packet) _ after f in
    let reach2 : Reach s (between s copied (s.handed ++ packet)) =
      next reach (copy (between s ready s.handed) packet copied refl started long e2) in
    let still : copied.started ≡ true = copied-started ready copied packet e2 ∙ started in
    let (it, looked, k) = bind-ok (at copied.buffer.item copied.which) _ after g in
    elim (Bool-cases (leb copied.buffer.item_size it.length)) [
      | inl full ↦ flush-Reach s (s.handed ++ packet) copied after reach2 still (rw full at k)
      | inr not_full ↦
          let same : ok copied ≡ ok after = rw not_full at k in
          subst (λ t. Reach s (between s t (s.handed ++ packet))) (ok-injective copied after same)
            reach2
    ]
