-- ===== src/PesReader/Finishes.antt =====
-- What a run of the calls of include/pes.h finishes for one PID.
use mts_utils.Base.{
  ℕ, ◌≤◌, ◌<◌, ◌≡◌, ◌≢◌, ◌⊎◌, refl, ap, ◌∙◌, arith, Bool, true, false, List, [], ◌∷◌, ◌++◌, length,
  Option, none, some, inl, inr, ==-eq-true, ==-eq-false, All,
}
use mts_utils.Base.Outcome.{Outcome, ok}
use mts_utils.PesReader.{PesPacketData, PesReader}
use mts_utils.PesReader.Laws.{IsPeslist, in_progress}
use mts_utils.PesReader.Calls.{continue-none}
use mts_utils.PesReader.Feeds.{
  Feed, feed, Finished, with_finished, run, finished_for, bytes_for, IsFeed, Aside, aside,
}

-- The calls succeed, and finish these packets for the PID.
pub record Finishes (p : ℕ) (packets : List PesPacketData) (result : Outcome Finished)
    : Type 0 where
  pub outs : Finished
  pub succeeds : result ≡ ok outs
  pub finished : finished_for p outs ≡ packets

finished_for-other :
    (p pid : ℕ) (o : Option PesPacketData) (more : Finished)
    → pid ≢ p
    → finished_for p (with_finished pid o more) ≡ finished_for p more
finished_for-other p pid none more differ = refl
finished_for-other p pid (some packet) more differ = rw (==-eq-false pid p differ) refl

pub run-step :
    (reader after : PesReader) (f : Feed) (fs : List Feed) (finished : Option PesPacketData) (p : ℕ)
    (packets : List PesPacketData)
    → feed reader f ≡ ok (finished, after)
    → (further : Finishes p packets (run after fs))
    → run reader (f ∷ fs) ≡ ok (with_finished f.pid finished further.outs)
unfolding run
run-step reader after f fs finished p packets h further = rw h (rw further.succeeds refl)

pub skip_step :
    (reader : PesReader) (p : ℕ) (f : Feed) (fs : List Feed) (packets : List PesPacketData)
    → f.pid ≢ p
    → (call : Aside (record reader { posn = f.posn }) p (feed reader f))
    → Finishes p packets (run call.after fs)
    → Finishes p packets (run reader (f ∷ fs))
skip_step reader p f fs packets differ call further = record {
  outs = with_finished f.pid call.finished further.outs;
  succeeds = run-step reader call.after f fs call.finished p packets call.succeeds further;
  finished = finished_for-other p f.pid call.finished further.outs differ ∙ further.finished;
}

pub bytes_for-other :
    (p : ℕ) (f : Feed) (fs : List Feed) → f.pid ≢ p → bytes_for p (f ∷ fs) ≡ bytes_for p fs
bytes_for-other p f fs differ = rw (==-eq-false f.pid p differ) refl

pub bytes_for-own :
    (p : ℕ) (f : Feed) (fs : List Feed)
    → f.pid ≡ p
    → bytes_for p (f ∷ fs) ≡ f.payload ++ bytes_for p fs
bytes_for-own p f fs same = rw (==-eq-true f.pid p same) refl

-- Nothing is in progress for the PID, and no bytes come for it.
pub rest-Finishes :
    (reader : PesReader) (p : ℕ) (fs : List Feed)
    → IsPeslist reader.packets
    → in_progress reader.packets p ≡ none
    → All (IsFeed p) fs
    → Finishes p [] (run reader fs)
unfolding run feed
rest-Finishes reader p [] good nothing feeds = record {
  outs = [];
  succeeds = refl;
  finished = refl;
}
rest-Finishes reader p (f ∷ fs) good nothing (inl (differ, kind), feeds) =
    let call = aside reader p f good differ kind in
    skip_step reader p f fs [] differ call
      (rest-Finishes call.after p fs call.good (call.kept ∙ nothing) feeds)
rest-Finishes reader p (f ∷ fs) good nothing (inr (same, continues), feeds) =
    let at_posn = record reader { posn = f.posn } in
    let ignored : feed reader f ≡ ok (none, at_posn) =
      rw (continues, feed)
        (continue-none at_posn f.pid f.payload (ap (in_progress reader.packets) same ∙ nothing)) in
    let further = rest-Finishes at_posn p fs good nothing feeds in
    record {
      outs = further.outs;
      succeeds = run-step reader at_posn f fs none p [] ignored further;
      finished = further.finished;
    }

pub no_bytes : (xs : List ℕ) → length xs ≡ 0 → xs ≡ []
no_bytes [] h = refl
no_bytes (x ∷ xs) h = absurd (omega (arith, h))

pub below : (a b : ℕ) → (a < b) ⊎ (b ≤ a)
below a b = ground arith

pub false_is_not_true : {b : Bool} → b ≡ false → b ≡ true → ⊥
false_is_not_true e f = cc

pub finished_for-own :
    (p pid : ℕ) (packet : PesPacketData) (o : Option PesPacketData) (more : Finished)
    → pid ≡ p
    → o ≡ some packet
    → finished_for p more ≡ []
    → finished_for p (with_finished pid o more) ≡ packet ∷ []
finished_for-own p pid packet o more same is_packet nothing =
    ap (λ t. finished_for p (with_finished pid t more)) is_packet
    ∙ rw (==-eq-true pid p same) (ap (λ t. packet ∷ t) nothing)

pub finished_for-nothing :
    (p pid : ℕ) (o : Option PesPacketData) (more : Finished)
    → o ≡ none
    → finished_for p (with_finished pid o more) ≡ finished_for p more
finished_for-nothing p pid o more nothing =
    ap (λ t. finished_for p (with_finished pid t more)) nothing
