-- ===== src/PesReader/Grows.antt =====
-- The packet in progress of include/pes.h growing, until its bytes are there.
use mts_utils.Base.{
  ℕ, ◌+◌, ◌<◌, ◌≡◌, sym, ap, ◌∙◌, arith, Bool, false, List, [], ◌∷◌, ◌++◌, length, some, inl, inr,
  All,
}
use mts_utils.Base.{length-append}
use mts_utils.Base.Outcome.{ok}
use mathlib.Core.Path.{subst}
use mathlib.Core.List.{append_assoc, append-nil}
use mts_utils.PesReader.{PesReader}
use mts_utils.PesReader.Laws.{IsPeslist, in_progress}
use mts_utils.PesReader.Calls.{Ends, continue-Feeds}
use mts_utils.PesReader.Feeds.{
  Feed, feed, with_finished, run, bytes_for, IsFeed, partial, extend-partial, unfinished, whole,
  aside,
}
use mts_utils.PesReader.Finishes.{
  Finishes, run-step, skip_step, bytes_for-other, bytes_for-own, rest-Finishes, no_bytes, below,
  false_is_not_true, finished_for-own, finished_for-nothing,
}

module _ (p : ℕ) (stated posn : ℕ) (is_video : Bool) where
  unfoldable pub Grows : List Feed → Type 0
  Grows fs =
      (reader : PesReader) (bytes : List ℕ)
      → IsPeslist reader.packets
      → in_progress reader.packets p ≡ some (partial bytes stated posn is_video)
      → length bytes < stated
      → length bytes + length (bytes_for p fs) ≡ stated
      → All (IsFeed p) fs
      → Finishes p (partial (bytes ++ bytes_for p fs) stated posn is_video ∷ []) (run reader fs)

  own_step :
      (f : Feed) (fs : List Feed)
      → Grows fs
      → (reader : PesReader) (bytes : List ℕ) → IsPeslist reader.packets
      → in_progress reader.packets p ≡ some (partial bytes stated posn is_video)
      → length bytes + length (f.payload ++ bytes_for p fs) ≡ stated
      → f.pid ≡ p
      → f.is_start ≡ false
      → All (IsFeed p) fs
      → Finishes p
          (partial (bytes ++ (f.payload ++ bytes_for p fs)) stated posn is_video ∷ [])
          (run reader (f ∷ fs))
  unfolding Grows feed
  own_step f fs further reader bytes good growing total same continues feeds =
      let at_posn = record reader { posn = f.posn } in
      let here : in_progress reader.packets f.pid ≡ some (partial bytes stated posn is_video) =
        ap (in_progress reader.packets) same ∙ growing in
      let call =
        continue-Feeds at_posn f.pid (partial bytes stated posn is_video) f.payload good here in
      let longer = partial (bytes ++ f.payload) stated posn is_video in
      let called : feed reader f ≡ ok (call.finished, record at_posn { packets = call.after }) =
        rw (continues, feed) call.succeeds in
      let ends : Ends longer call.finished call.after f.pid =
        subst (λ t. Ends t call.finished call.after f.pid)
          (extend-partial bytes f.payload stated posn is_video) call.ends in
      let after = record at_posn { packets = call.after } in
      let long : length (bytes ++ f.payload) ≡ length bytes + length f.payload =
        length-append bytes f.payload in
      let own : length (f.payload ++ bytes_for p fs) ≡ length f.payload + length (bytes_for p fs) =
        length-append f.payload (bytes_for p fs) in
      let joined : (bytes ++ f.payload) ++ bytes_for p fs ≡ bytes ++ (f.payload ++ bytes_for p fs) =
        append_assoc bytes f.payload (bytes_for p fs) in
      elim (below (length (bytes ++ f.payload)) stated) [
        | inl short ↦ elim ends [
          | inl (done, fin, cleared) ↦
              absurd (
                false_is_not_true (unfinished (bytes ++ f.payload) stated posn is_video short) done)
          | inr (not_done, fin, grown) ↦
              let rest =
                further after (bytes ++ f.payload) call.good
                  (sym (ap (in_progress call.after) same) ∙ grown) short
                  (omega (arith, long, own, total)) feeds in
              record {
                outs = with_finished f.pid call.finished rest.outs;
                succeeds = run-step reader after f fs call.finished p _ called rest;
                finished =
                    finished_for-nothing p f.pid call.finished rest.outs fin
                    ∙ rest.finished
                    ∙ ap (λ t. partial t stated posn is_video ∷ []) joined;
              }
        ]
        | inr all ↦ elim ends [
          | inr (not_done, fin, grown) ↦ absurd (
              false_is_not_true not_done (
                whole (bytes ++ f.payload) stated posn is_video
                  (omega (arith, long, own, total, all))))
          | inl (done, fin, cleared) ↦
              let nothing : bytes_for p fs ≡ [] =
                no_bytes (bytes_for p fs) (omega (arith, long, own, total, all)) in
              let rest =
                rest-Finishes after p fs call.good
                  (sym (ap (in_progress call.after) same) ∙ cleared) feeds in
              record {
                outs = with_finished f.pid call.finished rest.outs;
                succeeds = run-step reader after f fs call.finished p [] called rest;
                finished =
                    finished_for-own p f.pid longer call.finished rest.outs same fin rest.finished
                    ∙ ap (λ t. partial t stated posn is_video ∷ [])
                        (sym (append-nil (bytes ++ f.payload))
                          ∙ ap (λ (t : List ℕ). (bytes ++ f.payload) ++ t) (sym nothing)
                          ∙ joined);
              }
        ]
      ]

  pub grows : (fs : List Feed) → Grows fs
  unfolding Grows
  grows [] reader bytes good growing short total feeds = absurd (omega (arith, short, total))
  grows (f ∷ fs) reader bytes good growing short total (inl (differ, kind), feeds) =
      let call = aside reader p f good differ kind in
      let skip : bytes_for p (f ∷ fs) ≡ bytes_for p fs = bytes_for-other p f fs differ in
      subst
        (λ (t : List ℕ).
          Finishes p (partial (bytes ++ t) stated posn is_video ∷ []) (run reader (f ∷ fs)))
        (sym skip)
        (skip_step reader p f fs (partial (bytes ++ bytes_for p fs) stated posn is_video ∷ [])
          differ call
          (grows fs call.after bytes call.good (call.kept ∙ growing) short
            (omega (arith, total, ap length skip)) feeds))
  grows (f ∷ fs) reader bytes good growing short total (inr (same, continues), feeds) =
      let take_own : bytes_for p (f ∷ fs) ≡ f.payload ++ bytes_for p fs =
        bytes_for-own p f fs same in
      subst
        (λ (t : List ℕ).
          Finishes p (partial (bytes ++ t) stated posn is_video ∷ []) (run reader (f ∷ fs)))
        (sym take_own)
        (own_step f fs (grows fs) reader bytes good growing
          (omega (arith, total, ap length take_own)) same continues feeds)
