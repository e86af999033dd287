-- ===== src/PesReader/Assembles.antt =====
-- A PES packet that comes in the payloads of several TS packets, among those of other PIDs, through
-- start_new_PES_packet and continue_PES_packet of include/pes.h.
use mts_utils.Base.{
  ℕ, ◌+◌, ◌<◌, ◌≡◌, ◌≢◌, ◌==◌, refl, ap, ◌∙◌, arith, true, List, [], ◌∷◌, ◌++◌, length, Option,
  none, inl, inr, ==-eq-false, bit_or, All,
}
use mts_utils.Base.Outcome.{ok}
use mathlib.Core.Path.{subst}
use mts_utils.Bits.{◌<<<◌}
use mts_utils.PesReader.{PesPacketData, PesReader, answer}
use mts_utils.PesReader.Laws.{IsPeslist, in_progress}
use mts_utils.PesReader.Calls.{Ends, start-StartFeeds, unbounded, new_packet}
use mts_utils.PesReader.Feeds.{
  Feed, feed, with_finished, run, bytes_for, IsFeed, partial, unfinished,
}
use mts_utils.PesReader.Finishes.{Finishes, run-step, false_is_not_true, finished_for-nothing}
use mts_utils.PesReader.Grows.{Grows, grows}

-- The first payload of a packet
abbrev pub start_of : ℕ → ℕ → ℕ → ℕ → ℕ → List ℕ → Feed
start_of p posn sid hi lo rest = record {
  is_start = true;
  pid = p;
  posn = posn;
  payload = 0 ∷ 0 ∷ 1 ∷ sid ∷ hi ∷ lo ∷ rest;
}

abbrev pub Assembled : PesReader → ℕ → ℕ → Feed → List Feed → Type 0
Assembled reader p n f fs =
    Finishes p (partial (f.payload ++ bytes_for p fs) (n + 6) f.posn (p == reader.video_pid) ∷ [])
      (run reader (f ∷ fs))

started :
    (reader : PesReader) (p n : ℕ) (payload : List ℕ)
    → n ≢ 0
    → new_packet reader p payload n ≡ partial payload (n + 6) reader.posn (p == reader.video_pid)
started reader p n payload long = rw (==-eq-false n 0 long) refl

-- On a sound list with no packet in progress for a PID, start_new_PES_packet gets the first part
-- of a packet of that PID that states a length other than 0, and further calls get payloads of
-- that PID that continue it, up to that length and 6 bytes in all, among payloads of other PIDs
-- that continue their packets or start them well, in any order. Then all calls succeed, and for
-- the PID they finish one packet: its bytes are the payloads joined, its length is theirs, its
-- position is that of its first payload, and it is video if the PID is that of the video.
pub start-Assembled :
    (reader : PesReader) (p posn sid hi lo : ℕ) (rest : List ℕ) (fs : List Feed)
    → IsPeslist reader.packets
    → in_progress reader.packets p ≡ none
    → bit_or (hi <<< 8) lo ≢ 0
    → 6 + length rest < bit_or (hi <<< 8) lo + 6
    → 6 + length rest + length (bytes_for p fs) ≡ bit_or (hi <<< 8) lo + 6
    → All (IsFeed p) fs
    → Assembled reader p (bit_or (hi <<< 8) lo) (start_of p posn sid hi lo rest) fs
unfolding feed Grows
start-Assembled reader p posn sid hi lo rest fs good nothing long short total feeds =
    let at_posn = record reader { posn = posn } in
    let payload : List ℕ = 0 ∷ 0 ∷ 1 ∷ sid ∷ hi ∷ lo ∷ rest in
    let n : ℕ = bit_or (hi <<< 8) lo in
    let is_video = p == reader.video_pid in
    let call = start-StartFeeds at_posn p sid hi lo rest good in
    let packet = partial payload (n + 6) posn is_video in
    let after = record at_posn { packets = call.after } in
    let called : feed reader (start_of p posn sid hi lo rest) ≡ ok (call.finished, after) =
      call.succeeds
      ∙ ap (λ (t : Option PesPacketData). ok (answer after (unbounded t) call.finished)) nothing in
    let ends : Ends packet call.finished call.after p =
      subst (λ t. Ends t call.finished call.after p) (started at_posn p n payload long) call.ends in
    elim ends [
      | inl (done, fin, cleared) ↦
          absurd (
            false_is_not_true (unfinished payload (n + 6) posn is_video (omega (arith, short)))
              done)
      | inr (not_done, fin, growing) ↦
          let further =
            grows p (n + 6) posn is_video fs after payload call.good growing (omega (arith, short))
              (omega (arith, total)) feeds in
          record {
            outs = with_finished p call.finished further.outs;
            succeeds =
                run-step reader after (start_of p posn sid hi lo rest) fs call.finished p _ called
                  further;
            finished = finished_for-nothing p p call.finished further.outs fin ∙ further.finished;
          }
    ]
