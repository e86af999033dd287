-- ===== src/PesReader/Ends.antt =====
-- A PES packet of unknown length, which start_new_PES_packet of include/pes.h ends when the next packet
-- of its PID starts.
use mts_utils.Base.{ℕ, ◌≡◌, refl, ◌∙◌, ap, ==-eq-true, Option, some, List, ◌∷◌, bit_or}
use mts_utils.Base.Outcome.{Outcome, ok}
use mts_utils.Bits.{◌<<<◌}
use mts_utils.PesReader.{PesPacketData, PesReader, Peslist, start_new_pes_packet, answer}
use mts_utils.PesReader.Laws.{IsPeslist, in_progress}
use mts_utils.PesReader.Calls.{Ends, start-StartFeeds, unbounded, new_packet}

-- The call hands on the packet before. The new one is in progress; or it is whole already, and waits in
-- the reader.
pub record HandsOn (reader : PesReader) (pid : ℕ) (before packet : PesPacketData)
    (result : Outcome (Option PesPacketData × PesReader)) : Type 0 where
  pub deferred : Option PesPacketData
  pub after : Peslist
  pub succeeds : result ≡ ok (some before, record reader { packets = after; deferred = deferred })
  pub good : IsPeslist after
  pub ends : Ends packet deferred after pid

unbounded_lem : (before : PesPacketData) → before.length ≡ 0 → unbounded (some before) ≡ some before
unbounded_lem before h = rw (==-eq-true before.length 0 h) refl

-- On a sound list with a packet of length 0 in progress for the PID, start_new_PES_packet with a
-- payload that starts with 00 00 01 and has six bytes at least finishes that packet and leaves a
-- sound list. The packet that it starts, of the bytes of the payload and the length stated in it,
-- is then in progress for the PID, and nothing is deferred; or, where it has all its bytes, it is
-- deferred, and none is in progress for the PID.
pub start-HandsOn :
    (reader : PesReader) (pid sid hi lo : ℕ) (rest : List ℕ) (before : PesPacketData)
    → IsPeslist reader.packets
    → in_progress reader.packets pid ≡ some before
    → before.length ≡ 0
    → HandsOn reader pid before
        (new_packet reader pid (0 ∷ 0 ∷ 1 ∷ sid ∷ hi ∷ lo ∷ rest) (bit_or (hi <<< 8) lo))
        (start_new_pes_packet reader pid (0 ∷ 0 ∷ 1 ∷ sid ∷ hi ∷ lo ∷ rest))
start-HandsOn reader pid sid hi lo rest before good here h =
    let call = start-StartFeeds reader pid sid hi lo rest good in
    let next_reader = record reader { packets = call.after } in
    record {
      deferred = call.finished;
      after = call.after;
      succeeds =
          call.succeeds
          ∙ ap (λ (t : Option PesPacketData). ok (answer next_reader (unbounded t) call.finished))
              here
          ∙ ap (λ (t : Option PesPacketData). ok (answer next_reader t call.finished))
              (unbounded_lem before h);
      good = call.good;
      ends = call.ends;
    }
