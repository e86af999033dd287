-- ===== src/Ts/Laws/Receiver.antt =====
-- A log of the packets that are sent, and a receiver that joins their payloads.
use mts_utils.Base.{ℕ, ◌+◌, ◌%◌, ◌^◌, ◌≤◌, arith, ltb-eq-false, take}
use mts_utils.Base.{◌≡◌, refl}
use mts_utils.Base.{List, [], ◌∷◌, ◌++◌, length}
use mts_utils.Base.{Bool, Option, some, ==-eq-true}
use mts_utils.Base.Outcome.{Outcome, ok, ◌>>=◌}
use mts_utils.Bits.{mask_0x0F}
use mts_utils.Ts.Write.{Sent, Output, next_continuity_count, write_ts_packet_parts}
use mts_utils.Ts.Laws.Headers.{receive, indicator}

-- A writer that keeps what it is handed.
abbrev pub logging : List Sent → Sent → Option (List Sent)
logging log sent = some (log ++ sent ∷ [])

-- The receiver of a PID: it takes the packets in order, wants the continuity count to go up by one
-- from packet to packet and the start indicator in the first packet alone, and joins the payloads.
unfoldable pub reassemble : ℕ → ℕ → ℕ → List Sent → Outcome (List ℕ)
reassemble start pid count [] = ok []
reassemble start pid count (sent ∷ more) = do
  bytes ← receive start pid ((count + 1) % 16) sent.packet
  rest ← reassemble 0 pid ((count + 1) % 16) more
  ok (bytes ++ rest)

module _ (output : Output (List Sent)) (pid : ℕ) (got_pcr : Bool) (pcr : ℕ) where
  abbrev pub packet_of : List ℕ → Sent
  packet_of bytes = record { packet = bytes; pid = pid; got_pcr = got_pcr; pcr = pcr }

  pub write_parts-logs :
      (header pes_hdr data1 : List ℕ) (data_len : ℕ)
      → length header + length pes_hdr + data_len ≡ 188
      → data_len ≤ length data1
      → write_ts_packet_parts logging output header pes_hdr data1 data_len pid got_pcr pcr
        ≡ ok (record output {
          writer = output.writer ++ packet_of (header ++ (pes_hdr ++ take data_len data1)) ∷ [];
        })
  unfolding write_ts_packet_parts
  write_parts-logs header pes_hdr data1 data_len h there =
      rw
        (
          ==-eq-true ((length header + length pes_hdr + data_len) % 2 ^ 32) 188 (omega arith),
          ltb-eq-false 188 (length header + length pes_hdr) (omega arith),
          ltb-eq-false (length data1) data_len there,
        )
        refl

pub next_count :
    (output : Output (List Sent)) (pid : ℕ)
    → (next_continuity_count output.continuity_counter pid).0
      ≡ (output.continuity_counter pid + 1) % 16
unfolding next_continuity_count
next_count output pid = mask_0x0F (output.continuity_counter pid + 1)

pub counted :
    (counter : ℕ → ℕ) (pid : ℕ) → (next_continuity_count counter pid).1 pid ≡ (counter pid + 1) % 16
unfolding next_continuity_count
counted counter pid = rw (==-eq-true pid pid refl) (mask_0x0F (counter pid + 1))

-- What a call is to achieve: it succeeds, leaves what the writer had, and sends packets that the
-- receiver joins to the bytes.
pub record Delivers (start : Bool) (pid : ℕ) (output : Output (List Sent)) (bytes : List ℕ)
    (result : Outcome (Output (List Sent))) : Type 0 where
  pub final : Output (List Sent)
  pub sent : List Sent
  pub succeeds : result ≡ ok final
  pub logged : final.writer ≡ output.writer ++ sent
  pub joined : reassemble (indicator start) pid (output.continuity_counter pid) sent ≡ ok bytes
