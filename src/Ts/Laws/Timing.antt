-- ===== src/Ts/Laws/Timing.antt =====
-- The PCR in what write_some_TS_PES_packet of include/ts.h sends: where it stands, and what the writer is told.
use mts_utils.Base.{
  ℕ, ◌≡◌, refl, ltb, List, [], ◌∷◌, ◌++◌, take, drop, Bool, true, false, Bool-cases, inl, inr,
}
use mts_utils.Base.Outcome.{Outcome}
use mts_utils.Ts.Laws.Receiver.{Delivers}
use mts_utils.Ts.Write.{
  Sent, Output, first_bytes, pcr_field, adaptation, stuffed, ts_header, pcr_of,
}

-- The PCR is written behind the length and in front of any stuffing.
abbrev pub HasField : Bool → ℕ → ℕ → List ℕ → Type 0
HasField true base extn packet = take 7 (drop 5 packet) ≡ drop 1 (pcr_field base extn)
HasField false base extn packet = Unit {0}

abbrev pub NonePcr : List Sent → Type 0
NonePcr [] = Unit {0}
NonePcr (sent ∷ more) = (sent.got_pcr ≡ false) × NonePcr more

-- The writer is told of a PCR with the first packet, or is not, and has none with the others; with `carried`
-- the PCR stands in the adaptation field of the first.
abbrev pub IsTimed : Bool → Bool → ℕ → ℕ → List Sent → Type 0
IsTimed carried got base extn [] = ⊥
IsTimed carried got base extn (first ∷ rest) =
    (first.got_pcr ≡ got)
    × (first.pcr ≡ pcr_of base extn)
    × HasField carried base extn first.packet
    × NonePcr rest

-- What is sent is delivered, and its timing is right.
pub record DeliversTimed (carried got : Bool) (base extn : ℕ) (start : Bool) (pid : ℕ)
    (output : Output (List Sent)) (bytes : List ℕ) (result : Outcome (Output (List Sent)))
    : Type 0 where
  pub delivers : Delivers start pid output bytes result
  pub timing : IsTimed carried got base extn delivers.sent

pub IsTimed-NonePcr :
    (carried : Bool) (base extn : ℕ) (sent : List Sent)
    → IsTimed carried false base extn sent
    → NonePcr sent
IsTimed-NonePcr carried base extn [] h = elim h [ ]
IsTimed-NonePcr carried base extn (first ∷ rest) h = (h.0, h.3)

pub ts_header-HasField :
    (start carried : Bool) (pid count base extn n : ℕ) (rest : List ℕ)
    → HasField carried base extn ((ts_header start carried pid count base extn n).0 ++ rest)
unfolding ts_header first_bytes pcr_field adaptation stuffed
ts_header-HasField start false pid count base extn n rest = tt
ts_header-HasField start true pid count base extn n rest = elim (Bool-cases (ltb n 176)) [
  | inl short ↦ rw short refl
  | inr full ↦ rw full refl
]
