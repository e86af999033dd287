-- ===== src/AccessUnit/Sends.antt =====
-- What a receiver gets of NAL units that are written as Transport Stream, one after another (include/accessunit.h).
use mts_utils.Base.{
  ℕ, ◌+◌, ◌^◌, ◌<◌, arith, length-take, ◌≤◌, ◌≡◌, refl, sym, ap, ◌∙◌, Bool, true, false, List, [],
  ◌∷◌, ◌++◌, length, take, Option, none, some, ltb-eq-false,
}
use mts_utils.Base.Outcome.{Outcome, ok, ◌>>=◌}
use mathlib.Core.Path.{subst}
use mts_utils.Nal.{NalUnit}
use mts_utils.Pes.{pes_header}
use mts_utils.AccessUnit.Kept.{one_or_none}
use mts_utils.AccessUnit.Write.{
  default_video_stream_id, unit_data, write_units, write_end, write_nal,
}
use mts_utils.Ts.Write.{Sent, Output}
use mts_utils.Ts.Es.{write_es_as_ts_pes_packet}
use mts_utils.Ts.Laws.Receiver.{logging, reassemble, Delivers}
use mts_utils.Ts.Laws.Es.{write_es_with_pcr-DeliversTimed, pes_header-le}

-- The receiver of a PID gets these PES packets, one after another.
pub data Received (pid : ℕ) : Output (List Sent) → List (List ℕ) → Output (List Sent) → Type 0 where
  nothing : (output : Output (List Sent)) → Received pid output [] output
  packet :
      (output between final : Output (List Sent)) (sent : List Sent) (bytes : List ℕ)
      (more : List (List ℕ))
      → between.writer ≡ output.writer ++ sent
      → reassemble 1 pid (output.continuity_counter pid) sent ≡ ok bytes
      → Received pid between more final
      → Received pid output (bytes ∷ more) final

-- A unit that is all there, and whose length leaves room in 32 bits for the longest PES header
abbrev pub IsWhole : NalUnit → Type 0
IsWhole nal = (nal.unit.data_len ≤ length nal.unit.cells) × (nal.unit.data_len + 19 < 2 ^ 32)

abbrev pub AreThere : List NalUnit → Type 0
AreThere [] = Unit {0}
AreThere (nal ∷ nals) = IsWhole nal × AreThere nals

abbrev pub bytes_in : NalUnit → List ℕ
bytes_in nal = take nal.unit.data_len nal.unit.cells

-- The bytes of a unit in a PES packet, with timestamps or without
abbrev pub pes_of : Bool → ℕ → Bool → ℕ → NalUnit → List ℕ
pes_of got_pts pts got_dts dts nal =
    pes_header (length (bytes_in nal)) default_video_stream_id got_pts pts got_dts dts
    ++ bytes_in nal

abbrev pub plain : List NalUnit → List (List ℕ)
plain [] = []
plain (nal ∷ nals) = pes_of false 0 false 0 nal ∷ plain nals

-- The timestamps stand in the first.
abbrev pub timed : Bool → ℕ → Bool → ℕ → List NalUnit → List (List ℕ)
timed got_pts pts got_dts dts [] = []
timed got_pts pts got_dts dts (nal ∷ nals) = pes_of got_pts pts got_dts dts nal ∷ plain nals

pub unit_data_lem :
    (nal : NalUnit)
    → nal.unit.data_len ≤ length nal.unit.cells
    → unit_data nal.unit ≡ ok (bytes_in nal)
unfolding unit_data
unit_data_lem nal there = rw (ltb-eq-false (length nal.unit.cells) nal.unit.data_len there) refl

pub header_fits :
    (nal : NalUnit)
    → IsWhole nal
    → (got_pts : Bool) (pts : ℕ) (got_dts : Bool) (dts : ℕ)
    → length (bytes_in nal)
        + length
            (pes_header (length (bytes_in nal)) default_video_stream_id got_pts pts got_dts dts)
      < 2 ^ 32
header_fits nal (there, room) got_pts pts got_dts dts = omega (
  arith,
  length-take nal.unit.data_len nal.unit.cells there,
  pes_header-le (length (bytes_in nal)) default_video_stream_id got_pts pts got_dts dts,
)

-- A call that succeeds, and what the receiver gets from it
pub record Sends (pid : ℕ) (output : Output (List Sent)) (packets : List (List ℕ))
    (result : Outcome (Output (List Sent))) : Type 0 where
  pub final : Output (List Sent)
  pub succeeds : result ≡ ok final
  pub received : Received pid output packets final

pub one-Sends :
    {pid : ℕ} {output : Output (List Sent)} {bytes : List ℕ} {result : Outcome (Output (List Sent))}
    → Delivers true pid output bytes result
    → Sends pid output (bytes ∷ []) result
one-Sends {pid} {output} {bytes} delivers = record {
  final = delivers.final;
  succeeds = delivers.succeeds;
  received =
      packet output delivers.final delivers.final delivers.sent bytes [] delivers.logged
        delivers.joined (nothing delivers.final);
}

pub joined-Received :
    {pid : ℕ} {output between final : Output (List Sent)} {front rest : List (List ℕ)}
    → Received pid output front between
    → Received pid between rest final
    → Received pid output (front ++ rest) final
joined-Received (nothing output) later = later
joined-Received (packet output next between sent bytes more logged joined following) later =
    packet output next _ sent bytes _ logged joined (joined-Received following later)

-- One call behind another
pub then-Sends :
    {pid : ℕ} {output : Output (List Sent)} {front rest : List (List ℕ)}
    {result : Outcome (Output (List Sent))}
    (next : Output (List Sent) → Outcome (Output (List Sent)))
    → Sends pid output front result
    → ((between : Output (List Sent)) → Sends pid between rest (next between))
    → Sends pid output (front ++ rest) (result >>= next)
then-Sends next before later =
    let behind = later before.final in
    record {
      final = behind.final;
      succeeds = ap (λ t. t >>= next) before.succeeds ∙ behind.succeeds;
      received = joined-Received before.received behind.received;
    }

module _ (pid : ℕ) (low : 0x0010 ≤ pid) (high : pid ≤ 0x1ffe) where
  write_nal-Sends :
      (nal : NalUnit) (output : Output (List Sent))
      → IsWhole nal
      → Sends pid output (pes_of false 0 false 0 nal ∷ []) (write_nal logging pid output nal)
  unfolding write_nal
  write_nal-Sends nal output there =
      subst (Sends pid output (pes_of false 0 false 0 nal ∷ []))
        (sym (
          ap
            (λ (t : Outcome (List ℕ)). t >>= λ bytes.
              write_es_as_ts_pes_packet logging output bytes pid default_video_stream_id)
            (unit_data_lem nal there.0)))
        (one-Sends
          (write_es_with_pcr-DeliversTimed output (bytes_in nal) pid default_video_stream_id low
            high 0 0 (header_fits nal there false 0 false 0)).1.delivers)

  pub units-Sends :
      (nals : List NalUnit)
      → AreThere nals
      → (output : Output (List Sent))
      → Sends pid output (plain nals) (write_units (write_nal logging pid) output nals)
  unfolding write_units
  units-Sends [] there output = record {
    final = output;
    succeeds = refl;
    received = nothing output;
  }
  units-Sends (nal ∷ nals) (this, there) output =
      then-Sends (λ after. write_units (write_nal logging pid) after nals)
        (write_nal-Sends nal output this) (units-Sends nals there)

  pub end-Sends :
      (last : Option NalUnit)
      → AreThere (one_or_none last)
      → (output : Output (List Sent))
      → Sends pid output (plain (one_or_none last)) (write_end (write_nal logging pid) output last)
  unfolding write_end
  end-Sends none there output = record {
    final = output;
    succeeds = refl;
    received = nothing output;
  }
  end-Sends (some nal) (this, there) output = write_nal-Sends nal output this
