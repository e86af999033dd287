-- ===== src/AccessUnit/Written.antt =====
-- What a receiver gets of an access unit that is written as Transport Stream (include/accessunit.h).
use mts_utils.Base.{
  ℕ, ◌≤◌, ◌≡◌, refl, sym, ap, ◌∙◌, Bool, false, List, [], ◌∷◌, ◌++◌, Option, none, some,
}
use mts_utils.Base.Outcome.{Outcome, ok, ◌>>=◌}
use mathlib.Core.Path.{subst}
use mts_utils.Nal.{NalUnit}
use mts_utils.AccessUnit.{AccessUnit, AccessUnitContext}
use mts_utils.AccessUnit.Kept.{one_or_none}
use mts_utils.AccessUnit.Write.{
  default_video_stream_id, unit_data, written_end, write_units, write_end, write_trailer,
  write_first, write_nal, write_access_unit_trailer_as_ts, write_access_unit_as_ts_with_pts_dts,
}
use mts_utils.Ts.Write.{Sent, Output}
use mts_utils.Ts.Es.{write_es_as_ts_pes_packet_with_pts_dts}
use mts_utils.Ts.Laws.Receiver.{logging}
use mts_utils.Ts.Laws.Es.{write_es_with_pts_dts-DeliversTimed}
use mts_utils.AccessUnit.Sends.{
  Received, nothing, AreThere, bytes_in, pes_of, plain, timed, unit_data_lem, Sends, one-Sends,
  joined-Received, then-Sends, units-Sends, end-Sends, header_fits,
}

-- The units that are written after an access unit
abbrev pub ends_of : Option AccessUnitContext → List NalUnit
ends_of none = []
ends_of (some context) = one_or_none context.end_of_sequence ++ one_or_none context.end_of_stream

abbrev pub without_ends : Option AccessUnitContext → Option AccessUnitContext
without_ends none = none
without_ends (some context) = some (written_end context)

AreThere-split :
    (front rest : List NalUnit) → AreThere (front ++ rest) → AreThere front × AreThere rest
AreThere-split [] rest there = (tt, there)
AreThere-split (nal ∷ nals) rest (this, there) =
    let split = AreThere-split nals rest there in ((this, split.0), split.1)

plain-append : (front rest : List NalUnit) → plain (front ++ rest) ≡ plain front ++ plain rest
plain-append [] rest = refl
plain-append (nal ∷ nals) rest =
    ap (λ (t : List (List ℕ)). pes_of false 0 false 0 nal ∷ t) (plain-append nals rest)

-- A call that succeeds with a context, and what the receiver gets from it
pub record Writes (pid : ℕ) (output : Output (List Sent)) (packets : List (List ℕ))
    (after : Option AccessUnitContext)
    (result : Outcome (Output (List Sent) × Option AccessUnitContext)) : Type 0 where
  pub final : Output (List Sent)
  pub succeeds : result ≡ ok (final, after)
  pub received : Received pid output packets final

with_context :
    {pid : ℕ} {output : Output (List Sent)} {packets : List (List ℕ)}
    (after : Option AccessUnitContext) (result : Outcome (Output (List Sent)))
    → Sends pid output packets result
    → Writes pid output packets after (result >>= λ final. ok (final, after))
with_context after result sends = record {
  final = sends.final;
  succeeds = ap (λ t. t >>= λ final. ok (final, after)) sends.succeeds;
  received = sends.received;
}

then-Writes :
    {pid : ℕ} {output : Output (List Sent)} {front rest : List (List ℕ)}
    {after : Option AccessUnitContext} {result : Outcome (Output (List Sent))}
    (next : Output (List Sent) → Outcome (Output (List Sent) × Option AccessUnitContext))
    → Sends pid output front result
    → ((between : Output (List Sent)) → Writes pid between rest after (next between))
    → Writes pid output (front ++ rest) after (result >>= next)
then-Writes next before later =
    let behind = later before.final in
    record {
      final = behind.final;
      succeeds = ap (λ t. t >>= next) before.succeeds ∙ behind.succeeds;
      received = joined-Received before.received behind.received;
    }

module _ (pid : ℕ) (low : 0x0010 ≤ pid) (high : pid ≤ 0x1ffe) where
  trailer-Writes :
      (context : Option AccessUnitContext)
      → AreThere (ends_of context)
      → (output : Output (List Sent))
      → Writes pid output
          (plain (ends_of context))
          (without_ends context)
          (write_access_unit_trailer_as_ts logging pid context output)
  unfolding write_access_unit_trailer_as_ts write_trailer
  trailer-Writes none there output = record {
    final = output;
    succeeds = refl;
    received = nothing output;
  }
  trailer-Writes (some context) there output =
      let split =
        AreThere-split (one_or_none context.end_of_sequence) (one_or_none context.end_of_stream)
          there in
      subst
        (λ (t : List (List ℕ)).
          Writes pid output t (some (written_end context))
            (write_access_unit_trailer_as_ts logging pid (some context) output))
        (sym
          (plain-append (one_or_none context.end_of_sequence) (one_or_none context.end_of_stream)))
        (then-Writes
          (λ between. write_end (write_nal logging pid) between context.end_of_stream >>= λ after.
            ok (after, some (written_end context)))
          (end-Sends pid low high context.end_of_sequence split.0 output)
          (λ between.
            with_context (some (written_end context)) _
              (end-Sends pid low high context.end_of_stream split.1 between)))

  first-Sends :
      (nals : List NalUnit) (got_pts : Bool) (pts : ℕ) (got_dts : Bool) (dts : ℕ)
      → AreThere nals
      → (output : Output (List Sent))
      → Sends pid output (timed got_pts pts got_dts dts nals) (
          write_first
            (write_nal logging pid)
            (λ before nal. unit_data nal.unit >>= λ bytes.
              write_es_as_ts_pes_packet_with_pts_dts logging before bytes pid
                default_video_stream_id got_pts pts got_dts dts)
            output
            nals)
  unfolding write_first
  first-Sends [] got_pts pts got_dts dts there output = record {
    final = output;
    succeeds = refl;
    received = nothing output;
  }
  first-Sends (nal ∷ nals) got_pts pts got_dts dts (this, there) output =
      let write = λ (t : Outcome (List ℕ)). t >>= λ bytes.
      write_es_as_ts_pes_packet_with_pts_dts logging output bytes pid default_video_stream_id
        got_pts pts got_dts dts in
      then-Sends (λ after. write_units (write_nal logging pid) after nals)
        (subst (Sends pid output (pes_of got_pts pts got_dts dts nal ∷ []))
          (sym (ap write (unit_data_lem nal this.0)))
          (one-Sends
            (write_es_with_pts_dts-DeliversTimed output (bytes_in nal) pid default_video_stream_id
              low high got_pts pts got_dts dts
              (header_fits nal this got_pts pts got_dts dts)).delivers))
        (units-Sends pid low high nals there)

  -- For a legal PID an access unit, whose units and whose context's end units have arrays that
  -- hold their bytes and lengths that are below 2 to the 32 with 19 added, is written with
  -- success by write_access_unit_as_TS_with_pts_dts, and the context forgets the end units. A
  -- receiver of the PID gets a PES packet with the bytes of each unit, in order, the timestamps
  -- in the first alone, and then one for each end unit that the context had.
  pub write_access_unit_with_pts_dts-Writes :
      (access_unit : AccessUnit) (context : Option AccessUnitContext) (output : Output (List Sent))
      (got_pts : Bool) (pts : ℕ) (got_dts : Bool) (dts : ℕ)
      → AreThere access_unit.nal_units
      → AreThere (ends_of context)
      → Writes pid output
          (timed got_pts pts got_dts dts access_unit.nal_units ++ plain (ends_of context))
          (without_ends context)
          (write_access_unit_as_ts_with_pts_dts logging pid access_unit context output got_pts pts
            got_dts dts)
  unfolding write_access_unit_as_ts_with_pts_dts
  write_access_unit_with_pts_dts-Writes access_unit context output got_pts pts got_dts dts there
        ends =
      then-Writes (write_access_unit_trailer_as_ts logging pid context)
        (first-Sends access_unit.nal_units got_pts pts got_dts dts there output)
        (trailer-Writes context ends)
