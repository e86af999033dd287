-- ===== src/AccessUnit/Write.antt =====
-- Writing an access unit, as elementary stream or as Transport Stream: include/accessunit.h. What fwrite does
-- with the bytes of a unit is a parameter, as is what sends a packet. A null context is `none`.
use mts_utils.Base.{ℕ, if◌then◌else◌, Bool, List, [], ◌∷◌, length, take, Option, none, some, ltb}
use mts_utils.Base.Outcome.{Outcome, ok, err, fault, ◌>>=◌}
use mts_utils.Nal.{NalUnit}
use mts_utils.Es.{EsUnit}
use mts_utils.AccessUnit.{AccessUnit, AccessUnitContext}
use mts_utils.Ts.Write.{Sent, Output}
use mts_utils.Ts.Es.{
  write_es_as_ts_pes_packet, write_es_as_ts_pes_packet_with_pts_dts,
  write_es_as_ts_pes_packet_with_pcr,
}

abbrev pub default_video_stream_id : ℕ
default_video_stream_id = 0xE0

-- The `data_len` bytes of `data`
unfoldable pub unit_data : EsUnit → Outcome (List ℕ)
unit_data unit =
    if ltb (length unit.cells) unit.data_len then fault else ok (take unit.data_len unit.cells)

-- The units after an access unit are freed once they are written.
abbrev pub written_end : AccessUnitContext → AccessUnitContext
written_end context = record context { end_of_sequence = none; end_of_stream = none }

module _ {O : Type 0} (write_unit : O → NalUnit → Outcome O) where
  unfoldable pub write_units : O → List NalUnit → Outcome O
  write_units output [] = ok output
  write_units output (nal ∷ nals) = write_unit output nal >>= λ after. write_units after nals

  unfoldable pub write_end : O → Option NalUnit → Outcome O
  write_end output none = ok output
  write_end output (some nal) = write_unit output nal

  unfoldable pub write_trailer :
      Option AccessUnitContext → O → Outcome (O × Option AccessUnitContext)
  unfolding write_end
  write_trailer none output = ok (output, none)
  write_trailer (some context) output = write_end output context.end_of_sequence >>= λ between.
      write_end between context.end_of_stream >>= λ after. ok (after, some (written_end context))

  -- The first unit is written in a way of its own.
  unfoldable pub write_first : (O → NalUnit → Outcome O) → O → List NalUnit → Outcome O
  unfolding write_units
  write_first first output [] = ok output
  write_first first output (nal ∷ nals) = first output nal >>= λ after. write_units after nals

module _ {F : Type 0} (fwrite : F → List ℕ → Option F) where
  unfoldable pub write_es_unit : F → EsUnit → Outcome F
  write_es_unit output unit =
      unit_data unit >>= λ bytes. elim (fwrite output bytes) [ none ↦ err | some after ↦ ok after ]

  unfoldable pub write_access_unit_as_es :
      AccessUnit → Option AccessUnitContext → F → Outcome (F × Option AccessUnitContext)
  write_access_unit_as_es access_unit context output =
      let write = λ (file : F) (nal : NalUnit). write_es_unit file nal.unit in
      write_units write output access_unit.nal_units >>= λ after. write_trailer write context after

module _ {W : Type 0} (tswrite_write : W → Sent → Option W) (video_pid : ℕ) where
  unfoldable pub write_nal : Output W → NalUnit → Outcome (Output W)
  write_nal output nal = unit_data nal.unit >>= λ bytes.
      write_es_as_ts_pes_packet tswrite_write output bytes video_pid default_video_stream_id

  unfoldable pub write_access_unit_trailer_as_ts :
      Option AccessUnitContext → Output W → Outcome (Output W × Option AccessUnitContext)
  write_access_unit_trailer_as_ts = write_trailer write_nal

  unfoldable pub write_access_unit_as_ts :
      AccessUnit
      → Option AccessUnitContext
      → Output W
      → Outcome (Output W × Option AccessUnitContext)
  write_access_unit_as_ts access_unit context output =
      write_units write_nal output access_unit.nal_units >>= λ after.
      write_access_unit_trailer_as_ts context after

  unfoldable pub write_access_unit_as_ts_with_pts_dts :
      AccessUnit
      → Option AccessUnitContext
      → Output W
      → Bool
      → ℕ
      → Bool
      → ℕ
      → Outcome (Output W × Option AccessUnitContext)
  write_access_unit_as_ts_with_pts_dts access_unit context output got_pts pts got_dts dts =
      let first = λ (before : Output W) (nal : NalUnit). unit_data nal.unit >>= λ bytes.
      write_es_as_ts_pes_packet_with_pts_dts tswrite_write before bytes video_pid
        default_video_stream_id got_pts pts got_dts dts in
      write_first write_nal first output access_unit.nal_units >>= λ after.
      write_access_unit_trailer_as_ts context after

  unfoldable pub write_access_unit_as_ts_with_pcr :
      AccessUnit
      → Option AccessUnitContext
      → Output W
      → ℕ
      → ℕ
      → Outcome (Output W × Option AccessUnitContext)
  write_access_unit_as_ts_with_pcr access_unit context output pcr_base pcr_extn =
      let first = λ (before : Output W) (nal : NalUnit). unit_data nal.unit >>= λ bytes.
      write_es_as_ts_pes_packet_with_pcr tswrite_write before bytes video_pid
        default_video_stream_id pcr_base pcr_extn in
      write_first write_nal first output access_unit.nal_units >>= λ after.
      write_access_unit_trailer_as_ts context after
