-- ===== src/Ts/Laws/Runs.antt =====
-- Transport Stream packets of concrete data.
use mts_utils.Base.{
  ℕ, ◌^◌, ◌≤◌, ◌⊎◌, ◌≡◌, ◌↔◌, refl, arith, List, [], ◌∷◌, ◌++◌, drop, replicate, true, false, some,
}
use mts_utils.Base.Outcome.{ok, fault, ◌>>=◌}
use mts_utils.Pes.{pes_header, find_pts_dts_in_pes, is_data_only}
use mts_utils.Ts.Read.{get_pcr_from_adaptation_field}
use mts_utils.Ts.Write.{Sent, Output, pcr_field, write_some_ts_pes_packet}
use mts_utils.Ts.Es.{write_es_as_ts_pes_packet, write_es_as_ts_pes_packet_with_pts_dts}
use mts_utils.Ts.Es.{write_es_as_ts_pes_packet_with_pcr, write_pes_as_ts_pes_packet}
use mts_utils.Ts.Laws.Pcr.{get_pcr-pcr_field}
use mts_utils.Ts.Laws.Timing.{DeliversTimed}
use mts_utils.Ts.Laws.Receiver.{logging, reassemble, Delivers}
use mts_utils.Ts.Laws.Lengths.{NoWrap}
use mts_utils.Ts.Laws.Wraps.{write_some_lem}
use mts_utils.Ts.Laws.Es.{
  write_es_with_pts_dts-DeliversTimed, write_es_with_pcr-DeliversTimed, write_pes-Delivers,
  pes_header-le,
}
use mts_utils.Ts.Laws.Es.{write_es_with_pts_dts-find_pts_dts_in_pes}

abbrev idle : Output (List Sent)
idle = record { continuity_counter = λ pid. 15; writer = [] }

-- Enough for three packets.
abbrev long_data : List ℕ
long_data = replicate 400 0x55

abbrev extension : ℕ
extension = 299

get_pcr-pcr_field_example :
    (get_pcr_from_adaptation_field (some (drop 1 (pcr_field 90000 299))) 7 ≡ ok (some 27000405))
    × ((get_pcr_from_adaptation_field (some (drop 1 (pcr_field 90000 299))) 7 ≡ ok (some 27000299))
        ↔ (extension ≡ 0))
get_pcr-pcr_field_example = get_pcr-pcr_field 90000 299 (omega arith) (omega arith)

write_some_example :
    (NoWrap (0xAA ∷ []) long_data
      × DeliversTimed true true 90000 0 true 0x100 idle (0xAA ∷ long_data) (
          write_some_ts_pes_packet logging 500 idle
            (0xAA ∷ [])
            long_data
            true
            true
            0x100
            true
            90000
            0))
    ⊎ ((2 ^ 32 ≤ 401)
        × (write_some_ts_pes_packet logging 500 idle
              (0xAA ∷ [])
              long_data
              true
              true
              0x100
              true
              90000
              0
            ≡ fault))
write_some_example =
    write_some_lem idle (0xAA ∷ []) long_data true true 0x100 true 90000 0 500 (omega arith)
      (omega arith) (omega arith) (omega arith) (omega arith)

write_es_with_pts_dts_example :
    DeliversTimed true true 86400 0 true 0x100 idle
      (pes_header 400 0xE0 true 90000 true 86400 ++ long_data)
      (write_es_as_ts_pes_packet_with_pts_dts logging idle long_data 0x100 0xE0 true 90000 true
        86400)
write_es_with_pts_dts_example =
    write_es_with_pts_dts-DeliversTimed idle long_data 0x100 0xE0 (omega arith) (omega arith) true
      90000 true 86400 (omega (arith, pes_header-le 400 0xE0 true 90000 true 86400))

write_es_with_pcr_example :
    DeliversTimed true true 90000 0 true 0x100 idle
      (pes_header 400 0xE0 false 0 false 0 ++ long_data)
      (write_es_as_ts_pes_packet_with_pcr logging idle long_data 0x100 0xE0 90000 0)
    × DeliversTimed false false 0 0 true 0x100 idle
        (pes_header 400 0xE0 false 0 false 0 ++ long_data)
        (write_es_as_ts_pes_packet logging idle long_data 0x100 0xE0)
write_es_with_pcr_example =
    write_es_with_pcr-DeliversTimed idle long_data 0x100 0xE0 (omega arith) (omega arith) 90000 0
      (omega (arith, pes_header-le 400 0xE0 false 0 false 0))

-- The start of an H.222.0 packet.
abbrev h222_packet : List ℕ
h222_packet = 0 ∷ 0 ∷ 1 ∷ 0xE0 ∷ 0 ∷ 0 ∷ 0x80 ∷ 0 ∷ 0 ∷ long_data

write_pes_example :
    Delivers true 0x100 idle h222_packet
      (write_pes_as_ts_pes_packet logging idle h222_packet 0x100 0xE0 true 90000 0)
write_pes_example =
    write_pes-Delivers idle h222_packet 0x100 0xE0 (omega arith) (omega arith) 0x80 true 90000 0
      refl refl

write_es_with_pts_dts-find_example :
    (final : Output (List Sent)) × (sent : List Sent) × (write_es_as_ts_pes_packet_with_pts_dts
        logging idle long_data 0x100 0xE0 true 90000 true 86400
      ≡ ok final)
    × (final.writer ≡ idle.writer ++ sent)
    × ((reassemble 1 0x100 15 sent >>= find_pts_dts_in_pes) ≡ ok (some 90000, some 86400))
unfolding is_data_only
write_es_with_pts_dts-find_example =
    write_es_with_pts_dts-find_pts_dts_in_pes idle long_data 0x100 0xE0 (omega arith) (omega arith)
      true 90000 true 86400 refl (omega arith) (omega arith)
      (omega (arith, pes_header-le 400 0xE0 true 90000 true 86400))
