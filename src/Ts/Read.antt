-- ===== src/Ts/Read.antt =====
-- Taking a Transport Stream packet apart: split_TS_packet and get_PCR_from_adaptation_field of
-- include/ts.h.
use mts_utils.Base.{ℕ, ◌+◌, ◌-◌, ◌*◌, ◌==◌, if◌then◌else◌, not, bit_and, bit_or}
use mts_utils.Base.{List, drop, Option, none, some}
use mts_utils.Base.Int.{ℤ, pos, sub_ℕ}
use mts_utils.Base.Outcome.{Outcome, ok, ◌>>=◌, ◌>>◌, refuse_if, at}
use mts_utils.Bits.{◌<<<◌, ◌>>>◌}

abbrev pub ts_packet_size : ℕ
ts_packet_size = 188

abbrev pub max_ts_payload_size : ℕ
max_ts_payload_size = 184

-- The results of split_TS_packet. A pointer into `buf` is what it leads to, up to the end of `buf`.
-- The length of the payload can come out negative.
pub record Parts : Type 0 where
  pub pid : ℕ
  pub payload_unit_start_indicator : ℕ
  pub adapt : Option (List ℕ)
  pub adapt_len : ℕ
  pub payload : Option (List ℕ)
  pub payload_len : ℤ

-- `*adapt`, where there is an adaptation field
abbrev pub adapt_pointer : List ℕ → ℕ → Option (List ℕ)
adapt_pointer buf adapt_len = if adapt_len == 0 then none else some (drop 5 buf)

unfoldable pub split_ts_packet : List ℕ → Outcome Parts
split_ts_packet buf = do
  buf_0 ← at buf 0
  refuse_if (not (buf_0 == 0x47))
  buf_1 ← at buf 1
  buf_2 ← at buf 2
  let start = bit_and buf_1 0x40 >>> 6
  let pid = bit_or (bit_and buf_1 0x1f <<< 8) buf_2
  let bare : Parts = record {
    pid = pid;
    payload_unit_start_indicator = start;
    adapt = none;
    adapt_len = 0;
    payload = none;
    payload_len = pos 0;
  }
  if pid == 0x1FFF then ok bare else (do
    buf_3 ← at buf 3
    let control = bit_and buf_3 0x30 >>> 4
    if control == 0
        then ok bare
        else if control == 1
        then ok
            (record bare { payload = some (drop 4 buf); payload_len = pos (ts_packet_size - 4) })
        else (do
          buf_4 ← at buf 4
          let adapted : Parts = record bare { adapt = adapt_pointer buf buf_4; adapt_len = buf_4 }
          if control == 2
              then ok adapted
              else ok (record adapted {
                payload = some (drop (5 + buf_4) buf);
                payload_len = sub_ℕ (ts_packet_size - 5) buf_4;
              })))

-- `got_pcr` and `pcr` together.
unfoldable pub get_pcr_from_adaptation_field : Option (List ℕ) → ℕ → Outcome (Option ℕ)
get_pcr_from_adaptation_field none adapt_len = ok none
get_pcr_from_adaptation_field (some adapt) adapt_len = if adapt_len == 0 then ok none else (do
  adapt_0 ← at adapt 0
  if bit_and adapt_0 0x10 == 0 then ok none else (do
    adapt_1 ← at adapt 1
    adapt_2 ← at adapt 2
    adapt_3 ← at adapt 3
    adapt_4 ← at adapt 4
    adapt_5 ← at adapt 5
    adapt_6 ← at adapt 6
    let base =
        bit_or
          (bit_or (bit_or (bit_or (adapt_1 <<< 25) (adapt_2 <<< 17)) (adapt_3 <<< 9))
            (adapt_4 <<< 1))
          (adapt_5 >>> 7)
    ok (some (base * 300 + (bit_and adapt_5 1 <<< 8) + adapt_6))))
