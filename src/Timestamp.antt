-- ===== src/Timestamp.antt =====
-- PTS and DTS values: decode_pts_dts and encode_pts_dts of include/pes.h.
pub mod Encode
pub mod RoundTrip
mod Runs
use mts_utils.Base.{ℕ, zero, suc, ◌+◌, ◌-◌, ◌*◌, ◌/◌, ◌%◌, ◌^◌, ◌==◌, ltb, not, if◌then◌else◌}
use mts_utils.Base.{List, [], ◌∷◌, bit_and, bit_or}
use mts_utils.Base.Outcome.{Outcome, ok, ◌>>=◌, ◌>>◌, refuse_if, at}
use mts_utils.Bits.{◌<<<◌, ◌>>>◌, to_byte}

-- A 33-bit number.
abbrev pub max_pts_value : ℕ
max_pts_value = 0x1FFFFFFFF

-- `data` is what the pointer leads to. The guard bits are compared for a warning only, so
-- `required_guard` has no influence on the result.
unfoldable pub decode_pts_dts : List ℕ → ℕ → Outcome ℕ
decode_pts_dts data1 required_guard = do
  data_0 ← at data1 0
  data_1 ← at data1 1
  data_2 ← at data1 2
  data_3 ← at data1 3
  data_4 ← at data1 4
  let pts1 = bit_and data_0 0x0E >>> 1
  refuse_if (not (bit_and data_0 0x01 == 1))
  let pts2 = bit_or (data_1 <<< 7) (bit_and data_2 0xFE >>> 1)
  refuse_if (not (bit_and data_2 0x01 == 1))
  let pts3 = bit_or (data_3 <<< 7) (bit_and data_4 0xFE >>> 1)
  refuse_if (not (bit_and data_4 0x01 == 1))
  ok (bit_or (bit_or (pts1 <<< 30) (pts2 <<< 15)) pts3)

-- `while (temp > MAX_PTS_VALUE) temp -= MAX_PTS_VALUE;`, the first argument bounds the rounds.
unfoldable pub reduce_loop : ℕ → ℕ → ℕ
reduce_loop zero temp = temp
reduce_loop (suc fuel) temp =
    let rest = reduce_loop fuel (temp - max_pts_value) in
    if ltb max_pts_value temp then rest else temp

-- A value that is too long is reduced first. `temp / MAX` rounds are enough.
unfoldable pub reduce_value : ℕ → ℕ
reduce_value value =
    if ltb max_pts_value value then reduce_loop (value / max_pts_value + 1) value else value

-- The five bytes.
unfoldable pub encode_pts_dts : ℕ → ℕ → List ℕ
encode_pts_dts guard_bits value0 =
    let value = reduce_value value0 in
    let pts1 = bit_and (value >>> 30) 0x07 in
    let pts2 = bit_and (value >>> 15) 0x7FFF in
    let pts3 = bit_and value 0x7FFF in
    to_byte (bit_or (bit_or (guard_bits <<< 4) (pts1 <<< 1)) 0x01)
    ∷ to_byte (bit_and pts2 0x7F80 >>> 7)
    ∷ to_byte (bit_or (bit_and pts2 0x007F <<< 1) 0x01)
    ∷ to_byte (bit_and pts3 0x7F80 >>> 7)
    ∷ to_byte (bit_or (bit_and pts3 0x007F <<< 1) 0x01)
    ∷ []
