-- ===== src/Timestamp/Encode.antt =====
-- What encode_pts_dts writes, in plain arithmetic.
use mts_utils.Base.{ℕ, zero, suc, ◌+◌, ◌-◌, ◌*◌, ◌/◌, ◌%◌, ◌^◌, ◌≤◌, ◌<◌, ltb, if◌then◌else◌}
use mts_utils.Base.{◌≡◌, arith, List, [], ◌∷◌, bit_or}
use mts_utils.Bits.{bit_or-eq-add, masks}
use mts_utils.Timestamp.{max_pts_value, reduce_loop, reduce_value, encode_pts_dts}

reduce_loop_lem :
    (fuel temp : ℕ)
    → 0 < temp
    → temp ≤ fuel * max_pts_value
    → reduce_loop fuel temp ≡ (temp - 1) % max_pts_value + 1
unfolding reduce_loop
reduce_loop_lem zero temp p h = absurd (omega arith)
reduce_loop_lem (suc fuel) temp p h = ground (arith, reduce_loop_lem fuel (temp - max_pts_value))

-- The reduction keeps what fits 33 bits, and takes any other value into 1 .. 2^33 - 1.
pub reduce_value_lem :
    (value : ℕ)
    → reduce_value value
      ≡ (if ltb max_pts_value value then (value - 1) % max_pts_value + 1 else value)
unfolding reduce_value
reduce_value_lem value = ground (arith, reduce_loop_lem (value / max_pts_value + 1) value)

pub reduce_value-le : (value : ℕ) → reduce_value value ≤ max_pts_value
reduce_value-le value = ground (arith, reduce_value_lem value)

-- The five bytes for a guard of four bits and a value of 33.
unfoldable pub stamp : ℕ → ℕ → List ℕ
stamp guard v =
    (guard * 16 + v / 2 ^ 30 % 8 * 2 + 1)
    ∷ (v / 2 ^ 22 % 256)
    ∷ (v / 2 ^ 15 % 128 * 2 + 1)
    ∷ (v / 2 ^ 7 % 256)
    ∷ (v % 128 * 2 + 1)
    ∷ []

first_byte :
    (guard p : ℕ)
    → guard < 16
    → p < 8
    → bit_or (bit_or (guard * 16) (p * 2)) 1 % 256 ≡ guard * 16 + p * 2 + 1
first_byte guard p hg hp =
    let fields = bit_or-eq-add 4 (guard * 16) (p * 2) (omega arith) (omega arith) in
    let marker = bit_or-eq-add 1 (guard * 16 + p * 2) 1 (omega arith) (omega arith) in
    rw (fields, marker) (omega arith)

marked_byte : (p : ℕ) → p < 128 → bit_or (p * 2) 1 % 256 ≡ p * 2 + 1
marked_byte p h = rw (bit_or-eq-add 1 (p * 2) 1 (omega arith) (omega arith)) (omega arith)

pub encode_pts_dts-eq-stamp :
    (guard value : ℕ) → guard < 16 → encode_pts_dts guard value ≡ stamp guard (reduce_value value)
unfolding encode_pts_dts stamp
encode_pts_dts-eq-stamp guard value h =
    let v = reduce_value value in
    simp masks (
      ground (
        arith,
        first_byte guard (v / 2 ^ 30 % 8),
        marked_byte (v / 2 ^ 15 % 32768 % 128),
        marked_byte (v % 32768 % 128),
      ))
