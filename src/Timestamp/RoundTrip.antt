-- ===== src/Timestamp/RoundTrip.antt =====
-- Decoding what was encoded, and the other way round.
use mts_utils.Base.{ℕ, ◌+◌, ◌-◌, ◌*◌, ◌/◌, ◌%◌, ◌^◌, ◌≤◌, ◌<◌, ltb, ◌==◌, if◌then◌else◌, ◌&&◌}
use mts_utils.Base.{◌≡◌, refl, arith, List, [], ◌∷◌, ◌++◌, All, length, bit_or}
use mts_utils.Base.Outcome.{ok, err}
use mts_utils.Bits.{bit_or-eq-add, masks}
use mts_utils.Timestamp.{max_pts_value, reduce_value, decode_pts_dts, encode_pts_dts}
use mts_utils.Timestamp.Encode.{stamp, encode_pts_dts-eq-stamp, reduce_value_lem, reduce_value-le}

-- What five bytes stand for.
pub reading : ℕ → ℕ → ℕ → ℕ → ℕ → ℕ
reading a b c d e = a / 2 % 8 * 2 ^ 30 + (b * 128 + c / 2) * 2 ^ 15 + (d * 128 + e / 2)

join_parts :
    (a b c d e : ℕ)
    → b < 256
    → c < 256
    → d < 256
    → e < 256
    → bit_or
        (bit_or (a / 2 % 8 * 2 / 2 * 2 ^ 30) (bit_or (b * 128) (c / 2 % 128 * 2 / 2) * 2 ^ 15))
        (bit_or (d * 128) (e / 2 % 128 * 2 / 2))
      ≡ reading a b c d e
unfolding reading
join_parts a b c d e hb hc hd he =
    let low = bit_or-eq-add 7 (d * 128) (e / 2 % 128 * 2 / 2) (omega arith) (omega arith) in
    let middle = bit_or-eq-add 7 (b * 128) (c / 2 % 128 * 2 / 2) (omega arith) (omega arith) in
    let upper = a / 2 % 8 * 2 / 2 * 2 ^ 30 in
    let middle_bits = b * 128 + c / 2 % 128 * 2 / 2 in
    let two = bit_or-eq-add 30 upper (middle_bits * 2 ^ 15) (omega arith) (omega arith) in
    let three =
      bit_or-eq-add 15 (upper + middle_bits * 2 ^ 15) (d * 128 + e / 2 % 128 * 2 / 2) (omega arith)
        (omega arith) in
    rw (low, middle, two, three) (omega arith)

-- The three marker bits decide whether five bytes decode, and then their value is `reading`.
pub decode_pts_dts_lem :
    (a b c d e guard : ℕ) (rest : List ℕ)
    → b < 256
    → c < 256
    → d < 256
    → e < 256
    → decode_pts_dts (a ∷ b ∷ c ∷ d ∷ e ∷ rest) guard
      ≡ (if (a % 2 == 1) && (c % 2 == 1) && (e % 2 == 1) then ok (reading a b c d e) else err)
unfolding decode_pts_dts
decode_pts_dts_lem a b c d e guard rest hb hc hd he =
    simp masks (ground (arith, join_parts a b c d e hb hc hd he))

pub reading-stamp :
    (guard v required : ℕ) (rest : List ℕ)
    → guard < 16
    → v ≤ max_pts_value
    → decode_pts_dts (stamp guard v ++ rest) required ≡ ok v
unfolding stamp reading
reading-stamp guard v required rest hg hv = ground (
  arith,
  decode_pts_dts_lem (guard * 16 + v / 2 ^ 30 % 8 * 2 + 1) (v / 2 ^ 22 % 256)
      (v / 2 ^ 15 % 128 * 2 + 1) (v / 2 ^ 7 % 256) (v % 128 * 2 + 1) required rest,
)

-- Decoding the encoding of a timestamp, for a guard of four bits and whatever follows the five
-- bytes, gives the timestamp back if it fits 33 bits, and else the value it was reduced to.
pub decode_pts_dts-encode_pts_dts :
    (guard value required : ℕ) (rest : List ℕ)
    → guard < 16
    → decode_pts_dts (encode_pts_dts guard value ++ rest) required
      ≡ ok (if ltb max_pts_value value then (value - 1) % max_pts_value + 1 else value)
decode_pts_dts-encode_pts_dts guard value required rest h =
    rw (encode_pts_dts-eq-stamp guard value h, ← reduce_value_lem value)
      (reading-stamp guard (reduce_value value) required rest h (reduce_value-le value))

-- Encoding what was decoded from five bytes gives the same bytes, with the guard that stands in
-- the first.
pub encode_pts_dts-decode_pts_dts :
    (a b c d e required v : ℕ)
    → a < 256
    → b < 256
    → c < 256
    → d < 256
    → e < 256
    → decode_pts_dts (a ∷ b ∷ c ∷ d ∷ e ∷ []) required ≡ ok v
    → encode_pts_dts (a / 16) v ≡ a ∷ b ∷ c ∷ d ∷ e ∷ []
unfolding stamp reading
encode_pts_dts-decode_pts_dts a b c d e required v ha hb hc hd he h = ground (
  arith,
  decode_pts_dts_lem a b c d e required [],
  encode_pts_dts-eq-stamp (a / 16) v,
  reduce_value_lem v,
)

-- The encoding is five bytes, and the three markers are set.
pub encode_pts_dts_shape :
    (guard value : ℕ)
    → guard < 16
    → (length (encode_pts_dts guard value) ≡ 5) × All (λ b. b < 256) (encode_pts_dts guard value)
unfolding stamp
encode_pts_dts_shape guard value h = rw (encode_pts_dts-eq-stamp guard value h) (refl, omega arith)

pub length-encode_pts_dts : (guard value : ℕ) → length (encode_pts_dts guard value) ≡ 5
unfolding encode_pts_dts
length-encode_pts_dts guard value = refl
