-- ===== src/Timestamp/Runs.antt =====
-- Timestamps on concrete bytes.
use mts_utils.Base.{◌≡◌, refl, arith, [], ◌∷◌, ◌++◌}
use mts_utils.Base.Outcome.{ok, err}
use mts_utils.Timestamp.{decode_pts_dts, encode_pts_dts, reduce_value, reduce_loop}
use mts_utils.Timestamp.RoundTrip.{decode_pts_dts-encode_pts_dts, encode_pts_dts-decode_pts_dts}

encoded : encode_pts_dts 2 90000 ≡ 0x21 ∷ 0x00 ∷ 0x05 ∷ 0xBF ∷ 0x21 ∷ []
unfolding encode_pts_dts reduce_value reduce_loop
encoded = refl

-- 2 ^ 33 is encoded as 1, and not as 0.
wrapped : reduce_value 0x200000000 ≡ 1
unfolding reduce_value reduce_loop
wrapped = refl

unmarked : decode_pts_dts (0x20 ∷ 0x00 ∷ 0x05 ∷ 0xBF ∷ 0x21 ∷ []) 2 ≡ err
unfolding decode_pts_dts
unmarked = refl

decode_pts_dts-encode_pts_dts_example :
    decode_pts_dts (encode_pts_dts 2 90000 ++ 0xAB ∷ []) 2 ≡ ok 90000
decode_pts_dts-encode_pts_dts_example =
    decode_pts_dts-encode_pts_dts 2 90000 2 (0xAB ∷ []) (omega arith)

encode_pts_dts-decode_pts_dts_example :
    encode_pts_dts 2 90000 ≡ 0x21 ∷ 0x00 ∷ 0x05 ∷ 0xBF ∷ 0x21 ∷ []
unfolding decode_pts_dts
encode_pts_dts-decode_pts_dts_example =
    encode_pts_dts-decode_pts_dts 0x21 0x00 0x05 0xBF 0x21 2 90000 (omega arith) (omega arith)
      (omega arith) (omega arith) (omega arith) refl
