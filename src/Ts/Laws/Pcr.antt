-- ===== src/Ts/Laws/Pcr.antt =====
-- The PCR that the writer puts into an adaptation field, read back.
use mts_utils.Base.{ℕ, ◌+◌, ◌*◌, ◌/◌, ◌%◌, ◌^◌, ◌<◌, ◌≡◌, ◌↔◌, arith, bit_or}
use mts_utils.Base.{drop, some}
use mts_utils.Base.Outcome.{ok}
use mts_utils.Bits.{bit_or-eq-add, masks}
use mts_utils.Ts.Read.{get_pcr_from_adaptation_field}
use mts_utils.Ts.Write.{pcr_field}

-- The base, from the five bytes that hold it.
join_base :
    (a b c d e : ℕ)
    → b < 256
    → c < 256
    → d < 256
    → e < 256
    → bit_or (bit_or (bit_or (bit_or (a * 2 ^ 25) (b * 2 ^ 17)) (c * 2 ^ 9)) (d * 2)) (e / 128)
      ≡ a * 2 ^ 25 + b * 2 ^ 17 + c * 2 ^ 9 + d * 2 + e / 128
join_base a b c d e hb hc hd he =
    let one = bit_or-eq-add 25 (a * 2 ^ 25) (b * 2 ^ 17) (omega arith) (omega arith) in
    let ab = a * 2 ^ 25 + b * 2 ^ 17 in
    let two = bit_or-eq-add 17 ab (c * 2 ^ 9) (omega arith) (omega arith) in
    let abc = ab + c * 2 ^ 9 in
    let three = bit_or-eq-add 9 abc (d * 2) (omega arith) (omega arith) in
    let four = bit_or-eq-add 1 (abc + d * 2) (e / 128) (omega arith) (omega arith) in
    rw (one, two, three, four)

-- The sixth byte of the PCR: the last bit of the base, six reserved ones and a bit of the extension.
middle_byte :
    (base extn : ℕ)
    → extn < 512
    → bit_or (bit_or (base % 2 * 128) 0x7E) (extn / 256) % 256 ≡ base % 2 * 128 + 126 + extn / 256
middle_byte base extn h =
    let one = bit_or-eq-add 7 (base % 2 * 128) 0x7E (omega arith) (omega arith) in
    let two = bit_or-eq-add 1 (base % 2 * 128 + 126) (extn / 256) (omega arith) (omega arith) in
    rw (one, two) (omega arith)

read_back :
    (base extn : ℕ)
    → base < 2 ^ 33
    → extn < 300
    → get_pcr_from_adaptation_field (some (drop 1 (pcr_field base extn))) 7
      ≡ ok (some (base * 300 + extn / 256 * 256 + extn / 2))
unfolding get_pcr_from_adaptation_field pcr_field
read_back base extn hb he =
    let sixth = middle_byte base extn (omega arith) in
    simp masks (
      ground (
        arith,
        sixth,
        join_base (base / 2 ^ 25 % 256) (base / 2 ^ 17 % 256 % 256) (base / 2 ^ 9 % 256 % 256)
            (base / 2 % 256 % 256) (base % 2 * 128 + 126 + extn / 256) (omega arith) (omega arith)
            (omega arith) (omega arith),
      ))

-- For a base of 33 bits and an extension below 300, reading back the PCR of a packet gives the
-- base 300 times and, of the extension, its ninth bit and half of all of it; so it comes back
-- exactly when the extension is 0.
pub get_pcr-pcr_field :
    (base extn : ℕ)
    → base < 2 ^ 33
    → extn < 300
    → (get_pcr_from_adaptation_field (some (drop 1 (pcr_field base extn))) 7
        ≡ ok (some (base * 300 + extn / 256 * 256 + extn / 2)))
      × ((get_pcr_from_adaptation_field (some (drop 1 (pcr_field base extn))) 7
            ≡ ok (some (base * 300 + extn)))
          ↔ (extn ≡ 0))
get_pcr-pcr_field base extn hb he =
    let read = read_back base extn hb he in
    (read, (λ whole. ground arith, λ zero_extn. ground arith))
