-- ===== src/Ts/Laws/Fits.antt =====
-- The header of a packet that write_some_TS_PES_packet of include/ts.h makes, and the space behind it.
use mts_utils.Base.{ℕ, ◌+◌, ◌-◌, ◌≤◌, ◌<◌, ◌==◌, ltb}
use mts_utils.Base.{◌≡◌, refl, ap, arith, ◌⊎◌, inl, inr}
use mts_utils.Base.{List, [], ◌∷◌, ◌++◌, length, drop, replicate, length-append, length-replicate}
use mts_utils.Base.{Bool, true, false, Bool-cases, Option, none, some}
use mts_utils.Base.Outcome.{ok}
use mts_utils.Ts.Write.{first_bytes, pcr_field, adaptation, stuffed, with_field, ts_header}
use mts_utils.Ts.Laws.Headers.{
  receive, indicator, header_bytes, first_bytes_lem, receive_bare, receive_adapted,
}

-- What the sender needs of a header with room for `space` bytes, where `n` bytes are to go.
pub record Fits (start : Bool) (pid count n : ℕ) (header : List ℕ) (space : ℕ) : Type 0 where
  pub size : length header + space ≡ 188
  pub room : (space ≡ n) ⊎ ((176 ≤ space) × (space < n))
  pub reads :
      (chunk : List ℕ)
      → length chunk ≡ space
      → receive (indicator start) pid count (header ++ chunk) ≡ ok chunk

-- The field before and behind the stuffing: its length byte counts the rest of it.
record IsField (field : List ℕ) (space : ℕ) : Type 0 where
  rest : List ℕ
  shape : field ≡ length rest ∷ rest
  fills : length rest + space ≡ 183

stuffed-IsField :
    (rest : List ℕ) (space n : ℕ)
    → length rest + space ≡ 183
    → IsField (stuffed (length rest ∷ rest) space n).0 (stuffed (length rest ∷ rest) space n).1
unfolding stuffed
stuffed-IsField rest space n h =
    let count : length (rest ++ replicate (space - n) 0xFF) ≡ length rest + (space - n) = omega (
      arith,
      length-append rest (replicate (space - n) 0xFF),
      length-replicate {0} {A = ℕ} (space - n) 0xFF,
    ) in
    elim (Bool-cases (ltb n space)) [
      | inl short ↦ rw short (record {
        rest = rest ++ replicate (space - n) 0xFF;
        shape = ap (λ k. k ∷ (rest ++ replicate (space - n) 0xFF)) (omega (arith, count));
        fills = omega (arith, count);
      })
      | inr full ↦ rw full (record { rest = rest; shape = refl; fills = h })
    ]

stuffed-room :
    (field : List ℕ) (space n : ℕ)
    → (176 ≤ space) ⊎ (n ≤ space)
    → let left = (stuffed field space n).1 in (left ≡ n) ⊎ ((176 ≤ left) × (left < n))
unfolding stuffed
stuffed-room field space n h = ground arith

module _ (start : Bool) (pid count : ℕ) (legal : pid < 0x1fff) (four_bits : count < 16) where
  adapted-Fits :
      (n : ℕ) (field : List ℕ) (space : ℕ)
      → IsField field space
      → (space ≡ n) ⊎ ((176 ≤ space) × (space < n))
      → Fits start pid count n (first_bytes start pid 0x30 count ++ field) space
  adapted-Fits n field space f room =
      rw (first_bytes_lem start pid 3 count (omega arith) (omega arith) four_bits, f.shape)
        (record {
          size = unfold header_bytes in omega (arith, f.fills);
          room = room;
          reads = λ chunk h.
              let whole =
                receive_adapted start pid count legal four_bits chunk f.rest
                  (omega (arith, f.fills)) in
              unfold header_bytes in whole;
        })

  bare-Fits : (n : ℕ) → 184 ≤ n → Fits start pid count n (first_bytes start pid 0x10 count) 184
  bare-Fits n h =
      rw (first_bytes_lem start pid 1 count (omega arith) (omega arith) four_bits) (record {
        size = unfold header_bytes in refl;
        room = omega arith;
        reads = λ chunk k. receive_bare start pid count legal four_bits chunk k;
      })

  stuffed-Fits :
      (n : ℕ) (rest : List ℕ) (space : ℕ)
      → length rest + space ≡ 183
      → (176 ≤ space) ⊎ (n ≤ space)
      → let (field, left) = stuffed (length rest ∷ rest) space n in
        Fits start pid count n (first_bytes start pid 0x30 count ++ field) left
  stuffed-Fits n rest space fills h =
      adapted-Fits n _ _ (stuffed-IsField rest space n fills)
        (stuffed-room (length rest ∷ rest) space n h)

  adaptation-Fits :
      (with_pcr : Bool) (base extn n : ℕ) (found : Option (List ℕ × ℕ))
      → adaptation with_pcr base extn n ≡ found
      → let (header, space) = with_field start pid count n found in
        Fits start pid count n header space
        → let (header, space) = ts_header start with_pcr pid count base extn n in
          Fits start pid count n header space
  unfolding ts_header
  adaptation-Fits with_pcr base extn n found e fits = rw e fits

  -- The header that the writer makes for `n` bytes fills the packet up to where they go, and is read
  -- back as what it was made from.
  pub ts_header-Fits :
      (with_pcr : Bool) (base extn n : ℕ)
      → let (header, space) = ts_header start with_pcr pid count base extn n in
        Fits start pid count n header space
  ts_header-Fits true base extn n =
      adaptation-Fits true base extn n (some (pcr_field base extn, 176)) (unfold adaptation in refl)
        (unfold pcr_field in
          stuffed-Fits n (drop 1 (pcr_field base extn)) 176 refl (inl (omega arith)))
  ts_header-Fits false base extn n = elim (Bool-cases (ltb n 184)) [
    | inl short ↦ elim (Bool-cases (n == 183)) [
      | inl one_less ↦
          adaptation-Fits false base extn n (some (0 ∷ [], 183))
            (unfold adaptation in rw (short, one_less))
            (stuffed-Fits n [] 183 refl (inl (omega arith)))
      | inr less ↦
          adaptation-Fits false base extn n (some (1 ∷ 0 ∷ [], 182))
            (unfold adaptation in rw (short, less))
            (stuffed-Fits n (0 ∷ []) 182 refl (inr (ground arith)))
    ]
    | inr full ↦
        adaptation-Fits false base extn n none (unfold adaptation in rw full)
          (bare-Fits n (ground arith))
  ]
