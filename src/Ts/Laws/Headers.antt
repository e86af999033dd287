-- ===== src/Ts/Laws/Headers.antt =====
-- One packet: the four bytes of its header, and what split_TS_packet reads from them.
use mts_utils.Base.{ℕ, suc, ◌+◌, ◌-◌, ◌*◌, ◌/◌, ◌%◌, ◌≤◌, ◌<◌, ◌==◌, if◌then◌else◌, not}
use mts_utils.Base.{◌≡◌, refl, ◌∙◌, arith, bit_and, bit_or}
use mts_utils.Base.{List, [], ◌∷◌, ◌++◌, length, take, drop, length-append}
use mts_utils.Base.{Bool, true, false, ==-eq-false, none, some, take-length, drop-append}
use mts_utils.Base.Int.{pos, negsuc}
use mts_utils.Base.Outcome.{Outcome, ok, fault, ◌>>=◌, ◌>>◌, refuse_if, at}
use mts_utils.Bits.{bit_or-eq-add, masks, mask_0xFF, mask_0x1F, mask_0x40, mask_0x30, mask_0x0F}
use mts_utils.Ts.Read.{Parts, split_ts_packet, ts_packet_size}
use mts_utils.Ts.Write.{first_bytes}

-- The bytes that a reader takes from the parts of a packet.
unfoldable pub payload_bytes : Parts → Outcome (List ℕ)
payload_bytes parts = elim parts.payload [
  | none ↦ ok []
  | some bytes ↦ elim parts.payload_len [ pos n ↦ ok (take n bytes) | negsuc n ↦ fault ]
]

-- The bytes of a packet of 188 bytes for a PID, if it has a given start indicator and a given
-- continuity count.
unfoldable pub receive : ℕ → ℕ → ℕ → List ℕ → Outcome (List ℕ)
unfolding payload_bytes
receive start pid count packet = do
  refuse_if (not (length packet == ts_packet_size))
  parts ← split_ts_packet packet
  refuse_if (not (parts.pid == pid))
  refuse_if (not (parts.payload_unit_start_indicator == start))
  byte ← at packet 3
  refuse_if (not (bit_and byte 0x0f == count))
  payload_bytes parts

abbrev pub indicator : Bool → ℕ
indicator true = 1
indicator false = 0

start_byte :
    (start : Bool) (pid : ℕ)
    → pid < 0x2000
    → bit_or (if start then 0x40 else 0x00) (bit_and pid 0x1f00 / 256) % 256
      ≡ indicator start * 64 + pid / 256
start_byte true pid h =
    let high = bit_or-eq-add 6 64 (pid / 256 % 32 * 256 / 256) refl (omega arith) in
    simp masks (ground (arith, high))
start_byte false pid h =
    let high = bit_or-eq-add 6 0 (pid / 256 % 32 * 256 / 256) refl (omega arith) in
    simp masks (ground (arith, high))

pub control_byte :
    (control count : ℕ) → count < 16 → bit_or (control * 16) count ≡ control * 16 + count
control_byte control count h = bit_or-eq-add 4 (control * 16) count (omega arith) h

pid_bytes : (pid : ℕ) → bit_or (pid / 256 * 256) (pid % 256) ≡ pid
pid_bytes pid =
    bit_or-eq-add 8 (pid / 256 * 256) (pid % 256) (omega arith) (omega arith) ∙ omega arith

-- The four bytes, in plain arithmetic.
unfoldable pub header_bytes : Bool → ℕ → ℕ → ℕ → List ℕ
header_bytes start pid control count =
    0x47 ∷ (indicator start * 64 + pid / 256) ∷ (pid % 256) ∷ (control * 16 + count) ∷ []

pub first_bytes_lem :
    (start : Bool) (pid control count : ℕ)
    → pid < 0x2000
    → control < 16
    → count < 16
    → first_bytes start pid (control * 16) count ≡ header_bytes start pid control count
unfolding first_bytes header_bytes
first_bytes_lem start pid control count hp hc hn =
    ground (arith, start_byte start pid hp, control_byte control count hn, mask_0xFF pid)

drop-past_field :
    (a b c d e : ℕ) (rest chunk : List ℕ)
    → drop (5 + length rest) (a ∷ b ∷ c ∷ d ∷ e ∷ (rest ++ chunk)) ≡ chunk
drop-past_field a b c d e rest chunk =
    let n = length rest in
    let unary : 5 + n ≡ suc (suc (suc (suc (suc n)))) = omega arith in
    rw unary (drop-append rest chunk)

-- The fields of the header.
pid_field :
    (start : Bool) (pid : ℕ)
    → pid < 0x2000
    → bit_or (bit_and (indicator start * 64 + pid / 256) 0x1f * 256) (pid % 256) ≡ pid
pid_field true pid h = ground (arith, mask_0x1F (64 + pid / 256), pid_bytes pid)
pid_field false pid h = ground (arith, mask_0x1F (pid / 256), pid_bytes pid)

start_field :
    (start : Bool) (pid : ℕ)
    → pid < 0x2000
    → bit_and (indicator start * 64 + pid / 256) 0x40 / 64 ≡ indicator start
start_field true pid h = omega (arith, mask_0x40 (64 + pid / 256))
start_field false pid h = omega (arith, mask_0x40 (indicator false * 64 + pid / 256))

control_field :
    (control count : ℕ)
    → control < 4
    → count < 16
    → bit_and (control * 16 + count) 0x30 / 16 ≡ control
control_field control count hc hn = omega (arith, mask_0x30 (control * 16 + count))

count_field : (control count : ℕ) → count < 16 → bit_and (control * 16 + count) 0x0f ≡ count
count_field control count hn = omega (arith, mask_0x0F (control * 16 + count))

module _ (start : Bool) (pid count : ℕ) (legal : pid < 0x1fff) (four_bits : count < 16)
    (chunk : List ℕ) where
  -- What split_TS_packet makes of a packet without adaptation field.
  pub split-bare :
      split_ts_packet (header_bytes start pid 1 count ++ chunk)
      ≡ ok (record {
        pid = pid;
        payload_unit_start_indicator = indicator start;
        adapt = none;
        adapt_len = 0;
        payload = some chunk;
        payload_len = pos 184;
      })
  unfolding split_ts_packet header_bytes
  split-bare = rw (
    pid_field start pid (omega arith),
    start_field start pid (omega arith),
    control_field 1 count (omega arith) four_bits,
    ==-eq-false pid 0x1fff (omega arith),
  )

  pub receive_bare :
      length chunk ≡ 184
      → receive (indicator start) pid count (header_bytes start pid 1 count ++ chunk) ≡ ok chunk
  unfolding receive payload_bytes header_bytes
  receive_bare h = ground (arith, split-bare, count_field 1 count four_bits, take-length chunk)

  -- What it makes of a packet with one.
  split-adapted :
      (rest : List ℕ)
      → length rest ≤ 183
      → split_ts_packet (header_bytes start pid 3 count ++ ((length rest ∷ rest) ++ chunk))
        ≡ ok (record {
          pid = pid;
          payload_unit_start_indicator = indicator start;
          adapt = if length rest == 0 then none else some (rest ++ chunk);
          adapt_len = length rest;
          payload = some chunk;
          payload_len = pos (183 - length rest);
        })
  unfolding split_ts_packet header_bytes
  split-adapted rest h =
      rw
        (
          pid_field start pid (omega arith),
          start_field start pid (omega arith),
          control_field 3 count (omega arith) four_bits,
          ==-eq-false pid 0x1fff (omega arith),
        )
        (ground (
          arith,
          drop-past_field 0x47 (indicator start * 64 + pid / 256) (pid % 256) (48 + count)
              (length rest) rest chunk,
        ))

  pub receive_adapted :
      (rest : List ℕ)
      → length rest + length chunk ≡ 183
      → receive
          (indicator start)
          pid
          count
          (header_bytes start pid 3 count ++ ((length rest ∷ rest) ++ chunk))
        ≡ ok chunk
  unfolding receive payload_bytes header_bytes
  receive_adapted rest h = ground (
    arith,
    split-adapted rest (omega arith),
    count_field 3 count four_bits,
    take-length chunk,
    length-append rest chunk,
  )
