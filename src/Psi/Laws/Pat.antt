-- ===== src/Psi/Laws/Pat.antt =====
-- A PAT for one program, from write_single_program_pat to find_pat, both of include/ts.h.
use mts_utils.Base.{ℕ, ◌+◌, ◌/◌, ◌%◌, ◌^◌, ◌≤◌, ◌<◌, ◌≡◌, refl, sym, ap, ◌∙◌, arith}
use mts_utils.Base.{List, [], ◌∷◌, ◌++◌, length, take, take-length, drop, replicate, bit_or}
use mathlib.Core.Path.{subst}
use mts_utils.Base.{none, some, true, false, ◌==◌, All}
use mts_utils.Psi.Find.{find_pat, find_pat_loop, restarted, build_from}
use mts_utils.Base.Outcome.{ok}
use mts_utils.Bits.{to_byte, mask_0x1F, join_bytes}
use mts_utils.Crc.{crc32_block}
use mts_utils.Crc.Cancel.{crc32_block-lt}
use mts_utils.Psi.Write.{send_section, ts_program_packet_hdr, write_pat, write_single_program_pat}
use mts_utils.Ts.Write.{Sent, Output, next_continuity_count}
use mts_utils.Ts.Laws.Headers.{header_bytes, control_byte, split-bare}
use mts_utils.Ts.Read.{Parts, split_ts_packet}
use mts_utils.Psi.Read.{
  build_psi_data, extract_prog_list_from_pat, section_end, fetch_crc, at_back, program_loop,
}
use mts_utils.Base.Int.{pos}
use mts_utils.Psi.Laws.{build_psi_data_lem}
use mts_utils.Ts.Laws.Receiver.{logging, packet_of, write_parts-logs, next_count}
use mts_utils.Psi.Laws.Section.{
  one_program, pat_block, written_lem, place_crc_lem, pat_section, pat_section-cancels,
  length-pat_section, length-pat_block, appended,
}

-- The packet around a section of 16 bytes.
pat_packet : ℕ → List ℕ → List ℕ
pat_packet count section = header_bytes true 0 1 count ++ (167 ∷ (replicate 167 0xff ++ section))

module _ (output : Output (List Sent)) where
  next_counter : ℕ → ℕ
  next_counter = (next_continuity_count output.continuity_counter 0).1

  send_section_lem :
      (section : List ℕ)
      → length section ≡ 16
      → crc32_block 0xffffffff section ≡ 0
      → send_section logging output 0 0 13 section
        ≡ ok (record {
          continuity_counter = next_counter;
          writer =
              output.writer
              ++ packet_of output 0 false 0
                  (pat_packet ((output.continuity_counter 0 + 1) % 16) section)
                ∷ [];
        })
  unfolding send_section ts_program_packet_hdr pat_packet header_bytes next_counter
  send_section_lem section hl hc =
      let count = (next_continuity_count output.continuity_counter 0).0 in
      let small : count < 16 = omega (arith, next_count output 0) in
      let byte : to_byte (bit_or 0x10 count) ≡ 16 + count =
        ground (arith, control_byte 1 count small) in
      let counted = record output { continuity_counter = next_counter } in
      rw
        (
          hl,
          hc,
          byte,
          sym (next_count output 0),
          write_parts-logs counted 0 false 0
              (0x47 ∷ 0x40 ∷ 0 ∷ (16 + count) ∷ 167 ∷ replicate 167 0xff) [] section 16
              (omega arith) (omega (arith, hl)),
          subst (λ (t : ℕ). take t section ≡ section) hl (take-length section),
        )
        refl

build_lem :
    (tsid number pid : ℕ)
    → build_psi_data (some (167 ∷ (replicate 167 0xff ++ pat_section tsid number pid))) 184 none
      ≡ ok (record { bytes = pat_section tsid number pid; len = 16; used = 16 })
unfolding pat_section pat_block
build_lem tsid number pid =
    build_psi_data_lem 0 0xB0 13 (replicate 167 0xff) (drop 3 (pat_section tsid number pid))
      (omega arith)

extract_lem :
    (tsid number pid : ℕ)
    → 0 < number
    → number < 2 ^ 16
    → pid < 0x2000
    → extract_prog_list_from_pat (some (pat_section tsid number pid)) 16
      ≡ ok (one_program number pid)
unfolding extract_prog_list_from_pat section_end fetch_crc at_back program_loop pat_section
    pat_block
extract_lem tsid number pid h0 hn hp = rw (pat_section-cancels tsid number pid) (
    ground (
      arith,
      join_bytes (number / 256) (number % 256),
      mask_0x1F (0xE0 + pid / 256),
      join_bytes (pid / 256) (pid % 256),
      appended number pid,
    ))

-- A packet that is of another PID.
abbrev pub IsOther : List ℕ → Type 0
IsOther packet = (parts : Parts) × (split_ts_packet packet ≡ ok parts) × ((parts.pid == 0) ≡ false)

skip_one :
    (packet : List ℕ) (more : List (List ℕ)) (read : ℕ) (parts : Parts)
    → split_ts_packet packet ≡ ok parts
    → (parts.pid == 0) ≡ false
    → find_pat_loop (packet ∷ more) 0 read none ≡ find_pat_loop more 0 (read + 1) none
unfolding find_pat_loop
skip_one packet more read parts split other = rw (split, other) refl

skip_others :
    (before packets : List (List ℕ)) (read : ℕ)
    → All IsOther before
    → find_pat_loop (before ++ packets) 0 read none
      ≡ find_pat_loop packets 0 (read + length before) none
skip_others [] packets read h = ap (λ r. find_pat_loop packets 0 r none) (omega arith)
skip_others (packet ∷ before) packets read ((parts, split, other), h) =
    skip_one packet (before ++ packets) read parts split other
    ∙ skip_others before packets (read + 1) h
    ∙ ap (λ r. find_pat_loop packets 0 r none) (omega arith)

split_lem :
    (count : ℕ) (section : List ℕ)
    → count < 16
    → split_ts_packet (pat_packet count section)
      ≡ ok (record {
        pid = 0;
        payload_unit_start_indicator = 1;
        adapt = none;
        adapt_len = 0;
        payload = some (167 ∷ (replicate 167 0xff ++ section));
        payload_len = pos 184;
      })
unfolding pat_packet
split_lem count section h =
    split-bare true 0 count (omega arith) h (167 ∷ (replicate 167 0xff ++ section))

found :
    (count tsid number pid read : ℕ) (more : List (List ℕ))
    → count < 16
    → 0 < number
    → number < 2 ^ 16
    → pid < 0x2000
    → find_pat_loop (pat_packet count (pat_section tsid number pid) ∷ more) 0 read none
      ≡ ok (some (one_program number pid), read + 1)
unfolding find_pat_loop restarted build_from
found count tsid number pid read more hc h0 hn hp =
    rw
      (
        split_lem count (pat_section tsid number pid) hc,
        build_lem tsid number pid,
        extract_lem tsid number pid h0 hn hp,
      )
      refl

-- One packet is sent, and a search for the PAT finds the program in it.
abbrev pub Announces :
    List ℕ
    → Output (List Sent)
    → ℕ
    → ℕ
    → ℕ
    → List (List ℕ)
    → List (List ℕ)
    → Output (List Sent)
    → Sent
    → Type 0
Announces stack output tsid number pid before more final sent =
    (write_single_program_pat logging stack output tsid number pid ≡ ok final)
    × (final.writer ≡ output.writer ++ sent ∷ [])
    × (length sent.packet ≡ 188)
    × (find_pat (before ++ sent.packet ∷ more) 0
        ≡ ok (some (one_program number pid), length before + 1))

write_pat_lem :
    (stack : List ℕ) (output : Output (List Sent)) (tsid number pid : ℕ)
    → 16 ≤ length stack
    → tsid < 2 ^ 16
    → number < 2 ^ 16
    → pid < 0x2000
    → write_single_program_pat logging stack output tsid number pid
      ≡ send_section logging output 0 0 13 (pat_section tsid number pid)
unfolding write_single_program_pat write_pat pat_section
write_pat_lem stack output tsid number pid hs ht hn hp =
    let crc = crc32_block 0xffffffff (pat_block tsid number pid) in
    rw
      (
        appended number pid,
        written_lem tsid number pid ht hn hp,
        length-pat_block tsid number pid,
        place_crc_lem tsid number pid crc stack hs
            (crc32_block-lt 0xffffffff (pat_block tsid number pid) (omega arith)),
      )
      refl

-- For a program number other than 0 and numbers that fit their fields, write_single_program_pat
-- sends one packet of 188 bytes whatever its local array held, and find_pat, after packets of
-- other PIDs, finds in it the list of that one program and counts the packets read.
pub write_single_program_pat-find_pat :
    (stack : List ℕ) (output : Output (List Sent)) (tsid number pid : ℕ)
    (before more : List (List ℕ))
    → 16 ≤ length stack
    → tsid < 2 ^ 16
    → 0 < number
    → number < 2 ^ 16
    → pid < 0x2000
    → All IsOther before
    → (final : Output (List Sent)) × (sent : Sent) × Announces stack output tsid number pid before
        more final sent
unfolding find_pat
write_single_program_pat-find_pat stack output tsid number pid before more hs ht h0 hn hp others =
    let section = pat_section tsid number pid in
    let count = (output.continuity_counter 0 + 1) % 16 in
    let full = length-pat_section tsid number pid in
    (
      _,
      packet_of output 0 false 0 (pat_packet count section),
      (
        write_pat_lem stack output tsid number pid hs ht hn hp
            ∙ send_section_lem output section full (pat_section-cancels tsid number pid),
        refl,
        unfold pat_packet header_bytes in omega arith,
        skip_others before (pat_packet count section ∷ more) 0 others
            ∙ found count tsid number pid (0 + length before) more (omega arith) h0 hn hp
            ∙ ap (λ r. ok (some (one_program number pid), r)) (omega arith),
      ),
    )
