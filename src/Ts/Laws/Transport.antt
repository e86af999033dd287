-- ===== src/Ts/Laws/Transport.antt =====
-- Sending a whole PES packet: write_some_TS_PES_packet of include/ts.h and a receiver of its packets.
use mts_utils.Base.{ℕ, zero, suc, ◌+◌, ◌-◌, ◌%◌, ◌≤◌, ◌<◌}
use mts_utils.Base.{◌≡◌, refl, sym, ap, ◌∙◌, arith, inl, inr, ◌&&◌}
use mts_utils.Base.{
  List, [], ◌∷◌, ◌++◌, length, take, take-length, drop, length-append, length-take, length-drop,
}
use mts_utils.Base.{Bool, false, take-append-drop, ==-eq-true}
use mts_utils.Base.{ltb-eq-false, ltb-eq-true, ==-eq-false}
use mts_utils.Base.Outcome.{ok}
use mathlib.Core.List.{append_assoc, append-nil}
use mts_utils.Ts.Write.{Sent, Output, next_continuity_count, ts_header}
use mts_utils.Ts.Write.{write_some_ts_pes_packet, pcr_of}
use mts_utils.Ts.Laws.Lengths.{NoWrap, pes_data_len_lem, word_minus_lem}
use mts_utils.Ts.Laws.Timing.{DeliversTimed, HasField, IsTimed-NonePcr, ts_header-HasField}
use mts_utils.Ts.Laws.Headers.{receive, indicator}
use mts_utils.Ts.Laws.Fits.{Fits, ts_header-Fits}
use mts_utils.Ts.Laws.Receiver.{
  logging, reassemble, packet_of, write_parts-logs, next_count, counted,
}

joined_one :
    (start pid count : ℕ) (sent : Sent) (bytes : List ℕ)
    → receive start pid ((count + 1) % 16) sent.packet ≡ ok bytes
    → reassemble start pid count (sent ∷ []) ≡ ok bytes
unfolding reassemble
joined_one start pid count sent bytes h = rw h (ap ok (append-nil bytes))

joined_more :
    (start pid count : ℕ) (sent : Sent) (more : List Sent) (bytes rest : List ℕ)
    → receive start pid ((count + 1) % 16) sent.packet ≡ ok bytes
    → reassemble 0 pid ((count + 1) % 16) more ≡ ok rest
    → reassemble start pid count (sent ∷ more) ≡ ok (bytes ++ rest)
unfolding reassemble
joined_more start pid count sent more bytes rest h k = rw (h, k) refl

module _ (output : Output (List Sent)) (pes_hdr data1 : List ℕ) (start set_pusi : Bool) (pid : ℕ)
    (got_pcr : Bool) (base extn : ℕ) (short : length pes_hdr < 176) (low : 0x0010 ≤ pid)
    (high : pid ≤ 0x1ffe) (room : NoWrap pes_hdr data1) where
  abbrev n : ℕ
  n = length data1 + length pes_hdr

  abbrev made : List ℕ × ℕ
  made =
      ts_header (start && set_pusi) (start && got_pcr) pid
        (next_continuity_count output.continuity_counter pid).0 base extn n

  abbrev counted_output : Output (List Sent)
  counted_output = record output {
    continuity_counter = (next_continuity_count output.continuity_counter pid).1;
  }

  abbrev chunk : List ℕ
  chunk = take (made.1 - length pes_hdr) data1

  abbrev the_packet : List ℕ → Sent
  the_packet sent_data =
      packet_of output pid got_pcr (pcr_of base extn) (made.0 ++ (pes_hdr ++ sent_data))

  abbrev written : List ℕ → Output (List Sent)
  written sent_data = record counted_output { writer = output.writer ++ the_packet sent_data ∷ [] }

  -- The first packet is the last.
  write_some-last :
      (fuel : ℕ)
      → length made.0 + made.1 ≡ 188
      → made.1 ≡ n
      → write_some_ts_pes_packet logging
          (suc fuel)
          output
          pes_hdr
          data1
          start
          set_pusi
          pid
          got_pcr
          base
          extn
        ≡ ok (written data1)
  unfolding write_some_ts_pes_packet
  write_some-last fuel size exact =
      rw
        (
          ltb-eq-false pid 0x0010 low,
          ltb-eq-false 0x1ffe pid high,
          pes_data_len_lem pes_hdr data1 room,
          ==-eq-true n made.1 (sym exact),
          write_parts-logs counted_output pid got_pcr (pcr_of base extn) made.0 pes_hdr data1
              (length data1) (omega arith) (omega arith),
          take-length data1,
        )
        refl

  -- Or there is more to send.
  write_some-more :
      (fuel : ℕ)
      → length made.0 + made.1 ≡ 188
      → 176 ≤ made.1
      → made.1 < n
      → write_some_ts_pes_packet logging
          (suc fuel)
          output
          pes_hdr
          data1
          start
          set_pusi
          pid
          got_pcr
          base
          extn
        ≡ write_some_ts_pes_packet logging fuel
            (written chunk)
            []
            (drop (made.1 - length pes_hdr) data1)
            false
            false
            pid
            false
            0
            0
  unfolding write_some_ts_pes_packet
  write_some-more fuel size large less =
      rw
        (
          ltb-eq-false pid 0x0010 low,
          ltb-eq-false 0x1ffe pid high,
          pes_data_len_lem pes_hdr data1 room,
          ==-eq-false n made.1 (omega arith),
          word_minus_lem made.1 (length pes_hdr) (omega arith) (omega arith),
          write_parts-logs counted_output pid got_pcr (pcr_of base extn) made.0 pes_hdr data1
              (made.1 - length pes_hdr) (omega arith) (omega arith),
          ltb-eq-true 0 (length data1 - (made.1 - length pes_hdr)) (omega arith),
        )
        refl

  abbrev FitsFirst : Type 0
  FitsFirst =
      Fits (start && set_pusi) pid (next_continuity_count output.continuity_counter pid).0 n made.0
        made.1

  abbrev Timed : ℕ → Type 0
  Timed fuel =
      DeliversTimed (start && got_pcr) got_pcr base extn (start && set_pusi) pid output
        (pes_hdr ++ data1)
        (write_some_ts_pes_packet logging fuel output pes_hdr data1 start set_pusi pid got_pcr base
          extn)

  has_field :
      (sent_data : List ℕ) → HasField (start && got_pcr) base extn (the_packet sent_data).packet
  has_field sent_data =
      ts_header-HasField (start && set_pusi) (start && got_pcr) pid
        (next_continuity_count output.continuity_counter pid).0 base extn n (pes_hdr ++ sent_data)

  last-DeliversTimed : (fuel : ℕ) → FitsFirst → made.1 ≡ n → Timed (suc fuel)
  last-DeliversTimed fuel fits exact = record {
    delivers = record {
      final = written data1;
      sent = the_packet data1 ∷ [];
      succeeds = write_some-last fuel fits.size exact;
      logged = refl;
      joined =
          joined_one (indicator (start && set_pusi)) pid (output.continuity_counter pid)
            (the_packet data1) (pes_hdr ++ data1)
            (rw (sym (next_count output pid))
              (fits.reads (pes_hdr ++ data1) (omega (arith, length-append pes_hdr data1))));
    };
    timing = (refl, refl, has_field data1, tt);
  }

  more-DeliversTimed :
      (fuel : ℕ)
      → FitsFirst
      → 176 ≤ made.1
      → made.1 < n
      → DeliversTimed false false 0 0 false pid
          (written chunk)
          (drop (made.1 - length pes_hdr) data1)
          (write_some_ts_pes_packet logging fuel
            (written chunk)
            []
            (drop (made.1 - length pes_hdr) data1)
            false
            false
            pid
            false
            0
            0)
      → Timed (suc fuel)
  more-DeliversTimed fuel fits large less rest = record {
    delivers = record {
      final = rest.delivers.final;
      sent = the_packet chunk ∷ rest.delivers.sent;
      succeeds = write_some-more fuel fits.size large less ∙ rest.delivers.succeeds;
      logged =
          rest.delivers.logged
          ∙ append_assoc output.writer (the_packet chunk ∷ []) rest.delivers.sent;
      joined =
          (joined_more (indicator (start && set_pusi)) pid (output.continuity_counter pid)
            (the_packet chunk) rest.delivers.sent (pes_hdr ++ chunk)
            (drop (made.1 - length pes_hdr) data1)
            (rw (sym (next_count output pid)) (
              fits.reads (pes_hdr ++ chunk) (
                omega (
                  arith,
                  length-append pes_hdr chunk,
                  length-take (made.1 - length pes_hdr) data1 (omega arith),
                ))))
            (rw (sym (counted output.continuity_counter pid)) rest.delivers.joined))
          ∙ ap ok (
              append_assoc pes_hdr chunk (drop (made.1 - length pes_hdr) data1)
              ∙ ap (λ t. pes_hdr ++ t) (take-append-drop (made.1 - length pes_hdr) data1));
    };
    timing =
        (refl, refl, has_field chunk, IsTimed-NonePcr false 0 0 rest.delivers.sent rest.timing);
  }

-- For a legal PID, a header of fewer than 176 bytes, lengths that do not wrap round and fuel beyond the
-- length of the data, what is sent is delivered and timed.
pub write_some-DeliversTimed :
    (fuel : ℕ) (output : Output (List Sent)) (pes_hdr data1 : List ℕ) (start set_pusi : Bool)
    (pid : ℕ) (got_pcr : Bool) (base extn : ℕ)
    → length data1 < fuel
    → length pes_hdr < 176
    → NoWrap pes_hdr data1
    → 0x0010 ≤ pid
    → pid ≤ 0x1ffe
    → DeliversTimed
        (start && got_pcr)
        got_pcr
        base
        extn
        (start && set_pusi)
        pid
        output
        (pes_hdr ++ data1)
        (write_some_ts_pes_packet logging fuel output pes_hdr data1 start set_pusi pid got_pcr base
          extn)
write_some-DeliversTimed zero output pes_hdr data1 start set_pusi pid got_pcr base extn hf hl room
      lo hi =
    absurd (omega arith)
write_some-DeliversTimed (suc fuel) output pes_hdr data1 start set_pusi pid got_pcr base extn hf hl
      room lo hi =
    let low : (next_continuity_count output.continuity_counter pid).0 < 16 =
      omega (arith, next_count output pid) in
    let fits =
      ts_header-Fits (start && set_pusi) pid (next_continuity_count output.continuity_counter pid).0
        (omega arith) low (start && got_pcr) base extn (length data1 + length pes_hdr) in
    elim fits.room [
      | inl exact ↦
          last-DeliversTimed output pes_hdr data1 start set_pusi pid got_pcr base extn hl lo hi room
            fuel fits exact
      | inr (large, less) ↦
          let step =
            (ts_header (start && set_pusi) (start && got_pcr) pid
              (next_continuity_count output.continuity_counter pid).0 base extn
              (length data1 + length pes_hdr)).1
            - length pes_hdr in
          more-DeliversTimed output pes_hdr data1 start set_pusi pid got_pcr base extn hl lo hi room
            fuel fits large less
            (write_some-DeliversTimed fuel
              (written output pes_hdr data1 start set_pusi pid got_pcr base extn hl lo hi room
                (take step data1))
              [] (drop step data1) false false pid false 0 0 (omega (arith, length-drop step data1))
              (omega arith) (inl refl) lo hi)
    ]
