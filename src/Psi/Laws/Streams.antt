-- ===== src/Psi/Laws/Streams.antt =====
-- The streams of a PMT: the loop of write_pmt and the loop of extract_pmt, both of include/ts.h.
use mts_utils.Base.{
  ℕ, zero, suc, ◌+◌, ◌-◌, ◌*◌, ◌/◌, ◌%◌, ◌≤◌, ◌<◌, ◌≡◌, refl, sym, ap, ◌∙◌, arith, ltb,
  if◌then◌else◌,
}
use mts_utils.Base.{List, [], ◌∷◌, ◌++◌, length, drop, bit_or, bit_and, map, All, none, some}
use mts_utils.Base.{drop-append, length-append, ltb-eq-false, ltb-eq-true, Bool-cases, inl, inr}
use mts_utils.Base.Outcome.{ok, at, ◌>>=◌}
use mts_utils.Bits.{◌<<<◌}
use mathlib.Core.List.{append_assoc, append-nil}
use mts_utils.Bits.{mask_0x1F, mask_0x0F, join_bytes}
use mts_utils.Pmt.{PmtStream, Pmt, copy_bytes, bytes_of, add_stream_to_pmt, kept_info}
use mts_utils.Pmt.{extend_streams, store_stream}
use mts_utils.Pmt.Laws.{IsStream, IsValid, streams_of}
use mts_utils.Pmt.Laws.Add.{extend_streams-room, store_stream-IsValid}
use mts_utils.Psi.Write.{pmt_entries}
use mts_utils.Psi.Read.{stream_loop}
use mts_utils.Psi.Laws.Entries.{
  copy_bytes-counted, entry_bytes, all_bytes, legal-lt, pmt_entries_lem,
}

-- A stream as it is kept: without information, there is no array for it.
abbrev pub kept_stream : PmtStream → PmtStream
kept_stream s = record s {
  es_info = if ltb 0 s.es_info_length then some (bytes_of s.es_info) else none;
}

kept_count :
    (s : PmtStream)
    → length (bytes_of s.es_info) ≡ s.es_info_length
    → length (bytes_of (kept_stream s).es_info) ≡ s.es_info_length
kept_count s h = elim (Bool-cases (ltb 0 s.es_info_length)) [
  | inl some_info ↦ rw some_info h
  | inr no_info ↦ rw no_info (ground arith)
]

kept_stream-IsStream : (s : PmtStream) → IsStream s → IsStream (kept_stream s)
kept_stream-IsStream s good = record {
  legal = good.legal;
  counted = kept_count s good.counted;
  short = good.short;
}

add_stream_lem :
    (pmt : Pmt) (s : PmtStream) (rest : List ℕ)
    → IsStream s
    → add_stream_to_pmt
        (some pmt)
        s.elementary_pid
        s.stream_type
        s.es_info_length
        (bytes_of s.es_info ++ rest)
      ≡ ok (store_stream (extend_streams pmt) (kept_stream s))
unfolding add_stream_to_pmt kept_info
add_stream_lem pmt s rest good =
    let fits = ltb-eq-false 0x3FF s.es_info_length good.short in
    let copied : copy_bytes s.es_info_length (bytes_of s.es_info ++ rest)
        ≡ ok (bytes_of s.es_info) =
      copy_bytes-counted s.es_info_length (bytes_of s.es_info) rest good.counted in
    rw (good.legal, fits)
      (elim (Bool-cases (ltb 0 s.es_info_length)) [
        | inl some_info ↦ rw (some_info, copied) refl
        | inr no_info ↦ rw no_info refl
      ])

pid_lem :
    (pid : ℕ) → pid < 0x2000 → bit_or (bit_and (0xE0 + pid / 256) 0x1F * 256) (pid % 256) ≡ pid
pid_lem pid h = ground (arith, mask_0x1F (0xE0 + pid / 256), join_bytes (pid / 256) (pid % 256))

len_lem : (len : ℕ) → len ≤ 0x3FF → bit_or (bit_and (0xF0 + len / 256) 0x0F * 256) (len % 256) ≡ len
len_lem len h = ground (arith, mask_0x0F (0xF0 + len / 256), join_bytes (len / 256) (len % 256))

abbrev with_stream : Pmt → PmtStream → Pmt
with_stream pmt s = store_stream (extend_streams pmt) (kept_stream s)

past_entry :
    (s : PmtStream) (more : List ℕ)
    → length (bytes_of s.es_info) ≡ s.es_info_length
    → drop (5 + s.es_info_length) (entry_bytes s ++ more) ≡ more
unfolding entry_bytes
past_entry s more h =
    let unary : 5 + s.es_info_length ≡ suc (suc (suc (suc (suc (length (bytes_of s.es_info)))))) =
      omega arith in
    rw unary (drop-append (bytes_of s.es_info) more)

round_body :
    (fuel : ℕ) (s : PmtStream) (more : List ℕ) (left : ℕ) (pmt : Pmt)
    → IsStream s
    → (do
      stream_type ← at (entry_bytes s ++ more) 0
      data_1 ← at (entry_bytes s ++ more) 1
      data_2 ← at (entry_bytes s ++ more) 2
      data_3 ← at (entry_bytes s ++ more) 3
      data_4 ← at (entry_bytes s ++ more) 4
      let pid = bit_or (bit_and data_1 0x1F <<< 8) data_2
      let es_info_length = bit_or (bit_and data_3 0x0F <<< 8) data_4
      pmt' ←
          add_stream_to_pmt
            (some pmt)
            pid
            stream_type
            es_info_length
            (drop 5 (entry_bytes s ++ more))
      stream_loop fuel
          (drop (5 + es_info_length) (entry_bytes s ++ more))
          (5 + s.es_info_length + left - 5 - es_info_length)
          pmt')
      ≡ stream_loop fuel more left (with_stream pmt s)
unfolding entry_bytes
round_body fuel s more left pmt good =
    let past = past_entry s more good.counted in
    let size : 5 + s.es_info_length + left - 5 - s.es_info_length ≡ left = omega arith in
    rw
      (
        pid_lem s.elementary_pid (legal-lt s.elementary_pid good.legal),
        len_lem s.es_info_length good.short,
        add_stream_lem pmt s more good,
        past,
        size,
      )
      refl

stream_round :
    (fuel : ℕ) (s : PmtStream) (rest more : List ℕ) (pmt : Pmt)
    → IsStream s
    → stream_loop (suc fuel) (entry_bytes s ++ more) (length (entry_bytes s ++ rest)) pmt
      ≡ stream_loop fuel more (length rest) (with_stream pmt s)
unfolding stream_loop
stream_round fuel s rest more pmt good =
    let counted = length-append (entry_bytes s) rest in
    let size : length (entry_bytes s ++ rest) ≡ 5 + s.es_info_length + length rest =
      (unfold entry_bytes in
        omega (arith, length-append (bytes_of s.es_info) rest, good.counted)) in
    rw (size, ltb-eq-true 0 (5 + s.es_info_length + length rest) (omega arith))
      (round_body fuel s more (length rest) pmt good)

-- What the loop leaves: the table with the streams behind its own, and all else as it was.
pub record Grown (pmt : Pmt) (ss : List PmtStream) (pmt' : Pmt) : Type 0 where
  pub valid : IsValid pmt'
  pub streams : streams_of pmt' ≡ streams_of pmt ++ map kept_stream ss
  pub program : pmt'.program_number ≡ pmt.program_number
  pub pcr : pmt'.pcr_pid ≡ pmt.pcr_pid
  pub info : pmt'.program_info ≡ pmt.program_info

with_stream-Grown :
    (pmt : Pmt) (s : PmtStream) → IsValid pmt → IsStream s → Grown pmt (s ∷ []) (with_stream pmt s)
with_stream-Grown pmt s v good =
    let (valid, room, streams) = extend_streams-room pmt v in
    let (valid', streams') =
      store_stream-IsValid (extend_streams pmt) (kept_stream s) valid room
        (kept_stream-IsStream s good) in
    record {
      valid = valid';
      streams = streams' ∙ ap (λ t. t ++ kept_stream s ∷ []) streams;
      program = unfold store_stream extend_streams in ground arith;
      pcr = unfold store_stream extend_streams in ground arith;
      info = unfold store_stream extend_streams in ground arith;
    }

Grown-trans :
    (pmt pmt1 pmt2 : Pmt) (s : PmtStream) (ss : List PmtStream)
    → Grown pmt (s ∷ []) pmt1
    → Grown pmt1 ss pmt2
    → Grown pmt (s ∷ ss) pmt2
Grown-trans pmt pmt1 pmt2 s ss g h = record {
  valid = h.valid;
  streams =
      h.streams
      ∙ ap (λ t. t ++ map kept_stream ss) g.streams
      ∙ append_assoc (streams_of pmt) (kept_stream s ∷ []) (map kept_stream ss);
  program = h.program ∙ g.program;
  pcr = h.pcr ∙ g.pcr;
  info = h.info ∙ g.info;
}

at_end : (fuel : ℕ) (tail : List ℕ) (pmt : Pmt) → stream_loop fuel tail 0 pmt ≡ ok pmt
unfolding stream_loop
at_end zero tail pmt = refl
at_end (suc fuel) tail pmt = refl

too_short : (s : PmtStream) (ss : List PmtStream) → length (all_bytes (s ∷ ss)) ≤ 0 → ⊥
unfolding all_bytes entry_bytes
too_short s ss h = omega arith

shorter :
    (s : PmtStream) (ss : List PmtStream) (fuel : ℕ)
    → length (all_bytes (s ∷ ss)) ≤ suc fuel
    → length (all_bytes ss) ≤ fuel
unfolding all_bytes entry_bytes
shorter s ss fuel h = omega (arith, length-append (bytes_of s.es_info) (all_bytes ss))

loop_step :
    (fuel : ℕ) (s : PmtStream) (ss : List PmtStream) (tail : List ℕ) (pmt : Pmt)
    → IsStream s
    → stream_loop (suc fuel) (all_bytes (s ∷ ss) ++ tail) (length (all_bytes (s ∷ ss))) pmt
      ≡ stream_loop fuel (all_bytes ss ++ tail) (length (all_bytes ss)) (with_stream pmt s)
unfolding all_bytes
loop_step fuel s ss tail pmt good =
    ap (λ t. stream_loop (suc fuel) t (length (entry_bytes s ++ all_bytes ss)) pmt)
      (append_assoc (entry_bytes s) (all_bytes ss) tail)
    ∙ stream_round fuel s (all_bytes ss) (all_bytes ss ++ tail) pmt good

pub stream_loop_lem :
    (ss : List PmtStream) (fuel : ℕ) (tail : List ℕ) (pmt : Pmt)
    → IsValid pmt
    → All IsStream ss
    → length (all_bytes ss) ≤ fuel
    → (pmt' : Pmt) × (stream_loop fuel (all_bytes ss ++ tail) (length (all_bytes ss)) pmt ≡ ok pmt')
      × Grown pmt ss pmt'
stream_loop_lem [] fuel tail pmt v good h = (
  pmt,
  unfold all_bytes in at_end fuel tail pmt,
  record {
    valid = v;
    streams = sym (append-nil (streams_of pmt));
    program = refl;
    pcr = refl;
    info = refl;
  },
)
stream_loop_lem (s ∷ ss) zero tail pmt v good h = absurd (too_short s ss h)
stream_loop_lem (s ∷ ss) (suc fuel) tail pmt v good h =
    let grown = with_stream-Grown pmt s v good.0 in
    let (pmt', runs, more) =
      stream_loop_lem ss fuel tail (with_stream pmt s) grown.valid good.1 (shorter s ss fuel h) in
    (
      pmt',
      loop_step fuel s ss tail pmt good.0 ∙ runs,
      Grown-trans pmt (with_stream pmt s) pmt' s ss grown more,
    )

-- For streams that are well formed, the loop of write_pmt makes bytes from which the loop of
-- extract_pmt, whatever follows them, adds the same streams in the same order to a valid table,
-- which stays valid and keeps its program number, the PID for its PCR and its program
-- information; as many rounds as there are bytes are enough.
pub stream_loop-pmt_entries :
    (ss : List PmtStream) (tail : List ℕ) (pmt : Pmt)
    → IsValid pmt
    → All IsStream ss
    → (bytes : List ℕ) × (pmt' : Pmt) × (pmt_entries ss ≡ ok bytes)
      × (stream_loop (length bytes) (bytes ++ tail) (length bytes) pmt ≡ ok pmt')
      × Grown pmt ss pmt'
stream_loop-pmt_entries ss tail pmt v good =
    let (pmt', runs, grown) =
      stream_loop_lem ss (length (all_bytes ss)) tail pmt v good (omega arith) in
    (all_bytes ss, pmt', pmt_entries_lem ss good, runs, grown)
