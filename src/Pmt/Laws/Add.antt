-- ===== src/Pmt/Laws/Add.antt =====
-- Adding a stream to a table.
use mts_utils.Base.{ℕ, suc, ◌<◌, ◌≡◌, ◌==◌, refl, ap, ◌∙◌, arith, ◌⊎◌}
use mts_utils.Base.{List, [], ◌∷◌, ◌++◌, length, replicate, true, Bool-cases, inl, inr}
use mts_utils.Base.{
  Option, none, some, length-append, length-set, All-append, take-length, ltb-eq-false, ltb-eq-true,
  ltb,
}
use mts_utils.Base.Outcome.{ok, err}
use mts_utils.Arrays.Loops.{take-set_next, take-grown}
use mts_utils.Pmt.{PmtStream, Pmt, is_illegal_pid, copy_bytes, fresh_stream}
use mts_utils.Pmt.{extend_streams, store_stream, kept_info, add_stream_to_pmt}
use mts_utils.Pmt.{bytes_of}
use mts_utils.Pmt.Laws.{IsStream, IsValid, streams_of}

pub extend_streams-room :
    (pmt : Pmt)
    → IsValid pmt
    → let pmt' = extend_streams pmt in
      IsValid pmt' × (pmt'.num_streams < pmt'.streams_size) × (streams_of pmt' ≡ streams_of pmt)
unfolding extend_streams
extend_streams-room pmt v = elim (Bool-cases (pmt.num_streams == pmt.streams_size)) [
  | inl full ↦
      let grown =
        take-grown pmt.num_streams pmt.streams (replicate 10 fresh_stream)
          (omega (arith, v.cells, v.fits)) in
      rw full (
        record {
          cells = omega (arith, length-append pmt.streams (replicate 10 fresh_stream), v.cells);
          fits = omega (arith, v.fits);
          good = rw grown v.good;
          counted = v.counted;
          short = v.short;
          version = v.version;
          pcr = v.pcr;
        },
        omega (arith, v.fits),
        grown,
      )
  | inr room ↦ rw room (v, ground arith, refl)
]

pub store_stream-IsValid :
    (pmt : Pmt) (stream : PmtStream)
    → IsValid pmt
    → pmt.num_streams < pmt.streams_size
    → IsStream stream
    → IsValid (store_stream pmt stream)
      × (streams_of (store_stream pmt stream) ≡ streams_of pmt ++ stream ∷ [])
unfolding store_stream
store_stream-IsValid pmt stream v room good =
    let e = take-set_next pmt.num_streams pmt.streams stream (omega (arith, v.cells)) in
    (
      record {
        cells = length-set pmt.streams pmt.num_streams stream ∙ v.cells;
        fits = omega arith;
        good = rw e (All-append IsStream (streams_of pmt) (stream ∷ []) v.good (good, tt));
        counted = v.counted;
        short = v.short;
        version = v.version;
        pcr = v.pcr;
      },
      e,
    )

kept_info_lem :
    (info : List ℕ)
    → (kept : Option (List ℕ)) × (kept_info (length info) info ≡ ok kept) × (bytes_of kept ≡ info)
unfolding kept_info copy_bytes
kept_info_lem [] = (none, refl, refl)
kept_info_lem (x ∷ xs) = (
  some (x ∷ xs),
  rw
      (
        ltb-eq-false (suc (length xs)) (suc (length xs)) (omega arith),
        take-length xs,
        ltb-eq-true 0 (suc (length xs)) (omega arith),
      )
      refl,
  refl,
)

abbrev pub Added : Pmt → ℕ → ℕ → List ℕ → Pmt → PmtStream → Type 0
Added pmt pid stream_type info pmt' stream =
    (add_stream_to_pmt (some pmt) pid stream_type (length info) info ≡ ok pmt')
    × IsValid pmt'
    × (streams_of pmt' ≡ streams_of pmt ++ stream ∷ [])
    × (stream.elementary_pid ≡ pid)
    × (stream.stream_type ≡ stream_type)
    × (bytes_of stream.es_info ≡ info)

abbrev pub RefusesStream : Pmt → ℕ → ℕ → List ℕ → Type 0
RefusesStream pmt pid stream_type info =
    ((is_illegal_pid pid ≡ true) ⊎ (0x3FF < length info))
    × (add_stream_to_pmt (some pmt) pid stream_type (length info) info ≡ err)

-- Adding a stream to a valid table fails for an illegal PID and for information that is too long;
-- otherwise the table stays valid and the stream, with its bytes, comes behind those that were
-- there.
pub add_stream_to_pmt_lem :
    (pmt : Pmt) (pid stream_type : ℕ) (info : List ℕ)
    → IsValid pmt
    → RefusesStream pmt pid stream_type info
      ⊎ ((pmt' : Pmt) × (stream : PmtStream) × Added pmt pid stream_type info pmt' stream)
unfolding add_stream_to_pmt
add_stream_to_pmt_lem pmt pid stream_type info v = elim (Bool-cases (is_illegal_pid pid)) [
  | inl illegal ↦ rw illegal (inl (inl refl, refl))
  | inr legal ↦ elim (Bool-cases (ltb 0x3FF (length info))) [
    | inl long ↦ rw (legal, long) (inl (inr (ground arith), refl))
    | inr short ↦
        let (kept, copied, same) = kept_info_lem info in
        let stream : PmtStream = record {
          stream_type = stream_type;
          elementary_pid = pid;
          es_info_length = length info;
          es_info = kept;
        } in
        let (valid, room, streams) = extend_streams-room pmt v in
        let good : IsStream stream = record {
          legal = legal;
          counted = ap length same;
          short = ground arith;
        } in
        let (valid', streams') = store_stream-IsValid (extend_streams pmt) stream valid room good in
        rw (legal, short, copied)
          (inr (
            store_stream (extend_streams pmt) stream,
            stream,
            (refl, valid', streams' ∙ ap (λ t. t ++ stream ∷ []) streams, refl, refl, same),
          ))
  ]
]
