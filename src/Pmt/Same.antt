-- ===== src/Pmt/Same.antt =====
-- Comparing two program map tables.
use mts_utils.Base.{ℕ, zero, suc, ◌+◌, ◌≤◌, ◌≡◌, ◌==◌, refl, sym, ap, ◌∙◌, arith, ◌↔◌}
use mts_utils.Base.{
  List, [], ◌∷◌, length, take, drop, get_elem?, true, false, if◌then◌else◌, not, All,
}
use mts_utils.Base.{
  none, some, Option-cases, Bool-cases, inl, inr, ==_iff, early, early_unless, drop-eq-elem,
}
use mathlib.Core.Option.{some-injective}
use mts_utils.Pmt.{PmtStream, Pmt, pid_index_in_pmt, pid_stream_in_pmt, same_bytes, same_pmt_stream}
use mts_utils.Pmt.{stream_matches, same_streams, same_pmt, bytes_of}
use mts_utils.Pmt.Laws.{IsStream, IsValid, streams_of}
use mts_utils.Pmt.Lookup.{first_stream, pid_stream_in_pmt_lem}

same_bytes_lem :
    (xs ys : List ℕ) → length xs ≡ length ys → (same_bytes (length xs) xs ys ≡ true) ↔ (xs ≡ ys)
unfolding same_bytes
same_bytes_lem [] [] h = (λ _. refl, λ _. refl)
same_bytes_lem [] (y ∷ ys) h = absurd (omega arith)
same_bytes_lem (x ∷ xs) [] h = absurd (omega arith)
same_bytes_lem (x ∷ xs) (y ∷ ys) h =
    let (there, back) = same_bytes_lem xs ys (omega arith) in
    elim (Bool-cases (x == y)) [
      | inl same ↦ rw same (
        λ e. let head : x ≡ y = (==_iff x y).0 same in let tail : xs ≡ ys = there e in cc,
        λ e. back (ap (drop 1) e),
      )
      | inr other ↦
          rw other (λ e. cc, λ e. absurd (let head : x ≡ y = cc in cc (other, (==_iff x y).1 head)))
    ]

same_bytes_counted :
    (n : ℕ) (xs ys : List ℕ)
    → length xs ≡ n
    → length ys ≡ n
    → (same_bytes n xs ys ≡ true) ↔ (xs ≡ ys)
same_bytes_counted n xs ys hx hy = rw (sym hx) (same_bytes_lem xs ys (hx ∙ sym hy))

-- What the comparison looks at in a stream: the PID and the bytes of information.
abbrev pub Alike : PmtStream → PmtStream → Type 0
Alike s t = (s.elementary_pid ≡ t.elementary_pid) × (bytes_of s.es_info ≡ bytes_of t.es_info)

-- What it looks for in the other table.
abbrev pub HasAlike : Pmt → PmtStream → Type 0
HasAlike pmt2 s =
    (t : PmtStream) × (pid_stream_in_pmt (some pmt2) s.elementary_pid ≡ some t) × Alike s t

-- Two well-formed streams are reported the same exactly when their PIDs and their information agree;
-- their stream types are not compared.
pub same_pmt_stream_lem :
    (s t : PmtStream) → IsStream s → IsStream t → (same_pmt_stream s t ≡ true) ↔ Alike s t
unfolding same_pmt_stream
same_pmt_stream_lem s t hs ht =
    let info = same_bytes s.es_info_length (bytes_of s.es_info) (bytes_of t.es_info) in
    let last = early_unless info true in
    let second = early s.es_info_length t.es_info_length (if not info then false else true) in
    let first = early s.elementary_pid t.elementary_pid (
      if not (s.es_info_length == t.es_info_length)
      then false
      else if not info
      then false
      else true) in
    (
      λ e.
          let (pids, e1) = first.0 e in
          let (lens, e2) = second.0 e1 in
          let (same, done) = last.0 e2 in
          (
            pids,
            (same_bytes_counted s.es_info_length (bytes_of s.es_info) (bytes_of t.es_info)
                  hs.counted (ht.counted ∙ sym lens)).0
                same,
          ),
      λ c.
          let lens : s.es_info_length ≡ t.es_info_length =
            sym hs.counted ∙ ap length c.1 ∙ ht.counted in
          first.1 (
            c.0,
            second.1 (
              lens,
              last.1 (
                (same_bytes_counted s.es_info_length (bytes_of s.es_info) (bytes_of t.es_info)
                      hs.counted (ht.counted ∙ sym lens)).1
                    c.1,
                refl,
              ),
            ),
          ),
    )

first_stream-IsStream :
    (pid : ℕ) (ss : List PmtStream) (t : PmtStream)
    → All IsStream ss
    → first_stream pid ss ≡ some t
    → IsStream t
first_stream-IsStream pid [] t h e = cc
first_stream-IsStream pid (s ∷ ss) t h e = elim (Bool-cases (s.elementary_pid == pid)) [
  | inl hit ↦ let same : s ≡ t = some-injective s t (rw hit at e) in rw (← same) h.0
  | inr miss ↦ first_stream-IsStream pid ss t h.1 (rw miss at e)
]

matches_found :
    (pmt2 : Pmt) (s : PmtStream)
    → stream_matches pmt2 s ≡ elim (pid_stream_in_pmt (some pmt2) s.elementary_pid) [
      | none ↦ false
      | some t ↦ if not (same_pmt_stream s t) then false else true
    ]
unfolding stream_matches pid_stream_in_pmt pid_index_in_pmt
matches_found pmt2 s = ground arith

stream_matches-HasAlike :
    (pmt2 : Pmt) (s : PmtStream)
    → IsValid pmt2
    → IsStream s
    → (stream_matches pmt2 s ≡ true) ↔ HasAlike pmt2 s
stream_matches-HasAlike pmt2 s v hs =
    rw (matches_found pmt2 s)
      (elim (Option-cases (pid_stream_in_pmt (some pmt2) s.elementary_pid)) [
        | inl absent ↦ rw absent (λ e. cc, λ (t, e, alike). cc)
        | inr (t, found) ↦
            let ht =
              first_stream-IsStream s.elementary_pid (streams_of pmt2) t v.good
                (sym (pid_stream_in_pmt_lem pmt2 s.elementary_pid v) ∙ found) in
            let (there, back) = same_pmt_stream_lem s t hs ht in
            let final = early_unless (same_pmt_stream s t) true in
            rw found (
              λ e. (t, refl, there (final.0 e).0),
              λ (u, e, alike).
                  let same : t ≡ u = some-injective t u e in final.1 (back (rw same alike), refl),
            )
      ])

module _ (pmt1 pmt2 : Pmt) (v1 : IsValid pmt1) (v2 : IsValid pmt2) where
  one_round :
      (left ii : ℕ) (s : PmtStream)
      → get_elem? pmt1.streams ii ≡ some s
      → same_streams (suc left) ii pmt1 pmt2
        ≡ (if not (stream_matches pmt2 s) then false else same_streams left (suc ii) pmt1 pmt2)
  unfolding same_streams
  one_round left ii s here = rw (here, same_streams)

  same_streams-All :
      (left ii : ℕ)
      → ii + left ≤ pmt1.streams_size
      → All IsStream (take left (drop ii pmt1.streams))
      → (same_streams left ii pmt1 pmt2 ≡ true)
        ↔ All (HasAlike pmt2) (take left (drop ii pmt1.streams))
  same_streams-All zero ii h good = (λ _. tt, λ _. unfold same_streams in refl)
  same_streams-All (suc left) ii h good =
      let (s, here, split) = drop-eq-elem pmt1.streams ii (omega (arith, v1.cells)) in
      let good' = rw split at good in
      let rest = same_streams-All left (suc ii) (omega arith) good'.1 in
      let one = stream_matches-HasAlike pmt2 s v2 good'.0 in
      let round = early_unless (stream_matches pmt2 s) (same_streams left (suc ii) pmt1 pmt2) in
      rw (split, one_round left ii s here)
        (λ e. let (a, b) = round.0 e in (one.0 a, rest.0 b), λ c. round.1 (one.1 c.0, rest.1 c.1))

  -- Two valid tables behind different pointers are reported the same exactly when they agree in
  -- the PID for the PCR, the version, the program information and the number of streams, and
  -- the first stream that the second has for the PID of a stream of the first carries the same
  -- information.
  pub same_pmt_lem : (same_pmt false (some pmt1) (some pmt2) ≡ true) ↔ (
      (pmt1.pcr_pid ≡ pmt2.pcr_pid)
      × (pmt1.version_number ≡ pmt2.version_number)
      × (bytes_of pmt1.program_info ≡ bytes_of pmt2.program_info)
      × (pmt1.num_streams ≡ pmt2.num_streams)
      × All (HasAlike pmt2) (streams_of pmt1))
  same_pmt_lem =
      let info =
        same_bytes pmt1.program_info_length (bytes_of pmt1.program_info)
          (bytes_of pmt2.program_info) in
      let loop = same_streams pmt1.num_streams 0 pmt1 pmt2 in
      let streams = same_streams-All pmt1.num_streams 0 (omega (arith, v1.fits)) v1.good in
      let e5 = early_unless info loop in
      let r5 = if not info then false else loop in
      let e4 = early pmt1.num_streams pmt2.num_streams r5 in
      let r4 = if not (pmt1.num_streams == pmt2.num_streams) then false else r5 in
      let e3 = early pmt1.program_info_length pmt2.program_info_length r4 in
      let r3 = if not (pmt1.program_info_length == pmt2.program_info_length) then false else r4 in
      let e2 = early pmt1.version_number pmt2.version_number r3 in
      let r2 = if not (pmt1.version_number == pmt2.version_number) then false else r3 in
      let e1 = early pmt1.pcr_pid pmt2.pcr_pid r2 in
      (
        λ e.
            let (pcr, h1) = e1.0 (unfold same_pmt in e) in
            let (version, h2) = e2.0 h1 in
            let (lens, h3) = e3.0 h2 in
            let (nums, h4) = e4.0 h3 in
            let (same, h5) = e5.0 h4 in
            (
              pcr,
              version,
              (same_bytes_counted pmt1.program_info_length (bytes_of pmt1.program_info)
                    (bytes_of pmt2.program_info) v1.counted (v2.counted ∙ sym lens)).0
                  same,
              nums,
              streams.0 h5,
            ),
        λ (pcr, version, infos, nums, alike).
            let lens : pmt1.program_info_length ≡ pmt2.program_info_length =
              sym v1.counted ∙ ap length infos ∙ v2.counted in
            let same =
              (same_bytes_counted pmt1.program_info_length (bytes_of pmt1.program_info)
                  (bytes_of pmt2.program_info) v1.counted (v2.counted ∙ sym lens)).1
                infos in
            unfold same_pmt in
            e1.1 (pcr, e2.1 (version, e3.1 (lens, e4.1 (nums, e5.1 (same, streams.1 alike))))),
      )
