-- ===== src/Pmt/Lookup.antt =====
-- Looking up the stream with a PID.
use mts_utils.Base.{ℕ, ◌≡◌, ◌==◌, refl, sym, ap, ◌∙◌, arith}
use mts_utils.Base.{List, [], ◌∷◌, get_elem?, if◌then◌else◌}
use mts_utils.Base.{
  Option, none, some, Option-cases, Bool-cases, inl, inr, get_elem?-take, length-take,
}
use mts_utils.Arrays.Loops.{find_index, find_index-lt, up_one}
use mts_utils.Pmt.{PmtStream, Pmt, pid_index_in_pmt, pid_stream_in_pmt}
use mts_utils.Pmt.Laws.{IsValid, streams_of, pid_index_in_pmt_lem}

-- The first stream with a PID.
abbrev pub first_stream : ℕ → List PmtStream → Option PmtStream
first_stream pid [] = none
first_stream pid (s ∷ ss) = if s.elementary_pid == pid then some s else first_stream pid ss

module _ {ℓ} {A : Type ℓ} where
  at_index : List A → Option ℕ → Option A
  at_index xs none = none
  at_index xs (some i) = get_elem? xs i

  at_index-up_one :
      (x : A) (xs : List A) (o : Option ℕ) → at_index (x ∷ xs) (up_one o) ≡ at_index xs o
  unfolding at_index
  at_index-up_one x xs none = refl
  at_index-up_one x xs (some i) = refl

at_index-find_index :
    (pid : ℕ) (ss : List PmtStream)
    → at_index ss (find_index (λ s. s.elementary_pid == pid) ss) ≡ first_stream pid ss
unfolding at_index
at_index-find_index pid [] = refl
at_index-find_index pid (s ∷ ss) = elim (Bool-cases (s.elementary_pid == pid)) [
  | inl hit ↦ rw hit
  | inr miss ↦ rw miss (
      at_index-up_one s ss (find_index (λ t. t.elementary_pid == pid) ss)
      ∙ at_index-find_index pid ss)
]

by_index :
    (pmt : Pmt) (pid : ℕ)
    → pid_stream_in_pmt (some pmt) pid ≡ at_index pmt.streams (pid_index_in_pmt (some pmt) pid)
unfolding pid_stream_in_pmt pid_index_in_pmt at_index
by_index pmt pid = ground arith

at_index-take :
    (pmt : Pmt) (pid : ℕ)
    → IsValid pmt
    → at_index pmt.streams (find_index (λ s. s.elementary_pid == pid) (streams_of pmt))
      ≡ at_index (streams_of pmt) (find_index (λ s. s.elementary_pid == pid) (streams_of pmt))
at_index-take pmt pid v =
    elim (Option-cases (find_index (λ s. s.elementary_pid == pid) (streams_of pmt))) [
      | inl e ↦ rw e (unfold at_index in refl)
      | inr (i, e) ↦ rw e (
          unfold at_index in
          sym (
            get_elem?-take pmt.num_streams pmt.streams i (
              omega (
                arith,
                find_index-lt (λ s. s.elementary_pid == pid) (streams_of pmt) i e,
                length-take pmt.num_streams pmt.streams (omega (arith, v.cells, v.fits)),
              ))))
    ]

-- On a valid table pid_stream_in_pmt finds the first stream with the PID, or none.
pub pid_stream_in_pmt_lem :
    (pmt : Pmt) (pid : ℕ)
    → IsValid pmt
    → pid_stream_in_pmt (some pmt) pid ≡ first_stream pid (streams_of pmt)
pid_stream_in_pmt_lem pmt pid v =
    by_index pmt pid
    ∙ ap (at_index pmt.streams) (pid_index_in_pmt_lem pmt pid v)
    ∙ at_index-take pmt pid v
    ∙ at_index-find_index pid (streams_of pmt)
