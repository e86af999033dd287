-- ===== src/Pmt/Laws/Remove.antt =====
-- Taking a stream out of a table.
use mts_utils.Base.{ℕ, ◌-◌, ◌<◌, ◌≡◌, ◌==◌, sym, ◌∙◌, arith, ◌⊎◌, Option-cases}
use mts_utils.Base.{inl, inr}
use mts_utils.Base.{Option, none, some, length-take}
use mts_utils.Base.Outcome.{ok, err}
use mts_utils.Arrays.Loops.{find_index, find_index-lt, erase_at, erase_at-close_gap, All-erase_at}
use mts_utils.Arrays.Loops.{length-close_gap}
use mts_utils.Pmt.{Pmt}
use mts_utils.Pmt.{pid_index_in_pmt}
use mts_utils.Pmt.{close_stream, remove_stream_from_pmt}
use mts_utils.Pmt.Laws.{IsStream, IsValid, streams_of, pid_index_in_pmt_lem}

close_stream-IsValid :
    (pmt : Pmt) (index : ℕ)
    → IsValid pmt
    → index < pmt.num_streams
    → IsValid (close_stream pmt index)
      × (streams_of (close_stream pmt index) ≡ erase_at index (streams_of pmt))
unfolding close_stream
close_stream-IsValid pmt index v lt =
    let e =
      erase_at-close_gap pmt.streams pmt.num_streams index (omega (arith, v.cells, v.fits)) lt in
    (
      record {
        cells = length-close_gap (pmt.num_streams - 1 - index) index pmt.streams ∙ v.cells;
        fits = omega (arith, v.fits);
        good = rw e (All-erase_at IsStream index (streams_of pmt) v.good);
        counted = v.counted;
        short = v.short;
        version = v.version;
        pcr = v.pcr;
      },
      e,
    )

abbrev pub place_of : Pmt → ℕ → Option ℕ
place_of pmt pid = find_index (λ s. s.elementary_pid == pid) (streams_of pmt)

abbrev pub Removed : Pmt → ℕ → ℕ → Pmt → Type 0
Removed pmt pid index pmt' =
    (place_of pmt pid ≡ some index)
    × (remove_stream_from_pmt (some pmt) pid ≡ ok pmt')
    × IsValid pmt'
    × (streams_of pmt' ≡ erase_at index (streams_of pmt))

abbrev pub LacksStream : Pmt → ℕ → Type 0
LacksStream pmt pid = (place_of pmt pid ≡ none) × (remove_stream_from_pmt (some pmt) pid ≡ err)

-- Removing a PID from a valid table is the error if no stream has it; otherwise the first such
-- stream is taken out, the others keep their order, and the table stays valid.
pub remove_stream_from_pmt_lem :
    (pmt : Pmt) (pid : ℕ)
    → IsValid pmt
    → LacksStream pmt pid ⊎ ((index : ℕ) × (pmt' : Pmt) × Removed pmt pid index pmt')
unfolding remove_stream_from_pmt
remove_stream_from_pmt_lem pmt pid v = elim (Option-cases (pid_index_in_pmt (some pmt) pid)) [
  | inl absent ↦
      inl (sym (pid_index_in_pmt_lem pmt pid v) ∙ absent, rw (absent, remove_stream_from_pmt))
  | inr (index, found) ↦
      let e : find_index (λ s. s.elementary_pid == pid) (streams_of pmt) ≡ some index =
        sym (pid_index_in_pmt_lem pmt pid v) ∙ found in
      let lt : index < pmt.num_streams = omega (
        arith,
        length-take pmt.num_streams pmt.streams (omega (arith, v.cells, v.fits)),
        find_index-lt (λ s. s.elementary_pid == pid) (streams_of pmt) index e,
      ) in
      let (valid, streams) = close_stream-IsValid pmt index v lt in
      inr (index, close_stream pmt index, (e, rw (found, remove_stream_from_pmt), valid, streams))
]
