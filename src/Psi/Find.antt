-- ===== src/Psi/Find.antt =====
-- Looking for a PAT: get_next_TS_packet and find_pat of include/ts.h. The file is the list of its
-- packets; `none` is EOF, and reading does not fail otherwise.
use mts_utils.Base.{ℕ, zero, ◌+◌, ◌==◌, ltb, leb, if◌then◌else◌, not}
use mts_utils.Base.{List, [], ◌∷◌, Bool, ◌&&◌, Option, none, some}
use mts_utils.Base.Int.{pos, negsuc}
use mts_utils.Base.Outcome.{Outcome, ok, err, fault, ◌>>=◌}
use mts_utils.PidintList.{PidintList}
use mts_utils.Ts.Read.{Parts, split_ts_packet}
use mts_utils.Psi.Read.{PsiData, build_psi_data, extract_prog_list_from_pat}

-- What becomes of the data so far when a packet with a PID of 0 comes: data that is not complete is
-- dropped at a new start, and a packet that continues nothing is passed over (`none`).
unfoldable pub restarted : ℕ → Option PsiData → Option (Option PsiData)
restarted start none = if start == 0 then none else some none
restarted start (some psi) = if start == 0 then some (some psi) else some none

-- build_psi_data on the payload of a packet; a length that is negative leads out of the packet.
unfoldable pub build_from : Parts → Option PsiData → Outcome PsiData
build_from parts psi = elim parts.payload_len [
  | pos n ↦ build_psi_data parts.payload n psi
  | negsuc n ↦ fault
]

-- `max > 0 && *num_read >= max`
abbrev pub reached : ℕ → ℕ → Bool
reached max num_read = ltb 0 max && leb max num_read

-- The loop; `num_read` counts the packets read before, and comes back with the list.
unfoldable pub find_pat_loop :
    List (List ℕ) → ℕ → ℕ → Option PsiData → Outcome (Option PidintList × ℕ)
find_pat_loop [] max num_read psi = ok (none, num_read)
find_pat_loop (packet ∷ more) max num_read psi = do
  parts ← split_ts_packet packet
  let read = num_read + 1
  let next = λ (psi' : Option PsiData).
      if reached max read then ok (none, read) else find_pat_loop more max read psi'
  if not (parts.pid == 0) then next psi else elim parts.payload_len [
    | pos zero ↦ err
    | _ ↦ elim (restarted parts.payload_unit_start_indicator psi) [
      | none ↦ find_pat_loop more max read none
      | some psi' ↦ (do
        built ← build_from parts psi'
        if built.len == built.used
            then (do
              prog_list ← extract_prog_list_from_pat (some built.bytes) built.len
              ok (some prog_list, read))
            else next (some built))
    ]
  ]

unfoldable pub find_pat : List (List ℕ) → ℕ → Outcome (Option PidintList × ℕ)
unfolding find_pat_loop restarted build_from
find_pat packets max = find_pat_loop packets max 0 none
