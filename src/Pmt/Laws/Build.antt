-- ===== src/Pmt/Laws/Build.antt =====
-- Making a table, and setting its program information.
use mts_utils.Base.{ℕ, ◌%◌, ◌<◌, ◌≡◌, ◌==◌, refl, arith, ◌⊎◌}
use mts_utils.Base.{List, [], length, replicate, true, false, Bool-cases, inl, inr}
use mts_utils.Base.{none, some, ==-eq-true, take-length, ltb-eq-false, ==_iff, ltb, if◌then◌else◌}
use mts_utils.Base.Outcome.{ok, err}
use mts_utils.Arrays.Loops.{}
use mts_utils.Pmt.{Pmt, is_illegal_pid, build_pmt, copy_bytes, set_pmt_program_info, fresh_stream}
use mts_utils.Pmt.{bytes_of}
use mts_utils.Pmt.Laws.{IsValid, streams_of}

-- A table without streams.
abbrev empty_pmt : ℕ → ℕ → ℕ → Pmt
empty_pmt program version pcr = record {
  program_number = program;
  version_number = version;
  pcr_pid = pcr;
  program_info_length = 0;
  program_info = none;
  streams_size = 5;
  num_streams = 0;
  streams = replicate 5 fresh_stream;
}

empty_pmt-IsValid :
    (program version pcr : ℕ)
    → version < 32
    → (pcr ≡ 0x1FFF) ⊎ (is_illegal_pid pcr ≡ false)
    → IsValid (empty_pmt program version pcr)
empty_pmt-IsValid program version pcr hv hp = record {
  cells = refl;
  fits = omega arith;
  good = tt;
  counted = refl;
  short = omega arith;
  version = hv;
  pcr = hp;
}

reduced : (version : ℕ) → (if ltb 31 version then version % 32 else version) ≡ version % 32
reduced version = ground arith

-- What build_pmt makes of a PID for the PCR.
abbrev pub chosen_pcr : ℕ → ℕ
chosen_pcr pid = if pid == 0 then 0x1FFF else pid

refused_unset :
    (pid : ℕ) → (pid == 0) ≡ false → (chosen_pcr pid == 0x1FFF) ≡ false → (pid == 0x1FFF) ≡ true → ⊥
refused_unset pid other given e = ground arith

refused :
    (pid : ℕ)
    → (chosen_pcr pid == 0x1FFF) ≡ false
    → is_illegal_pid (chosen_pcr pid) ≡ true
    → (¬ (pid ≡ 0)) × (¬ (pid ≡ 0x1FFF)) × (is_illegal_pid pid ≡ true)
refused pid given illegal = elim (Bool-cases (pid == 0)) [
  | inl zero_pid ↦ ground arith
  | inr other ↦ (
    λ e. cc (other, ==-eq-true pid 0 e),
    λ e. refused_unset pid other given (==-eq-true pid 0x1FFF e),
    ground arith,
  )
]

abbrev pub Built : ℕ → ℕ → ℕ → Pmt → Type 0
Built program version pid pmt =
    (build_pmt program version pid ≡ ok pmt)
    × IsValid pmt
    × (streams_of pmt ≡ [])
    × (bytes_of pmt.program_info ≡ [])
    × (pmt.program_number ≡ program)
    × (pmt.version_number ≡ version % 32)
    × (pmt.pcr_pid ≡ chosen_pcr pid)

abbrev pub RefusesPcr : ℕ → ℕ → ℕ → Type 0
RefusesPcr program version pid =
    (¬ (pid ≡ 0))
    × (¬ (pid ≡ 0x1FFF))
    × (is_illegal_pid pid ≡ true)
    × (build_pmt program version pid ≡ err)

-- build_pmt refuses a PID for the PCR that is neither legal nor 0 nor 0x1FFF; for any other it
-- makes a valid table for the program, with the version modulo 32 and 0x1FFF in place of a PID 0,
-- and without streams and program information.
pub build_pmt_lem :
    (program version pid : ℕ)
    → RefusesPcr program version pid ⊎ ((pmt : Pmt) × Built program version pid pmt)
unfolding build_pmt
build_pmt_lem program version pid =
    let result : (chosen_pcr pid ≡ 0x1FFF) ⊎ (is_illegal_pid (chosen_pcr pid) ≡ false)
        → (pmt : Pmt) × ((ok (empty_pmt program (version % 32) (chosen_pcr pid)) ≡ ok pmt)
            × IsValid pmt
            × (streams_of pmt ≡ [])
            × (bytes_of pmt.program_info ≡ [])
            × (pmt.program_number ≡ program)
            × (pmt.version_number ≡ version % 32)
            × (pmt.pcr_pid ≡ chosen_pcr pid)) =
      λ h. (
        _,
        (
          refl,
          empty_pmt-IsValid program (version % 32) (chosen_pcr pid) (omega arith) h,
          refl,
          refl,
          refl,
          refl,
          refl,
        ),
      ) in
    rw (reduced version) (elim (Bool-cases (chosen_pcr pid == 0x1FFF)) [
      | inl unset ↦ rw unset (inr (result (inl ((==_iff (chosen_pcr pid) 0x1FFF).0 unset))))
      | inr given ↦ elim (Bool-cases (is_illegal_pid (chosen_pcr pid))) [
        | inl illegal ↦
            rw (given, illegal) (let (a, b, c) = refused pid given illegal in inl (a, b, c, refl))
        | inr legal ↦ rw (given, legal) (inr (result (inr legal)))
      ]
    ])

abbrev pub HasInfo : Pmt → List ℕ → Pmt → Type 0
HasInfo pmt info pmt' =
    (set_pmt_program_info pmt (length info) info ≡ ok pmt')
    × IsValid pmt'
    × (bytes_of pmt'.program_info ≡ info)
    × (streams_of pmt' ≡ streams_of pmt)

-- Information of the length that is stated becomes that of a valid table, which stays valid with
-- the same streams; too long a one is refused.
pub set_pmt_program_info_lem :
    (pmt : Pmt) (info : List ℕ)
    → IsValid pmt
    → ((0x3FF < length info) × (set_pmt_program_info pmt (length info) info ≡ err))
      ⊎ ((pmt' : Pmt) × HasInfo pmt info pmt')
unfolding set_pmt_program_info copy_bytes
set_pmt_program_info_lem pmt info v = elim (Bool-cases (ltb 0x3FF (length info))) [
  | inl long ↦ inl (ground arith)
  | inr short ↦ inr (
    record pmt { program_info = some info; program_info_length = length info },
    (
      rw (short, ltb-eq-false (length info) (length info) (omega arith), take-length info) refl,
      record {
        cells = v.cells;
        fits = v.fits;
        good = v.good;
        counted = refl;
        short = ground arith;
        version = v.version;
        pcr = v.pcr;
      },
      refl,
      refl,
    ),
  )
]
