-- ===== src/Psi/Laws/Entries.antt =====
-- The bytes that write_pmt of include/ts.h makes of the streams.
use mts_utils.Base.{ℕ, zero, suc, ◌+◌, ◌/◌, ◌%◌, ◌<◌, ◌≡◌, refl, sym, ap, ◌∙◌, arith}
use mts_utils.Base.{List, [], ◌∷◌, ◌++◌, length, bit_or, All}
use mts_utils.Base.{take-append, length-append, ltb-eq-false, false}
use mts_utils.Base.Outcome.{ok}
use mathlib.Core.List.{append-nil}
use mts_utils.Bits.{masks, bit_or-eq-add}
use mts_utils.Pmt.{PmtStream, copy_bytes, bytes_of, is_illegal_pid}
use mts_utils.Pmt.Laws.{IsStream}
use mts_utils.Psi.Write.{pmt_entry, pmt_entries}

pub copy_bytes-append : (xs ys : List ℕ) → copy_bytes (length xs) (xs ++ ys) ≡ ok xs
unfolding copy_bytes
copy_bytes-append xs ys =
    let long = ltb-eq-false (length (xs ++ ys)) (length xs) (omega (arith, length-append xs ys)) in
    rw (long, take-append xs ys) refl

pub copy_bytes-counted : (n : ℕ) (xs ys : List ℕ) → length xs ≡ n → copy_bytes n (xs ++ ys) ≡ ok xs
copy_bytes-counted n xs ys h = ap (λ k. copy_bytes k (xs ++ ys)) (sym h) ∙ copy_bytes-append xs ys

pub copy_bytes-all : (n : ℕ) (xs : List ℕ) → length xs ≡ n → copy_bytes n xs ≡ ok xs
copy_bytes-all n xs h = ap (copy_bytes n) (sym (append-nil xs)) ∙ copy_bytes-counted n xs [] h

-- The bytes of a stream in plain arithmetic.
unfoldable pub entry_bytes : PmtStream → List ℕ
entry_bytes s =
    s.stream_type
    ∷ (0xE0 + s.elementary_pid / 256)
    ∷ (s.elementary_pid % 256)
    ∷ (0xF0 + s.es_info_length / 256)
    ∷ (s.es_info_length % 256)
    ∷ bytes_of s.es_info

unfoldable pub all_bytes : List PmtStream → List ℕ
all_bytes [] = []
all_bytes (s ∷ ss) = entry_bytes s ++ all_bytes ss

or_high : (x : ℕ) → x < 4 → bit_or x 0xF0 ≡ 0xF0 + x
or_high zero h = refl
or_high (suc zero) h = refl
or_high (suc (suc zero)) h = refl
or_high (suc (suc (suc zero))) h = refl
or_high (suc (suc (suc (suc x)))) h = absurd (omega arith)

pub legal-lt : (pid : ℕ) → is_illegal_pid pid ≡ false → pid < 0x2000
legal-lt pid h = ground arith

pmt_entry_lem : (s : PmtStream) → IsStream s → pmt_entry s ≡ ok (entry_bytes s)
unfolding pmt_entry entry_bytes
pmt_entry_lem s good =
    let exact = copy_bytes-all s.es_info_length (bytes_of s.es_info) good.counted in
    let high =
      bit_or-eq-add 5 0xE0 (s.elementary_pid / 256) refl
        (omega (arith, legal-lt s.elementary_pid good.legal)) in
    let info = or_high (s.es_info_length / 256) (omega (arith, good.short)) in
    rw exact
      (simp masks (ground (arith, high, info, legal-lt s.elementary_pid good.legal, good.short)))

pub pmt_entries_lem : (ss : List PmtStream) → All IsStream ss → pmt_entries ss ≡ ok (all_bytes ss)
unfolding pmt_entries all_bytes
pmt_entries_lem [] h = refl
pmt_entries_lem (s ∷ ss) h = rw (pmt_entry_lem s h.0, pmt_entries_lem ss h.1) refl
