-- ===== src/Es/Walk.antt =====
-- The outer loops of find_ES_unit_start and find_ES_unit_end (include/es.h), which read on where
-- the bytes in hand run out: where they stop, on the bytes that all the reads give.
use mts_utils.Base.{
  ℕ, zero, suc, ◌+◌, ◌-◌, ◌≤◌, ◌<◌, ◌≡◌, refl, sym, ap, ◌∙◌, arith, List, [], ◌∷◌, ◌++◌, length,
  drop, take, All, Option, none, some,
}
use mts_utils.Base.{length-drop, length-take, take-append-drop, length-append}
use mathlib.Core.List.{append_assoc, append-nil}
use mts_utils.Es.{Es, Input, Scan, at_code, ran_out, scan_start}
use mts_utils.Es.Codes.{two_bytes, next_code, later, Scanned, scan_start-Scanned}

-- Every read gives bytes.
abbrev pub GivesBytes : Option (List ℕ) → Type 0
GivesBytes none = ⊥
GivesBytes (some []) = ⊥
GivesBytes (some (b ∷ bs)) = Unit

abbrev pub Readable : Input → Type 0
Readable = All GivesBytes

abbrev pub rest_of : Input → List ℕ
rest_of [] = []
rest_of (none ∷ input) = rest_of input
rest_of (some bs ∷ input) = bs ++ rest_of input

-- The bytes that have not been looked at.
abbrev pub left : Es → Input → List ℕ
left es input = drop es.data_ptr es.bytes ++ rest_of input

-- The place of the next byte in the file.
abbrev pub place : Es → ℕ
place es = es.read_ahead_posn + es.data_ptr

pub record IsReading (es : Es) : Type 0 where
  pub counted : es.read_ahead_len ≡ length es.bytes
  pub inside : es.data_ptr ≤ length es.bytes

-- Where the loops stop: at the byte 01 of a prefix, at an offset, or at the end of the file with the
-- last two bytes. The bytes are those that they go past.
pub data Walk : Type 0 where
  stopped : Es → ℕ → Input → List ℕ → Walk
  ended : Es → ℕ → ℕ → List ℕ → Walk

abbrev pub past : List ℕ → Walk → Walk
past bs (stopped es q input more) = stopped es q input (bs ++ more)
past bs (ended es q2 q1 more) = ended es q2 q1 (bs ++ more)

abbrev pub refill : Es → List ℕ → Es
refill es bs = record es {
  read_ahead_posn = es.read_ahead_posn + es.read_ahead_len;
  read_ahead_len = length bs;
  bytes = bs;
  data_ptr = 0;
}

abbrev pub in_hand : Es → List ℕ
in_hand es = drop es.data_ptr es.bytes

abbrev pub scan : Es → ℕ → ℕ → Scan
scan es p2 p1 = scan_start p2 p1 es.data_ptr (in_hand es)

abbrev pub after_scan : Es → Input → (ℕ → ℕ → Walk) → Scan → Walk
after_scan es input onward (at_code q) = stopped es q input (take (q - es.data_ptr) (in_hand es))
after_scan es input onward (ran_out q2 q1) = onward q2 q1

unfoldable pub walk : Input → Es → ℕ → ℕ → Walk
walk [] es p2 p1 = after_scan es [] (λ q2 q1. ended es q2 q1 (in_hand es)) (scan es p2 p1)
walk (none ∷ input) es p2 p1 = ended es p2 p1 []
walk (some bs ∷ input) es p2 p1 =
    let onward : ℕ → ℕ → Walk = λ q2 q1. past (in_hand es) (walk input (refill es bs) q2 q1) in
    after_scan es (some bs ∷ input) onward (scan es p2 p1)

-- That the walk stops at the first prefix of all the bytes.
abbrev pub Stops : Es → ℕ → ℕ → List ℕ → Walk → Type 0
Stops es p2 p1 bytes (stopped e q input more) =
    (next_code (p2 ∷ p1 ∷ bytes) ≡ some (length more))
    × (bytes ≡ more ++ 1 ∷ (drop (suc q) e.bytes ++ rest_of input))
    × (e.read_ahead_posn + q ≡ place es + length more)
    × (q < length e.bytes)
    × (drop q e.bytes ≡ 1 ∷ drop (suc q) e.bytes)
    × (e.read_ahead_len ≡ length e.bytes)
    × (e.prev1_byte ≡ es.prev1_byte)
    × Readable input
Stops es p2 p1 bytes (ended e q2 q1 more) =
    (next_code (p2 ∷ p1 ∷ bytes) ≡ none) × (more ≡ bytes) × (e.read_ahead_len ≡ length e.bytes)

drop-nil : (n : ℕ) → drop {A = ℕ} n [] ≡ []
drop-nil zero = refl
drop-nil (suc n) = refl

drop-drop : (n q : ℕ) (xs : List ℕ) → n ≤ q → drop (q - n) (drop n xs) ≡ drop q xs
drop-drop zero q xs h = let e : q - 0 ≡ q = omega arith in rw e refl
drop-drop (suc n) zero xs h = absurd (omega arith)
drop-drop (suc n) (suc q) [] h = drop-nil (suc q - suc n)
drop-drop (suc n) (suc q) (x ∷ xs) h =
    let e : suc q - suc n ≡ q - n = omega arith in rw e (drop-drop n q xs (omega arith))

stop_here :
    (es : Es) (input : Input) (p2 p1 q : ℕ)
    → IsReading es
    → Readable input
    → Scanned p2 p1 es.data_ptr (in_hand es) (rest_of input) (at_code q)
    → Stops es p2 p1 (left es input) (stopped es q input (take (q - es.data_ptr) (in_hand es)))
stop_here es input p2 p1 q reading readable (code, low, high, byte) =
    let k : ℕ = q - es.data_ptr in
    let len : length (in_hand es) ≡ length es.bytes - es.data_ptr =
      length-drop es.data_ptr es.bytes in
    let inside : es.data_ptr ≤ length es.bytes = reading.inside in
    let count : length (take (q - es.data_ptr) (in_hand es)) ≡ q - es.data_ptr =
      length-take (q - es.data_ptr) (in_hand es) (omega arith) in
    let here : drop (q - es.data_ptr) (in_hand es) ≡ drop q es.bytes =
      drop-drop es.data_ptr q es.bytes low in
    let next : drop (suc q - es.data_ptr) (in_hand es) ≡ drop (suc q) es.bytes =
      drop-drop es.data_ptr (suc q) es.bytes (omega arith) in
    let one : suc (q - es.data_ptr) ≡ suc q - es.data_ptr = omega arith in
    let at_q : drop q es.bytes ≡ 1 ∷ drop (suc q) es.bytes =
      sym here
      ∙ byte
      ∙ ap (λ (t : ℕ). 1 ∷ drop t (in_hand es)) one
      ∙ ap (λ (t : List ℕ). 1 ∷ t) next in
    (
      code ∙ ap some (sym count),
      ap (λ (t : List ℕ). t ++ rest_of input)
            (sym (take-append-drop (q - es.data_ptr) (in_hand es)))
          ∙ append_assoc (take (q - es.data_ptr) (in_hand es)) (drop (q - es.data_ptr) (in_hand es))
              (rest_of input)
          ∙ ap (λ (t : List ℕ). take (q - es.data_ptr) (in_hand es) ++ (t ++ rest_of input))
              (here ∙ at_q),
      omega (arith, count),
      omega arith,
      at_q,
      reading.counted,
      refl,
      readable,
    )

go_on :
    (es : Es) (bs : List ℕ) (input : Input) (p2 p1 q2 q1 : ℕ) (further : Walk)
    → IsReading es
    → next_code (p2 ∷ p1 ∷ left es (some bs ∷ input))
      ≡ later (length (in_hand es)) (next_code (q2 ∷ q1 ∷ (bs ++ rest_of input)))
    → Stops (refill es bs) q2 q1 (bs ++ rest_of input) further
    → Stops es p2 p1 (left es (some bs ∷ input)) (past (in_hand es) further)
go_on es bs input p2 p1 q2 q1 (stopped e q i more) reading e1
      (code, split, posn, low, at_q, counted, same, readable) =
    (
      e1 ∙ ap (later (length (in_hand es))) code ∙ ap some (sym (length-append (in_hand es) more)),
      ap (λ (t : List ℕ). in_hand es ++ t) split
          ∙ sym (append_assoc (in_hand es) more (1 ∷ (drop (suc q) e.bytes ++ rest_of i))),
      (let len : length (in_hand es) ≡ length es.bytes - es.data_ptr =
            length-drop es.data_ptr es.bytes in
          let full : es.read_ahead_len ≡ length es.bytes = reading.counted in
          let inside : es.data_ptr ≤ length es.bytes = reading.inside in
          omega (arith, posn, length-append (in_hand es) more)),
      low,
      at_q,
      counted,
      same,
      readable,
    )
go_on es bs input p2 p1 q2 q1 (ended e r2 r1 more) reading e1 (code, all, counted) =
    (e1 ∙ ap (later (length (in_hand es))) code, ap (λ (t : List ℕ). in_hand es ++ t) all, counted)

scanned :
    (es : Es) (input : Input) (p2 p1 : ℕ) (onward : ℕ → ℕ → Walk)
    → IsReading es
    → Readable input
    → ((q2 q1 : ℕ)
        → next_code (p2 ∷ p1 ∷ left es input)
          ≡ later (length (in_hand es)) (next_code (q2 ∷ q1 ∷ rest_of input))
        → Stops es p2 p1 (left es input) (onward q2 q1))
    → (stop : Scan) → Scanned p2 p1 es.data_ptr (in_hand es) (rest_of input) stop
    → Stops es p2 p1 (left es input) (after_scan es input onward stop)
scanned es input p2 p1 onward reading readable further (at_code q) here =
    stop_here es input p2 p1 q reading readable here
scanned es input p2 p1 onward reading readable further (ran_out q2 q1) e = further q2 q1 e

refill-IsReading : (es : Es) (bs : List ℕ) → IsReading (refill es bs)
refill-IsReading es bs = record { counted = refl; inside = omega arith }

pub walk-Stops :
    (input : Input) (es : Es) (p2 p1 : ℕ)
    → IsReading es
    → Readable input
    → Stops es p2 p1 (left es input) (walk input es p2 p1)
unfolding walk
walk-Stops [] es p2 p1 reading readable =
    scanned es [] p2 p1 (λ q2 q1. ended es q2 q1 (in_hand es)) reading readable
      (λ q2 q1 e. (
        e ∙ ap (later (length (in_hand es))) (two_bytes q2 q1),
        sym (append-nil (in_hand es)),
        reading.counted,
      ))
      (scan es p2 p1) (scan_start-Scanned p2 p1 es.data_ptr (in_hand es) [])
walk-Stops (none ∷ input) es p2 p1 reading readable = absurd readable.0
walk-Stops (some bs ∷ input) es p2 p1 reading readable =
    scanned es (some bs ∷ input) p2 p1
      (λ q2 q1. past (in_hand es) (walk input (refill es bs) q2 q1)) reading readable
      (λ q2 q1 e.
        go_on es bs input p2 p1 q2 q1 (walk input (refill es bs) q2 q1) reading e
          (walk-Stops input (refill es bs) q2 q1 (refill-IsReading es bs) readable.1))
      (scan es p2 p1) (scan_start-Scanned p2 p1 es.data_ptr (in_hand es) (bs ++ rest_of input))
