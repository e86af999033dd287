-- ===== src/Es/Codes.antt =====
-- Start code prefixes in a list of bytes, apart from how include/es.h reads it: the offset of the
-- first 00 00 01, and what the inner loops of find_ES_unit_start and find_ES_unit_end look for.
use mts_utils.Base.{
  ℕ, suc, ◌+◌, ◌-◌, ◌≤◌, ◌<◌, ◌≡◌, refl, sym, ap, ◌∙◌, arith, if◌then◌else◌, Bool, true, false,
  List, [], ◌∷◌, ◌++◌, length, drop, take, Option, none, some, Bool-cases, inl, inr,
}
use mathlib.Core.Option.{some-injective}
use mts_utils.Es.{Scan, at_code, ran_out, is_prefix, scan_start, EsUnit, put_byte, scan_end}

abbrev pub starts_code : List ℕ → Bool
starts_code [] = false
starts_code (a ∷ []) = false
starts_code (a ∷ b ∷ []) = false
starts_code (a ∷ b ∷ c ∷ rest) = is_prefix a b c

abbrev pub later : ℕ → Option ℕ → Option ℕ
later n none = none
later n (some k) = some (n + k)

-- The offset of the first 00 00 01.
unfoldable pub next_code : List ℕ → Option ℕ
next_code [] = none
next_code (x ∷ xs) =
    let rest = later 1 (next_code xs) in if starts_code (x ∷ xs) then some 0 else rest

next_code-step :
    (a b c : ℕ) (rest : List ℕ)
    → next_code (a ∷ b ∷ c ∷ rest)
      ≡ (if is_prefix a b c then some 0 else later 1 (next_code (b ∷ c ∷ rest)))
unfolding next_code
next_code-step a b c rest = refl

later-one : (n : ℕ) (o : Option ℕ) → later 1 (later n o) ≡ later (suc n) o
later-one n none = refl
later-one n (some k) = ap some (omega arith)

later-zero : (o : Option ℕ) → later 0 o ≡ o
later-zero none = refl
later-zero (some k) = ap some (omega arith)

-- A scan of bytes of which more are to come.
abbrev pub Scanned : ℕ → ℕ → ℕ → List ℕ → List ℕ → Scan → Type 0
Scanned prev2 prev1 ptr bs more (at_code q) =
    (next_code (prev2 ∷ prev1 ∷ (bs ++ more)) ≡ some (q - ptr))
    × (ptr ≤ q)
    × (q < ptr + length bs)
    × (drop (q - ptr) bs ≡ 1 ∷ drop (suc (q - ptr)) bs)
Scanned prev2 prev1 ptr bs more (ran_out q2 q1) =
    next_code (prev2 ∷ prev1 ∷ (bs ++ more)) ≡ later (length bs) (next_code (q2 ∷ q1 ∷ more))

is_prefix-byte : (a b c : ℕ) → is_prefix a b c ≡ true → c ≡ 1
unfolding is_prefix
is_prefix-byte a b c h = ground arith

Scanned-step :
    (p2 p1 ptr b : ℕ) (bs more : List ℕ) (stop : Scan)
    → is_prefix p2 p1 b ≡ false
    → Scanned p1 b (suc ptr) bs more stop
    → Scanned p2 p1 ptr (b ∷ bs) more stop
Scanned-step p2 p1 ptr b bs more (at_code q) no_code (e, low, high, byte) =
    let n : q - ptr ≡ suc (q - suc ptr) = omega arith in
    (
      next_code-step p2 p1 b (bs ++ more) ∙ rw (no_code, e, n) (ap some (omega arith)),
      omega arith,
      omega arith,
      rw n byte,
    )
Scanned-step p2 p1 ptr b bs more (ran_out q2 q1) no_code e =
    next_code-step p2 p1 b (bs ++ more)
    ∙ rw (no_code, e) (later-one (length bs) (next_code (q2 ∷ q1 ∷ more)))

pub scan_start-Scanned :
    (p2 p1 ptr : ℕ) (bs more : List ℕ) → Scanned p2 p1 ptr bs more (scan_start p2 p1 ptr bs)
unfolding scan_start
scan_start-Scanned p2 p1 ptr [] more = sym (later-zero (next_code (p2 ∷ p1 ∷ more)))
scan_start-Scanned p2 p1 ptr (b ∷ bs) more = elim (Bool-cases (is_prefix p2 p1 b)) [
  | inl code ↦
      let z : ptr - ptr ≡ 0 = omega arith in
      rw code (
        next_code-step p2 p1 b (bs ++ more) ∙ rw (code, z) refl,
        omega arith,
        omega arith,
        rw (z, is_prefix-byte p2 p1 b code) refl,
      )
  | inr no_code ↦ rw no_code (
      Scanned-step p2 p1 ptr b bs more (scan_start p1 b (suc ptr) bs) no_code
        (scan_start-Scanned p1 b (suc ptr) bs more))
]

-- The bytes that a scan goes past.
abbrev pub passed : ℕ → List ℕ → Scan → List ℕ
passed ptr bs (at_code q) = take (q - ptr) bs
passed ptr bs (ran_out q2 q1) = bs

abbrev pub put_all : EsUnit → List ℕ → EsUnit
put_all unit [] = unit
put_all unit (b ∷ bs) = put_all (put_byte unit b) bs

passed-step :
    (p2 p1 ptr b : ℕ) (bs : List ℕ) (stop : Scan)
    → Scanned p2 p1 (suc ptr) bs [] stop
    → passed ptr (b ∷ bs) stop ≡ b ∷ passed (suc ptr) bs stop
passed-step p2 p1 ptr b bs (at_code q) (e, low, high, byte) =
    let n : q - ptr ≡ suc (q - suc ptr) = omega arith in rw n refl
passed-step p2 p1 ptr b bs (ran_out q2 q1) e = refl

-- The loop of find_ES_unit_end stops where that of find_ES_unit_start does, and keeps the bytes.
pub scan_end_lem :
    (p2 p1 ptr : ℕ) (bs : List ℕ) (unit : EsUnit)
    → scan_end p2 p1 ptr bs unit
      ≡ (scan_start p2 p1 ptr bs, put_all unit (passed ptr bs (scan_start p2 p1 ptr bs)))
unfolding scan_end scan_start
scan_end_lem p2 p1 ptr [] unit = refl
scan_end_lem p2 p1 ptr (b ∷ bs) unit = elim (Bool-cases (is_prefix p2 p1 b)) [
  | inl code ↦ let z : ptr - ptr ≡ 0 = omega arith in rw (code, z) refl
  | inr no_code ↦
      rw
        (
          no_code,
          scan_end_lem p1 b (suc ptr) bs (put_byte unit b),
          passed-step p1 b ptr b bs (scan_start p1 b (suc ptr) bs)
              (scan_start-Scanned p1 b (suc ptr) bs []),
        )
        refl
]

not_later : (o : Option ℕ) → later 1 o ≡ some 0 → ⊥
not_later none h = cc
not_later (some k) h = omega (arith, some-injective _ _ h)

no_byte : next_code [] ≡ none
unfolding next_code
no_byte = refl

one_byte : (a : ℕ) → next_code (a ∷ []) ≡ none
unfolding next_code
one_byte a = refl

pub two_bytes : (a b : ℕ) → next_code (a ∷ b ∷ []) ≡ none
unfolding next_code
two_bytes a b = refl

prefix_lem : (a b c : ℕ) → is_prefix a b c ≡ true → (a ≡ 0) × (b ≡ 0) × (c ≡ 1)
unfolding is_prefix
prefix_lem a b c h = ground arith

later-some : (o : Option ℕ) (n : ℕ) → later 1 o ≡ some (suc n) → o ≡ some n
later-some none n h = cc
later-some (some k) n h = let e : 1 + k ≡ suc n = some-injective _ _ h in ap some (omega (arith, e))

abbrev pub FoundIn : ℕ → ℕ → ℕ → List ℕ → List ℕ → Type 0
FoundIn a b c more rest = next_code (a ∷ b ∷ (more ++ c ∷ rest)) ≡ some (length more)

found_here : (a b c : ℕ) (rest : List ℕ) → FoundIn a b c [] rest → is_prefix a b c ≡ true
found_here a b c rest h = elim (Bool-cases (is_prefix a b c)) [
  | inl e ↦ e
  | inr e ↦
      let g : later 1 (next_code (b ∷ c ∷ rest)) ≡ some 0 =
        rw e at (sym (next_code-step a b c rest) ∙ h) in
      absurd (not_later (next_code (b ∷ c ∷ rest)) g)
]

found_later :
    (a b c m : ℕ) (ms rest : List ℕ)
    → FoundIn a b c (m ∷ ms) rest
    → (is_prefix a b m ≡ false) × FoundIn b m c ms rest
found_later a b c m ms rest h = elim (Bool-cases (is_prefix a b m)) [
  | inl e ↦
      let g : some 0 ≡ some (suc (length ms)) =
        rw e at (sym (next_code-step a b m (ms ++ c ∷ rest)) ∙ h) in
      absurd (omega (arith, some-injective _ _ g))
  | inr e ↦
      let g : later 1 (next_code (b ∷ m ∷ (ms ++ c ∷ rest))) ≡ some (suc (length ms)) =
        rw e at (sym (next_code-step a b m (ms ++ c ∷ rest)) ∙ h) in
      (e, later-some (next_code (b ∷ m ∷ (ms ++ c ∷ rest))) (length ms) g)
]

-- What stands around the first prefix: `more` are the bytes behind the first two and before the 01.
pub code_split :
    (a b c : ℕ) (more rest : List ℕ)
    → FoundIn a b c more rest
    → drop (length more) (a ∷ b ∷ (more ++ c ∷ rest)) ≡ 0 ∷ 0 ∷ 1 ∷ rest
code_split a b c [] rest h =
    let (x, y, z) = prefix_lem a b c (found_here a b c rest h) in rw (x, y, z) refl
code_split a b c (m ∷ ms) rest h = code_split b m c ms rest (found_later a b c m ms rest h).1

no_start :
    (a b m : ℕ) (ms : List ℕ)
    → is_prefix a b m ≡ false
    → next_code (take (length ms) (b ∷ m ∷ ms)) ≡ none
    → next_code (a ∷ take (length ms) (b ∷ m ∷ ms)) ≡ none
no_start a b m [] e h = one_byte a
no_start a b m (x ∷ []) e h = two_bytes a b
no_start a b m (x ∷ y ∷ r) e h = next_code-step a b m (take (length r) (x ∷ y ∷ r)) ∙ rw (e, h) refl

pub code_last :
    (a b c : ℕ) (more rest : List ℕ)
    → FoundIn a b c more rest
    → (next_code (take (length more) (a ∷ b ∷ more)) ≡ none)
      × (a ∷ b ∷ more ≡ take (length more) (a ∷ b ∷ more) ++ 0 ∷ 0 ∷ [])
code_last a b c [] rest h =
    let (x, y, z) = prefix_lem a b c (found_here a b c rest h) in (no_byte, rw (x, y) refl)
code_last a b c (m ∷ ms) rest h =
    let (e, further) = found_later a b c m ms rest h in
    let (none_before, zeros) = code_last b m c ms rest further in
    (no_start a b m ms e none_before, ap (λ (t : List ℕ). a ∷ t) zeros)
