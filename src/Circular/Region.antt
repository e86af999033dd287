-- ===== src/Circular/Region.antt =====
-- The items of the circular buffer (include/tswrite.h) that are in use: they lie one behind the other,
-- round the end of the array.
use mts_utils.Base.{
  ℕ, zero, suc, ◌+◌, ◌-◌, ◌%◌, ◌≤◌, ◌<◌, ◌≡◌, ◌≢◌, ◌⊎◌, inl, inr, refl, sym, ap, ◌∙◌, arith, List,
  [], ◌∷◌, ◌++◌, length, take, set, some, get_elem?,
}
use native.Mathlib.Nat.{mod-lt, mod-eq_of_lt, mod-eq-sub-mod}
use mts_utils.Circular.{CircularBufferItem}
use mts_utils.Circular.Steps.{Entry, packets, eof}

-- `j` is `k` places behind `i`, in an array of `n` cells.
abbrev pub Ahead : ℕ → ℕ → ℕ → ℕ → Type 0
Ahead n i k j = (i + k ≡ j) ⊎ (i + k ≡ j + n)

below : (a b : ℕ) → (a < b) ⊎ (b ≤ a)
below a b = ground arith

pub mod-Ahead : (n i k : ℕ) → i < n → k ≤ n → ((i + k) % n < n) × Ahead n i k ((i + k) % n)
mod-Ahead n i k inside short = elim (below (i + k) n) [
  | inl low ↦ (mod-lt (i + k) (omega arith), inl (sym (mod-eq_of_lt low)))
  | inr high ↦
      let e : (i + k) % n ≡ (i + k) - n = mod-eq-sub-mod high ∙ mod-eq_of_lt (omega arith) in
      (mod-lt (i + k) (omega arith), inr (omega (arith, e)))
]

-- The distance from the place behind is one less.
pub Ahead-next :
    (n i next k j : ℕ)
    → i < n
    → next < n
    → j < n
    → k < n
    → Ahead n i 1 next
    → Ahead n i (suc k) j
    → Ahead n next k j
Ahead-next n i next k j i_in next_in j_in k_in one ahead = ground arith

pub Ahead-snoc :
    (n i k j next : ℕ)
    → i < n
    → j < n
    → next < n
    → suc k < n
    → Ahead n i k j
    → Ahead n j 1 next
    → Ahead n i (suc k) next
Ahead-snoc n i k j next i_in j_in next_in k_in ahead one = ground arith

abbrev pub IsEntry : Entry → CircularBufferItem → Type 0
IsEntry (packets bytes) it =
    (take it.length it.cells ≡ bytes) × (188 ≤ it.length) × (it.length ≤ length it.cells)
IsEntry eof it = (it.length ≡ 1) × (get_elem? it.cells 0 ≡ some 1)

-- The entries stand in the items from `i` on.
abbrev pub Holds : ℕ → List CircularBufferItem → ℕ → List Entry → Type 0
Holds n items i [] = Unit
Holds n items i (e ∷ es) =
    ((it : CircularBufferItem) × (get_elem? items i ≡ some it) × IsEntry e it)
    × Holds n items ((i + 1) % n) es

pub get_elem?-set-same {ℓ} :
    {A : Type ℓ} (xs : List A) (i : ℕ) (v : A) → i < length xs → get_elem? (set xs i v) i ≡ some v
get_elem?-set-same [] i v h = absurd (omega arith)
get_elem?-set-same (x ∷ xs) zero v h = refl
get_elem?-set-same (x ∷ xs) (suc i) v h = get_elem?-set-same xs i v (omega arith)

pub get_elem?-set-other {ℓ} :
    {A : Type ℓ} (xs : List A) (i j : ℕ) (v : A) → i ≢ j → get_elem? (set xs j v) i ≡ get_elem? xs i
get_elem?-set-other [] i j v h = refl
get_elem?-set-other (x ∷ xs) zero zero v h = absurd (h refl)
get_elem?-set-other (x ∷ xs) zero (suc j) v h = refl
get_elem?-set-other (x ∷ xs) (suc i) zero v h = refl
get_elem?-set-other (x ∷ xs) (suc i) (suc j) v h = get_elem?-set-other xs i j v (λ e. h (ap suc e))

-- A change behind the entries leaves them.
pub Holds-set :
    (n : ℕ) (items : List CircularBufferItem) (k i j : ℕ) (v : CircularBufferItem) (es : List Entry)
    → i < n
    → j < n
    → k < n
    → length es ≤ k
    → Ahead n i k j
    → Holds n items i es
    → Holds n (set items j v) i es
Holds-set n items k i j v [] i_in j_in k_in short ahead holds = tt
Holds-set n items zero i j v (e ∷ es) i_in j_in k_in short ahead holds = absurd (omega arith)
Holds-set n items (suc k) i j v (e ∷ es) i_in j_in k_in short ahead ((it, there, good), holds) =
    let (next_in, next_ahead) = mod-Ahead n i 1 i_in (omega arith) in
    let further : Ahead n ((i + 1) % n) k j =
      Ahead-next n i ((i + 1) % n) k j i_in next_in j_in (omega arith) next_ahead ahead in
    let other : i ≢ j = λ e. omega (arith, e, ahead) in
    (
      (it, get_elem?-set-other items i j v other ∙ there, good),
      Holds-set n items k ((i + 1) % n) j v es next_in j_in (omega arith) (omega arith) further
          holds,
    )

pub Holds-snoc :
    (n : ℕ) (items : List CircularBufferItem) (i j : ℕ) (it : CircularBufferItem) (es : List Entry)
    (e : Entry)
    → i < n
    → j < n
    → length es < n
    → Ahead n i (length es) j
    → get_elem? items j ≡ some it
    → IsEntry e it
    → Holds n items i es
    → Holds n items i (es ++ e ∷ [])
Holds-snoc n items i j it [] e i_in j_in short ahead there good holds =
    let same : i ≡ j = omega (arith, ahead) in ((it, ap (get_elem? items) same ∙ there, good), tt)
Holds-snoc n items i j it (d ∷ es) e i_in j_in short ahead there good (head, holds) =
    let (next_in, next_ahead) = mod-Ahead n i 1 i_in (omega arith) in
    let further : Ahead n ((i + 1) % n) (length es) j =
      Ahead-next n i ((i + 1) % n) (length es) j i_in next_in j_in (omega arith) next_ahead ahead in
    (
      head,
      Holds-snoc n items ((i + 1) % n) j it es e next_in j_in (omega arith) further there good
          holds,
    )
