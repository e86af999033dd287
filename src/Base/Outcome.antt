-- ===== src/Base/Outcome.antt =====
-- What a C call comes to: a value, a reported error (the code's status 1), or a fault (a read or
-- a write outside an array, or a failed assertion), after which nothing is defined.
use Prim.Native.Nat.{ℕ, zero, suc, ◌<◌}
use mathlib.Core.Path.{◌≡◌, refl}
use native.Mathlib.Omega.{arith}
use mathlib.Core.List.{List, [], ◌∷◌}
use mathlib.Core.Bool.{Bool, true, false}
use mathlib.Core.Option.{none, some}
use mts_utils.Base.Lists.{get_elem?, length}

pub data Outcome {ℓ} (A : Type ℓ) : Type ℓ where
  ok : A → Outcome A
  err : Outcome A
  fault : Outcome A

infixl 5 ◌>>=◌
infixl 5 ◌>>◌
-- The calls that follow one that fails are not made.
abbrev pub ◌>>=◌ {ℓ κ} : {A : Type ℓ} → {B : Type κ} → Outcome A → (A → Outcome B) → Outcome B
fault >>= next = fault
err >>= next = err
ok value >>= next = next value

abbrev pub ◌>>◌ {κ} : {B : Type κ} → Outcome (Unit {0}) → Outcome B → Outcome B
check >> following = check >>= λ _. following

-- `if (bad) return 1;`
abbrev pub refuse_if : Bool → Outcome (Unit {0})
refuse_if true = err
refuse_if false = ok tt

-- `xs[i]`
abbrev pub at {ℓ} : {A : Type ℓ} → List A → ℕ → Outcome A
at xs i = elim (get_elem? xs i) [ none ↦ fault | some x ↦ ok x ]

pub at_below {ℓ} :
    {A : Type ℓ} (xs : List A) (i : ℕ)
    → i < length xs
    → (x : A) × (get_elem? xs i ≡ some x) × (at xs i ≡ ok x)
at_below [] i h = absurd (omega arith)
at_below (x ∷ xs) zero h = (x, refl, refl)
at_below (x ∷ xs) (suc i) h = at_below xs i (omega arith)

-- A call that succeeds was reached through calls that succeed.
pub bind-ok {ℓ κ} :
    {A : Type ℓ} {B : Type κ} (call : Outcome A) (following : A → Outcome B) (b : B)
    → call >>= following ≡ ok b
    → (a : A) × (call ≡ ok a) × (following a ≡ ok b)
bind-ok (ok a) following b h = (a, refl, h)
bind-ok err following b h = cc
bind-ok fault following b h = cc
