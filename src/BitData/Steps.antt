-- ===== src/BitData/Steps.antt =====
-- Functions that read one field after another through the calls of include/bitdata.h.
use mts_utils.Base.{Option, none, some}
use mts_utils.Base.Outcome
use mts_utils.Base.Outcome.{Outcome, ok}
use mts_utils.BitData.{BitData}

-- Reads from the data and moves on in it.
abbrev pub Reading {ℓ} : Type ℓ → Type ℓ
Reading A = BitData → Outcome (A × BitData)

abbrev pub pure {ℓ} : {A : Type ℓ} → A → Reading A
pure a bd = ok (a, bd)

module _ {ℓ κ} {A : Type ℓ} {B : Type κ} where
  infixl 1 ◌>>=◌ ◌>>◌
  abbrev pub ◌>>=◌ : Reading A → (A → Reading B) → Reading B
  m >>= f = λ bd. Outcome.◌>>=◌ (m bd) λ (a, after). f a after

  abbrev pub ◌>>◌ : Reading A → Reading B → Reading B
  m >> n = m >>= λ _. n

abbrev pub value_or {ℓ} : {A : Type ℓ} → A → Option A → A
value_or before none = before
value_or before (some a) = a

-- A call that sets a field, and on status 1 leaves it as it was: the macros CHECK report that and go on.
abbrev pub field {ℓ} : {A : Type ℓ} → A → Reading (Option A) → Reading A
field before call = call >>= λ value. pure (value_or before value)

-- A value that is read and not used
abbrev pub ignore {ℓ} : {A : Type ℓ} → Reading (Option A) → Reading (Unit {0})
ignore call = call >>= λ _. pure tt
