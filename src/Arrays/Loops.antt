-- ===== src/Arrays/Loops.antt =====
-- What the loops come to on the entries in use.
use mts_utils.Base.{ℕ, zero, suc, ◌+◌, ◌-◌, ◌≤◌, ◌<◌, ◌≡◌, refl, ap, ◌∙◌, arith, if◌then◌else◌}
use mts_utils.Base.{List, [], ◌∷◌, ◌++◌, length, take, set, get_elem?, get_or, Bool-cases, inl, inr}
use mts_utils.Base.{Option, none, some, Bool, true, length-set, All}
use mts_utils.Arrays.{search_loop, move_down, close_gap}

abbrev pub up_one : Option ℕ → Option ℕ
up_one none = none
up_one (some i) = some (suc i)

module _ {ℓ} {A : Type ℓ} where
  -- The place of the first entry that passes the test.
  abbrev pub find_index : (A → Bool) → List A → Option ℕ
  find_index test [] = none
  find_index test (x ∷ xs) = if test x then some 0 else up_one (find_index test xs)

  -- The list without the entry at a place.
  abbrev pub erase_at : ℕ → List A → List A
  erase_at i [] = []
  erase_at zero (x ∷ xs) = xs
  erase_at (suc i) (x ∷ xs) = x ∷ erase_at i xs

up_one-eq-some : (o : Option ℕ) (i : ℕ) → up_one o ≡ some i → (j : ℕ) × (o ≡ some j) × (i ≡ suc j)
up_one-eq-some none i e = cc
up_one-eq-some (some j) i e = (j, refl, cc)

module _ {ℓ} {A : Type ℓ} (test : A → Bool) where
  -- An entry that is found is there, and passes the test.
  pub find_index-lt : (xs : List A) (i : ℕ) → find_index test xs ≡ some i → i < length xs
  find_index-lt [] i e = cc
  find_index-lt (x ∷ xs) i e = elim (Bool-cases (test x)) [
    | inl hit ↦ ground arith
    | inr miss ↦
        let (j, found, next) = up_one-eq-some (find_index test xs) i (rw miss at e) in
        omega (arith, find_index-lt xs j found)
  ]

  pub find_index_passes :
      (xs : List A) (i : ℕ) (d : A) → find_index test xs ≡ some i → test (get_or xs i d) ≡ true
  find_index_passes [] i d e = cc
  find_index_passes (x ∷ xs) i d e = elim (Bool-cases (test x)) [
    | inl hit ↦ let first : i ≡ 0 = ground arith in rw (first, hit)
    | inr miss ↦
        let (j, found, next) = up_one-eq-some (find_index test xs) i (rw miss at e) in
        rw next (find_index_passes xs j d found)
  ]

  search_loop-suc :
      (left ii : ℕ) (x : A) (xs : List A)
      → search_loop test left (suc ii) (x ∷ xs) ≡ up_one (search_loop test left ii xs)
  unfolding search_loop
  search_loop-suc zero ii x xs = refl
  search_loop-suc (suc left) ii x xs = ground (arith, search_loop-suc left (suc ii) x xs)

  -- The loop finds the first of the `n` entries in use that passes the test.
  pub search_loop-eq-find_index :
      (n : ℕ) (xs : List A) → n ≤ length xs → search_loop test n 0 xs ≡ find_index test (take n xs)
  unfolding search_loop
  search_loop-eq-find_index zero xs h = refl
  search_loop-eq-find_index (suc n) [] h = absurd (omega arith)
  search_loop-eq-find_index (suc n) (x ∷ xs) h =
      ground (arith, search_loop-suc n 0 x xs, search_loop-eq-find_index n xs)

module _ {ℓ} {A : Type ℓ} where
  pub take-set_next :
      (n : ℕ) (xs : List A) (v : A)
      → n < length xs
      → take (suc n) (set xs n v) ≡ take n xs ++ v ∷ []
  take-set_next n [] v h = absurd (omega arith)
  take-set_next zero (x ∷ xs) v h = refl
  take-set_next (suc n) (x ∷ xs) v h = ap (λ t. x ∷ t) (take-set_next n xs v (omega arith))

  pub take-grown : (n : ℕ) (xs fresh : List A) → n ≤ length xs → take n (xs ++ fresh) ≡ take n xs
  take-grown zero xs fresh h = refl
  take-grown (suc n) [] fresh h = absurd (omega arith)
  take-grown (suc n) (x ∷ xs) fresh h = ap (λ t. x ∷ t) (take-grown n xs fresh (omega arith))

  move_down-suc : (ii : ℕ) (x : A) (xs : List A) → move_down (suc ii) (x ∷ xs) ≡ x ∷ move_down ii xs
  unfolding move_down
  move_down-suc ii x xs = ground arith

  close_gap-suc :
      (left ii : ℕ) (x : A) (xs : List A)
      → close_gap left (suc ii) (x ∷ xs) ≡ x ∷ close_gap left ii xs
  unfolding close_gap
  close_gap-suc zero ii x xs = refl
  close_gap-suc (suc left) ii x xs =
      ap (close_gap left (suc (suc ii))) (move_down-suc ii x xs)
      ∙ close_gap-suc left (suc ii) x (move_down ii xs)

  -- The loop takes the entry at `index` out of the `n + 1` entries in use.
  pub take-close_gap :
      (n index left : ℕ) (xs : List A)
      → n ≡ index + left
      → n < length xs
      → take n (close_gap left index xs) ≡ erase_at index (take (suc n) xs)
  unfolding close_gap
  take-close_gap n index left [] e h = absurd (omega arith)
  take-close_gap zero (suc index) left (x ∷ xs) e h = absurd (omega arith)
  take-close_gap (suc n) (suc index) left (x ∷ xs) e h =
      rw (close_gap-suc left index x xs)
        (ap (λ t. x ∷ t) (take-close_gap n index left xs (omega arith) (omega arith)))
  take-close_gap zero zero left (x ∷ xs) e h = refl
  take-close_gap (suc n) zero zero (x ∷ xs) e h = absurd (omega arith)
  take-close_gap (suc n) zero (suc left) (x ∷ []) e h = absurd (omega arith)
  take-close_gap (suc n) zero (suc left) (x ∷ y ∷ xs) e h =
      rw (close_gap-suc left 0 y (y ∷ xs))
        (ap (λ t. y ∷ t) (take-close_gap n zero left (y ∷ xs) (omega arith) (omega arith)))

  length-move_down : (ii : ℕ) (xs : List A) → length (move_down ii xs) ≡ length xs
  unfolding move_down
  length-move_down ii xs =
      elim (get_elem? xs (suc ii))
        as (λ o. length (elim o [ none ↦ xs | some x ↦ set xs ii x ]) ≡ length xs) [
          | none ↦ refl
          | some x ↦ length-set xs ii x
        ]

  pub length-close_gap : (left ii : ℕ) (xs : List A) → length (close_gap left ii xs) ≡ length xs
  unfolding close_gap move_down
  length-close_gap zero ii xs = refl
  length-close_gap (suc left) ii xs =
      length-close_gap left (suc ii) (move_down ii xs) ∙ length-move_down ii xs

pub All-erase_at {ℓ κ} :
    {A : Type ℓ} (P : A → Type κ) (i : ℕ) (xs : List A) → All P xs → All P (erase_at i xs)
All-erase_at P i [] h = h
All-erase_at P zero (x ∷ xs) h = h.1
All-erase_at P (suc i) (x ∷ xs) h = (h.0, All-erase_at P i xs h.1)

-- The loop takes the entry at `index` out of the `n` entries in use.
pub erase_at-close_gap {ℓ} :
    {A : Type ℓ} (xs : List A) (n index : ℕ)
    → n ≤ length xs
    → index < n
    → take (n - 1) (close_gap (n - 1 - index) index xs) ≡ erase_at index (take n xs)
erase_at-close_gap xs zero index h lt = absurd (omega arith)
erase_at-close_gap xs (suc n) index h lt =
    let e : suc n - 1 ≡ n = omega arith in
    rw e (take-close_gap n index (n - index) xs (omega arith) (omega arith))
