-- ===== src/Arrays/Lookups.antt =====
-- Tables that are two or more C arrays: keys, and at the same places what belongs to them. The entries in
-- use are the first ones (include/pes.h, include/nalunit.h).
use mts_utils.Base.{
  ℕ, zero, suc, ◌≤◌, ◌<◌, ◌≡◌, ◌≢◌, refl, sym, ap, ◌∙◌, arith, ◌==◌, if◌then◌else◌, Bool, List, [],
  ◌∷◌, ◌++◌, length, get_or, set, take, Option, none, some, Bool-cases, inl, inr, ==_iff,
  length-take,
}
use mts_utils.Arrays.Loops.{find_index, find_index-lt, find_index_passes, up_one, take-set_next}

pub get_or-set-same {ℓ} :
    {A : Type ℓ} (xs : List A) (i : ℕ) (v d : A) → i < length xs → get_or (set xs i v) i d ≡ v
get_or-set-same [] i v d h = absurd (omega arith)
get_or-set-same (x ∷ xs) zero v d h = refl
get_or-set-same (x ∷ xs) (suc i) v d h = get_or-set-same xs i v d (omega arith)

pub get_or-set-other {ℓ} :
    {A : Type ℓ} (xs : List A) (i j : ℕ) (v d : A) → i ≢ j → get_or (set xs j v) i d ≡ get_or xs i d
get_or-set-other [] i j v d h = refl
get_or-set-other (x ∷ xs) zero zero v d h = absurd (h refl)
get_or-set-other (x ∷ xs) zero (suc j) v d h = refl
get_or-set-other (x ∷ xs) (suc i) zero v d h = refl
get_or-set-other (x ∷ xs) (suc i) (suc j) v d h = get_or-set-other xs i j v d (λ e. h (ap suc e))

abbrev pub is : ℕ → ℕ → Bool
is pid p = p == pid

-- The place of the first entry that passes, with one more entry at `n`.
abbrev pub one_more : (ℕ → Bool) → ℕ → ℕ → Option ℕ → Option ℕ
one_more test x n none = if test x then some n else none
one_more test x n (some i) = some i

up_one-one_more :
    (test : ℕ → Bool) (x n : ℕ) (o : Option ℕ)
    → up_one (one_more test x n o) ≡ one_more test x (suc n) (up_one o)
up_one-one_more test x n none = elim (Bool-cases (test x)) [ inl e ↦ rw e refl | inr e ↦ rw e refl ]
up_one-one_more test x n (some i) = refl

pub find_index-snoc :
    (test : ℕ → Bool) (xs : List ℕ) (x : ℕ)
    → find_index test (xs ++ x ∷ []) ≡ one_more test x (length xs) (find_index test xs)
find_index-snoc test [] x = refl
find_index-snoc test (y ∷ xs) x = elim (Bool-cases (test y)) [
  | inl hit ↦ rw hit refl
  | inr miss ↦
      rw (miss, find_index-snoc test xs x) (up_one-one_more test x (length xs) (find_index test xs))
]

-- The place of a key among the first `n`
abbrev pub place_of : List ℕ → ℕ → ℕ → Option ℕ
place_of keys n key = find_index (is key) (take n keys)

pub place_of-lt :
    (keys : List ℕ) (n key i : ℕ) → n ≤ length keys → place_of keys n key ≡ some i → i < n
place_of-lt keys n key i fits h =
    omega (arith, length-take n keys fits, find_index-lt (is key) (take n keys) i h)

pub same_key :
    (keys : List ℕ) (n p q i : ℕ) → place_of keys n p ≡ some i → place_of keys n q ≡ some i → p ≡ q
same_key keys n p q i hp hq =
    let ep : get_or (take n keys) i 0 ≡ p =
      (==_iff (get_or (take n keys) i 0) p).0 (find_index_passes (is p) (take n keys) i 0 hp) in
    let eq : get_or (take n keys) i 0 ≡ q =
      (==_iff (get_or (take n keys) i 0) q).0 (find_index_passes (is q) (take n keys) i 0 hq) in
    sym ep ∙ eq

-- With one more key in use
pub place_of-set :
    (keys : List ℕ) (n key other : ℕ)
    → n < length keys
    → place_of (set keys n key) (suc n) other ≡ one_more (is other) key n (place_of keys n other)
place_of-set keys n key other room =
    ap (find_index (is other)) (take-set_next n keys key room)
    ∙ find_index-snoc (is other) (take n keys) key
    ∙ ap (λ (t : ℕ). one_more (is other) key t (place_of keys n other))
        (length-take n keys (omega (arith, room)))
