-- ===== src/Arrays.antt =====
-- The loops over C arrays that include/pidint.h writes out for each of its arrays, and what they
-- do. An array is the list of its cells; the entries in use are the first ones.
pub mod Loops
pub mod Lookups
use mts_utils.Base.{ℕ, zero, suc, ◌+◌, ◌-◌, ◌*◌, ◌≤◌, ◌<◌, ◌≡◌, List, [], ◌∷◌, ◌==◌, if◌then◌else◌}
use mts_utils.Base.{Option, none, some, get_elem?, set, Bool}

-- `for (ii = 0; ii < n; ii++) if (test(xs[ii])) return ii; return -1;` from `ii` on, with `left`
-- rounds to go; `none` is -1.
unfoldable pub search_loop {ℓ} : {A : Type ℓ} → (A → Bool) → ℕ → ℕ → List A → Option ℕ
search_loop test zero ii xs = none
search_loop test (suc left) ii xs =
    let rest = search_loop test left (suc ii) xs in
    elim (get_elem? xs ii) [ none ↦ rest | some x ↦ if test x then some ii else rest ]

-- `xs[ii] = xs[ii + 1]`
unfoldable pub move_down {ℓ} : {A : Type ℓ} → ℕ → List A → List A
move_down ii xs = elim (get_elem? xs (suc ii)) [ none ↦ xs | some x ↦ set xs ii x ]

-- `for (ii = index; ii < n - 1; ii++) xs[ii] = xs[ii + 1];` with `left` rounds to go.
unfoldable pub close_gap {ℓ} : {A : Type ℓ} → ℕ → ℕ → List A → List A
unfolding move_down
close_gap zero ii xs = xs
close_gap (suc left) ii xs = close_gap left (suc ii) (move_down ii xs)
