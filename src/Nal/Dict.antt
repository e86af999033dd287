-- ===== src/Nal/Dict.antt =====
-- The dictionaries of parameter sets of include/nalunit.h as maps from ids to data.
use mts_utils.Base.{
  ℕ, zero, ◌+◌, ◌≤◌, ◌≡◌, refl, arith, ◌==◌, if◌then◌else◌, Bool, List, [], ◌∷◌, ◌++◌, get_or, take,
  Option, none, some, Option-cases, inl, inr, ==-eq-false,
}
use mts_utils.Base
use mts_utils.Base.Outcome.{Outcome, ok, err, fault}
use mts_utils.Arrays.Loops.{search_loop-eq-find_index}
use mts_utils.Arrays.Lookups.{is, place_of}
use mts_utils.Nal.{NalUnit, NalInnards, unset}
use mts_utils.Nal.Params.{ParamDict, index_of_id, renew_param, lookup_param_data}

-- Where the last one is remembered, it is right.
abbrev pub LastIsRight : ParamDict → Option (ℕ × ℕ) → Type 0
LastIsRight dict none = Unit {0}
LastIsRight dict (some (id, ii)) = index_of_id dict id ≡ some ii

pub record IsParamDict (dict : ParamDict) : Type 0 where
  pub ids : Base.length dict.ids ≡ dict.size
  pub params : Base.length dict.params ≡ dict.size
  pub inside : dict.length ≤ dict.size
  pub last : LastIsRight dict dict.last

abbrev pub param_at : List NalInnards → Option ℕ → Option NalInnards
param_at params none = none
param_at params (some ii) = some (get_or params ii unset)

-- The data remembered for an id
unfoldable pub stored : ParamDict → ℕ → Option NalInnards
stored dict id = param_at dict.params (index_of_id dict id)

pub index_lem :
    (dict : ParamDict) (id : ℕ)
    → Base.length dict.ids ≡ dict.size
    → dict.length ≤ dict.size
    → index_of_id dict id ≡ place_of dict.ids dict.length id
unfolding index_of_id
index_lem dict id ids inside =
    search_loop-eq-find_index (is id) dict.length dict.ids (omega (arith, ids, inside))

-- The data is there for its id, and all else is as before; or the arrays are full.
pub data Remembers (dict : ParamDict) (id other : ℕ) (u : NalInnards) (result : Outcome ParamDict)
    : Type 0 where
  remembered :
      (after : ParamDict)
      → result ≡ ok after
      → IsParamDict after
      → stored after other ≡ (if other == id then some u else stored dict other)
      → Remembers dict id other u result
  full :
      dict.length ≡ dict.size
      → stored dict id ≡ none
      → result ≡ fault
      → Remembers dict id other u result

module _ (dict : ParamDict) (id other : ℕ) (nal : NalUnit) (good : IsParamDict dict) where
  same_index : (ii : ℕ) → index_of_id (renew_param dict ii id nal) other ≡ index_of_id dict other
  unfolding renew_param index_of_id
  same_index ii = refl

-- What a look-up comes to, where an id has this data or none.
abbrev pub LooksUp : ParamDict → ℕ → Option NalInnards → Outcome (NalInnards × ParamDict) → Type 0
LooksUp dict id none result = result ≡ err
LooksUp dict id (some u) result =
    (after : ParamDict) × (result ≡ ok (u, after))
    × IsParamDict after
    × ((other : ℕ) → stored after other ≡ stored dict other)

pub lookup-LooksUp :
    (dict : ParamDict) (id : ℕ)
    → IsParamDict dict
    → LooksUp dict id (stored dict id) (lookup_param_data dict id)
unfolding lookup_param_data stored index_of_id
lookup-LooksUp dict id good = elim (Option-cases (index_of_id dict id)) [
  | inl e ↦ rw (e, stored, lookup_param_data) refl
  | inr (ii, e) ↦
      rw (e, stored, lookup_param_data)
        (
          record dict { last = some (id, ii) },
          refl,
          record { ids = good.ids; params = good.params; inside = good.inside; last = e },
          λ other. refl,
        )
]
