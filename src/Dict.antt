-- ===== src/Dict.antt =====
-- A Python dict keyed by identifiers, in insertion order: `d.get(k)`, `d[k] = v` (which keeps the slot
-- of a key that is there), `d.setdefault(k, []).append(v)`.
pub mod Laws
pub mod Flat
use ctv_attribution_pipeline.Base.{
  ℕ, Option, none, some, Bool, true, false, List, [], ◌∷◌, ◌++◌, map, ◌==◌, if◌then◌else◌,
}

abbrev pub Dict {ℓ} : Type ℓ → Type ℓ
Dict V = List (ℕ × V)

module _ {ℓ} {V : Type ℓ} where
  unfoldable pub lookup : ℕ → Dict V → Option V
  lookup k [] = none
  lookup k ((j, v) ∷ d) = if k == j then some v else lookup k d

  -- `d[k] = v`
  unfoldable pub insert : ℕ → V → Dict V → Dict V
  insert k v [] = (k, v) ∷ []
  insert k v (e ∷ d) = if k == e.0 then (e.0, v) ∷ d else e ∷ insert k v d

  -- `d.get(k, default)`
  unfoldable pub get_or : V → ℕ → Dict V → V
  unfolding lookup
  get_or v k d = elim (lookup k d) [ none ↦ v | some w ↦ w ]

  abbrev pub values : Dict V → List V
  values = map (λ e. e.1)

  abbrev pub keys : Dict V → List ℕ
  keys = map (λ e. e.0)

-- `d.setdefault(k, []).append(v)`, or `d[k].append(v)` in a `defaultdict(list)`
unfoldable pub append_at {ℓ} : {V : Type ℓ} → ℕ → V → Dict (List V) → Dict (List V)
append_at k v [] = (k, v ∷ []) ∷ []
append_at k v (e ∷ d) = if k == e.0 then (e.0, e.1 ++ v ∷ []) ∷ d else e ∷ append_at k v d
