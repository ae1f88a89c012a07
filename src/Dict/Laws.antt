-- ===== src/Dict/Laws.antt =====
-- The laws of the dict operations, in the form that has no side condition.
use ctv_attribution_pipeline.Base.{
  Option, none, Bool, true, false, map, ℕ, ◌≡◌, refl, some, List, [], ◌∷◌, ◌++◌, arith, ◌==◌,
  if◌then◌else◌, ◌||◌, mem,
}
use ctv_attribution_pipeline.Sort.Sets.{sorted_set}
use ctv_attribution_pipeline.Dict.{Dict, lookup, insert, get_or, append_at, keys}

module _ {ℓ} {V : Type ℓ} where
  pub lookup-insert :
      (k j : ℕ) (v : V) (d : Dict V)
      → lookup j (insert k v d) ≡ (if j == k then some v else lookup j d)
  unfolding lookup insert
  lookup-insert k j v [] = refl
  lookup-insert k j v (e ∷ d) = ground (arith, lookup-insert k j v d)

  mem-keys-insert :
      (k j : ℕ) (v : V) (d : Dict V) → mem j (keys (insert k v d)) ≡ (j == k || mem j (keys d))
  unfolding insert
  mem-keys-insert k j v [] = refl
  mem-keys-insert k j v (e ∷ d) = ground (arith, mem-keys-insert k j v d)

  pub get_or-append_at :
      (k j : ℕ) (v : V) (d : Dict (List V))
      → get_or [] j (append_at k v d) ≡ (if j == k then get_or [] k d ++ v ∷ [] else get_or [] j d)
  unfolding get_or append_at
  get_or-append_at k j v [] = ground arith
  get_or-append_at k j v (e ∷ d) = ground (arith, get_or-append_at k j v d)

pub get_or-map_sorted :
    (ip : ℕ) (m : Dict (List ℕ))
    → get_or [] ip (map (λ e. (e.0, sorted_set e.1)) m) ≡ sorted_set (get_or [] ip m)
unfolding get_or sorted_set
get_or-map_sorted ip [] = refl
get_or-map_sorted ip (e ∷ m) = ground (arith, get_or-map_sorted ip m)

abbrev pub is_some {ℓ} : {A : Type ℓ} → Option A → Bool
is_some none = false
is_some (some a) = true

module _ {ℓ} {V : Type ℓ} where
  pub mem-keys : (k : ℕ) (d : Dict V) → mem k (keys d) ≡ is_some (lookup k d)
  unfolding lookup
  mem-keys k [] = refl
  mem-keys k (e ∷ d) = ground (arith, mem-keys k d)

  -- a write to a key that is there keeps every slot; a new key goes last
  pub keys-insert_old :
      (k : ℕ) (v w : V) (d : Dict V) → lookup k d ≡ some w → keys (insert k v d) ≡ keys d
  unfolding lookup insert
  keys-insert_old k v w [] h = cc
  keys-insert_old k v w (e ∷ d) h = ground (arith, keys-insert_old k v w d)

  pub keys-insert_new :
      (k : ℕ) (v : V) (d : Dict V) → lookup k d ≡ none → keys (insert k v d) ≡ keys d ++ k ∷ []
  unfolding lookup insert
  keys-insert_new k v [] h = refl
  keys-insert_new k v (e ∷ d) h = ground (arith, keys-insert_new k v d)
