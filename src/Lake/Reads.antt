-- ===== src/Lake/Reads.antt =====
-- What a read by household gives one of the households: the same for every list that names it.
use ctv_attribution_pipeline.Base.{
  ◌≡◌, refl, sym, ap, ◌∙◌, ◌⊎◌, inl, inr, Bool, true, false, ◌&&◌, ◌||◌, Option, List, [], ◌∷◌,
  ◌++◌, arith, ◌==◌, ==_iff, if◌then◌else◌, filter, filter-none, any, mem, Distinct, append_assoc,
  append_nil, Bool-cases,
}
use ctv_attribution_pipeline.Sort.Stable.{sort_by, by_key}
use ctv_attribution_pipeline.Dict.{Dict, get_or, append_at, keys}
use ctv_attribution_pipeline.Dict.Flat.{mem-keys-append_at, append_at-Distinct}
use ctv_attribution_pipeline.Dict.Laws.{get_or-append_at}
use ctv_attribution_pipeline.Model.{Ident, Instant, Exposure}
use ctv_attribution_pipeline.Attribute.Dedup.{dedup_from, dedup_by_id}
use ctv_attribution_pipeline.Attribute.Oracle.{exposures_by_household}
use ctv_attribution_pipeline.Lake.Filters.{
  filter-both, filter-eq, any-of_filter, filter-sort_by, filter-dedup_from,
}
use ctv_attribution_pipeline.Lake.{
  Lake, same_exposure, distinct_exposures, at_least, before, exposure_selected,
  read_exposures_by_household,
}

-- the exposures filed under a household
get_or-exposures :
    (k : Ident) (d : Dict (List Exposure)) (es : List Exposure)
    → get_or [] k (exposures_by_household d es)
      ≡ get_or [] k d ++ filter (λ (e : Exposure). k == e.household_id) es
unfolding exposures_by_household
get_or-exposures k d [] = sym (append_nil (get_or [] k d))
get_or-exposures k d (e ∷ es) =
    get_or-exposures k (append_at e.household_id e d) es
    ∙ ap (λ l. l ++ filter (λ (x : Exposure). k == x.household_id) es)
        (get_or-append_at e.household_id k e d)
    ∙ one_more (Bool-cases (k == e.household_id))
  where
    one_more :
        ((k == e.household_id) ≡ true) ⊎ ((k == e.household_id) ≡ false)
        → (if k == e.household_id then get_or [] e.household_id d ++ e ∷ [] else get_or [] k d)
            ++ filter (λ (x : Exposure). k == x.household_id) es
          ≡ get_or [] k d ++ filter (λ (x : Exposure). k == x.household_id) (e ∷ es)
    one_more (inl q) =
        let rest = filter (λ (x : Exposure). k == x.household_id) es in
        rw q (
          ap (λ a. (get_or [] a d ++ e ∷ []) ++ rest) (sym ((==_iff k e.household_id).0 q))
          ∙ append_assoc (get_or [] k d) (e ∷ []) rest)
    one_more (inr q) = rw q refl

mem-keys-exposures :
    (k : Ident) (d : Dict (List Exposure)) (es : List Exposure)
    → mem k (keys (exposures_by_household d es))
      ≡ (mem k (keys d) || any (λ (e : Exposure). k == e.household_id) es)
unfolding exposures_by_household
mem-keys-exposures k d [] = ground arith
mem-keys-exposures k d (e ∷ es) =
    mem-keys-exposures k (append_at e.household_id e d) es
    ∙ ground (arith, mem-keys-append_at k e.household_id e d)

exposures-Distinct :
    (d : Dict (List Exposure)) (es : List Exposure)
    → Distinct (keys d)
    → Distinct (keys (exposures_by_household d es))
unfolding exposures_by_household
exposures-Distinct d [] h = h
exposures-Distinct d (e ∷ es) h =
    exposures-Distinct (append_at e.household_id e d) es (append_at-Distinct e.household_id e d h)

same_exposure-household :
    (k : Ident) (a b : Exposure)
    → same_exposure a b ≡ true
    → (k == a.household_id) ≡ (k == b.household_id)
same_exposure-household k a b h = ground (arith, h)

module _ (lo hi : Option Instant) (lake : Lake) where
  abbrev in_range : Exposure → Bool
  in_range e = at_least lo e.event_time && before hi e.event_time

  -- the exposures of a household in the range
  abbrev pub shown_in_range : Ident → List Exposure
  shown_in_range k = sort_by (by_key (λ (e : Exposure). e.exposure_id)) (
      distinct_exposures
        (filter (λ (e : Exposure). k == e.household_id && in_range e) lake.exposures))

  selected_of :
      (k : Ident) (hhs : List Ident) (es : List Exposure)
      → mem k hhs ≡ true
      → filter (λ (e : Exposure). k == e.household_id) (filter (exposure_selected hhs lo hi) es)
        ≡ filter (λ (e : Exposure). k == e.household_id && in_range e) es
  selected_of k hhs es h =
      filter-both (λ (e : Exposure). k == e.household_id) (exposure_selected hhs lo hi) es
      ∙ filter-eq _ (λ (e : Exposure). k == e.household_id && in_range e)
          (λ e. same_choice e (Bool-cases (k == e.household_id))) es
    where
      same_choice :
          (e : Exposure)
          → ((k == e.household_id) ≡ true) ⊎ ((k == e.household_id) ≡ false)
          → (k == e.household_id && exposure_selected hhs lo hi e)
            ≡ (k == e.household_id && in_range e)
      same_choice e (inr q) = rw q refl
      same_choice e (inl q) = rw q (
          ap (λ b. b && in_range e) (sym (ap (λ a. mem a hhs) ((==_iff k e.household_id).0 q)) ∙ h))

  not_selected :
      (k : Ident) (hhs : List Ident) (es : List Exposure)
      → mem k hhs ≡ false
      → filter (λ (e : Exposure). k == e.household_id) (filter (exposure_selected hhs lo hi) es)
        ≡ []
  not_selected k hhs es h =
      filter-both (λ (e : Exposure). k == e.household_id) (exposure_selected hhs lo hi) es
      ∙ filter-none _ es (λ e o. not_chosen e (Bool-cases (k == e.household_id)))
    where
      not_chosen :
          (e : Exposure)
          → ((k == e.household_id) ≡ true) ⊎ ((k == e.household_id) ≡ false)
          → (k == e.household_id && exposure_selected hhs lo hi e) ≡ false
      not_chosen e (inr q) = rw q refl
      not_chosen e (inl q) = rw q (
          ap (λ b. b && in_range e) (sym (ap (λ a. mem a hhs) ((==_iff k e.household_id).0 q)) ∙ h))

  filed_under :
      (k : Ident) (hhs : List Ident)
      → filter
          (λ (e : Exposure). k == e.household_id)
          (sort_by
            (by_key (λ (e : Exposure). e.exposure_id))
            (distinct_exposures (filter (exposure_selected hhs lo hi) lake.exposures)))
        ≡ sort_by (by_key (λ (e : Exposure). e.exposure_id)) (
            distinct_exposures (
              filter
                (λ (e : Exposure). k == e.household_id)
                (filter (exposure_selected hhs lo hi) lake.exposures)))
  unfolding dedup_by_id
  filed_under k hhs =
      filter-sort_by (λ (e : Exposure). e.exposure_id) (λ (e : Exposure). k == e.household_id) _
      ∙ ap (sort_by (by_key (λ (e : Exposure). e.exposure_id))) (
          filter-dedup_from same_exposure (λ (e : Exposure). k == e.household_id)
            (same_exposure-household k) [] (filter (exposure_selected hhs lo hi) lake.exposures))

  -- what a read gives a household that it names, and one that it does not
  pub read-shown :
      (k : Ident) (hhs : List Ident)
      → mem k hhs ≡ true
      → get_or [] k (read_exposures_by_household hhs lo hi lake) ≡ shown_in_range k
  unfolding read_exposures_by_household get_or
  read-shown k [] h = absurd (cc h)
  read-shown k (x ∷ hhs) h =
      get_or-exposures k [] _
      ∙ filed_under k (x ∷ hhs)
      ∙ ap (λ es. sort_by (by_key (λ (e : Exposure). e.exposure_id)) (distinct_exposures es))
          (selected_of k (x ∷ hhs) lake.exposures h)

  -- a read has no entry for a household that it does not name
  pub read-absent :
      (k : Ident) (hhs : List Ident)
      → mem k hhs ≡ false
      → mem k (keys (read_exposures_by_household hhs lo hi lake)) ≡ false
  unfolding read_exposures_by_household dedup_by_id dedup_from sort_by
  read-absent k [] h = refl
  read-absent k (x ∷ hhs) h =
      mem-keys-exposures k [] _
      ∙ any-of_filter (λ (e : Exposure). k == e.household_id)
          (sort_by (by_key (λ (e : Exposure). e.exposure_id))
            (distinct_exposures (filter (exposure_selected (x ∷ hhs) lo hi) lake.exposures)))
          (filed_under k (x ∷ hhs)
            ∙ ap (λ es. sort_by (by_key (λ (e : Exposure). e.exposure_id)) (distinct_exposures es))
                (not_selected k (x ∷ hhs) lake.exposures h))

  pub read-Distinct :
      (hhs : List Ident) → Distinct (keys (read_exposures_by_household hhs lo hi lake))
  unfolding read_exposures_by_household
  read-Distinct [] = tt
  read-Distinct (x ∷ hhs) = exposures-Distinct [] _ tt
