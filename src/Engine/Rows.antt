-- ===== src/Engine/Rows.antt =====
-- The row that the hot rule gives a conversion, against the exposures of its household.
use ctv_attribution_pipeline.Base.{
  ℕ, ◌≡◌, refl, sym, ap, ◌∙◌, ◌⊎◌, inl, inr, true, false, List, [], ◌∷◌, map, ltb, none, All,
  Result, ok, err, >>=-eq-ok, ok-eq, map_all, Bool-cases,
}
use ctv_attribution_pipeline.Dict.{Dict}
use ctv_attribution_pipeline.Model.{Ident, Exposure, ResolvedConversion, AttributedConversion}
use ctv_attribution_pipeline.Attribute.Candidates.{candidates_of}
use ctv_attribution_pipeline.Attribute.LastTouch.{
  Candidate, attributed_row, attribute_one, attribute_household,
}
use ctv_attribution_pipeline.Attribute.LastTouch.Outcome.{
  Credits, Misses, candidate-eq, last_touch-outcome,
}

-- the hot rule keeps the conversion
attribute_one-resolved :
    (es : List Exposure) (window : ℕ) (cands : Dict (List Ident)) (r : ResolvedConversion)
    (c : Candidate)
    → attribute_one es window cands r ≡ ok c
    → c.row.resolved ≡ r
unfolding attribute_one
attribute_one-resolved es window cands r c h = by_kind (Bool-cases (ltb 1 r.candidate_count))
  where
    by_outcome : Credits es r window c ⊎ Misses es r window c → c.row.resolved ≡ r
    by_outcome (inl w) = w.resolved
    by_outcome (inr w) = w.resolved

    by_kind :
        (ltb 1 r.candidate_count ≡ true) ⊎ (ltb 1 r.candidate_count ≡ false) → c.row.resolved ≡ r
    by_kind (inr e) = by_outcome (last_touch-outcome es r window [] c (rw e at h))
    by_kind (inl e) =
        let (hhs, _, made) = >>=-eq-ok (candidates_of r cands) _ (rw e at h) in
        ap (λ (a : AttributedConversion). a.resolved)
          (candidate-eq r none [] false hhs none c made).0

-- the row of a result, and a row of the conversion where there is none
abbrev pub row_of : ResolvedConversion → Result Candidate → AttributedConversion
row_of r (ok c) = c.row
row_of r (err e) = attributed_row r none [] false []

module _ (exposures_of_household : Ident → List Exposure) (window : ℕ)
    (cands : Dict (List Ident)) where
  abbrev pub outcome_of : ResolvedConversion → Result Candidate
  outcome_of r = attribute_one (exposures_of_household r.household_id) window cands r

  abbrev pub hot_row : ResolvedConversion → AttributedConversion
  hot_row r = row_of r (outcome_of r)

  abbrev pub Returns : ResolvedConversion → Type 0
  Returns r = (c : Candidate) × (outcome_of r ≡ ok c)

  pub hot_row-conversion : (r : ResolvedConversion) → (hot_row r).conversion_id ≡ r.conversion_id
  hot_row-conversion r = by_result (outcome_of r) refl
    where
      by_result :
          (o : Result Candidate) → outcome_of r ≡ o → (row_of r o).conversion_id ≡ r.conversion_id
      by_result (err e) h = refl
      by_result (ok c) h =
          ap (λ (x : ResolvedConversion). x.conversion_id)
            (attribute_one-resolved (exposures_of_household r.household_id) window cands r c h)

  abbrev pub InHousehold : Ident → ResolvedConversion → Type 0
  InHousehold h r = r.household_id ≡ h

  -- the rows of a household, where the hot rule returns
  pub household-rows :
      (h : Ident) (rs : List ResolvedConversion) (out : List Candidate)
      → All (InHousehold h) rs
      → attribute_household (exposures_of_household h) rs window cands ≡ ok out
      → (map (λ c. c.row) out ≡ map hot_row rs) × All Returns rs
  unfolding attribute_household
  household-rows h [] out own made = (ap (map (λ c. c.row)) (sym (ok-eq made)), tt)
  household-rows h (r ∷ rs) out own made =
      let (c, one, made') =
        >>=-eq-ok (attribute_one (exposures_of_household h) window cands r) _ made in
      let (cs, rest, made'') =
        >>=-eq-ok (map_all (attribute_one (exposures_of_household h) window cands) rs) _ made' in
      let (same, returns) = household-rows h rs cs own.1 rest in
      let own_one = ap (λ k. attribute_one (exposures_of_household k) window cands r) own.0 ∙ one in
      (
        ap (map (λ c. c.row)) (sym (ok-eq made''))
            ∙ ap (λ xs. c.row ∷ xs) same
            ∙ ap (λ o. row_of r o ∷ map hot_row rs) (sym own_one),
        ((c, own_one), returns),
      )

  -- the hot rule returns for a household where it returns for each conversion
  pub household-Returns :
      (h : Ident) (rs : List ResolvedConversion)
      → All (InHousehold h) rs
      → All Returns rs
      → (out : List Candidate) × (attribute_household (exposures_of_household h) rs window cands
          ≡ ok out)
  unfolding attribute_household
  household-Returns h [] own returns = ([], refl)
  household-Returns h (r ∷ rs) own returns =
      let (c, one) = returns.0 in
      let (cs, rest) = household-Returns h rs own.1 returns.1 in
      (
        c ∷ cs,
        rw
            (
              ap (λ k. attribute_one (exposures_of_household k) window cands r) (sym own.0) ∙ one,
              rest,
            )
            refl,
      )
