-- ===== src/Reconcile/Hashes.antt =====
-- One day's pass does not depend on the hash of the table format.
use ctv_attribution_pipeline.Base.{
  ℕ, ◌≡◌, refl, sym, ap, ◌∙◌, List, [], ◌∷◌, Occurs, All, Result, ok, err, ◌>>=◌, ◌>>◌, >>=-eq,
  none, some,
}
use ctv_attribution_pipeline.Dict.{Dict, get_or}
use ctv_attribution_pipeline.Model.{
  Ident, Instant, Exposure, ResolvedConversion, AttributedConversion,
}
use ctv_attribution_pipeline.Attribute.Candidates.{candidate_households_by_conversion}
use ctv_attribution_pipeline.Attribute.LastTouch.{last_touch}
use ctv_attribution_pipeline.Lake.{Lake, Day}
use ctv_attribution_pipeline.Reconcile.{
  group_by_conversion, score_group, reconcile_groups, reconcile, expand_candidates, lake_candidates,
  check_start, candidate_days, bucketed_exposures, recover_day, recover_days, run_pass,
  reconciled_at_for, long_window,
}
use ctv_attribution_pipeline.Reconcile.Recovery.{Inside, group_by-Inside, self}
use ctv_attribution_pipeline.Reconcile.Bucketed.{bucketed_exposures-shown}

module _ (x y : Dict (List Exposure)) (window : ℕ) (at : Instant)
    (candidates : List ResolvedConversion)
    (alike : (r : ResolvedConversion)
      → Occurs r candidates
      → get_or [] r.household_id x ≡ get_or [] r.household_id y) where
  score_group-eq :
      (hhs : List Ident) (rows : List ResolvedConversion)
      → All (λ r. Occurs r candidates) rows
      → score_group x window hhs rows ≡ score_group y window hhs rows
  unfolding score_group
  score_group-eq hhs [] o = refl
  score_group-eq hhs (r ∷ rows) o = rw (alike r o.0) (
      ap
        (λ rest.
          last_touch (get_or [] r.household_id y) r window hhs >>= λ c. rest >>= λ cs. ok (c ∷ cs))
        (score_group-eq hhs rows o.1))

  groups-eq :
      (sets : Dict (List Ident)) (groups : Dict (List ResolvedConversion))
      → Inside x window at candidates groups
      → reconcile_groups x window at sets groups ≡ reconcile_groups y window at sets groups
  unfolding reconcile_groups
  groups-eq sets [] o = refl
  groups-eq sets ((cid, rows) ∷ groups) o =
      rw (score_group-eq (get_or [] cid sets) rows o.0, groups-eq sets groups o.1) refl

  -- the matcher reads no household but those of its candidates
  reconcile-eq : reconcile candidates x window at ≡ reconcile candidates y window at
  unfolding reconcile
  reconcile-eq =
      groups-eq (candidate_households_by_conversion candidates) (group_by_conversion [] candidates)
        (group_by-Inside x window at candidates [] candidates tt (self candidates))

module _ (f g : Ident → ℕ) where
  recover_day-eq :
      (d : Day) (at : Instant) (window : ℕ) (lake : Lake)
      → recover_day f d at window lake ≡ recover_day g d at window lake
  unfolding recover_day
  recover_day-eq d at window lake = with_candidates (lake_candidates (some d) lake)
    where
      with_candidates :
          (r : Result (List AttributedConversion))
          → (r >>= λ cands.
              check_start d window (expand_candidates cands)
              >> reconcile
                  (expand_candidates cands)
                  (bucketed_exposures f d window (expand_candidates cands) lake)
                  window
                  at)
            ≡ (r >>= λ cands.
                check_start d window (expand_candidates cands)
                >> reconcile
                    (expand_candidates cands)
                    (bucketed_exposures g d window (expand_candidates cands) lake)
                    window
                    at)
      with_candidates (err e) = refl
      with_candidates (ok cands) =
          let expanded = expand_candidates cands in
          ap (λ r. check_start d window expanded >> r)
            (reconcile-eq (bucketed_exposures f d window expanded lake)
              (bucketed_exposures g d window expanded lake) window at expanded
              (λ r o.
                bucketed_exposures-shown f d window expanded lake r o
                ∙ sym (bucketed_exposures-shown g d window expanded lake r o)))

  recover_days-eq :
      (ds : List Day) (at : Instant) (lake : Lake)
      → recover_days f ds at lake ≡ recover_days g ds at lake
  unfolding recover_days
  recover_days-eq [] at lake = refl
  recover_days-eq (d ∷ ds) at lake =
      rw (recover_day-eq d at long_window lake, recover_days-eq ds at lake) refl

  -- A reconciliation pass lands the same corrections, or raises the same, whatever hash the table format
  -- puts the households into buckets by.
  pub run_pass-eq : (base : Instant) (lake : Lake) → run_pass f base lake ≡ run_pass g base lake
  unfolding run_pass
  run_pass-eq base lake = >>=-eq (candidate_days lake) _ _ (λ days.
      >>=-eq (lake_candidates none lake) _ _
        (λ cands. rw (recover_days-eq days (reconciled_at_for base) lake) refl))
