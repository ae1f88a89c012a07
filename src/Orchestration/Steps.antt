-- ===== src/Orchestration/Steps.antt =====
-- The worlds that the operations of the program lead to, a raise in the middle of one included, and the
-- laws by which a property holds of all of them.
use mathlib.Core.Path.{subst}
use ctv_attribution_pipeline.Base.{
  ℕ, ◌≡◌, refl, Bool, Option, none, some, List, [], ◌∷◌, ◌++◌, filter, Result, ok, err,
}
use ctv_attribution_pipeline.Sort.Sets.{sorted_set}
use ctv_attribution_pipeline.Model.{Ident, Exposure, AttributedConversion}
use ctv_attribution_pipeline.Lake.{Lake, Day, land, land_attributed}
use ctv_attribution_pipeline.Reconcile.{PassCounts, lake_candidates, run_pass}
use ctv_attribution_pipeline.LakeRoot.{Answer}
use ctv_attribution_pipeline.Serving.Rollup.{max_ingest}
use ctv_attribution_pipeline.Orchestration.{
  World, Ran, Totals, after, is_unknown, no_totals, load_exposures, load_attributed, load_day,
  load_days, refresh, load_known, materialize_load, finalize, load_pass, run, land_recovered,
  in_calendar, recover_counted, reconciled_conversions, recover_each, days_or_candidates,
  run_reconcile, lake_days, truncate, truncate_and_reload, write_marker, marked, replay_confirmed,
  check_replay, replay,
}
use ctv_attribution_pipeline.Orchestration.Parity.{run_pass-Passed}
use ctv_attribution_pipeline.Orchestration.Grown.{grown, land_attributed-eq}

-- An operation of the program, from the world that it finds to the one that it leaves.
pub data Step : World → World → Type 0 where
  lands : (es : List Exposure) (w : World) → Step w (record w { lake = (land es w.lake).0 })
  lands_attributed :
      (rows : List AttributedConversion) (w : World)
      → Step w (record w { lake = (land_attributed rows w.lake).0 })
  loads : (days : List Day) (w : World) → Step w (materialize_load days w).1
  runs : (bucket_of : Ident → ℕ) (w : World) → Step w (run bucket_of w).1
  reconciles :
      (bucket_of : Ident → ℕ) (partition : Option Day) (w : World)
      → Step w (run_reconcile bucket_of partition w).1
  replays :
      (profile : Ident) (confirmed : Bool) (answer : Answer) (w : World)
      → Step w (replay profile confirmed answer w).1

pub data Reaches (start : World) : World → Type 0 where
  begin : Reaches start start
  further : {w w' : World} → Reaches start w → Step w w' → Reaches start w'

-- What a property keeps by: the writes that the operations are made of.
pub record IsKept (P : World → Type 0) : Type 0 where
  pub by_land : (es : List Exposure) (w : World) → P w → P (record w { lake = (land es w.lake).0 })
  pub by_land_attributed :
      (rows : List AttributedConversion) (w : World)
      → P w
      → P (record w { lake = (land_attributed rows w.lake).0 })
  pub by_load_exposures : (d : Day) (w : World) → P w → P (load_exposures d w).1
  pub by_load_attributed : (d : Day) (w : World) → P w → P (load_attributed d w).1
  pub by_refresh : (totals : Totals) (w : World) → P w → P (refresh totals w).1
  pub by_finalize : (w : World) → P w → P (finalize w)
  pub by_truncate : (w : World) → P w → P (record w { tables = truncate w.tables })
  pub by_marker :
      (profile : Ident) (w : World) → P w → P (record w { tables = write_marker profile w.tables })

module _ (P : World → Type 0) where
  after-keeps :
      {A B : Type 0} (r : Ran A) (next : A → World → Ran B)
      → P r.1
      → ((a : A) (w : World) → P w → P (next a w).1)
      → P (after r next).1
  after-keeps (err e, w) next p f = p
  after-keeps (ok a, w) next p f = f a w p

module _ (P : World → Type 0)
    (by_exposures : (d : Day) (w : World) → P w → P (load_exposures d w).1)
    (by_attributed : (d : Day) (w : World) → P w → P (load_attributed d w).1) where
  load_day-keeps : (d : Day) (totals : Totals) (w : World) → P w → P (load_day d totals w).1
  unfolding load_day
  load_day-keeps d totals w p =
      after-keeps P (load_exposures d w) _ (by_exposures d w p)
        (λ n w₁ p₁. after-keeps P (load_attributed d w₁) _ (by_attributed d w₁ p₁) (λ m w₂ p₂. p₂))

  pub load_days-keeps :
      (ds : List Day) (totals : Totals) (w : World) → P w → P (load_days ds totals w).1
  unfolding load_days
  load_days-keeps [] totals w p = p
  load_days-keeps (d ∷ ds) totals w p =
      after-keeps P (load_day d totals w) _ (load_day-keeps d totals w p)
        (λ n w₁. load_days-keeps ds n w₁)

module _ (P : World → Type 0) (laws : IsKept P) where
  load_known-keeps : (days unknown : List Day) (w : World) → P w → P (load_known days unknown w).1
  load_known-keeps days [] w p =
      after-keeps P (load_days (sorted_set days) no_totals w) refresh
        (load_days-keeps P laws.by_load_exposures laws.by_load_attributed (sorted_set days)
          no_totals w p)
        laws.by_refresh
  load_known-keeps days (d ∷ unknown) w p = p

  pub materialize_load-keeps : (days : List Day) (w : World) → P w → P (materialize_load days w).1
  unfolding materialize_load
  materialize_load-keeps [] w p = p
  materialize_load-keeps (d ∷ ds) w p = load_known-keeps (d ∷ ds) (filter is_unknown (d ∷ ds)) w p

  -- a landing of rows that a pass recovered
  grown-keeps :
      (rows : List AttributedConversion) (w : World)
      → P w
      → P (record w { lake = grown w.lake rows })
  grown-keeps rows w p =
      subst (λ landed. P (record w { lake = landed.0 })) (land_attributed-eq rows w.lake)
        (laws.by_land_attributed rows w p)

  load_pass-keeps :
      (w : World) (r : Result (Lake × List Day × PassCounts))
      → ((lake : Lake) (touched : List Day) (counts : PassCounts)
          → r ≡ ok (lake, touched, counts)
          → P (record w { lake = lake }))
      → P w
      → P (load_pass w r).1
  load_pass-keeps w (err e) landed p = p
  load_pass-keeps w (ok (lake, touched, counts)) landed p =
      after-keeps P (materialize_load touched (record w { lake = lake })) _
        (materialize_load-keeps touched (record w { lake = lake })
          (landed lake touched counts refl))
        (λ totals w'. laws.by_finalize w')

  run-keeps : (bucket_of : Ident → ℕ) (w : World) → P w → P (run bucket_of w).1
  unfolding run
  run-keeps bucket_of w p =
      load_pass-keeps w (run_pass bucket_of (max_ingest w.tables) w.lake)
        (λ lake touched counts e.
          let passed = run_pass-Passed bucket_of w lake touched counts e in
          subst (λ l. P (record w { lake = l })) passed.landed_as (grown-keeps passed.rows w p))
        p

  land_recovered-keeps :
      (w : World) (r : Result (List AttributedConversion)) → P w → P (land_recovered w r).1
  land_recovered-keeps w (err e) p = p
  land_recovered-keeps w (ok rows) p = laws.by_land_attributed rows w p

  recover_counted-keeps :
      (bucket_of : Ident → ℕ) (d : Day) (w : World) (r : Result (List AttributedConversion))
      → P w
      → P (recover_counted bucket_of d w r).1
  recover_counted-keeps bucket_of d w (err e) p = p
  recover_counted-keeps bucket_of d w (ok cands) p = land_recovered-keeps w _ p

  reconciled_conversions-keeps :
      (bucket_of : Ident → ℕ) (d : Day) (w : World)
      → P w
      → P (reconciled_conversions bucket_of d w).1
  unfolding reconciled_conversions
  reconciled_conversions-keeps bucket_of d w p =
      after-keeps P (in_calendar d w) _ p
        (λ u w'. recover_counted-keeps bucket_of d w' (lake_candidates (some d) w'.lake))

  recover_each-keeps :
      (bucket_of : Ident → ℕ) (ds touched : List Day) (w : World)
      → P w
      → P (recover_each bucket_of ds touched w).1
  unfolding recover_each
  recover_each-keeps bucket_of [] touched w p = p
  recover_each-keeps bucket_of (d ∷ ds) touched w p =
      after-keeps P (reconciled_conversions bucket_of d w) _
        (reconciled_conversions-keeps bucket_of d w p)
        (λ more w'. recover_each-keeps bucket_of ds (sorted_set (touched ++ more)) w')

  days-keeps : (partition : Option Day) (w : World) → P w → P (days_or_candidates partition w).1
  days-keeps (some d) w p = p
  days-keeps none w p = p

  run_reconcile-keeps :
      (bucket_of : Ident → ℕ) (partition : Option Day) (w : World)
      → P w
      → P (run_reconcile bucket_of partition w).1
  unfolding run_reconcile
  run_reconcile-keeps bucket_of partition w p =
      after-keeps P (days_or_candidates partition w) _ (days-keeps partition w p) (λ days w₁ p₁.
        after-keeps P (recover_each bucket_of days [] w₁) _
          (recover_each-keeps bucket_of days [] w₁ p₁)
          (λ touched w₂ p₂.
            after-keeps P (materialize_load touched w₂) _ (materialize_load-keeps touched w₂ p₂)
              (λ totals w₃. laws.by_finalize w₃)))

  truncate_and_reload-keeps : (days : List Day) (w : World) → P w → P (truncate_and_reload days w).1
  unfolding truncate_and_reload
  truncate_and_reload-keeps [] w p = p
  truncate_and_reload-keeps (d ∷ ds) w p =
      materialize_load-keeps (d ∷ ds) (record w { tables = truncate w.tables })
        (laws.by_truncate w p)

  replay_confirmed-keeps :
      (profile : Ident) (days : List Day) (w : World) (r : Result (Unit {0}))
      → P w
      → P (replay_confirmed profile days w r).1
  replay_confirmed-keeps profile days w (err e) p = p
  replay_confirmed-keeps profile days w (ok u) p =
      after-keeps P (truncate_and_reload days w) (marked profile)
        (truncate_and_reload-keeps days w p) (λ totals w'. laws.by_marker profile w')

  replay-keeps :
      (profile : Ident) (confirmed : Bool) (answer : Answer) (w : World)
      → P w
      → P (replay profile confirmed answer w).1
  unfolding replay
  replay-keeps profile confirmed answer w p =
      replay_confirmed-keeps profile (lake_days w.lake) w
        (check_replay (lake_days w.lake) confirmed answer) p

  Step-keeps : {w w' : World} → Step w w' → P w → P w'
  Step-keeps (Step.lands es w) p = laws.by_land es w p
  Step-keeps (Step.lands_attributed rows w) p = laws.by_land_attributed rows w p
  Step-keeps (Step.loads days w) p = materialize_load-keeps days w p
  Step-keeps (Step.runs bucket_of w) p = run-keeps bucket_of w p
  Step-keeps (Step.reconciles bucket_of partition w) p = run_reconcile-keeps bucket_of partition w p
  Step-keeps (Step.replays profile confirmed answer w) p = replay-keeps profile confirmed answer w p

  -- a property that every write keeps holds of every world that the operations lead to
  pub Reaches-keeps : {start w : World} → Reaches start w → P start → P w
  Reaches-keeps Reaches.begin p = p
  Reaches-keeps (Reaches.further before s) p = Step-keeps s (Reaches-keeps before p)
