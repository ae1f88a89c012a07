-- ===== src/Orchestration/Replayed.antt =====
-- What a replay serves, whatever the tables held before.
use mathlib.Core.Path.{subst}
use ctv_attribution_pipeline.Base.{
  ◌≡◌, refl, sym, ap, ◌∙◌, inl, inr, Bool, some, List, [], ◌∷◌, filter, Result, ok, err,
}
use ctv_attribution_pipeline.Sort.Sets.{sorted_set}
use ctv_attribution_pipeline.Table.{Pair}
use ctv_attribution_pipeline.Model.{Ident}
use ctv_attribution_pipeline.Lake.{Day, read_exposures_for_days}
use ctv_attribution_pipeline.LakeRoot.{Answer}
use ctv_attribution_pipeline.Serving.{
  HourlyRow, Tables, landed, current, load_exposures_day, insert_exposures, insert_attributed,
  record_dirty_exposure_keys, record_dirty_attributed_keys,
}
use ctv_attribution_pipeline.Serving.Rollup.{rebuild, rollup_rows}
use ctv_attribution_pipeline.Serving.Rollup.Refresh.{
  served, rebuilt, refresh-serves-rebuild, rebuilt-refresh,
}
use ctv_attribution_pipeline.Serving.Rollup.Marked.{
  load_exposures-IsMarked, load_attributed-IsMarked, read_exposures-on_day,
}
use ctv_attribution_pipeline.Serving.Rollup.Fresh.{IsFresh, IsFresh-IsTracked}
use ctv_attribution_pipeline.Orchestration.{
  World, Totals, is_unknown, no_totals, load_exposures, load_attributed, load_days, refresh,
  load_known, materialize_load, lake_days, truncate, truncate_and_reload, write_marker, marked,
  replay_confirmed, check_replay, replay,
}
use ctv_attribution_pipeline.Orchestration.Parity.{after-ok}
use ctv_attribution_pipeline.Orchestration.Settled.{load_attributed-cases}
use ctv_attribution_pipeline.Orchestration.Steps.{load_days-keeps}

abbrev Fresh : World → Type 0
Fresh w = IsFresh w.tables

kept_refreshed :
    (d : Day) (w : World)
    → (load_exposures d w).1.tables.rollup_refreshed ≡ w.tables.rollup_refreshed
unfolding load_exposures load_exposures_day record_dirty_exposure_keys insert_exposures
kept_refreshed d w = refl

kept_hourly :
    (d : Day) (w : World) → (load_exposures d w).1.tables.campaign_hourly ≡ w.tables.campaign_hourly
unfolding load_exposures load_exposures_day record_dirty_exposure_keys insert_exposures
kept_hourly d w = refl

load_exposures-Fresh : (d : Day) (w : World) → Fresh w → Fresh (load_exposures d w).1
unfolding load_exposures load_exposures_day
load_exposures-Fresh d w (a, b, m) = (
  kept_refreshed d w ∙ a,
  kept_hourly d w ∙ b,
  load_exposures-IsMarked d (read_exposures_for_days (d ∷ []) w.lake) w.tables
      (read_exposures-on_day d w.lake) m,
)

load_attributed-Fresh : (d : Day) (w : World) → Fresh w → Fresh (load_attributed d w).1
unfolding record_dirty_attributed_keys insert_attributed
load_attributed-Fresh d w (a, b, m) = elim (load_attributed-cases d w) [
  | inl e ↦ subst Fresh (sym e) (a, b, m)
  | inr (rows, e) ↦ subst Fresh (sym e) (a, b, load_attributed-IsMarked d rows w.tables m)
]

-- a key is served the row of the rebuild
abbrev IsServed : World → Type 0
IsServed w = (k : Pair) (r : HourlyRow) → rebuilt w.tables k ≡ some r → served w.tables k ≡ some r

refresh-IsServed :
    (n totals : Totals) (w w' : World) → Fresh w → refresh n w ≡ (ok totals, w') → IsServed w'
unfolding refresh
refresh-IsServed n totals w w' h e = subst IsServed (ap (λ p. p.1) e) (λ k r is.
    refresh-serves-rebuild w.tables k r (IsFresh-IsTracked w.tables h)
      (sym (rebuilt-refresh w.tables k) ∙ is))

load_known-IsServed :
    (days unknown : List Day) (w w' : World) (totals : Totals)
    → Fresh w
    → load_known days unknown w ≡ (ok totals, w')
    → IsServed w'
load_known-IsServed days [] w w' totals h e =
    let (n, w₁, ran, done) =
      after-ok (load_days (sorted_set days) no_totals w) refresh totals w' e in
    refresh-IsServed n totals w₁ w'
      (subst Fresh (ap (λ p. p.1) ran) (
        load_days-keeps Fresh load_exposures-Fresh load_attributed-Fresh (sorted_set days) no_totals
          w h))
      done
load_known-IsServed days (d ∷ unknown) w w' totals h e = absurd (cc (ap (λ p. p.0) e))

truncate-IsFresh : (t : Tables) → IsFresh (truncate t)
unfolding truncate
truncate-IsFresh t = (refl, refl, λ e o. absurd o)

truncate_and_reload-IsServed :
    (days : List Day) (w w' : World) (totals : Totals)
    → truncate_and_reload days w ≡ (ok totals, w')
    → IsServed w'
unfolding truncate_and_reload materialize_load
truncate_and_reload-IsServed [] w w' totals e = absurd (cc (ap (λ p. p.0) e))
truncate_and_reload-IsServed (d ∷ ds) w w' totals e =
    load_known-IsServed (d ∷ ds) (filter is_unknown (d ∷ ds))
      (record w { tables = truncate w.tables }) w' totals (truncate-IsFresh w.tables) e

marker-IsServed :
    (profile : Ident) (w : World)
    → IsServed w
    → IsServed (record w { tables = write_marker profile w.tables })
unfolding write_marker rebuild rollup_rows landed current
marker-IsServed profile w h = h

-- After a replay that returns, whatever the tables held before, every key that the whole-table rebuild
-- has a row for is served that row.
pub replay-serves-rebuild :
    (profile : Ident) (confirmed : Bool) (answer : Answer) (w w' : World) (totals : Totals)
    (k : Pair) (r : HourlyRow)
    → replay profile confirmed answer w ≡ (ok totals, w')
    → rebuilt w'.tables k ≡ some r
    → served w'.tables k ≡ some r
unfolding replay
replay-serves-rebuild profile confirmed answer w w' totals k r h is =
    by_check (check_replay (lake_days w.lake) confirmed answer) h k r is
  where
    by_check :
        (r : Result (Unit {0}))
        → replay_confirmed profile (lake_days w.lake) w r ≡ (ok totals, w')
        → IsServed w'
    by_check (err e) k = absurd (cc (ap (λ p. p.0) k))
    by_check (ok u) k =
        let (n, w₁, ran, done) =
          after-ok (truncate_and_reload (lake_days w.lake) w) (marked profile) totals w' k in
        subst IsServed (ap (λ p. p.1) done)
          (marker-IsServed profile w₁ (truncate_and_reload-IsServed (lake_days w.lake) w w₁ n ran))
