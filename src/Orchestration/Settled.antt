-- ===== src/Orchestration/Settled.antt =====
-- What holds of every world that the operations lead to: the marks of the rollup, and what is only ever
-- added to.
use mathlib.Core.Path.{subst}
use ctv_attribution_pipeline.Base.{
  append_assoc, ◌≡◌, refl, sym, ap, ◌∙◌, some, List, [], ◌∷◌, filter, Result, ok, err, ◌>>=◌, ◌⊎◌,
  inl, inr, length,
}
use ctv_attribution_pipeline.Sort.Sets.{sorted_set}
use ctv_attribution_pipeline.Table.{final_from, final, find}
use ctv_attribution_pipeline.Model.{AttributedConversion}
use ctv_attribution_pipeline.Lake.{Lake, Day, read_current}
use ctv_attribution_pipeline.Serving.{
  Tables, dirty, refreshed, load_exposures_day, load_attributed_day, insert_exposures,
  insert_attributed, record_dirty_exposure_keys, record_dirty_attributed_keys,
}
use ctv_attribution_pipeline.Serving.Rollup.{dirty_keys, write_report_snapshot}
use ctv_attribution_pipeline.Serving.Rollup.Settled.{
  IsBehind, marks-IsBehind, refresh-IsBehind, refresh-settles,
}
use ctv_attribution_pipeline.Orchestration.{
  World, Totals, is_unknown, no_totals, load_exposures, load_attributed, load_days, refresh,
  load_known, materialize_load, finalize, truncate, write_marker, keep_loaded,
}
use ctv_attribution_pipeline.Orchestration.Parity.{after-ok}
use ctv_attribution_pipeline.Orchestration.Steps.{Reaches, IsKept, Reaches-keeps, load_days-keeps}

-- no row in any table
abbrev pub no_tables : Tables
no_tables = record {
  exposures_landed = [];
  attributed_conversions = [];
  campaign_hourly = [];
  rollup_dirty = [];
  rollup_refreshed = [];
  report_snapshots = [];
  eval_meta = [];
}

abbrev Behind : World → Type 0
Behind w = IsBehind w.tables

-- nothing was refreshed yet
unrefreshed-IsBehind : (t : Tables) → t.rollup_refreshed ≡ [] → IsBehind t
unfolding refreshed final final_from find
unrefreshed-IsBehind t h k r e = absurd (cc (rw h at e))

load_exposures-Behind : (d : Day) (w : World) → Behind w → Behind (load_exposures d w).1
unfolding load_exposures load_exposures_day record_dirty_exposure_keys insert_exposures
load_exposures-Behind d w h =
    marks-IsBehind w.tables (load_exposures d w).1.tables _ refl
      (append_assoc w.tables.rollup_dirty _ _) h

abbrev pub loaded_attributed : Day → World → List AttributedConversion → World
loaded_attributed d w rows = record w {
  tables = record_dirty_attributed_keys d (insert_attributed rows w.tables);
}

-- a load of attributed rows inserts some, or leaves the tables as they are
pub load_attributed-cases :
    (d : Day) (w : World)
    → ((load_attributed d w).1 ≡ w)
      ⊎ ((rows : List AttributedConversion) × ((load_attributed d w).1
            ≡ loaded_attributed d w rows))
unfolding load_attributed load_attributed_day
load_attributed-cases d w = by_read (read_current (some (d ∷ [])) w.lake)
  where
    by_read :
        (r : Result (List AttributedConversion))
        → ((keep_loaded w (
              r >>= λ rows.
              ok (length rows, record_dirty_attributed_keys d (insert_attributed rows w.tables)))).1
            ≡ w)
          ⊎ ((rows : List AttributedConversion) × ((keep_loaded w (
                  r >>= λ rows. ok (
                    length rows,
                    record_dirty_attributed_keys d (insert_attributed rows w.tables),
                  ))).1
                ≡ loaded_attributed d w rows))
    by_read (err e) = inl refl
    by_read (ok rows) = inr (rows, refl)

loaded_attributed-Behind :
    (d : Day) (w : World) (rows : List AttributedConversion)
    → Behind w
    → Behind (loaded_attributed d w rows)
unfolding record_dirty_attributed_keys insert_attributed
loaded_attributed-Behind d w rows h =
    marks-IsBehind w.tables (loaded_attributed d w rows).tables _ refl refl h

load_attributed-Behind : (d : Day) (w : World) → Behind w → Behind (load_attributed d w).1
load_attributed-Behind d w h = elim (load_attributed-cases d w) [
  | inl e ↦ subst Behind (sym e) h
  | inr (rows, e) ↦ subst Behind (sym e) (loaded_attributed-Behind d w rows h)
]

Behind-IsKept : IsKept Behind
unfolding finalize write_report_snapshot truncate write_marker refresh refreshed dirty
Behind-IsKept = record {
  by_land = λ es w h. h;
  by_land_attributed = λ rows w h. h;
  by_load_exposures = load_exposures-Behind;
  by_load_attributed = load_attributed-Behind;
  by_refresh = λ totals w h. refresh-IsBehind w.tables h;
  by_finalize = λ w h. h;
  by_truncate = λ w h. unrefreshed-IsBehind (truncate w.tables) refl;
  by_marker = λ profile w h. h;
}

-- In every world that the operations lead to from empty tables, no key was refreshed against a version
-- above its mark.
pub reached-IsBehind :
    (lake : Lake) (w : World)
    → Reaches (record { lake = lake; tables = no_tables }) w
    → IsBehind w.tables
reached-IsBehind lake w path =
    Reaches-keeps Behind Behind-IsKept path (unrefreshed-IsBehind no_tables refl)

load_known-settles :
    (days unknown : List Day) (w w' : World) (totals : Totals)
    → Behind w
    → load_known days unknown w ≡ (ok totals, w')
    → dirty_keys w'.tables ≡ []
unfolding refresh
load_known-settles days [] w w' totals h e =
    let (n, w₁, ran, done) =
      after-ok (load_days (sorted_set days) no_totals w) refresh totals w' e in
    ap (λ (p : Result Totals × World). dirty_keys p.1.tables) (sym done)
    ∙ refresh-settles w₁.tables (
        subst Behind (ap (λ p. p.1) ran) (
          load_days-keeps Behind load_exposures-Behind load_attributed-Behind (sorted_set days)
            no_totals w h))
load_known-settles days (d ∷ unknown) w w' totals h e = absurd (cc (ap (λ p. p.0) e))

-- In every world that the operations lead to from empty tables, whatever was raised on the way, a load of
-- some days that returns leaves no key of the rollup dirty.
pub materialize_load-settles :
    (lake : Lake) (w w' : World) (d : Day) (ds : List Day) (totals : Totals)
    → Reaches (record { lake = lake; tables = no_tables }) w
    → materialize_load (d ∷ ds) w ≡ (ok totals, w')
    → dirty_keys w'.tables ≡ []
unfolding materialize_load
materialize_load-settles lake w w' d ds totals path e =
    load_known-settles (d ∷ ds) (filter is_unknown (d ∷ ds)) w w' totals
      (reached-IsBehind lake w path) e
