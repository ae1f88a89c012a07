-- ===== src/Orchestration.antt =====
-- orchestration/run.py, orchestration/replay.py, orchestration/assets.py and the ends of
-- reconcile/reconcile.py and lake/destructive.py: what moves the lake and the serving tables. Each
-- operation gives what it returned or raised and the world it left, so a raise in the middle shows.
-- The runner of the assets is the call of each asset in turn; `apply_ddl` creates what is there.
pub mod OneDay
pub mod Grown
pub mod Parity
pub mod Steps
pub mod Settled
pub mod AppendOnly
pub mod Refusals
pub mod Replayed
use ctv_attribution_pipeline.Base.{
  ℕ, zero, suc, ◌+◌, ◌-◌, Bool, true, false, not, ◌&&◌, ◌||◌, Option, none, some, List, [], ◌∷◌,
  ◌++◌, map, ◌==◌, ltb, leb, if◌then◌else◌, filter, length, max, maximum, mem, Error, Result, ok,
  err, ◌>>=◌, ◌>>◌, raise_if, empty_lake, unknown_partition,
}
use ctv_attribution_pipeline.Sort.Sets.{sorted_set}
use ctv_attribution_pipeline.Table.{final}
use ctv_attribution_pipeline.Model.{Ident, Instant, Exposure, AttributedConversion}
use ctv_attribution_pipeline.Lake.{Lake, Day, day_of, land_attributed}
use ctv_attribution_pipeline.Reconcile.{
  PassCounts, reconcile_delta, reconciled_at_for, candidate_days, lake_candidates, recover_day,
  run_pass, long_window,
}
use ctv_attribution_pipeline.LakeRoot.{Answer, confirm_or_abort}
use ctv_attribution_pipeline.Serving.{Tables, load_exposures_day, load_attributed_day}
use ctv_attribution_pipeline.Serving.Rollup.{
  refresh_campaign_hourly, max_ingest, write_report_snapshot,
}

pub record World : Type 0 where
  pub lake : Lake
  pub tables : Tables

-- what a call returned or raised, and the world after it
abbrev pub Ran : Type 0 → Type 0
Ran A = Result A × World

abbrev pub after : {A B : Type 0} → Ran A → (A → World → Ran B) → Ran B
after (err e, w) next = (err e, w)
after (ok a, w) next = next a w

-- `_day_keys`, as numbers of days
unfoldable pub day_keys : Day → ℕ → List Day
day_keys start zero = []
day_keys start (suc n) = start ∷ day_keys (suc start) n

-- DAY_PARTITIONS: 2026-08-01, which is 739,828 days after the least date, and the 364 days after it
unfoldable pub day_partitions : List Day
day_partitions = day_keys 739_828 365

abbrev pub is_unknown : Day → Bool
is_unknown d = not (mem d day_partitions)

-- the totals by table, and the number of refreshed keys where there was a refresh
pub record Totals : Type 0 where
  pub exposures : ℕ
  pub attributed : ℕ
  pub rollup_keys : Option ℕ

abbrev pub no_totals : Totals
no_totals = record { exposures = 0; attributed = 0; rollup_keys = none }

abbrev pub add_totals : ℕ → ℕ → Totals → Totals
add_totals n m totals = record totals {
  exposures = totals.exposures + n;
  attributed = totals.attributed + m;
}

-- `clickhouse_exposures_landed` and `clickhouse_attributed_conversions`, for one day
unfoldable pub load_exposures : Day → World → Ran ℕ
load_exposures day w =
    let (n, t) = load_exposures_day day w.lake w.tables in (ok n, record w { tables = t })

abbrev pub keep_loaded : World → Result (ℕ × Tables) → Ran ℕ
keep_loaded w (err e) = (err e, w)
keep_loaded w (ok (n, t)) = (ok n, record w { tables = t })

unfoldable pub load_attributed : Day → World → Ran ℕ
load_attributed day w = keep_loaded w (load_attributed_day day w.lake w.tables)

unfoldable pub load_day : Day → Totals → World → Ran Totals
load_day day totals w =
    after (load_exposures day w)
      (λ n w₁. after (load_attributed day w₁) (λ m w₂. (ok (add_totals n m totals), w₂)))

unfoldable pub load_days : List Day → Totals → World → Ran Totals
load_days [] totals w = (ok totals, w)
load_days (d ∷ ds) totals w = after (load_day d totals w) (λ totals' w'. load_days ds totals' w')

unfoldable pub refresh : Totals → World → Ran Totals
refresh totals w =
    let (n, t) = refresh_campaign_hourly w.tables in
    (ok (record totals { rollup_keys = some n }), record w { tables = t })

abbrev pub load_known : List Day → List Day → World → Ran Totals
load_known days [] w = after (load_days (sorted_set days) no_totals w) refresh
load_known days (d ∷ unknown) w = (err unknown_partition, w)

unfoldable pub materialize_load : List Day → World → Ran Totals
materialize_load [] w = (ok no_totals, w)
materialize_load (d ∷ ds) w = load_known (d ∷ ds) (filter is_unknown (d ∷ ds)) w

-- `finalize`
unfoldable pub finalize : World → World
finalize w = record w {
  tables = write_report_snapshot reconcile_delta false (write_report_snapshot 0 true w.tables);
}

-- `reconcile.run`, without its metrics
abbrev pub load_pass : World → Result (Lake × List Day × PassCounts) → Ran PassCounts
load_pass w (err e) = (err e, w)
load_pass w (ok (lake, touched, counts)) =
    after (materialize_load touched (record w { lake = lake }))
      (λ totals w'. (ok counts, finalize w'))

unfoldable pub run : (Ident → ℕ) → World → Ran PassCounts
run bucket_of w = load_pass w (run_pass bucket_of (max_ingest w.tables) w.lake)

-- `reconciled_conversions`, for one day: the days that its landing touched
abbrev pub keep_landed : World → Lake × List Day → Ran (List Day)
keep_landed w (lake, touched) = (ok touched, record w { lake = lake })

abbrev pub land_recovered : World → Result (List AttributedConversion) → Ran (List Day)
land_recovered w (err e) = (err e, w)
land_recovered w (ok recovered) = keep_landed w (land_attributed recovered w.lake)

-- the candidates are read first, and counted
abbrev pub recover_counted :
    (Ident → ℕ) → Day → World → Result (List AttributedConversion) → Ran (List Day)
recover_counted bucket_of day w (err e) = (err e, w)
recover_counted bucket_of day w (ok candidates) =
    land_recovered w
      (recover_day bucket_of day (reconciled_at_for (max_ingest w.tables)) long_window w.lake)

-- an asset with `partitions_def=DAY_PARTITIONS` is not materialized for another key
abbrev pub in_calendar : Day → World → Ran (Unit {0})
in_calendar day w = (raise_if (is_unknown day) unknown_partition, w)

unfoldable pub reconciled_conversions : (Ident → ℕ) → Day → World → Ran (List Day)
reconciled_conversions bucket_of day w =
    after (in_calendar day w)
      (λ u w'. recover_counted bucket_of day w' (lake_candidates (some day) w'.lake))

-- the loop over the days; `touched` is a set
unfoldable pub recover_each : (Ident → ℕ) → List Day → List Day → World → Ran (List Day)
recover_each bucket_of [] touched w = (ok touched, w)
recover_each bucket_of (d ∷ ds) touched w =
    after (reconciled_conversions bucket_of d w)
      (λ more w'. recover_each bucket_of ds (sorted_set (touched ++ more)) w')

abbrev pub days_or_candidates : Option Day → World → Ran (List Day)
days_or_candidates (some day) w = (ok (day ∷ []), w)
days_or_candidates none w = (candidate_days w.lake, w)

-- `run_reconcile`
unfoldable pub run_reconcile : (Ident → ℕ) → Option Day → World → Ran Totals
run_reconcile bucket_of partition w = after (days_or_candidates partition w) (λ days w₁.
    after (recover_each bucket_of days [] w₁)
      (λ touched w₂. after (materialize_load touched w₂) (λ totals w₃. (ok totals, finalize w₃))))

-- the days of both raw tables; a root without a catalog is an empty lake
unfoldable pub lake_days : Lake → List Day
lake_days lake = sorted_set (
    map (λ (e : Exposure). day_of e.event_time) lake.exposures
    ++ map (λ (a : AttributedConversion). day_of a.event_time) lake.attributed)

-- TRUNCATE of each table of SERVING_TABLES
unfoldable pub truncate : Tables → Tables
truncate t = record t {
  exposures_landed = [];
  attributed_conversions = [];
  campaign_hourly = [];
  rollup_dirty = [];
  rollup_refreshed = [];
  eval_meta = [];
}

unfoldable pub truncate_and_reload : List Day → World → Ran Totals
truncate_and_reload [] w = (err empty_lake, w)
truncate_and_reload (d ∷ ds) w = materialize_load (d ∷ ds) (record w { tables = truncate w.tables })

-- the profile of the single row, the last written
unfoldable pub write_marker : Ident → Tables → Tables
write_marker profile t = record t { eval_meta = t.eval_meta ++ profile ∷ [] }

abbrev pub marked : Ident → Totals → World → Ran Totals
marked profile totals w = (ok totals, record w { tables = write_marker profile w.tables })

-- `replay`: the refusals, the prompt, and then the act
abbrev pub replay_confirmed : Ident → List Day → World → Result (Unit {0}) → Ran Totals
replay_confirmed profile days w (err e) = (err e, w)
replay_confirmed profile days w (ok u) = after (truncate_and_reload days w) (marked profile)

unfoldable pub check_replay : List Day → Bool → Answer → Result (Unit {0})
check_replay days confirmed answer = do
  raise_if (length days == 0) empty_lake
  raise_if (not (length (filter is_unknown days) == 0)) unknown_partition
  confirm_or_abort confirmed answer

unfoldable pub replay : Ident → Bool → Answer → World → Ran Totals
replay profile confirmed answer w =
    replay_confirmed profile (lake_days w.lake) w (check_replay (lake_days w.lake) confirmed answer)
