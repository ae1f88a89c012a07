-- ===== src/Tests/Serving.antt =====
-- Loads, a reconciliation and replays of a lake with one exposure and one conversion that missed it.
use mathlib.Core.Path.{subst}
use ctv_attribution_pipeline.Base.{
  ℕ, ◌+◌, ◌*◌, ◌≡◌, refl, Error, ap, sym, ◌∙◌, ok-eq, ◌⊎◌, true, false, none, some, [], ◌∷◌, ok,
  err, aborted, pre_phase17,
}
use ctv_attribution_pipeline.Model.{Exposure, AttributedConversion}
use ctv_attribution_pipeline.Attribute.LastTouch.{attributed_row}
use ctv_attribution_pipeline.Lake.{Lake, Day, day_ms}
use ctv_attribution_pipeline.Reconcile.{PassCounts}
use ctv_attribution_pipeline.LakeRoot.{no_tty}
use ctv_attribution_pipeline.Serving.{HourlyRow, Tables}
use ctv_attribution_pipeline.Orchestration.{
  World, Ran, Totals, materialize_load, run, run_reconcile, replay,
}
use ctv_attribution_pipeline.Orchestration.Settled.{no_tables, materialize_load-settles}
use ctv_attribution_pipeline.Reconcile.Hashes.{run_pass-eq}
use ctv_attribution_pipeline.Orchestration.Parity.{IsKnown, run_reconcile-run}
use ctv_attribution_pipeline.Orchestration.Steps.{Reaches}
use ctv_attribution_pipeline.Orchestration.Refusals.{
  IsUnreadable, Refusal, Permitted, replay-refuses,
}
use ctv_attribution_pipeline.Orchestration.Replayed.{replay-serves-rebuild}
use ctv_attribution_pipeline.Orchestration.{write_marker}
use ctv_attribution_pipeline.Serving.Rollup.{rebuild}
use ctv_attribution_pipeline.Serving.Rollup.Refresh.{served, rebuilt}
use ctv_attribution_pipeline.Sort.Sets.{sorted_set, insert_new}
use ctv_attribution_pipeline.Sort.Stable.{sort_by, insert_by}
use ctv_attribution_pipeline.Dict.{lookup, insert}
use ctv_attribution_pipeline.Attribute.Oracle.{sort_rows}
use ctv_attribution_pipeline.Attribute.Dedup.{dedup_by_id, dedup_from}
use ctv_attribution_pipeline.Model.{validate}
use ctv_attribution_pipeline.Lake.{
  read_current, current_rows, current_from, read_row, read_exposures_for_days,
}
use ctv_attribution_pipeline.Table.{final, final_from, find, upsert}
use ctv_attribution_pipeline.Serving.{
  load_attributed_day, load_exposures_day, add_mark, group_marks, credit_marks, current, landed,
  dirty, refreshed, insert_attributed, insert_exposures, record_dirty_attributed_keys,
  record_dirty_exposure_keys,
}
use ctv_attribution_pipeline.Serving.Rollup.{
  add_part, group_parts, credit_parts, merge, rollup_rows, dirty_keys, refresh_keys, refresh_dirty,
  refresh_campaign_hourly,
}
use ctv_attribution_pipeline.Orchestration.{
  is_unknown, day_partitions, day_keys, load_exposures, load_attributed, load_day, load_days,
  refresh,
}
use ctv_attribution_pipeline.Attribute.Candidates.{candidate_households_by_conversion, fanouts}
use ctv_attribution_pipeline.Dict.{get_or, append_at}
use ctv_attribution_pipeline.Attribute.LastTouch.{
  last_touch, touch_eligible, candidate, latest_touch, assist_ids,
}
use ctv_attribution_pipeline.Attribute.Oracle.{exposures_by_household}
use ctv_attribution_pipeline.Lake.{read_exposures_by_household, land_attributed, touched_days}
use ctv_attribution_pipeline.Reconcile.{
  reconciled_at_for, latest_credit, pick_household, expand_one, expand_candidates,
  group_by_conversion, score_group, reconcile_groups, reconcile, check_candidate, check_all,
  lake_candidates, candidate_days, by_bucket, update, read_buckets, bucketed_exposures, recover_day,
  recover_days, run_pass,
}
use ctv_attribution_pipeline.Serving.Rollup.{max_ingest}
use ctv_attribution_pipeline.Orchestration.{check_replay, lake_days, truncate_and_reload, truncate}
use ctv_attribution_pipeline.LakeRoot.{confirm_or_abort}
use ctv_attribution_pipeline.Tests.Data.{hour, shown, certain, bought, fanned}

abbrev today : Day
today = 739_828

abbrev midnight : ℕ
midnight = today * day_ms

abbrev ad : Exposure
ad = shown 11 5 (midnight + 10 * hour) (midnight + 11 * hour)

abbrev missed : AttributedConversion
missed =
    attributed_row (certain 21 5 (midnight + 15 * hour) (midnight + 16 * hour)) none [] false []

abbrev record_of_day : Lake
record_of_day = record { exposures = ad ∷ []; attributed = missed ∷ [] }

abbrev untouched : World
untouched = record { lake = record_of_day; tables = no_tables }

abbrev one_load : Totals
one_load = record { exposures = 1; attributed = 1; rollup_keys = some 1 }

returned : {A : Type 0} (r : Ran A) (a : A) → r.0 ≡ ok a → r ≡ (ok a, r.1)
returned r a h = ap (λ x. (x, r.1)) h

loaded : (materialize_load (today ∷ []) untouched).0 ≡ ok one_load
unfolding sorted_set insert_new sort_by insert_by lookup insert sort_rows dedup_by_id dedup_from
    validate read_current current_rows current_from read_row read_exposures_for_days final
    final_from find upsert load_attributed_day load_exposures_day add_mark group_marks credit_marks
    current landed dirty refreshed insert_attributed insert_exposures record_dirty_attributed_keys
    record_dirty_exposure_keys add_part group_parts credit_parts merge rollup_rows dirty_keys
    refresh_keys refresh_dirty refresh_campaign_hourly day_partitions day_keys load_exposures
    load_attributed load_day load_days refresh materialize_load
loaded = refl

abbrev loaded_day : World
loaded_day = (materialize_load (today ∷ []) untouched).1

materialize_load-settles_example : dirty_keys loaded_day.tables ≡ []
materialize_load-settles_example =
    materialize_load-settles record_of_day untouched loaded_day today [] one_load Reaches.begin
      (returned (materialize_load (today ∷ []) untouched) one_load loaded)

-- the household is the bucket
abbrev pass : Ran PassCounts
pass = run (λ h. h) loaded_day

abbrev one_recovered : PassCounts
one_recovered = record { candidates = 1; recovered = 1; still_missing = 0 }

passed : pass.0 ≡ ok one_recovered
unfolding sorted_set insert_new sort_by insert_by lookup insert sort_rows dedup_by_id dedup_from
    validate read_current current_rows current_from read_row read_exposures_for_days final
    final_from find upsert load_attributed_day load_exposures_day add_mark group_marks credit_marks
    current landed dirty refreshed insert_attributed insert_exposures record_dirty_attributed_keys
    record_dirty_exposure_keys add_part group_parts credit_parts merge rollup_rows dirty_keys
    refresh_keys refresh_dirty refresh_campaign_hourly day_partitions day_keys load_exposures
    load_attributed load_day load_days refresh materialize_load candidate_households_by_conversion
    fanouts get_or append_at last_touch touch_eligible candidate latest_touch assist_ids
    exposures_by_household read_exposures_by_household land_attributed touched_days
    reconciled_at_for latest_credit pick_household expand_one expand_candidates group_by_conversion
    score_group reconcile_groups reconcile check_candidate check_all lake_candidates candidate_days
    by_bucket update read_buckets bucketed_exposures recover_day recover_days run_pass max_ingest
    run
passed = refl

candidates_today : candidate_days loaded_day.lake ≡ ok (today ∷ [])
unfolding sorted_set insert_new sort_by insert_by lookup insert sort_rows validate read_current
    current_rows current_from read_row check_candidate check_all lake_candidates candidate_days
    load_attributed_day load_exposures_day load_exposures load_attributed load_day load_days refresh
    materialize_load day_partitions day_keys refresh_campaign_hourly
candidates_today = refl

today_known : is_unknown today ≡ false
unfolding day_partitions day_keys
today_known = refl

run_reconcile-run_example :
    (totals : Totals) × (run_reconcile (λ h. h) none loaded_day ≡ (ok totals, pass.1))
run_reconcile-run_example =
    run_reconcile-run (λ h. h) loaded_day pass.1 one_recovered
      (λ days h. subst IsKnown (ok-eq (sym candidates_today ∙ h)) (today_known, tt))
      (returned pass one_recovered passed)

-- tables with an exposure that was landed and marked
abbrev marked_tables : Tables
marked_tables = record_dirty_exposure_keys today (insert_exposures (ad ∷ []) no_tables)

abbrev ad_hour : HourlyRow
ad_hour = record {
  campaign_id = 1;
  hour = today * 24 + 10;
  spend = 250;
  exposures = 1;
  attributed_conversions = 0;
  purchases = 0;
  site_visits = 0;
  revenue = 0;
  reported_at = midnight + 11 * hour;
}

abbrev replayed : Ran Totals
replayed = replay 1 true no_tty loaded_day

replay_returns : replayed.0 ≡ ok one_load
unfolding sorted_set insert_new sort_by insert_by lookup insert sort_rows dedup_by_id dedup_from
    validate read_current current_rows current_from read_row read_exposures_for_days final
    final_from find upsert load_attributed_day load_exposures_day add_mark group_marks credit_marks
    current landed dirty refreshed insert_attributed insert_exposures record_dirty_attributed_keys
    record_dirty_exposure_keys add_part group_parts credit_parts merge rollup_rows dirty_keys
    refresh_keys refresh_dirty refresh_campaign_hourly day_partitions day_keys load_exposures
    load_attributed load_day load_days refresh materialize_load replay check_replay lake_days
    truncate_and_reload truncate confirm_or_abort
replay_returns = refl

replay_rebuilt : rebuilt replayed.1.tables (1, today * 24 + 10) ≡ some ad_hour
unfolding rebuild write_marker sorted_set insert_new sort_by insert_by lookup insert sort_rows
    dedup_by_id dedup_from validate read_current current_rows current_from read_row
    read_exposures_for_days final final_from find upsert load_attributed_day load_exposures_day
    add_mark group_marks credit_marks current landed dirty refreshed insert_attributed
    insert_exposures record_dirty_attributed_keys record_dirty_exposure_keys add_part group_parts
    credit_parts merge rollup_rows dirty_keys refresh_keys refresh_dirty refresh_campaign_hourly
    day_partitions day_keys load_exposures load_attributed load_day load_days refresh
    materialize_load replay check_replay lake_days truncate_and_reload truncate confirm_or_abort
replay_rebuilt = refl

replay-serves-rebuild_example : served replayed.1.tables (1, today * 24 + 10) ≡ some ad_hour
replay-serves-rebuild_example =
    replay-serves-rebuild 1 true no_tty loaded_day replayed.1 one_load (1, today * 24 + 10) ad_hour
      (returned replayed one_load replay_returns) replay_rebuilt

unconfirmed : (replay 1 false no_tty loaded_day).0 ≡ err aborted
unfolding sorted_set insert_new sort_by insert_by lookup insert sort_rows dedup_by_id dedup_from
    validate read_current current_rows current_from read_row read_exposures_for_days final
    final_from find upsert load_attributed_day load_exposures_day add_mark group_marks credit_marks
    current landed dirty refreshed insert_attributed insert_exposures record_dirty_attributed_keys
    record_dirty_exposure_keys add_part group_parts credit_parts merge rollup_rows dirty_keys
    refresh_keys refresh_dirty refresh_campaign_hourly day_partitions day_keys load_exposures
    load_attributed load_day load_days refresh materialize_load replay check_replay lake_days
    truncate_and_reload truncate confirm_or_abort
unconfirmed = refl

replay-refuses_example :
    let r = replay 1 false no_tty loaded_day in
    ((e : Error) × (r ≡ (err e, loaded_day)) × Refusal (lake_days loaded_day.lake) false no_tty e)
    ⊎ (Permitted (lake_days loaded_day.lake) false no_tty
        × (((totals : Totals) × (r.0 ≡ ok totals))
            ⊎ ((e : Error) × (r.0 ≡ err e) × IsUnreadable e)))
replay-refuses_example = replay-refuses 1 false no_tty loaded_day

-- a row of the record from before the candidate sets were kept
abbrev old_row : AttributedConversion
old_row =
    attributed_row (record (fanned 31 5) { conversion = bought 31 midnight midnight }) none [] false
      []

abbrev old_record : World
old_record = record loaded_day { lake = record { exposures = []; attributed = old_row ∷ [] } }

-- the reload meets it after the tables are truncated
old_row_found :
    ((replay 1 true no_tty old_record).0 ≡ err pre_phase17)
    × ((replay 1 true no_tty old_record).1.tables.attributed_conversions ≡ [])
    × ((replay 1 true no_tty old_record).1.tables.campaign_hourly ≡ [])
unfolding sorted_set insert_new sort_by insert_by lookup insert sort_rows dedup_by_id dedup_from
    validate read_current current_rows current_from read_row read_exposures_for_days final
    final_from find upsert load_attributed_day load_exposures_day add_mark group_marks credit_marks
    current landed dirty refreshed insert_attributed insert_exposures record_dirty_attributed_keys
    record_dirty_exposure_keys add_part group_parts credit_parts merge rollup_rows dirty_keys
    refresh_keys refresh_dirty refresh_campaign_hourly day_partitions day_keys load_exposures
    load_attributed load_day load_days refresh materialize_load replay check_replay lake_days
    truncate_and_reload truncate confirm_or_abort
old_row_found = (refl, refl, refl)

-- an exposure of the same hour that is landed later, with an earlier ingest time
abbrev laggard : World
laggard = record loaded_day {
  lake = record record_of_day {
    exposures = ad ∷ shown 12 5 (midnight + 10 * hour) (midnight + 10 * hour) ∷ [];
  };
}

abbrev caught_up : World
caught_up = (materialize_load (today ∷ []) laggard).1

-- the mark of its key does not rise, so the load leaves the rollup as it was
laggard_unserved :
    (served caught_up.tables (1, today * 24 + 10) ≡ some ad_hour)
    × (rebuilt caught_up.tables (1, today * 24 + 10)
        ≡ some (record ad_hour { spend = 500; exposures = 2 }))
unfolding rebuild sorted_set insert_new sort_by insert_by lookup insert sort_rows dedup_by_id
    dedup_from validate read_current current_rows current_from read_row read_exposures_for_days
    final final_from find upsert load_attributed_day load_exposures_day add_mark group_marks
    credit_marks current landed dirty refreshed insert_attributed insert_exposures
    record_dirty_attributed_keys record_dirty_exposure_keys add_part group_parts credit_parts merge
    rollup_rows dirty_keys refresh_keys refresh_dirty refresh_campaign_hourly day_partitions
    day_keys load_exposures load_attributed load_day load_days refresh materialize_load
laggard_unserved = (refl, refl)

run_pass-eq_example :
    run_pass (λ h. h) (midnight + 16 * hour) record_of_day
    ≡ run_pass (λ h. 0) (midnight + 16 * hour) record_of_day
run_pass-eq_example = run_pass-eq (λ h. h) (λ h. 0) (midnight + 16 * hour) record_of_day
