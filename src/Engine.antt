-- ===== src/Engine.antt =====
-- streaming/dataflow.py and streaming/metrics.py: the engine over drained streams. The topics, the
-- environment and the metrics server are inputs and outputs: the drained rows, the value of
-- ENGINE_ALLOWED_LATENESS_MINUTES and whether ENGINE_DEDUP is off come as arguments, and the counters
-- are a record that is passed along.
pub mod Counters
pub mod Rows
pub mod Buckets
pub mod Groups
pub mod Parity
pub mod Resolved
pub mod Total
use ctv_attribution_pipeline.Base.{
  ℕ, ◌+◌, ◌-◌, ◌*◌, Bool, true, false, Option, none, some, List, [], ◌∷◌, ◌++◌, map, ltb, ◌==◌,
  if◌then◌else◌, length, max, maximum, Result, ok, err, ◌>>=◌,
}
use ctv_attribution_pipeline.Dict.{Dict, append_at, values}
use ctv_attribution_pipeline.Model.{
  Ident, Exposure, ResolvedConversion, Conversion, AttributedConversion, Household,
}
use ctv_attribution_pipeline.Resolve.{ResolveMetrics, resolve_conversions}
use ctv_attribution_pipeline.Attribute.Dedup.{Deduped, dedup_streams}
use ctv_attribution_pipeline.Attribute.Candidates.{
  one_row_per_conversion, candidate_households_by_conversion,
}
use ctv_attribution_pipeline.Attribute.LastTouch.{Candidate}
use ctv_attribution_pipeline.Attribute.Streaming.{
  Event, exp, res, StreamState, StreamResult, attribute_household_streaming,
}
use ctv_attribution_pipeline.Attribute.Oracle.{hot_window, default_lateness, sort_rows}

-- the counters and gauges of streaming/metrics.py; `join_state_peak` is the module variable
pub record EngineMetrics : Type 0 where
  pub processed : ℕ
  pub attributed : ℕ
  pub unattributed : ℕ
  pub assists : ℕ
  pub ambiguous_deferred : ℕ
  pub dedup_suppressed : ℕ
  pub exposures_evicted : ℕ
  pub join_state_peak : ℕ
  pub join_state_size : ℕ
  pub join_state_current : ℕ
  pub watermark_lag : ℕ

unfoldable pub observe : AttributedConversion → EngineMetrics → EngineMetrics
observe row m =
    if row.attributed
    then record m {
      processed = m.processed + 1;
      attributed = m.attributed + 1;
      assists = m.assists + length row.assists;
    }
    else record m {
      processed = m.processed + 1;
      unattributed = m.unattributed + 1;
      ambiguous_deferred =
          if ltb 1 row.candidate_count then m.ambiguous_deferred + 1 else m.ambiguous_deferred;
    }

unfoldable pub observe_state : StreamState → EngineMetrics → EngineMetrics
observe_state state m =
    let peak = max m.join_state_peak state.peak in
    record m {
      exposures_evicted = m.exposures_evicted + state.evicted;
      join_state_peak = peak;
      join_state_size = peak;
      join_state_current = state.final;
    }

unfoldable pub reset_join_state_peak : EngineMetrics → EngineMetrics
reset_join_state_peak m = record m {
  join_state_peak = 0;
  join_state_size = 0;
  join_state_current = 0;
}

unfoldable pub observe_rows : List Candidate → EngineMetrics → EngineMetrics
observe_rows [] m = m
observe_rows (c ∷ cs) m = observe_rows cs (observe c.row m)

-- `int(minutes)` minutes, if the variable is set and not empty
unfoldable pub allowed_lateness : Option ℕ → ℕ
allowed_lateness none = default_lateness
allowed_lateness (some minutes) = minutes * 60_000

-- the buckets of `run_attribution`: exposures first, then the one row of each conversion
unfoldable pub bucket_exposures : Dict (List Event) → List Exposure → Dict (List Event)
bucket_exposures events [] = events
bucket_exposures events (e ∷ es) = bucket_exposures (append_at e.household_id (exp e) events) es

unfoldable pub bucket_resolved : Dict (List Event) → List ResolvedConversion → Dict (List Event)
bucket_resolved events [] = events
bucket_resolved events (r ∷ rs) = bucket_resolved (append_at r.household_id (res r) events) rs

-- the pass over each household's events
unfoldable pub run_households :
    ℕ
    → Dict (List Ident)
    → List (List Event)
    → EngineMetrics
    → Result (List AttributedConversion × EngineMetrics)
run_households lateness candidates [] m = ok ([], m)
run_households lateness candidates (events ∷ rest) m = do
  result ← attribute_household_streaming hot_window candidates events lateness
  (rows, m') ←
      run_households lateness candidates rest
        (observe_rows result.candidates (observe_state result.state m))
  ok (map (λ c. c.row) result.candidates ++ rows, m')

unfoldable pub run_attribution :
    List Exposure
    → List ResolvedConversion
    → ℕ
    → EngineMetrics
    → Result (List AttributedConversion × EngineMetrics)
run_attribution exposures resolved lateness m =
    let candidates = candidate_households_by_conversion resolved in
    let events =
      bucket_resolved (bucket_exposures [] exposures) (one_row_per_conversion resolved) in
    do (rows, m') ← run_households lateness candidates (values events) m; ok (sort_rows rows, m')

pub record EngineRun : Type 0 where
  pub exposures : List Exposure
  pub rows : List AttributedConversion
  pub resolved : ℕ
  pub suppressed : ℕ

-- `ENGINE_DEDUP=off` passes the streams on as they are
abbrev maybe_dedup : Bool → List Exposure → List ResolvedConversion → Deduped
maybe_dedup true exposures resolved = record {
  exposures = exposures;
  resolved = resolved;
  suppressed = 0;
}
maybe_dedup false exposures resolved = dedup_streams exposures resolved

-- in milliseconds; a row that is ingested before its event counts as zero, where the code has a negative
-- difference
unfoldable pub peak_lateness : List Exposure → List ResolvedConversion → ℕ
peak_lateness exposures resolved =
    max (maximum (map (λ (e : Exposure). e.ingest_time - e.event_time) exposures))
      (maximum (map (λ (r : ResolvedConversion). r.ingest_time - r.event_time) resolved))

-- `run_engine`, from the rows of the three topics
unfoldable pub run_engine :
    List Household
    → List Exposure
    → List Conversion
    → Bool
    → Option ℕ
    → ResolveMetrics
    → EngineMetrics
    → Result (EngineRun × ResolveMetrics × EngineMetrics)
run_engine households exposures_raw conversions dedup_off minutes rm m =
    let (resolved_raw, rm') = resolve_conversions households conversions rm in
    let streams = maybe_dedup dedup_off exposures_raw resolved_raw in
    let m' = record m {
      dedup_suppressed = m.dedup_suppressed + streams.suppressed;
      watermark_lag = peak_lateness streams.exposures streams.resolved;
    } in
    do
      (rows, m'') ← run_attribution streams.exposures streams.resolved (allowed_lateness minutes) m'
      ok (
        record {
          exposures = streams.exposures;
          rows = rows;
          resolved = length streams.resolved;
          suppressed = streams.suppressed;
        },
        rm',
        m'',
      )
