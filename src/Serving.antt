-- ===== src/Serving.antt =====
-- The serving tables (clickhouse/ddl.sql) and lake/load_serving.py, which loads a day of the lake into
-- them and records the rollup keys that the day touches. A statement of SQL is the function of the
-- tables that it states; a statement adds a part to a log and takes none away. `batched` inserts make
-- one log. Money sums are exact, as the decimals of the statements are.
pub mod Marks
pub mod Rollup
use ctv_attribution_pipeline.Base.{
  ℕ, ◌+◌, ◌/◌, ◌*◌, Bool, true, false, not, ◌&&◌, ◌||◌, Option, none, some, List, [], ◌∷◌, ◌++◌,
  map, ◌==◌, ltb, leb, if◌then◌else◌, filter, length, max, Result, ok, err, ◌>>=◌,
}
use ctv_attribution_pipeline.Table.{Pair, same_pair, final, find}
use ctv_attribution_pipeline.Model.{Ident, Instant, Exposure, AttributedConversion}
use ctv_attribution_pipeline.Lake.{Lake, Day, day_of, read_exposures_for_days, read_current}

abbrev pub hour_ms : ℕ
hour_ms = 3_600_000

-- `toStartOfHour`, as the number of the hour
abbrev pub hour_of : Instant → ℕ
hour_of t = t / hour_ms

-- a row of `campaign_hourly`
pub record HourlyRow : Type 0 where
  pub campaign_id : Ident
  pub hour : ℕ
  pub spend : ℕ
  pub exposures : ℕ
  pub attributed_conversions : ℕ
  pub purchases : ℕ
  pub site_visits : ℕ
  pub revenue : ℕ
  pub reported_at : Instant

-- a row of `rollup_dirty` or of `rollup_refreshed`
pub record Mark : Type 0 where
  pub campaign_id : Ident
  pub hour : ℕ
  pub version : Instant

-- a fraction, or null where the denominator is zero
abbrev pub Rate : Type 0
Rate = Option (ℕ × ℕ)

-- a row of `report_snapshots`; the period is the one sentinel
pub record Snapshot : Type 0 where
  pub reported_at : Instant
  pub campaign_id : Ident
  pub spend : ℕ
  pub revenue : ℕ
  pub conversions : ℕ
  pub purchases : ℕ
  pub exposures : ℕ
  pub roas : Rate
  pub cpa : Rate
  pub cvr : Rate
  pub site_visit_rate : Rate
  pub snapshot_version : Instant

-- the logs of the tables
pub record Tables : Type 0 where
  pub exposures_landed : List Exposure
  pub attributed_conversions : List AttributedConversion
  pub campaign_hourly : List HourlyRow
  pub rollup_dirty : List Mark
  pub rollup_refreshed : List Mark
  pub report_snapshots : List Snapshot
  pub eval_meta : List Ident

-- `order by (campaign_id, event_time, exposure_id)`
abbrev pub Triple : Type 0
Triple = ℕ × Pair

abbrev pub same_triple : Triple → Triple → Bool
same_triple a b = a.0 == b.0 && same_pair a.1 b.1

abbrev pub exposure_key : Exposure → Triple
exposure_key e = (e.campaign_id, (e.event_time, e.exposure_id))

abbrev pub no_version : Exposure → ℕ
no_version e = 0

abbrev pub same_ident : Ident → Ident → Bool
same_ident a b = a == b

abbrev pub conversion_key : AttributedConversion → Ident
conversion_key a = a.conversion_id

abbrev pub attributed_version : AttributedConversion → ℕ
attributed_version a = a.processed_at

abbrev pub mark_key : Mark → Pair
mark_key m = (m.campaign_id, m.hour)

abbrev pub mark_version : Mark → ℕ
mark_version m = m.version

-- `exposures_landed final`, `attributed_conversions final`, `rollup_dirty final`, `rollup_refreshed final`
unfoldable pub landed : Tables → List Exposure
landed t = final same_triple exposure_key no_version t.exposures_landed

unfoldable pub current : Tables → List AttributedConversion
current t = final same_ident conversion_key attributed_version t.attributed_conversions

unfoldable pub dirty : Tables → List Mark
dirty t = final same_pair mark_key mark_version t.rollup_dirty

unfoldable pub refreshed : Tables → List Mark
refreshed t = final same_pair mark_key mark_version t.rollup_refreshed

-- `a.exposure_id = e.exposure_id` and `a.attributed = 1`; null equals nothing
abbrev pub is_exposure : Option Ident → Exposure → Bool
is_exposure none e = false
is_exposure (some i) e = i == e.exposure_id

abbrev pub credited_to : Exposure → AttributedConversion → Bool
credited_to e a = a.attributed && is_exposure a.exposure_id e

abbrev pub key_of : Exposure → Pair
key_of e = (e.campaign_id, hour_of e.event_time)

-- the marks of a group by (campaign_id, hour) with the greatest version: one row for each key
unfoldable pub add_mark : Mark → List Mark → List Mark
add_mark m [] = m ∷ []
add_mark m (x ∷ xs) =
    if same_pair (mark_key m) (mark_key x)
    then record x { version = max x.version m.version } ∷ xs
    else x ∷ add_mark m xs

unfoldable pub group_marks : List Mark → List Mark → List Mark
group_marks groups [] = groups
group_marks groups (m ∷ ms) = group_marks (add_mark m groups) ms

abbrev pub mark_of : Exposure → Instant → Mark
mark_of e version = record {
  campaign_id = e.campaign_id;
  hour = hour_of e.event_time;
  version = version;
}

-- one mark for each conversion credited to an exposure, by its processing time
unfoldable pub credit_marks : List Exposure → List AttributedConversion → List Mark
credit_marks [] convs = []
credit_marks (e ∷ es) convs =
    map (λ (a : AttributedConversion). mark_of e a.processed_at) (filter (credited_to e) convs)
    ++ credit_marks es convs

abbrev pub on_day : Day → Exposure → Bool
on_day day e = day_of e.event_time == day

-- `_DIRTY_FROM_EXPOSURES` and `_DIRTY_FROM_EXPOSURE_CREDITS`
unfoldable pub record_dirty_exposure_keys : Day → Tables → Tables
record_dirty_exposure_keys day t =
    let today = filter (on_day day) (landed t) in
    record t {
      rollup_dirty =
          (t.rollup_dirty ++ group_marks [] (map (λ (e : Exposure). mark_of e e.ingest_time) today))
          ++ group_marks [] (credit_marks today (current t));
    }

-- `_DIRTY_FROM_ATTRIBUTED`
unfoldable pub record_dirty_attributed_keys : Day → Tables → Tables
record_dirty_attributed_keys day t =
    let today = filter (λ (a : AttributedConversion). day_of a.event_time == day) (current t) in
    record t { rollup_dirty = t.rollup_dirty ++ group_marks [] (credit_marks (landed t) today) }

unfoldable pub insert_exposures : List Exposure → Tables → Tables
insert_exposures rows t = record t { exposures_landed = t.exposures_landed ++ rows }

unfoldable pub insert_attributed : List AttributedConversion → Tables → Tables
insert_attributed rows t = record t { attributed_conversions = t.attributed_conversions ++ rows }

-- the number of rows loaded, and the tables
unfoldable pub load_exposures_day : Day → Lake → Tables → ℕ × Tables
load_exposures_day day lake t =
    let rows = read_exposures_for_days (day ∷ []) lake in
    (length rows, record_dirty_exposure_keys day (insert_exposures rows t))

-- a row that the lake refuses to read stops the load before it inserts
unfoldable pub load_attributed_day : Day → Lake → Tables → Result (ℕ × Tables)
load_attributed_day day lake t = do
  rows ← read_current (some (day ∷ [])) lake
  ok (length rows, record_dirty_attributed_keys day (insert_attributed rows t))
