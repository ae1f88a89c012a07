-- ===== src/Lake.antt =====
-- lake/land_exposures.py, lake/land_attributed.py, lake/read_attributed.py and lake/read_exposures.py:
-- the append-only log of record. What DuckDB computes from a query of these files is written as the
-- function of the log that the query states. Instants are whole milliseconds of UTC, so `_to_utc_ms`
-- changes none, and a day is a number of whole days.
pub mod Current
pub mod Days
pub mod Filters
pub mod Reads
use ctv_attribution_pipeline.Base.{
  ℕ, ◌+◌, ◌*◌, ◌/◌, Bool, true, false, ◌&&◌, ◌||◌, Option, none, some, List, [], ◌∷◌, ◌++◌, map,
  ◌==◌, ltb, leb, if◌then◌else◌, filter, any, mem, Result, err, map_all, pre_phase17,
}
use ctv_attribution_pipeline.Sort.Sets.{sorted_set}
use ctv_attribution_pipeline.Sort.Stable.{sort_by, by_key}
use ctv_attribution_pipeline.Dict.{Dict, lookup, insert, values}
use ctv_attribution_pipeline.Model.{
  Ident, Instant, Exposure, AttributedConversion, AttributionPath, hot, reconciled, validate,
}
use ctv_attribution_pipeline.Attribute.Dedup.{dedup_by_id}
use ctv_attribution_pipeline.Attribute.Oracle.{exposures_by_household, sort_rows}

abbrev pub day_ms : ℕ
day_ms = 86_400_000

abbrev pub Day : Type 0
Day = ℕ

abbrev pub day_of : Instant → Day
day_of t = t / day_ms

-- `{_to_utc_ms(t).date().isoformat() for t in times}`: a set of days, whose canonical form is its members
-- in ascending order (the code's set has no order, and its callers sort it or test membership)
unfoldable pub touched_days : List Instant → List Day
touched_days times = sorted_set (map day_of times)

pub record Lake : Type 0 where
  pub exposures : List Exposure
  pub attributed : List AttributedConversion

unfoldable pub land : List Exposure → Lake → Lake × List Day
land [] lake = (lake, [])
land (e ∷ es) lake = (
  record lake { exposures = lake.exposures ++ e ∷ es },
  touched_days (map (λ (x : Exposure). x.event_time) (e ∷ es)),
)

unfoldable pub land_attributed : List AttributedConversion → Lake → Lake × List Day
land_attributed [] lake = (lake, [])
land_attributed (r ∷ rs) lake = (
  record lake { attributed = lake.attributed ++ r ∷ rs },
  touched_days (map (λ (x : AttributedConversion). x.event_time) (r ∷ rs)),
)

-- `_row`: a row without the candidate set is refused before the model is built
unfoldable pub read_row : AttributedConversion → Result AttributedConversion
read_row r =
    if ltb 1 r.candidate_count && (elim r.candidate_households [ [] ↦ true | _ ∷ _ ↦ false ])
    then err pre_phase17
    else validate r

-- 'reconciled' > 'hot'
abbrev path_rank : AttributionPath → ℕ
path_rank hot = 0
path_rank reconciled = 1

-- `order by processed_at desc, path desc`: `r` goes before `cur`
abbrev pub supersedes : AttributedConversion → AttributedConversion → Bool
supersedes r cur =
    ltb cur.processed_at r.processed_at
    || (cur.processed_at == r.processed_at && ltb (path_rank cur.path) (path_rank r.path))

abbrev pub takes_over : AttributedConversion → Option AttributedConversion → Bool
takes_over r none = true
takes_over r (some cur) = supersedes r cur

-- `partition by conversion_id … = 1`; a tie beyond the path goes to the first row of the scan
unfoldable pub current_from :
    Dict AttributedConversion → List AttributedConversion → Dict AttributedConversion
current_from d [] = d
current_from d (r ∷ rs) =
    current_from (if takes_over r (lookup r.conversion_id d) then insert r.conversion_id r d else d)
      rs

-- `day_ranges_predicate`: the event time lies in one of the days; no filter where none is asked for
abbrev pub in_days : Option (List Day) → Instant → Bool
in_days none t = true
in_days (some days) t = any (λ d. leb (d * day_ms) t && ltb t (d * day_ms + day_ms)) days

-- `current_query`; `distinct` drops copies of a row, of which at most one is kept anyway
unfoldable pub current_rows : Option (List Day) → Lake → List AttributedConversion
current_rows days lake = sort_rows (
    values (
      current_from []
        (filter (λ (r : AttributedConversion). in_days days r.event_time) lake.attributed)))

unfoldable pub read_current : Option (List Day) → Lake → Result (List AttributedConversion)
read_current days lake = map_all read_row (current_rows days lake)

-- equality of the selected columns
abbrev pub same_exposure : Exposure → Exposure → Bool
same_exposure a b =
    (a.exposure_id == b.exposure_id
      && (a.event_time == b.event_time && a.ingest_time == b.ingest_time))
    && ((a.campaign_id == b.campaign_id && (a.household_id == b.household_id && a.ip == b.ip))
        && (a.app_id == b.app_id && (a.program_genre == b.program_genre && a.spend == b.spend)))

-- `select distinct …`
abbrev pub distinct_exposures : List Exposure → List Exposure
distinct_exposures rows = (dedup_by_id same_exposure (λ (e : Exposure). e) rows).0

abbrev pub at_least : Option Instant → Instant → Bool
at_least none t = true
at_least (some lo) t = leb lo t

abbrev pub before : Option Instant → Instant → Bool
before none t = true
before (some hi) t = ltb t hi

abbrev pub exposure_selected : List Ident → Option Instant → Option Instant → Exposure → Bool
exposure_selected households lo hi e =
    mem e.household_id households && (at_least lo e.event_time && before hi e.event_time)

unfoldable pub read_exposures_by_household :
    List Ident → Option Instant → Option Instant → Lake → Dict (List Exposure)
read_exposures_by_household [] lo hi lake = []
read_exposures_by_household (h ∷ hs) lo hi lake = exposures_by_household [] (
    sort_by (by_key (λ (e : Exposure). e.exposure_id))
      (distinct_exposures (filter (exposure_selected (h ∷ hs) lo hi) lake.exposures)))

-- `order by campaign_id, event_time, exposure_id`
abbrev landed_le : Exposure → Exposure → Bool
landed_le a b =
    ltb a.campaign_id b.campaign_id
    || (a.campaign_id == b.campaign_id
        && (ltb a.event_time b.event_time
            || (a.event_time == b.event_time && leb a.exposure_id b.exposure_id)))

unfoldable pub read_exposures_for_days : List Day → Lake → List Exposure
read_exposures_for_days [] lake = []
read_exposures_for_days (d ∷ ds) lake = sort_by landed_le (
    distinct_exposures
      (filter (λ (e : Exposure). in_days (some (d ∷ ds)) e.event_time) lake.exposures))
