-- ===== src/Serving/Rollup.antt =====
-- reconcile/rollup.py: the rollup `campaign_hourly`, its refresh for the keys that moved, and the report
-- snapshots.
pub mod Groups
pub mod Refresh
pub mod Settled
pub mod Marked
pub mod Fresh
use ctv_attribution_pipeline.Base.{
  ℕ, ◌+◌, Bool, true, false, not, ◌&&◌, ◌||◌, Option, none, some, List, [], ◌∷◌, ◌++◌, map, ◌==◌,
  ltb, leb, if◌then◌else◌, filter, any, length, max, maximum, sum,
}
use ctv_attribution_pipeline.Sort.Sets.{sorted_set}
use ctv_attribution_pipeline.Sort.Stable.{sort_by}
use ctv_attribution_pipeline.Table.{Pair, same_pair, find}
use ctv_attribution_pipeline.Model.{
  Ident, Instant, Exposure, AttributedConversion, ConversionType, site_visit, purchase,
}
use ctv_attribution_pipeline.Reconcile.{is_hot}
use ctv_attribution_pipeline.Serving.{
  HourlyRow, Mark, Snapshot, Rate, Tables, hour_of, key_of, landed, current, dirty, refreshed,
  credited_to, mark_key,
}

abbrev pub hourly_key : HourlyRow → Pair
hourly_key r = (r.campaign_id, r.hour)

abbrev pub hourly_version : HourlyRow → ℕ
hourly_version r = r.reported_at

abbrev pub is_purchase : ConversionType → ℕ
is_purchase purchase = 1
is_purchase site_visit = 0

abbrev pub is_site_visit : ConversionType → ℕ
is_site_visit purchase = 0
is_site_visit site_visit = 1

-- the two selects of `union all`: what an exposure adds, and what a conversion credited to it adds
abbrev pub exposure_part : Exposure → HourlyRow
exposure_part e = record {
  campaign_id = e.campaign_id;
  hour = hour_of e.event_time;
  spend = e.spend;
  exposures = 1;
  attributed_conversions = 0;
  purchases = 0;
  site_visits = 0;
  revenue = 0;
  reported_at = e.ingest_time;
}

abbrev pub credit_part : Exposure → AttributedConversion → HourlyRow
credit_part e a = record {
  campaign_id = e.campaign_id;
  hour = hour_of e.event_time;
  spend = 0;
  exposures = 0;
  attributed_conversions = 1;
  purchases = is_purchase a.conversion_type;
  site_visits = is_site_visit a.conversion_type;
  revenue = a.revenue;
  reported_at = a.processed_at;
}

-- `/*path_filter*/`
abbrev pub on_path : Bool → AttributedConversion → Bool
on_path hot_only a = not hot_only || is_hot a.path

unfoldable pub credit_parts : Bool → List Exposure → List AttributedConversion → List HourlyRow
credit_parts hot_only [] convs = []
credit_parts hot_only (e ∷ es) convs =
    map (credit_part e)
      (filter (λ (a : AttributedConversion). credited_to e a && on_path hot_only a) convs)
    ++ credit_parts hot_only es convs

-- two parts of one group: the sums, and the greatest stamp
unfoldable pub merge : HourlyRow → HourlyRow → HourlyRow
merge r p = record r {
  spend = r.spend + p.spend;
  exposures = r.exposures + p.exposures;
  attributed_conversions = r.attributed_conversions + p.attributed_conversions;
  purchases = r.purchases + p.purchases;
  site_visits = r.site_visits + p.site_visits;
  revenue = r.revenue + p.revenue;
  reported_at = max r.reported_at p.reported_at;
}

-- `group by campaign_id, hour`
unfoldable pub add_part : HourlyRow → List HourlyRow → List HourlyRow
add_part p [] = p ∷ []
add_part p (r ∷ rows) =
    if same_pair (hourly_key p) (hourly_key r) then merge r p ∷ rows else r ∷ add_part p rows

unfoldable pub group_parts : List HourlyRow → List HourlyRow → List HourlyRow
group_parts rows [] = rows
group_parts rows (p ∷ parts) = group_parts (add_part p rows) parts

-- the statement, over the exposures that the filter lets through
unfoldable pub rollup_rows : (Exposure → Bool) → Bool → Tables → List HourlyRow
rollup_rows keep hot_only t =
    let es = filter keep (landed t) in
    group_parts [] (map exposure_part es ++ credit_parts hot_only es (current t))

abbrev pub keep_all : Exposure → Bool
keep_all e = true

-- `_DIRTY_FILTER`
abbrev pub keep_keys : List Pair → Exposure → Bool
keep_keys keys e = any (same_pair (key_of e)) keys

-- `refresh_sql(full=True)`, the whole-table rebuild
unfoldable pub rebuild : Tables → List HourlyRow
rebuild = rollup_rows keep_all false

-- `campaign_hourly_rows`: the aggregate without its stamp
unfoldable pub campaign_hourly_rows : Bool → Tables → List HourlyRow
campaign_hourly_rows hot_only t =
    map (λ (r : HourlyRow). record r { reported_at = 0 }) (rollup_rows keep_all hot_only t)

-- `isNull(r.version) or d.version != r.version`, as the comment on the statement means it: a key without
-- a stamp is dirty. Without `join_use_nulls` such a key has the stamp 1970-01-01, so the statement passes
-- over a key whose rows were all ingested at that instant.
abbrev pub moved : Instant → Option Mark → Bool
moved version none = true
moved version (some r) = not (version == r.version)

abbrev pub is_dirty : List Mark → Mark → Bool
is_dirty seen d = moved d.version (find same_pair mark_key (mark_key d) seen)

-- `order by d.campaign_id, hour_s`
abbrev pub mark_le : Mark → Mark → Bool
mark_le a b =
    ltb a.campaign_id b.campaign_id || (a.campaign_id == b.campaign_id && leb a.hour b.hour)

unfoldable pub dirty_keys : Tables → List Mark
dirty_keys t = sort_by mark_le (filter (is_dirty (refreshed t)) (dirty t))

-- the refresh of some keys: the rows first, then the marks that they were computed against
unfoldable pub refresh_keys : List Mark → Tables → Tables
refresh_keys keys t = record t {
  campaign_hourly = t.campaign_hourly ++ rollup_rows (keep_keys (map mark_key keys)) false t;
  rollup_refreshed = t.rollup_refreshed ++ keys;
}

-- nothing is written when no key is dirty
unfoldable pub refresh_dirty : List Mark → Tables → ℕ × Tables
refresh_dirty [] t = (0, t)
refresh_dirty (m ∷ ms) t = (length (m ∷ ms), refresh_keys (m ∷ ms) t)

unfoldable pub refresh_campaign_hourly : Tables → ℕ × Tables
refresh_campaign_hourly t = refresh_dirty (dirty_keys t) t

-- `_STAMP_ALL_REFRESHED`, after a whole-table rebuild
unfoldable pub stamp_all_refreshed : Tables → Tables
stamp_all_refreshed t = record t { rollup_refreshed = t.rollup_refreshed ++ dirty t }

-- `a / nullIf(b, 0)`
abbrev pub rate : ℕ → ℕ → Rate
rate a b = if b == 0 then none else some (a, b)

abbrev pub of_campaign : Ident → Exposure → Bool
of_campaign c e = e.campaign_id == c

-- `credited`: a row for each conversion credited to an exposure of the list
unfoldable pub credited :
    Bool → List Exposure → List AttributedConversion → List AttributedConversion
credited hot_only [] convs = []
credited hot_only (e ∷ es) convs =
    filter (λ (a : AttributedConversion). credited_to e a && on_path hot_only a) convs
    ++ credited hot_only es convs

abbrev pub max_processed : List AttributedConversion → Instant
max_processed convs = maximum (map (λ (a : AttributedConversion). a.processed_at) convs)

-- `max(ingest_time)` over both landed tables
unfoldable pub max_ingest : Tables → Instant
max_ingest t =
    max (maximum (map (λ (e : Exposure). e.ingest_time) (landed t)))
      (maximum (map (λ (a : AttributedConversion). a.ingest_time) (current t)))

abbrev pub version_of_snapshot : List AttributedConversion → List AttributedConversion → Instant
version_of_snapshot [] all = max_processed all
version_of_snapshot (a ∷ convs) all = max_processed (a ∷ convs)

-- one campaign's row
unfoldable pub snapshot_row : ℕ → Bool → Tables → Ident → Snapshot
snapshot_row offset_ms hot_only t c =
    let es = filter (of_campaign c) (landed t) in
    let cs = credited hot_only es (current t) in
    let spend = sum (map (λ (e : Exposure). e.spend) es) in
    let revenue = sum (map (λ (a : AttributedConversion). a.revenue) cs) in
    let purchases = sum (map (λ (a : AttributedConversion). is_purchase a.conversion_type) cs) in
    let visits = sum (map (λ (a : AttributedConversion). is_site_visit a.conversion_type) cs) in
    record {
      reported_at = max_ingest t + offset_ms;
      campaign_id = c;
      spend = spend;
      revenue = revenue;
      conversions = length cs;
      purchases = purchases;
      exposures = length es;
      roas = rate revenue spend;
      cpa = rate spend purchases;
      cvr = rate (length cs) (length es);
      site_visit_rate = rate visits (length es);
      snapshot_version = version_of_snapshot (credited hot_only (landed t) (current t)) (current t);
    }

-- `group by campaign_id … order by s.campaign_id`
unfoldable pub write_report_snapshot : ℕ → Bool → Tables → Tables
write_report_snapshot offset_ms hot_only t = record t {
  report_snapshots =
      t.report_snapshots
      ++ map (snapshot_row offset_ms hot_only t)
          (sorted_set (map (λ (e : Exposure). e.campaign_id) (landed t)));
}
