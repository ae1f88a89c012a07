-- ===== src/Tests/Data.antt =====
-- The rows that the tests share.
use ctv_attribution_pipeline.Base.{ℕ, ◌*◌, Bool, false, true, Option, some, [], ◌∷◌}
use ctv_attribution_pipeline.Model.{
  Ident, Instant, Exposure, Conversion, purchase, ResolvedConversion, device, ip_fallback,
  Household, tv, phone,
}
use ctv_attribution_pipeline.Engine.{EngineMetrics}
use ctv_attribution_pipeline.Attribute.LastTouch.{Candidate, attributed_row}

abbrev pub hour : ℕ
hour = 3_600_000

-- an exposure of a household, with its event and its ingest time
abbrev pub shown : Ident → Ident → Instant → Instant → Exposure
shown i h event_time ingest_time = record {
  exposure_id = i;
  event_time = event_time;
  ingest_time = ingest_time;
  campaign_id = 1;
  household_id = h;
  ip = 9;
  app_id = 1;
  program_genre = 1;
  spend = 250;
}

abbrev pub bought : Ident → Instant → Instant → Conversion
bought i event_time ingest_time = record {
  conversion_id = i;
  event_time = event_time;
  ingest_time = ingest_time;
  device_id = 70;
  ip = 9;
  conversion_type = purchase;
  revenue = 2_599;
  order_id = some 1;
}

-- a conversion of a household, by the device graph or as one of several owners of an address
abbrev pub certain : Ident → Ident → Instant → Instant → ResolvedConversion
certain i h event_time ingest_time = record {
  conversion = bought i event_time ingest_time;
  household_id = h;
  resolution = device;
  ambiguous = false;
  candidate_count = 1;
}

abbrev pub fanned : Ident → Ident → ResolvedConversion
fanned i h = record {
  conversion = bought i (220 * hour) (221 * hour);
  household_id = h;
  resolution = ip_fallback;
  ambiguous = true;
  candidate_count = 2;
}

abbrev pub early : Exposure
early = shown 11 5 (210 * hour) (211 * hour)

abbrev pub late : Exposure
late = shown 12 5 (214 * hour) (219 * hour)

abbrev pub sale : ResolvedConversion
sale = certain 21 5 (215 * hour) (216 * hour)

-- what a candidate household scores
abbrev pub scored : Ident → Option Ident → Bool → Option Instant → Candidate
scored h e b t = record {
  row = attributed_row (fanned 31 h) e [] b (2 ∷ 3 ∷ []);
  last_touch_time = t;
}

abbrev pub home : Household
home = record {
  household_id = 5;
  devices = record { device_id = 70; kind = phone } ∷ record { device_id = 71; kind = tv } ∷ [];
  ips = 9 ∷ [];
}

abbrev pub neighbour : Household
neighbour = record { household_id = 3; devices = []; ips = 9 ∷ 8 ∷ [] }

-- counters before any row
abbrev pub idle : EngineMetrics
idle = record {
  processed = 0;
  attributed = 0;
  unattributed = 0;
  assists = 0;
  ambiguous_deferred = 0;
  dedup_suppressed = 0;
  exposures_evicted = 0;
  join_state_peak = 0;
  join_state_size = 0;
  join_state_current = 0;
  watermark_lag = 0;
}
