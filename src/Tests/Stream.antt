-- ===== src/Tests/Stream.antt =====
-- The producer's profile and stream, at concrete values.
use mathlib.Core.List.{Permᴰ}
use ctv_attribution_pipeline.Base.{ℕ, ◌≡◌, refl, List, [], ◌∷◌, ok}
use ctv_attribution_pipeline.Tests.Data.{early, late}
use ctv_attribution_pipeline.Dict.{lookup}
use ctv_attribution_pipeline.Model.{Exposure}
use ctv_attribution_pipeline.Producer.{
  graph_is_valid, LateConfig, late_is_valid, events_is_valid, Profile, profile_is_valid,
  load_profile, ingest_time_of, with_duplicates,
}
use ctv_attribution_pipeline.Producer.Stream.{resent, with_duplicates-perm}

abbrev three_hours : LateConfig
three_hours = record { fraction = 50_000; minutes = (5_000, 180_000) }

abbrev small : Profile
small = record {
  name = 1;
  seed = 42;
  sim_start = 0;
  n_campaigns = 3;
  spend_range = (100, 900);
  app_ids = 1 ∷ [];
  genres = 1 ∷ 2 ∷ [];
  graph = record {
    n_households = 20;
    devices_per_household = (1, 4);
    ips_per_household = (1, 2);
    shared_ip_fraction = 100_000;
  };
  events = record {
    n_exposures = 200;
    events_per_hour = 60;
    caused_conversion_rate = 200_000;
    organic_conversions = 10;
    conversion_delay = (60_000, 7_200_000);
    purchase_fraction = 300_000;
    revenue_range = (1_000, 9_000);
    late = three_hours;
    duplicate_fraction = 20_000;
    unknown_device_fraction = 100_000;
    co_view_multiplier = (2, 1_500_000) ∷ [];
  };
}

small_run : load_profile 1 ((1, small) ∷ []) ≡ ok small
unfolding load_profile lookup profile_is_valid graph_is_valid events_is_valid late_is_valid
small_run = refl

-- the least value of a range, for every random number
abbrev lowest : ℕ → ℕ → ℕ → ℕ
lowest u low high = low

-- late by five minutes, and on time by a second
late_by_draw : ingest_time_of lowest 5_000 three_hours 20 7 ≡ 305_000
unfolding ingest_time_of
late_by_draw = refl

on_time_by_draw : ingest_time_of lowest 5_000 three_hours 50_000 7 ≡ 6_000
unfolding ingest_time_of
on_time_by_draw = refl

abbrev draws : List (ℕ × ℕ)
draws = (100, 7) ∷ (900_000, 8) ∷ []

with_duplicates-perm_example :
    Permᴰ
      (with_duplicates
        (λ (e : Exposure). e.exposure_id)
        (λ (e : Exposure). e.ingest_time)
        lowest
        20_000
        (early ∷ late ∷ [])
        draws)
      (early ∷ late ∷ early ∷ [])
unfolding resent
with_duplicates-perm_example =
    with_duplicates-perm (λ (e : Exposure). e.exposure_id) (λ (e : Exposure). e.ingest_time) lowest
      20_000 (early ∷ late ∷ []) draws
