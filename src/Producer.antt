-- ===== src/Producer.antt =====
-- producer/config.py and producer/generate.py: the checks on a profile, and the ingest times and
-- re-sends of the generated stream. A fraction is in millionths, a range of amounts in cents, one of
-- minutes in thousandths of a minute, of which each is 60 milliseconds. Python's generator is not code
-- of the repository: `rng.random()` is a number of millionths among the arguments, and `rng.uniform` a
-- parameter, a function of a random number and the bounds of a range.
pub mod Stream
use ctv_attribution_pipeline.Base.{
  ℕ, ◌+◌, ◌*◌, Bool, true, false, not, ◌&&◌, ◌||◌, Option, none, some, List, [], ◌∷◌, ◌++◌, map,
  ◌==◌, ltb, leb, if◌then◌else◌, Result, ok, err, ◌>>=◌, validation, unknown_profile,
}
use ctv_attribution_pipeline.Sort.Stable.{sort_by}
use ctv_attribution_pipeline.Dict.{Dict, lookup}
use ctv_attribution_pipeline.Model.{Ident, Instant}

abbrev pub one : ℕ
one = 1_000_000

-- `_check_ordered`
abbrev is_ordered : ℕ × ℕ → Bool
is_ordered pair = leb pair.0 pair.1

pub record GraphConfig : Type 0 where
  pub n_households : ℕ
  pub devices_per_household : ℕ × ℕ
  pub ips_per_household : ℕ × ℕ
  pub shared_ip_fraction : ℕ

unfoldable pub graph_is_valid : GraphConfig → Bool
graph_is_valid c =
    (ltb 0 c.n_households && leb c.shared_ip_fraction one)
    && (is_ordered c.devices_per_household && is_ordered c.ips_per_household)

pub record LateConfig : Type 0 where
  pub fraction : ℕ
  pub minutes : ℕ × ℕ

unfoldable pub late_is_valid : LateConfig → Bool
late_is_valid c = leb c.fraction one && is_ordered c.minutes

pub record EventsConfig : Type 0 where
  pub n_exposures : ℕ
  pub events_per_hour : ℕ
  pub caused_conversion_rate : ℕ
  pub organic_conversions : ℕ
  pub conversion_delay : ℕ × ℕ
  pub purchase_fraction : ℕ
  pub revenue_range : ℕ × ℕ
  pub late : LateConfig
  pub duplicate_fraction : ℕ
  pub unknown_device_fraction : ℕ
  pub co_view_multiplier : Dict ℕ

unfoldable pub events_is_valid : EventsConfig → Bool
events_is_valid c =
    ((ltb 0 c.n_exposures && ltb 0 c.events_per_hour)
      && (leb c.caused_conversion_rate one && leb c.purchase_fraction one))
    && ((leb c.duplicate_fraction one && leb c.unknown_device_fraction one)
        && (late_is_valid c.late && (is_ordered c.conversion_delay && is_ordered c.revenue_range)))

pub record Profile : Type 0 where
  pub name : Ident
  pub seed : ℕ
  pub sim_start : Instant
  pub n_campaigns : ℕ
  pub spend_range : ℕ × ℕ
  pub app_ids : List Ident
  pub genres : List Ident
  pub graph : GraphConfig
  pub events : EventsConfig

unfoldable pub profile_is_valid : Profile → Bool
profile_is_valid p =
    (ltb 0 p.n_campaigns && is_ordered p.spend_range)
    && (graph_is_valid p.graph && events_is_valid p.events)

-- `load_profile`, over the profiles of the directory by name
unfoldable pub load_profile : Ident → Dict Profile → Result Profile
load_profile name profiles = elim (lookup name profiles) [
  | none ↦ err unknown_profile
  | some p ↦ if profile_is_valid p then ok p else err validation
]

-- ON_TIME_MAX_JITTER_S, in milliseconds
abbrev on_time_max_jitter : ℕ
on_time_max_jitter = 60_000

-- `_ingest_time`: an event is late if the random number `draw` lies below the fraction of late events,
-- which is not drawn where none is late; the delay is drawn with the random number `u`
unfoldable pub ingest_time_of : (ℕ → ℕ → ℕ → ℕ) → Instant → LateConfig → ℕ → ℕ → Instant
ingest_time_of uniform event_time late draw u =
    event_time
    + (if ltb 0 late.fraction && ltb draw late.fraction
        then uniform u (60 * late.minutes.0) (60 * late.minutes.1)
        else uniform u 1_000 on_time_max_jitter)

-- an arrival slot: its instant, the event's identifier, and whether it is a re-send
pub record Slot {ℓ} (E : Type ℓ) : Type ℓ where
  pub at : Instant
  pub ident : Ident
  pub again : ℕ
  pub event : E

-- the order of `(t[0], _event_id(t[2]), t[1])`
unfoldable pub slot_le {ℓ} : {E : Type ℓ} → Slot E → Slot E → Bool
slot_le a b =
    ltb a.at b.at
    || (a.at == b.at && (ltb a.ident b.ident || (a.ident == b.ident && leb a.again b.again)))

-- The events' identifiers and ingest times, and the draw from a range.
module _ {ℓ} {E : Type ℓ} (ident_of : E → Ident) (ingest_of : E → Instant)
    (uniform : ℕ → ℕ → ℕ → ℕ) where
  abbrev pub first_slot : E → Slot E
  first_slot e = record { at = ingest_of e; ident = ident_of e; again = 0; event = e }

  abbrev pub second_slot : E → ℕ → Slot E
  second_slot e u = record {
    at = ingest_of e + uniform u 10_000 300_000;
    ident = ident_of e;
    again = 1;
    event = e;
  }

  -- the re-sends, with two random numbers for each event: whether it is sent again, and when
  unfoldable pub resend_slots : ℕ → List E → List (ℕ × ℕ) → List (Slot E)
  resend_slots fraction [] draws = []
  resend_slots fraction (e ∷ es) [] = []
  resend_slots fraction (e ∷ es) ((draw, u) ∷ draws) =
      let rest = resend_slots fraction es draws in
      if ltb 0 fraction && ltb draw fraction then second_slot e u ∷ rest else rest

  unfoldable pub with_duplicates : ℕ → List E → List (ℕ × ℕ) → List E
  with_duplicates fraction events draws =
      map (λ (s : Slot E). s.event)
        (sort_by slot_le (map first_slot events ++ resend_slots fraction events draws))
