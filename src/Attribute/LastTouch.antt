-- ===== src/Attribute/LastTouch.antt =====
-- `_attributed`, `last_touch` and `attribute_household` of streaming/attribute.py. Building a row runs
-- the model's validator, so each of them may raise.
pub mod Local
pub mod Winner
pub mod Outcome
pub mod Total
use ctv_attribution_pipeline.Base.{
  ℕ, ◌-◌, Bool, true, false, ◌&&◌, ◌||◌, not, Option, none, some, List, [], ◌∷◌, map, ◌==◌, ltb,
  leb, if◌then◌else◌, filter, Result, ok, err, ◌>>=◌, ◌>>◌, raise_if, overflow, map_all,
}
use ctv_attribution_pipeline.Sort.Sets.{sorted_set}
use ctv_attribution_pipeline.Dict.{Dict}
use ctv_attribution_pipeline.Model.{
  Ident, Instant, Exposure, ResolvedConversion, AttributedConversion, hot, Reason, ambiguous_ip,
  state_miss, validate,
}
use ctv_attribution_pipeline.Attribute.Candidates.{candidates_of}

pub record Candidate : Type 0 where
  pub row : AttributedConversion
  pub last_touch_time : Option Instant

abbrev reason_of : Bool → ResolvedConversion → Option Reason
reason_of true conv = none
reason_of false conv = some (if ltb 1 conv.candidate_count then ambiguous_ip else state_miss)

-- the row that `_attributed` hands to the model
abbrev pub attributed_row :
    ResolvedConversion → Option Ident → List Ident → Bool → List Ident → AttributedConversion
attributed_row conv exposure_id assists attributed candidate_households = record {
  resolved = conv;
  exposure_id = exposure_id;
  assists = assists;
  attributed = attributed;
  path = hot;
  processed_at = conv.ingest_time;
  reason = reason_of attributed conv;
  candidate_households = candidate_households;
}

-- `Candidate(_attributed(…), last_touch_time)`
unfoldable pub candidate :
    ResolvedConversion
    → Option Ident
    → List Ident
    → Bool
    → List Ident
    → Option Instant
    → Result Candidate
candidate conv exposure_id assists attributed candidate_households time = do
  row ← validate (attributed_row conv exposure_id assists attributed candidate_households)
  ok (record { row = row; last_touch_time = time })

-- in the window and not after the conversion, where the start of the window is a datetime: `last_touch`
-- raises before it asks where it is not
abbrev pub is_eligible : ResolvedConversion → ℕ → Exposure → Bool
is_eligible conv window e =
    leb (conv.event_time - window) e.event_time && leb e.event_time conv.event_time

-- `(e.event_time, e.exposure_id)`, compared as Python compares tuples
abbrev touch_lt : Exposure → Exposure → Bool
touch_lt a b =
    ltb a.event_time b.event_time
    || (a.event_time == b.event_time && ltb a.exposure_id b.exposure_id)

-- `max(e ∷ es, key=…)` returns the first item whose key none exceeds
unfoldable pub latest_touch : Exposure → List Exposure → Exposure
latest_touch e [] = e
latest_touch e (x ∷ xs) = latest_touch (if touch_lt e x then x else e) xs

-- `sorted({e.exposure_id for e in eligible} - {winner.exposure_id})`
unfoldable pub assist_ids : Ident → List Exposure → List Ident
assist_ids winner eligible =
    sorted_set (filter (λ i. not (i == winner)) (map (λ e. e.exposure_id) eligible))

unfoldable pub touch_eligible : ResolvedConversion → List Ident → List Exposure → Result Candidate
touch_eligible conv hhs [] = candidate conv none [] false hhs none
touch_eligible conv hhs (e ∷ es) =
    let winner = latest_touch e es in
    candidate conv (some winner.exposure_id) (assist_ids winner.exposure_id (e ∷ es)) true hhs
      (some winner.event_time)

-- `conv.event_time - window` below the least datetime is an OverflowError
abbrev pub check_dated : ResolvedConversion → ℕ → Result (Unit {0})
check_dated conv window = raise_if (ltb conv.event_time window) overflow

unfoldable pub last_touch : List Exposure → ResolvedConversion → ℕ → List Ident → Result Candidate
last_touch exposures conv window candidate_households = do
  check_dated conv window
  touch_eligible conv candidate_households (filter (is_eligible conv window) exposures)

-- one round of the comprehension in `attribute_household`
unfoldable pub attribute_one :
    List Exposure → ℕ → Dict (List Ident) → ResolvedConversion → Result Candidate
attribute_one exposures window candidates conv =
    if ltb 1 conv.candidate_count
    then (do hhs ← candidates_of conv candidates; candidate conv none [] false hhs none)
    else last_touch exposures conv window []

unfoldable pub attribute_household :
    List Exposure → List ResolvedConversion → ℕ → Dict (List Ident) → Result (List Candidate)
attribute_household exposures resolved window candidates =
    map_all (attribute_one exposures window candidates) resolved
