-- ===== src/Attribute/Streaming.antt =====
-- The streaming pass of streaming/attribute.py over one household: the arrival order, the watermark, and
-- per event the release of pending conversions before the eviction of exposures. A datetime below the
-- least one is an OverflowError, which the round raises before anything else.
pub mod Arrival
pub mod Parity
pub mod Occupancy
use ctv_attribution_pipeline.Base.{
  ℕ, ◌+◌, ◌-◌, Bool, true, false, ◌&&◌, ◌||◌, Option, none, some, List, [], ◌∷◌, ◌++◌, ◌==◌, ltb,
  leb, if◌then◌else◌, filter, length, max, Result, ok, err, ◌>>=◌, ◌>>◌, raise_if, overflow,
}
use ctv_attribution_pipeline.Sort.Stable.{sort_by}
use ctv_attribution_pipeline.Dict.{Dict}
use ctv_attribution_pipeline.Model.{Ident, Instant, Exposure, ResolvedConversion}
use ctv_attribution_pipeline.Attribute.LastTouch.{Candidate, attribute_household}

-- `("exp", e)` or `("res", r)`
pub data Event : Type 0 where
  exp : Exposure → Event
  res : ResolvedConversion → Event

abbrev pub event_time_of : Event → Instant
event_time_of (exp e) = e.event_time
event_time_of (res r) = r.event_time

abbrev pub ingest_time_of : Event → Instant
ingest_time_of (exp e) = e.ingest_time
ingest_time_of (res r) = r.ingest_time

-- "exp" is below "res"
abbrev kind_of : Event → ℕ
kind_of (exp e) = 0
kind_of (res r) = 1

abbrev pub ident_of : Event → Ident
ident_of (exp e) = e.exposure_id
ident_of (res r) = r.conversion_id

-- the order of `_arrival_key`, `(ingest_time, kind, ident)`
abbrev pub arrival_le : Event → Event → Bool
arrival_le a b =
    ltb (ingest_time_of a) (ingest_time_of b)
    || (ingest_time_of a == ingest_time_of b
        && (ltb (kind_of a) (kind_of b)
            || (kind_of a == kind_of b && leb (ident_of a) (ident_of b))))

-- `event_time - allowed_lateness` below the least datetime
abbrev pub check_watermark : Instant → ℕ → Result (Unit {0})
check_watermark event_time allowed_lateness = raise_if (ltb event_time allowed_lateness) overflow

-- what it returns where that does not raise
abbrev pub event_time_watermark : Option Instant → Instant → ℕ → Instant
event_time_watermark none event_time allowed_lateness = event_time - allowed_lateness
event_time_watermark (some watermark) event_time allowed_lateness =
    if ltb watermark (event_time - allowed_lateness)
    then event_time - allowed_lateness
    else watermark

pub record StreamState : Type 0 where
  pub peak : ℕ
  pub evicted : ℕ
  pub final : ℕ

pub record StreamResult : Type 0 where
  pub candidates : List Candidate
  pub state : StreamState

-- the loop's variables
pub record Pass : Type 0 where
  pub exposures : List Exposure
  pub pending : List ResolvedConversion
  pub out : List Candidate
  pub watermark : Option Instant
  pub peak : ℕ
  pub evicted : ℕ

abbrev pub start : Pass
start = record { exposures = []; pending = []; out = []; watermark = none; peak = 0; evicted = 0 }

abbrev pub buffer_exposure : Event → List Exposure → List Exposure
buffer_exposure (exp e) exposures = exposures ++ e ∷ []
buffer_exposure (res r) exposures = exposures

abbrev pub buffer_pending : Event → List ResolvedConversion → List ResolvedConversion
buffer_pending (exp e) pending = pending
buffer_pending (res r) pending = pending ++ r ∷ []

module _ (window : ℕ) (candidates : Dict (List Ident)) where
  -- `for conv in …: out.extend(attribute_household(exposures, [conv], window, candidates))`
  unfoldable pub release :
      List Exposure → List ResolvedConversion → List Candidate → Result (List Candidate)
  release exposures [] out = ok out
  release exposures (conv ∷ rest) out = do
    rows ← attribute_household exposures (conv ∷ []) window candidates
    release exposures rest (out ++ rows)

  -- One round of the loop. With nothing pending, or nothing due, the two filters change nothing, so
  -- the guards `if pending` and `if released` need no branch.
  unfoldable pub step : ℕ → Pass → Event → Result Pass
  step allowed_lateness s ev =
      let watermark = event_time_watermark s.watermark (event_time_of ev) allowed_lateness in
      let exposures = buffer_exposure ev s.exposures in
      let pending = buffer_pending ev s.pending in
      let keep = filter (λ e. leb watermark (e.event_time + window)) exposures in
      do
        check_watermark (event_time_of ev) allowed_lateness
        out ← release exposures (filter (λ c. leb c.event_time watermark) pending) s.out
        ok (record {
          exposures = keep;
          pending = filter (λ c. ltb watermark c.event_time) pending;
          out = out;
          watermark = some watermark;
          peak = max s.peak (length keep);
          evicted = s.evicted + (length exposures - length keep);
        })

  unfoldable pub steps : ℕ → Pass → List Event → Result Pass
  steps allowed_lateness s [] = ok s
  steps allowed_lateness s (ev ∷ evs) = do
    s' ← step allowed_lateness s ev
    steps allowed_lateness s' evs

  -- what follows the loop: every conversion that is still pending, and the counts
  unfoldable pub flush : Pass → Result StreamResult
  flush s = do
    out ← release s.exposures s.pending s.out
    ok (record {
      candidates = out;
      state = record { peak = s.peak; evicted = s.evicted; final = length s.exposures };
    })

  unfoldable pub attribute_household_streaming : List Event → ℕ → Result StreamResult
  attribute_household_streaming events allowed_lateness = do
    s ← steps allowed_lateness start (sort_by arrival_le events)
    flush s
