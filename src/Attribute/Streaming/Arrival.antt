-- ===== src/Attribute/Streaming/Arrival.antt =====
-- Arrival order and lateness: what a sort by arrival gives the watermark.
use ctv_attribution_pipeline.Base.{
  ℕ, ◌+◌, ◌-◌, ◌≡◌, ◌≤◌, ◌<◌, true, false, List, [], ◌∷◌, arith, All,
}
use ctv_attribution_pipeline.Sort.Stable.{sort_by, Sorted, sort_by-Sorted, All-sort_by}
use ctv_attribution_pipeline.Model.{Exposure, ResolvedConversion}
use ctv_attribution_pipeline.Attribute.Streaming.{
  Event, exp, res, event_time_of, ingest_time_of, arrival_le,
}

arrival_total : (a b : Event) → arrival_le a b ≡ false → arrival_le b a ≡ true
arrival_total (exp a) (exp b) h = ground arith
arrival_total (exp a) (res b) h = ground arith
arrival_total (res a) (exp b) h = ground arith
arrival_total (res a) (res b) h = ground arith

arrival_trans :
    (a b c : Event) → arrival_le a b ≡ true → arrival_le b c ≡ true → arrival_le a c ≡ true
arrival_trans (exp a) (exp b) (exp c) h k = ground arith
arrival_trans (exp a) (exp b) (res c) h k = ground arith
arrival_trans (exp a) (res b) (exp c) h k = ground arith
arrival_trans (exp a) (res b) (res c) h k = ground arith
arrival_trans (res a) (exp b) (exp c) h k = ground arith
arrival_trans (res a) (exp b) (res c) h k = ground arith
arrival_trans (res a) (res b) (exp c) h k = ground arith
arrival_trans (res a) (res b) (res c) h k = ground arith

-- An event that arrives after it happened, within the allowed lateness, and late enough on the
-- calendar for the watermark to be a datetime.
pub record InTolerance (lateness : ℕ) (ev : Event) : Type 0 where
  pub dated : lateness ≤ event_time_of ev
  pub after : event_time_of ev < ingest_time_of ev
  pub late : ingest_time_of ev ≤ event_time_of ev + lateness

module _ (lateness : ℕ) where
  -- no later event lies at or below the watermark of an earlier one
  abbrev pub Ahead : List Event → Type 0
  Ahead [] = Unit
  Ahead (ev ∷ evs) = All (λ y. event_time_of ev - lateness < event_time_of y) evs × Ahead evs

  arrival_ingest : (a b : Event) → arrival_le a b ≡ true → ingest_time_of a ≤ ingest_time_of b
  arrival_ingest a b h = ground arith

  ahead_of :
      (x : Event) (evs : List Event)
      → InTolerance lateness x
      → All (InTolerance lateness) evs
      → All (λ y. arrival_le x y ≡ true) evs
      → All (λ y. event_time_of x - lateness < event_time_of y) evs
  ahead_of x [] tx ts s = tt
  ahead_of x (y ∷ evs) tx ts s =
      let later = arrival_ingest x y s.0 in
      let ty = ts.0 in (ahead_one later tx.dated tx.after ty.late, ahead_of x evs tx ts.1 s.1)
    where
      ahead_one :
          ingest_time_of x ≤ ingest_time_of y
          → lateness ≤ event_time_of x
          → event_time_of x < ingest_time_of x
          → ingest_time_of y ≤ event_time_of y + lateness
          → event_time_of x - lateness < event_time_of y
      ahead_one a b c d = omega arith

  Sorted-Ahead :
      (evs : List Event) → Sorted arrival_le evs → All (InTolerance lateness) evs → Ahead evs
  Sorted-Ahead [] s t = tt
  Sorted-Ahead (ev ∷ evs) s t = (ahead_of ev evs t.0 t.1 s.0, Sorted-Ahead evs s.1 t.1)

  pub arrival-Ahead :
      (events : List Event) → All (InTolerance lateness) events → Ahead (sort_by arrival_le events)
  arrival-Ahead events t =
      Sorted-Ahead (sort_by arrival_le events)
        (sort_by-Sorted arrival_le arrival_total arrival_trans events)
        (All-sort_by arrival_le (InTolerance lateness) events t)

-- the exposures and the conversions among the events
unfoldable pub exposures_of : List Event → List Exposure
exposures_of [] = []
exposures_of (exp e ∷ evs) = e ∷ exposures_of evs
exposures_of (res r ∷ evs) = exposures_of evs

unfoldable pub conversions_of : List Event → List ResolvedConversion
conversions_of [] = []
conversions_of (exp e ∷ evs) = conversions_of evs
conversions_of (res r ∷ evs) = r ∷ conversions_of evs
