-- ===== src/Attribute/Streaming/Parity/Invariant.antt =====
-- The invariant of the streaming pass: nothing that can still match has been evicted.
use ctv_attribution_pipeline.Base.{
  ℕ, ◌+◌, ◌-◌, ◌≡◌, ◌<◌, refl, Bool, true, false, ◌||◌, Option, none, some, List, [], ◌∷◌, arith,
  leb, filter, All, All-append, inl, inr, Bool-cases,
}
use ctv_attribution_pipeline.Model.{Ident, Instant, Exposure, ResolvedConversion}
use ctv_attribution_pipeline.Attribute.LastTouch.Winner.{touched}
use ctv_attribution_pipeline.Attribute.LastTouch.Local.{Agree, in_window}
use ctv_attribution_pipeline.Attribute.Streaming.{
  Event, exp, res, event_time_of, event_time_watermark, buffer_exposure, buffer_pending,
}
use ctv_attribution_pipeline.Attribute.Streaming.Arrival.{Ahead, exposures_of}
use ctv_attribution_pipeline.Attribute.Streaming.Parity.Schedule.{due, waits}
use ctv_attribution_pipeline.Attribute.Streaming.Parity.Touches.{
  touched-keep, touched-cons, touched-buffer, untouched_ahead,
}

-- below an instant, once there is a watermark
abbrev pub Passed : Option Instant → Instant → Type 0
Passed none t = Unit
Passed (some w) t = w < t

-- the watermark has not gone past the window that opens at `t`
abbrev recent : ℕ → Option Instant → Instant → Bool
recent window none t = true
recent window (some w) t = leb w (t + window)

All-filter_self :
    (w : Instant) (cs : List ResolvedConversion) → All (λ c. w < c.event_time) (filter (waits w) cs)
All-filter_self w [] = tt
All-filter_self w (c ∷ cs) = ground (arith, All-filter_self w cs)

module _ (lateness : ℕ) where
  Passed-advance :
      (watermark : Option Instant) (x t : Instant)
      → Passed watermark t
      → x - lateness < t
      → event_time_watermark watermark x lateness < t
  Passed-advance none x t p h = h
  Passed-advance (some w) x t p h = ground arith

  All-advance :
      (watermark : Option Instant) (x : Instant) (evs : List Event)
      → All (λ y. Passed watermark (event_time_of y)) evs
      → All (λ y. x - lateness < event_time_of y) evs
      → All (λ y. event_time_watermark watermark x lateness < event_time_of y) evs
  All-advance watermark x [] p h = tt
  All-advance watermark x (y ∷ evs) p h =
      (Passed-advance watermark x (event_time_of y) p.0 h.0, All-advance watermark x evs p.1 h.1)

  pub All-buffer :
      (watermark : Option Instant) (ev : Event) (cs : List ResolvedConversion)
      → All (λ c. Passed watermark c.event_time) cs
      → Passed watermark (event_time_of ev)
      → All (λ c. Passed watermark c.event_time) (buffer_pending ev cs)
  All-buffer watermark (exp e) cs a p = a
  All-buffer watermark (res r) cs a p =
      All-append (λ c. Passed watermark c.event_time) cs (r ∷ []) a (p, tt)

  recent-advance :
      (window : ℕ) (watermark : Option Instant) (x t : Instant)
      → recent window (some (event_time_watermark watermark x lateness)) t ≡ true
      → recent window watermark t ≡ true
  recent-advance window none x t h = refl
  recent-advance window (some w) x t h = ground arith

recent_of_window :
    (window : ℕ) (watermark : Option Instant) (c : ResolvedConversion) (t : Instant)
    → Passed watermark c.event_time
    → in_window c window t ≡ true
    → recent window watermark t ≡ true
recent_of_window window none c t p h = refl
recent_of_window window (some w) c t p h = ground arith

-- What holds before each round: the state and the events still to come hold every touch that the
-- watermark has not passed by a window, and nothing that waits or comes is below the watermark.
pub record Holds (window : ℕ) (all es : List Exposure) (pending : List ResolvedConversion)
    (watermark : Option Instant) (evs : List Event) : Type 0 where
  pub kept :
      (t : Instant) (i : Ident)
      → recent window watermark t ≡ true
      → touched t i all ≡ (touched t i es || touched t i (exposures_of evs))
  pub waiting : All (λ c. Passed watermark c.event_time) pending
  pub coming : All (λ y. Passed watermark (event_time_of y)) evs

module _ (lateness window : ℕ) (all : List Exposure) where
  pub Holds-step :
      (es : List Exposure) (pending : List ResolvedConversion) (watermark : Option Instant)
      (ev : Event) (evs : List Event)
      → Ahead lateness (ev ∷ evs)
      → Holds window all es pending watermark (ev ∷ evs)
      → let w = event_time_watermark watermark (event_time_of ev) lateness in
        Holds window all
          (filter (λ e. leb w (e.event_time + window)) (buffer_exposure ev es))
          (filter (waits w) (buffer_pending ev pending))
          (some w)
          evs
  Holds-step es pending watermark ev evs ahead h =
      let w = event_time_watermark watermark (event_time_of ev) lateness in
      record {
        kept = λ t i r. ground (
          arith,
          h.kept t i (recent-advance lateness window watermark (event_time_of ev) t r),
          touched-cons t i ev evs,
          touched-buffer t i ev es,
          touched-keep t i w window (buffer_exposure ev es),
        );
        waiting = All-filter_self w (buffer_pending ev pending);
        coming = All-advance lateness watermark (event_time_of ev) evs h.coming.1 ahead.0;
      }

  -- every touch in the window of a conversion that is due is in the state when it is released
  pub Agree-due :
      (es : List Exposure) (pending : List ResolvedConversion) (watermark : Option Instant)
      (ev : Event) (evs : List Event) (cs : List ResolvedConversion)
      → Ahead lateness (ev ∷ evs)
      → Holds window all es pending watermark (ev ∷ evs)
      → All (λ c. Passed watermark c.event_time) cs
      → let w = event_time_watermark watermark (event_time_of ev) lateness in
        All (λ c. Agree c window (buffer_exposure ev es) all) (filter (due w) cs)
  Agree-due es pending watermark ev evs [] ahead h p = tt
  Agree-due es pending watermark ev evs (c ∷ cs) ahead h p =
      let w = event_time_watermark watermark (event_time_of ev) lateness in
      let rest = Agree-due es pending watermark ev evs cs ahead h p.1 in
      elim (Bool-cases (leb c.event_time w)) [
        | inr e ↦ rw e rest
        | inl e ↦ rw e ((λ t i q. agree w t i e q), rest)
      ]
    where
      agree :
          (w t : Instant) (i : Ident)
          → leb c.event_time (event_time_watermark watermark (event_time_of ev) lateness) ≡ true
          → in_window c window t ≡ true
          → touched t i (buffer_exposure ev es) ≡ touched t i all
      agree w t i e q = ground (
        arith,
        h.kept t i (recent_of_window window watermark c t p.0 q),
        touched-cons t i ev evs,
        touched-buffer t i ev es,
        untouched_ahead t i (event_time_watermark watermark (event_time_of ev) lateness) evs
            (All-advance lateness watermark (event_time_of ev) evs h.coming.1 ahead.0),
      )

  none_left : (t : Instant) (i : Ident) → touched t i (exposures_of []) ≡ false
  none_left t i = unfold touched exposures_of in refl

  -- at the end of the input nothing is still to come
  pub Agree-flush :
      (es : List Exposure) (pending cs : List ResolvedConversion) (watermark : Option Instant)
      → Holds window all es pending watermark []
      → All (λ c. Passed watermark c.event_time) cs
      → All (λ c. Agree c window es all) cs
  Agree-flush es pending [] watermark h p = tt
  Agree-flush es pending (c ∷ cs) watermark h p = (
    λ t i q.
        ground (arith, h.kept t i (recent_of_window window watermark c t p.0 q), none_left t i),
    Agree-flush es pending cs watermark h p.1,
  )
