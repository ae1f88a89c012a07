-- ===== src/Attribute/Streaming/Parity/Touches.antt =====
-- The touches of buffered, kept and still-coming exposures.
use mathlib.Core.List.{Permᴰ}
use ctv_attribution_pipeline.Base.{
  ℕ, ◌+◌, ◌≡◌, ◌≤◌, ◌<◌, refl, ap, ◌∙◌, Bool, false, ◌||◌, ◌&&◌, List, [], ◌∷◌, ◌++◌, arith, ◌==◌,
  leb, filter, All,
}
use ctv_attribution_pipeline.Model.{Ident, Instant, Exposure}
use ctv_attribution_pipeline.Attribute.LastTouch.Winner.{touched}
use ctv_attribution_pipeline.Attribute.Streaming.{Event, exp, res, event_time_of, buffer_exposure}
use ctv_attribution_pipeline.Attribute.Streaming.Arrival.{exposures_of}

pub touched-append :
    (t : Instant) (i : Ident) (es fs : List Exposure)
    → touched t i (es ++ fs) ≡ (touched t i es || touched t i fs)
unfolding touched
touched-append t i [] fs = refl
touched-append t i (e ∷ es) fs = ground (arith, touched-append t i es fs)

pub touched-keep :
    (t : Instant) (i : Ident) (w window : ℕ) (es : List Exposure)
    → touched t i (filter (λ e. leb w (e.event_time + window)) es)
      ≡ (touched t i es && leb w (t + window))
unfolding touched
touched-keep t i w window [] = refl
touched-keep t i w window (e ∷ es) = ground (arith, touched-keep t i w window es)

abbrev pub touches : Instant → Ident → Event → Bool
touches t i (exp e) = t == e.event_time && i == e.exposure_id
touches t i (res r) = false

pub touched-cons :
    (t : Instant) (i : Ident) (ev : Event) (evs : List Event)
    → touched t i (exposures_of (ev ∷ evs)) ≡ (touches t i ev || touched t i (exposures_of evs))
unfolding touched exposures_of
touched-cons t i (exp e) evs = refl
touched-cons t i (res r) evs = refl

pub touched-perm :
    (t : Instant) (i : Ident) {xs ys : List Event}
    → Permᴰ xs ys
    → touched t i (exposures_of xs) ≡ touched t i (exposures_of ys)
touched-perm t i Permᴰ.nil = refl
touched-perm t i (Permᴰ.cons {a = a} {b = b} {l₁ = l} {l₂ = m} e d) =
    cc (touched-cons t i a l, touched-cons t i b m, ap (touches t i) e, touched-perm t i d)
touched-perm t i (Permᴰ.swap {a = a} {b = b} {a' = a'} {b' = b'} {l = l} e f) =
    rw (← e, ← f)
      (ground (
        arith,
        touched-cons t i a (b ∷ l),
        touched-cons t i b l,
        touched-cons t i b (a ∷ l),
        touched-cons t i a l,
      ))
touched-perm t i (Permᴰ.trans p q) = touched-perm t i p ∙ touched-perm t i q

pub touched-buffer :
    (t : Instant) (i : Ident) (ev : Event) (es : List Exposure)
    → touched t i (buffer_exposure ev es) ≡ (touched t i es || touches t i ev)
unfolding touched
touched-buffer t i (exp e) es = touched-append t i es (e ∷ []) ∙ ground arith
touched-buffer t i (res r) es = ground arith

-- an event that is not at or below an instant has no touch there
pub untouched_ahead :
    (t : Instant) (i : Ident) (w : Instant) (evs : List Event)
    → All (λ y. w < event_time_of y) evs
    → t ≤ w
    → touched t i (exposures_of evs) ≡ false
unfolding touched exposures_of
untouched_ahead t i w [] a h = refl
untouched_ahead t i w (exp e ∷ evs) a h = ground (arith, untouched_ahead t i w evs a.1 h)
untouched_ahead t i w (res r ∷ evs) a h = untouched_ahead t i w evs a.1 h
