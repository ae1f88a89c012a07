-- ===== src/Attribute/Streaming/Parity.antt =====
-- The evicting pass against the rule over the whole household. `release_order` is the schedule of the
-- watermark alone, with no exposure in it; the pass attributes the conversions in that order, each as
-- if nothing had been evicted.
pub mod Schedule
pub mod Touches
pub mod Releases
pub mod Invariant
use mathlib.Core.List.Permᴰ
use mathlib.Core.List.{Permᴰ}
use ctv_attribution_pipeline.Base.{
  ℕ, ◌+◌, ◌-◌, ◌≡◌, ◌≤◌, ◌<◌, refl, sym, ap, ◌∙◌, Bool, true, false, ◌||◌, ◌&&◌, Option, none, some,
  List, [], ◌∷◌, ◌++◌, arith, ==_iff, ◌==◌, leb, ltb, if◌then◌else◌, filter, length, All,
  All-filter, All-append, All-map, ◌>>◌, Result, Error, ok, err, max, ◌>>=◌, map_ok, map_all, inl,
  inr, Result-cases, Bool-cases, filter-append,
}
use mathlib.Core.List.{append_assoc, append-nil}
use ctv_attribution_pipeline.Sort.Stable.{sort_by, sort_by-perm, All-sort_by}
use ctv_attribution_pipeline.Dict.{Dict}
use ctv_attribution_pipeline.Model.{Ident, Instant, Exposure, ResolvedConversion}
use ctv_attribution_pipeline.Attribute.LastTouch.{Candidate, attribute_one, attribute_household}
use ctv_attribution_pipeline.Attribute.LastTouch.Winner.{touched}
use ctv_attribution_pipeline.Attribute.LastTouch.Local.{Agree, in_window, attribute_household-eq}
use ctv_attribution_pipeline.Attribute.Streaming.{
  Event, exp, res, event_time_of, arrival_le, event_time_watermark, check_watermark, StreamState,
  StreamResult, Pass, start, buffer_exposure, buffer_pending, release, step, steps, flush,
  attribute_household_streaming,
}
use ctv_attribution_pipeline.Attribute.Streaming.Arrival.{
  InTolerance, Ahead, arrival-Ahead, exposures_of, conversions_of,
}
use ctv_attribution_pipeline.Attribute.Streaming.Parity.Schedule.{order_from, release_order}
use ctv_attribution_pipeline.Attribute.Streaming.Parity.Schedule.{due, waits, release_order-perm}
use ctv_attribution_pipeline.Attribute.Streaming.Parity.Touches.{
  touched-append, touched-keep, touched-perm, touches, touched-cons, touched-buffer,
  untouched_ahead,
}
use ctv_attribution_pipeline.Attribute.Streaming.Parity.Releases.{map_all-append, release-eq}
use ctv_attribution_pipeline.Attribute.Streaming.Parity.Invariant.{
  Passed, Holds, Holds-step, Agree-due, Agree-flush, All-buffer,
}

-- the state after a round that released `out`
abbrev next : ℕ → ℕ → Pass → Event → List Candidate → Pass
next lateness window s ev out =
    let watermark = event_time_watermark s.watermark (event_time_of ev) lateness in
    let exposures = buffer_exposure ev s.exposures in
    let keep = filter (λ e. leb watermark (e.event_time + window)) exposures in
    record {
      exposures = keep;
      pending = filter (waits watermark) (buffer_pending ev s.pending);
      out = out;
      watermark = some watermark;
      peak = max s.peak (length keep);
      evicted = s.evicted + (length exposures - length keep);
    }

candidates-made :
    (st : StreamState) (r : Result (List Candidate))
    → map_ok
        (λ (q : StreamResult). q.candidates)
        (r >>= λ out. ok (record { candidates = out; state = st }))
      ≡ r
candidates-made st (ok out) = refl
candidates-made st (err x) = refl

module _ (lateness window : ℕ) (cands : Dict (List Ident)) (all : List Exposure) where
  abbrev outcome : Result Pass → Result (List Candidate)
  outcome r = map_ok (λ (q : StreamResult). q.candidates) (r >>= λ s. flush window cands s)

  -- what attributing some conversions against every exposure adds to `out`
  abbrev expected : List Candidate → List ResolvedConversion → Result (List Candidate)
  expected out cs = attribute_household all cs window cands >>= λ rows. ok (out ++ rows)

  release-expected :
      (es : List Exposure) (cs : List ResolvedConversion) (out : List Candidate)
      → All (λ c. Agree c window es all) cs
      → release window cands es cs out ≡ expected out cs
  release-expected es cs out agree =
      release-eq window cands es cs out
      ∙ ap (λ r. r >>= λ rows. ok (out ++ rows))
          (attribute_household-eq es all window cands cs agree)

  expected-append :
      (out rows : List Candidate) (xs ys : List ResolvedConversion)
      → attribute_household all xs window cands ≡ ok rows
      → expected out (xs ++ ys) ≡ expected (out ++ rows) ys
  unfolding attribute_household
  expected-append out rows xs ys h =
      rw (map_all-append (attribute_one all window cands) xs ys, h)
        (regroup (map_all (attribute_one all window cands) ys))
    where
      regroup :
          (r : Result (List Candidate))
          → ((r >>= λ b. ok (rows ++ b)) >>= λ c. ok (out ++ c))
            ≡ (r >>= λ c. ok ((out ++ rows) ++ c))
      regroup (ok b) = ap ok (sym (append_assoc out rows b))
      regroup (err x) = refl

  expected-err :
      (out : List Candidate) (xs ys : List ResolvedConversion) (x : Error)
      → attribute_household all xs window cands ≡ err x
      → expected out (xs ++ ys) ≡ err x
  unfolding attribute_household
  expected-err out xs ys x h = rw (map_all-append (attribute_one all window cands) xs ys, h) refl

  flush-eq :
      (s : Pass)
      → Holds window all s.exposures s.pending s.watermark []
      → outcome (ok s) ≡ expected s.out s.pending
  unfolding flush
  flush-eq s h =
      candidates-made _ (release window cands s.exposures s.pending s.out)
      ∙ release-expected s.exposures s.pending s.out
          (Agree-flush lateness window all s.exposures s.pending s.pending s.watermark h h.waiting)

  check_watermark-ok :
      (ev : Event)
      → lateness ≤ event_time_of ev
      → check_watermark (event_time_of ev) lateness ≡ ok tt
  check_watermark-ok ev dated = ground (arith, dated)

  step-eq :
      (s : Pass) (ev : Event) (evs : List Event)
      → lateness ≤ event_time_of ev
      → Ahead lateness (ev ∷ evs)
      → Holds window all s.exposures s.pending s.watermark (ev ∷ evs)
      → let w = event_time_watermark s.watermark (event_time_of ev) lateness in
        step window cands lateness s ev ≡ (
          expected s.out (filter (due w) (buffer_pending ev s.pending)) >>= λ out.
          ok (next lateness window s ev out))
  unfolding step
  step-eq s ev evs dated ahead h =
      let w = event_time_watermark s.watermark (event_time_of ev) lateness in
      let released = filter (due w) (buffer_pending ev s.pending) in
      ap
        (λ r. r >>= λ _.
          (release window cands (buffer_exposure ev s.exposures) released s.out >>= λ out.
          ok (next lateness window s ev out)))
        (check_watermark-ok ev dated)
      ∙ ap (λ r. r >>= λ out. ok (next lateness window s ev out))
          (release-expected (buffer_exposure ev s.exposures) released s.out (
            Agree-due lateness window all s.exposures s.pending s.watermark ev evs
              (buffer_pending ev s.pending) ahead h
              (All-buffer lateness s.watermark ev s.pending h.waiting h.coming.0)))

  steps-eq :
      (evs : List Event) (s : Pass)
      → All (λ y. lateness ≤ event_time_of y) evs
      → Ahead lateness evs
      → Holds window all s.exposures s.pending s.watermark evs
      → outcome (steps window cands lateness s evs)
        ≡ expected s.out (order_from lateness s.watermark s.pending evs)
  unfolding steps order_from
  steps-eq [] s dated ahead h = flush-eq s h
  steps-eq (ev ∷ evs) s dated ahead h =
      let w = event_time_watermark s.watermark (event_time_of ev) lateness in
      let released = filter (due w) (buffer_pending ev s.pending) in
      let rest =
        order_from lateness (some w) (filter (waits w) (buffer_pending ev s.pending)) evs in
      elim (Result-cases (attribute_household all released window cands)) [
        | inr (x, e) ↦
            rw (step-eq s ev evs dated.0 ahead h, e) (sym (expected-err s.out released rest x e))
        | inl (rows, e) ↦
            rw (step-eq s ev evs dated.0 ahead h, e)
              (steps-eq evs (next lateness window s ev (s.out ++ rows)) dated.1 ahead.1
                  (Holds-step lateness window all s.exposures s.pending s.watermark ev evs ahead h)
                ∙ sym (expected-append s.out rows released rest e))
      ]

-- Eviction costs nothing: where every event is ingested after its event time and within the allowed
-- lateness, and no event time lies below that lateness, the streaming pass over a household returns
-- (or raises) what the rule over the whole household does, where nothing is evicted, for its
-- conversions in the order in which the watermark releases them.
pub streaming-parity :
    (lateness window : ℕ) (cands : Dict (List Ident)) (events : List Event)
    → All (InTolerance lateness) events
    → map_ok
        (λ (q : StreamResult). q.candidates)
        (attribute_household_streaming window cands events lateness)
      ≡ attribute_household (exposures_of events) (release_order lateness events) window cands
unfolding attribute_household_streaming release_order touched
streaming-parity lateness window cands events tolerated =
    steps-eq lateness window cands (exposures_of events) (sort_by arrival_le events) start
      (All-map (InTolerance lateness) (λ y. lateness ≤ event_time_of y) (λ y t. t.dated) _
        (All-sort_by arrival_le (InTolerance lateness) events tolerated))
      (arrival-Ahead lateness events tolerated)
      (record {
        kept = λ t i r. sym (touched-perm t i (sort_by-perm arrival_le events));
        waiting = tt;
        coming = nothing_yet (sort_by arrival_le events);
      })
    ∙ nothing_before (
        attribute_household (exposures_of events)
          (order_from lateness none [] (sort_by arrival_le events)) window cands)
  where
    nothing_yet : (evs : List Event) → All (λ y. Passed none (event_time_of y)) evs
    nothing_yet [] = tt
    nothing_yet (ev ∷ evs) = (tt, nothing_yet evs)

    nothing_before : (r : Result (List Candidate)) → (r >>= λ rows. ok ([] ++ rows)) ≡ r
    nothing_before (ok rows) = refl
    nothing_before (err x) = refl
