-- ===== src/Attribute/Streaming/Occupancy.antt =====
-- The join-state counts of the streaming pass account for every exposure.
use mathlib.Core.List.{Permᴰ}
use ctv_attribution_pipeline.Base.{
  ℕ, suc, ◌+◌, ◌≡◌, ◌≤◌, refl, ap, ◌∙◌, List, [], ◌∷◌, arith, leb, length, length-append,
  length-filter-le, ok, >>=-eq-ok,
}
use ctv_attribution_pipeline.Sort.Stable.{sort_by, sort_by-perm}
use ctv_attribution_pipeline.Dict.{Dict}
use ctv_attribution_pipeline.Model.{Ident, Exposure}
use ctv_attribution_pipeline.Attribute.Streaming.{
  Event, exp, res, event_time_of, arrival_le, event_time_watermark, check_watermark, StreamResult,
  Pass, start, buffer_exposure, step, steps, flush, release, attribute_household_streaming,
}
use ctv_attribution_pipeline.Attribute.Streaming.Arrival.{exposures_of}

length-perm {ℓ} : {A : Type ℓ} {xs ys : List A} → Permᴰ xs ys → length xs ≡ length ys
length-perm Permᴰ.nil = refl
length-perm (Permᴰ.cons e d) = ap suc (length-perm d)
length-perm (Permᴰ.swap e f) = refl
length-perm (Permᴰ.trans p q) = length-perm p ∙ length-perm q

abbrev exposure_count : Event → ℕ
exposure_count (exp e) = 1
exposure_count (res r) = 0

length-exposures_cons :
    (ev : Event) (evs : List Event)
    → length (exposures_of (ev ∷ evs)) ≡ exposure_count ev + length (exposures_of evs)
unfolding exposures_of
length-exposures_cons (exp e) evs = omega arith
length-exposures_cons (res r) evs = omega arith

length-exposures_perm :
    {xs ys : List Event} → Permᴰ xs ys → length (exposures_of xs) ≡ length (exposures_of ys)
length-exposures_perm Permᴰ.nil = refl
length-exposures_perm (Permᴰ.cons {a = a} {b = b} {l₁ = l} {l₂ = m} e d) = omega (
  arith,
  length-exposures_cons a l,
  length-exposures_cons b m,
  ap exposure_count e,
  length-exposures_perm d,
)
length-exposures_perm (Permᴰ.swap {a = a} {b = b} {l = l} e f) =
    rw (← e, ← f)
      (omega (
        arith,
        length-exposures_cons a (b ∷ l),
        length-exposures_cons b l,
        length-exposures_cons b (a ∷ l),
        length-exposures_cons a l,
      ))
length-exposures_perm (Permᴰ.trans p q) = length-exposures_perm p ∙ length-exposures_perm q

length-buffer :
    (ev : Event) (es : List Exposure)
    → length (buffer_exposure ev es) ≡ length es + exposure_count ev
length-buffer (exp e) es = length-append es (e ∷ [])
length-buffer (res r) es = omega arith

-- Every exposure seen so far is held or was evicted, and no more are held than ever were at once.
record Accounts (s : Pass) (seen : ℕ) : Type 0 where
  total : s.evicted + length s.exposures ≡ seen
  held_le : length s.exposures ≤ s.peak
  peak_le : s.peak ≤ seen

module _ (window : ℕ) (cands : Dict (List Ident)) (lateness : ℕ) where
  step-Accounts :
      (s s' : Pass) (ev : Event) (seen : ℕ)
      → step window cands lateness s ev ≡ ok s'
      → Accounts s seen
      → Accounts s' (seen + exposure_count ev)
  unfolding step
  step-Accounts s s' ev seen h a =
      let (_, _, dated) = >>=-eq-ok (check_watermark (event_time_of ev) lateness) _ h in
      let (out, _, made) = >>=-eq-ok (release window cands _ _ s.out) _ dated in
      let w = event_time_watermark s.watermark (event_time_of ev) lateness in
      ground (
        arith,
        made,
        length-buffer ev s.exposures,
        length-filter-le (λ (e : Exposure). leb w (e.event_time + window))
            (buffer_exposure ev s.exposures),
      )

  steps-Accounts :
      (evs : List Event) (s s' : Pass) (seen : ℕ)
      → steps window cands lateness s evs ≡ ok s'
      → Accounts s seen
      → Accounts s' (seen + length (exposures_of evs))
  unfolding steps
  steps-Accounts [] s s' seen h a =
      let none_left : length (exposures_of []) ≡ 0 = unfold exposures_of in refl in
      ground (arith, h, a, none_left)
  steps-Accounts (ev ∷ evs) s s' seen h a =
      let (t, stepped, rest) = >>=-eq-ok (step window cands lateness s ev) _ h in
      ground (
        arith,
        length-exposures_cons ev evs,
        steps-Accounts evs t s' (seen + exposure_count ev) rest
            (step-Accounts s t ev seen stepped a),
      )

  -- At the end of a household's input every exposure is retained or counted as evicted, and the
  -- high-water mark lies between what is retained and how many there were.
  pub streaming_accounts :
      (events : List Event) (r : StreamResult)
      → attribute_household_streaming window cands events lateness ≡ ok r
      → (r.state.evicted + r.state.final ≡ length (exposures_of events))
        × (r.state.final ≤ r.state.peak)
        × (r.state.peak ≤ length (exposures_of events))
  unfolding attribute_household_streaming flush
  streaming_accounts events r h =
      let (s, ran, flushed) =
        >>=-eq-ok (steps window cands lateness start (sort_by arrival_le events)) _ h in
      let (out, _, made) = >>=-eq-ok (release window cands s.exposures s.pending s.out) _ flushed in
      let a = steps-Accounts (sort_by arrival_le events) start s 0 ran (omega arith) in
      ground (arith, made, a, length-exposures_perm (sort_by-perm arrival_le events))
