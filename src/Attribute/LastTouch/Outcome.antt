-- ===== src/Attribute/LastTouch/Outcome.antt =====
-- What the leaf and the hot rule return, branch by branch.
use ctv_attribution_pipeline.Base.{
  ℕ, ◌≡◌, ◌<◌, ◌≤◌, refl, ap, ◌⊎◌, inl, inr, Bool, true, false, ◌&&◌, not, Option, some, none, List,
  [], ◌∷◌, arith, ◌==◌, filter, mem, map, Bool-cases, ok, >>=-eq-ok,
}
use ctv_attribution_pipeline.Sort.Sets.{Ascending, sorted_set-Ascending}
use ctv_attribution_pipeline.Model.{Ident, Instant, Exposure, ResolvedConversion, validate}
use ctv_attribution_pipeline.Model.Validator.{IsAccepted, validate-IsAccepted}
use ctv_attribution_pipeline.Attribute.LastTouch.{
  Candidate, attributed_row, candidate, is_eligible, check_dated, latest_touch, assist_ids,
  touch_eligible, last_touch,
}
use ctv_attribution_pipeline.Attribute.LastTouch.Winner.{
  touched, below, latest_touch-touched, latest_touch-max, mem-assist_ids,
}
use ctv_attribution_pipeline.Attribute.LastTouch.Local.{in_window, touched-eligible}

-- a candidate is the row as built, with its time, and the validator accepts it
pub candidate-eq :
    (conv : ResolvedConversion) (x : Option Ident) (assists : List Ident) (b : Bool)
    (hhs : List Ident) (time : Option Instant) (c : Candidate)
    → candidate conv x assists b hhs time ≡ ok c
    → (c.row ≡ attributed_row conv x assists b hhs)
      × (c.last_touch_time ≡ time)
      × IsAccepted (attributed_row conv x assists b hhs)
unfolding candidate
candidate-eq conv x assists b hhs time c h =
    let (row, built, made) = >>=-eq-ok (validate (attributed_row conv x assists b hhs)) _ h in
    let (same, accepted) = validate-IsAccepted (attributed_row conv x assists b hhs) row built in
    (cc (same, made), cc made, accepted)

-- What a credit is: a touch in the window that none in the window exceeds, with the other identifiers
-- of the window as its assists, once each and in order.
pub record Credits (es : List Exposure) (conv : ResolvedConversion) (window : ℕ) (c : Candidate)
    : Type 0 where
  pub time : Instant
  pub winner : Ident
  pub resolved : c.row.resolved ≡ conv
  pub attributed : c.row.attributed ≡ true
  pub credited : c.row.exposure_id ≡ some winner
  pub timed : c.last_touch_time ≡ some time
  pub shown : touched time winner es ≡ true
  pub within : in_window conv window time ≡ true
  latest :
      (t : Instant) (i : Ident)
      → touched t i es ≡ true
      → in_window conv window t ≡ true
      → (t < time) ⊎ ((t ≡ time) × (i ≤ winner))
  pub ascending : Ascending c.row.assists
  assisted :
      (i : Ident)
      → mem i c.row.assists ≡ (
          mem i (map (λ e. e.exposure_id) (filter (is_eligible conv window) es))
          && not (i == winner))

-- What an uncredited row is: nothing in the window, and a reason.
pub record Misses (es : List Exposure) (conv : ResolvedConversion) (window : ℕ) (c : Candidate)
    : Type 0 where
  pub resolved : c.row.resolved ≡ conv
  pub attributed : c.row.attributed ≡ false
  pub uncredited : c.row.exposure_id ≡ none
  pub untimed : c.last_touch_time ≡ none
  pub unassisted : c.row.assists ≡ []
  pub empty : (t : Instant) (i : Ident) → in_window conv window t ≡ true → touched t i es ≡ false

below→order :
    (t : Instant) (i : Ident) (w : Exposure)
    → below t i w ≡ true
    → (t < w.event_time) ⊎ ((t ≡ w.event_time) × (i ≤ w.exposure_id))
below→order t i w h = ground arith

no_touch : (t : Instant) (i : Ident) → touched t i [] ≡ false
no_touch t i = unfold touched in refl

-- the touches of the eligible exposures, seen from the whole household
module _ (es : List Exposure) (conv : ResolvedConversion) (window : ℕ) where
  shown_of :
      (t : Instant) (i : Ident)
      → touched t i (filter (is_eligible conv window) es) ≡ true
      → (touched t i es ≡ true) × (in_window conv window t ≡ true)
  shown_of t i h = ground (arith, touched-eligible conv window t i es)

  eligible_of :
      (t : Instant) (i : Ident)
      → touched t i es ≡ true
      → in_window conv window t ≡ true
      → touched t i (filter (is_eligible conv window) es) ≡ true
  eligible_of t i h k = ground (arith, touched-eligible conv window t i es)

  credit :
      (e : Exposure) (rest : List Exposure) (hhs : List Ident) (c : Candidate)
      → filter (is_eligible conv window) es ≡ e ∷ rest
      → touch_eligible conv hhs (e ∷ rest) ≡ ok c
      → Credits es conv window c
  unfolding touch_eligible
  credit e rest hhs c split h =
      let w = latest_touch e rest in
      let (made, timed, _) = candidate-eq conv _ _ _ hhs _ c h in
      let (shown, within) =
        shown_of w.event_time w.exposure_id (rw split (latest_touch-touched e rest)) in
      record {
        time = w.event_time;
        winner = w.exposure_id;
        resolved = ap (λ r. r.resolved) made;
        attributed = ap (λ r. r.attributed) made;
        credited = ap (λ r. r.exposure_id) made;
        timed = timed;
        shown = shown;
        within = within;
        latest = λ t i p q.
            below→order t i w (latest_touch-max t i e rest (rw split at (eligible_of t i p q)));
        ascending = rw made (unfold assist_ids in sorted_set-Ascending _);
        assisted = λ i. rw (made, split) (mem-assist_ids i w.exposure_id (e ∷ rest));
      }

  nothing_shown :
      filter (is_eligible conv window) es ≡ []
      → (t : Instant) (i : Ident) → in_window conv window t ≡ true
      → touched t i es ≡ false
  nothing_shown split t i q = elim (Bool-cases (touched t i es)) [
    | inl p ↦ cc (no_touch t i, ap (touched t i) split, eligible_of t i p q)
    | inr p ↦ p
  ]

  miss :
      (hhs : List Ident) (c : Candidate)
      → filter (is_eligible conv window) es ≡ []
      → touch_eligible conv hhs [] ≡ ok c
      → Misses es conv window c
  unfolding touch_eligible
  miss hhs c split h =
      let (made, timed, _) = candidate-eq conv _ _ _ hhs _ c h in
      record {
        resolved = ap (λ r. r.resolved) made;
        attributed = ap (λ r. r.attributed) made;
        uncredited = ap (λ r. r.exposure_id) made;
        untimed = timed;
        unassisted = ap (λ r. r.assists) made;
        empty = nothing_shown split;
      }

  -- A leaf that returns has credited the latest touch in the window, ties to the greatest identifier,
  -- with the other touches of the window as assists in ascending order; or no touch is in the window
  -- and the row is not attributed.
  pub last_touch-outcome :
      (hhs : List Ident) (c : Candidate)
      → last_touch es conv window hhs ≡ ok c
      → Credits es conv window c ⊎ Misses es conv window c
  unfolding last_touch
  last_touch-outcome hhs c h =
      let (_, _, made) = >>=-eq-ok (check_dated conv window) _ h in
      split_on (filter (is_eligible conv window) es) refl made
    where
      split_on :
          (xs : List Exposure)
          → filter (is_eligible conv window) es ≡ xs
          → touch_eligible conv hhs xs ≡ ok c
          → Credits es conv window c ⊎ Misses es conv window c
      split_on [] e k = inr (miss hhs c e k)
      split_on (x ∷ xs) e k = inl (credit x xs hhs c e k)
