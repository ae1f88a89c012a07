-- ===== src/Attribute/LastTouch/Total.antt =====
-- Where the leaf and the hot rule return.
use ctv_attribution_pipeline.Base.{
  >>=-eq-ok, map_all, ◌↔◌, ℕ, ◌≡◌, ◌≤◌, ◌≢◌, refl, Bool, true, false, Option, none, List, [], ◌∷◌,
  arith, filter, ok, ltb, if◌then◌else◌, inl, inr, Bool-cases, All, length, mem,
}
use ctv_attribution_pipeline.Sort.Sets.{Ascending}
use ctv_attribution_pipeline.Dict.{Dict}
use ctv_attribution_pipeline.Model.{Ident, Instant, Exposure, ResolvedConversion, validate}
use ctv_attribution_pipeline.Model.Validator.{IsAccepted, IsAccepted-validate, validate-IsAccepted}
use ctv_attribution_pipeline.Attribute.Candidates.{candidates_of}
use ctv_attribution_pipeline.Attribute.LastTouch.{
  Candidate, attributed_row, candidate, is_eligible, check_dated, touch_eligible, last_touch,
  attribute_one, attribute_household,
}

-- the candidate set of a conversion, as the validator of its row wants it
pub record Coherent (conv : ResolvedConversion) (hhs : List Ident) : Type 0 where
  pub certain : conv.candidate_count ≡ 1 → hhs ≡ []
  pub counted : conv.candidate_count ≢ 1 → length hhs ≡ conv.candidate_count
  pub ascending : conv.candidate_count ≢ 1 → Ascending hhs
  pub placed : conv.candidate_count ≢ 1 → mem conv.household_id hhs ≡ true

candidate-ok :
    (conv : ResolvedConversion) (x : Option Ident) (assists : List Ident) (b : Bool)
    (hhs : List Ident) (time : Option Instant)
    → Coherent conv hhs
    → (c : Candidate) × (candidate conv x assists b hhs time ≡ ok c)
unfolding candidate
candidate-ok conv x assists b hhs time h =
    let row = attributed_row conv x assists b hhs in
    let accepted : IsAccepted row = record {
      certain = h.certain;
      counted = h.counted;
      ascending = h.ascending;
      placed = h.placed;
    } in
    (record { row = row; last_touch_time = time }, rw (IsAccepted-validate row accepted) refl)

-- a conversion late enough on the calendar for the window's start to be a datetime
check_dated-ok :
    (conv : ResolvedConversion) (window : ℕ)
    → window ≤ conv.event_time
    → check_dated conv window ≡ ok tt
check_dated-ok conv window h = ground (arith, h)

-- The leaf returns a candidate for every conversion whose candidate set is coherent, whatever the
-- exposures, where the start of the window is a datetime.
pub last_touch-ok :
    (es : List Exposure) (conv : ResolvedConversion) (window : ℕ) (hhs : List Ident)
    → window ≤ conv.event_time
    → Coherent conv hhs
    → (c : Candidate) × (last_touch es conv window hhs ≡ ok c)
unfolding last_touch
last_touch-ok es conv window hhs dated h =
    rw (check_dated-ok conv window dated) (touch (filter (is_eligible conv window) es))
  where
    touch : (xs : List Exposure) → (c : Candidate) × (touch_eligible conv hhs xs ≡ ok c)
    touch [] = unfold touch_eligible in candidate-ok conv none [] false hhs none h
    touch (x ∷ xs) = unfold touch_eligible in candidate-ok conv _ _ true hhs _ h

-- a certain conversion that the start of the window is a datetime for, or a deferred one whose
-- candidate set is known and coherent
abbrev pub Attributable : ℕ → Dict (List Ident) → ResolvedConversion → Type 0
Attributable window cands conv =
    if ltb 1 conv.candidate_count
    then ((hhs : List Ident) × (candidates_of conv cands ≡ ok hhs) × Coherent conv hhs)
    else ((window ≤ conv.event_time) × Coherent conv [])

attribute_one-ok :
    (es : List Exposure) (window : ℕ) (cands : Dict (List Ident)) (conv : ResolvedConversion)
    → Attributable window cands conv
    → (c : Candidate) × (attribute_one es window cands conv ≡ ok c)
unfolding attribute_one
attribute_one-ok es window cands conv h = elim (Bool-cases (ltb 1 conv.candidate_count)) [
  | inl e ↦
      let (hhs, known, coherent) = rw e at h in
      rw (e, known) (candidate-ok conv none [] false hhs none coherent)
  | inr e ↦
      rw e ((let (dated, coherent) = rw e at h in last_touch-ok es conv window [] dated coherent))
]

-- and nothing else is returned by the validator, by the leaf or by the rule for one conversion
candidate-Coherent :
    (conv : ResolvedConversion) (x : Option Ident) (assists : List Ident) (b : Bool)
    (hhs : List Ident) (time : Option Instant) (c : Candidate)
    → candidate conv x assists b hhs time ≡ ok c
    → Coherent conv hhs
unfolding candidate
candidate-Coherent conv x assists b hhs time c h =
    let (row, valid, _) = >>=-eq-ok (validate (attributed_row conv x assists b hhs)) _ h in
    let a = (validate-IsAccepted (attributed_row conv x assists b hhs) row valid).1 in
    record { certain = a.certain; counted = a.counted; ascending = a.ascending; placed = a.placed }

last_touch-Coherent :
    (es : List Exposure) (conv : ResolvedConversion) (window : ℕ) (hhs : List Ident) (c : Candidate)
    → last_touch es conv window hhs ≡ ok c
    → (window ≤ conv.event_time) × Coherent conv hhs
unfolding last_touch touch_eligible
last_touch-Coherent es conv window hhs c h =
    let (u, dated, made) = >>=-eq-ok (check_dated conv window) _ h in
    (ground (arith, dated), touch (filter (is_eligible conv window) es) made)
  where
    touch : (xs : List Exposure) → touch_eligible conv hhs xs ≡ ok c → Coherent conv hhs
    touch [] k = candidate-Coherent conv none [] false hhs none c k
    touch (x ∷ xs) k = candidate-Coherent conv _ _ true hhs _ c k

attribute_one-Attributable :
    (es : List Exposure) (window : ℕ) (cands : Dict (List Ident)) (conv : ResolvedConversion)
    (c : Candidate)
    → attribute_one es window cands conv ≡ ok c
    → Attributable window cands conv
unfolding attribute_one
attribute_one-Attributable es window cands conv c h =
    elim (Bool-cases (ltb 1 conv.candidate_count)) [
      | inl e ↦
          let (hhs, known, made) = >>=-eq-ok (candidates_of conv cands) _ (rw e at h) in
          rw e (hhs, known, candidate-Coherent conv none [] false hhs none c made)
      | inr e ↦ rw e (last_touch-Coherent es conv window [] c (rw e at h))
    ]

household-Attributable :
    (es : List Exposure) (convs : List ResolvedConversion) (window : ℕ) (cands : Dict (List Ident))
    (out : List Candidate)
    → attribute_household es convs window cands ≡ ok out
    → All (Attributable window cands) convs
unfolding attribute_household
household-Attributable es [] window cands out h = tt
household-Attributable es (conv ∷ convs) window cands out h =
    let (c, one, h') = >>=-eq-ok (attribute_one es window cands conv) _ h in
    let (rest, others, _) = >>=-eq-ok (map_all (attribute_one es window cands) convs) _ h' in
    (
      attribute_one-Attributable es window cands conv c one,
      household-Attributable es convs window cands rest others,
    )

-- the rule over a household where each can be attributed
pub household-ok :
    (es : List Exposure) (convs : List ResolvedConversion) (window : ℕ) (cands : Dict (List Ident))
    → All (Attributable window cands) convs
    → (out : List Candidate) × (attribute_household es convs window cands ≡ ok out)
      × (length out ≡ length convs)
unfolding attribute_household
household-ok es [] window cands h = ([], refl, refl)
household-ok es (conv ∷ convs) window cands h =
    let (c, one) = attribute_one-ok es window cands conv h.0 in
    let (out, rest, n) = household-ok es convs window cands h.1 in
    (c ∷ out, rw (one, rest) refl, omega (arith, n))

-- The hot rule returns the candidates of a household, one for each conversion, exactly where every
-- conversion with several candidates has a coherent candidate set, and every other has one candidate and
-- lies at least a window after the least datetime; in every other case it raises.
pub attribute_household-ok :
    (es : List Exposure) (convs : List ResolvedConversion) (window : ℕ) (cands : Dict (List Ident))
    → All (Attributable window cands) convs ↔ (
        (out : List Candidate) × (attribute_household es convs window cands ≡ ok out)
        × (length out ≡ length convs))
attribute_household-ok es convs window cands = (
  household-ok es convs window cands,
  λ (out, made, _). household-Attributable es convs window cands out made,
)
