-- ===== src/Attribute/LastTouch/Local.antt =====
-- The leaf looks at the eligible touches of its household and at nothing else.
use ctv_attribution_pipeline.Base.{
  ℕ, ◌-◌, ◌≡◌, refl, Bool, true, ◌&&◌, List, [], ◌∷◌, arith, leb, filter, All, ◌>>◌, ap,
}
use ctv_attribution_pipeline.Dict.{Dict}
use ctv_attribution_pipeline.Model.{Ident, Instant, Exposure, ResolvedConversion}
use ctv_attribution_pipeline.Attribute.LastTouch.{
  check_dated, is_eligible, latest_touch, touch_eligible, last_touch, attribute_one,
  attribute_household,
}
use ctv_attribution_pipeline.Attribute.LastTouch.Winner.{
  touched, SameTouches, latest_touch-eq, assist_ids-eq,
}

-- an instant in the window of a conversion
abbrev pub in_window : ResolvedConversion → ℕ → Instant → Bool
in_window conv window t = leb (conv.event_time - window) t && leb t conv.event_time

pub touched-eligible :
    (conv : ResolvedConversion) (window : ℕ) (t : Instant) (i : Ident) (es : List Exposure)
    → touched t i (filter (is_eligible conv window) es)
      ≡ (touched t i es && in_window conv window t)
unfolding touched
touched-eligible conv window t i [] = refl
touched-eligible conv window t i (e ∷ es) = ground (arith, touched-eligible conv window t i es)

touch_eligible-eq :
    (conv : ResolvedConversion) (hhs : List Ident) (es fs : List Exposure)
    → SameTouches es fs
    → touch_eligible conv hhs es ≡ touch_eligible conv hhs fs
unfolding touch_eligible
touch_eligible-eq conv hhs [] [] h = refl
touch_eligible-eq conv hhs [] (f ∷ fs) h =
    absurd (unfold touched in ground (arith, h f.event_time f.exposure_id))
touch_eligible-eq conv hhs (e ∷ es) [] h =
    absurd (unfold touched in ground (arith, h e.event_time e.exposure_id))
touch_eligible-eq conv hhs (e ∷ es) (f ∷ fs) h =
    let (times, ids) = latest_touch-eq e f es fs h in
    cc (times, ids, assist_ids-eq (latest_touch f fs).exposure_id (e ∷ es) (f ∷ fs) h)

-- Two lists agree on a conversion if they hold the same touches in its window.
abbrev pub Agree : ResolvedConversion → ℕ → List Exposure → List Exposure → Type 0
Agree conv window es fs =
    (t : Instant) (i : Ident) → in_window conv window t ≡ true → touched t i es ≡ touched t i fs

-- Last-touch credit, with its assists, depends only on which exposures were shown when, within the
-- window of the conversion: not on their order, on re-sends, or on exposures outside the window.
last_touch-eq :
    (es fs : List Exposure) (conv : ResolvedConversion) (window : ℕ) (hhs : List Ident)
    → Agree conv window es fs
    → last_touch es conv window hhs ≡ last_touch fs conv window hhs
unfolding last_touch
last_touch-eq es fs conv window hhs h =
    ap (λ r. check_dated conv window >> r)
      (touch_eligible-eq conv hhs (filter (is_eligible conv window) es)
        (filter (is_eligible conv window) fs)
        (λ t i.
          ground (
            arith,
            touched-eligible conv window t i es,
            touched-eligible conv window t i fs,
            h t i,
          )))

attribute_one-eq :
    (es fs : List Exposure) (window : ℕ) (cands : Dict (List Ident)) (conv : ResolvedConversion)
    → Agree conv window es fs
    → attribute_one es window cands conv ≡ attribute_one fs window cands conv
unfolding attribute_one
attribute_one-eq es fs window cands conv h = ground (arith, last_touch-eq es fs conv window [] h)

pub attribute_household-eq :
    (es fs : List Exposure) (window : ℕ) (cands : Dict (List Ident))
    (convs : List ResolvedConversion)
    → All (λ conv. Agree conv window es fs) convs
    → attribute_household es convs window cands ≡ attribute_household fs convs window cands
unfolding attribute_household
attribute_household-eq es fs window cands [] h = refl
attribute_household-eq es fs window cands (c ∷ cs) h =
    rw (attribute_one-eq es fs window cands c h.0, attribute_household-eq es fs window cands cs h.1)
