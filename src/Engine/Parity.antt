-- ===== src/Engine/Parity.antt =====
-- The engine against the oracle: `run_attribution` and `attribute` on the same streams.
use mathlib.Core.Path.{subst}
use mathlib.Core.List.Permᴰ
use mathlib.Core.List.{Permᴰ}
use ctv_attribution_pipeline.Base.{
  ℕ, ◌≡◌, refl, sym, ap, ◌∙◌, List, [], ◌∷◌, ◌++◌, map, All, All-append_left, All-append_right,
  Distinct, Result, ok, err, >>=-eq-ok, ok-eq, map_ok,
}
use ctv_attribution_pipeline.Sort.Stable.{sort_by-perm_eq}
use ctv_attribution_pipeline.Dict.{Dict, get_or, values}
use ctv_attribution_pipeline.Dict.Flat.{flat, Filed}
use ctv_attribution_pipeline.Model.{Ident, Exposure, ResolvedConversion, AttributedConversion}
use ctv_attribution_pipeline.Attribute.Candidates.{
  one_row_per_conversion, candidate_households_by_conversion,
}
use ctv_attribution_pipeline.Attribute.Candidates.OneRow.{
  conversion_of, one_row-Distinct, All-one_row,
}
use ctv_attribution_pipeline.Attribute.LastTouch.{Candidate, attribute_household}
use ctv_attribution_pipeline.Attribute.Streaming.{
  Event, exp, res, StreamResult, attribute_household_streaming,
}
use ctv_attribution_pipeline.Attribute.Streaming.Arrival.{InTolerance, exposures_of, conversions_of}
use ctv_attribution_pipeline.Attribute.Streaming.Parity.{streaming-parity}
use ctv_attribution_pipeline.Attribute.Streaming.Parity.Schedule.{release_order, release_order-perm}
use ctv_attribution_pipeline.Attribute.Oracle.{
  hot_window, exposures_by_household, resolved_by_household, attribute_groups, attribute, sort_rows,
  conversion_id_of,
}
use ctv_attribution_pipeline.Engine.{
  EngineMetrics, observe_state, observe_rows, run_households, run_attribution,
}
use ctv_attribution_pipeline.Engine.Buckets.{
  Owned, buckets, buckets-perm, buckets-Filed, buckets-exposures,
}
use ctv_attribution_pipeline.Engine.Groups.{
  All-perm, map-Permᴰ, map-append, groups-perm, groups-Filed, shown_to, groups-rows,
  conversions-InHousehold,
}
use ctv_attribution_pipeline.Engine.Rows.{
  hot_row, hot_row-conversion, Returns, household-rows, household-Returns,
}

-- an event of its household, in tolerance
abbrev Fit : ℕ → Ident → Event → Type 0
Fit lateness h ev = Owned h ev × InTolerance lateness ev

Fit-split :
    (lateness : ℕ) (h : Ident) (evs : List Event)
    → All (Fit lateness h) evs
    → All (Owned h) evs × All (InTolerance lateness) evs
Fit-split lateness h [] a = (tt, tt)
Fit-split lateness h (ev ∷ evs) a =
    let (owned, tolerated) = Fit-split lateness h evs a.1 in ((a.0.0, owned), (a.0.1, tolerated))

map_ok-eq :
    {A B : Type 0} (f : A → B) (r : Result A) (b : B)
    → map_ok f r ≡ ok b
    → (a : A) × (r ≡ ok a) × (f a ≡ b)
map_ok-eq f (ok a) b h = (a, refl, ok-eq h)
map_ok-eq f (err e) b h = absurd (cc h)

module _ (x : Dict (List Exposure)) (lateness : ℕ) (cands : Dict (List Ident)) where
  abbrev row : ResolvedConversion → AttributedConversion
  row = hot_row (shown_to x hot_window cands) hot_window cands

  -- the pass over one bucket
  one_household :
      (h : Ident) (evs : List Event)
      → exposures_of evs ≡ get_or [] h x
      → All (Fit lateness h) evs
      → All (Returns (shown_to x hot_window cands) hot_window cands) (conversions_of evs)
      → (out : StreamResult) × (attribute_household_streaming hot_window cands evs lateness
          ≡ ok out)
        × Permᴰ (map (λ (c : Candidate). c.row) out.candidates) (map row (conversions_of evs))
  one_household h evs shown fit returns =
      let (owned, tolerated) = Fit-split lateness h evs fit in
      let order = release_order lateness evs in
      let perm = release_order-perm lateness evs in
      let own_order =
        All-perm (λ r. r.household_id ≡ h) (Permᴰ.symm perm)
          (conversions-InHousehold h evs owned) in
      let returned =
        All-perm (Returns (shown_to x hot_window cands) hot_window cands) (Permᴰ.symm perm)
          returns in
      let (cs, ran) =
        household-Returns (shown_to x hot_window cands) hot_window cands h order own_order
          returned in
      let (out, passed, same) =
        map_ok-eq (λ (q : StreamResult). q.candidates)
          (attribute_household_streaming hot_window cands evs lateness) cs
          (streaming-parity lateness hot_window cands evs tolerated
            ∙ ap (λ es. attribute_household es order hot_window cands) shown
            ∙ ran) in
      (
        out,
        passed,
        subst (λ rows. Permᴰ rows (map row (conversions_of evs)))
            (sym (
              ap (map (λ (c : Candidate). c.row)) same
              ∙ (household-rows (shown_to x hot_window cands) hot_window cands h order cs own_order
                  ran).0))
            (map-Permᴰ row perm),
      )

  -- the pass over the buckets
  households :
      (d : Dict (List Event)) (m : EngineMetrics)
      → All (λ e. exposures_of e.1 ≡ get_or [] e.0 x) d
      → Filed (Fit lateness) d
      → All (Returns (shown_to x hot_window cands) hot_window cands) (flat conversions_of d)
      → (out : List AttributedConversion × EngineMetrics) × (run_households lateness cands
            (values d)
            m
          ≡ ok out)
        × Permᴰ out.0 (map row (flat conversions_of d))
  unfolding run_households
  households [] m shown fit returns = (([], m), refl, Permᴰ.nil)
  households ((h, evs) ∷ d) m shown fit returns =
      let P = Returns (shown_to x hot_window cands) hot_window cands in
      let (out, passed, same) =
        one_household h evs shown.0 fit.0
          (All-append_left P (conversions_of evs) (flat conversions_of d) returns) in
      let ((rows, m'), ran, same') =
        households d (observe_rows out.candidates (observe_state out.state m)) shown.1 fit.1
          (All-append_right P (conversions_of evs) (flat conversions_of d) returns) in
      (
        (map (λ (c : Candidate). c.row) out.candidates ++ rows, m'),
        rw (passed, ran) refl,
        subst (Permᴰ (map (λ (c : Candidate). c.row) out.candidates ++ rows))
            (sym (map-append row (conversions_of evs) (flat conversions_of d)))
            (Permᴰ.trans (Permᴰ.append_right rows same)
              (Permᴰ.append_left (map row (conversions_of evs)) same')),
      )

-- the rows are of the conversions
row-conversions :
    (x : Dict (List Exposure)) (cands : Dict (List Ident)) (rs : List ResolvedConversion)
    → map conversion_id_of (map (hot_row (shown_to x hot_window cands) hot_window cands) rs)
      ≡ map conversion_of rs
row-conversions x cands [] = refl
row-conversions x cands (r ∷ rs) =
    ap
      (λ c.
        c ∷ map conversion_id_of (map (hot_row (shown_to x hot_window cands) hot_window cands) rs))
      (hot_row-conversion (shown_to x hot_window cands) hot_window cands r)
    ∙ ap (λ l. r.conversion_id ∷ l) (row-conversions x cands rs)

-- two orders of the rows of distinct conversions sort alike
sort_rows-perm :
    (xs ys : List AttributedConversion)
    → Permᴰ xs ys
    → Distinct (map conversion_id_of xs)
    → sort_rows xs ≡ sort_rows ys
unfolding sort_rows
sort_rows-perm xs ys p h = sort_by-perm_eq conversion_id_of p h

tolerated-Fit :
    (lateness : ℕ) (rs : List ResolvedConversion)
    → All (λ r. InTolerance lateness (res r)) rs
    → All (λ (r : ResolvedConversion). Fit lateness r.household_id (res r)) rs
tolerated-Fit lateness [] h = tt
tolerated-Fit lateness (r ∷ rs) h = ((refl, h.0), tolerated-Fit lateness rs h.1)

shown-Fit :
    (lateness : ℕ) (es : List Exposure)
    → All (λ e. InTolerance lateness (exp e)) es
    → All (λ (e : Exposure). Fit lateness e.household_id (exp e)) es
shown-Fit lateness [] h = tt
shown-Fit lateness (e ∷ es) h = ((tt, h.0), shown-Fit lateness es h.1)

pub run_attribution-attribute :
    (es : List Exposure) (resolved : List ResolvedConversion) (lateness : ℕ) (m : EngineMetrics)
    (rows : List AttributedConversion)
    → All (λ e. InTolerance lateness (exp e)) es
    → All (λ r. InTolerance lateness (res r)) resolved
    → attribute es resolved hot_window ≡ ok rows
    → (m' : EngineMetrics) × (run_attribution es resolved lateness m ≡ ok (rows, m'))
unfolding run_attribution attribute
run_attribution-attribute es resolved lateness m rows te tr made =
    let x = exposures_by_household [] es in
    let cands = candidate_households_by_conversion resolved in
    let rs = one_row_per_conversion resolved in
    let P = Returns (shown_to x hot_window cands) hot_window cands in
    let row = hot_row (shown_to x hot_window cands) hot_window cands in
    let (grouped, ran, made') =
      >>=-eq-ok (attribute_groups hot_window cands x (resolved_by_household [] rs)) _ made in
    let (same, returns) =
      groups-rows x hot_window cands (resolved_by_household [] rs) grouped (groups-Filed rs) ran in
    let returned = All-perm P (groups-perm rs) returns in
    let tolerated = All-one_row (λ r. InTolerance lateness (res r)) resolved tr in
    let ((own, m'), passed, perm) =
      households x lateness cands (buckets es rs) m (buckets-exposures es rs)
        (buckets-Filed es rs (Fit lateness) (shown-Fit lateness es te)
          (tolerated-Fit lateness rs tolerated))
        (All-perm P (Permᴰ.symm (buckets-perm es rs)) returned) in
    let to_rows = Permᴰ.trans perm (map-Permᴰ row (buckets-perm es rs)) in
    let from_groups =
      subst (λ l. Permᴰ l (map row rs)) (sym same) (map-Permᴰ row (groups-perm rs)) in
    let distinct = subst Distinct (sym (row-conversions x cands rs)) (one_row-Distinct resolved) in
    (
      m',
      rw passed (
          ap (λ l. ok (l, m'))
            (sym (sort_rows-perm (map row rs) own (Permᴰ.symm to_rows) distinct)
              ∙ sort_rows-perm (map row rs) grouped (Permᴰ.symm from_groups) distinct
              ∙ ok-eq made')),
    )
