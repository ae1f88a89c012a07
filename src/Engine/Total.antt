-- ===== src/Engine/Total.antt =====
-- No run over resolved streams raises.
use mathlib.Core.List.Permᴰ
use mathlib.Core.Path.{subst}
use ctv_attribution_pipeline.Base.{
  ℕ, ◌≡◌, ◌≤◌, All-Occurs, refl, sym, ap, ◌∙◌, inl, inr, true, false, List, [], ◌∷◌, ◌++◌, map,
  arith, ltb, length, mem, All, All-map, All-append_left, All-append_right, Bool-cases, ok,
}
use ctv_attribution_pipeline.Dict.{Dict, get_or}
use ctv_attribution_pipeline.Dict.Flat.{flat}
use ctv_attribution_pipeline.Model.{
  Ident, Household, Exposure, Conversion, ResolvedConversion, AttributedConversion,
}
use ctv_attribution_pipeline.Resolve.{from_households, resolve_stream}
use ctv_attribution_pipeline.Attribute.Candidates.{
  candidates_of, one_row_per_conversion, candidate_households_by_conversion,
}
use ctv_attribution_pipeline.Attribute.Candidates.OneRow.{All-one_row}
use ctv_attribution_pipeline.Attribute.LastTouch.Total.{Coherent, Attributable, household-ok}
use ctv_attribution_pipeline.Attribute.Streaming.{exp, res}
use ctv_attribution_pipeline.Attribute.Streaming.Arrival.{InTolerance}
use ctv_attribution_pipeline.Attribute.Oracle.{
  hot_window, exposures_by_household, resolved_by_household, attribute_groups, attribute, sort_rows,
}
use ctv_attribution_pipeline.Engine.{EngineMetrics, run_attribution}
use ctv_attribution_pipeline.Engine.Groups.{All-perm, groups-perm, same_list}
use ctv_attribution_pipeline.Engine.Parity.{run_attribution-attribute}
use ctv_attribution_pipeline.Engine.Resolved.{
  RowOf, stream-RowOf, IsConsistent, fan, candidates-Ascending, candidate_set,
}

candidates_of-known :
    (r : ResolvedConversion) (cands : Dict (List Ident)) (hhs : List Ident)
    → ltb 1 r.candidate_count ≡ true
    → get_or [] r.conversion_id cands ≡ hhs
    → ltb 1 (length hhs) ≡ true
    → candidates_of r cands ≡ ok hhs
unfolding candidates_of
candidates_of-known r cands [] several known long = ground (arith, long)
candidates_of-known r cands (h ∷ hhs) several known long = ground (arith, several, known)

-- a list with a member
member-length : (h : Ident) (hhs : List Ident) → mem h hhs ≡ true → ltb 0 (length hhs) ≡ true
member-length h [] m = absurd (cc m)
member-length h (x ∷ hhs) m = ground arith

module _ (households : List Household) (convs : List Conversion) (consistent : IsConsistent convs)
    (window : ℕ) (dated : All (λ (c : Conversion). window ≤ c.event_time) convs) where
  abbrev sets : Dict (List Ident)
  sets = candidate_households_by_conversion (resolve_stream convs (from_households households))

  -- a row with several candidates has a coherent candidate set
  several-Coherent :
      (r : ResolvedConversion) (w : RowOf (from_households households) convs r)
      → ltb 1 r.candidate_count ≡ true
      → Coherent r (fan households w.conv)
  several-Coherent r w e = record {
    certain = λ one. absurd (cc (e, one));
    counted = λ _. sym w.counted;
    ascending = λ _. candidates-Ascending households w.conv;
    placed = λ _. w.placed;
  }

  -- a row with one candidate has none
  single-Coherent :
      (r : ResolvedConversion)
      → RowOf (from_households households) convs r
      → ltb 1 r.candidate_count ≡ false
      → Coherent r []
  single-Coherent r w e =
      let one : r.candidate_count ≡ 1 =
        ground
          (arith, e, w.counted, member-length r.household_id (fan households w.conv) w.placed) in
      record {
        certain = λ _. refl;
        counted = λ other. absurd (other one);
        ascending = λ other. absurd (other one);
        placed = λ other. absurd (other one);
      }

  row-Attributable :
      (r : ResolvedConversion)
      → RowOf (from_households households) convs r
      → Attributable window sets r
  row-Attributable r w = elim (Bool-cases (ltb 1 r.candidate_count)) [
    | inr e ↦ rw e (
      subst (λ (c : Conversion). window ≤ c.event_time) (sym w.same)
          (All-Occurs (λ (c : Conversion). window ≤ c.event_time) w.conv convs dated w.occurs),
      single-Coherent r w e,
    )
    | inl e ↦
        let long = sym (ap (ltb 1) w.counted) ∙ e in
        rw e (
          fan households w.conv,
          candidates_of-known r sets (fan households w.conv) e
              (ap (λ (c : Conversion). get_or [] c.conversion_id sets) w.same
                ∙ candidate_set households convs consistent w.conv w.occurs long)
              long,
          several-Coherent r w e,
        )
  ]

-- the oracle's groups return where every row can be attributed
groups-ok :
    (window : ℕ) (cands : Dict (List Ident)) (x : Dict (List Exposure))
    (d : Dict (List ResolvedConversion))
    → All (Attributable window cands) (flat same_list d)
    → (rows : List AttributedConversion) × (attribute_groups window cands x d ≡ ok rows)
unfolding attribute_groups
groups-ok window cands x [] h = ([], refl)
groups-ok window cands x ((hid, rs) ∷ d) h =
    let (out, one, _) =
      household-ok (get_or [] hid x) rs window cands
        (All-append_left (Attributable window cands) rs (flat same_list d) h) in
    let (rest, others) =
      groups-ok window cands x d
        (All-append_right (Attributable window cands) rs (flat same_list d) h) in
    (map (λ c. c.row) out ++ rest, rw (one, others) refl)

-- The oracle returns on every stream that the resolver makes of conversions that lie at least a window
-- after the least datetime.
pub attribute-ok :
    (households : List Household) (convs : List Conversion) (es : List Exposure) (window : ℕ)
    → IsConsistent convs
    → All (λ (c : Conversion). window ≤ c.event_time) convs
    → (rows : List AttributedConversion) × (attribute es
          (resolve_stream convs (from_households households))
          window
        ≡ ok rows)
unfolding attribute
attribute-ok households convs es window consistent dated =
    let resolved = resolve_stream convs (from_households households) in
    let cands = candidate_households_by_conversion resolved in
    let rs = one_row_per_conversion resolved in
    let can =
      All-map (RowOf (from_households households) convs) (Attributable window cands)
        (row-Attributable households convs consistent window dated) rs
        (All-one_row (RowOf (from_households households) convs) resolved
          (stream-RowOf (from_households households) convs)) in
    let (rows, ran) =
      groups-ok window cands (exposures_by_household [] es) (resolved_by_household [] rs)
        (All-perm (Attributable window cands) (Permᴰ.symm (groups-perm rs)) can) in
    (sort_rows rows, rw ran refl)

-- The engine returns, with the rows of the oracle, on every stream that the resolver makes of
-- conversions of which one identifier names one and which lie at least the hot window after the least
-- datetime, when every event arrives after it happened and within the allowed lateness, and lies at
-- least that lateness after the least datetime.
pub run_attribution-returns :
    (households : List Household) (convs : List Conversion) (es : List Exposure) (lateness : ℕ)
    (m : EngineMetrics)
    → IsConsistent convs
    → All (λ (c : Conversion). hot_window ≤ c.event_time) convs
    → All (λ e. InTolerance lateness (exp e)) es
    → All (λ r. InTolerance lateness (res r)) (resolve_stream convs (from_households households))
    → (rows : List AttributedConversion) × (m' : EngineMetrics) × (run_attribution es
          (resolve_stream convs (from_households households))
          lateness
          m
        ≡ ok (rows, m'))
      × (attribute es (resolve_stream convs (from_households households)) hot_window ≡ ok rows)
run_attribution-returns households convs es lateness m consistent dated te tr =
    let (rows, made) = attribute-ok households convs es hot_window consistent dated in
    let (m', ran) =
      run_attribution-attribute es (resolve_stream convs (from_households households)) lateness m
        rows te tr made in
    (rows, m', ran, made)
