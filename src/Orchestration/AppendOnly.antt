-- ===== src/Orchestration/AppendOnly.antt =====
-- What no operation takes away: the rows of the record, and the report snapshots.
use mathlib.Core.Path.{subst}
use ctv_attribution_pipeline.Base.{
  append_nil, append_assoc, ◌≡◌, refl, sym, ap, ◌∙◌, inl, inr, List, [], ◌∷◌, ◌++◌,
}
use ctv_attribution_pipeline.Model.{Exposure, AttributedConversion}
use ctv_attribution_pipeline.Lake.{Lake, Day, land, land_attributed}
use ctv_attribution_pipeline.Serving.{
  Mark, Tables, load_exposures_day, insert_exposures, insert_attributed, record_dirty_exposure_keys,
  record_dirty_attributed_keys,
}
use ctv_attribution_pipeline.Serving.Rollup.{
  dirty_keys, refresh_keys, refresh_dirty, refresh_campaign_hourly, write_report_snapshot,
}
use ctv_attribution_pipeline.Orchestration.{
  World, Totals, load_exposures, load_attributed, refresh, finalize, truncate, write_marker,
}
use ctv_attribution_pipeline.Orchestration.Settled.{loaded_attributed, load_attributed-cases}
use ctv_attribution_pipeline.Orchestration.Steps.{Reaches, IsKept, Reaches-keeps}

-- `ys` is `xs` and then some more
abbrev pub Extends : {A : Type 0} → List A → List A → Type 0
Extends {A = A} xs ys = (more : List A) × (ys ≡ xs ++ more)

Extends-refl : {A : Type 0} (xs : List A) → Extends xs xs
Extends-refl xs = ([], sym (append_nil xs))

Extends-append : {A : Type 0} (xs ys more : List A) → Extends xs ys → Extends xs (ys ++ more)
Extends-append xs ys more (zs, e) = (zs ++ more, ap (λ l. l ++ more) e ∙ append_assoc xs zs more)

abbrev pub IsLonger : World → World → Type 0
IsLonger a b =
    Extends a.lake.exposures b.lake.exposures
    × Extends a.lake.attributed b.lake.attributed
    × Extends a.tables.report_snapshots b.tables.report_snapshots

module _ (a : World) where
  -- what an operation on the tables leaves as it was
  same-IsLonger :
      (w w' : World)
      → w'.lake ≡ w.lake
      → w'.tables.report_snapshots ≡ w.tables.report_snapshots
      → IsLonger a w
      → IsLonger a w'
  same-IsLonger w w' e f (x, y, z) = (
    subst (λ (l : Lake). Extends a.lake.exposures l.exposures) (sym e) x,
    subst (λ (l : Lake). Extends a.lake.attributed l.attributed) (sym e) y,
    subst (Extends a.tables.report_snapshots) (sym f) z,
  )

  land-IsLonger :
      (es : List Exposure) (w : World)
      → IsLonger a w
      → IsLonger a (record w { lake = (land es w.lake).0 })
  unfolding land
  land-IsLonger [] w h = h
  land-IsLonger (e ∷ es) w h =
      (Extends-append a.lake.exposures w.lake.exposures (e ∷ es) h.0, h.1, h.2)

  land_attributed-IsLonger :
      (rows : List AttributedConversion) (w : World)
      → IsLonger a w
      → IsLonger a (record w { lake = (land_attributed rows w.lake).0 })
  unfolding land_attributed
  land_attributed-IsLonger [] w h = h
  land_attributed-IsLonger (r ∷ rs) w h =
      (h.0, Extends-append a.lake.attributed w.lake.attributed (r ∷ rs) h.1, h.2)

  load_exposures-IsLonger : (d : Day) (w : World) → IsLonger a w → IsLonger a (load_exposures d w).1
  unfolding load_exposures load_exposures_day record_dirty_exposure_keys insert_exposures
  load_exposures-IsLonger d w h = same-IsLonger w (load_exposures d w).1 refl refl h

  load_attributed-IsLonger :
      (d : Day) (w : World) → IsLonger a w → IsLonger a (load_attributed d w).1
  unfolding record_dirty_attributed_keys insert_attributed
  load_attributed-IsLonger d w h = elim (load_attributed-cases d w) [
    | inl e ↦ subst (IsLonger a) (sym e) h
    | inr (rows, e) ↦
        subst (IsLonger a) (sym e) (same-IsLonger w (loaded_attributed d w rows) refl refl h)
  ]

  refresh-IsLonger : (totals : Totals) (w : World) → IsLonger a w → IsLonger a (refresh totals w).1
  unfolding refresh refresh_campaign_hourly refresh_dirty refresh_keys
  refresh-IsLonger totals w h =
      same-IsLonger w (refresh totals w).1 refl (kept (dirty_keys w.tables) w.tables) h
    where
      kept :
          (keys : List Mark) (t : Tables)
          → (refresh_dirty keys t).1.report_snapshots ≡ t.report_snapshots
      kept [] t = refl
      kept (m ∷ ms) t = refl

  finalize-IsLonger : (w : World) → IsLonger a w → IsLonger a (finalize w)
  unfolding finalize write_report_snapshot
  finalize-IsLonger w h = (
    h.0,
    h.1,
    Extends-append a.tables.report_snapshots _ _
        (Extends-append a.tables.report_snapshots w.tables.report_snapshots _ h.2),
  )

  IsLonger-IsKept : IsKept (IsLonger a)
  unfolding truncate write_marker
  IsLonger-IsKept = record {
    by_land = land-IsLonger;
    by_land_attributed = land_attributed-IsLonger;
    by_load_exposures = load_exposures-IsLonger;
    by_load_attributed = load_attributed-IsLonger;
    by_refresh = refresh-IsLonger;
    by_finalize = finalize-IsLonger;
    by_truncate = λ w h. h;
    by_marker = λ profile w h. h;
  }

-- No step, a replay included, takes away a row of either raw table or a report snapshot, or changes one:
-- what was there stands before all that was added. (The reset, which deletes a root, is no step.)
pub reached-IsLonger : (a w : World) → Reaches a w → IsLonger a w
reached-IsLonger a w path = Reaches-keeps (IsLonger a) (IsLonger-IsKept a) path (
  Extends-refl a.lake.exposures,
  Extends-refl a.lake.attributed,
  Extends-refl a.tables.report_snapshots,
)
