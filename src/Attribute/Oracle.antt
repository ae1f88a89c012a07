-- ===== src/Attribute/Oracle.antt =====
-- `attribute` of streaming/attribute.py, the hot rule over whole households with no eviction.
use ctv_attribution_pipeline.Base.{ℕ, ◌*◌, List, [], ◌∷◌, ◌++◌, map, Result, ok, ◌>>=◌}
use ctv_attribution_pipeline.Sort.Stable.{sort_by, by_key}
use ctv_attribution_pipeline.Dict.{Dict, get_or, append_at}
use ctv_attribution_pipeline.Model.{Ident, Exposure, ResolvedConversion, AttributedConversion}
use ctv_attribution_pipeline.Attribute.Candidates.{
  one_row_per_conversion, candidate_households_by_conversion,
}
use ctv_attribution_pipeline.Attribute.LastTouch.{attribute_household}

-- `timedelta(days=7)` and `timedelta(hours=6)`, in milliseconds
abbrev pub hot_window : ℕ
hot_window = 7 * 86_400_000

abbrev pub default_lateness : ℕ
default_lateness = 6 * 3_600_000

unfoldable pub exposures_by_household : Dict (List Exposure) → List Exposure → Dict (List Exposure)
exposures_by_household d [] = d
exposures_by_household d (e ∷ es) = exposures_by_household (append_at e.household_id e d) es

unfoldable pub resolved_by_household :
    Dict (List ResolvedConversion) → List ResolvedConversion → Dict (List ResolvedConversion)
resolved_by_household d [] = d
resolved_by_household d (r ∷ rs) = resolved_by_household (append_at r.household_id r d) rs

abbrev pub conversion_id_of : AttributedConversion → Ident
conversion_id_of r = r.conversion_id

-- `sorted(rows, key=lambda r: r.conversion_id)`
unfoldable pub sort_rows : List AttributedConversion → List AttributedConversion
sort_rows = sort_by (by_key conversion_id_of)

unfoldable pub attribute_groups :
    ℕ
    → Dict (List Ident)
    → Dict (List Exposure)
    → Dict (List ResolvedConversion)
    → Result (List AttributedConversion)
attribute_groups window candidates exp_by_hh [] = ok []
attribute_groups window candidates exp_by_hh ((hid, res_rows) ∷ groups) = do
  cands ← attribute_household (get_or [] hid exp_by_hh) res_rows window candidates
  rest ← attribute_groups window candidates exp_by_hh groups
  ok (map (λ c. c.row) cands ++ rest)

unfoldable pub attribute :
    List Exposure → List ResolvedConversion → ℕ → Result (List AttributedConversion)
attribute exposures resolved window = do
  rows ←
      attribute_groups window (candidate_households_by_conversion resolved)
        (exposures_by_household [] exposures)
        (resolved_by_household [] (one_row_per_conversion resolved))
  ok (sort_rows rows)
