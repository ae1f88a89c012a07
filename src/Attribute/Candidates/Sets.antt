-- ===== src/Attribute/Candidates/Sets.antt =====
-- The candidate set of a conversion: the households of its fan-out, each once, in order.
use ctv_attribution_pipeline.Base.{
  ◌≡◌, refl, Bool, ◌&&◌, ◌||◌, List, [], ◌∷◌, arith, ◌==◌, ltb, any, mem, mem-append,
}
use ctv_attribution_pipeline.Sort.Sets.{Ascending, sorted_set-Ascending, mem-sorted_set}
use ctv_attribution_pipeline.Dict.{Dict, get_or, append_at}
use ctv_attribution_pipeline.Dict.Laws.{get_or-append_at, get_or-map_sorted}
use ctv_attribution_pipeline.Model.{Ident, ResolvedConversion}
use ctv_attribution_pipeline.Attribute.Candidates.{fanouts, candidate_households_by_conversion}

-- row `r` is a fan-out of conversion `c` to household `h`
abbrev pub fans_out : Ident → Ident → ResolvedConversion → Bool
fans_out c h r = ltb 1 r.candidate_count && (c == r.conversion_id && h == r.household_id)

mem-fanouts :
    (c h : Ident) (seen : Dict (List Ident)) (rows : List ResolvedConversion)
    → mem h (get_or [] c (fanouts seen rows))
      ≡ (mem h (get_or [] c seen) || any (fans_out c h) rows)
unfolding fanouts
mem-fanouts c h seen [] = ground arith
mem-fanouts c h seen (r ∷ rows) = ground (
  arith,
  mem-fanouts c h seen rows,
  mem-fanouts c h (append_at r.conversion_id r.household_id seen) rows,
  get_or-append_at r.conversion_id c r.household_id seen,
  mem-append h (get_or [] r.conversion_id seen) (r.household_id ∷ []),
)

-- The candidate set of a conversion has exactly the households to which rows with several candidates
-- fan it out, in ascending order.
pub candidate_households_exact :
    (rows : List ResolvedConversion) (c h : Ident)
    → let hhs = get_or [] c (candidate_households_by_conversion rows) in
      Ascending hhs × (mem h hhs ≡ any (fans_out c h) rows)
unfolding candidate_households_by_conversion
candidate_households_exact rows c h = (
  rw (get_or-map_sorted c (fanouts [] rows)) (sorted_set-Ascending _),
  rw (get_or-map_sorted c (fanouts [] rows)) (
      ground (
        arith,
        mem-sorted_set h (get_or [] c (fanouts [] rows)),
        mem-fanouts c h [] rows,
        nothing_at c,
      )),
)
  where
    nothing_at : (c : Ident) → get_or {V = List Ident} [] c [] ≡ []
    nothing_at c = unfold get_or in refl
