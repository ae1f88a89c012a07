-- ===== src/Attribute/Candidates.antt =====
-- `one_row_per_conversion`, `candidate_households_by_conversion` and `_candidates_of` of
-- streaming/attribute.py.
pub mod OneRow
pub mod Sets
use ctv_attribution_pipeline.Base.{
  ℕ, Bool, true, false, Option, none, some, List, [], ◌∷◌, map, ◌==◌, ltb, if◌then◌else◌, Result,
  ok, err, no_candidates,
}
use ctv_attribution_pipeline.Sort.Sets.{sorted_set}
use ctv_attribution_pipeline.Dict.{Dict, lookup, insert, get_or, append_at, values}
use ctv_attribution_pipeline.Model.{Ident, ResolvedConversion}

-- `cur is None or r.household_id < cur.household_id`
abbrev pub takes_slot : ResolvedConversion → Option ResolvedConversion → Bool
takes_slot r none = true
takes_slot r (some cur) = ltb r.household_id cur.household_id

unfoldable pub by_conversion :
    Dict ResolvedConversion → List ResolvedConversion → Dict ResolvedConversion
by_conversion d [] = d
by_conversion d (r ∷ rs) =
    by_conversion
      (if takes_slot r (lookup r.conversion_id d) then insert r.conversion_id r d else d) rs

unfoldable pub one_row_per_conversion : List ResolvedConversion → List ResolvedConversion
one_row_per_conversion resolved = values (by_conversion [] resolved)

-- the sets of `seen`, each the list of what was added to it
unfoldable pub fanouts : Dict (List Ident) → List ResolvedConversion → Dict (List Ident)
fanouts seen [] = seen
fanouts seen (r ∷ rs) =
    fanouts
      (if ltb 1 r.candidate_count then append_at r.conversion_id r.household_id seen else seen) rs

unfoldable pub candidate_households_by_conversion : List ResolvedConversion → Dict (List Ident)
candidate_households_by_conversion rows = map (λ e. (e.0, sorted_set e.1)) (fanouts [] rows)

-- `_candidates_of`; `candidates` that is `None` is the empty dict
unfoldable pub candidates_of : ResolvedConversion → Dict (List Ident) → Result (List Ident)
candidates_of conv candidates =
    if conv.candidate_count == 1 then ok [] else elim (get_or [] conv.conversion_id candidates) [
      | [] ↦ err no_candidates
      | h ∷ hs ↦ ok (h ∷ hs)
    ]
