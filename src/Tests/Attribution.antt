-- ===== src/Tests/Attribution.antt =====
-- The attribution of conversions, at concrete rows.
use ctv_attribution_pipeline.Base.{
  ◌↔◌, ℕ, ◌+◌, ◌*◌, ◌≡◌, ◌≤◌, refl, ◌⊎◌, true, false, none, some, List, [], ◌∷◌, arith, map, length,
  mem, any, All, ==_iff, ok, map_ok,
}
use ctv_attribution_pipeline.Tests.Data.{certain, shown, hour, fanned, early, late, sale, scored}
use ctv_attribution_pipeline.Sort.Sets.{Ascending, sorted_set, insert_new}
use ctv_attribution_pipeline.Sort.Stable.{sort_by, insert_by}
use ctv_attribution_pipeline.Dict.{Dict, lookup, insert, get_or, append_at}
use ctv_attribution_pipeline.Model.{
  validate, Ident, Exposure, ResolvedConversion, AttributedConversion,
}
use ctv_attribution_pipeline.Attribute.LastTouch.{
  Candidate, attributed_row, candidate, latest_touch, assist_ids, touch_eligible, attribute_one,
  last_touch, attribute_household,
}
use ctv_attribution_pipeline.Attribute.Candidates.{candidates_of}
use ctv_attribution_pipeline.Attribute.LastTouch.Outcome.{Credits, Misses, last_touch-outcome}
use ctv_attribution_pipeline.Attribute.LastTouch.Total.{
  Attributable, Coherent, household-ok, attribute_household-ok,
}
use ctv_attribution_pipeline.Attribute.Streaming.{
  Event, exp, res, StreamResult, steps, step, release, flush, attribute_household_streaming,
}
use ctv_attribution_pipeline.Attribute.Streaming.Arrival.{InTolerance, exposures_of}
use ctv_attribution_pipeline.Attribute.Streaming.Occupancy.{streaming_accounts}
use ctv_attribution_pipeline.Attribute.Candidates.{
  by_conversion, fanouts, one_row_per_conversion, candidate_households_by_conversion,
}
use ctv_attribution_pipeline.Attribute.Candidates.OneRow.{
  conversion_of, Bounds, one_row-lowest, one_row-conversions,
}
use ctv_attribution_pipeline.Attribute.Candidates.Sets.{fans_out, candidate_households_exact}
use ctv_attribution_pipeline.Attribute.Dedup.{dedup_by_id, same_id}
use ctv_attribution_pipeline.Attribute.Dedup.Laws.{
  has_key, FirstOnly, firsts, dedup_by_id-firsts, dedup_by_id-keys,
}
use ctv_attribution_pipeline.Reconcile.{
  pick_household, latest_credit, restamp, reconcile, reconcile_groups, group_by_conversion,
  score_group,
}
use ctv_attribution_pipeline.Reconcile.Recovery.{Recovered, reconcile-Recovered}
use ctv_attribution_pipeline.Reconcile.Pick.{Picked, pick_household-Picked}
use ctv_attribution_pipeline.Attribute.Streaming.Parity.{streaming-parity}
use ctv_attribution_pipeline.Attribute.Streaming.Parity.Schedule.{release_order}

-- one late exposure, one on time and a conversion between them
abbrev day_events : List Event
day_events = res sale ∷ exp late ∷ exp early ∷ []

abbrev six_hours : ℕ
six_hours = 6 * hour

abbrev week : ℕ
week = 168 * hour

day_events-InTolerance : All (InTolerance six_hours) day_events
day_events-InTolerance = (
  record { dated = omega arith; after = omega arith; late = omega arith },
  (
    record { dated = omega arith; after = omega arith; late = omega arith },
    (record { dated = omega arith; after = omega arith; late = omega arith }, tt),
  ),
)

streaming-parity_example :
    map_ok
      (λ (q : StreamResult). q.candidates)
      (attribute_household_streaming week [] day_events six_hours)
    ≡ attribute_household (exposures_of day_events) (release_order six_hours day_events) week []
streaming-parity_example = streaming-parity six_hours week [] day_events day_events-InTolerance

sale-Coherent : Coherent sale []
sale-Coherent = record {
  certain = λ _. refl;
  counted = λ h. absurd (h refl);
  ascending = λ h. absurd (h refl);
  placed = λ h. absurd (h refl);
}

abbrev sets_of_31 : Dict (List Ident)
sets_of_31 = (31, 2 ∷ 3 ∷ []) ∷ []

fanned-Coherent : Coherent (fanned 31 2) (2 ∷ 3 ∷ [])
fanned-Coherent = record {
  certain = λ h. absurd (cc h);
  counted = λ _. refl;
  ascending = λ _. ((omega arith, tt), (tt, tt));
  placed = λ _. refl;
}

-- the later touch is credited, the earlier one assists
abbrev sale_credit : Candidate
sale_credit = record {
  row = attributed_row sale (some 12) (11 ∷ []) true [];
  last_touch_time = some (214 * hour);
}

last_touch_run : last_touch (early ∷ late ∷ []) sale week [] ≡ ok sale_credit
unfolding last_touch touch_eligible candidate validate latest_touch assist_ids sorted_set insert_new
last_touch_run = refl

last_touch-outcome_example :
    Credits (early ∷ late ∷ []) sale week sale_credit
    ⊎ Misses (early ∷ late ∷ []) sale week sale_credit
last_touch-outcome_example =
    last_touch-outcome (early ∷ late ∷ []) sale week [] sale_credit last_touch_run

-- the sale, and a conversion with two candidates
sale-Attributable : All (Attributable week sets_of_31) (sale ∷ fanned 31 2 ∷ [])
unfolding candidates_of get_or lookup
sale-Attributable = ((omega arith, sale-Coherent), ((2 ∷ 3 ∷ [], refl, fanned-Coherent), tt))

attribute_household-ok_example : All (Attributable week sets_of_31) (sale ∷ fanned 31 2 ∷ []) ↔ (
    (out : List Candidate) × (attribute_household
        (early ∷ [])
        (sale ∷ fanned 31 2 ∷ [])
        week
        sets_of_31
      ≡ ok out)
    × (length out ≡ 2))
attribute_household-ok_example =
    attribute_household-ok (early ∷ []) (sale ∷ fanned 31 2 ∷ []) week sets_of_31

-- both rows are returned
returned_rows :
    (out : List Candidate) × (attribute_household
        (early ∷ [])
        (sale ∷ fanned 31 2 ∷ [])
        week
        sets_of_31
      ≡ ok out)
    × (length out ≡ 2)
returned_rows =
    household-ok (early ∷ []) (sale ∷ fanned 31 2 ∷ []) week sets_of_31 sale-Attributable

abbrev day_result : StreamResult
day_result = record {
  candidates = sale_credit ∷ [];
  state = record { peak = 2; evicted = 0; final = 2 };
}

streaming_run : attribute_household_streaming week [] day_events six_hours ≡ ok day_result
unfolding attribute_household_streaming steps step release flush attribute_household attribute_one
    last_touch touch_eligible candidate validate latest_touch assist_ids sorted_set insert_new
    sort_by insert_by
streaming_run = refl

streaming_accounts_example :
    (day_result.state.evicted + day_result.state.final ≡ length (exposures_of day_events))
    × (day_result.state.final ≤ day_result.state.peak)
    × (day_result.state.peak ≤ length (exposures_of day_events))
streaming_accounts_example =
    streaming_accounts week [] six_hours day_events day_result streaming_run

-- the address of the conversion has two owners, and a re-send
abbrev shared_rows : List ResolvedConversion
shared_rows = fanned 31 3 ∷ fanned 31 2 ∷ fanned 31 3 ∷ sale ∷ []

candidate_households_exact_example :
    let hhs = get_or [] 31 (candidate_households_by_conversion shared_rows) in
    Ascending hhs × (mem 2 hhs ≡ any (fans_out 31 2) shared_rows)
candidate_households_exact_example = candidate_households_exact shared_rows 31 2

lowest_run : lookup 31 (by_conversion [] shared_rows) ≡ some (fanned 31 2)
unfolding lookup by_conversion insert
lowest_run = refl

one_row-lowest_example : Bounds 31 (fanned 31 2) shared_rows
one_row-lowest_example = one_row-lowest shared_rows 31 (fanned 31 2) lowest_run

one_row-conversions_example :
    map conversion_of (one_row_per_conversion shared_rows)
    ≡ map conversion_of (firsts same_id conversion_of [] shared_rows)
one_row-conversions_example = one_row-conversions shared_rows

-- a stream of exposures with a re-send
abbrev resent : List Exposure
resent = early ∷ late ∷ early ∷ []

abbrev exposure_key : Exposure → Ident
exposure_key e = e.exposure_id

dedup_by_id-firsts_example :
    ((dedup_by_id same_id exposure_key resent).0 ≡ firsts same_id exposure_key [] resent)
    × (length (dedup_by_id same_id exposure_key resent).0
          + (dedup_by_id same_id exposure_key resent).1
        ≡ 3)
dedup_by_id-firsts_example = dedup_by_id-firsts same_id exposure_key ==_iff resent

dedup_by_id-keys_example :
    FirstOnly same_id exposure_key (dedup_by_id same_id exposure_key resent).0
    × ((k : Ident)
        → has_key same_id exposure_key k (dedup_by_id same_id exposure_key resent).0
          ≡ has_key same_id exposure_key k resent)
dedup_by_id-keys_example = dedup_by_id-keys same_id exposure_key ==_iff resent

-- two attributed households with the same time, and one that is not attributed
abbrev scores : List Candidate
scores =
    scored 3 (some 12) true (some hour)
    ∷ scored 2 (some 12) true (some hour)
    ∷ scored 4 none false none
    ∷ []

pick_household-Picked_example : Picked scores (pick_household scores)
pick_household-Picked_example = pick_household-Picked scores

-- an hour before the sale of 31 each of its two households saw one exposure
abbrev seen_at : Dict (List Exposure)
seen_at =
    (2, shown 51 2 (219 * hour) (220 * hour) ∷ [])
    ∷ (3, shown 52 3 (218 * hour) (220 * hour) ∷ [])
    ∷ []

abbrev recovered_row : AttributedConversion
recovered_row = restamp (230 * hour) (attributed_row (fanned 31 2) (some 51) [] true (2 ∷ 3 ∷ []))

recovery_run :
    reconcile (fanned 31 3 ∷ fanned 31 2 ∷ []) seen_at week (230 * hour) ≡ ok (recovered_row ∷ [])
unfolding reconcile reconcile_groups group_by_conversion append_at score_group
    candidate_households_by_conversion fanouts last_touch touch_eligible candidate validate
    latest_touch assist_ids sorted_set insert_new get_or pick_household latest_credit
recovery_run = refl

reconcile-Recovered_example :
    All (Recovered seen_at week (230 * hour) (fanned 31 3 ∷ fanned 31 2 ∷ [])) (recovered_row ∷ [])
reconcile-Recovered_example =
    reconcile-Recovered (fanned 31 3 ∷ fanned 31 2 ∷ []) seen_at week (230 * hour)
      (recovered_row ∷ []) recovery_run

-- At the bound of the lateness: an exposure that is fired and ingested six hours after the conversion
-- ties with one that is ingested six hours late, sorts before it by its identifier, and releases the
-- conversion first.
abbrev noon : ResolvedConversion
noon = certain 61 5 (220 * hour) (221 * hour)

abbrev tied_events : List Event
tied_events =
    res noon
    ∷ exp (shown 71 5 (226 * hour) (226 * hour))
    ∷ exp (shown 72 5 (220 * hour) (226 * hour))
    ∷ []

abbrev tied_miss : Candidate
tied_miss = record { row = attributed_row noon none [] false []; last_touch_time = none }

abbrev tied_hit : Candidate
tied_hit = record {
  row = attributed_row noon (some 72) [] true [];
  last_touch_time = some (220 * hour);
}

tied_streaming :
    map_ok
      (λ (q : StreamResult). q.candidates)
      (attribute_household_streaming week [] tied_events six_hours)
    ≡ ok (tied_miss ∷ [])
unfolding attribute_household_streaming steps step release flush attribute_household attribute_one
    last_touch touch_eligible candidate validate latest_touch assist_ids sorted_set insert_new
    sort_by insert_by
tied_streaming = refl

tied_rule : attribute_household (exposures_of tied_events) (noon ∷ []) week [] ≡ ok (tied_hit ∷ [])
unfolding attribute_household attribute_one last_touch touch_eligible candidate validate
    latest_touch assist_ids sorted_set insert_new exposures_of
tied_rule = refl
