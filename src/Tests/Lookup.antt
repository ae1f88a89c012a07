-- ===== src/Tests/Lookup.antt =====
-- The resolve step, the row validator and the engine's counters, at concrete rows.
use ctv_attribution_pipeline.Base.{
  ◌+◌, ◌*◌, ◌≡◌, refl, true, false, none, some, List, [], ◌∷◌, arith, map, length, mem, All, Occurs,
  ok,
}
use ctv_attribution_pipeline.Tests.Data.{
  idle, hour, bought, fanned, early, late, sale, home, neighbour,
}
use ctv_attribution_pipeline.Sort.Sets.{Ascending, sorted_set, insert_new}
use ctv_attribution_pipeline.Sort.Stable.{sort_by, insert_by}
use ctv_attribution_pipeline.Dict.{lookup, insert, append_at}
use ctv_attribution_pipeline.Model.{Household, Conversion, AttributedConversion, validate}
use ctv_attribution_pipeline.Model.Validator.{IsAccepted, validate-IsAccepted}
use ctv_attribution_pipeline.Resolve.{from_households, resolve_one, resolve_loop, zero_metrics}
use ctv_attribution_pipeline.Resolve.Index.{owners, last_of, has_ip, owners_exact}
use ctv_attribution_pipeline.Resolve.Fanout.{
  candidates_of, Fanned, IsBalanced, resolve_one-fanout, resolve_loop-IsBalanced,
}
use ctv_attribution_pipeline.Attribute.Candidates.{
  by_conversion, one_row_per_conversion, fanouts, candidate_households_by_conversion,
}
use ctv_attribution_pipeline.Attribute.LastTouch.{
  attributed_row, candidate, latest_touch, assist_ids, touch_eligible, attribute_one, last_touch,
  attribute_household,
}
use ctv_attribution_pipeline.Attribute.Streaming.{
  steps, step, release, flush, attribute_household_streaming,
}
use ctv_attribution_pipeline.Attribute.Oracle.{sort_rows}
use ctv_attribution_pipeline.Engine.{
  EngineMetrics, observe, observe_state, observe_rows, bucket_exposures, bucket_resolved,
  run_households, run_attribution,
}
use ctv_attribution_pipeline.Lake.{current_from, touched_days, in_days, day_of}
use ctv_attribution_pipeline.Lake.Days.{touched_days-exact}
use ctv_attribution_pipeline.Lake.Current.{Newest, current_from-Newest}
use ctv_attribution_pipeline.Reconcile.{restamp}
use ctv_attribution_pipeline.Engine.Counters.{Counted, run_attribution-Counted}

abbrev street : List Household
street = neighbour ∷ home ∷ []

-- from the known device of the home, and from a device nobody owns
abbrev known : Conversion
known = bought 41 hour (2 * hour)

abbrev guest : Conversion
guest = record known { device_id = 99 }

owners_exact_example :
    Ascending (owners street 9) × (mem 5 (owners street 9) ≡ has_ip 9 (last_of 5 none street))
owners_exact_example = owners_exact street 5 9

resolve_one-fanout_example :
    (map (λ r. r.household_id) (resolve_one guest (from_households street))
      ≡ candidates_of guest (from_households street))
    × All
        (Fanned guest (candidates_of guest (from_households street)))
        (resolve_one guest (from_households street))
resolve_one-fanout_example = resolve_one-fanout guest (from_households street)

zero-IsBalanced : IsBalanced zero_metrics 0
zero-IsBalanced = record {
  consumed = omega arith;
  emitted_all = omega arith;
  ambiguous_le = omega arith;
  resolved_le = omega arith;
}

resolve_loop-IsBalanced_example :
    let out = resolve_loop (known ∷ guest ∷ []) (from_households street) zero_metrics in
    IsBalanced out.1 (0 + length out.0)
resolve_loop-IsBalanced_example =
    resolve_loop-IsBalanced (known ∷ guest ∷ []) (from_households street) zero_metrics 0
      zero-IsBalanced

-- a deferred row with its candidate set
abbrev deferred : AttributedConversion
deferred = attributed_row (fanned 31 2) none [] false (2 ∷ 3 ∷ [])

deferred_run : validate deferred ≡ ok deferred
unfolding validate sorted_set insert_new
deferred_run = refl

validate-IsAccepted_example : (deferred ≡ deferred) × IsAccepted deferred
validate-IsAccepted_example = validate-IsAccepted deferred deferred deferred_run

deferred-IsAccepted : IsAccepted deferred
deferred-IsAccepted = record {
  certain = λ h. absurd (omega (arith, h));
  counted = λ h. refl;
  ascending = λ h. ((omega arith, tt), (tt, tt));
  placed = λ h. refl;
}

-- no counter has moved yet
abbrev after_run : EngineMetrics
after_run = record idle {
  processed = 1;
  attributed = 1;
  assists = 1;
  join_state_peak = 2;
  join_state_size = 2;
  join_state_current = 2;
}

abbrev sale_row : AttributedConversion
sale_row = attributed_row sale (some 12) (11 ∷ []) true []

run_attribution_run :
    run_attribution (early ∷ late ∷ []) (sale ∷ []) (6 * hour) idle ≡ ok (sale_row ∷ [], after_run)
unfolding run_attribution bucket_exposures bucket_resolved append_at one_row_per_conversion
    by_conversion lookup insert candidate_households_by_conversion fanouts run_households
    observe_state observe_rows observe sort_rows attribute_household_streaming steps step release
    flush attribute_household attribute_one last_touch touch_eligible candidate validate
    latest_touch assist_ids sorted_set insert_new sort_by insert_by
run_attribution_run = refl

run_attribution-Counted_example : Counted idle after_run 1
run_attribution-Counted_example =
    run_attribution-Counted (early ∷ late ∷ []) (sale ∷ []) (6 * hour) idle after_run
      (sale_row ∷ []) run_attribution_run

-- the corrected row of a conversion is landed after its hot row, and another conversion's between
abbrev corrected : AttributedConversion
corrected = restamp (240 * hour) (attributed_row (fanned 31 2) (some 12) [] true (2 ∷ 3 ∷ []))

abbrev log : List AttributedConversion
log = deferred ∷ sale_row ∷ corrected ∷ deferred ∷ []

current_run : lookup 31 (current_from [] log) ≡ some corrected
unfolding lookup current_from insert
current_run = refl

current_from-Newest_example :
    Occurs corrected log × (corrected.conversion_id ≡ 31) × Newest 31 corrected log
current_from-Newest_example = current_from-Newest log 31 corrected current_run

touched_days-exact_example :
    (mem 1 (touched_days (3 * hour ∷ 30 * hour ∷ hour ∷ []))
      ≡ mem 1 (map day_of (3 * hour ∷ 30 * hour ∷ hour ∷ [])))
    × (in_days (some (touched_days (3 * hour ∷ 30 * hour ∷ hour ∷ []))) (40 * hour)
        ≡ mem (day_of (40 * hour)) (map day_of (3 * hour ∷ 30 * hour ∷ hour ∷ [])))
touched_days-exact_example = touched_days-exact (3 * hour ∷ 30 * hour ∷ hour ∷ []) 1 (40 * hour)
