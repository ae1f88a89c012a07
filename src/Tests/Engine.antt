-- ===== src/Tests/Engine.antt =====
-- The engine and the oracle on one household.
use ctv_attribution_pipeline.Base.{
  ◌*◌, ◌≡◌, sym, ◌∙◌, inl, inr, All, List, true, [], ◌∷◌, some, ok, arith,
}
use ctv_attribution_pipeline.Sort.Sets.{sorted_set, insert_new}
use ctv_attribution_pipeline.Dict.{lookup, insert, get_or, append_at}
use ctv_attribution_pipeline.Model.{Conversion, AttributedConversion}
use ctv_attribution_pipeline.Attribute.LastTouch.{attributed_row}
use ctv_attribution_pipeline.Attribute.Oracle.{hot_window, attribute}
use ctv_attribution_pipeline.Engine.{EngineMetrics, run_attribution}
use ctv_attribution_pipeline.Engine.Total.{run_attribution-returns}
use ctv_attribution_pipeline.Engine.Resolved.{IsConsistent}
use ctv_attribution_pipeline.Resolve.{
  latest_from, add_devices, add_ips, device_index, owner_sets, from_households, resolved_as,
  resolve_by_owners, resolve_found, resolve_one, resolve_stream,
}
use ctv_attribution_pipeline.Attribute.Streaming.{res}
use ctv_attribution_pipeline.Attribute.Streaming.Arrival.{InTolerance}
use ctv_attribution_pipeline.Tests.Data.{hour, early, late, sale, idle, home, neighbour, bought}

abbrev credited_sale : AttributedConversion
credited_sale = attributed_row sale (some 12) (11 ∷ []) true []

-- from a device that nobody owns, at an address of two households
abbrev guest_sale : Conversion
guest_sale = record (bought 51 (215 * hour) (216 * hour)) { device_id = 99 }

one_sale-IsConsistent : IsConsistent (guest_sale ∷ [])
one_sale-IsConsistent a b (inl p) (inl q) e = p ∙ sym q
one_sale-IsConsistent a b (inl p) (inr o) e = absurd o
one_sale-IsConsistent a b (inr o) q e = absurd o

fanned_sale :
    All
      (λ r. InTolerance (6 * hour) (res r))
      (resolve_stream (guest_sale ∷ []) (from_households (home ∷ neighbour ∷ [])))
unfolding latest_from add_devices add_ips device_index owner_sets from_households resolved_as
    resolve_by_owners resolve_found resolve_one resolve_stream lookup insert get_or append_at
    sorted_set insert_new
fanned_sale = (
  record { dated = omega arith; after = omega arith; late = omega arith },
  (record { dated = omega arith; after = omega arith; late = omega arith }, tt),
)

run_attribution-returns_example :
    let resolved = resolve_stream (guest_sale ∷ []) (from_households (home ∷ neighbour ∷ [])) in
    (rows : List AttributedConversion) × (m' : EngineMetrics) × (run_attribution
        (early ∷ [])
        resolved
        (6 * hour)
        idle
      ≡ ok (rows, m'))
    × (attribute (early ∷ []) resolved hot_window ≡ ok rows)
run_attribution-returns_example =
    run_attribution-returns (home ∷ neighbour ∷ []) (guest_sale ∷ []) (early ∷ []) (6 * hour) idle
      one_sale-IsConsistent (omega arith, tt)
      (record { dated = omega arith; after = omega arith; late = omega arith }, tt) fanned_sale
