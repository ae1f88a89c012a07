-- ===== src/Resolve.antt =====
-- resolve/index.py, resolve/resolver.py and resolve/metrics.py: the lookup index over the device graph,
-- the map of a conversion to zero, one or several resolved records, and the counters of that step.
pub mod Index
pub mod Fanout
use ctv_attribution_pipeline.Base.{
  ℕ, ◌+◌, Bool, true, false, Option, none, some, List, [], ◌∷◌, ◌++◌, map, ltb, if◌then◌else◌,
  length,
}
use ctv_attribution_pipeline.Sort.Sets.{sorted_set}
use ctv_attribution_pipeline.Dict.{Dict, lookup, insert, get_or, append_at}
use ctv_attribution_pipeline.Model.{
  Ident, Household, Device, Conversion, ResolvedConversion, Resolution, device, ip_fallback,
}

pub record GraphIndex : Type 0 where
  pub device_of : Dict Ident
  pub owners_of : Dict (List Ident)

-- `{h.household_id: h for h in households}`: the last message of a household wins
unfoldable pub latest_from : Dict Household → List Household → Dict Household
latest_from d [] = d
latest_from d (h ∷ hs) = latest_from (insert h.household_id h d) hs

-- `for d in h.devices: device_of[d.device_id] = hid`
unfoldable pub add_devices : Ident → List Device → Dict Ident → Dict Ident
add_devices hid [] m = m
add_devices hid (d ∷ ds) m = add_devices hid ds (insert d.device_id hid m)

-- `for ip in h.ips: owners.setdefault(ip, set()).add(hid)`; a set is the list of what was added
unfoldable pub add_ips : Ident → List Ident → Dict (List Ident) → Dict (List Ident)
add_ips hid [] m = m
add_ips hid (ip ∷ ips) m = add_ips hid ips (append_at ip hid m)

unfoldable pub device_index : Dict Household → Dict Ident → Dict Ident
device_index [] m = m
device_index (e ∷ es) m = device_index es (add_devices e.0 e.1.devices m)

unfoldable pub owner_sets : Dict Household → Dict (List Ident) → Dict (List Ident)
owner_sets [] m = m
owner_sets (e ∷ es) m = owner_sets es (add_ips e.0 e.1.ips m)

-- `GraphIndex.from_households`
unfoldable pub from_households : List Household → GraphIndex
from_households households =
    let newest = latest_from [] households in
    record {
      device_of = device_index newest [];
      owners_of = map (λ e. (e.0, sorted_set e.1)) (owner_sets newest []);
    }

-- `_resolved`
unfoldable pub resolved_as : Conversion → Ident → Resolution → Bool → ℕ → ResolvedConversion
resolved_as conv household_id resolution ambiguous candidate_count = record {
  conversion = conv;
  household_id = household_id;
  resolution = resolution;
  ambiguous = ambiguous;
  candidate_count = candidate_count;
}

-- the IP fallback of `resolve_one`: one record for each owner, or none
unfoldable pub resolve_by_owners : Conversion → List Ident → List ResolvedConversion
resolve_by_owners conv [] = []
resolve_by_owners conv (o ∷ os) =
    let n = length (o ∷ os) in
    map (λ owner. resolved_as conv owner ip_fallback (ltb 1 n) n) (o ∷ os)

-- the device-graph hit goes first, then the owners of the address
unfoldable pub resolve_found : Conversion → List Ident → Option Ident → List ResolvedConversion
resolve_found conv owners (some hid) = resolved_as conv hid device false 1 ∷ []
resolve_found conv owners none = resolve_by_owners conv owners

unfoldable pub resolve_one : Conversion → GraphIndex → List ResolvedConversion
resolve_one conv index =
    resolve_found conv (get_or [] conv.ip index.owners_of) (lookup conv.device_id index.device_of)

unfoldable pub resolve_stream : List Conversion → GraphIndex → List ResolvedConversion
resolve_stream [] index = []
resolve_stream (conv ∷ rest) index = resolve_one conv index ++ resolve_stream rest index

-- the counters of resolve/metrics.py
pub record ResolveMetrics : Type 0 where
  pub consumed : ℕ
  pub input_backlog : ℕ
  pub resolved_total : ℕ
  pub unresolved : ℕ
  pub ambiguous_total : ℕ
  pub emitted_device : ℕ
  pub emitted_ip : ℕ

abbrev pub zero_metrics : ResolveMetrics
zero_metrics = record {
  consumed = 0;
  input_backlog = 0;
  resolved_total = 0;
  unresolved = 0;
  ambiguous_total = 0;
  emitted_device = 0;
  emitted_ip = 0;
}

unfoldable pub observe_backlog : ℕ → ResolveMetrics → ResolveMetrics
observe_backlog n m = record m { input_backlog = n }

-- `for r in resolved: EMITTED.labels(resolution=r.resolution).inc()`
unfoldable pub count_emitted : List ResolvedConversion → ResolveMetrics → ResolveMetrics
count_emitted [] m = m
count_emitted (r ∷ rs) m = count_emitted rs (elim r.resolution [
  | device ↦ record m { emitted_device = m.emitted_device + 1 }
  | ip_fallback ↦ record m { emitted_ip = m.emitted_ip + 1 }
])

unfoldable pub observe : List ResolvedConversion → ResolveMetrics → ResolveMetrics
observe [] m = record m { consumed = m.consumed + 1; unresolved = m.unresolved + 1 }
observe (r ∷ rs) m = count_emitted (r ∷ rs) (record m {
  consumed = m.consumed + 1;
  resolved_total = m.resolved_total + 1;
  ambiguous_total = if r.ambiguous then m.ambiguous_total + 1 else m.ambiguous_total;
})

-- `resolve_conversions` of streaming/dataflow.py, once the graph is loaded
unfoldable pub resolve_loop :
    List Conversion → GraphIndex → ResolveMetrics → List ResolvedConversion × ResolveMetrics
resolve_loop [] index m = ([], m)
resolve_loop (conv ∷ rest) index m =
    let rows = resolve_one conv index in
    let (out, m') = resolve_loop rest index (observe rows m) in (rows ++ out, m')

unfoldable pub resolve_conversions :
    List Household → List Conversion → ResolveMetrics → List ResolvedConversion × ResolveMetrics
resolve_conversions households conversions m =
    resolve_loop conversions (from_households households) (observe_backlog (length conversions) m)
