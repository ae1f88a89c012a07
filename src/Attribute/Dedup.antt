-- ===== src/Attribute/Dedup.antt =====
-- `dedup_by_id` and `dedup_streams` of streaming/attribute.py. The seen-set is the list of its keys.
pub mod Laws
use ctv_attribution_pipeline.Base.{
  ℕ, ◌+◌, Bool, true, false, ◌&&◌, List, [], ◌∷◌, ◌==◌, if◌then◌else◌, any,
}
use ctv_attribution_pipeline.Model.{Ident, Exposure, ResolvedConversion}

module _ {ℓ κ} {M : Type ℓ} {K : Type κ} (same : K → K → Bool) (key : M → K) where
  -- the rest of the loop, from a seen-set: the rows kept and the number suppressed
  unfoldable pub dedup_from : List K → List M → List M × ℕ
  dedup_from seen [] = ([], 0)
  dedup_from seen (row ∷ rows) =
      let k = key row in
      let hit = any (same k) seen in
      let (kept, suppressed) = dedup_from (if hit then seen else k ∷ seen) rows in
      if hit then (kept, suppressed + 1) else (row ∷ kept, suppressed)

  unfoldable pub dedup_by_id : List M → List M × ℕ
  dedup_by_id rows = dedup_from [] rows

abbrev pub same_id : Ident → Ident → Bool
same_id a b = a == b

-- `(conversion_id, household_id)`
abbrev ResolvedKey : Type 0
ResolvedKey = Ident × Ident

abbrev same_resolved_key : ResolvedKey → ResolvedKey → Bool
same_resolved_key a b = a.0 == b.0 && a.1 == b.1

abbrev resolved_key : ResolvedConversion → ResolvedKey
resolved_key r = (r.conversion_id, r.household_id)

pub record Deduped : Type 0 where
  pub exposures : List Exposure
  pub resolved : List ResolvedConversion
  pub suppressed : ℕ

unfoldable pub dedup_streams : List Exposure → List ResolvedConversion → Deduped
dedup_streams exposures resolved =
    let (exp, exp_n) = dedup_by_id same_id (λ (e : Exposure). e.exposure_id) exposures in
    let (res, res_n) = dedup_by_id same_resolved_key resolved_key resolved in
    record { exposures = exp; resolved = res; suppressed = exp_n + res_n }
