-- ===== src/Model.antt =====
-- producer/models.py: the rows of every stream and table. An identifier is only compared (for equality
-- and by `<`, the order of its code points), so it is the number of its place in that order; an instant
-- is a number of milliseconds since the least instant of Python's `datetime`; money is in cents, as
-- producer/generate.py rounds it. A subclass holds its parent as a field, whose fields it passes on.
pub mod Validator
use ctv_attribution_pipeline.Base.{
  ℕ, suc, ◌≡◌, Bool, true, false, ◌&&◌, ◌||◌, not, Option, none, some, List, [], ◌∷◌, Result, ok,
  err, validation, ◌==◌, if◌then◌else◌, length, mem,
}
use ctv_attribution_pipeline.Sort.Sets.{sorted_set}

abbrev pub Ident : Type 0
Ident = ℕ

abbrev pub Instant : Type 0
Instant = ℕ

pub record Exposure : Type 0 where
  pub exposure_id : Ident
  pub event_time : Instant
  pub ingest_time : Instant
  pub campaign_id : Ident
  pub household_id : Ident
  pub ip : Ident
  pub app_id : Ident
  pub program_genre : Ident
  pub spend : ℕ

pub data ConversionType : Type 0 where
  site_visit purchase : ConversionType

pub record Conversion : Type 0 where
  pub conversion_id : Ident
  pub event_time : Instant
  pub ingest_time : Instant
  pub device_id : Ident
  pub ip : Ident
  pub conversion_type : ConversionType
  pub revenue : ℕ
  pub order_id : Option Ident

pub data Resolution : Type 0 where
  device ip_fallback : Resolution

pub record ResolvedConversion : Type 0 where
  pub conversion : Conversion
  pub open conversion use *
  pub household_id : Ident
  pub resolution : Resolution
  pub ambiguous : Bool
  pub candidate_count : ℕ

pub data AttributionPath : Type 0 where
  hot reconciled : AttributionPath

pub data Reason : Type 0 where
  ambiguous_ip state_miss : Reason

pub record AttributedConversion : Type 0 where
  pub resolved : ResolvedConversion
  pub open resolved use *
  pub exposure_id : Option Ident
  pub assists : List Ident
  pub attributed : Bool
  pub path : AttributionPath
  pub processed_at : Instant
  pub reason : Option Reason
  pub candidate_households : List Ident

pub data DeviceKind : Type 0 where
  tv phone laptop tablet : DeviceKind

pub record Device : Type 0 where
  pub device_id : Ident
  pub kind : DeviceKind

pub record Household : Type 0 where
  pub household_id : Ident
  pub devices : List Device
  pub ips : List Ident

pub record TruthLink : Type 0 where
  pub conversion_id : Ident
  pub truth_exposure_id : Ident

abbrev pub same_ids : List Ident → List Ident → Bool
same_ids [] [] = true
same_ids (x ∷ xs) (y ∷ ys) = x == y && same_ids xs ys
same_ids _ _ = false

-- `_candidate_set_matches_count`, which runs whenever a row is built: the row, or a ValidationError
unfoldable pub validate : AttributedConversion → Result AttributedConversion
validate row =
    let hhs = row.candidate_households in
    if row.candidate_count == 1
    then (elim hhs [ [] ↦ ok row | _ ∷ _ ↦ err validation ])
    else if not (length hhs == row.candidate_count) || not (same_ids hhs (sorted_set hhs))
    then err validation
    else if not (mem row.household_id hhs)
    then err validation
    else ok row
