-- ===== src/Reconcile.antt =====
-- reconcile/reconcile.py: the second attribution path over the lake of record. `bucket_of` is the hash
-- of the table format, a parameter of what calls it.
pub mod Pick
pub mod Recovery
pub mod Bucketed
pub mod Hashes
use ctv_attribution_pipeline.Base.{
  ℕ, ◌+◌, ◌-◌, ◌*◌, Bool, true, false, ◌&&◌, ◌||◌, not, Option, none, some, List, [], ◌∷◌, ◌++◌,
  map, ◌==◌, ltb, leb, if◌then◌else◌, filter, length, Result, ok, err, ◌>>=◌, ◌>>◌, map_all,
  not_expanded, overflow, reason_disagrees, raise_if,
}
use ctv_attribution_pipeline.Sort.Sets.{sorted_set}
use ctv_attribution_pipeline.Dict.{Dict, insert, get_or, append_at, keys}
use ctv_attribution_pipeline.Model.{
  Ident, Instant, Exposure, ResolvedConversion, AttributedConversion, AttributionPath, hot,
  reconciled, Reason, ambiguous_ip, state_miss,
}
use ctv_attribution_pipeline.Attribute.Candidates.{candidate_households_by_conversion}
use ctv_attribution_pipeline.Attribute.LastTouch.{Candidate, last_touch}
use ctv_attribution_pipeline.Lake.{
  Lake, Day, day_ms, day_of, read_current, read_exposures_by_household, land_attributed,
}

-- `timedelta(days=90)` and RECONCILE_DELTA_MS
abbrev pub long_window : ℕ
long_window = 90 * 86_400_000

abbrev pub reconcile_delta : ℕ
reconcile_delta = 1000

unfoldable pub reconciled_at_for : Instant → Instant
reconciled_at_for base = base + reconcile_delta

-- `None` is below every value; it does not occur among attributed candidates
abbrev pub rank_of : Option ℕ → ℕ
rank_of none = 0
rank_of (some n) = n + 1

-- `(last_touch_time, exposure_id, household_id)`, compared as Python compares tuples
abbrev pub credit_lt : Candidate → Candidate → Bool
credit_lt a b =
    ltb (rank_of a.last_touch_time) (rank_of b.last_touch_time)
    || (rank_of a.last_touch_time == rank_of b.last_touch_time
        && (ltb (rank_of a.row.exposure_id) (rank_of b.row.exposure_id)
            || (rank_of a.row.exposure_id == rank_of b.row.exposure_id
                && ltb a.row.household_id b.row.household_id)))

unfoldable pub latest_credit : Candidate → List Candidate → Candidate
latest_credit c [] = c
latest_credit c (x ∷ xs) = latest_credit (if credit_lt c x then x else c) xs

abbrev pub pick_among : List Candidate → Option Candidate
pick_among [] = none
pick_among (c ∷ cs) = some (latest_credit c cs)

unfoldable pub pick_household : List Candidate → Option Candidate
pick_household candidates = pick_among (filter (λ (c : Candidate). c.row.attributed) candidates)

abbrev pub at_household : ResolvedConversion → Ident → ResolvedConversion
at_household base h = record base { household_id = h }

unfoldable pub expand_one : AttributedConversion → List ResolvedConversion
expand_one conv =
    if ltb 1 conv.candidate_count
    then map (at_household conv.resolved) conv.candidate_households
    else conv.resolved ∷ []

unfoldable pub expand_candidates : List AttributedConversion → List ResolvedConversion
expand_candidates [] = []
expand_candidates (conv ∷ rest) = expand_one conv ++ expand_candidates rest

-- `groups.setdefault(conv.conversion_id, []).append(conv)`
unfoldable pub group_by_conversion :
    Dict (List ResolvedConversion) → List ResolvedConversion → Dict (List ResolvedConversion)
group_by_conversion groups [] = groups
group_by_conversion groups (conv ∷ rest) =
    group_by_conversion (append_at conv.conversion_id conv groups) rest

-- a group of one row that still names several candidates
abbrev pub unexpanded : List ResolvedConversion → Bool
unexpanded [] = false
unexpanded (r ∷ []) = ltb 1 r.candidate_count
unexpanded (r ∷ s ∷ rest) = false

-- `winner.row.model_copy(update={…})`, which runs no validator
abbrev pub restamp : Instant → AttributedConversion → AttributedConversion
restamp reconciled_at row = record row { path = reconciled; processed_at = reconciled_at }

abbrev pub recovered_rows : Instant → Option Candidate → List AttributedConversion
recovered_rows reconciled_at none = []
recovered_rows reconciled_at (some winner) = restamp reconciled_at winner.row ∷ []

unfoldable pub score_group :
    Dict (List Exposure) → ℕ → List Ident → List ResolvedConversion → Result (List Candidate)
score_group exposures window hhs rows =
    map_all
      (λ (r : ResolvedConversion). last_touch (get_or [] r.household_id exposures) r window hhs)
      rows

unfoldable pub reconcile_groups :
    Dict (List Exposure)
    → ℕ
    → Instant
    → Dict (List Ident)
    → Dict (List ResolvedConversion)
    → Result (List AttributedConversion)
reconcile_groups exposures window reconciled_at by_cid [] = ok []
reconcile_groups exposures window reconciled_at by_cid ((cid, rows) ∷ groups) = do
  raise_if (unexpanded rows) not_expanded
  scored ← score_group exposures window (get_or [] cid by_cid) rows
  rest ← reconcile_groups exposures window reconciled_at by_cid groups
  ok (recovered_rows reconciled_at (pick_household scored) ++ rest)

unfoldable pub reconcile :
    List ResolvedConversion
    → Dict (List Exposure)
    → ℕ
    → Instant
    → Result (List AttributedConversion)
reconcile candidates exposures window reconciled_at =
    reconcile_groups exposures window reconciled_at (candidate_households_by_conversion candidates)
      (group_by_conversion [] candidates)

abbrev reason_agrees : Bool → Option Reason → Bool
reason_agrees ambiguous none = true
reason_agrees ambiguous (some ambiguous_ip) = ambiguous
reason_agrees ambiguous (some state_miss) = not ambiguous

unfoldable pub check_candidate : AttributedConversion → Result (Unit {0})
check_candidate r =
    raise_if (not (reason_agrees (ltb 1 r.candidate_count) r.reason)) reason_disagrees

abbrev pub is_hot : AttributionPath → Bool
is_hot hot = true
is_hot reconciled = false

-- `not r.attributed and r.path == "hot"`
abbrev pub is_candidate : AttributedConversion → Bool
is_candidate r = not r.attributed && is_hot r.path

unfoldable pub check_all : List AttributedConversion → Result (Unit {0})
check_all [] = ok tt
check_all (r ∷ rs) = check_candidate r >>= λ _. check_all rs

unfoldable pub lake_candidates : Option Day → Lake → Result (List AttributedConversion)
lake_candidates day lake = do
  current ← read_current (elim day [ none ↦ none | some d ↦ some (d ∷ []) ]) lake
  check_all (filter is_candidate current)
  ok (filter is_candidate current)

unfoldable pub candidate_days : Lake → Result (List Day)
candidate_days lake = do
  rows ← lake_candidates none lake
  ok (sorted_set (map (λ (r : AttributedConversion). day_of r.event_time) rows))

module _ (bucket_of : Ident → ℕ) where
  unfoldable pub by_bucket : Dict (List Ident) → List ResolvedConversion → Dict (List Ident)
  by_bucket d [] = d
  by_bucket d (r ∷ rs) = by_bucket (append_at (bucket_of r.household_id) r.household_id d) rs

-- `d.update(e)`
unfoldable pub update : Dict (List Exposure) → Dict (List Exposure) → Dict (List Exposure)
update d [] = d
update d (e ∷ es) = update (insert e.0 e.1 d) es

-- the loop over `sorted(by_bucket)`
unfoldable pub read_buckets :
    Dict (List Ident)
    → Instant
    → Instant
    → Lake
    → Dict (List Exposure)
    → List ℕ
    → Dict (List Exposure)
read_buckets buckets lo hi lake exposures [] = exposures
read_buckets buckets lo hi lake exposures (b ∷ bs) =
    read_buckets buckets lo hi lake
      (update exposures
        (read_exposures_by_household (get_or [] b buckets) (some lo) (some hi) lake))
      bs

-- the exposures that one day's pass reads, bucket by bucket, after `check_start`
unfoldable pub bucketed_exposures :
    (Ident → ℕ) → Day → ℕ → List ResolvedConversion → Lake → Dict (List Exposure)
bucketed_exposures bucket_of day window expanded lake =
    let start = day * day_ms in
    let buckets = by_bucket bucket_of [] expanded in
    read_buckets buckets (start - window) (start + day_ms) lake [] (sorted_set (keys buckets))

-- `start - window` below the least datetime, which the loop computes for each bucket
abbrev pub check_start : Day → ℕ → List ResolvedConversion → Result (Unit {0})
check_start day window [] = ok tt
check_start day window (r ∷ expanded) = raise_if (ltb (day * day_ms) window) overflow

unfoldable pub recover_day :
    (Ident → ℕ) → Day → Instant → ℕ → Lake → Result (List AttributedConversion)
recover_day bucket_of day reconciled_at window lake = do
  candidates ← lake_candidates (some day) lake
  let expanded = expand_candidates candidates
  check_start day window expanded
  reconcile expanded (bucketed_exposures bucket_of day window expanded lake) window reconciled_at

unfoldable pub recover_days :
    (Ident → ℕ) → List Day → Instant → Lake → Result (List AttributedConversion)
recover_days bucket_of [] reconciled_at lake = ok []
recover_days bucket_of (d ∷ ds) reconciled_at lake = do
  rows ← recover_day bucket_of d reconciled_at long_window lake
  rest ← recover_days bucket_of ds reconciled_at lake
  ok (rows ++ rest)

pub record PassCounts : Type 0 where
  pub candidates : ℕ
  pub recovered : ℕ
  pub still_missing : ℕ

-- `run`, up to the load and the reports, which the serving layer does from what was landed
unfoldable pub run_pass : (Ident → ℕ) → Instant → Lake → Result (Lake × List Day × PassCounts)
run_pass bucket_of max_ingest lake = do
  let reconciled_at = reconciled_at_for max_ingest
  days ← candidate_days lake
  candidates ← lake_candidates none lake
  recovered ← recover_days bucket_of days reconciled_at lake
  let (lake', touched) = land_attributed recovered lake
  ok (
    lake',
    touched,
    record {
      candidates = length candidates;
      recovered = length recovered;
      still_missing = length candidates - length recovered;
    },
  )
