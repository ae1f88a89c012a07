-- ===== src/Accuracy.antt =====
-- accuracy/score.py and accuracy/guard.py: the accuracy of the credited rows against the truth links,
-- and the guard on the profile of the database. A double is replaced by the rational that it rounds: a
-- numerator and a denominator that is not zero.
pub mod Counts
use ctv_attribution_pipeline.Base.{
  ℕ, ◌+◌, ◌*◌, Bool, true, false, Option, none, some, List, [], ◌∷◌, ◌==◌, if◌then◌else◌, length,
  filter, not, Result, ok, err, no_marker, profile_mismatch,
}
use ctv_attribution_pipeline.Dict.{Dict, lookup, keys}
use ctv_attribution_pipeline.Dict.Laws.{is_some}
use ctv_attribution_pipeline.Model.{Ident}

pub record Ratio : Type 0 where
  pub num : ℕ
  pub den : ℕ

abbrev zero_ratio : Ratio
zero_ratio = record { num = 0; den = 1 }

-- `a / n if n else 0.0`
unfoldable pub ratio_or_zero : ℕ → ℕ → Ratio
ratio_or_zero a n = if n == 0 then zero_ratio else record { num = a; den = n }

-- `2 * p * r / (p + r) if (p + r) else 0.0`
unfoldable pub f1_of : Ratio → Ratio → Ratio
f1_of p r =
    let total = p.num * r.den + r.num * p.den in
    if total == 0
    then zero_ratio
    else record { num = (2 * (p.num * r.num)) * (p.den * r.den); den = (p.den * r.den) * total }

pub record AccuracyReport : Type 0 where
  pub profile : ℕ
  pub credited : ℕ
  pub truth_links : ℕ
  pub household_correct : ℕ
  pub precision : Ratio
  pub recall : Ratio
  pub f1 : Ratio
  pub exact_exposure_correct : ℕ
  pub exact_exposure_match_rate : Ratio
  pub organic_credited : ℕ
  pub caused_missed : ℕ
  pub caused_wrong_household : ℕ

-- the three counters of the loop
pub record Tally : Type 0 where
  pub household_correct : ℕ
  pub exact_correct : ℕ
  pub caused_wrong_household : ℕ

-- `exposure_household.get(truth_exposure) == household`
abbrev pub is_household : Ident → Option Ident → Bool
is_household household none = false
is_household household (some h) = h == household

-- one credited conversion, by its truth
unfoldable pub tally_one : Dict Ident → Ident → Ident → Option Ident → Tally → Tally
tally_one exposure_household household exposure_id none t = t
tally_one exposure_household household exposure_id (some truth) t =
    let hit = is_household household (lookup truth exposure_household) in
    record {
      household_correct = if hit then t.household_correct + 1 else t.household_correct;
      exact_correct = if exposure_id == truth then t.exact_correct + 1 else t.exact_correct;
      caused_wrong_household =
          if hit then t.caused_wrong_household else t.caused_wrong_household + 1;
    }

unfoldable pub tally : Dict (Ident × Ident) → Dict Ident → Dict Ident → Tally → Tally
tally [] truth exposure_household t = t
tally ((cid, (household, exposure_id)) ∷ rest) truth exposure_household t =
    tally rest truth exposure_household
      (tally_one exposure_household household exposure_id (lookup cid truth) t)

-- `sum(1 for cid in d if cid not in e)`
unfoldable pub count_missing {ℓ κ} : {V : Type ℓ} {W : Type κ} → Dict V → Dict W → ℕ
count_missing d e = length (filter (λ cid. not (is_some (lookup cid e))) (keys d))

unfoldable pub score : Dict (Ident × Ident) → Dict Ident → Dict Ident → ℕ → AccuracyReport
score credited truth exposure_household profile =
    let t =
      tally credited truth exposure_household
        (record { household_correct = 0; exact_correct = 0; caused_wrong_household = 0 }) in
    let precision = ratio_or_zero t.household_correct (length credited) in
    let recall = ratio_or_zero t.household_correct (length truth) in
    record {
      profile = profile;
      credited = length credited;
      truth_links = length truth;
      household_correct = t.household_correct;
      precision = precision;
      recall = recall;
      f1 = f1_of precision recall;
      exact_exposure_correct = t.exact_correct;
      exact_exposure_match_rate = ratio_or_zero t.exact_correct (length credited);
      organic_credited = count_missing credited truth;
      caused_missed = count_missing truth credited;
      caused_wrong_household = t.caused_wrong_household;
    }

-- `db_profile_marker`: whether the table exists, and the rows of `eval_meta final`
unfoldable pub db_profile_marker : Bool → List ℕ → Option ℕ
db_profile_marker false rows = none
db_profile_marker true [] = none
db_profile_marker true (m ∷ rows) = some m

unfoldable pub assert_profile_marker : Option ℕ → ℕ → Result (Unit {0})
assert_profile_marker none profile = err no_marker
assert_profile_marker (some marker) profile =
    if marker == profile then ok tt else err profile_mismatch
