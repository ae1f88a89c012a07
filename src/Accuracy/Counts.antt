-- ===== src/Accuracy/Counts.antt =====
-- How the counts of the accuracy report fit together.
use ctv_attribution_pipeline.Base.{
  ℕ, ◌+◌, ◌≡◌, refl, ◌∙◌, Bool, false, not, Option, none, some, List, [], ◌∷◌, ◌==◌, if◌then◌else◌,
  length, filter, mem, Distinct, arith, Bool-cases, inl, inr,
}
use ctv_attribution_pipeline.Dict.{Dict, lookup, keys}
use ctv_attribution_pipeline.Dict.Laws.{is_some, mem-keys}
use ctv_attribution_pipeline.Model.{Ident}
use ctv_attribution_pipeline.Accuracy.{Tally, is_household, tally_one, tally, count_missing, score}

-- the credited conversions that have a truth
abbrev matched : Dict (Ident × Ident) → Dict Ident → ℕ
matched credited truth = length (filter (λ cid. is_some (lookup cid truth)) (keys credited))

tally-matched :
    (credited : Dict (Ident × Ident)) (truth exposure_household : Dict Ident) (t : Tally)
    → let out = tally credited truth exposure_household t in
      out.household_correct + out.caused_wrong_household
      ≡ t.household_correct + t.caused_wrong_household + matched credited truth
unfolding tally tally_one
tally-matched [] truth exposure_household t = omega arith
tally-matched ((cid, (household, exposure_id)) ∷ rest) truth exposure_household t =
    tally-matched rest truth exposure_household _ ∙ one (lookup cid truth)
  where
    one :
        (o : Option Ident)
        → let t' = tally_one exposure_household household exposure_id o t in
          t'.household_correct + t'.caused_wrong_household + matched rest truth
          ≡ t.household_correct
            + t.caused_wrong_household
            + length (
                if is_some o
                then cid ∷ filter (λ c. is_some (lookup c truth)) (keys rest)
                else filter (λ c. is_some (lookup c truth)) (keys rest))
    one none = refl
    one (some truth_exposure) =
        elim (Bool-cases (is_household household (lookup truth_exposure exposure_household))) [
          | inl e ↦ rw e (omega arith)
          | inr e ↦ rw e (omega arith)
        ]

split :
    (p : Ident → Bool) (xs : List Ident)
    → length (filter p xs) + length (filter (λ x. not (p x)) xs) ≡ length xs
split p [] = omega arith
split p (x ∷ xs) = ground (arith, split p xs)

length-keys : {V : Type 0} (d : Dict V) → length (keys d) ≡ length d
length-keys [] = refl
length-keys (e ∷ d) = omega (arith, length-keys d)

-- The credited conversions are those of the right household, those of a wrong one and the organic
-- ones, each counted once.
pub score-credited :
    (credited : Dict (Ident × Ident)) (truth exposure_household : Dict Ident) (profile : ℕ)
    → let report = score credited truth exposure_household profile in
      report.household_correct + report.caused_wrong_household + report.organic_credited
      ≡ report.credited
unfolding score count_missing
score-credited credited truth exposure_household profile = omega (
  arith,
  tally-matched credited truth exposure_household
      (record { household_correct = 0; exact_correct = 0; caused_wrong_household = 0 }),
  split (λ cid. is_some (lookup cid truth)) (keys credited),
  length-keys credited,
)

-- how often an identifier occurs
count_one :
    (x : Ident) (ys : List Ident)
    → Distinct ys
    → length (filter (λ y. y == x) ys) ≡ (if mem x ys then 1 else 0)
count_one x [] h = refl
count_one x (y ∷ ys) h = ground (arith, count_one x ys h.1, h.0)

count_or :
    (x : Ident) (xs ys : List Ident)
    → mem x xs ≡ false
    → length (filter (λ y. mem y (x ∷ xs)) ys)
      ≡ length (filter (λ y. y == x) ys) + length (filter (λ y. mem y xs) ys)
count_or x xs [] h = omega arith
count_or x xs (y ∷ ys) h = ground (arith, count_or x xs ys h)

-- two lists of distinct identifiers share as many, from either side
shared :
    (xs ys : List Ident)
    → Distinct xs
    → Distinct ys
    → length (filter (λ x. mem x ys) xs) ≡ length (filter (λ y. mem y xs) ys)
shared [] ys hx hy = none_of ys
  where
    none_of : (zs : List Ident) → 0 ≡ length (filter (λ y. mem y []) zs)
    none_of [] = refl
    none_of (z ∷ zs) = none_of zs
shared (x ∷ xs) ys hx hy =
    ground (arith, shared xs ys hx.1 hy, count_or x xs ys hx.0, count_one x ys hy)

filter-eq :
    (p q : Ident → Bool) (xs : List Ident)
    → ((x : Ident) → p x ≡ q x)
    → length (filter p xs) ≡ length (filter q xs)
filter-eq p q [] h = refl
filter-eq p q (x ∷ xs) h = ground (arith, h x, filter-eq p q xs h)

-- The truth links are those of credited conversions, to the right household or a wrong one, and those
-- missed, each counted once; the conversions credited and those with a truth are without repetition.
pub score-truth_links :
    (credited : Dict (Ident × Ident)) (truth exposure_household : Dict Ident) (profile : ℕ)
    → Distinct (keys credited)
    → Distinct (keys truth)
    → let report = score credited truth exposure_household profile in
      report.household_correct + report.caused_wrong_household + report.caused_missed
      ≡ report.truth_links
unfolding score count_missing
score-truth_links credited truth exposure_household profile hc ht = omega (
  arith,
  tally-matched credited truth exposure_household
      (record { household_correct = 0; exact_correct = 0; caused_wrong_household = 0 }),
  split (λ cid. is_some (lookup cid credited)) (keys truth),
  length-keys truth,
  shared (keys credited) (keys truth) hc ht,
  filter-eq (λ x. mem x (keys truth)) (λ x. is_some (lookup x truth)) (keys credited)
      (λ x. mem-keys x truth),
  filter-eq (λ x. mem x (keys credited)) (λ x. is_some (lookup x credited)) (keys truth)
      (λ x. mem-keys x credited),
)
