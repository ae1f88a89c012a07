-- ===== src/Orchestration/Grown.antt =====
-- A lake that has grown by attributed rows, and the pass of a day that none of them lies on.
use ctv_attribution_pipeline.Base.{
  ℕ, ◌+◌, ◌*◌, ◌-◌, ◌≡◌, ◌>>◌, refl, sym, ap, ◌∙◌, false, Option, some, List, [], ◌∷◌, ◌++◌, map,
  arith, mem, filter, filter-append, append_nil, append_assoc, >>=-eq,
}
use ctv_attribution_pipeline.Sort.Sets.{sorted_set}
use ctv_attribution_pipeline.Dict.{Dict, values, get_or, keys}
use ctv_attribution_pipeline.Model.{
  Ident, Instant, Exposure, ResolvedConversion, AttributedConversion,
}
use ctv_attribution_pipeline.Attribute.Oracle.{sort_rows}
use ctv_attribution_pipeline.Lake.{
  Lake, Day, day_ms, day_of, in_days, current_from, current_rows, read_current,
  read_exposures_by_household, touched_days, land_attributed,
}
use ctv_attribution_pipeline.Lake.Days.{in_days-mem}
use ctv_attribution_pipeline.Reconcile.{
  expand_candidates, lake_candidates, reconcile, by_bucket, update, read_buckets,
  bucketed_exposures, recover_day, check_start,
}

abbrev pub grown : Lake → List AttributedConversion → Lake
grown lake rows = record lake { attributed = lake.attributed ++ rows }

pub grown-nil : (lake : Lake) → grown lake [] ≡ lake
grown-nil lake = ap (λ rows. record lake { attributed = rows }) (append_nil lake.attributed)

pub grown-grown :
    (lake : Lake) (xs ys : List AttributedConversion)
    → grown (grown lake xs) ys ≡ grown lake (xs ++ ys)
grown-grown lake xs ys =
    ap (λ rows. record lake { attributed = rows }) (append_assoc lake.attributed xs ys)

abbrev pub days_of : List AttributedConversion → List Day
days_of = map (λ (r : AttributedConversion). day_of r.event_time)

days_of-times :
    (rows : List AttributedConversion)
    → map day_of (map (λ (r : AttributedConversion). r.event_time) rows) ≡ days_of rows
days_of-times [] = refl
days_of-times (r ∷ rows) = ap (λ ds. day_of r.event_time ∷ ds) (days_of-times rows)

-- a landing grows the lake and reports the days of its rows, also where it has none
pub land_attributed-eq :
    (rows : List AttributedConversion) (lake : Lake)
    → land_attributed rows lake ≡ (grown lake rows, sorted_set (days_of rows))
unfolding land_attributed touched_days sorted_set
land_attributed-eq [] lake = ap (λ l. (l, [])) (sym (grown-nil lake))
land_attributed-eq (r ∷ rs) lake =
    ap (λ ds. (grown lake (r ∷ rs), sorted_set ds)) (days_of-times (r ∷ rs))

read_exposures-grown :
    (hhs : List Ident) (lo hi : Option Instant) (lake : Lake) (rows : List AttributedConversion)
    → read_exposures_by_household hhs lo hi (grown lake rows)
      ≡ read_exposures_by_household hhs lo hi lake
unfolding read_exposures_by_household
read_exposures-grown [] lo hi lake rows = refl
read_exposures-grown (h ∷ hhs) lo hi lake rows = refl

read_buckets-grown :
    (buckets : Dict (List Ident)) (lo hi : Instant) (lake : Lake) (rows : List AttributedConversion)
    (exposures : Dict (List Exposure)) (bs : List ℕ)
    → read_buckets buckets lo hi (grown lake rows) exposures bs
      ≡ read_buckets buckets lo hi lake exposures bs
unfolding read_buckets
read_buckets-grown buckets lo hi lake rows exposures [] = refl
read_buckets-grown buckets lo hi lake rows exposures (b ∷ bs) =
    ap (λ es. read_buckets buckets lo hi (grown lake rows) (update exposures es) bs)
      (read_exposures-grown (get_or [] b buckets) (some lo) (some hi) lake rows)
    ∙ read_buckets-grown buckets lo hi lake rows
        (update exposures
          (read_exposures_by_household (get_or [] b buckets) (some lo) (some hi) lake))
        bs

bucketed_exposures-grown :
    (bucket_of : Ident → ℕ) (d : Day) (window : ℕ) (expanded : List ResolvedConversion)
    (lake : Lake) (rows : List AttributedConversion)
    → bucketed_exposures bucket_of d window expanded (grown lake rows)
      ≡ bucketed_exposures bucket_of d window expanded lake
unfolding bucketed_exposures
bucketed_exposures-grown bucket_of d window expanded lake rows =
    let buckets = by_bucket bucket_of [] expanded in
    read_buckets-grown buckets (d * day_ms - window) (d * day_ms + day_ms) lake rows []
      (sorted_set (keys buckets))

-- none of the rows lies on the day
other_days :
    (d : Day) (rows : List AttributedConversion)
    → mem d (days_of rows) ≡ false
    → filter (λ (r : AttributedConversion). in_days (some (d ∷ [])) r.event_time) rows ≡ []
other_days d [] h = refl
other_days d (r ∷ rows) h = ground (arith, in_days-mem (d ∷ []) r.event_time, other_days d rows, h)

module _ (d : Day) (lake : Lake) (rows : List AttributedConversion)
    (other : mem d (days_of rows) ≡ false) where
  current_rows-grown :
      current_rows (some (d ∷ [])) (grown lake rows) ≡ current_rows (some (d ∷ [])) lake
  unfolding current_rows
  current_rows-grown =
      let mine =
        filter (λ (r : AttributedConversion). in_days (some (d ∷ [])) r.event_time)
          lake.attributed in
      ap (λ rs. sort_rows (values (current_from [] rs)))
        (filter-append _ lake.attributed rows
          ∙ ap (λ rs. mine ++ rs) (other_days d rows other)
          ∙ append_nil mine)

  lake_candidates-grown : lake_candidates (some d) (grown lake rows) ≡ lake_candidates (some d) lake
  unfolding lake_candidates read_current
  lake_candidates-grown = rw current_rows-grown refl

  -- the pass of a day reads no row of another
  pub recover_day-grown :
      (bucket_of : Ident → ℕ) (at : Instant) (window : ℕ)
      → recover_day bucket_of d at window (grown lake rows) ≡ recover_day bucket_of d at window lake
  unfolding recover_day
  recover_day-grown bucket_of at window = rw lake_candidates-grown (
      >>=-eq (lake_candidates (some d) lake) _ _ (λ candidates.
        ap
          (λ es.
            check_start d window (expand_candidates candidates)
            >> reconcile (expand_candidates candidates) es window at)
          (bucketed_exposures-grown bucket_of d window (expand_candidates candidates) lake rows)))
