-- ===== src/Serving/Rollup/Fresh.antt =====
-- A rollup that was not computed yet, over exposures whose keys are all marked: its first refresh.
use ctv_attribution_pipeline.Base.{
  ◌≡◌, Occurs, refl, sym, ap, ◌∙◌, inl, inr, Bool, true, false, not, none, some, List, [], ◌∷◌, map,
  if◌then◌else◌, filter, any, any-Occurs, Bool-cases,
}
use ctv_attribution_pipeline.Table.{Pair, same_pair, final_from, final, find}
use ctv_attribution_pipeline.Table.Final.{same_pair_iff}
use ctv_attribution_pipeline.Table.Shown.{find-found, final-Occurs}
use ctv_attribution_pipeline.Model.{Exposure}
use ctv_attribution_pipeline.Serving.{
  HourlyRow, Mark, Tables, same_triple, exposure_key, no_version, key_of, landed, current, dirty,
  refreshed, mark_key, mark_version,
}
use ctv_attribution_pipeline.Serving.Rollup.{
  hourly_key, hourly_version, exposure_part, credit_parts, is_dirty, keep_all, rebuild, dirty_keys,
}
use ctv_attribution_pipeline.Serving.Rollup.Groups.{
  merge_in, exposure_parts-drop, credit_parts-drop,
}
use ctv_attribution_pipeline.Serving.Rollup.Refresh.{
  served, rebuilt, stale, IsTracked, rollup_rows-keep,
}
use ctv_attribution_pipeline.Serving.Rollup.Settled.{find-dirty_keys}
use ctv_attribution_pipeline.Serving.Rollup.Marked.{IsMarked, same_triple_iff}

-- no row of the rollup, no key refreshed, and every landed exposure marked
abbrev pub IsFresh : Tables → Type 0
IsFresh t = (t.rollup_refreshed ≡ []) × (t.campaign_hourly ≡ []) × IsMarked t

abbrev of_key : Pair → Exposure → Bool
of_key k e = same_pair k (key_of e)

filter-any_none :
    {A : Type 0} (p : A → Bool) (xs : List A) → any p xs ≡ false → filter (λ x. not (p x)) xs ≡ xs
filter-any_none p [] h = refl
filter-any_none p (x ∷ xs) h = elim (Bool-cases (p x)) [
  | inl e ↦ absurd (cc (rw e at h))
  | inr e ↦ rw e (ap (λ l. x ∷ l) (filter-any_none p xs (rw e at h)))
]

-- a key without exposures has no row in the rebuild
rebuilt-none : (t : Tables) (k : Pair) → any (of_key k) (landed t) ≡ false → rebuilt t k ≡ none
unfolding rebuild
rebuilt-none t k h =
    let other = λ (e : Exposure). not (of_key k e) in
    let out = λ (e : Exposure) (q : same_pair k (key_of e) ≡ true). ap not q in
    let all = filter-any_none (of_key k) (landed t) h in
    rollup_rows-keep k keep_all false t (λ e q. refl)
    ∙ ap
        (λ es.
          merge_in k (merge_in k none (map exposure_part es)) (credit_parts false es (current t)))
        (sym all)
    ∙ credit_parts-drop k other out false _ (landed t) (current t)
    ∙ exposure_parts-drop k other out none (landed t)

landed-logged : (t : Tables) (e : Exposure) → Occurs e (landed t) → Occurs e t.exposures_landed
unfolding landed
landed-logged t e o =
    final-Occurs same_triple exposure_key no_version same_triple_iff e t.exposures_landed o

-- every row of the rebuild is of a stale key
fresh-stale :
    (t : Tables) (k : Pair) (r : HourlyRow)
    → IsFresh t
    → rebuilt t k ≡ some r
    → (d : Mark) × (stale t k ≡ some d)
unfolding refreshed final final_from find
fresh-stale t k r (unrefreshed, empty, marked) is = elim (Bool-cases (any (of_key k) (landed t))) [
  | inr h ↦ absurd (cc (is, rebuilt-none t k h))
  | inl h ↦
      let (e, o, q) = any-Occurs (of_key k) (landed t) h in
      let (d, f) = marked e (landed-logged t e o) in
      let key =
        (find-found same_pair mark_key mark_version same_pair_iff (key_of e) d (dirty t) f).1 in
      let own = key ∙ sym ((same_pair_iff k (key_of e)).0 q) in
      (
        d,
        ap (λ a. find same_pair mark_key a (dirty_keys t)) (sym own)
            ∙ find-dirty_keys t d (ap (λ a. find same_pair mark_key a (dirty t)) key ∙ f)
            ∙ ap
                (λ log.
                  if is_dirty (final same_pair mark_key mark_version log) d then some d else none)
                unrefreshed,
      )
]

served-none : (t : Tables) (k : Pair) → t.campaign_hourly ≡ [] → served t k ≡ none
unfolding final final_from find
served-none t k h =
    ap (λ log. find same_pair hourly_key k (final same_pair hourly_key hourly_version log)) h

pub IsFresh-IsTracked : (t : Tables) → IsFresh t → IsTracked t
IsFresh-IsTracked t w = record {
  clean = λ k r s is. let (d, f) = fresh-stale t k r w is in absurd (cc (s, f));
  stamped = λ k r cur is was. absurd (cc (was, served-none t k w.1));
}
