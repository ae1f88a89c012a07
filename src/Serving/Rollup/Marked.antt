-- ===== src/Serving/Rollup/Marked.antt =====
-- The loads mark the key of every exposure that they land.
use mathlib.Core.Path.{subst}
use ctv_attribution_pipeline.Base.{
  ◌≡◌, ◌↔◌, Occurs, Occurs-append, Occurs-append_left, Occurs-append_right, Occurs-map,
  Occurs-filter_of, refl, ap, ◌∙◌, inl, inr, Bool, true, some, List, [], ◌∷◌, ◌++◌, arith, ◌==◌,
  filter, any, All, All-map, All-Occurs, append_assoc, Bool-cases,
}
use ctv_attribution_pipeline.Sort.Stable.{All-sort_by}
use ctv_attribution_pipeline.Table.{Pair, same_pair, final, find}
use ctv_attribution_pipeline.Table.Final.{same_pair_iff, final-rises}
use ctv_attribution_pipeline.Table.Shown.{find-final-some, find-found}
use ctv_attribution_pipeline.Model.{Exposure, AttributedConversion}
use ctv_attribution_pipeline.Attribute.Dedup.{dedup_from, dedup_by_id}
use ctv_attribution_pipeline.Lake.{Lake, Day, day_of, read_exposures_for_days}
use ctv_attribution_pipeline.Lake.Days.{in_days-mem}
use ctv_attribution_pipeline.Serving.Marks.{group_marks-HasKey}
use ctv_attribution_pipeline.Serving.{
  Mark, Tables, Triple, same_triple, exposure_key, no_version, key_of, hour_of, landed, dirty,
  mark_key, mark_version, mark_of, on_day, record_dirty_exposure_keys, record_dirty_attributed_keys,
  insert_exposures, insert_attributed,
}

-- every exposure that was landed has a mark for its key
abbrev pub IsMarked : Tables → Type 0
IsMarked t =
    (e : Exposure)
    → Occurs e t.exposures_landed
    → (d : Mark) × (find same_pair mark_key (key_of e) (dirty t) ≡ some d)

pub same_triple_iff : (a b : Triple) → (same_triple a b ≡ true) ↔ (a ≡ b)
same_triple_iff a b = ground arith

-- a log of marks that holds one of a key shows one
shown_mark :
    (t : Tables) (k : Pair) (m : Mark)
    → Occurs m t.rollup_dirty
    → mark_key m ≡ k
    → (d : Mark) × (find same_pair mark_key k (dirty t) ≡ some d)
unfolding dirty
shown_mark t k m o e =
    subst
      (λ a.
        (d : Mark) × (find same_pair mark_key a
            (final same_pair mark_key mark_version t.rollup_dirty)
          ≡ some d))
      e (find-final-some same_pair mark_key mark_version same_pair_iff m t.rollup_dirty o)

-- more marks leave the marks that there are
more_marks :
    (t t' : Tables) (more : List Mark) (k : Pair) (d : Mark)
    → t'.rollup_dirty ≡ t.rollup_dirty ++ more
    → find same_pair mark_key k (dirty t) ≡ some d
    → (d' : Mark) × (find same_pair mark_key k (dirty t') ≡ some d')
unfolding dirty
more_marks t t' more k d e h =
    let (d', f, _) =
      final-rises same_pair mark_key mark_version same_pair_iff k t.rollup_dirty more d h in
    (d', ap (λ log. find same_pair mark_key k (final same_pair mark_key mark_version log)) e ∙ f)

-- the load of a day marks the key of every exposure of that day that the log holds
today-marked :
    (day : Day) (t : Tables) (e : Exposure)
    → Occurs e t.exposures_landed
    → on_day day e ≡ true
    → (d : Mark) × (find same_pair mark_key (key_of e) (dirty (record_dirty_exposure_keys day t))
        ≡ some d)
unfolding record_dirty_exposure_keys landed
today-marked day t e o h =
    let (x, f) =
      find-final-some same_triple exposure_key no_version same_triple_iff e t.exposures_landed o in
    let (shown, same) =
      find-found same_triple exposure_key no_version same_triple_iff (exposure_key e) x _ f in
    let today = filter (on_day day) (landed t) in
    let kept =
      Occurs-filter_of (on_day day) x (landed t) (ap (λ (k : Triple). day_of k.1.0 == day) same ∙ h)
        shown in
    let (m, inside, key) =
      group_marks-HasKey [] (mark_of x x.ingest_time) _
        (Occurs-map (λ (a : Exposure). mark_of a a.ingest_time) x today kept) in
    shown_mark (record_dirty_exposure_keys day t) (key_of e) m
      (Occurs-append_left m _ _ (Occurs-append_right m t.rollup_dirty _ inside))
      (key ∙ ap (λ (k : Triple). (k.0, hour_of k.1.0)) same)

pub load_exposures-IsMarked :
    (day : Day) (rows : List Exposure) (t : Tables)
    → All (λ e. on_day day e ≡ true) rows
    → IsMarked t
    → IsMarked (record_dirty_exposure_keys day (insert_exposures rows t))
unfolding insert_exposures record_dirty_exposure_keys
load_exposures-IsMarked day rows t days h e o = elim (Occurs-append e t.exposures_landed rows o) [
  | inl old ↦
      let (d, f) = h e old in
      more_marks t (record_dirty_exposure_keys day (insert_exposures rows t)) _ (key_of e) d
        (append_assoc t.rollup_dirty _ _) f
  | inr new ↦
      today-marked day (insert_exposures rows t) e
        (Occurs-append_right e t.exposures_landed rows new)
        (All-Occurs (λ a. on_day day a ≡ true) e rows days new)
]

pub load_attributed-IsMarked :
    (day : Day) (rows : List AttributedConversion) (t : Tables)
    → IsMarked t
    → IsMarked (record_dirty_attributed_keys day (insert_attributed rows t))
unfolding insert_attributed record_dirty_attributed_keys
load_attributed-IsMarked day rows t h e o =
    let (d, f) = h e o in
    more_marks t (record_dirty_attributed_keys day (insert_attributed rows t)) _ (key_of e) d refl f

dedup_from-All :
    {M K : Type 0} (same : K → K → Bool) (key : M → K) (P : M → Type 0) (seen : List K)
    (rows : List M)
    → All P rows
    → All P (dedup_from same key seen rows).0
unfolding dedup_from
dedup_from-All same key P seen [] h = tt
dedup_from-All same key P seen (row ∷ rows) h = elim (Bool-cases (any (same (key row)) seen)) [
  | inl e ↦ rw e (dedup_from-All same key P seen rows h.1)
  | inr e ↦ rw e (h.0, dedup_from-All same key P (key row ∷ seen) rows h.1)
]

filter-All : {A : Type 0} (p : A → Bool) (xs : List A) → All (λ a. p a ≡ true) (filter p xs)
filter-All p [] = tt
filter-All p (x ∷ xs) = elim (Bool-cases (p x)) [
  | inl e ↦ rw e (e, filter-All p xs)
  | inr e ↦ rw e (filter-All p xs)
]

-- what a load reads lies on its day
pub read_exposures-on_day :
    (day : Day) (lake : Lake)
    → All (λ e. on_day day e ≡ true) (read_exposures_for_days (day ∷ []) lake)
unfolding read_exposures_for_days dedup_by_id
read_exposures-on_day day lake =
    All-sort_by _ (λ e. on_day day e ≡ true) _
      (dedup_from-All _ _ (λ e. on_day day e ≡ true) [] _
        (All-map _ (λ e. on_day day e ≡ true)
          (λ e h. ground (arith, in_days-mem (day ∷ []) e.event_time, h)) _
          (filter-All _ lake.exposures)))
