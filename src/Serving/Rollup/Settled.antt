-- ===== src/Serving/Rollup/Settled.antt =====
-- What a refresh leaves dirty: nothing.
use mathlib.Core.Path.{subst}
use ctv_attribution_pipeline.Base.{
  ◌≡◌, ◌≤◌, refl, sym, ap, ◌∙◌, false, Option, none, some, List, [], ◌∷◌, ◌++◌, arith,
  if◌then◌else◌, filter, filter-none,
}
use ctv_attribution_pipeline.Sort.Stable.{sort_by}
use ctv_attribution_pipeline.Table.{Pair, same_pair, final, find}
use ctv_attribution_pipeline.Table.Final.{
  same_pair_iff, newest_of, Once, find-final-append, final-rises,
}
use ctv_attribution_pipeline.Table.Sorted.{
  final-Once, filter-Once, find-filter, find-Occurs, find-sort_by, sort_by-Once, kept,
}
use ctv_attribution_pipeline.Serving.{Mark, Tables, dirty, refreshed, mark_key, mark_version}
use ctv_attribution_pipeline.Serving.Rollup.Refresh.{refresh_dirty-any, refresh_dirty-none}
use ctv_attribution_pipeline.Serving.Rollup.{
  moved, is_dirty, mark_le, dirty_keys, refresh_keys, refresh_dirty, refresh_campaign_hourly,
}

-- Every key that was refreshed is marked, with no version below the one it was refreshed against: the
-- loader's marks only rise.
abbrev pub IsBehind : Tables → Type 0
IsBehind t =
    (k : Pair) (r : Mark)
    → find same_pair mark_key k (refreshed t) ≡ some r
    → (d : Mark) × (find same_pair mark_key k (dirty t) ≡ some d) × (r.version ≤ d.version)

abbrev OneMark : List Mark → Type 0
OneMark = Once same_pair mark_key mark_version same_pair_iff

dirty-Once : (t : Tables) → OneMark (dirty t)
unfolding dirty
dirty-Once t = final-Once same_pair mark_key mark_version same_pair_iff t.rollup_dirty

dirty_keys-Once : (t : Tables) → OneMark (dirty_keys t)
unfolding dirty_keys
dirty_keys-Once t = sort_by-Once same_pair mark_key mark_version same_pair_iff mark_le _ (
    filter-Once same_pair mark_key mark_version same_pair_iff (is_dirty (refreshed t)) (dirty t)
      (dirty-Once t))

pub find-dirty_keys :
    (t : Tables) (d : Mark)
    → find same_pair mark_key (mark_key d) (dirty t) ≡ some d
    → find same_pair mark_key (mark_key d) (dirty_keys t)
      ≡ (if is_dirty (refreshed t) d then some d else none)
unfolding dirty_keys
find-dirty_keys t d h =
    find-sort_by same_pair mark_key mark_version same_pair_iff mark_le (mark_key d) _ (
      filter-Once same_pair mark_key mark_version same_pair_iff (is_dirty (refreshed t)) (dirty t)
        (dirty-Once t))
    ∙ find-filter same_pair mark_key mark_version same_pair_iff (is_dirty (refreshed t))
        (mark_key d) (dirty t) (dirty-Once t)
    ∙ ap (kept same_pair mark_key mark_version same_pair_iff (is_dirty (refreshed t))) h

-- a mark is not dirty against the marks that a refresh leaves
is_dirty-settled :
    (d : Mark) (o : Option Mark)
    → ((r : Mark) → o ≡ some r → r.version ≤ d.version)
    → moved d.version (newest_of mark_version o (if moved d.version o then some d else none))
      ≡ false
is_dirty-settled d none h = ground arith
is_dirty-settled d (some r) h = ground (arith, h r refl)

refreshed-refresh_keys :
    (t : Tables) (k : Pair)
    → find same_pair mark_key k (refreshed (refresh_keys (dirty_keys t) t))
      ≡ newest_of mark_version
          (find same_pair mark_key k (refreshed t))
          (find same_pair mark_key k (dirty_keys t))
unfolding refresh_keys refreshed
refreshed-refresh_keys t k =
    find-final-append same_pair mark_key mark_version same_pair_iff k t.rollup_refreshed
      (dirty_keys t) (dirty_keys-Once t)

mark-settled :
    (t : Tables) (d : Mark)
    → IsBehind t
    → find same_pair mark_key (mark_key d) (dirty t) ≡ some d
    → is_dirty (refreshed (refresh_keys (dirty_keys t) t)) d ≡ false
mark-settled t d w h =
    let old = find same_pair mark_key (mark_key d) (refreshed t) in
    ap (moved d.version) (refreshed-refresh_keys t (mark_key d))
    ∙ ap (λ o. moved d.version (newest_of mark_version old o)) (find-dirty_keys t d h)
    ∙ is_dirty-settled d old (λ r e. below r e (w (mark_key d) r e))
  where
    below :
        (r : Mark)
        → find same_pair mark_key (mark_key d) (refreshed t) ≡ some r
        → (d' : Mark) × (find same_pair mark_key (mark_key d) (dirty t) ≡ some d')
          × (r.version ≤ d'.version)
        → r.version ≤ d.version
    below r e (d', f, le) = ground (arith, f, h, le)

dirty-refresh_keys : (keys : List Mark) (t : Tables) → dirty (refresh_keys keys t) ≡ dirty t
unfolding refresh_keys dirty
dirty-refresh_keys keys t = refl

sorted_none :
    (t : Tables) (keys : List Mark)
    → filter (is_dirty (refreshed (refresh_keys keys t))) (dirty t) ≡ []
    → dirty_keys (refresh_keys keys t) ≡ []
unfolding dirty_keys sort_by
sorted_none t keys h =
    ap (λ ms. sort_by mark_le (filter (is_dirty (refreshed (refresh_keys keys t))) ms))
      (dirty-refresh_keys keys t)
    ∙ ap (sort_by mark_le) h

dirty_keys-settled :
    (t : Tables)
    → IsBehind t
    → filter (is_dirty (refreshed (refresh_keys (dirty_keys t) t))) (dirty t) ≡ []
dirty_keys-settled t w = filter-none _ (dirty t) (λ d o.
    mark-settled t d w
      (find-Occurs same_pair mark_key mark_version same_pair_iff d (dirty t) (dirty-Once t) o))

-- A refresh leaves no key dirty, when no key was refreshed against a version above its mark: the next
-- refresh computes nothing.
pub refresh-settles : (t : Tables) → IsBehind t → dirty_keys (refresh_campaign_hourly t).1 ≡ []
unfolding refresh_campaign_hourly
refresh-settles t w = by_keys (dirty_keys t) refl
  where
    by_keys : (keys : List Mark) → dirty_keys t ≡ keys → dirty_keys (refresh_dirty keys t).1 ≡ []
    by_keys [] e = ap dirty_keys (refresh_dirty-none t) ∙ e
    by_keys (m ∷ ms) e =
        ap dirty_keys (refresh_dirty-any m ms t)
        ∙ ap (λ keys. dirty_keys (refresh_keys keys t)) (sym e)
        ∙ sorted_none t (dirty_keys t) (dirty_keys-settled t w)

-- the marks that only rise
module _ (t t' : Tables) (more : List Mark)
    (same_refreshed : t'.rollup_refreshed ≡ t.rollup_refreshed)
    (marked : t'.rollup_dirty ≡ t.rollup_dirty ++ more) where
  pub marks-IsBehind : IsBehind t → IsBehind t'
  unfolding dirty refreshed
  marks-IsBehind w k r e =
      let (d, f, le) = w k r (
        ap (λ log. find same_pair mark_key k (final same_pair mark_key mark_version log))
          (sym same_refreshed)
        ∙ e) in
      let (d', f', le') =
        final-rises same_pair mark_key mark_version same_pair_iff k t.rollup_dirty more d f in
      (
        d',
        ap (λ log. find same_pair mark_key k (final same_pair mark_key mark_version log)) marked
            ∙ f',
        omega (arith, le, le'),
      )

find-dirty_keys-any :
    (t : Tables) (k : Pair) (d : Mark)
    → find same_pair mark_key k (dirty_keys t) ≡ some d
    → find same_pair mark_key k (dirty t) ≡ some d
unfolding dirty_keys
find-dirty_keys-any t k d h = kept-some (find same_pair mark_key k (dirty t)) (
    sym (
      find-filter same_pair mark_key mark_version same_pair_iff (is_dirty (refreshed t)) k (dirty t)
        (dirty-Once t))
    ∙ sym (
        find-sort_by same_pair mark_key mark_version same_pair_iff mark_le k _ (
          filter-Once same_pair mark_key mark_version same_pair_iff (is_dirty (refreshed t))
            (dirty t) (dirty-Once t)))
    ∙ h)
  where
    kept-some :
        (o : Option Mark)
        → kept same_pair mark_key mark_version same_pair_iff (is_dirty (refreshed t)) o ≡ some d
        → o ≡ some d
    kept-some none e = e
    kept-some (some m) e = ground (arith, e)

newest_none : (o : Option Mark) {r : Mark} → newest_of mark_version o none ≡ some r → o ≡ some r
newest_none none h = h
newest_none (some m) h = h

-- the refresh keeps the marks behind
refresh_keys-IsBehind : (t : Tables) → IsBehind t → IsBehind (refresh_keys (dirty_keys t) t)
refresh_keys-IsBehind t w k r e =
    slots (find same_pair mark_key k (refreshed t)) refl (find same_pair mark_key k (dirty_keys t))
      refl (sym (refreshed-refresh_keys t k) ∙ e)
  where
    slots :
        (o : Option Mark)
        → find same_pair mark_key k (refreshed t) ≡ o
        → (n : Option Mark) → find same_pair mark_key k (dirty_keys t) ≡ n
        → newest_of mark_version o n ≡ some r
        → (d : Mark) × (find same_pair mark_key k (dirty (refresh_keys (dirty_keys t) t)) ≡ some d)
          × (r.version ≤ d.version)
    slots o f none g h =
        let (d, i, le) = w k r (f ∙ newest_none o h) in
        (d, ap (find same_pair mark_key k) (dirty-refresh_keys (dirty_keys t) t) ∙ i, le)
    slots none f (some d) g h = (
      d,
      ap (find same_pair mark_key k) (dirty-refresh_keys (dirty_keys t) t)
          ∙ find-dirty_keys-any t k d g,
      ground (arith, h),
    )
    slots (some r') f (some d) g h =
        let i = find-dirty_keys-any t k d g in
        let (d', i', le) = w k r' f in
        (
          d,
          ap (find same_pair mark_key k) (dirty-refresh_keys (dirty_keys t) t) ∙ i,
          ground (arith, h, i, i', le),
        )

pub refresh-IsBehind : (t : Tables) → IsBehind t → IsBehind (refresh_campaign_hourly t).1
unfolding refresh_campaign_hourly
refresh-IsBehind t w = by_keys (dirty_keys t) refl
  where
    by_keys : (keys : List Mark) → dirty_keys t ≡ keys → IsBehind (refresh_dirty keys t).1
    by_keys [] e = subst IsBehind (sym (refresh_dirty-none t)) w
    by_keys (m ∷ ms) e =
        subst IsBehind
          (sym (ap (λ keys. refresh_keys keys t) (sym e)) ∙ sym (refresh_dirty-any m ms t))
          (refresh_keys-IsBehind t w)
