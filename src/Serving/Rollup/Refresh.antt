-- ===== src/Serving/Rollup/Refresh.antt =====
-- The incremental refresh against the whole-table rebuild.
use ctv_attribution_pipeline.Base.{
  ◌≡◌, ◌≤◌, refl, sym, ap, ◌∙◌, Bool, true, false, Option, none, some, List, [], ◌∷◌, ◌++◌, map,
  arith, filter, any,
}
use ctv_attribution_pipeline.Table.{Pair, same_pair, final, find}
use ctv_attribution_pipeline.Table.Final.{same_pair_iff, newest, newest_of, find-final-append}
use ctv_attribution_pipeline.Model.{Exposure}
use ctv_attribution_pipeline.Serving.{HourlyRow, Mark, Tables, key_of, landed, current, mark_key}
use ctv_attribution_pipeline.Serving.Rollup.{
  hourly_key, hourly_version, exposure_part, credit_parts, rollup_rows, keep_all, keep_keys,
  rebuild, dirty_keys, refresh_keys, refresh_dirty, refresh_campaign_hourly,
}
use ctv_attribution_pipeline.Serving.Rollup.Groups.{
  merge_in, find-group_parts, merge_in-append, group_parts-Once, exposure_parts-keep,
  credit_parts-keep, exposure_parts-drop, credit_parts-drop, OncePerKey,
}

-- the row that the rollup serves for a key
abbrev pub served : Tables → Pair → Option HourlyRow
served t k =
    find same_pair hourly_key k (final same_pair hourly_key hourly_version t.campaign_hourly)

-- the row that the whole-table rebuild gives
abbrev pub rebuilt : Tables → Pair → Option HourlyRow
rebuilt t k = find same_pair hourly_key k (rebuild t)

abbrev pub stale : Tables → Pair → Option Mark
stale t k = find same_pair mark_key k (dirty_keys t)

-- What the dirty set is for: a key outside it is served as the rebuild gives it, and no row is served
-- with a stamp above that of the rebuild's.
pub record IsTracked (t : Tables) : Type 0 where
  pub clean :
      (k : Pair) (r : HourlyRow) → stale t k ≡ none → rebuilt t k ≡ some r → served t k ≡ some r
  pub stamped :
      (k : Pair) (r cur : HourlyRow)
      → rebuilt t k ≡ some r
      → served t k ≡ some cur
      → cur.reported_at ≤ r.reported_at

any-keys :
    (k : Pair) (d : Mark) (marks : List Mark)
    → find same_pair mark_key k marks ≡ some d
    → any (same_pair k) (map mark_key marks) ≡ true
unfolding find
any-keys k d [] h = absurd cc
any-keys k d (m ∷ marks) h = ground (arith, any-keys k d marks)

no-keys :
    (k : Pair) (marks : List Mark)
    → find same_pair mark_key k marks ≡ none
    → any (same_pair k) (map mark_key marks) ≡ false
unfolding find
no-keys k [] h = refl
no-keys k (m ∷ marks) h = ground (arith, no-keys k marks)

-- a filter that keeps the exposures of a key keeps its row
pub rollup_rows-keep :
    (k : Pair) (keep : Exposure → Bool) (hot_only : Bool) (t : Tables)
    → ((e : Exposure) → same_pair k (key_of e) ≡ true → keep e ≡ true)
    → find same_pair hourly_key k (rollup_rows keep hot_only t)
      ≡ merge_in k
          (merge_in k none (map exposure_part (landed t)))
          (credit_parts hot_only (landed t) (current t))
unfolding rollup_rows find
rollup_rows-keep k keep hot_only t all =
    let es = filter keep (landed t) in
    find-group_parts k [] (map exposure_part es ++ credit_parts hot_only es (current t))
    ∙ merge_in-append k none (map exposure_part es) (credit_parts hot_only es (current t))
    ∙ credit_parts-keep k keep all hot_only _ (landed t) (current t)
    ∙ ap (λ o. merge_in k o (credit_parts hot_only (landed t) (current t)))
        (exposure_parts-keep k keep all none (landed t))

keys-keep :
    (k : Pair) (keys : List Pair) (e : Exposure)
    → any (same_pair k) keys ≡ true
    → same_pair k (key_of e) ≡ true
    → keep_keys keys e ≡ true
keys-keep k keys e h q =
    ap (λ a. any (same_pair a) keys) (sym ((same_pair_iff k (key_of e)).0 q)) ∙ h

-- the refreshed row of a dirty key is that of the rebuild
rollup-dirty :
    (t : Tables) (keys : List Mark) (k : Pair) (d : Mark)
    → find same_pair mark_key k keys ≡ some d
    → find same_pair hourly_key k (rollup_rows (keep_keys (map mark_key keys)) false t)
      ≡ rebuilt t k
unfolding rebuild
rollup-dirty t keys k d h =
    rollup_rows-keep k (keep_keys (map mark_key keys)) false t
      (λ e q. keys-keep k (map mark_key keys) e (any-keys k d keys h) q)
    ∙ sym (rollup_rows-keep k keep_all false t (λ e q. refl))

keys-drop :
    (k : Pair) (keys : List Pair) (e : Exposure)
    → any (same_pair k) keys ≡ false
    → same_pair k (key_of e) ≡ true
    → keep_keys keys e ≡ false
keys-drop k keys e h q =
    ap (λ a. any (same_pair a) keys) (sym ((same_pair_iff k (key_of e)).0 q)) ∙ h

-- a key that is not refreshed gets no row
rollup-clean :
    (t : Tables) (keys : List Mark) (k : Pair)
    → find same_pair mark_key k keys ≡ none
    → find same_pair hourly_key k (rollup_rows (keep_keys (map mark_key keys)) false t) ≡ none
unfolding rollup_rows find
rollup-clean t keys k h =
    let keep = keep_keys (map mark_key keys) in
    let es = filter keep (landed t) in
    let out = λ (e : Exposure) (q : same_pair k (key_of e) ≡ true).
      keys-drop k (map mark_key keys) e (no-keys k keys h) q in
    find-group_parts k [] (map exposure_part es ++ credit_parts false es (current t))
    ∙ merge_in-append k none (map exposure_part es) (credit_parts false es (current t))
    ∙ credit_parts-drop k keep out false _ (landed t) (current t)
    ∙ exposure_parts-drop k keep out none (landed t)

rollup_rows-Once :
    (keep : Exposure → Bool) (hot_only : Bool) (t : Tables)
    → OncePerKey (rollup_rows keep hot_only t)
unfolding rollup_rows
rollup_rows-Once keep hot_only t = group_parts-Once [] _ tt

find-nil : (k : Pair) → find same_pair mark_key k [] ≡ none
unfolding find
find-nil k = refl

pub refresh_dirty-any :
    (m : Mark) (ms : List Mark) (t : Tables)
    → (refresh_dirty (m ∷ ms) t).1 ≡ refresh_keys (m ∷ ms) t
unfolding refresh_dirty
refresh_dirty-any m ms t = refl

pub refresh_dirty-none : (t : Tables) → (refresh_dirty [] t).1 ≡ t
unfolding refresh_dirty
refresh_dirty-none t = refl

-- a row of the rebuild takes the slot of its key
newest-rebuilt :
    (o : Option HourlyRow) (r : HourlyRow)
    → ((cur : HourlyRow) → o ≡ some cur → cur.reported_at ≤ r.reported_at)
    → newest hourly_version o r ≡ r
newest-rebuilt none r h = refl
newest-rebuilt (some cur) r h = ground (arith, h cur refl)

-- what is served after the refresh of some keys
served-refresh_keys :
    (t : Tables) (keys : List Mark) (k : Pair)
    → served (refresh_keys keys t) k
      ≡ newest_of hourly_version
          (served t k)
          (find same_pair hourly_key k (rollup_rows (keep_keys (map mark_key keys)) false t))
unfolding refresh_keys
served-refresh_keys t keys k =
    find-final-append same_pair hourly_key hourly_version same_pair_iff k t.campaign_hourly _
      (rollup_rows-Once (keep_keys (map mark_key keys)) false t)

module _ (t : Tables) (w : IsTracked t) (k : Pair) (r : HourlyRow) (is : rebuilt t k ≡ some r) where
  refresh_keys-serves : served (refresh_keys (dirty_keys t) t) k ≡ some r
  refresh_keys-serves = served-refresh_keys t (dirty_keys t) k ∙ slot (stale t k) refl
    where
      slot :
          (o : Option Mark)
          → stale t k ≡ o
          → newest_of hourly_version (served t k) (
              find same_pair hourly_key k
                (rollup_rows (keep_keys (map mark_key (dirty_keys t))) false t))
            ≡ some r
      slot none h =
          ap (newest_of hourly_version (served t k)) (rollup-clean t (dirty_keys t) k h)
          ∙ w.clean k r h is
      slot (some d) h =
          ap (newest_of hourly_version (served t k)) (rollup-dirty t (dirty_keys t) k d h ∙ is)
          ∙ ap some (newest-rebuilt (served t k) r (λ cur. w.stamped k r cur is))

pub refresh-serves-rebuild :
    (t : Tables) (k : Pair) (r : HourlyRow)
    → IsTracked t
    → rebuilt t k ≡ some r
    → served (refresh_campaign_hourly t).1 k ≡ some r
unfolding refresh_campaign_hourly
refresh-serves-rebuild t k r w is = by_keys (dirty_keys t) refl
  where
    by_keys : (keys : List Mark) → dirty_keys t ≡ keys → served (refresh_dirty keys t).1 k ≡ some r
    by_keys [] e =
        ap (λ u. served u k) (refresh_dirty-none t)
        ∙ w.clean k r (ap (find same_pair mark_key k) e ∙ find-nil k) is
    by_keys (m ∷ ms) e =
        ap (λ keys. served keys k) (refresh_dirty-any m ms t)
        ∙ ap (λ keys. served (refresh_keys keys t) k) (sym e)
        ∙ refresh_keys-serves t w k r is

rebuilt-refresh_dirty :
    (keys : List Mark) (t : Tables) (k : Pair) → rebuilt (refresh_dirty keys t).1 k ≡ rebuilt t k
unfolding refresh_dirty refresh_keys rebuild rollup_rows landed current
rebuilt-refresh_dirty [] t k = refl
rebuilt-refresh_dirty (m ∷ ms) t k = refl

-- The refresh keeps the tables tracked.
pub refresh-IsTracked : (t : Tables) → IsTracked t → IsTracked (refresh_campaign_hourly t).1
unfolding refresh_campaign_hourly
refresh-IsTracked t w =
    let now =
      λ (k : Pair) (r : HourlyRow) (is : rebuilt (refresh_dirty (dirty_keys t) t).1 k ≡ some r).
        refresh-serves-rebuild t k r w (sym (rebuilt-refresh_dirty (dirty_keys t) t k) ∙ is) in
    record {
      clean = λ k r s is. now k r is;
      stamped = λ k r cur is was. ground (arith, now k r is, was);
    }

pub rebuilt-refresh :
    (t : Tables) (k : Pair) → rebuilt (refresh_campaign_hourly t).1 k ≡ rebuilt t k
unfolding refresh_campaign_hourly
rebuilt-refresh t k = rebuilt-refresh_dirty (dirty_keys t) t k
