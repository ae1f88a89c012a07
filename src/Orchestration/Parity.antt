-- ===== src/Orchestration/Parity.antt =====
-- The orchestrated pass, day by day, against the pass in one process.
use mathlib.Core.Path.{subst}
use ctv_attribution_pipeline.Base.{
  raise_if, unknown_partition, append_nil, append_assoc, ℕ, ◌≡◌, ◌<◌, refl, sym, ap, ◌∙◌, false,
  none, some, List, [], ◌∷◌, ◌++◌, arith, ◌==◌, mem, mem-append, All, Result, ok, err, >>=-eq-ok,
  ok-eq,
}
use ctv_attribution_pipeline.Sort.Sets.{
  sorted_set, Ascending, mem-sorted_set, sorted_set-Ascending, sorted_set-eq,
}
use ctv_attribution_pipeline.Model.{Ident, Instant, AttributedConversion}
use ctv_attribution_pipeline.Lake.{Lake, Day, day_of}
use ctv_attribution_pipeline.Reconcile.{
  PassCounts, reconciled_at_for, candidate_days, lake_candidates, recover_day, recover_days,
  run_pass, long_window,
}
use ctv_attribution_pipeline.Serving.{Tables}
use ctv_attribution_pipeline.Serving.Rollup.{max_ingest}
use ctv_attribution_pipeline.Orchestration.{
  World, Ran, Totals, after, is_unknown, materialize_load, finalize, load_pass, run,
  recover_counted, land_recovered, keep_landed, reconciled_conversions, recover_each, run_reconcile,
}
use ctv_attribution_pipeline.Orchestration.OneDay.{OnDay, recover_day-OnDay}
use ctv_attribution_pipeline.Orchestration.Grown.{
  grown, grown-nil, grown-grown, days_of, land_attributed-eq, recover_day-grown,
}

-- rows of one day lie on no other
days_of-OnDay :
    (d z : Day) (rows : List AttributedConversion)
    → All (OnDay d) rows
    → (z == d) ≡ false
    → mem z (days_of rows) ≡ false
days_of-OnDay d z [] a h = refl
days_of-OnDay d z (r ∷ rows) a h = ground (arith, days_of-OnDay d z rows a.1 h, a.0)

days_of-append : (xs ys : List AttributedConversion) → days_of (xs ++ ys) ≡ days_of xs ++ days_of ys
days_of-append [] ys = refl
days_of-append (x ∷ xs) ys = ap (λ ds. day_of x.event_time ∷ ds) (days_of-append xs ys)

-- the days touched so far, and those of one more landing
touched-more :
    (xs ys : List AttributedConversion)
    → sorted_set (sorted_set (days_of xs) ++ sorted_set (days_of ys))
      ≡ sorted_set (days_of (xs ++ ys))
touched-more xs ys = sorted_set-eq _ _ (λ z.
    mem-append z (sorted_set (days_of xs)) (sorted_set (days_of ys))
    ∙ ground (
      arith,
      mem-sorted_set z (days_of xs),
      mem-sorted_set z (days_of ys),
      mem-append z (days_of xs) (days_of ys),
      ap (mem z) (days_of-append xs ys),
    ))

-- the candidates of a day are read where its pass returns
recover_day-candidates :
    (bucket_of : Ident → ℕ) (d : Day) (at : Instant) (window : ℕ) (lake : Lake)
    (rows : List AttributedConversion)
    → recover_day bucket_of d at window lake ≡ ok rows
    → (cands : List AttributedConversion) × (lake_candidates (some d) lake ≡ ok cands)
unfolding recover_day
recover_day-candidates bucket_of d at window lake rows h =
    let (cands, read, _) = >>=-eq-ok (lake_candidates (some d) lake) _ h in (cands, read)

-- Every day is one of the calendar.
abbrev pub IsKnown : List Day → Type 0
IsKnown = All (λ d. is_unknown d ≡ false)

-- None of the rows lies on one of the days.
abbrev Apart : List Day → List AttributedConversion → Type 0
Apart ds rows = All (λ d. mem d (days_of rows) ≡ false) ds

module _ (bucket_of : Ident → ℕ) (lake : Lake) (t : Tables) where
  abbrev at : Instant
  at = reconciled_at_for (max_ingest t)

  abbrev world : Lake → World
  world l = record { lake = l; tables = t }

  -- one day of the loop
  one_day :
      (d : Day) (pre rows : List AttributedConversion)
      → is_unknown d ≡ false
      → mem d (days_of pre) ≡ false
      → recover_day bucket_of d at long_window lake ≡ ok rows
      → reconciled_conversions bucket_of d (world (grown lake pre))
        ≡ (ok (sorted_set (days_of rows)), world (grown lake (pre ++ rows)))
  unfolding reconciled_conversions
  one_day d pre rows known h made =
      let w = world (grown lake pre) in
      let made' = recover_day-grown d lake pre h bucket_of at long_window ∙ made in
      let (cands, read) =
        recover_day-candidates bucket_of d at long_window (grown lake pre) rows made' in
      ap
        (λ b.
          after (raise_if b unknown_partition, w)
            (λ u w'. recover_counted bucket_of d w' (lake_candidates (some d) w'.lake)))
        known
      ∙ ap (recover_counted bucket_of d w) read
      ∙ ap (land_recovered w) made'
      ∙ ap (keep_landed w) (land_attributed-eq rows (grown lake pre))
      ∙ ap (λ l. (ok (sorted_set (days_of rows)), world l)) (grown-grown lake pre rows)

  -- the later days stay apart from what a day adds
  Apart-more :
      (d : Day) (ds : List Day) (pre rows : List AttributedConversion)
      → All (λ z. d < z) ds
      → All (OnDay d) rows
      → Apart ds pre
      → Apart ds (pre ++ rows)
  Apart-more d [] pre rows a o h = tt
  Apart-more d (z ∷ ds) pre rows a o h = (
    ap (mem z) (days_of-append pre rows)
        ∙ mem-append z (days_of pre) (days_of rows)
        ∙ ground (arith, h.0, days_of-OnDay d z rows o (ground (arith, a.0))),
    Apart-more d ds pre rows a.1 o h.1,
  )

  -- the loop lands day by day what the pass in one process lands at its end
  each_day :
      (ds : List Day) (pre rows : List AttributedConversion)
      → Ascending ds
      → IsKnown ds
      → Apart ds pre
      → recover_days bucket_of ds at lake ≡ ok rows
      → recover_each bucket_of ds (sorted_set (days_of pre)) (world (grown lake pre))
        ≡ (ok (sorted_set (days_of (pre ++ rows))), world (grown lake (pre ++ rows)))
  unfolding recover_days recover_each
  each_day [] pre rows s k a made =
      ap (λ rs. (ok (sorted_set (days_of rs)), world (grown lake rs)))
        (sym (append_nil pre) ∙ ap (λ rs. pre ++ rs) (ok-eq made))
  each_day (d ∷ ds) pre rows s k a made =
      let (first, ran, made') = >>=-eq-ok (recover_day bucket_of d at long_window lake) _ made in
      let (rest, others, made'') = >>=-eq-ok (recover_days bucket_of ds at lake) _ made' in
      ap
        (λ r.
          after r
            (λ more w. recover_each bucket_of ds (sorted_set (sorted_set (days_of pre) ++ more)) w))
        (one_day d pre first k.0 a.0 ran)
      ∙ ap (λ touched. recover_each bucket_of ds touched (world (grown lake (pre ++ first))))
          (touched-more pre first)
      ∙ each_day ds (pre ++ first) rest s.1 k.1
          (Apart-more d ds pre first s.0
            (recover_day-OnDay bucket_of d at long_window lake first ran) a.1)
          others
      ∙ ap (λ rs. (ok (sorted_set (days_of rs)), world (grown lake rs)))
          (append_assoc pre first rest ∙ ap (λ rs. pre ++ rs) (ok-eq made''))

Apart-nil : (ds : List Day) → Apart ds []
Apart-nil [] = tt
Apart-nil (d ∷ ds) = (refl, Apart-nil ds)

candidate_days-Ascending :
    (lake : Lake) (ds : List Day) → candidate_days lake ≡ ok ds → Ascending ds
unfolding candidate_days
candidate_days-Ascending lake ds h =
    let (rows, _, made) = >>=-eq-ok (lake_candidates none lake) _ h in
    subst Ascending (ok-eq made) (sorted_set-Ascending _)

-- what the pass in one process lands
pub record Passed (bucket_of : Ident → ℕ) (w : World) (lake : Lake) (touched : List Day)
    : Type 0 where
  pub days : List Day
  pub rows : List AttributedConversion
  pub listed : candidate_days w.lake ≡ ok days
  ran : recover_days bucket_of days (reconciled_at_for (max_ingest w.tables)) w.lake ≡ ok rows
  pub landed_as : grown w.lake rows ≡ lake
  touched_as : sorted_set (days_of rows) ≡ touched

pub run_pass-Passed :
    (bucket_of : Ident → ℕ) (w : World) (lake : Lake) (touched : List Day) (counts : PassCounts)
    → run_pass bucket_of (max_ingest w.tables) w.lake ≡ ok (lake, touched, counts)
    → Passed bucket_of w lake touched
unfolding run_pass
run_pass-Passed bucket_of w lake touched counts h =
    let at = reconciled_at_for (max_ingest w.tables) in
    let (days, listed, h1) = >>=-eq-ok (candidate_days w.lake) _ h in
    let (cands, _, h2) = >>=-eq-ok (lake_candidates none w.lake) _ h1 in
    let (rows, ran, h3) = >>=-eq-ok (recover_days bucket_of days at w.lake) _ h2 in
    let landing = land_attributed-eq rows w.lake in
    record {
      days = days;
      rows = rows;
      listed = listed;
      ran = ran;
      landed_as = sym (ap (λ p. p.0) landing) ∙ ap (λ p. p.0) (ok-eq h3);
      touched_as = sym (ap (λ p. p.1) landing) ∙ ap (λ p. p.1) (ok-eq h3);
    }

-- a call that returns made its first part, and then the rest
pub after-ok :
    {A B : Type 0} (r : Ran A) (next : A → World → Ran B) (b : B) (w' : World)
    → after r next ≡ (ok b, w')
    → (a : A) × (w : World) × (r ≡ (ok a, w)) × (next a w ≡ (ok b, w'))
after-ok (err e, w) next b w' h = absurd (cc (ap (λ p. p.0) h))
after-ok (ok a, w) next b w' h = (a, w, refl, h)

recovered-each :
    (bucket_of : Ident → ℕ) (w : World) (lake : Lake) (touched : List Day)
    → (p : Passed bucket_of w lake touched) → IsKnown p.days
    → recover_each bucket_of p.days [] w ≡ (ok touched, record w { lake = lake })
unfolding sorted_set
recovered-each bucket_of w lake touched p known =
    ap (λ l. recover_each bucket_of p.days [] (record w { lake = l })) (sym (grown-nil w.lake))
    ∙ each_day bucket_of w.lake w.tables p.days [] p.rows
        (candidate_days-Ascending w.lake p.days p.listed) known (Apart-nil p.days) p.ran
    ∙ ap (λ ds. (ok ds, record w { lake = grown w.lake p.rows })) p.touched_as
    ∙ ap (λ l. (ok touched, record w { lake = l })) p.landed_as

-- A reconciliation that the orchestration runs day by day, landing after each day, leaves the lake and
-- the serving tables that the pass in one process leaves, whenever that pass returns and every day
-- that has a candidate is one of the calendar.
pub run_reconcile-run :
    (bucket_of : Ident → ℕ) (w w' : World) (counts : PassCounts)
    → ((days : List Day) → candidate_days w.lake ≡ ok days → IsKnown days)
    → run bucket_of w ≡ (ok counts, w')
    → (totals : Totals) × (run_reconcile bucket_of none w ≡ (ok totals, w'))
unfolding run run_reconcile
run_reconcile-run bucket_of w w' counts known h =
    by_pass (run_pass bucket_of (max_ingest w.tables) w.lake) refl h
  where
    by_pass :
        (r : Result (Lake × List Day × PassCounts))
        → run_pass bucket_of (max_ingest w.tables) w.lake ≡ r
        → load_pass w r ≡ (ok counts, w')
        → (totals : Totals) × (run_reconcile bucket_of none w ≡ (ok totals, w'))
    by_pass (err e) q k = absurd (cc (ap (λ p. p.0) k))
    by_pass (ok (lake, touched, own)) q k =
        let (totals, w₃, loaded, done) =
          after-ok (materialize_load touched (record w { lake = lake })) _ counts w' k in
        let p = run_pass-Passed bucket_of w lake touched own q in
        (
          totals,
          ap
                (λ days.
                  after (days, w)
                    (λ ds w₁.
                      after (recover_each bucket_of ds [] w₁)
                        (λ ts w₂. after (materialize_load ts w₂) (λ n w₃. (ok n, finalize w₃)))))
                p.listed
              ∙ ap
                  (λ r.
                    after r (λ ts w₂. after (materialize_load ts w₂) (λ n w₃. (ok n, finalize w₃))))
                  (recovered-each bucket_of w lake touched p (known p.days p.listed))
              ∙ ap (λ r. after r (λ n w₃. (ok n, finalize w₃))) loaded
              ∙ ap (λ v. (ok totals, v)) (ap (λ p. p.1) done),
        )
