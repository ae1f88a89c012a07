-- ===== src/Orchestration/OneDay.antt =====
-- The rows that one day's pass recovers lie on that day, and the pass reads no row of another day.
use mathlib.Core.Path.{subst}
use ctv_attribution_pipeline.Base.{
  ℕ, ◌≡◌, sym, ap, ◌∙◌, inl, inr, Bool, true, some, List, [], ◌∷◌, map, arith, ◌==◌, ltb, filter,
  All, All-map, All-append, All-filter, All-Occurs, Bool-cases, Result, ok, >>=-eq-ok, ok-eq,
  map_all,
}
use ctv_attribution_pipeline.Sort.Stable.{All-sort_by}
use ctv_attribution_pipeline.Dict.{Dict, insert, values, lookup}
use ctv_attribution_pipeline.Model.{
  Ident, Instant, Exposure, ResolvedConversion, AttributedConversion, validate,
}
use ctv_attribution_pipeline.Model.Validator.{validate-IsAccepted}
use ctv_attribution_pipeline.Attribute.Oracle.{sort_rows}
use ctv_attribution_pipeline.Lake.{
  Lake, Day, day_of, in_days, read_row, current_from, takes_over, current_rows, read_current,
}
use ctv_attribution_pipeline.Lake.Days.{in_days-mem}
use ctv_attribution_pipeline.Reconcile.{
  at_household, expand_one, expand_candidates, is_candidate, check_all, lake_candidates,
  recover_day, check_start,
}
use ctv_attribution_pipeline.Reconcile.Recovery.{Recovered, reconcile-Recovered}

abbrev pub OnDay : Day → AttributedConversion → Type 0
OnDay d r = day_of r.event_time ≡ d

abbrev OnDayBefore : Day → ResolvedConversion → Type 0
OnDayBefore d r = day_of r.event_time ≡ d

insert-All :
    (P : AttributedConversion → Type 0) (k : Ident) (v : AttributedConversion)
    (d : Dict AttributedConversion)
    → P v
    → All (λ e. P e.1) d
    → All (λ e. P e.1) (insert k v d)
unfolding insert
insert-All P k v [] p h = (p, tt)
insert-All P k v (e ∷ d) p h = elim (Bool-cases (k == e.0)) [
  | inl q ↦ rw q (p, h.1)
  | inr q ↦ rw q (h.0, insert-All P k v d p h.1)
]

current_from-All :
    (P : AttributedConversion → Type 0) (d : Dict AttributedConversion)
    (rs : List AttributedConversion)
    → All (λ e. P e.1) d
    → All P rs
    → All (λ e. P e.1) (current_from d rs)
unfolding current_from
current_from-All P d [] h o = h
current_from-All P d (r ∷ rs) h o = elim (Bool-cases (takes_over r (lookup r.conversion_id d))) [
  | inl q ↦ rw q (
      current_from-All P (insert r.conversion_id r d) rs (insert-All P r.conversion_id r d o.0 h)
        o.1)
  | inr q ↦ rw q (current_from-All P d rs h o.1)
]

values-All :
    (P : AttributedConversion → Type 0) (d : Dict AttributedConversion)
    → All (λ e. P e.1) d
    → All P (values d)
values-All P [] h = tt
values-All P (e ∷ d) h = (h.0, values-All P d h.1)

on_day_of : (d : Day) (t : Instant) → in_days (some (d ∷ [])) t ≡ true → day_of t ≡ d
on_day_of d t h = ground (arith, in_days-mem (d ∷ []) t, h)

filter-All :
    {A : Type 0} (P : A → Type 0) (p : A → Bool) (xs : List A)
    → ((a : A) → p a ≡ true → P a)
    → All P (filter p xs)
filter-All P p [] h = tt
filter-All P p (x ∷ xs) h = elim (Bool-cases (p x)) [
  | inl e ↦ rw e (h x e, filter-All P p xs h)
  | inr e ↦ rw e (filter-All P p xs h)
]

current_rows-OnDay : (d : Day) (lake : Lake) → All (OnDay d) (current_rows (some (d ∷ [])) lake)
unfolding current_rows sort_rows
current_rows-OnDay d lake = All-sort_by _ (OnDay d) _ (
    values-All (OnDay d) _ (
      current_from-All (OnDay d) [] _ tt
        (filter-All (OnDay d) _ lake.attributed (λ r. on_day_of d r.event_time))))

validate-eq : (r out : AttributedConversion) → validate r ≡ ok out → out ≡ r
validate-eq r out h = (validate-IsAccepted r out h).0

read_row-eq : (r out : AttributedConversion) → read_row r ≡ ok out → out ≡ r
unfolding read_row
read_row-eq r out h = ground (arith, h, validate-eq r out)

map_all-All :
    {A B : Type 0} (P : A → Type 0) (Q : B → Type 0) (f : A → Result B)
    → ((x : A) (y : B) → f x ≡ ok y → P x → Q y)
    → (xs : List A) (ys : List B) → map_all f xs ≡ ok ys
    → All P xs
    → All Q ys
map_all-All P Q f keep [] ys h a = subst (All Q) (ok-eq h) tt
map_all-All P Q f keep (x ∷ xs) ys h a =
    let (z, first, h') = >>=-eq-ok (f x) _ h in
    let (zs, rest, made) = >>=-eq-ok (map_all f xs) _ h' in
    subst (All Q) (ok-eq made) (keep x z first a.0, map_all-All P Q f keep xs zs rest a.1)

read_current-OnDay :
    (d : Day) (lake : Lake) (rows : List AttributedConversion)
    → read_current (some (d ∷ [])) lake ≡ ok rows
    → All (OnDay d) rows
unfolding read_current
read_current-OnDay d lake rows h =
    map_all-All (OnDay d) (OnDay d) read_row
      (λ x y e o. subst (OnDay d) (sym (read_row-eq x y e)) o) (current_rows (some (d ∷ [])) lake)
      rows h (current_rows-OnDay d lake)

lake_candidates-OnDay :
    (d : Day) (lake : Lake) (rows : List AttributedConversion)
    → lake_candidates (some d) lake ≡ ok rows
    → All (OnDay d) rows
unfolding lake_candidates
lake_candidates-OnDay d lake rows h =
    let (current, read, h') = >>=-eq-ok (read_current (some (d ∷ [])) lake) _ h in
    let (_, _, made) = >>=-eq-ok (check_all (filter is_candidate current)) _ h' in
    subst (All (OnDay d)) (ok-eq made)
      (All-filter (OnDay d) is_candidate current (read_current-OnDay d lake current read))

at_households-OnDay :
    (d : Day) (conv : ResolvedConversion) (hhs : List Ident)
    → OnDayBefore d conv
    → All (OnDayBefore d) (map (at_household conv) hhs)
at_households-OnDay d conv [] h = tt
at_households-OnDay d conv (x ∷ hhs) h = (h, at_households-OnDay d conv hhs h)

expand_one-OnDay :
    (d : Day) (conv : AttributedConversion) → OnDay d conv → All (OnDayBefore d) (expand_one conv)
unfolding expand_one
expand_one-OnDay d conv h = elim (Bool-cases (ltb 1 conv.candidate_count)) [
  | inl e ↦ rw e (at_households-OnDay d conv.resolved conv.candidate_households h)
  | inr e ↦ rw e (h, tt)
]

expand_candidates-OnDay :
    (d : Day) (rows : List AttributedConversion)
    → All (OnDay d) rows
    → All (OnDayBefore d) (expand_candidates rows)
unfolding expand_candidates
expand_candidates-OnDay d [] h = tt
expand_candidates-OnDay d (r ∷ rows) h =
    All-append (OnDayBefore d) (expand_one r) (expand_candidates rows) (expand_one-OnDay d r h.0)
      (expand_candidates-OnDay d rows h.1)

Recovered-OnDay :
    (d : Day) (exposures : Dict (List Exposure)) (window : ℕ) (at : Instant)
    (candidates : List ResolvedConversion)
    → All (OnDayBefore d) candidates
    → (row : AttributedConversion) → Recovered exposures window at candidates row
    → OnDay d row
Recovered-OnDay d exposures window at candidates h row r =
    ap (λ (x : AttributedConversion). day_of x.event_time) r.stamped
    ∙ ap (λ (x : ResolvedConversion). day_of x.event_time) r.credits.resolved
    ∙ All-Occurs (OnDayBefore d) r.conv candidates h r.occurs

-- the corrections of a day
pub recover_day-OnDay :
    (bucket_of : Ident → ℕ) (d : Day) (at : Instant) (window : ℕ) (lake : Lake)
    (rows : List AttributedConversion)
    → recover_day bucket_of d at window lake ≡ ok rows
    → All (OnDay d) rows
unfolding recover_day
recover_day-OnDay bucket_of d at window lake rows h =
    let (cands, read, h') = >>=-eq-ok (lake_candidates (some d) lake) _ h in
    let (_, _, started) = >>=-eq-ok (check_start d window (expand_candidates cands)) _ h' in
    All-map _ (OnDay d)
      (Recovered-OnDay d _ window at (expand_candidates cands)
        (expand_candidates-OnDay d cands (lake_candidates-OnDay d lake cands read)))
      rows (reconcile-Recovered (expand_candidates cands) _ window at rows started)
