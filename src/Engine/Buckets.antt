-- ===== src/Engine/Buckets.antt =====
-- The buckets of `run_attribution`: each holds the exposures that the oracle files under its household,
-- and together they hold the resolved rows.
use mathlib.Core.List.Permᴰ
use mathlib.Core.List.{Permᴰ}
use ctv_attribution_pipeline.Base.{
  ◌≡◌, refl, sym, ap, ◌∙◌, List, [], ◌∷◌, ◌++◌, All, All-map, append_nil, Distinct, arith,
}
use ctv_attribution_pipeline.Dict.{Dict, get_or, append_at, keys}
use ctv_attribution_pipeline.Dict.Laws.{get_or-append_at}
use ctv_attribution_pipeline.Dict.Flat.{
  flat, flat-append_at, Filed, append_at-Filed, append_at-Distinct, get_or-entry,
}
use ctv_attribution_pipeline.Model.{Ident, Exposure, ResolvedConversion}
use ctv_attribution_pipeline.Attribute.Streaming.{Event, exp, res}
use ctv_attribution_pipeline.Attribute.Streaming.Arrival.{exposures_of, conversions_of}
use ctv_attribution_pipeline.Attribute.Oracle.{exposures_by_household}
use ctv_attribution_pipeline.Engine.{bucket_exposures, bucket_resolved}

exposures_of-add :
    (evs : List Event) (ev : Event)
    → exposures_of (evs ++ ev ∷ []) ≡ exposures_of evs ++ exposures_of (ev ∷ [])
unfolding exposures_of
exposures_of-add [] ev = refl
exposures_of-add (exp e ∷ evs) ev = ap (λ l. e ∷ l) (exposures_of-add evs ev)
exposures_of-add (res r ∷ evs) ev = exposures_of-add evs ev

conversions_of-add :
    (evs : List Event) (ev : Event)
    → conversions_of (evs ++ ev ∷ []) ≡ conversions_of evs ++ conversions_of (ev ∷ [])
unfolding conversions_of
conversions_of-add [] ev = refl
conversions_of-add (exp e ∷ evs) ev = conversions_of-add evs ev
conversions_of-add (res r ∷ evs) ev = ap (λ l. r ∷ l) (conversions_of-add evs ev)

-- each bucket shows the exposures of its household
abbrev Shows : Dict (List Event) → Dict (List Exposure) → Type 0
Shows d x = (j : Ident) → exposures_of (get_or [] j d) ≡ get_or [] j x

add_exposure-Shows :
    (d : Dict (List Event)) (x : Dict (List Exposure)) (e : Exposure)
    → Shows d x
    → Shows (append_at e.household_id (exp e) d) (append_at e.household_id e x)
unfolding exposures_of
add_exposure-Shows d x e h j = ground (
  arith,
  get_or-append_at e.household_id j (exp e) d,
  get_or-append_at e.household_id j e x,
  h e.household_id,
  h j,
  exposures_of-add (get_or [] e.household_id d) (exp e),
)

add_resolved-Shows :
    (d : Dict (List Event)) (x : Dict (List Exposure)) (r : ResolvedConversion)
    → Shows d x
    → Shows (append_at r.household_id (res r) d) x
unfolding exposures_of
add_resolved-Shows d x r h j = ground (
  arith,
  get_or-append_at r.household_id j (res r) d,
  h r.household_id,
  h j,
  exposures_of-add (get_or [] r.household_id d) (res r),
  append_nil (exposures_of (get_or [] r.household_id d)),
)

bucket_exposures-Shows :
    (d : Dict (List Event)) (x : Dict (List Exposure)) (es : List Exposure)
    → Shows d x
    → Shows (bucket_exposures d es) (exposures_by_household x es)
unfolding bucket_exposures exposures_by_household
bucket_exposures-Shows d x [] h = h
bucket_exposures-Shows d x (e ∷ es) h =
    bucket_exposures-Shows (append_at e.household_id (exp e) d) (append_at e.household_id e x) es
      (add_exposure-Shows d x e h)

bucket_resolved-Shows :
    (d : Dict (List Event)) (x : Dict (List Exposure)) (rs : List ResolvedConversion)
    → Shows d x
    → Shows (bucket_resolved d rs) x
unfolding bucket_resolved
bucket_resolved-Shows d x [] h = h
bucket_resolved-Shows d x (r ∷ rs) h =
    bucket_resolved-Shows (append_at r.household_id (res r) d) x rs (add_resolved-Shows d x r h)

-- the conversions of the buckets
bucket_exposures-perm :
    (d : Dict (List Event)) (es : List Exposure)
    → Permᴰ (flat conversions_of (bucket_exposures d es)) (flat conversions_of d)
unfolding bucket_exposures conversions_of
bucket_exposures-perm d [] = Permᴰ.refl (flat conversions_of d)
bucket_exposures-perm d (e ∷ es) =
    Permᴰ.trans (bucket_exposures-perm (append_at e.household_id (exp e) d) es)
      (flat-append_at conversions_of conversions_of-add e.household_id (exp e) d)

bucket_resolved-perm :
    (d : Dict (List Event)) (rs : List ResolvedConversion)
    → Permᴰ (flat conversions_of (bucket_resolved d rs)) (rs ++ flat conversions_of d)
unfolding bucket_resolved conversions_of
bucket_resolved-perm d [] = Permᴰ.refl (flat conversions_of d)
bucket_resolved-perm d (r ∷ rs) =
    Permᴰ.trans (bucket_resolved-perm (append_at r.household_id (res r) d) rs) (
      Permᴰ.trans
        (Permᴰ.append_left rs
          (flat-append_at conversions_of conversions_of-add r.household_id (res r) d))
        (Permᴰ.middle r rs (flat conversions_of d)))

-- a property of the events under their household
module _ (P : Ident → Event → Type 0) where
  bucket_exposures-Filed :
      (d : Dict (List Event)) (es : List Exposure)
      → All (λ (e : Exposure). P e.household_id (exp e)) es
      → Filed P d
      → Filed P (bucket_exposures d es)
  unfolding bucket_exposures
  bucket_exposures-Filed d [] a h = h
  bucket_exposures-Filed d (e ∷ es) a h =
      bucket_exposures-Filed (append_at e.household_id (exp e) d) es a.1
        (append_at-Filed P e.household_id (exp e) d a.0 h)

  bucket_resolved-Filed :
      (d : Dict (List Event)) (rs : List ResolvedConversion)
      → All (λ (r : ResolvedConversion). P r.household_id (res r)) rs
      → Filed P d
      → Filed P (bucket_resolved d rs)
  unfolding bucket_resolved
  bucket_resolved-Filed d [] a h = h
  bucket_resolved-Filed d (r ∷ rs) a h =
      bucket_resolved-Filed (append_at r.household_id (res r) d) rs a.1
        (append_at-Filed P r.household_id (res r) d a.0 h)

bucket_exposures-Distinct :
    (d : Dict (List Event)) (es : List Exposure)
    → Distinct (keys d)
    → Distinct (keys (bucket_exposures d es))
unfolding bucket_exposures
bucket_exposures-Distinct d [] h = h
bucket_exposures-Distinct d (e ∷ es) h =
    bucket_exposures-Distinct (append_at e.household_id (exp e) d) es
      (append_at-Distinct e.household_id (exp e) d h)

bucket_resolved-Distinct :
    (d : Dict (List Event)) (rs : List ResolvedConversion)
    → Distinct (keys d)
    → Distinct (keys (bucket_resolved d rs))
unfolding bucket_resolved
bucket_resolved-Distinct d [] h = h
bucket_resolved-Distinct d (r ∷ rs) h =
    bucket_resolved-Distinct (append_at r.household_id (res r) d) rs
      (append_at-Distinct r.household_id (res r) d h)

abbrev pub Owned : Ident → Event → Type 0
Owned h (exp e) = Unit
Owned h (res r) = r.household_id ≡ h

-- the buckets of a run
module _ (es : List Exposure) (rs : List ResolvedConversion) where
  abbrev pub buckets : Dict (List Event)
  buckets = bucket_resolved (bucket_exposures [] es) rs

  pub buckets-perm : Permᴰ (flat conversions_of buckets) rs
  buckets-perm =
      Permᴰ.trans (bucket_resolved-perm (bucket_exposures [] es) rs)
        (Permᴰ.trans (Permᴰ.append_left rs (bucket_exposures-perm [] es)) (Permᴰ.append-nil rs))

  pub buckets-Filed :
      (P : Ident → Event → Type 0)
      → All (λ (e : Exposure). P e.household_id (exp e)) es
      → All (λ (r : ResolvedConversion). P r.household_id (res r)) rs
      → Filed P buckets
  buckets-Filed P a b =
      bucket_resolved-Filed P (bucket_exposures [] es) rs b (bucket_exposures-Filed P [] es a tt)

  -- each bucket shows the exposures that the oracle files under its household
  pub buckets-exposures :
      All (λ e. exposures_of e.1 ≡ get_or [] e.0 (exposures_by_household [] es)) buckets
  unfolding get_or exposures_of
  buckets-exposures =
      All-map (λ e. get_or [] e.0 buckets ≡ e.1)
        (λ e. exposures_of e.1 ≡ get_or [] e.0 (exposures_by_household [] es))
        (λ e q.
          sym (ap exposures_of q)
          ∙ bucket_resolved-Shows (bucket_exposures [] es) (exposures_by_household [] es) rs
              (bucket_exposures-Shows [] [] es (λ j. refl)) e.0)
        buckets
        (get_or-entry buckets (
          bucket_resolved-Distinct (bucket_exposures [] es) rs
            (bucket_exposures-Distinct [] es tt)))
