-- ===== src/Engine/Groups.antt =====
-- The oracle's groups and the engine's buckets: both give the row of the hot rule for each conversion.
use mathlib.Core.Path.{subst}
use mathlib.Core.List.Permᴰ
use mathlib.Core.List.{Permᴰ}
use ctv_attribution_pipeline.Base.{
  ℕ, ◌≡◌, refl, sym, ap, ◌∙◌, List, [], ◌∷◌, ◌++◌, map, All, All-append, ok, >>=-eq-ok, ok-eq,
}
use ctv_attribution_pipeline.Dict.{Dict, get_or, append_at}
use ctv_attribution_pipeline.Dict.Flat.{flat, flat-append_at, Filed, append_at-Filed}
use ctv_attribution_pipeline.Model.{Ident, Exposure, ResolvedConversion, AttributedConversion}
use ctv_attribution_pipeline.Attribute.LastTouch.{attribute_household}
use ctv_attribution_pipeline.Attribute.Streaming.{Event, exp, res}
use ctv_attribution_pipeline.Attribute.Streaming.Arrival.{conversions_of}
use ctv_attribution_pipeline.Attribute.Oracle.{resolved_by_household, attribute_groups}
use ctv_attribution_pipeline.Engine.Buckets.{Owned}
use ctv_attribution_pipeline.Engine.Rows.{hot_row, Returns, household-rows}

pub All-perm : {A : Type 0} (P : A → Type 0) {xs ys : List A} → Permᴰ xs ys → All P xs → All P ys
All-perm P Permᴰ.nil h = tt
All-perm P (Permᴰ.cons e d) h = (subst P e h.0, All-perm P d h.1)
All-perm P (Permᴰ.swap e f) h = (subst P f h.1.0, (subst P e h.0, h.1.1))
All-perm P (Permᴰ.trans p q) h = All-perm P q (All-perm P p h)

pub map-Permᴰ :
    {A B : Type 0} (f : A → B) {xs ys : List A} → Permᴰ xs ys → Permᴰ (map f xs) (map f ys)
map-Permᴰ f Permᴰ.nil = Permᴰ.nil
map-Permᴰ f (Permᴰ.cons e d) = Permᴰ.cons (ap f e) (map-Permᴰ f d)
map-Permᴰ f (Permᴰ.swap e g) = Permᴰ.swap (ap f e) (ap f g)
map-Permᴰ f (Permᴰ.trans p q) = Permᴰ.trans (map-Permᴰ f p) (map-Permᴰ f q)

pub map-append :
    {A B : Type 0} (f : A → B) (xs ys : List A) → map f (xs ++ ys) ≡ map f xs ++ map f ys
map-append f [] ys = refl
map-append f (x ∷ xs) ys = ap (λ l. f x ∷ l) (map-append f xs ys)

abbrev pub same_list : {A : Type 0} → List A → List A
same_list xs = xs

resolved_by_household-perm :
    (d : Dict (List ResolvedConversion)) (rs : List ResolvedConversion)
    → Permᴰ (flat same_list (resolved_by_household d rs)) (rs ++ flat same_list d)
unfolding resolved_by_household
resolved_by_household-perm d [] = Permᴰ.refl (flat same_list d)
resolved_by_household-perm d (r ∷ rs) =
    Permᴰ.trans (resolved_by_household-perm (append_at r.household_id r d) rs) (
      Permᴰ.trans
        (Permᴰ.append_left rs (flat-append_at same_list (λ xs v. refl) r.household_id r d))
        (Permᴰ.middle r rs (flat same_list d)))

pub groups-perm :
    (rs : List ResolvedConversion) → Permᴰ (flat same_list (resolved_by_household [] rs)) rs
groups-perm rs = Permᴰ.trans (resolved_by_household-perm [] rs) (Permᴰ.append-nil rs)

resolved_by_household-Filed :
    (d : Dict (List ResolvedConversion)) (rs : List ResolvedConversion)
    → Filed (λ h r. r.household_id ≡ h) d
    → Filed (λ h r. r.household_id ≡ h) (resolved_by_household d rs)
unfolding resolved_by_household
resolved_by_household-Filed d [] h = h
resolved_by_household-Filed d (r ∷ rs) h =
    resolved_by_household-Filed (append_at r.household_id r d) rs
      (append_at-Filed (λ h r. r.household_id ≡ h) r.household_id r d refl h)

pub groups-Filed :
    (rs : List ResolvedConversion) → Filed (λ h r. r.household_id ≡ h) (resolved_by_household [] rs)
groups-Filed rs = resolved_by_household-Filed [] rs tt

module _ (x : Dict (List Exposure)) (window : ℕ) (cands : Dict (List Ident)) where
  abbrev pub shown_to : Ident → List Exposure
  shown_to h = get_or [] h x

  -- the oracle's rows
  pub groups-rows :
      (d : Dict (List ResolvedConversion)) (rows : List AttributedConversion)
      → Filed (λ h r. r.household_id ≡ h) d
      → attribute_groups window cands x d ≡ ok rows
      → (rows ≡ map (hot_row shown_to window cands) (flat same_list d))
        × All (Returns shown_to window cands) (flat same_list d)
  unfolding attribute_groups
  groups-rows [] rows own made = (sym (ok-eq made), tt)
  groups-rows ((h, rs) ∷ d) rows own made =
      let (out, one, made') =
        >>=-eq-ok (attribute_household (get_or [] h x) rs window cands) _ made in
      let (rest, others, made'') = >>=-eq-ok (attribute_groups window cands x d) _ made' in
      let (same, returns) = household-rows shown_to window cands h rs out own.0 one in
      let (same', returns') = groups-rows d rest own.1 others in
      (
        sym (ok-eq made'')
            ∙ ap (λ l. l ++ rest) same
            ∙ ap (λ l. map (hot_row shown_to window cands) rs ++ l) same'
            ∙ sym (map-append (hot_row shown_to window cands) rs (flat same_list d)),
        All-append (Returns shown_to window cands) rs (flat same_list d) returns returns',
      )

pub conversions-InHousehold :
    (h : Ident) (evs : List Event)
    → All (Owned h) evs
    → All (λ r. r.household_id ≡ h) (conversions_of evs)
unfolding conversions_of
conversions-InHousehold h [] a = tt
conversions-InHousehold h (exp e ∷ evs) a = conversions-InHousehold h evs a.1
conversions-InHousehold h (res r ∷ evs) a = (a.0, conversions-InHousehold h evs a.1)
