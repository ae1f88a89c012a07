-- ===== src/Serving/Rollup/Groups.antt =====
-- The row of one key in a grouping, and that it depends only on the exposures of that key.
use ctv_attribution_pipeline.Base.{
  ◌≡◌, refl, sym, ap, ◌∙◌, inl, inr, Bool, true, false, ◌&&◌, Option, none, some, List, [], ◌∷◌,
  ◌++◌, map, arith, if◌then◌else◌, filter, Bool-cases,
}
use ctv_attribution_pipeline.Table.{Pair, same_pair, find}
use ctv_attribution_pipeline.Table.Final.{same_pair_iff, Once}
use ctv_attribution_pipeline.Model.{Exposure, AttributedConversion}
use ctv_attribution_pipeline.Serving.{HourlyRow, key_of, credited_to}
use ctv_attribution_pipeline.Serving.Rollup.{
  hourly_key, hourly_version, exposure_part, credit_part, on_path, credit_parts, merge, add_part,
  group_parts,
}

-- the group of a key after one more part
abbrev pub join : Option HourlyRow → HourlyRow → HourlyRow
join none p = p
join (some r) p = merge r p

merge-key : (r p : HourlyRow) → hourly_key (merge r p) ≡ hourly_key r
unfolding merge
merge-key r p = refl

same_pair_refl : (a : Pair) → same_pair a a ≡ true
same_pair_refl a = ground arith

find-add_part :
    (k : Pair) (p : HourlyRow) (rows : List HourlyRow)
    → find same_pair hourly_key k (add_part p rows) ≡ (
        if same_pair k (hourly_key p)
        then some (join (find same_pair hourly_key k rows) p)
        else find same_pair hourly_key k rows)
unfolding find add_part
find-add_part k p [] = refl
find-add_part k p (r ∷ rows) = ground (arith, find-add_part k p rows, merge-key r p)

-- the group of `k` after some parts
unfoldable pub merge_in : Pair → Option HourlyRow → List HourlyRow → Option HourlyRow
merge_in k o [] = o
merge_in k o (p ∷ parts) =
    merge_in k (if same_pair k (hourly_key p) then some (join o p) else o) parts

pub find-group_parts :
    (k : Pair) (rows parts : List HourlyRow)
    → find same_pair hourly_key k (group_parts rows parts)
      ≡ merge_in k (find same_pair hourly_key k rows) parts
unfolding group_parts merge_in
find-group_parts k rows [] = refl
find-group_parts k rows (p ∷ parts) =
    find-group_parts k (add_part p rows) parts
    ∙ ap (λ o. merge_in k o parts) (find-add_part k p rows)

abbrev pub OncePerKey : List HourlyRow → Type 0
OncePerKey = Once same_pair hourly_key hourly_version same_pair_iff

add_part-Once :
    (p : HourlyRow) (rows : List HourlyRow) → OncePerKey rows → OncePerKey (add_part p rows)
unfolding add_part find
add_part-Once p [] h = (refl, tt)
add_part-Once p (r ∷ rows) h = elim (Bool-cases (same_pair (hourly_key p) (hourly_key r))) [
  | inl e ↦ rw e (ap (λ k. find same_pair hourly_key k rows) (merge-key r p) ∙ h.0, h.1)
  | inr e ↦
      rw e (find-add_part (hourly_key r) p rows ∙ ground (arith, e, h.0), add_part-Once p rows h.1)
]

pub group_parts-Once :
    (rows parts : List HourlyRow) → OncePerKey rows → OncePerKey (group_parts rows parts)
unfolding group_parts
group_parts-Once rows [] h = h
group_parts-Once rows (p ∷ parts) h =
    group_parts-Once (add_part p rows) parts (add_part-Once p rows h)

pub merge_in-append :
    (k : Pair) (o : Option HourlyRow) (xs ys : List HourlyRow)
    → merge_in k o (xs ++ ys) ≡ merge_in k (merge_in k o xs) ys
unfolding merge_in
merge_in-append k o [] ys = refl
merge_in-append k o (x ∷ xs) ys =
    merge_in-append k (if same_pair k (hourly_key x) then some (join o x) else o) xs ys

-- the credits of an exposure of another key change nothing
merge_in-other :
    (k : Pair) (o : Option HourlyRow) (e : Exposure) (convs : List AttributedConversion)
    → same_pair k (key_of e) ≡ false
    → merge_in k o (map (credit_part e) convs) ≡ o
unfolding merge_in
merge_in-other k o e [] h = refl
merge_in-other k o e (a ∷ convs) h =
    ap
      (λ b.
        merge_in k (if b then some (join o (credit_part e a)) else o) (map (credit_part e) convs))
      h
    ∙ merge_in-other k o e convs h

-- A filter that lets every exposure of a key through does not show in the group of that key.
module _ (k : Pair) (keep : Exposure → Bool)
    (all : (e : Exposure) → same_pair k (key_of e) ≡ true → keep e ≡ true) where
  left_out : (e : Exposure) → keep e ≡ false → same_pair k (key_of e) ≡ false
  left_out e h = elim (Bool-cases (same_pair k (key_of e))) [
    | inl q ↦ absurd (cc (h, all e q))
    | inr q ↦ q
  ]

  pub exposure_parts-keep :
      (o : Option HourlyRow) (es : List Exposure)
      → merge_in k o (map exposure_part (filter keep es)) ≡ merge_in k o (map exposure_part es)
  unfolding merge_in
  exposure_parts-keep o [] = refl
  exposure_parts-keep o (e ∷ es) = elim (Bool-cases (keep e)) [
    | inl q ↦ rw q (
        exposure_parts-keep (if same_pair k (key_of e) then some (join o (exposure_part e)) else o)
          es)
    | inr q ↦ rw q (
        exposure_parts-keep o es
        ∙ ap
            (λ b.
              merge_in k (if b then some (join o (exposure_part e)) else o) (map exposure_part es))
            (sym (left_out e q)))
  ]

  pub credit_parts-keep :
      (hot_only : Bool) (o : Option HourlyRow) (es : List Exposure)
      (convs : List AttributedConversion)
      → merge_in k o (credit_parts hot_only (filter keep es) convs)
        ≡ merge_in k o (credit_parts hot_only es convs)
  unfolding credit_parts
  credit_parts-keep hot_only o [] convs = refl
  credit_parts-keep hot_only o (e ∷ es) convs =
      let here =
        map (credit_part e)
          (filter (λ (a : AttributedConversion). credited_to e a && on_path hot_only a) convs) in
      elim (Bool-cases (keep e)) [
        | inl q ↦ rw q (
            merge_in-append k o here (credit_parts hot_only (filter keep es) convs)
            ∙ credit_parts-keep hot_only (merge_in k o here) es convs
            ∙ sym (merge_in-append k o here (credit_parts hot_only es convs)))
        | inr q ↦ rw q (
            credit_parts-keep hot_only o es convs
            ∙ ap (λ x. merge_in k x (credit_parts hot_only es convs))
                (sym (merge_in-other k o e _ (left_out e q)))
            ∙ sym (merge_in-append k o here (credit_parts hot_only es convs)))
      ]

-- A filter that lets no exposure of a key through leaves the key without a group.
module _ (k : Pair) (keep : Exposure → Bool)
    (none_kept : (e : Exposure) → same_pair k (key_of e) ≡ true → keep e ≡ false) where
  kept_other : (e : Exposure) → keep e ≡ true → same_pair k (key_of e) ≡ false
  kept_other e h = elim (Bool-cases (same_pair k (key_of e))) [
    | inl q ↦ absurd (cc (h, none_kept e q))
    | inr q ↦ q
  ]

  pub exposure_parts-drop :
      (o : Option HourlyRow) (es : List Exposure)
      → merge_in k o (map exposure_part (filter keep es)) ≡ o
  unfolding merge_in
  exposure_parts-drop o [] = refl
  exposure_parts-drop o (e ∷ es) = elim (Bool-cases (keep e)) [
    | inl q ↦ rw q (
        ap
          (λ b.
            merge_in k (if b then some (join o (exposure_part e)) else o)
              (map exposure_part (filter keep es)))
          (kept_other e q)
        ∙ exposure_parts-drop o es)
    | inr q ↦ rw q (exposure_parts-drop o es)
  ]

  pub credit_parts-drop :
      (hot_only : Bool) (o : Option HourlyRow) (es : List Exposure)
      (convs : List AttributedConversion)
      → merge_in k o (credit_parts hot_only (filter keep es) convs) ≡ o
  unfolding credit_parts merge_in
  credit_parts-drop hot_only o [] convs = refl
  credit_parts-drop hot_only o (e ∷ es) convs =
      let mine =
        filter (λ (a : AttributedConversion). credited_to e a && on_path hot_only a) convs in
      let here = map (credit_part e) mine in
      elim (Bool-cases (keep e)) [
        | inl q ↦ rw q (
            merge_in-append k o here (credit_parts hot_only (filter keep es) convs)
            ∙ credit_parts-drop hot_only (merge_in k o here) es convs
            ∙ merge_in-other k o e mine (kept_other e q))
        | inr q ↦ rw q (credit_parts-drop hot_only o es convs)
      ]
