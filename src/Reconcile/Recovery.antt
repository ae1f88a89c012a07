-- ===== src/Reconcile/Recovery.antt =====
-- What the matcher of a reconciliation pass recovers.
use mathlib.Core.Path.{subst}
use ctv_attribution_pipeline.Base.{
  ℕ, ◌≡◌, ◌⊎◌, refl, sym, ap, ◌∙◌, inl, inr, true, Option, none, some, List, [], ◌∷◌, ◌==◌, All,
  All-map, All-append, All-Occurs, Occurs, Bool-cases, Result, ok, >>=-eq-ok, ok-eq, map_all,
  raise_if, not_expanded,
}
use ctv_attribution_pipeline.Dict.{Dict, get_or, append_at}
use ctv_attribution_pipeline.Model.{
  Ident, Instant, Exposure, ResolvedConversion, AttributedConversion,
}
use ctv_attribution_pipeline.Attribute.Candidates.{candidate_households_by_conversion}
use ctv_attribution_pipeline.Attribute.LastTouch.{Candidate}
use ctv_attribution_pipeline.Attribute.LastTouch.Outcome.{Credits, Misses, last_touch-outcome}
use ctv_attribution_pipeline.Reconcile.{
  pick_household, group_by_conversion, unexpanded, restamp, recovered_rows, score_group,
  reconcile_groups, reconcile,
}
use ctv_attribution_pipeline.Reconcile.Pick.{Picked, pick_household-Picked}

-- a value that a comprehension makes comes from an item of its list
pub map_all-Occurs :
    {A B : Type 0} (f : A → Result B) (xs : List A) (ys : List B) (y : B)
    → map_all f xs ≡ ok ys
    → Occurs y ys
    → (x : A) × Occurs x xs × (f x ≡ ok y)
map_all-Occurs f [] ys y h o = absurd (subst (Occurs y) (sym (ok-eq h)) o)
map_all-Occurs f (x ∷ xs) ys y h o =
    let (z, first, h') = >>=-eq-ok (f x) _ h in
    let (zs, rest, made) = >>=-eq-ok (map_all f xs) _ h' in
    place z zs first (map_all-Occurs f xs zs y rest) (subst (Occurs y) (sym (ok-eq made)) o)
  where
    place :
        (z : _) (zs : List _)
        → f x ≡ ok z
        → (Occurs y zs → (w : _) × Occurs w xs × (f w ≡ ok y))
        → Occurs y (z ∷ zs)
        → (w : _) × Occurs w (x ∷ xs) × (f w ≡ ok y)
    place z zs first rec (inl e) = (x, inl refl, first ∙ ap ok (sym e))
    place z zs first rec (inr q) = let (w, occ, fw) = rec q in (w, inr occ, fw)

-- A recovered row: the credit of the leaf at one of the candidates, stamped as reconciled.
pub record Recovered (exposures : Dict (List Exposure)) (window : ℕ) (at : Instant)
    (candidates : List ResolvedConversion) (row : AttributedConversion) : Type 0 where
  pub conv : ResolvedConversion
  pub winner : Candidate
  pub occurs : Occurs conv candidates
  pub credits : Credits (get_or [] conv.household_id exposures) conv window winner
  pub stamped : row ≡ restamp at winner.row

credits_of :
    (es : List Exposure) (conv : ResolvedConversion) (window : ℕ) (w : Candidate)
    → w.row.attributed ≡ true
    → Credits es conv window w ⊎ Misses es conv window w
    → Credits es conv window w
credits_of es conv window w a (inl c) = c
credits_of es conv window w a (inr m) = absurd (cc (a, m.attributed))

module _ (exposures : Dict (List Exposure)) (window : ℕ) (at : Instant)
    (candidates : List ResolvedConversion) where
  abbrev Found : AttributedConversion → Type 0
  Found = Recovered exposures window at candidates

  group-Found :
      (hhs : List Ident) (rows : List ResolvedConversion) (scored : List Candidate)
      → All (λ r. Occurs r candidates) rows
      → score_group exposures window hhs rows ≡ ok scored
      → All Found (recovered_rows at (pick_household scored))
  unfolding score_group
  group-Found hhs rows scored inside h =
      chosen (pick_household scored) (pick_household-Picked scored)
    where
      chosen : (o : Option Candidate) → Picked scored o → All Found (recovered_rows at o)
      chosen none p = tt
      chosen (some w) p =
          let (conv, occ, leaf) = map_all-Occurs _ rows scored w h p.occurs in
          (
            record {
              conv = conv;
              winner = w;
              occurs = All-Occurs (λ r. Occurs r candidates) conv rows inside occ;
              credits =
                  credits_of _ conv window w p.attributed
                    (last_touch-outcome _ conv window hhs w leaf);
              stamped = refl;
            },
            tt,
          )

  abbrev pub Inside : Dict (List ResolvedConversion) → Type 0
  Inside = All (λ g. All (λ r. Occurs r candidates) g.1)

  groups-Found :
      (sets : Dict (List Ident)) (groups : Dict (List ResolvedConversion))
      (out : List AttributedConversion)
      → Inside groups
      → reconcile_groups exposures window at sets groups ≡ ok out
      → All Found out
  unfolding reconcile_groups
  groups-Found sets [] out inside h = subst (All Found) (ok-eq h) tt
  groups-Found sets ((cid, rows) ∷ groups) out inside h =
      let (_, _, h1) = >>=-eq-ok (raise_if (unexpanded rows) not_expanded) _ h in
      let (scored, made, h2) =
        >>=-eq-ok (score_group exposures window (get_or [] cid sets) rows) _ h1 in
      let (rest, ran, h3) = >>=-eq-ok (reconcile_groups exposures window at sets groups) _ h2 in
      subst (All Found) (ok-eq h3) (
        All-append Found (recovered_rows at (pick_household scored)) rest
          (group-Found (get_or [] cid sets) rows scored inside.0 made)
          (groups-Found sets groups rest inside.1 ran))

  append_at-Inside :
      (k : Ident) (r : ResolvedConversion) (d : Dict (List ResolvedConversion))
      → Occurs r candidates
      → Inside d
      → Inside (append_at k r d)
  unfolding append_at
  append_at-Inside k r [] o h = ((o, tt), tt)
  append_at-Inside k r (e ∷ d) o h = elim (Bool-cases (k == e.0)) [
    | inl q ↦ rw q (All-append (λ x. Occurs x candidates) e.1 (r ∷ []) h.0 (o, tt), h.1)
    | inr q ↦ rw q (h.0, append_at-Inside k r d o h.1)
  ]

  pub group_by-Inside :
      (d : Dict (List ResolvedConversion)) (rows : List ResolvedConversion)
      → Inside d
      → All (λ r. Occurs r candidates) rows
      → Inside (group_by_conversion d rows)
  unfolding group_by_conversion
  group_by-Inside d [] h o = h
  group_by-Inside d (r ∷ rows) h o =
      group_by-Inside (append_at r.conversion_id r d) rows
        (append_at-Inside r.conversion_id r d o.0 h) o.1

pub self : {A : Type 0} (xs : List A) → All (λ x. Occurs x xs) xs
self [] = tt
self (x ∷ xs) =
    (inl refl, All-map (λ y. Occurs y xs) (λ y. Occurs y (x ∷ xs)) (λ y o. inr o) xs (self xs))

-- Every row that the matcher recovers is the credit of the leaf for one of the candidates, against the
-- exposures of that candidate's household and in the given window, stamped as reconciled at the given
-- instant.
pub reconcile-Recovered :
    (candidates : List ResolvedConversion) (exposures : Dict (List Exposure)) (window : ℕ)
    (reconciled_at : Instant) (out : List AttributedConversion)
    → reconcile candidates exposures window reconciled_at ≡ ok out
    → All (Recovered exposures window reconciled_at candidates) out
unfolding reconcile
reconcile-Recovered candidates exposures window reconciled_at out h =
    groups-Found exposures window reconciled_at candidates
      (candidate_households_by_conversion candidates) (group_by_conversion [] candidates) out
      (group_by-Inside exposures window reconciled_at candidates [] candidates tt (self candidates))
      h
