-- ===== src/Table/Shown.antt =====
-- Which rows `final` shows: rows that were inserted, and one for each key that was.
use ctv_attribution_pipeline.Base.{
  ℕ, ◌≡◌, ◌↔◌, Occurs, refl, sym, ap, ◌∙◌, ◌⊎◌, inl, inr, Bool, true, Option, none, some, List, [],
  ◌∷◌, ltb, if◌then◌else◌, Bool-cases,
}
use ctv_attribution_pipeline.Table.{upsert, final_from, final, find}
use ctv_attribution_pipeline.Table.Final.{newest, newest_in, newest_in-rises, find-final}

some-eq : {A : Type 0} {a b : A} → Path (Option A) (some a) (some b) → a ≡ b
some-eq h = cc

module _ {R K : Type 0} (same : K → K → Bool) (key : R → K) (version : R → ℕ)
    (same_iff : (a b : K) → (same a b ≡ true) ↔ (a ≡ b)) where
  -- a row that was inserted leaves a row in the slot of its key
  newest_in-some :
      (r : R) (o : Option R) (log : List R)
      → Occurs r log
      → (d : R) × (newest_in same key version same_iff (key r) o log ≡ some d)
  unfolding newest_in
  newest_in-some r o [] h = absurd h
  newest_in-some r o (x ∷ log) (inl e) =
      let hit = ap (λ a. same (key r) (key a)) (sym e) ∙ (same_iff (key r) (key r)).1 refl in
      let (d, f, _) = newest_in-rises same key version same_iff (key r) (newest version o x) log in
      (
        d,
        ap
              (λ b.
                newest_in same key version same_iff (key r)
                  (if b then some (newest version o x) else o) log)
              hit
            ∙ f,
      )
  newest_in-some r o (x ∷ log) (inr h) =
      newest_in-some r (if same (key r) (key x) then some (newest version o x) else o) log h

  pub find-final-some :
      (r : R) (log : List R)
      → Occurs r log
      → (d : R) × (find same key (key r) (final same key version log) ≡ some d)
  find-final-some r log h =
      let (d, f) = newest_in-some r none log h in
      (d, find-final same key version same_iff (key r) log ∙ f)

  -- the row that is found has the key and stands in the view
  pub find-found :
      (k : K) (d : R) (view : List R) → find same key k view ≡ some d → Occurs d view × (key d ≡ k)
  unfolding find
  find-found k d [] h = absurd (cc h)
  find-found k d (x ∷ view) h = elim (Bool-cases (same k (key x))) [
    | inl e ↦
        let q = some-eq (rw e at h) in
        (inl (sym q), ap key (sym q) ∙ sym ((same_iff k (key x)).0 e))
    | inr e ↦ let (o, f) = find-found k d view (rw e at h) in (inr o, f)
  ]

  upsert-Occurs :
      (r x : R) (view : List R)
      → Occurs x (upsert same key version r view)
      → (x ≡ r) ⊎ Occurs x view
  unfolding upsert
  upsert-Occurs r x [] h = h
  upsert-Occurs r x (y ∷ view) h = elim (Bool-cases (same (key r) (key y))) [
    | inl e ↦ elim (Bool-cases (ltb (version r) (version y))) [
      | inl b ↦ inr (rw (e, b) at h)
      | inr b ↦ elim (rw (e, b) at h) [ inl q ↦ inl q | inr o ↦ inr (inr o) ]
    ]
    | inr e ↦ later (upsert-Occurs r x view) (rw e at h)
  ]
    where
      later :
          (Occurs x (upsert same key version r view) → (x ≡ r) ⊎ Occurs x view)
          → Occurs x (y ∷ upsert same key version r view)
          → (x ≡ r) ⊎ Occurs x (y ∷ view)
      later back (inl q) = inr (inl q)
      later back (inr o) = elim (back o) [ inl q ↦ inl q | inr o' ↦ inr (inr o') ]

  -- what `final` shows was inserted
  final_from-Occurs :
      (x : R) (view log : List R)
      → Occurs x (final_from same key version view log)
      → Occurs x view ⊎ Occurs x log
  unfolding final_from
  final_from-Occurs x view [] h = inl h
  final_from-Occurs x view (r ∷ log) h =
      elim (final_from-Occurs x (upsert same key version r view) log h) [
        | inr o ↦ inr (inr o)
        | inl o ↦ elim (upsert-Occurs r x view o) [ inl e ↦ inr (inl e) | inr o' ↦ inl o' ]
      ]

  pub final-Occurs : (x : R) (log : List R) → Occurs x (final same key version log) → Occurs x log
  unfolding final
  final-Occurs x log h = elim (final_from-Occurs x [] log h) [ inl o ↦ absurd o | inr o ↦ o ]
