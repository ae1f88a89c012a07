-- ===== src/Table/Sorted.antt =====
-- Views that show no key twice: what `final` gives, what a filter leaves of one, and one in another
-- order.
use ctv_attribution_pipeline.Base.{
  ℕ, ◌≡◌, ◌↔◌, Occurs, refl, sym, ap, ◌∙◌, ◌⊎◌, inl, inr, Bool, true, false, Option, none, some,
  List, [], ◌∷◌, arith, if◌then◌else◌, ltb, filter, Bool-cases,
}
use ctv_attribution_pipeline.Sort.Stable.{insert_by, sort_by}
use ctv_attribution_pipeline.Table.{upsert, final_from, final, find}
use ctv_attribution_pipeline.Table.Final.{find-upsert, Once}

module _ {R K : Type 0} (same : K → K → Bool) (key : R → K) (version : R → ℕ)
    (same_iff : (a b : K) → (same a b ≡ true) ↔ (a ≡ b)) where
  abbrev Single : List R → Type 0
  Single = Once same key version same_iff

  -- two keys that differ, from either side
  same_sym : (a b : K) → same a b ≡ false → same b a ≡ false
  same_sym a b h = elim (Bool-cases (same b a)) [
    | inl e ↦ absurd (cc (h, (same_iff a b).1 (sym ((same_iff b a).0 e))))
    | inr e ↦ e
  ]

  same_both : (k a b : K) → same k a ≡ true → same k b ≡ true → same a b ≡ true
  same_both k a b h i = (same_iff a b).1 (sym ((same_iff k a).0 h) ∙ (same_iff k b).0 i)

  abbrev pub kept : (R → Bool) → Option R → Option R
  kept keep none = none
  kept keep (some r) = if keep r then some r else none

  same_refl : (a : K) → same a a ≡ true
  same_refl a = (same_iff a a).1 refl

  pub upsert-Once : (r : R) (view : List R) → Single view → Single (upsert same key version r view)
  unfolding upsert find
  upsert-Once r [] h = (refl, tt)
  upsert-Once r (x ∷ view) h = elim (Bool-cases (same (key r) (key x))) [
    | inl e ↦ rw e (slot e (Bool-cases (ltb (version r) (version x))))
    | inr e ↦ rw e (
      find-upsert same key version same_iff (key x) r view
          ∙ ground (arith, same_sym (key r) (key x) e, h.0),
      upsert-Once r view h.1,
    )
  ]
    where
      slot :
          same (key r) (key x) ≡ true
          → (ltb (version r) (version x) ≡ true) ⊎ (ltb (version r) (version x) ≡ false)
          → Single ((if ltb (version r) (version x) then x else r) ∷ view)
      slot e (inl b) = rw b h
      slot e (inr b) =
          rw b (ap (λ a. find same key a view) ((same_iff (key r) (key x)).0 e) ∙ h.0, h.1)

  final_from-Once :
      (view log : List R) → Single view → Single (final_from same key version view log)
  unfolding final_from
  final_from-Once view [] h = h
  final_from-Once view (r ∷ log) h =
      final_from-Once (upsert same key version r view) log (upsert-Once r view h)

  -- `final` shows no key twice
  pub final-Once : (log : List R) → Single (final same key version log)
  unfolding final
  final-Once log = final_from-Once [] log tt

  find-none : (k : K) → find same key k [] ≡ none
  unfolding find
  find-none k = refl

  find-cons_none :
      (k : K) (y : R) (view : List R)
      → find same key k (y ∷ view) ≡ none
      → (same k (key y) ≡ false) × (find same key k view ≡ none)
  unfolding find
  find-cons_none k y view h = elim (Bool-cases (same k (key y))) [
    | inl q ↦ absurd (cc (rw q at h))
    | inr q ↦ (q, rw q at h)
  ]

  find-filter-absent :
      (keep : R → Bool) (k : K) (view : List R)
      → find same key k view ≡ none
      → find same key k (filter keep view) ≡ none
  unfolding find
  find-filter-absent keep k [] h = refl
  find-filter-absent keep k (x ∷ view) h = ground (arith, find-filter-absent keep k view)

  -- the row of a key in a filtered view
  pub find-filter :
      (keep : R → Bool) (k : K) (view : List R)
      → Single view
      → find same key k (filter keep view) ≡ kept keep (find same key k view)
  unfolding find
  find-filter keep k [] h = refl
  find-filter keep k (x ∷ view) h = elim (Bool-cases (same k (key x))) [
    | inl e ↦ ground (
      arith,
      e,
      find-filter-absent keep k view
          (ap (λ a. find same key a view) ((same_iff k (key x)).0 e) ∙ h.0),
    )
    | inr e ↦ ground (arith, e, find-filter keep k view h.1)
  ]

  pub filter-Once : (keep : R → Bool) (view : List R) → Single view → Single (filter keep view)
  filter-Once keep [] h = tt
  filter-Once keep (x ∷ view) h = elim (Bool-cases (keep x)) [
    | inl e ↦ rw e (find-filter-absent keep (key x) view h.0, filter-Once keep view h.1)
    | inr e ↦ rw e (filter-Once keep view h.1)
  ]

  -- each row of the view is that of its key
  pub find-Occurs :
      (d : R) (view : List R) → Single view → Occurs d view → find same key (key d) view ≡ some d
  unfolding find
  find-Occurs d [] h o = absurd o
  find-Occurs d (x ∷ view) h (inl e) =
      rw (ap (λ a. same (key a) (key x)) e ∙ same_refl (key x)) (ap some (sym e))
  find-Occurs d (x ∷ view) h (inr o) = elim (Bool-cases (same (key d) (key x))) [
    | inl e ↦ absurd (
        cc (
          find-Occurs d view h.1 o,
          ap (λ a. find same key a view) ((same_iff (key d) (key x)).0 e),
          h.0,
        ))
    | inr e ↦ rw e (find-Occurs d view h.1 o)
  ]

  module _ (le : R → R → Bool) where
    find-insert_by :
        (k : K) (x : R) (view : List R)
        → find same key (key x) view ≡ none
        → find same key k (insert_by le x view) ≡ find same key k (x ∷ view)
    unfolding insert_by find
    find-insert_by k x [] h = refl
    find-insert_by k x (y ∷ view) h = elim (Bool-cases (le x y)) [
      | inl e ↦ rw e refl
      | inr e ↦ rw e (
          let (q, rest) = find-cons_none (key x) y view h in
          ground (arith, q, find-insert_by k x view rest, same_both k (key x) (key y)))
    ]

    insert_by-Once :
        (x : R) (view : List R)
        → find same key (key x) view ≡ none
        → Single view
        → Single (insert_by le x view)
    unfolding insert_by find
    insert_by-Once x [] h v = (find-none (key x), tt)
    insert_by-Once x (y ∷ view) h v = elim (Bool-cases (le x y)) [
      | inl e ↦ rw e (h, v)
      | inr e ↦ rw e (
          let (q, rest) = find-cons_none (key x) y view h in
          (
            find-insert_by (key y) x view rest ∙ rw (same_sym (key x) (key y) q) v.0,
            insert_by-Once x view rest v.1,
          ))
    ]

    -- a view in another order shows the same rows
    sort_by-view :
        (view : List R)
        → Single view
        → ((k : K) → find same key k (sort_by le view) ≡ find same key k view)
          × Single (sort_by le view)
    unfolding sort_by find
    sort_by-view [] h = (λ k. refl, tt)
    sort_by-view (x ∷ view) h =
        let (found, once) = sort_by-view view h.1 in
        let absent = found (key x) ∙ h.0 in
        (
          λ k.
              find-insert_by k x (sort_by le view) absent
              ∙ ap (λ o. if same k (key x) then some x else o) (found k),
          insert_by-Once x (sort_by le view) absent once,
        )

    pub find-sort_by :
        (k : K) (view : List R)
        → Single view
        → find same key k (sort_by le view) ≡ find same key k view
    find-sort_by k view h = (sort_by-view view h).0 k

    pub sort_by-Once : (view : List R) → Single view → Single (sort_by le view)
    sort_by-Once view h = (sort_by-view view h).1
