-- ===== src/Attribute/Dedup/Laws.antt =====
-- What the removal of re-sends keeps.
use ctv_attribution_pipeline.Base.{
  ℕ, ◌+◌, ◌≡◌, refl, sym, ap, ◌∙◌, ◌↔◌, Bool, true, false, not, All, ◌&&◌, ◌||◌, List, [], ◌∷◌,
  ◌++◌, arith, if◌then◌else◌, any, length, inl, inr, Bool-cases,
}
use ctv_attribution_pipeline.Attribute.Dedup.{dedup_from, dedup_by_id}

module _ {ℓ κ} {M : Type ℓ} {K : Type κ} (same : K → K → Bool) (key : M → K) where
  abbrev pub has_key : K → List M → Bool
  has_key k rows = any (λ r. same k (key r)) rows

  -- no row has the key of a row before it
  abbrev pub FirstOnly : List M → Type 0
  FirstOnly [] = Unit
  FirstOnly (r ∷ rs) = (has_key (key r) rs ≡ false) × FirstOnly rs

  -- the rows whose key none before them has: what "keep the first row per key" means
  unfoldable pub firsts : List M → List M → List M
  firsts before [] = []
  firsts before (r ∷ rs) =
      if has_key (key r) before
      then firsts (before ++ r ∷ []) rs
      else r ∷ firsts (before ++ r ∷ []) rs

  length-dedup_from :
      (seen : List K) (rows : List M)
      → let (kept, n) = dedup_from same key seen rows in length kept + n ≡ length rows
  unfolding dedup_from
  length-dedup_from seen [] = omega arith
  length-dedup_from seen (r ∷ rows) =
      ground (arith, length-dedup_from seen rows, length-dedup_from (key r ∷ seen) rows)

  has_key-append : (k : K) (xs ys : List M) → has_key k (xs ++ ys) ≡ (has_key k xs || has_key k ys)
  has_key-append k [] ys = refl
  has_key-append k (x ∷ xs) ys = ground (arith, has_key-append k xs ys)

-- The keys are compared by an equality that decides.
module _ {ℓ κ} {M : Type ℓ} {K : Type κ} (same : K → K → Bool) (key : M → K)
    (same_iff : (a b : K) → (same a b ≡ true) ↔ (a ≡ b)) where
  has_key_of_same :
      (j k : K) (rows : List M)
      → same j k ≡ true
      → has_key same key k rows ≡ true
      → has_key same key j rows ≡ true
  has_key_of_same j k rows e h = rw ((same_iff j k).0 e) h

  abbrev SameSeen : List K → List M → Type κ
  SameSeen seen before = (k : K) → any (same k) seen ≡ has_key same key k before

  seen_hit :
      (seen : List K) (before : List M) (r : M)
      → SameSeen seen before
      → any (same (key r)) seen ≡ true
      → SameSeen seen (before ++ r ∷ [])
  seen_hit seen before r h hit k = ground (
    arith,
    h k,
    h (key r),
    has_key-append same key k before (r ∷ []),
    has_key_of_same k (key r) before,
  )

  seen_new :
      (seen : List K) (before : List M) (r : M)
      → SameSeen seen before
      → SameSeen (key r ∷ seen) (before ++ r ∷ [])
  seen_new seen before r h k = ground (arith, h k, has_key-append same key k before (r ∷ []))

  dedup_from-firsts :
      (seen : List K) (before rows : List M)
      → SameSeen seen before
      → (dedup_from same key seen rows).0 ≡ firsts same key before rows
  unfolding dedup_from firsts
  dedup_from-firsts seen before [] h = refl
  dedup_from-firsts seen before (r ∷ rows) h = elim (Bool-cases (any (same (key r)) seen)) [
    | inl hit ↦
        rw (hit, sym (h (key r)) ∙ hit)
          (dedup_from-firsts seen (before ++ r ∷ []) rows (seen_hit seen before r h hit))
    | inr new ↦
        rw (new, sym (h (key r)) ∙ new)
          (ap (◌∷◌ r)
            (dedup_from-firsts (key r ∷ seen) (before ++ r ∷ []) rows (seen_new seen before r h)))
  ]

  -- The rows kept are those whose key no earlier row has, in arrival order, and every other row is
  -- counted as suppressed.
  pub dedup_by_id-firsts :
      (rows : List M)
      → ((dedup_by_id same key rows).0 ≡ firsts same key [] rows)
        × (length (dedup_by_id same key rows).0 + (dedup_by_id same key rows).1 ≡ length rows)
  unfolding dedup_by_id
  dedup_by_id-firsts rows =
      (dedup_from-firsts [] [] rows (λ k. refl), length-dedup_from same key [] rows)

  has_key-firsts :
      (k : K) (before rows : List M)
      → has_key same key k (firsts same key before rows)
        ≡ (has_key same key k rows && not (has_key same key k before))
  unfolding firsts
  has_key-firsts k before [] = refl
  has_key-firsts k before (r ∷ rows) = ground (
    arith,
    has_key-firsts k (before ++ r ∷ []) rows,
    has_key-append same key k before (r ∷ []),
    has_key_of_same k (key r) before,
    same_sym k (key r),
    has_key_of_same (key r) k before,
  )
    where
      same_sym : (a b : K) → same a b ≡ true → same b a ≡ true
      same_sym a b e = (same_iff b a).1 (sym ((same_iff a b).0 e))

  pub firsts-FirstOnly : (before rows : List M) → FirstOnly same key (firsts same key before rows)
  unfolding firsts
  firsts-FirstOnly before [] = tt
  firsts-FirstOnly before (r ∷ rows) = elim (Bool-cases (has_key same key (key r) before)) [
    | inl hit ↦ rw hit (firsts-FirstOnly (before ++ r ∷ []) rows)
    | inr new ↦ rw new (
      ground (
        arith,
        has_key-firsts (key r) (before ++ r ∷ []) rows,
        has_key-append same key (key r) before (r ∷ []),
        (same_iff (key r) (key r)).1 refl,
      ),
      firsts-FirstOnly (before ++ r ∷ []) rows,
    )
  ]

  -- No two kept rows share a key, and no key of the input is lost or invented.
  pub dedup_by_id-keys :
      (rows : List M)
      → FirstOnly same key (dedup_by_id same key rows).0
        × ((k : K) → has_key same key k (dedup_by_id same key rows).0 ≡ has_key same key k rows)
  dedup_by_id-keys rows = (
    rw ((dedup_by_id-firsts rows).0) (firsts-FirstOnly [] rows),
    λ k. rw ((dedup_by_id-firsts rows).0) (ground (arith, has_key-firsts k [] rows)),
  )

  firsts_of_FirstOnly :
      (before rows : List M)
      → FirstOnly same key rows
      → All (λ r. has_key same key (key r) before ≡ false) rows
      → firsts same key before rows ≡ rows
  unfolding firsts
  firsts_of_FirstOnly before [] u n = refl
  firsts_of_FirstOnly before (r ∷ rows) u n = rw (n.0) (
      ap (◌∷◌ r)
        (firsts_of_FirstOnly (before ++ r ∷ []) rows u.1 (still_new before r rows u.0 n.1)))
    where
      still_new :
          (before : List M) (r : M) (rs : List M)
          → has_key same key (key r) rs ≡ false
          → All (λ x. has_key same key (key x) before ≡ false) rs
          → All (λ x. has_key same key (key x) (before ++ r ∷ []) ≡ false) rs
      still_new before r [] h n = tt
      still_new before r (x ∷ xs) h n = (
        ground (
          arith,
          has_key-append same key (key x) before (r ∷ []),
          λ (e : same (key x) (key r) ≡ true).
              (same_iff (key r) (key x)).1 (sym ((same_iff (key x) (key r)).0 e)),
          n.0,
          h,
        ),
        still_new before r xs (ground arith) n.1,
      )

  -- A second pass finds nothing to suppress.
  pub dedup_by_id_idem :
      (rows : List M)
      → dedup_by_id same key (dedup_by_id same key rows).0 ≡ ((dedup_by_id same key rows).0, 0)
  dedup_by_id_idem rows =
      let kept = (dedup_by_id same key rows).0 in
      let same_rows : (dedup_by_id same key kept).0 ≡ kept =
        (dedup_by_id-firsts kept).0
        ∙ firsts_of_FirstOnly [] kept (dedup_by_id-keys rows).0 (none_before kept) in
      pair_eq same_rows (ground (arith, (dedup_by_id-firsts kept).1, ap length same_rows))
    where
      none_before : (rs : List M) → All (λ r. has_key same key (key r) [] ≡ false) rs
      none_before [] = tt
      none_before (r ∷ rs) = (refl, none_before rs)

      pair_eq : {p : List M × ℕ} {q : List M} → p.0 ≡ q → p.1 ≡ 0 → p ≡ (q, 0)
      pair_eq e f = λ i. (e i, f i)
