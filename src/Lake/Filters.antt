-- ===== src/Lake/Filters.antt =====
-- Filters after a stable sort and after dropping copies.
use ctv_attribution_pipeline.Base.{
  ℕ, ◌≡◌, refl, sym, ap, ◌∙◌, ◌⊎◌, inl, inr, Bool, true, false, ◌&&◌, List, [], ◌∷◌, arith,
  if◌then◌else◌, filter, any, All, Bool-cases,
}
use ctv_attribution_pipeline.Sort.Stable.{insert_by, sort_by, by_key, Sorted, sort_by-Sorted}
use ctv_attribution_pipeline.Attribute.Dedup.{dedup_from}

pub filter-both :
    {A : Type 0} (p q : A → Bool) (xs : List A)
    → filter p (filter q xs) ≡ filter (λ x. p x && q x) xs
filter-both p q [] = refl
filter-both p q (x ∷ xs) = elim (Bool-cases (q x)) [
  | inl e ↦ elim (Bool-cases (p x)) [
    | inl f ↦ rw (e, f) (ap (λ l. x ∷ l) (filter-both p q xs))
    | inr f ↦ rw (e, f) (filter-both p q xs)
  ]
  | inr e ↦ elim (Bool-cases (p x)) [
    | inl f ↦ rw (e, f) (filter-both p q xs)
    | inr f ↦ rw (e, f) (filter-both p q xs)
  ]
]

pub filter-eq :
    {A : Type 0} (p q : A → Bool)
    → ((x : A) → p x ≡ q x)
    → (xs : List A) → filter p xs ≡ filter q xs
filter-eq p q h [] = refl
filter-eq p q h (x ∷ xs) = rw (h x) (ap (λ l. if q x then x ∷ l else l) (filter-eq p q h xs))

-- a filter after a stable sort, and before it
module _ {A : Type 0} (key : A → ℕ) (p : A → Bool) where
  head_insert :
      (x : A) (ys : List A)
      → All (λ z. by_key key x z ≡ true) ys
      → insert_by (by_key key) x (filter p ys) ≡ x ∷ filter p ys
  unfolding insert_by
  head_insert x [] a = refl
  head_insert x (y ∷ ys) a = ground (arith, a.0, head_insert x ys a.1)

  All-below :
      (x y : A) (ys : List A)
      → by_key key x y ≡ true
      → All (λ z. by_key key y z ≡ true) ys
      → All (λ z. by_key key x z ≡ true) ys
  All-below x y [] h a = tt
  All-below x y (z ∷ ys) h a = (ground (arith, h, a.0), All-below x y ys h a.1)

  filter-insert_by :
      (x : A) (ys : List A)
      → Sorted (by_key key) ys
      → filter p (insert_by (by_key key) x ys)
        ≡ (if p x then insert_by (by_key key) x (filter p ys) else filter p ys)
  unfolding insert_by
  filter-insert_by x [] s = ground arith
  filter-insert_by x (y ∷ ys) s = elim (Bool-cases (by_key key x y)) [
    | inr e ↦ rw e (ground (arith, e, filter-insert_by x ys s.1))
    | inl e ↦ rw e (before_all (head_insert x (y ∷ ys) (e, All-below x y ys e s.0)))
  ]
    where
      before_all :
          insert_by (by_key key) x (filter p (y ∷ ys)) ≡ x ∷ filter p (y ∷ ys)
          → filter p (x ∷ y ∷ ys)
            ≡ (if p x then insert_by (by_key key) x (filter p (y ∷ ys)) else filter p (y ∷ ys))
      before_all h = elim (Bool-cases (p x)) [ inl q ↦ rw q (sym h) | inr q ↦ rw q refl ]

  pub filter-sort_by :
      (xs : List A) → filter p (sort_by (by_key key) xs) ≡ sort_by (by_key key) (filter p xs)
  unfolding sort_by
  filter-sort_by [] = refl
  filter-sort_by (x ∷ xs) =
      filter-insert_by x (sort_by (by_key key) xs) (
        sort_by-Sorted (by_key key) (λ a b h. ground (arith, h)) (λ a b c h k. ground (arith, h, k))
          xs)
      ∙ placed (Bool-cases (p x)) (filter-sort_by xs)
    where
      placed :
          (p x ≡ true) ⊎ (p x ≡ false)
          → filter p (sort_by (by_key key) xs) ≡ sort_by (by_key key) (filter p xs)
          → (if p x
              then insert_by (by_key key) x (filter p (sort_by (by_key key) xs))
              else filter p (sort_by (by_key key) xs))
            ≡ sort_by (by_key key) (filter p (x ∷ xs))
      placed (inl q) h = rw q (ap (insert_by (by_key key) x) h)
      placed (inr q) h = rw q h

-- a filter after dropping copies, and before it
module _ {A : Type 0} (same : A → A → Bool) (p : A → Bool)
    (respects : (a b : A) → same a b ≡ true → p a ≡ p b) where
  abbrev self : A → A
  self a = a

  any-filter :
      (a : A) (seen : List A) → p a ≡ true → any (same a) (filter p seen) ≡ any (same a) seen
  any-filter a [] h = refl
  any-filter a (b ∷ seen) h = ground (arith, any-filter a seen h, respects a b, h)

  pub filter-dedup_from :
      (seen rows : List A)
      → filter p (dedup_from same self seen rows).0
        ≡ (dedup_from same self (filter p seen) (filter p rows)).0
  unfolding dedup_from
  filter-dedup_from seen [] = refl
  filter-dedup_from seen (row ∷ rows) =
      by_row (Bool-cases (any (same row) seen)) (Bool-cases (p row)) (filter-dedup_from seen rows)
        (filter-dedup_from (row ∷ seen) rows)
    where
      by_row :
          (any (same row) seen ≡ true) ⊎ (any (same row) seen ≡ false)
          → (p row ≡ true) ⊎ (p row ≡ false)
          → filter p (dedup_from same self seen rows).0
            ≡ (dedup_from same self (filter p seen) (filter p rows)).0
          → filter p (dedup_from same self (row ∷ seen) rows).0
            ≡ (dedup_from same self (filter p (row ∷ seen)) (filter p rows)).0
          → filter p (dedup_from same self seen (row ∷ rows)).0
            ≡ (dedup_from same self (filter p seen) (filter p (row ∷ rows))).0
      by_row (inl e) (inl q) h k = rw (e, q) (rw (any-filter row seen q ∙ e) h)
      by_row (inl e) (inr q) h k = rw (e, q) h
      by_row (inr e) (inl q) h k =
          rw (e, q) (rw (any-filter row seen q ∙ e) (ap (λ l. row ∷ l) (rw q at k)))
      by_row (inr e) (inr q) h k = rw (e, q) (rw q at k)

pub any-of_filter : {A : Type 0} (p : A → Bool) (xs : List A) → filter p xs ≡ [] → any p xs ≡ false
any-of_filter p [] h = refl
any-of_filter p (x ∷ xs) h = elim (Bool-cases (p x)) [
  | inl e ↦ absurd (cc (rw e at h))
  | inr e ↦ rw e (any-of_filter p xs (rw e at h))
]
