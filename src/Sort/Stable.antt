-- ===== src/Sort/Stable.antt =====
-- `sorted(xs, key=…)`: a stable sort, and what a sort by distinct keys does not depend on.
use mathlib.Core.List.Permᴰ
use mathlib.Core.List.{Permᴰ}
use ctv_attribution_pipeline.Base.{
  ℕ, ◌≡◌, ◌≢◌, refl, ap, ◌∙◌, inl, inr, Bool, true, false, List, [], ◌∷◌, arith, All, mem, map, leb,
  if◌then◌else◌, Bool-cases, Distinct,
}

module _ {ℓ} {A : Type ℓ} (le : A → A → Bool) where
  -- an item goes before the first that is not below it, so equal keys keep their order
  unfoldable pub insert_by : A → List A → List A
  insert_by x [] = x ∷ []
  insert_by x (y ∷ ys) = if le x y then x ∷ y ∷ ys else y ∷ insert_by x ys

  unfoldable pub sort_by : List A → List A
  unfolding insert_by
  sort_by [] = []
  sort_by (x ∷ xs) = insert_by x (sort_by xs)

  abbrev pub Sorted : List A → Type 0
  Sorted [] = Unit
  Sorted (x ∷ xs) = All (λ y. le x y ≡ true) xs × Sorted xs

  insert_by-perm : (x : A) (ys : List A) → Permᴰ (insert_by x ys) (x ∷ ys)
  unfolding insert_by
  insert_by-perm x [] = Permᴰ.refl (x ∷ [])
  insert_by-perm x (y ∷ ys) = elim (Bool-cases (le x y)) [
    | inl e ↦ rw e (Permᴰ.refl (x ∷ y ∷ ys))
    | inr e ↦ rw e (Permᴰ.trans (Permᴰ.cons refl (insert_by-perm x ys)) (Permᴰ.swap refl refl))
  ]

  pub sort_by-perm : (xs : List A) → Permᴰ (sort_by xs) xs
  unfolding sort_by
  sort_by-perm [] = Permᴰ.nil
  sort_by-perm (x ∷ xs) =
      Permᴰ.trans (insert_by-perm x (sort_by xs)) (Permᴰ.cons refl (sort_by-perm xs))

  All-insert_by {κ} :
      (P : A → Type κ) (x : A) (ys : List A) → P x → All P ys → All P (insert_by x ys)
  unfolding insert_by
  All-insert_by P x [] p a = (p, tt)
  All-insert_by P x (y ∷ ys) p a = elim (Bool-cases (le x y)) [
    | inl e ↦ rw e (p, a)
    | inr e ↦ rw e (a.0, All-insert_by P x ys p a.1)
  ]

  pub All-sort_by {κ} : (P : A → Type κ) (xs : List A) → All P xs → All P (sort_by xs)
  unfolding sort_by
  All-sort_by P [] a = tt
  All-sort_by P (x ∷ xs) a = All-insert_by P x (sort_by xs) a.0 (All-sort_by P xs a.1)

-- A key order that is total and transitive sorts.
module _ {ℓ} {A : Type ℓ} (le : A → A → Bool) (total : (a b : A) → le a b ≡ false → le b a ≡ true)
    (trans_le : (a b c : A) → le a b ≡ true → le b c ≡ true → le a c ≡ true) where
  All-le_trans :
      (x y : A) (ys : List A)
      → le x y ≡ true
      → All (λ z. le y z ≡ true) ys
      → All (λ z. le x z ≡ true) ys
  All-le_trans x y [] h a = tt
  All-le_trans x y (z ∷ zs) h a = (trans_le x y z h a.0, All-le_trans x y zs h a.1)

  insert_by-Sorted : (x : A) (ys : List A) → Sorted le ys → Sorted le (insert_by le x ys)
  unfolding insert_by
  insert_by-Sorted x [] s = (tt, tt)
  insert_by-Sorted x (y ∷ ys) s = elim (Bool-cases (le x y)) [
    | inl e ↦ rw e ((e, All-le_trans x y ys e s.0), s)
    | inr e ↦
        rw e
          (All-insert_by le (λ z. le y z ≡ true) x ys (total x y e) s.0, insert_by-Sorted x ys s.1)
  ]

  pub sort_by-Sorted : (xs : List A) → Sorted le (sort_by le xs)
  unfolding sort_by
  sort_by-Sorted [] = tt
  sort_by-Sorted (x ∷ xs) = insert_by-Sorted x (sort_by le xs) (sort_by-Sorted xs)

mem-perm : (z : ℕ) {xs ys : List ℕ} → Permᴰ xs ys → mem z xs ≡ mem z ys
mem-perm z Permᴰ.nil = refl
mem-perm z (Permᴰ.cons e d) = ground (arith, e, mem-perm z d)
mem-perm z (Permᴰ.swap e f) = ground (arith, e, f)
mem-perm z (Permᴰ.trans p q) = mem-perm z p ∙ mem-perm z q

-- A sort by one identifier.
module _ {ℓ} {A : Type ℓ} (key : A → ℕ) where
  abbrev pub by_key : A → A → Bool
  by_key a b = leb (key a) (key b)

  insert_comm :
      (a b : A) (l : List A)
      → key a ≢ key b
      → insert_by by_key a (insert_by by_key b l) ≡ insert_by by_key b (insert_by by_key a l)
  unfolding insert_by
  insert_comm a b [] h = ground arith
  insert_comm a b (x ∷ l) h = ground (arith, insert_comm a b l h)

  pub map-perm : {xs ys : List A} → Permᴰ xs ys → Permᴰ (map key xs) (map key ys)
  map-perm Permᴰ.nil = Permᴰ.nil
  map-perm (Permᴰ.cons e d) = Permᴰ.cons (ap key e) (map-perm d)
  map-perm (Permᴰ.swap e f) = Permᴰ.swap (ap key e) (ap key f)
  map-perm (Permᴰ.trans p q) = Permᴰ.trans (map-perm p) (map-perm q)

Distinct-perm : {xs ys : List ℕ} → Permᴰ xs ys → Distinct xs → Distinct ys
Distinct-perm Permᴰ.nil h = tt
Distinct-perm (Permᴰ.cons {a = a} e d) h = (cc (e, mem-perm a d, h.0), Distinct-perm d h.1)
Distinct-perm (Permᴰ.swap e f) h = ground (arith, e, f)
Distinct-perm (Permᴰ.trans p q) h = Distinct-perm q (Distinct-perm p h)

module _ {ℓ} {A : Type ℓ} (key : A → ℕ) where
  -- Lists that hold the same rows under distinct keys sort to one list.
  pub sort_by-perm_eq :
      {xs ys : List A}
      → Permᴰ xs ys
      → Distinct (map key xs)
      → sort_by (by_key key) xs ≡ sort_by (by_key key) ys
  unfolding sort_by
  sort_by-perm_eq Permᴰ.nil h = refl
  sort_by-perm_eq (Permᴰ.cons {a = a} e d) h = cc (e, sort_by-perm_eq d h.1)
  sort_by-perm_eq (Permᴰ.swap {a = a} {b = b} {l = l} e f) h =
      rw (← e, ← f) (insert_comm key a b (sort_by (by_key key) l) (λ p. ground arith))
  sort_by-perm_eq (Permᴰ.trans p q) h =
      sort_by-perm_eq p h ∙ sort_by-perm_eq q (Distinct-perm (map-perm key p) h)
