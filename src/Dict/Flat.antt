-- ===== src/Dict/Flat.antt =====
-- A dict of lists as one list, and what `setdefault(k, []).append(v)` does to it.
use mathlib.Core.Path.{subst}
use mathlib.Core.List.Permᴰ
use mathlib.Core.List.{Permᴰ}
use ctv_attribution_pipeline.Base.{
  ℕ, ◌≡◌, refl, ◌∙◌, inl, inr, false, ◌||◌, List, [], ◌∷◌, ◌++◌, append_assoc, ◌==◌, ==_iff, All,
  All-append, mem, Distinct, Bool-cases, arith,
}
use ctv_attribution_pipeline.Dict.{Dict, lookup, get_or, append_at, keys}

append_swap : {A : Type 0} (xs ys zs : List A) → Permᴰ (xs ++ (ys ++ zs)) (ys ++ (xs ++ zs))
append_swap [] ys zs = Permᴰ.refl (ys ++ zs)
append_swap (x ∷ xs) ys zs =
    Permᴰ.trans (Permᴰ.cons refl (append_swap xs ys zs)) (Permᴰ.symm (Permᴰ.middle x ys (xs ++ zs)))

-- `f` of each list, one after the other
module _ {A B : Type 0} (f : List A → List B) where
  abbrev pub flat : Dict (List A) → List B
  flat [] = []
  flat (e ∷ d) = f e.1 ++ flat d

module _ {A B : Type 0} (f : List A → List B)
    (additive : (xs : List A) (v : A) → f (xs ++ v ∷ []) ≡ f xs ++ f (v ∷ [])) where
  pub flat-append_at :
      (k : ℕ) (v : A) (d : Dict (List A))
      → Permᴰ (flat f (append_at k v d)) (f (v ∷ []) ++ flat f d)
  unfolding append_at
  flat-append_at k v [] = Permᴰ.refl (f (v ∷ []) ++ [])
  flat-append_at k v (e ∷ d) = elim (Bool-cases (k == e.0)) [
    | inl h ↦
        rw (h, additive e.1 v, append_assoc (f e.1) (f (v ∷ [])) (flat f d))
          (append_swap (f e.1) (f (v ∷ [])) (flat f d))
    | inr h ↦ rw h (
        Permᴰ.trans (Permᴰ.append_left (f e.1) (flat-append_at k v d))
          (append_swap (f e.1) (f (v ∷ [])) (flat f d)))
  ]

-- every list of the dict holds what belongs to its key
abbrev pub Filed : {A : Type 0} → (ℕ → A → Type 0) → Dict (List A) → Type 0
Filed P d = All (λ e. All (P e.0) e.1) d

pub append_at-Filed :
    {A : Type 0} (P : ℕ → A → Type 0) (k : ℕ) (v : A) (d : Dict (List A))
    → P k v
    → Filed P d
    → Filed P (append_at k v d)
unfolding append_at
append_at-Filed P k v [] p h = ((p, tt), tt)
append_at-Filed P k v (e ∷ d) p h = elim (Bool-cases (k == e.0)) [
  | inl q ↦
      rw q
        (All-append (P e.0) e.1 (v ∷ []) h.0 (subst (λ j. P j v) ((==_iff k e.0).0 q) p, tt), h.1)
  | inr q ↦ rw q (h.0, append_at-Filed P k v d p h.1)
]

pub mem-keys-append_at :
    {A : Type 0} (j k : ℕ) (v : A) (d : Dict (List A))
    → mem j (keys (append_at k v d)) ≡ (j == k || mem j (keys d))
unfolding append_at
mem-keys-append_at j k v [] = refl
mem-keys-append_at j k v (e ∷ d) = ground (arith, mem-keys-append_at j k v d)

-- a key has one slot
pub append_at-Distinct :
    {A : Type 0} (k : ℕ) (v : A) (d : Dict (List A))
    → Distinct (keys d)
    → Distinct (keys (append_at k v d))
unfolding append_at
append_at-Distinct k v [] h = (refl, tt)
append_at-Distinct k v (e ∷ d) h = elim (Bool-cases (k == e.0)) [
  | inl q ↦ rw q h
  | inr q ↦
      rw q (mem-keys-append_at e.0 k v d ∙ ground (arith, q, h.0), append_at-Distinct k v d h.1)
]

other_keys :
    {A : Type 0} (k : ℕ) (d : Dict (List A))
    → mem k (keys d) ≡ false
    → All (λ e. (e.0 == k) ≡ false) d
other_keys k [] h = tt
other_keys k (e ∷ d) h = (ground (arith, h), other_keys k d (ground (arith, h)))

entries-further :
    {A : Type 0} (x : ℕ × List A) (d l : Dict (List A))
    → All (λ e. (e.0 == x.0) ≡ false) l
    → All (λ e. get_or [] e.0 d ≡ e.1) l
    → All (λ e. get_or [] e.0 (x ∷ d) ≡ e.1) l
unfolding get_or lookup
entries-further x d [] o h = tt
entries-further x d (e ∷ l) o h = (ground (arith, o.0, h.0), entries-further x d l o.1 h.1)

own : {A : Type 0} (e : ℕ × List A) (d : Dict (List A)) → get_or [] e.0 (e ∷ d) ≡ e.1
unfolding get_or lookup
own e d = ground (arith, (==_iff e.0 e.0).1 refl)

-- the list of an entry is what is filed under its key
pub get_or-entry :
    {A : Type 0} (d : Dict (List A)) → Distinct (keys d) → All (λ e. get_or [] e.0 d ≡ e.1) d
get_or-entry [] h = tt
get_or-entry (e ∷ d) h =
    (own e d, entries-further e d d (other_keys e.0 d h.0) (get_or-entry d h.1))
