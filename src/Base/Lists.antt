-- ===== src/Base/Lists.antt =====
-- Lists over the native numbers: lengths, Boolean filters and membership, and predicates on all
-- items by recursion.
use ctv_attribution_pipeline.Base.Tests.{◌==◌, if◌then◌else◌, Bool-cases}
use Prim.Native.Nat.{ℕ, suc, ◌+◌, ◌≤◌, max}
use mathlib.Core.Path.{◌≡◌, refl, sym, ap, ◌∙◌, subst}
use mathlib.Core.Logic.{◌⊎◌, inl, inr}
use mathlib.Core.Bool.{Bool, true, false, ◌||◌}
use mathlib.Core.List.{List, [], ◌∷◌, ◌++◌, map}
use native.Mathlib.Omega.{arith}

module _ {ℓ} {A : Type ℓ} where
  abbrev pub length : List A → ℕ
  length [] = 0
  length (x ∷ xs) = suc (length xs)

  -- `[x for x in xs if p(x)]`
  abbrev pub filter : (A → Bool) → List A → List A
  filter p [] = []
  filter p (x ∷ xs) = if p x then x ∷ filter p xs else filter p xs

  abbrev pub any : (A → Bool) → List A → Bool
  any p [] = false
  any p (x ∷ xs) = p x || any p xs

  pub length-append : (xs ys : List A) → length (xs ++ ys) ≡ length xs + length ys
  length-append [] ys = omega arith
  length-append (x ∷ xs) ys = omega (arith, length-append xs ys)

  pub length-filter-le : (p : A → Bool) (xs : List A) → length (filter p xs) ≤ length xs
  length-filter-le p [] = omega arith
  length-filter-le p (x ∷ xs) = ground (arith, length-filter-le p xs)

  pub filter-append :
      (p : A → Bool) (xs ys : List A) → filter p (xs ++ ys) ≡ filter p xs ++ filter p ys
  filter-append p [] ys = refl
  filter-append p (x ∷ xs) ys = ground (arith, filter-append p xs ys)

-- Every item of a list has a property; the tactics read and build it as a tuple.
abbrev pub All {ℓ κ} : {A : Type ℓ} → (A → Type κ) → List A → Type κ
All P [] = Unit
All P (x ∷ xs) = P x × All P xs

module _ {ℓ κ} {A : Type ℓ} (P : A → Type κ) where
  pub All-append : (xs ys : List A) → All P xs → All P ys → All P (xs ++ ys)
  All-append [] ys hx hy = hy
  All-append (x ∷ xs) ys hx hy = (hx.0, All-append xs ys hx.1 hy)

  pub All-append_left : (xs ys : List A) → All P (xs ++ ys) → All P xs
  All-append_left [] ys h = tt
  All-append_left (x ∷ xs) ys h = (h.0, All-append_left xs ys h.1)

  pub All-append_right : (xs ys : List A) → All P (xs ++ ys) → All P ys
  All-append_right [] ys h = h
  All-append_right (x ∷ xs) ys h = All-append_right xs ys h.1

  pub All-filter : (p : A → Bool) (xs : List A) → All P xs → All P (filter p xs)
  All-filter p [] h = tt
  All-filter p (x ∷ xs) h = elim (Bool-cases (p x)) [
    | inl e ↦ rw e (h.0, All-filter p xs h.1)
    | inr e ↦ rw e (All-filter p xs h.1)
  ]

module _ {ℓ κ ι} {A : Type ℓ} (P : A → Type κ) (Q : A → Type ι) where
  pub All-map : ((a : A) → P a → Q a) → (xs : List A) → All P xs → All Q xs
  All-map f [] h = tt
  All-map f (x ∷ xs) h = (f x h.0, All-map f xs h.1)

-- `x in xs`, for a list or a set of identifiers.
abbrev pub mem : ℕ → List ℕ → Bool
mem x [] = false
mem x (y ∷ ys) = x == y || mem x ys

pub mem-append : (x : ℕ) (ys zs : List ℕ) → mem x (ys ++ zs) ≡ (mem x ys || mem x zs)
mem-append x [] zs = refl
mem-append x (y ∷ ys) zs = ground (arith, mem-append x ys zs)

-- No identifier twice.
abbrev pub Distinct : List ℕ → Type 0
Distinct [] = Unit
Distinct (x ∷ xs) = (mem x xs ≡ false) × Distinct xs

abbrev pub sum : List ℕ → ℕ
sum [] = 0
sum (x ∷ xs) = x + sum xs

-- `max(xs, default=0)`
abbrev pub maximum : List ℕ → ℕ
maximum [] = 0
maximum (x ∷ xs) = max x (maximum xs)

-- an item of a list
abbrev pub Occurs : {A : Type 0} → A → List A → Type 0
Occurs a [] = ⊥
Occurs a (x ∷ xs) = (a ≡ x) ⊎ Occurs a xs

pub All-Occurs : {A : Type 0} (P : A → Type 0) (a : A) (xs : List A) → All P xs → Occurs a xs → P a
All-Occurs P a [] h o = absurd o
All-Occurs P a (x ∷ xs) h (inl e) = subst P (sym e) h.0
All-Occurs P a (x ∷ xs) h (inr o) = All-Occurs P a xs h.1 o

pub Occurs-filter :
    {A : Type 0} (p : A → Bool) (a : A) (xs : List A)
    → Occurs a (filter p xs)
    → Occurs a xs × (p a ≡ true)
Occurs-filter p a [] o = absurd o
Occurs-filter p a (x ∷ xs) o = elim (Bool-cases (p x)) [
  | inr e ↦ let (rest, h) = Occurs-filter p a xs (rw e at o) in (inr rest, h)
  | inl e ↦ kept (λ o'. Occurs-filter p a xs o') (rw e at o) e
]
  where
    kept :
        (Occurs a (filter p xs) → Occurs a xs × (p a ≡ true))
        → Occurs a (x ∷ filter p xs)
        → p x ≡ true
        → Occurs a (x ∷ xs) × (p a ≡ true)
    kept back (inl q) e = (inl q, ap p q ∙ e)
    kept back (inr o') e = let (rest, h) = back o' in (inr rest, h)

pub filter-none :
    {A : Type 0} (p : A → Bool) (xs : List A)
    → ((a : A) → Occurs a xs → p a ≡ false)
    → filter p xs ≡ []
filter-none p [] h = refl
filter-none p (x ∷ xs) h = rw (h x (inl refl)) (filter-none p xs (λ a o. h a (inr o)))

pub Occurs-append_right : {A : Type 0} (x : A) (xs ys : List A) → Occurs x ys → Occurs x (xs ++ ys)
Occurs-append_right x [] ys h = h
Occurs-append_right x (y ∷ xs) ys h = inr (Occurs-append_right x xs ys h)

pub Occurs-append_left : {A : Type 0} (x : A) (xs ys : List A) → Occurs x xs → Occurs x (xs ++ ys)
Occurs-append_left x [] ys h = absurd h
Occurs-append_left x (y ∷ xs) ys (inl e) = inl e
Occurs-append_left x (y ∷ xs) ys (inr h) = inr (Occurs-append_left x xs ys h)

pub Occurs-append :
    {A : Type 0} (x : A) (xs ys : List A) → Occurs x (xs ++ ys) → Occurs x xs ⊎ Occurs x ys
Occurs-append x [] ys h = inr h
Occurs-append x (y ∷ xs) ys (inl e) = inl (inl e)
Occurs-append x (y ∷ xs) ys (inr h) = elim (Occurs-append x xs ys h) [
  | inl o ↦ inl (inr o)
  | inr o ↦ inr o
]

pub Occurs-map :
    {A B : Type 0} (f : A → B) (x : A) (xs : List A) → Occurs x xs → Occurs (f x) (map f xs)
Occurs-map f x [] h = absurd h
Occurs-map f x (y ∷ xs) (inl e) = inl (ap f e)
Occurs-map f x (y ∷ xs) (inr h) = inr (Occurs-map f x xs h)

pub Occurs-filter_of :
    {A : Type 0} (p : A → Bool) (x : A) (xs : List A)
    → p x ≡ true
    → Occurs x xs
    → Occurs x (filter p xs)
Occurs-filter_of p x [] e h = absurd h
Occurs-filter_of p x (y ∷ xs) e (inl q) = rw (sym (ap p q) ∙ e) (inl q)
Occurs-filter_of p x (y ∷ xs) e (inr h) = elim (Bool-cases (p y)) [
  | inl q ↦ rw q (inr (Occurs-filter_of p x xs e h))
  | inr q ↦ rw q (Occurs-filter_of p x xs e h)
]

pub append_nil : {A : Type 0} (xs : List A) → xs ++ [] ≡ xs
append_nil [] = refl
append_nil (x ∷ xs) = ap (λ ys. x ∷ ys) (append_nil xs)

pub append_assoc : {A : Type 0} (xs ys zs : List A) → (xs ++ ys) ++ zs ≡ xs ++ (ys ++ zs)
append_assoc [] ys zs = refl
append_assoc (x ∷ xs) ys zs = ap (λ l. x ∷ l) (append_assoc xs ys zs)

pub any-Occurs :
    {A : Type 0} (p : A → Bool) (xs : List A)
    → any p xs ≡ true
    → (x : A) × Occurs x xs × (p x ≡ true)
any-Occurs p [] h = absurd (cc h)
any-Occurs p (x ∷ xs) h = elim (Bool-cases (p x)) [
  | inl e ↦ (x, inl refl, e)
  | inr e ↦ let (y, o, f) = any-Occurs p xs (rw e at h) in (y, inr o, f)
]

pub Occurs-any :
    {A : Type 0} (p : A → Bool) (x : A) (xs : List A) → Occurs x xs → p x ≡ true → any p xs ≡ true
Occurs-any p x [] o h = absurd o
Occurs-any p x (y ∷ xs) (inl e) h = rw (sym (ap p e) ∙ h) refl
Occurs-any p x (y ∷ xs) (inr o) h = ground (arith, Occurs-any p x xs o h)
