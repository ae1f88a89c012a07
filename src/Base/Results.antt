-- ===== src/Base/Results.antt =====
-- Results of code that may raise. Each constructor of `Error` is one `raise` (or one refusal) of the
-- program.
use mathlib.Core.Path.{◌≡◌, refl}
use mathlib.Core.Bool.{Bool, true, false}
use mathlib.Core.List.{List, [], ◌∷◌}
use mathlib.Core.Logic.{◌⊎◌, inl, inr}

pub data Error : Type 0 where
  validation no_candidates not_expanded reason_disagrees pre_phase17 overflow : Error
  no_marker profile_mismatch consume_error drain_stalled : Error
  empty_lake unknown_partition aborted lake_root_set lake_root_unset unsettled unknown_scenario
        unknown_profile :
      Error

-- what a call gives: its value, or what it raised
pub data Result {ℓ} (A : Type ℓ) : Type ℓ where
  err : Error → Result A
  ok : A → Result A

module _ {ℓ κ} {A : Type ℓ} {B : Type κ} where
  infixl 5 ◌>>=◌ ◌>>◌
  abbrev pub ◌>>=◌ : Result A → (A → Result B) → Result B
  err e >>= next = err e
  ok value >>= next = next value

  abbrev pub ◌>>◌ : Result A → Result B → Result B
  first >> second = first >>= λ _. second

-- `if bad: raise e`
abbrev pub raise_if : Bool → Error → Result (Unit {0})
raise_if true e = err e
raise_if false e = ok tt

module _ {ℓ κ} {A : Type ℓ} {B : Type κ} where
  abbrev pub map_ok : (A → B) → Result A → Result B
  map_ok f (ok a) = ok (f a)
  map_ok f (err e) = err e

  -- `[f(a) for a in xs]`, where `f` may raise
  abbrev pub map_all : (A → Result B) → List A → Result (List B)
  map_all f [] = ok []
  map_all f (x ∷ xs) = f x >>= λ y. map_all f xs >>= λ ys. ok (y ∷ ys)

  -- a chain that returns made its first call, and then the rest
  pub >>=-eq-ok :
      (call : Result A) (next : A → Result B) {out : B}
      → (call >>= next) ≡ ok out
      → (value : A) × (call ≡ ok value) × (next value ≡ ok out)
  >>=-eq-ok (err e) next ran = cc
  >>=-eq-ok (ok value) next ran = (value, refl, ran)

pub Result-cases {ℓ} :
    {A : Type ℓ} (r : Result A) → ((a : A) × (r ≡ ok a)) ⊎ ((e : Error) × (r ≡ err e))
Result-cases (ok a) = inl (a, refl)
Result-cases (err e) = inr (e, refl)

pub ok-eq {ℓ} : {A : Type ℓ} {a b : A} → Path (Result A) (ok a) (ok b) → a ≡ b
ok-eq h = cc

pub >>=-eq :
    {A B : Type 0} (call : Result A) (f g : A → Result B)
    → ((a : A) → f a ≡ g a)
    → (call >>= f) ≡ (call >>= g)
>>=-eq (err e) f g h = refl
>>=-eq (ok a) f g h = h a
