-- ===== src/Reconcile/Pick.antt =====
-- The tiebreak between the candidate households of a conversion.
use ctv_attribution_pipeline.Base.{
  ℕ, ◌≡◌, refl, inl, inr, Bool, true, false, ◌&&◌, ◌||◌, Option, none, some, List, [], ◌∷◌, arith,
  ◌==◌, ltb, if◌then◌else◌, filter, All, Occurs, Occurs-filter, Bool-cases, sym, ap,
}
use mathlib.Core.Path.{subst}
use ctv_attribution_pipeline.Attribute.LastTouch.{Candidate}
use ctv_attribution_pipeline.Reconcile.{
  rank_of, credit_lt, latest_credit, pick_among, pick_household,
}

-- the order of triples that `credit_lt` is: lexicographic
abbrev lex : ℕ → ℕ → ℕ → ℕ → ℕ → ℕ → Bool
lex a b c x y z = ltb a x || (a == x && (ltb b y || (b == y && ltb c z)))

lex_irrefl : (a b c : ℕ) → lex a b c a b c ≡ false
lex_irrefl a b c = ground arith

lex_keep :
    (a b c u v w x y z : ℕ)
    → lex a b c u v w ≡ false
    → lex u v w x y z ≡ false
    → lex a b c x y z ≡ false
lex_keep a b c u v w x y z h k = ground arith

lex_asym : (a b c x y z : ℕ) → lex a b c x y z ≡ true → lex x y z a b c ≡ false
lex_asym a b c x y z h = ground arith

credit_lt_keep :
    (a b c : Candidate) → credit_lt a b ≡ false → credit_lt b c ≡ false → credit_lt a c ≡ false
credit_lt_keep a b c =
    lex_keep (rank_of a.last_touch_time) (rank_of a.row.exposure_id) a.row.household_id
      (rank_of b.last_touch_time) (rank_of b.row.exposure_id) b.row.household_id
      (rank_of c.last_touch_time) (rank_of c.row.exposure_id) c.row.household_id

credit_lt_irrefl : (a : Candidate) → credit_lt a a ≡ false
credit_lt_irrefl a =
    lex_irrefl (rank_of a.last_touch_time) (rank_of a.row.exposure_id) a.row.household_id

credit_lt_asym : (a b : Candidate) → credit_lt a b ≡ true → credit_lt b a ≡ false
credit_lt_asym a b =
    lex_asym (rank_of a.last_touch_time) (rank_of a.row.exposure_id) a.row.household_id
      (rank_of b.last_touch_time) (rank_of b.row.exposure_id) b.row.household_id

latest_credit-over :
    (c x : Candidate) (xs : List Candidate)
    → credit_lt c x ≡ true
    → latest_credit c (x ∷ xs) ≡ latest_credit x xs
unfolding latest_credit
latest_credit-over c x xs e = ap (λ b. latest_credit (if b then x else c) xs) e

latest_credit-keep :
    (c x : Candidate) (xs : List Candidate)
    → credit_lt c x ≡ false
    → latest_credit c (x ∷ xs) ≡ latest_credit c xs
unfolding latest_credit
latest_credit-keep c x xs e = ap (λ b. latest_credit (if b then x else c) xs) e

latest_credit-nil : (c : Candidate) → latest_credit c [] ≡ c
unfolding latest_credit
latest_credit-nil c = refl

latest_credit-Occurs : (c : Candidate) (cs : List Candidate) → Occurs (latest_credit c cs) (c ∷ cs)
latest_credit-Occurs c [] = inl (latest_credit-nil c)
latest_credit-Occurs c (x ∷ xs) = elim (Bool-cases (credit_lt c x)) [
  | inl e ↦
      subst (λ w. Occurs w (c ∷ x ∷ xs)) (sym (latest_credit-over c x xs e))
        (inr (latest_credit-Occurs x xs))
  | inr e ↦
      subst (λ w. Occurs w (c ∷ x ∷ xs)) (sym (latest_credit-keep c x xs e))
        (skip (latest_credit-Occurs c xs))
]
  where
    skip : {w : Candidate} → Occurs w (c ∷ xs) → Occurs w (c ∷ x ∷ xs)
    skip (inl q) = inl q
    skip (inr o) = inr (inr o)

-- `w` is not below any of the list
abbrev Tops : Candidate → List Candidate → Type 0
Tops w cs = All (λ c. credit_lt w c ≡ false) cs

latest_credit-Tops : (c : Candidate) (cs : List Candidate) → Tops (latest_credit c cs) (c ∷ cs)
latest_credit-Tops c [] =
    subst (λ w. Tops w (c ∷ [])) (sym (latest_credit-nil c)) (credit_lt_irrefl c, tt)
latest_credit-Tops c (x ∷ xs) = elim (Bool-cases (credit_lt c x)) [
  | inl e ↦
      let t = latest_credit-Tops x xs in
      subst (λ w. Tops w (c ∷ x ∷ xs)) (sym (latest_credit-over c x xs e))
        (credit_lt_keep (latest_credit x xs) x c t.0 (credit_lt_asym c x e), t)
  | inr e ↦
      let t = latest_credit-Tops c xs in
      subst (λ w. Tops w (c ∷ x ∷ xs)) (sym (latest_credit-keep c x xs e))
        (t.0, (credit_lt_keep (latest_credit c xs) c x t.0 e, t.1))
]

-- What the winner is: an attributed candidate that no attributed candidate exceeds.
pub record Wins (w : Candidate) (candidates : List Candidate) : Type 0 where
  pub occurs : Occurs w candidates
  pub attributed : w.row.attributed ≡ true
  pub tops : All (λ (c : Candidate). c.row.attributed ≡ true → credit_lt w c ≡ false) candidates

Tops-of_filter :
    (w : Candidate) (cs : List Candidate)
    → Tops w (filter (λ (c : Candidate). c.row.attributed) cs)
    → All (λ (c : Candidate). c.row.attributed ≡ true → credit_lt w c ≡ false) cs
Tops-of_filter w [] t = tt
Tops-of_filter w (c ∷ cs) t = elim (Bool-cases c.row.attributed) [
  | inl e ↦
      let t' : Tops w (c ∷ filter (λ (d : Candidate). d.row.attributed) cs) = rw e at t in
      ((λ _. t'.0), Tops-of_filter w cs t'.1)
  | inr e ↦
      let t' : Tops w (filter (λ (d : Candidate). d.row.attributed) cs) = rw e at t in
      ((λ p. cc (e, p)), Tops-of_filter w cs t')
]

none_of_filter :
    (cs : List Candidate)
    → filter (λ (c : Candidate). c.row.attributed) cs ≡ []
    → All (λ (c : Candidate). c.row.attributed ≡ false) cs
none_of_filter [] h = tt
none_of_filter (c ∷ cs) h = elim (Bool-cases c.row.attributed) [
  | inl e ↦ absurd (ground arith)
  | inr e ↦ (e, none_of_filter cs (ground arith))
]

-- what `pick_household` may return
abbrev pub Picked : List Candidate → Option Candidate → Type 0
Picked candidates none = All (λ (c : Candidate). c.row.attributed ≡ false) candidates
Picked candidates (some w) = Wins w candidates

-- The pick is an attributed candidate that no attributed candidate exceeds by (last-touch time,
-- exposure, household); there is none exactly when no candidate is attributed.
pub pick_household-Picked :
    (candidates : List Candidate) → Picked candidates (pick_household candidates)
unfolding pick_household
pick_household-Picked candidates =
    picked (filter (λ (c : Candidate). c.row.attributed) candidates) refl
  where
    picked :
        (xs : List Candidate)
        → filter (λ (c : Candidate). c.row.attributed) candidates ≡ xs
        → Picked candidates (pick_among xs)
    picked [] e = none_of_filter candidates e
    picked (x ∷ xs) e =
        let o : Occurs (latest_credit x xs)
            (filter (λ (c : Candidate). c.row.attributed) candidates) =
          rw e (latest_credit-Occurs x xs) in
        let (occurs, attributed) =
          Occurs-filter (λ (c : Candidate). c.row.attributed) (latest_credit x xs) candidates o in
        record {
          occurs = occurs;
          attributed = attributed;
          tops = Tops-of_filter (latest_credit x xs) candidates (rw e (latest_credit-Tops x xs));
        }
