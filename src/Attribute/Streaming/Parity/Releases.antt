-- ===== src/Attribute/Streaming/Parity/Releases.antt =====
-- Releasing conversions one by one is attributing them as a list.
use ctv_attribution_pipeline.Base.{
  ℕ, ◌≡◌, refl, ap, ◌∙◌, List, [], ◌∷◌, ◌++◌, arith, Result, ok, err, ◌>>=◌, map_all, inl, inr,
  Result-cases,
}
use mathlib.Core.List.{append_assoc, append-nil}
use ctv_attribution_pipeline.Dict.{Dict}
use ctv_attribution_pipeline.Model.{Ident, Exposure, ResolvedConversion}
use ctv_attribution_pipeline.Attribute.LastTouch.{Candidate, attribute_one, attribute_household}
use ctv_attribution_pipeline.Attribute.Streaming.{release}

module _ {ℓ κ} {A : Type ℓ} {B : Type κ} (f : A → Result B) where
  pub map_all-append :
      (xs ys : List A)
      → map_all f (xs ++ ys) ≡ (map_all f xs >>= λ a. map_all f ys >>= λ b. ok (a ++ b))
  map_all-append [] ys = elim (Result-cases (map_all f ys)) [
    | inl (a, e) ↦ rw e
    | inr (x, e) ↦ rw e
  ]
  map_all-append (x ∷ xs) ys = ground (arith, map_all-append xs ys)

module _ (window : ℕ) (cands : Dict (List Ident)) where
  regroup :
      (out : List Candidate) (y : Candidate) (r : Result (List Candidate))
      → (r >>= λ rows. ok ((out ++ y ∷ []) ++ rows))
        ≡ ((r >>= λ ys. ok (y ∷ ys)) >>= λ rows. ok (out ++ rows))
  regroup out y (ok rows) = ap ok (append_assoc out (y ∷ []) rows)
  regroup out y (err x) = refl

  pub release-eq :
      (es : List Exposure) (cs : List ResolvedConversion) (out : List Candidate)
      → release window cands es cs out
        ≡ (attribute_household es cs window cands >>= λ rows. ok (out ++ rows))
  unfolding release attribute_household
  release-eq es [] out = rw append-nil refl
  release-eq es (c ∷ cs) out = elim (Result-cases (attribute_one es window cands c)) [
    | inr (x, e) ↦ rw e refl
    | inl (y, e) ↦ rw e (
        release-eq es cs (out ++ y ∷ [])
        ∙ regroup out y (map_all (attribute_one es window cands) cs))
  ]
