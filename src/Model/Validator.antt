-- ===== src/Model/Validator.antt =====
-- What the row validator accepts, and that it changes nothing.
use ctv_attribution_pipeline.Base.{◌≡◌, ◌≢◌, refl, true, List, [], ◌∷◌, arith, ok, length, mem}
use ctv_attribution_pipeline.Sort.Sets.{
  sorted_set, Ascending, sorted_set-Ascending, sorted_set_of_Ascending,
}
use ctv_attribution_pipeline.Model.{Ident, AttributedConversion, same_ids, validate}

same_ids→eq : (xs ys : List Ident) → same_ids xs ys ≡ true → xs ≡ ys
same_ids→eq [] [] h = refl
same_ids→eq (x ∷ xs) (y ∷ ys) h = ground (arith, same_ids→eq xs ys)
same_ids→eq [] (y ∷ ys) h = cc
same_ids→eq (x ∷ xs) [] h = cc

same_ids_refl : (xs : List Ident) → same_ids xs xs ≡ true
same_ids_refl [] = refl
same_ids_refl (x ∷ xs) = ground (arith, same_ids_refl xs)

-- What an accepted row looks like: no candidate set for a certain conversion, and for another as many
-- candidates as it counts, in ascending order, with its own household among them.
pub record IsAccepted (row : AttributedConversion) : Type 0 where
  pub certain : row.candidate_count ≡ 1 → row.candidate_households ≡ []
  pub counted : row.candidate_count ≢ 1 → length row.candidate_households ≡ row.candidate_count
  pub ascending : row.candidate_count ≢ 1 → Ascending row.candidate_households
  pub placed : row.candidate_count ≢ 1 → mem row.household_id row.candidate_households ≡ true

Ascending-of_same : (xs : List Ident) → same_ids xs (sorted_set xs) ≡ true → Ascending xs
Ascending-of_same xs h = rw (same_ids→eq xs (sorted_set xs) h) (sorted_set-Ascending xs)

same_of_Ascending : (xs : List Ident) → Ascending xs → same_ids xs (sorted_set xs) ≡ true
same_of_Ascending xs h = rw (sorted_set_of_Ascending xs h) (same_ids_refl xs)

-- The validator returns a row unchanged, and only one that is accepted.
pub validate-IsAccepted :
    (row r : AttributedConversion) → validate row ≡ ok r → (r ≡ row) × IsAccepted row
unfolding validate
validate-IsAccepted row r h =
    (ground arith, ground (arith, Ascending-of_same row.candidate_households))

-- The validator returns every row that is accepted.
pub IsAccepted-validate : (row : AttributedConversion) → IsAccepted row → validate row ≡ ok row
unfolding validate
IsAccepted-validate row h = ground (arith, same_of_Ascending row.candidate_households)
