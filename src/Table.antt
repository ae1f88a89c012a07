-- ===== src/Table.antt =====
-- A ReplacingMergeTree table (clickhouse/ddl.sql): the log of its inserts, and the view that `final`
-- gives of it, one row for each sorting key, that of the greatest version, the last one inserted among
-- equals. A table without a version column has the constant version.
pub mod Final
pub mod Shown
pub mod Sorted
use ctv_attribution_pipeline.Base.{
  ℕ, Bool, true, false, ◌&&◌, Option, none, some, List, [], ◌∷◌, ◌==◌, ltb, if◌then◌else◌,
}

-- a sorting key of two columns
abbrev pub Pair : Type 0
Pair = ℕ × ℕ

abbrev pub same_pair : Pair → Pair → Bool
same_pair a b = a.0 == b.0 && a.1 == b.1

module _ {R K : Type 0} (same : K → K → Bool) (key : R → K) (version : R → ℕ) where
  -- one insert: the row takes the slot of its key unless the slot holds a greater version
  unfoldable pub upsert : R → List R → List R
  upsert r [] = r ∷ []
  upsert r (x ∷ view) =
      if same (key r) (key x)
      then (if ltb (version r) (version x) then x else r) ∷ view
      else x ∷ upsert r view

  unfoldable pub final_from : List R → List R → List R
  final_from view [] = view
  final_from view (r ∷ log) = final_from (upsert r view) log

  unfoldable pub final : List R → List R
  final log = final_from [] log

module _ {R K : Type 0} (same : K → K → Bool) (key : R → K) where
  -- the row of a key
  unfoldable pub find : K → List R → Option R
  find k [] = none
  find k (x ∷ view) = if same k (key x) then some x else find k view
