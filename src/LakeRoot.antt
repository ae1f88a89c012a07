-- ===== src/LakeRoot.antt =====
-- lake/iceberg_catalog.py (the root of the lake) and lake/destructive.py (the confirmation and the
-- reset): which directory a process binds, and what a reset may delete. A text is the list of its code
-- points. The directories below data/lake, the environment and what the user types are arguments.
pub mod Safety
use ctv_attribution_pipeline.Base.{
  ℕ, Bool, true, false, not, ◌&&◌, ◌||◌, Option, none, some, List, [], ◌∷◌, ◌==◌, leb,
  if◌then◌else◌, filter, any, Result, ok, err, ◌>>=◌, ◌>>◌, raise_if, aborted, lake_root_set,
  lake_root_unset,
}
use ctv_attribution_pipeline.Model.{same_ids}

abbrev pub Text : Type 0
Text = List ℕ

-- `[a-z0-9_]`
abbrev pub is_profile_char : ℕ → Bool
is_profile_char c = (leb 97 c && leb c 122) || ((leb 48 c && leb c 57) || c == 95)

-- `[a-z0-9_]+$` after a first character: `$` stands at the end and before a newline that ends the text
unfoldable pub rest_matches : Text → Bool
rest_matches [] = true
rest_matches (c ∷ cs) =
    (is_profile_char c && rest_matches cs) || (c == 10 && (elim cs [ [] ↦ true | _ ∷ _ ↦ false ]))

-- `_PROFILE_RE.match`
unfoldable pub profile_re_match : Text → Bool
profile_re_match [] = false
profile_re_match (c ∷ cs) = is_profile_char c && rest_matches cs

unfoldable pub validate_profile : Text → Result Text
validate_profile profile = if profile_re_match profile then ok profile else err lake_root_unset

-- LAKE_ROOT and PYTEST_CURRENT_TEST
pub record Environment : Type 0 where
  pub lake_root : Option Text
  pub under_pytest : Bool

-- the directory that a root is: one of a test, or data/lake/<profile>
pub data Root : Type 0 where
  of_test of_profile : Text → Root

-- an empty variable counts as none
unfoldable pub lake_root_of : Environment → Option Text → Result Root
lake_root_of env profile = elim env.lake_root [
  | some (c ∷ cs) ↦ if env.under_pytest then ok (of_test (c ∷ cs)) else err lake_root_unset
  | _ ↦ elim profile [ some p ↦ ok (of_profile p) | none ↦ err lake_root_unset ]
]

-- `configure`: the profile that is bound from then on, and its root
unfoldable pub configure : Environment → Text → Result (Text × Root)
configure env profile = do
  name ← validate_profile profile
  root ← lake_root_of env (some name)
  ok (name, root)

-- the user: no terminal, the end of the input, or a line, with the spaces round it stripped
pub data Answer : Type 0 where
  no_tty end_of_input : Answer
  typed : Text → Answer

abbrev pub yes_text : Text
yes_text = 121 ∷ 101 ∷ 115 ∷ []

unfoldable pub confirm_or_abort : Bool → Answer → Result (Unit {0})
confirm_or_abort true answer = ok tt
confirm_or_abort false no_tty = err aborted
confirm_or_abort false end_of_input = err aborted
confirm_or_abort false (typed answer) = raise_if (not (same_ids answer yes_text)) aborted

abbrev pub same_root : Root → Root → Bool
same_root (of_test a) (of_test b) = same_ids a b
same_root (of_profile a) (of_profile b) = same_ids a b
same_root (of_test a) (of_profile b) = false
same_root (of_profile a) (of_test b) = false

-- `reset`, on the directories that exist: a missing root is left alone
unfoldable pub reset : Environment → Text → Bool → Answer → List Root → Result (List Root)
reset env profile confirmed answer roots = do
  root ← lake_root_of env (some profile)
  confirm_or_abort confirmed answer
  ok (if any (same_root root) roots then filter (λ r. not (same_root root r)) roots else roots)

abbrev pub is_set : Option Text → Bool
is_set none = false
is_set (some []) = false
is_set (some (c ∷ cs)) = true

-- `main`, for the action reset
unfoldable pub main_reset : Environment → Text → Bool → Answer → List Root → Result (List Root)
main_reset env profile confirmed answer roots = do
  raise_if (is_set env.lake_root) lake_root_set
  (name, root) ← configure env profile
  reset env name confirmed answer roots
