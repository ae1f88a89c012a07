-- ===== src/Serving/Marks.antt =====
-- Grouping the marks of a load keeps their keys.
use mathlib.Core.Path.{subst}
use ctv_attribution_pipeline.Base.{
  ◌≡◌, Occurs, refl, sym, ap, ◌∙◌, inl, inr, List, [], ◌∷◌, Bool-cases, max,
}
use ctv_attribution_pipeline.Table.{Pair, same_pair}
use ctv_attribution_pipeline.Table.Final.{same_pair_iff}
use ctv_attribution_pipeline.Serving.{Mark, mark_key, add_mark, group_marks}

-- grouping keeps the keys of its marks
abbrev pub HasKey : Pair → List Mark → Type 0
HasKey k ms = (m : Mark) × Occurs m ms × (mark_key m ≡ k)

HasKey-further : (k : Pair) (x : Mark) (xs : List Mark) → HasKey k xs → HasKey k (x ∷ xs)
HasKey-further k x xs (m, o, e) = (m, inr o, e)

add_mark-own : (m : Mark) (xs : List Mark) → HasKey (mark_key m) (add_mark m xs)
unfolding add_mark
add_mark-own m [] = (m, inl refl, refl)
add_mark-own m (x ∷ xs) = elim (Bool-cases (same_pair (mark_key m) (mark_key x))) [
  | inl e ↦ rw e (
    record x { version = max x.version m.version },
    inl refl,
    sym ((same_pair_iff (mark_key m) (mark_key x)).0 e),
  )
  | inr e ↦ rw e (HasKey-further (mark_key m) x (add_mark m xs) (add_mark-own m xs))
]

add_mark-old : (k : Pair) (m : Mark) (xs : List Mark) → HasKey k xs → HasKey k (add_mark m xs)
unfolding add_mark
add_mark-old k m [] (y, o, e) = absurd o
add_mark-old k m (x ∷ xs) (y, inl q, e) = elim (Bool-cases (same_pair (mark_key m) (mark_key x))) [
  | inl s ↦ rw s (record x { version = max x.version m.version }, inl refl, sym (ap mark_key q) ∙ e)
  | inr s ↦ rw s (x, inl refl, sym (ap mark_key q) ∙ e)
]
add_mark-old k m (x ∷ xs) (y, inr o, e) = elim (Bool-cases (same_pair (mark_key m) (mark_key x))) [
  | inl s ↦ rw s (y, inr o, e)
  | inr s ↦ rw s (HasKey-further k x (add_mark m xs) (add_mark-old k m xs (y, o, e)))
]

group_marks-old :
    (k : Pair) (groups ms : List Mark) → HasKey k groups → HasKey k (group_marks groups ms)
unfolding group_marks
group_marks-old k groups [] h = h
group_marks-old k groups (m ∷ ms) h =
    group_marks-old k (add_mark m groups) ms (add_mark-old k m groups h)

pub group_marks-HasKey :
    (groups : List Mark) (m : Mark) (ms : List Mark)
    → Occurs m ms
    → HasKey (mark_key m) (group_marks groups ms)
unfolding group_marks
group_marks-HasKey groups m [] h = absurd h
group_marks-HasKey groups m (x ∷ ms) (inl e) =
    group_marks-old (mark_key m) (add_mark x groups) ms
      (subst (λ a. HasKey (mark_key a) (add_mark x groups)) (sym e) (add_mark-own x groups))
group_marks-HasKey groups m (x ∷ ms) (inr h) = group_marks-HasKey (add_mark x groups) m ms h
