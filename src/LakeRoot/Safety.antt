-- ===== src/LakeRoot/Safety.antt =====
-- What the command line's reset can touch.
use ctv_attribution_pipeline.Base.{
  ℕ, ◌≡◌, refl, sym, ap, ◌∙◌, Bool, true, false, not, ◌&&◌, Option, none, some, List, [], ◌∷◌, ◌==◌,
  if◌then◌else◌, filter, any, mem, Result, ok, err, >>=-eq-ok, lake_root_unset, arith, Bool-cases,
  inl, inr, ◌⊎◌, aborted,
}
use ctv_attribution_pipeline.Model.{same_ids}
use ctv_attribution_pipeline.LakeRoot.{
  Text, is_profile_char, rest_matches, profile_re_match, validate_profile, Environment, Root,
  of_test, of_profile, lake_root_of, configure, Answer, no_tty, end_of_input, typed, yes_text,
  confirm_or_abort, same_root, reset, is_set, main_reset,
}

rest_matches-safe :
    (c : ℕ) (t : Text)
    → is_profile_char c ≡ false
    → (c == 10) ≡ false
    → rest_matches t ≡ true
    → mem c t ≡ false
unfolding rest_matches
rest_matches-safe c [] hc hn h = refl
rest_matches-safe c (x ∷ xs) hc hn h = elim (Bool-cases (is_profile_char x && rest_matches xs)) [
  | inl e ↦ ground (arith, rest_matches-safe c xs hc hn)
  | inr e ↦ last xs (rw e at h)
]
  where
    last :
        (ys : Text)
        → (x == 10 && (elim ys [ [] ↦ true | _ ∷ _ ↦ false ])) ≡ true
        → mem c (x ∷ ys) ≡ false
    last [] k = ground arith
    last (y ∷ ys) k = ground arith

matches-safe :
    (c : ℕ) (t : Text)
    → is_profile_char c ≡ false
    → (c == 10) ≡ false
    → profile_re_match t ≡ true
    → mem c t ≡ false
unfolding profile_re_match
matches-safe c [] hc hn h = refl
matches-safe c (x ∷ xs) hc hn h = ground (arith, rest_matches-safe c xs hc hn)

validate_profile-eq :
    (profile name : Text)
    → validate_profile profile ≡ ok name
    → (name ≡ profile) × (profile_re_match profile ≡ true)
unfolding validate_profile
validate_profile-eq profile name h = elim (Bool-cases (profile_re_match profile)) [
  | inl e ↦ (cc (rw e at h), e)
  | inr e ↦ absurd (cc (rw e at h))
]

-- A profile that is accepted is returned as it is and cannot leave data/lake: no character of it is
-- outside [a-z0-9_], but for a newline.
pub validate_profile-safe :
    (profile name : Text)
    → validate_profile profile ≡ ok name
    → (name ≡ profile)
      × ((c : ℕ) → is_profile_char c ≡ false → (c == 10) ≡ false → mem c name ≡ false)
validate_profile-safe profile name h =
    let (e, m) = validate_profile-eq profile name h in
    (e, λ c hc hn. rw e (matches-safe c profile hc hn m))

-- the user agreed: by the flag or by the answer
abbrev pub Agreed : Bool → Answer → Type 0
Agreed confirmed answer =
    (confirmed ≡ true) ⊎ ((t : Text) × (answer ≡ typed t) × (same_ids t yes_text ≡ true))

confirm_or_abort-Agreed :
    (confirmed : Bool) (answer : Answer) (u : Unit {0})
    → confirm_or_abort confirmed answer ≡ ok u
    → Agreed confirmed answer
unfolding confirm_or_abort
confirm_or_abort-Agreed true answer u h = inl refl
confirm_or_abort-Agreed false no_tty u h = absurd cc
confirm_or_abort-Agreed false end_of_input u h = absurd cc
confirm_or_abort-Agreed false (typed t) u h = elim (Bool-cases (same_ids t yes_text)) [
  | inl e ↦ inr (t, refl, e)
  | inr e ↦ absurd (cc (rw e at h))
]

-- the prompt lets through exactly a user who agreed
pub confirm_or_abort-cases :
    (confirmed : Bool) (answer : Answer)
    → ((confirm_or_abort confirmed answer ≡ ok tt) × Agreed confirmed answer)
      ⊎ ((confirm_or_abort confirmed answer ≡ err aborted) × ¬ Agreed confirmed answer)
unfolding confirm_or_abort
confirm_or_abort-cases true answer = inl (refl, inl refl)
confirm_or_abort-cases false no_tty = inr (refl, λ a. ground (arith, a))
confirm_or_abort-cases false end_of_input = inr (refl, λ a. ground (arith, a))
confirm_or_abort-cases false (typed t) = elim (Bool-cases (same_ids t yes_text)) [
  | inl e ↦ inl (rw e refl, inr (t, refl, e))
  | inr e ↦ inr (rw e refl, refuse e)
]
  where
    refuse : same_ids t yes_text ≡ false → ¬ Agreed false (typed t)
    refuse e (inl h) = absurd (cc h)
    refuse e (inr (u, h, k)) = absurd (cc (h, e, k))

-- the roots without one
abbrev pub without : Root → List Root → List Root
without root = filter (λ r. not (same_root root r))

without-absent :
    (root : Root) (roots : List Root)
    → any (same_root root) roots ≡ false
    → without root roots ≡ roots
without-absent root [] h = refl
without-absent root (r ∷ rs) h = ground (arith, without-absent root rs)

removed :
    (root : Root) (roots : List Root)
    → (if any (same_root root) roots then without root roots else roots) ≡ without root roots
removed root roots = elim (Bool-cases (any (same_root root) roots)) [
  | inl e ↦ rw e refl
  | inr e ↦ rw (e, without-absent root roots e) refl
]

lake_root_of-unset :
    (env : Environment) (profile : Text)
    → is_set env.lake_root ≡ false
    → lake_root_of env (some profile) ≡ ok (of_profile profile)
unfolding lake_root_of
lake_root_of-unset env profile h = unset env.lake_root h
  where
    unset :
        (o : Option Text)
        → is_set o ≡ false
        → (elim o [
          | some (c ∷ cs) ↦ if env.under_pytest then ok (of_test (c ∷ cs)) else err lake_root_unset
          | _ ↦ ok (of_profile profile)
        ])
          ≡ ok (of_profile profile)
    unset none k = refl
    unset (some []) k = refl
    unset (some (c ∷ cs)) k = absurd cc

reset-removes :
    (env : Environment) (profile : Text) (confirmed : Bool) (answer : Answer)
    (roots left : List Root)
    → is_set env.lake_root ≡ false
    → reset env profile confirmed answer roots ≡ ok left
    → Agreed confirmed answer × (left ≡ without (of_profile profile) roots)
unfolding reset
reset-removes env profile confirmed answer roots left unset h =
    let (u, agreed, done) =
      >>=-eq-ok (confirm_or_abort confirmed answer) _
        (rw (lake_root_of-unset env profile unset) at h) in
    (
      confirm_or_abort-Agreed confirmed answer u agreed,
      cc (done, removed (of_profile profile) roots),
    )

configure-name :
    (env : Environment) (profile : Text) (bound : Text × Root)
    → configure env profile ≡ ok bound
    → bound.0 ≡ profile
unfolding configure
configure-name env profile bound h =
    let (name, valid, rest) = >>=-eq-ok (validate_profile profile) _ h in
    let (root, rooted, made) = >>=-eq-ok (lake_root_of env (some name)) _ rest in
    sym (ap (λ (r : Result (Text × Root)). (elim r [ ok b ↦ b.0 | err e ↦ name ])) made)
    ∙ (validate_profile-eq profile name valid).0

-- A reset from the command line deletes only what the profile names: it goes through only where
-- LAKE_ROOT is unset and the user agreed, and the directories left are all but data/lake/<profile>.
pub main_reset-removes :
    (env : Environment) (profile : Text) (confirmed : Bool) (answer : Answer)
    (roots left : List Root)
    → main_reset env profile confirmed answer roots ≡ ok left
    → (is_set env.lake_root ≡ false)
      × Agreed confirmed answer
      × (left ≡ without (of_profile profile) roots)
unfolding main_reset
main_reset-removes env profile confirmed answer roots left h =
    elim (Bool-cases (is_set env.lake_root)) [
      | inl e ↦ absurd (cc (rw e at h))
      | inr e ↦
          let (bound, bind, reset_ok) = >>=-eq-ok (configure env profile) _ (rw e at h) in
          let name = configure-name env profile bound bind in
          let (agreed, l) =
            reset-removes env profile confirmed answer roots left e (rw name at reset_ok) in
          (e, agreed, l)
    ]
