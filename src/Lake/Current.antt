-- ===== src/Lake/Current.antt =====
-- The current row of a conversion in the log of record.
use mathlib.Core.Path.{subst}
use ctv_attribution_pipeline.Base.{
  ◌≡◌, refl, sym, ap, ◌∙◌, inl, inr, true, false, ◌&&◌, Option, none, some, List, [], ◌∷◌, arith,
  ◌==◌, ==_iff, if◌then◌else◌, All, Occurs, Bool-cases, ◌⊎◌,
}
use ctv_attribution_pipeline.Dict.{Dict, lookup, insert}
use ctv_attribution_pipeline.Dict.Laws.{lookup-insert}
use ctv_attribution_pipeline.Model.{Ident, AttributedConversion}
use ctv_attribution_pipeline.Lake.{supersedes, takes_over, current_from}

-- the row that a scan of the log keeps for conversion `c`
abbrev kept :
    Ident → Option AttributedConversion → List AttributedConversion → Option AttributedConversion
kept c o [] = o
kept c o (r ∷ rs) = kept c (if c == r.conversion_id && takes_over r o then some r else o) rs

lookup-current_from :
    (c : Ident) (d : Dict AttributedConversion) (rs : List AttributedConversion)
    → lookup c (current_from d rs) ≡ kept c (lookup c d) rs
unfolding current_from
lookup-current_from c d [] = refl
lookup-current_from c d (r ∷ rs) =
    lookup-current_from c
      (if takes_over r (lookup r.conversion_id d) then insert r.conversion_id r d else d) rs
    ∙ ap (λ o. kept c o rs) (after c d r)
  where
    same_slot :
        (c : Ident) (d : Dict AttributedConversion) (r : AttributedConversion)
        → (c == r.conversion_id) ≡ true
        → lookup c d ≡ lookup r.conversion_id d
    same_slot c d r e = ap (λ k. lookup k d) ((==_iff c r.conversion_id).0 e)

    after :
        (c : Ident) (d : Dict AttributedConversion) (r : AttributedConversion)
        → lookup c
            (if takes_over r (lookup r.conversion_id d) then insert r.conversion_id r d else d)
          ≡ (if c == r.conversion_id && takes_over r (lookup c d) then some r else lookup c d)
    after c d r = ground (arith, lookup-insert r.conversion_id c r d, same_slot c d r)

supersedes_keep :
    (a b c : AttributedConversion)
    → supersedes b a ≡ false
    → supersedes c b ≡ false
    → supersedes c a ≡ false
supersedes_keep a b c h k = ground arith

supersedes_asym : (a b : AttributedConversion) → supersedes a b ≡ true → supersedes b a ≡ false
supersedes_asym a b h = ground arith

supersedes_irrefl : (a : AttributedConversion) → supersedes a a ≡ false
supersedes_irrefl a = ground arith

-- No row of conversion `c` in the log supersedes `r`.
abbrev pub Newest : Ident → AttributedConversion → List AttributedConversion → Type 0
Newest c r rows = All (λ x. x.conversion_id ≡ c → supersedes x r ≡ false) rows

abbrev Above : Option AttributedConversion → AttributedConversion → Type 0
Above none r = Unit
Above (some cur) r = supersedes cur r ≡ false

some-eq : {a b : AttributedConversion} → some a ≡ some b → a ≡ b
some-eq h = cc

-- what is kept is what was there, or a row of the conversion in the log
kept-Occurs :
    (c : Ident) (o : Option AttributedConversion) (rs : List AttributedConversion)
    (r : AttributedConversion)
    → kept c o rs ≡ some r
    → (o ≡ some r) ⊎ (Occurs r rs × (r.conversion_id ≡ c))
kept-Occurs c o [] r h = inl h
kept-Occurs c o (x ∷ xs) r h = elim (Bool-cases (c == x.conversion_id && takes_over x o)) [
  | inl e ↦ taken (kept-Occurs c (some x) xs r (rw e at h)) (ground (arith, e))
  | inr e ↦ left (kept-Occurs c o xs r (rw e at h))
]
  where
    taken :
        (some x ≡ some r) ⊎ (Occurs r xs × (r.conversion_id ≡ c))
        → x.conversion_id ≡ c
        → (o ≡ some r) ⊎ (Occurs r (x ∷ xs) × (r.conversion_id ≡ c))
    taken (inl q) k = inr (
      inl (sym (some-eq q)),
      ap (λ (y : AttributedConversion). y.conversion_id) (sym (some-eq q)) ∙ k,
    )
    taken (inr (q, k')) k = inr (inr q, k')

    left :
        (o ≡ some r) ⊎ (Occurs r xs × (r.conversion_id ≡ c))
        → (o ≡ some r) ⊎ (Occurs r (x ∷ xs) × (r.conversion_id ≡ c))
    left (inl q) = inl q
    left (inr (q, k)) = inr (inr q, k)

kept-Newest :
    (c : Ident) (o : Option AttributedConversion) (rs : List AttributedConversion)
    (r : AttributedConversion)
    → kept c o rs ≡ some r
    → Above o r × Newest c r rs
kept-Newest c none [] r h = absurd cc
kept-Newest c (some cur) [] r h =
    (subst (λ x. supersedes cur x ≡ false) (some-eq h) (supersedes_irrefl cur), tt)
kept-Newest c none (x ∷ xs) r h = elim (Bool-cases (c == x.conversion_id)) [
  | inl e ↦ let (w, b) = kept-Newest c (some x) xs r (rw e at h) in (tt, (λ p. w, b))
  | inr e ↦
      let (w, b) = kept-Newest c none xs r (rw e at h) in
      (tt, (λ p. absurd (ground (arith, p, e)), b))
]
kept-Newest c (some cur) (x ∷ xs) r h =
    elim (Bool-cases (c == x.conversion_id && supersedes x cur)) [
      | inl e ↦
          let (w, b) = kept-Newest c (some x) xs r (rw e at h) in
          (supersedes_keep r x cur w (supersedes_asym x cur (ground (arith, e))), (λ p. w, b))
      | inr e ↦
          let (w, b) = kept-Newest c (some cur) xs r (rw e at h) in
          (w, (λ p. supersedes_keep r cur x w (ground (arith, e, p)), b))
    ]

-- The row that the read of the lake keeps for a conversion is a row of that conversion in the log, and
-- none in the log supersedes it, by its processing time and then by its path.
pub current_from-Newest :
    (rows : List AttributedConversion) (c : Ident) (r : AttributedConversion)
    → lookup c (current_from [] rows) ≡ some r
    → Occurs r rows × (r.conversion_id ≡ c) × Newest c r rows
current_from-Newest rows c r h =
    let k = sym (lookup-current_from c [] rows ∙ nothing c) ∙ h in
    let (occurs, same) = found (kept-Occurs c none rows r k) in
    (occurs, same, (kept-Newest c none rows r k).1)
  where
    nothing : (c : Ident) → kept c (lookup c []) rows ≡ kept c none rows
    nothing c = unfold lookup in refl

    found :
        (Path (Option AttributedConversion) none (some r)) ⊎ (Occurs r rows × (r.conversion_id ≡ c))
        → Occurs r rows × (r.conversion_id ≡ c)
    found (inl q) = absurd cc
    found (inr q) = q
