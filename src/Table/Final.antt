-- ===== src/Table/Final.antt =====
-- The row that `final` shows for a key.
use ctv_attribution_pipeline.Base.{
  ℕ, ◌≡◌, ◌≤◌, ◌↔◌, refl, sym, ap, ◌∙◌, ◌⊎◌, inl, inr, Bool, true, false, Option, none, some, List,
  [], ◌∷◌, ◌++◌, arith, ltb, if◌then◌else◌, Bool-cases,
}
use ctv_attribution_pipeline.Table.{Pair, same_pair, upsert, final_from, final, find}

pub same_pair_iff : (a b : Pair) → (same_pair a b ≡ true) ↔ (a ≡ b)
same_pair_iff a b = ground arith

module _ {R : Type 0} (version : R → ℕ) where
  -- what an insert leaves in the slot of its key
  abbrev pub newest : Option R → R → R
  newest none r = r
  newest (some cur) r = if ltb (version r) (version cur) then cur else r

  -- the same, where there may be no insert
  abbrev pub newest_of : Option R → Option R → Option R
  newest_of o none = o
  newest_of o (some r) = some (newest o r)

module _ {R K : Type 0} (same : K → K → Bool) (key : R → K) (version : R → ℕ)
    (same_iff : (a b : K) → (same a b ≡ true) ↔ (a ≡ b)) where
  -- two keys that meet a third alike
  same_left : (k a b : K) → same a b ≡ true → same k a ≡ same k b
  same_left k a b e = ap (same k) ((same_iff a b).0 e)

  pub find-upsert :
      (k : K) (r : R) (view : List R)
      → find same key k (upsert same key version r view) ≡ (
          if same k (key r)
          then some (newest version (find same key k view) r)
          else find same key k view)
  unfolding find upsert
  find-upsert k r [] = refl
  find-upsert k r (x ∷ view) = elim (Bool-cases (same (key r) (key x))) [
    | inl e ↦ here (Bool-cases (ltb (version r) (version x))) e
    | inr e ↦ there (find-upsert k r view) e
  ]
    where
      here :
          (ltb (version r) (version x) ≡ true) ⊎ (ltb (version r) (version x) ≡ false)
          → same (key r) (key x) ≡ true
          → find same key k (upsert same key version r (x ∷ view)) ≡ (
              if same k (key r)
              then some (newest version (find same key k (x ∷ view)) r)
              else find same key k (x ∷ view))
      here t e = ground (arith, t, e, same_left k (key r) (key x) e)

      there :
          find same key k (upsert same key version r view) ≡ (
            if same k (key r)
            then some (newest version (find same key k view) r)
            else find same key k view)
          → same (key r) (key x) ≡ false
          → find same key k (upsert same key version r (x ∷ view)) ≡ (
              if same k (key r)
              then some (newest version (find same key k (x ∷ view)) r)
              else find same key k (x ∷ view))
      there ih e = elim (Bool-cases (same k (key r))) [
        | inl h ↦ ground (arith, e, h, ih, same_left (key x) k (key r) h, apart h e)
        | inr h ↦ ground (arith, e, h, ih)
      ]
        where
          apart : same k (key r) ≡ true → same (key r) (key x) ≡ false → same k (key x) ≡ false
          apart h e = ap (λ a. same a (key x)) ((same_iff k (key r)).0 h) ∙ e

  -- the row that a log of inserts leaves in the slot of `k`
  unfoldable pub newest_in : K → Option R → List R → Option R
  newest_in k o [] = o
  newest_in k o (r ∷ log) =
      newest_in k (if same k (key r) then some (newest version o r) else o) log

  pub find-final_from :
      (k : K) (view log : List R)
      → find same key k (final_from same key version view log)
        ≡ newest_in k (find same key k view) log
  unfolding final_from newest_in
  find-final_from k view [] = refl
  find-final_from k view (r ∷ log) =
      find-final_from k (upsert same key version r view) log
      ∙ ap (λ o. newest_in k o log) (find-upsert k r view)

  pub newest_in-append :
      (k : K) (o : Option R) (xs ys : List R)
      → newest_in k o (xs ++ ys) ≡ newest_in k (newest_in k o xs) ys
  unfolding newest_in
  newest_in-append k o [] ys = refl
  newest_in-append k o (x ∷ xs) ys =
      newest_in-append k (if same k (key x) then some (newest version o x) else o) xs ys

  -- a view shows no key twice
  abbrev pub Once : List R → Type 0
  Once [] = Unit
  Once (x ∷ xs) = (find same key (key x) xs ≡ none) × Once xs

  newest_in-absent :
      (k : K) (o : Option R) (xs : List R) → find same key k xs ≡ none → newest_in k o xs ≡ o
  unfolding newest_in find
  newest_in-absent k o [] h = refl
  newest_in-absent k o (x ∷ xs) h = elim (Bool-cases (same k (key x))) [
    | inl e ↦ absurd (cc (rw e at h))
    | inr e ↦ rw e (newest_in-absent k o xs (rw e at h))
  ]

  -- a batch of rows of different keys
  pub newest_in-Once :
      (k : K) (o : Option R) (xs : List R)
      → Once xs
      → newest_in k o xs ≡ newest_of version o (find same key k xs)
  unfolding newest_in find
  newest_in-Once k o [] h = refl
  newest_in-Once k o (x ∷ xs) h = elim (Bool-cases (same k (key x))) [
    | inl e ↦ rw e (
        newest_in-absent k (some (newest version o x)) xs
          (ap (λ a. find same key a xs) ((same_iff k (key x)).0 e) ∙ h.0))
    | inr e ↦ rw e (newest_in-Once k o xs h.1)
  ]

  pub find-final :
      (k : K) (log : List R) → find same key k (final same key version log) ≡ newest_in k none log
  unfolding final find
  find-final k log = find-final_from k [] log

  -- What `final` shows after a batch of rows of different keys is inserted.
  pub find-final-append :
      (k : K) (log rows : List R)
      → Once rows
      → find same key k (final same key version (log ++ rows))
        ≡ newest_of version (find same key k (final same key version log)) (find same key k rows)
  find-final-append k log rows h =
      find-final k (log ++ rows)
      ∙ newest_in-append k none log rows
      ∙ newest_in-Once k _ rows h
      ∙ ap (λ o. newest_of version o (find same key k rows)) (sym (find-final k log))

  -- further inserts leave no lower version in a slot
  pub newest_in-rises :
      (k : K) (r : R) (log : List R)
      → (d : R) × (newest_in k (some r) log ≡ some d) × (version r ≤ version d)
  unfolding newest_in
  newest_in-rises k r [] = (r, refl, omega arith)
  newest_in-rises k r (x ∷ log) = elim (Bool-cases (same k (key x))) [
    | inl e ↦ rw e (
        let (d, f, le) = newest_in-rises k (newest version (some r) x) log in
        (d, f, ground (arith, le)))
    | inr e ↦ rw e (newest_in-rises k r log)
  ]

  pub final-rises :
      (k : K) (log more : List R) (r : R)
      → find same key k (final same key version log) ≡ some r
      → (d : R) × (find same key k (final same key version (log ++ more)) ≡ some d)
        × (version r ≤ version d)
  final-rises k log more r h =
      let (d, f, le) = newest_in-rises k r more in
      (
        d,
        find-final k (log ++ more)
            ∙ newest_in-append k none log more
            ∙ ap (λ o. newest_in k o more) (sym (find-final k log) ∙ h)
            ∙ f,
        le,
      )
