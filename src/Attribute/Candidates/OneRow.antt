-- ===== src/Attribute/Candidates/OneRow.antt =====
-- Exactly one row for each conversion, in the order in which the conversions first arrive, and with the
-- lowest candidate household.
use mathlib.Core.List.{append_assoc, append-nil}
use ctv_attribution_pipeline.Base.{
  ◌≡◌, ◌≤◌, refl, sym, ap, ◌∙◌, inl, inr, true, false, ◌||◌, ◌&&◌, Option, none, some, List, [],
  ◌∷◌, ◌++◌, map, arith, ◌==◌, ==_iff, if◌then◌else◌, mem, All, Distinct, Bool-cases, Option-cases,
}
use ctv_attribution_pipeline.Dict.{Dict, lookup, insert, keys, values}
use ctv_attribution_pipeline.Dict.Laws.{lookup-insert, mem-keys, keys-insert_old, keys-insert_new}
use ctv_attribution_pipeline.Model.{Ident, ResolvedConversion}
use ctv_attribution_pipeline.Attribute.Dedup.{same_id}
use ctv_attribution_pipeline.Attribute.Dedup.Laws.{firsts, has_key, FirstOnly, firsts-FirstOnly}
use ctv_attribution_pipeline.Attribute.Candidates.{
  takes_slot, by_conversion, one_row_per_conversion,
}

abbrev pub conversion_of : ResolvedConversion → Ident
conversion_of r = r.conversion_id

-- a row is filed under its own conversion
abbrev Filed : Dict ResolvedConversion → Type 0
Filed d = All (λ e. e.1.conversion_id ≡ e.0) d

insert-Filed :
    (r : ResolvedConversion) (d : Dict ResolvedConversion)
    → Filed d
    → Filed (insert r.conversion_id r d)
unfolding insert
insert-Filed r [] f = (refl, tt)
insert-Filed r (e ∷ d) f = ground (arith, insert-Filed r d f.1)

-- the dict after one row
abbrev file : ResolvedConversion → Dict ResolvedConversion → Dict ResolvedConversion
file r d = if takes_slot r (lookup r.conversion_id d) then insert r.conversion_id r d else d

file-Filed : (r : ResolvedConversion) (d : Dict ResolvedConversion) → Filed d → Filed (file r d)
file-Filed r d f = ground (arith, insert-Filed r d f)

by_conversion-Filed :
    (d : Dict ResolvedConversion) (rs : List ResolvedConversion)
    → Filed d
    → Filed (by_conversion d rs)
unfolding by_conversion
by_conversion-Filed d [] f = f
by_conversion-Filed d (r ∷ rs) f = by_conversion-Filed (file r d) rs (file-Filed r d f)

values-Filed : (d : Dict ResolvedConversion) → Filed d → map conversion_of (values d) ≡ keys d
values-Filed [] f = refl
values-Filed (e ∷ d) f = ground (arith, values-Filed d f.1)

keys-file :
    (r : ResolvedConversion) (d : Dict ResolvedConversion)
    → keys (file r d)
      ≡ (if mem r.conversion_id (keys d) then keys d else keys d ++ r.conversion_id ∷ [])
keys-file r d = elim (Option-cases (lookup r.conversion_id d)) [
  | inl e ↦ ground (arith, e, mem-keys r.conversion_id d, keys-insert_new r.conversion_id r d e)
  | inr (w, e) ↦
      ground (arith, e, mem-keys r.conversion_id d, keys-insert_old r.conversion_id r w d e)
]

-- the rows read so far and the dict name the same conversions
abbrev SameKeys : Dict ResolvedConversion → List ResolvedConversion → Type 0
SameKeys d before = (k : Ident) → mem k (keys d) ≡ has_key same_id conversion_of k before

has_key-append :
    (k : Ident) (xs : List ResolvedConversion) (r : ResolvedConversion)
    → has_key same_id conversion_of k (xs ++ r ∷ [])
      ≡ (has_key same_id conversion_of k xs || k == r.conversion_id)
has_key-append k [] r = ground arith
has_key-append k (x ∷ xs) r = ground (arith, has_key-append k xs r)

mem-append_one : (k j : Ident) (xs : List Ident) → mem k (xs ++ j ∷ []) ≡ (mem k xs || k == j)
mem-append_one k j [] = ground arith
mem-append_one k j (x ∷ xs) = ground (arith, mem-append_one k j xs)

SameKeys-file :
    (r : ResolvedConversion) (d : Dict ResolvedConversion) (before : List ResolvedConversion)
    → SameKeys d before
    → SameKeys (file r d) (before ++ r ∷ [])
SameKeys-file r d before h k =
    rw (keys-file r d)
      (ground (arith, h k, has_key-append k before r, mem-append_one k r.conversion_id (keys d)))

keys-by_conversion :
    (d : Dict ResolvedConversion) (before rs : List ResolvedConversion)
    → SameKeys d before
    → keys (by_conversion d rs)
      ≡ keys d ++ map conversion_of (firsts same_id conversion_of before rs)
unfolding by_conversion
keys-by_conversion d before [] h = unfold firsts in sym (append-nil (keys d))
keys-by_conversion d before (r ∷ rs) h =
    keys-by_conversion (file r d) (before ++ r ∷ []) rs (SameKeys-file r d before h)
    ∙ rw (keys-file r d) (elim (Bool-cases (mem r.conversion_id (keys d))) [
      | inl e ↦ unfold firsts in rw (e, sym (h r.conversion_id) ∙ e) refl
      | inr e ↦
          unfold firsts in
          rw (e, sym (h r.conversion_id) ∙ e) (append_assoc (keys d) (r.conversion_id ∷ []) _)
    ])

-- The rows are one for each conversion, in the order of first arrival.
pub one_row-conversions :
    (rows : List ResolvedConversion)
    → map conversion_of (one_row_per_conversion rows)
      ≡ map conversion_of (firsts same_id conversion_of [] rows)
unfolding one_row_per_conversion
one_row-conversions rows =
    values-Filed (by_conversion [] rows) (by_conversion-Filed [] rows tt)
    ∙ keys-by_conversion [] [] rows (λ k. refl)

Distinct-conversions :
    (rows : List ResolvedConversion)
    → FirstOnly same_id conversion_of rows
    → Distinct (map conversion_of rows)
Distinct-conversions [] h = tt
Distinct-conversions (r ∷ rows) h =
    (mem-map r.conversion_id rows h.0, Distinct-conversions rows h.1)
  where
    mem-map :
        (k : Ident) (rs : List ResolvedConversion)
        → has_key same_id conversion_of k rs ≡ false
        → mem k (map conversion_of rs) ≡ false
    mem-map k [] e = refl
    mem-map k (x ∷ xs) e = ground (arith, mem-map k xs)

-- No conversion has two rows among those kept.
pub one_row-Distinct :
    (rows : List ResolvedConversion) → Distinct (map conversion_of (one_row_per_conversion rows))
one_row-Distinct rows = rw (one_row-conversions rows) (
    Distinct-conversions (firsts same_id conversion_of [] rows)
      (firsts-FirstOnly same_id conversion_of ==_iff [] rows))

-- every row that is kept is a row of the input
module _ (P : ResolvedConversion → Type 0) where
  All-values-insert :
      (k : Ident) (r : ResolvedConversion) (d : Dict ResolvedConversion)
      → P r
      → All P (values d)
      → All P (values (insert k r d))
  unfolding insert
  All-values-insert k r [] p a = (p, tt)
  All-values-insert k r (e ∷ d) p a = elim (Bool-cases (k == e.0)) [
    | inl h ↦ rw h (p, a.1)
    | inr h ↦ rw h (a.0, All-values-insert k r d p a.1)
  ]

  All-by_conversion :
      (d : Dict ResolvedConversion) (rs : List ResolvedConversion)
      → All P (values d)
      → All P rs
      → All P (values (by_conversion d rs))
  unfolding by_conversion
  All-by_conversion d [] a h = a
  All-by_conversion d (r ∷ rs) a h = elim (Bool-cases (takes_slot r (lookup r.conversion_id d))) [
    | inl e ↦ rw e (
        All-by_conversion (insert r.conversion_id r d) rs
          (All-values-insert r.conversion_id r d h.0 a) h.1)
    | inr e ↦ rw e (All-by_conversion d rs a h.1)
  ]

  pub All-one_row :
      (rows : List ResolvedConversion) → All P rows → All P (one_row_per_conversion rows)
  unfolding one_row_per_conversion
  All-one_row rows h = All-by_conversion [] rows tt h

-- the lowest household among the rows of conversion `c`
abbrev lowest :
    Ident → Option ResolvedConversion → List ResolvedConversion → Option ResolvedConversion
lowest c o [] = o
lowest c o (r ∷ rs) = lowest c (if c == r.conversion_id && takes_slot r o then some r else o) rs

lookup-by_conversion :
    (c : Ident) (d : Dict ResolvedConversion) (rs : List ResolvedConversion)
    → lookup c (by_conversion d rs) ≡ lowest c (lookup c d) rs
unfolding by_conversion
lookup-by_conversion c d [] = refl
lookup-by_conversion c d (r ∷ rs) =
    lookup-by_conversion c (file r d) rs ∙ ap (λ o. lowest c o rs) (after c d r)
  where
    after :
        (c : Ident) (d : Dict ResolvedConversion) (r : ResolvedConversion)
        → lookup c (file r d)
          ≡ (if c == r.conversion_id && takes_slot r (lookup c d) then some r else lookup c d)
    after c d r = ground (arith, lookup-insert r.conversion_id c r d, same_slot c d r)
      where
        same_slot :
            (c : Ident) (d : Dict ResolvedConversion) (r : ResolvedConversion)
            → (c == r.conversion_id) ≡ true
            → lookup c d ≡ lookup r.conversion_id d
        same_slot c d r e = ap (λ k. lookup k d) ((==_iff c r.conversion_id).0 e)

abbrev pub Bounds : Ident → ResolvedConversion → List ResolvedConversion → Type 0
Bounds c r rows = All (λ x. x.conversion_id ≡ c → r.household_id ≤ x.household_id) rows

abbrev Within : Option ResolvedConversion → ResolvedConversion → Type 0
Within none r = Unit
Within (some cur) r = r.household_id ≤ cur.household_id

lowest-Bounds :
    (c : Ident) (o : Option ResolvedConversion) (rs : List ResolvedConversion)
    (r : ResolvedConversion)
    → lowest c o rs ≡ some r
    → Within o r × Bounds c r rs
lowest-Bounds c none [] r h = cc
lowest-Bounds c (some cur) [] r h = (ground arith, tt)
lowest-Bounds c none (x ∷ xs) r h = elim (Bool-cases (c == x.conversion_id)) [
  | inl e ↦ let (w, b) = lowest-Bounds c (some x) xs r (rw e at h) in (tt, (λ p. w, b))
  | inr e ↦
      let (w, b) = lowest-Bounds c none xs r (rw e at h) in (tt, (λ p. absurd (ground arith), b))
]
lowest-Bounds c (some cur) (x ∷ xs) r h =
    elim (Bool-cases (c == x.conversion_id && takes_slot x (some cur))) [
      | inl e ↦
          let (w, b) = lowest-Bounds c (some x) xs r (rw e at h) in (ground arith, (λ p. w, b))
      | inr e ↦
          let (w, b) = lowest-Bounds c (some cur) xs r (rw e at h) in (w, (λ p. ground arith, b))
    ]

-- No row of a conversion has a lower household than the row in the conversion's slot.
pub one_row-lowest :
    (rows : List ResolvedConversion) (c : Ident) (r : ResolvedConversion)
    → lookup c (by_conversion [] rows) ≡ some r
    → Bounds c r rows
one_row-lowest rows c r h =
    (lowest-Bounds c none rows r (sym (lookup-by_conversion c [] rows ∙ nothing c) ∙ h)).1
  where
    nothing : (c : Ident) → lowest c (lookup c []) rows ≡ lowest c none rows
    nothing c = unfold lookup in refl
