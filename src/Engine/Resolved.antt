-- ===== src/Engine/Resolved.antt =====
-- The streams that the resolver makes: every row is of one of the conversions, and the candidate set of a
-- conversion is the set of households that it was fanned out to.
use mathlib.Core.Path.{subst}
use ctv_attribution_pipeline.Base.{
  ◌≡◌, refl, sym, ap, ◌∙◌, ◌⊎◌, inl, inr, Bool, true, false, ◌&&◌, ◌||◌, Option, none, some, List,
  [], ◌∷◌, ◌++◌, map, arith, ◌==◌, ==_iff, ltb, length, any, any-Occurs, Occurs, Occurs-any, mem,
  All, All-map, All-append, Bool-cases,
}
use ctv_attribution_pipeline.Sort.Sets.{Ascending, Ascending-eq}
use ctv_attribution_pipeline.Dict.{Dict, lookup, get_or}
use ctv_attribution_pipeline.Model.{Ident, Household, Conversion, ResolvedConversion}
use ctv_attribution_pipeline.Resolve.{GraphIndex, from_households, resolve_one, resolve_stream}
use ctv_attribution_pipeline.Resolve.Index.{owners_exact}
use ctv_attribution_pipeline.Resolve.Fanout.{found_or, candidates_of, Fanned, resolve_one-fanout}
use ctv_attribution_pipeline.Attribute.Candidates.{candidate_households_by_conversion}
use ctv_attribution_pipeline.Attribute.Candidates.Sets.{fans_out, candidate_households_exact}

module _ (index : GraphIndex) where
  -- conversion `conv` is fanned out to household `h` under the identifier `c`
  abbrev fanned_to : Ident → Ident → Conversion → Bool
  fanned_to c h conv =
      ltb 1 (length (candidates_of conv index))
      && (c == conv.conversion_id && mem h (candidates_of conv index))

  any-fans_out :
      (conv : Conversion) (hids : List Ident) (c h : Ident) (rows : List ResolvedConversion)
      → All (Fanned conv hids) rows
      → any (fans_out c h) rows ≡ (
          ltb 1 (length hids)
          && (c == conv.conversion_id
              && mem h (map (λ (r : ResolvedConversion). r.household_id) rows)))
  unfolding Fanned
  any-fans_out conv hids c h [] a = ground arith
  any-fans_out conv hids c h (r ∷ rows) a = ground (
    arith,
    any-fans_out conv hids c h rows a.1,
    ap (λ (x : Conversion). x.conversion_id) a.0.0,
    a.0.1,
  )

  any-append :
      {A : Type 0} (p : A → Bool) (xs ys : List A) → any p (xs ++ ys) ≡ (any p xs || any p ys)
  any-append p [] ys = refl
  any-append p (x ∷ xs) ys = ground (arith, any-append p xs ys)

  -- the fan-outs of a stream
  any-stream :
      (c h : Ident) (convs : List Conversion)
      → any (fans_out c h) (resolve_stream convs index) ≡ any (fanned_to c h) convs
  unfolding resolve_stream
  any-stream c h [] = refl
  any-stream c h (conv ∷ convs) =
      let (houses, fanned) = resolve_one-fanout conv index in
      any-append (fans_out c h) (resolve_one conv index) (resolve_stream convs index)
      ∙ ap (λ b. b || any (fans_out c h) (resolve_stream convs index))
          (any-fans_out conv (candidates_of conv index) c h (resolve_one conv index) fanned
            ∙ ap
                (λ hs.
                  ltb 1 (length (candidates_of conv index))
                  && (c == conv.conversion_id && mem h hs))
                houses)
      ∙ ap (λ b. fanned_to c h conv || b) (any-stream c h convs)

  -- a row of the conversion, at one of its households
  pub record RowOf (convs : List Conversion) (r : ResolvedConversion) : Type 0 where
    pub conv : Conversion
    pub occurs : Occurs conv convs
    pub same : r.conversion ≡ conv
    pub counted : r.candidate_count ≡ length (candidates_of conv index)
    pub placed : mem r.household_id (candidates_of conv index) ≡ true

  own_households :
      (rows : List ResolvedConversion)
      → All
          (λ (r : ResolvedConversion).
            mem r.household_id (map (λ (x : ResolvedConversion). x.household_id) rows) ≡ true)
          rows
  own_households [] = tt
  own_households (r ∷ rows) = (
    ground arith,
    All-map
        (λ (x : ResolvedConversion).
          mem x.household_id (map (λ (y : ResolvedConversion). y.household_id) rows) ≡ true)
        (λ (x : ResolvedConversion).
          mem x.household_id (map (λ (y : ResolvedConversion). y.household_id) (r ∷ rows)) ≡ true)
        (λ x h. ground (arith, h)) rows (own_households rows),
  )

  rows-RowOf :
      (convs : List Conversion) (conv : Conversion) (rows : List ResolvedConversion)
      → Occurs conv convs
      → All (Fanned conv (candidates_of conv index)) rows
      → All (λ (r : ResolvedConversion). mem r.household_id (candidates_of conv index) ≡ true) rows
      → All (RowOf convs) rows
  unfolding Fanned
  rows-RowOf convs conv [] o f p = tt
  rows-RowOf convs conv (r ∷ rows) o f p = (
    record { conv = conv; occurs = o; same = f.0.0; counted = f.0.1; placed = p.0 },
    rows-RowOf convs conv rows o f.1 p.1,
  )

  RowOf-further :
      (c : Conversion) (convs : List Conversion) (r : ResolvedConversion)
      → RowOf convs r
      → RowOf (c ∷ convs) r
  RowOf-further c convs r w = record {
    conv = w.conv;
    occurs = inr w.occurs;
    same = w.same;
    counted = w.counted;
    placed = w.placed;
  }

  pub stream-RowOf : (convs : List Conversion) → All (RowOf convs) (resolve_stream convs index)
  unfolding resolve_stream
  stream-RowOf [] = tt
  stream-RowOf (conv ∷ convs) =
      let (houses, fanned) = resolve_one-fanout conv index in
      All-append (RowOf (conv ∷ convs)) (resolve_one conv index) (resolve_stream convs index)
        (rows-RowOf (conv ∷ convs) conv (resolve_one conv index) (inl refl) fanned (
          subst
            (λ hs.
              All (λ (r : ResolvedConversion). mem r.household_id hs ≡ true)
                (resolve_one conv index))
            houses (own_households (resolve_one conv index))))
        (All-map (RowOf convs) (RowOf (conv ∷ convs)) (RowOf-further conv convs)
          (resolve_stream convs index) (stream-RowOf convs))

-- One identifier names one conversion; a re-send is the same conversion again.
abbrev pub IsConsistent : List Conversion → Type 0
IsConsistent convs =
    (a b : Conversion) → Occurs a convs → Occurs b convs → a.conversion_id ≡ b.conversion_id → a ≡ b

found-Ascending : (os : List Ident) (o : Option Ident) → Ascending os → Ascending (found_or os o)
found-Ascending os (some h) a = (tt, tt)
found-Ascending os none a = a

pub candidates-Ascending :
    (households : List Household) (conv : Conversion)
    → Ascending (candidates_of conv (from_households households))
candidates-Ascending households conv =
    found-Ascending (get_or [] conv.ip (from_households households).owners_of)
      (lookup conv.device_id (from_households households).device_of)
      (owners_exact households 0 conv.ip).0

-- the households of a conversion
abbrev pub fan : List Household → Conversion → List Ident
fan households conv = candidates_of conv (from_households households)

both_true : (a b : Bool) → (a && b) ≡ true → (a ≡ true) × (b ≡ true)
both_true a b h = ground arith

module _ (households : List Household) (convs : List Conversion)
    (consistent : IsConsistent convs) where
  abbrev pub graph : GraphIndex
  graph = from_households households

  abbrev pub sets : Dict (List Ident)
  sets = candidate_households_by_conversion (resolve_stream convs graph)

  fanned_to-exact :
      (conv : Conversion) (h : Ident)
      → Occurs conv convs
      → ltb 1 (length (candidates_of conv graph)) ≡ true
      → any (fanned_to graph conv.conversion_id h) convs ≡ mem h (candidates_of conv graph)
  fanned_to-exact conv h o several =
      by_any (Bool-cases (any (fanned_to graph conv.conversion_id h) convs))
        (Bool-cases (mem h (candidates_of conv graph)))
    where
      named : (conv.conversion_id == conv.conversion_id) ≡ true
      named = (==_iff conv.conversion_id conv.conversion_id).1 refl

      by_any :
          (any (fanned_to graph conv.conversion_id h) convs ≡ true)
            ⊎ (any (fanned_to graph conv.conversion_id h) convs ≡ false)
          → (mem h (candidates_of conv graph) ≡ true) ⊎ (mem h (candidates_of conv graph) ≡ false)
          → any (fanned_to graph conv.conversion_id h) convs ≡ mem h (candidates_of conv graph)
      by_any (inl e) _ =
          let (other, o', f) = any-Occurs (fanned_to graph conv.conversion_id h) convs e in
          let (_, f') = both_true _ _ f in
          let (name, inside) = both_true _ _ f' in
          let same =
            consistent conv other o o' ((==_iff conv.conversion_id other.conversion_id).0 name) in
          e ∙ sym (ap (λ c. mem h (candidates_of c graph)) same ∙ inside)
      by_any (inr e) (inl q) = absurd (
          cc (
            e,
            Occurs-any (fanned_to graph conv.conversion_id h) conv convs o
                (ground (arith, several, named, q)),
          ))
      by_any (inr e) (inr q) = e ∙ sym q

  -- the candidate set of an uncertain conversion
  pub candidate_set :
      (conv : Conversion)
      → Occurs conv convs
      → ltb 1 (length (candidates_of conv graph)) ≡ true
      → get_or [] conv.conversion_id sets ≡ candidates_of conv graph
  candidate_set conv o several =
      Ascending-eq (get_or [] conv.conversion_id sets) (candidates_of conv graph)
        (candidate_households_exact (resolve_stream convs graph) conv.conversion_id 0).0
        (candidates-Ascending households conv)
        (λ h.
          (candidate_households_exact (resolve_stream convs graph) conv.conversion_id h).1
          ∙ any-stream graph conv.conversion_id h convs
          ∙ fanned_to-exact conv h o several)
