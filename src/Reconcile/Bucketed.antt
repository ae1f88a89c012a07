-- ===== src/Reconcile/Bucketed.antt =====
-- The bucketed read of one day's pass: whatever the hash of the table format, each candidate household is
-- shown its exposures in the range.
use ctv_attribution_pipeline.Base.{
  ℕ, ◌+◌, ◌*◌, ◌-◌, ◌≡◌, refl, sym, ap, ◌∙◌, ◌⊎◌, inl, inr, Bool, true, false, ◌&&◌, ◌||◌, some,
  List, [], ◌∷◌, arith, ◌==◌, ==_iff, if◌then◌else◌, any, mem, mem-append, Occurs, Occurs-any,
  Distinct, Bool-cases,
}
use ctv_attribution_pipeline.Sort.Sets.{sorted_set, mem-sorted_set}
use ctv_attribution_pipeline.Dict.{Dict, lookup, insert, get_or, append_at, keys}
use ctv_attribution_pipeline.Dict.Laws.{lookup-insert, get_or-append_at}
use ctv_attribution_pipeline.Model.{Ident, Instant, Exposure, ResolvedConversion}
use ctv_attribution_pipeline.Lake.{Lake, Day, day_ms, read_exposures_by_household}
use ctv_attribution_pipeline.Lake.Reads.{shown_in_range, read-shown, read-absent, read-Distinct}
use ctv_attribution_pipeline.Reconcile.{by_bucket, update, read_buckets, bucketed_exposures}

get_or-insert :
    (k j : ℕ) (v : List Exposure) (d : Dict (List Exposure))
    → get_or [] k (insert j v d) ≡ (if k == j then v else get_or [] k d)
unfolding get_or
get_or-insert k j v d = ground (arith, lookup-insert j k v d)

get_or-none : (k : ℕ) (d : Dict (List Exposure)) → mem k (keys d) ≡ false → get_or [] k d ≡ []
unfolding get_or lookup
get_or-none k [] h = refl
get_or-none k (e ∷ d) h = ground (arith, get_or-none k d, h)

get_or-cons :
    (k : ℕ) (e : ℕ × List Exposure) (d : Dict (List Exposure))
    → get_or [] k (e ∷ d) ≡ (if k == e.0 then e.1 else get_or [] k d)
unfolding get_or lookup
get_or-cons k e d = ground arith

-- `d.update(es)`, for a dict `es`
get_or-update :
    (k : ℕ) (d es : Dict (List Exposure))
    → Distinct (keys es)
    → get_or [] k (update d es) ≡ (if mem k (keys es) then get_or [] k es else get_or [] k d)
unfolding update
get_or-update k d [] h = refl
get_or-update k d (e ∷ es) h =
    get_or-update k (insert e.0 e.1 d) es h.1
    ∙ by_key (Bool-cases (k == e.0)) (Bool-cases (mem k (keys es)))
  where
    by_key :
        ((k == e.0) ≡ true) ⊎ ((k == e.0) ≡ false)
        → (mem k (keys es) ≡ true) ⊎ (mem k (keys es) ≡ false)
        → (if mem k (keys es) then get_or [] k es else get_or [] k (insert e.0 e.1 d))
          ≡ (if mem k (keys (e ∷ es)) then get_or [] k (e ∷ es) else get_or [] k d)
    by_key (inl q) (inl m) = absurd (cc (m, ap (λ a. mem a (keys es)) ((==_iff k e.0).0 q) ∙ h.0))
    by_key (inl q) (inr m) = ground (arith, q, m, get_or-insert k e.0 e.1 d, get_or-cons k e es)
    by_key (inr q) m = ground (arith, q, get_or-insert k e.0 e.1 d, get_or-cons k e es)

module _ (k : Ident) (lo hi : Instant) (lake : Lake) where
  abbrev own : List Exposure
  own = shown_in_range (some lo) (some hi) lake k

  abbrev Partial : Dict (List Exposure) → Type 0
  Partial d = (get_or [] k d ≡ own) ⊎ (get_or [] k d ≡ [])

  abbrev read : List Ident → Dict (List Exposure)
  read hhs = read_exposures_by_household hhs (some lo) (some hi) lake

  -- a read that names the household shows it its exposures
  update-named :
      (hhs : List Ident) (d : Dict (List Exposure))
      → mem k hhs ≡ true
      → Partial d
      → get_or [] k (update d (read hhs)) ≡ own
  update-named hhs d h w =
      get_or-update k d (read hhs) (read-Distinct (some lo) (some hi) lake hhs)
      ∙ by_entry (Bool-cases (mem k (keys (read hhs)))) w
    where
      shown : get_or [] k (read hhs) ≡ own
      shown = read-shown (some lo) (some hi) lake k hhs h

      by_entry :
          (mem k (keys (read hhs)) ≡ true) ⊎ (mem k (keys (read hhs)) ≡ false)
          → Partial d
          → (if mem k (keys (read hhs)) then get_or [] k (read hhs) else get_or [] k d) ≡ own
      by_entry (inl q) _ = rw q shown
      by_entry (inr q) (inl e) = rw q e
      by_entry (inr q) (inr e) = rw q (e ∙ sym (get_or-none k (read hhs) q) ∙ shown)

  -- another read changes nothing
  update-other :
      (hhs : List Ident) (d : Dict (List Exposure))
      → mem k hhs ≡ false
      → get_or [] k (update d (read hhs)) ≡ get_or [] k d
  update-other hhs d h =
      get_or-update k d (read hhs) (read-Distinct (some lo) (some hi) lake hhs)
      ∙ rw (read-absent (some lo) (some hi) lake k hhs h) refl

  -- the loop over the buckets keeps what was shown, and shows it in the bucket of the household
  buckets-keep :
      (buckets : Dict (List Ident)) (d : Dict (List Exposure)) (bs : List ℕ)
      → get_or [] k d ≡ own
      → get_or [] k (read_buckets buckets lo hi lake d bs) ≡ own
  unfolding read_buckets
  buckets-keep buckets d [] h = h
  buckets-keep buckets d (b ∷ bs) h =
      buckets-keep buckets (update d (read (get_or [] b buckets))) bs
        (by_name (Bool-cases (mem k (get_or [] b buckets))))
    where
      by_name :
          (mem k (get_or [] b buckets) ≡ true) ⊎ (mem k (get_or [] b buckets) ≡ false)
          → get_or [] k (update d (read (get_or [] b buckets))) ≡ own
      by_name (inl q) = update-named (get_or [] b buckets) d q (inl h)
      by_name (inr q) = update-other (get_or [] b buckets) d q ∙ h

  buckets-show :
      (buckets : Dict (List Ident)) (d : Dict (List Exposure)) (bs : List ℕ) (b : ℕ)
      → mem b bs ≡ true
      → mem k (get_or [] b buckets) ≡ true
      → Partial d
      → get_or [] k (read_buckets buckets lo hi lake d bs) ≡ own
  unfolding read_buckets
  buckets-show buckets d [] b o h w = absurd (cc o)
  buckets-show buckets d (a ∷ bs) b o h w =
      let named = get_or [] a buckets in
      elim (Bool-cases (mem k named)) [
        | inl q ↦ buckets-keep buckets (update d (read named)) bs (update-named named d q w)
        | inr q ↦
            buckets-show buckets (update d (read named)) bs b (later (Bool-cases (b == a)) q) h
              (still (update d (read named)) (update-other named d q) w)
      ]
    where
      later :
          ((b == a) ≡ true) ⊎ ((b == a) ≡ false)
          → mem k (get_or [] a buckets) ≡ false
          → mem b bs ≡ true
      later (inl e) q =
          absurd (cc (q, ap (λ j. mem k (get_or [] j buckets)) (sym ((==_iff b a).0 e)) ∙ h))
      later (inr e) q = rw e at o

      still : (d' : Dict (List Exposure)) → get_or [] k d' ≡ get_or [] k d → Partial d → Partial d'
      still d' e (inl f) = inl (e ∙ f)
      still d' e (inr f) = inr (e ∙ f)

both_same : (a b : ℕ) → (a == a && b == b) ≡ true
both_same a b = rw ((==_iff a a).1 refl) ((==_iff b b).1 refl)

or_true : (b : Bool) → (b || true) ≡ true
or_true true = refl
or_true false = refl

key_of_member :
    (k : Ident) (j : ℕ) (d : Dict (List Ident))
    → mem k (get_or [] j d) ≡ true
    → mem j (keys d) ≡ true
unfolding get_or lookup
key_of_member k j [] h = absurd (cc h)
key_of_member k j (e ∷ d) h = ground (arith, key_of_member k j d, h)

module _ (bucket_of : Ident → ℕ) where
  mem-by_bucket :
      (k : Ident) (j : ℕ) (d : Dict (List Ident)) (rs : List ResolvedConversion)
      → mem k (get_or [] j (by_bucket bucket_of d rs)) ≡ (
          mem k (get_or [] j d)
          || any
              (λ (r : ResolvedConversion). j == bucket_of r.household_id && k == r.household_id)
              rs)
  unfolding by_bucket
  mem-by_bucket k j d [] = ground arith
  mem-by_bucket k j d (r ∷ rs) =
      let b = bucket_of r.household_id in
      mem-by_bucket k j (append_at b r.household_id d) rs
      ∙ ground (
        arith,
        get_or-append_at b j r.household_id d,
        mem-append k (get_or [] b d) (r.household_id ∷ []),
        (==_iff j b).0,
      )

  -- a candidate's household is in the bucket that its hash names
  own_bucket :
      (r : ResolvedConversion) (rs : List ResolvedConversion)
      → Occurs r rs
      → mem r.household_id (get_or [] (bucket_of r.household_id) (by_bucket bucket_of [] rs)) ≡ true
  own_bucket r rs o =
      mem-by_bucket r.household_id (bucket_of r.household_id) [] rs
      ∙ ap (λ b. mem r.household_id (get_or [] (bucket_of r.household_id) []) || b)
          (Occurs-any
            (λ (x : ResolvedConversion).
              bucket_of r.household_id == bucket_of x.household_id
              && r.household_id == x.household_id)
            r rs o (both_same (bucket_of r.household_id) r.household_id))
      ∙ or_true _

  -- Whatever the hash, the bucketed read shows each candidate household its exposures in the range.
  pub bucketed_exposures-shown :
      (day : Day) (window : ℕ) (expanded : List ResolvedConversion) (lake : Lake)
      (r : ResolvedConversion)
      → Occurs r expanded
      → get_or [] r.household_id (bucketed_exposures bucket_of day window expanded lake)
        ≡ shown_in_range
            (some (day * day_ms - window))
            (some (day * day_ms + day_ms))
            lake
            r.household_id
  unfolding bucketed_exposures get_or
  bucketed_exposures-shown day window expanded lake r o =
      let buckets = by_bucket bucket_of [] expanded in
      let b = bucket_of r.household_id in
      let named = own_bucket r expanded o in
      buckets-show r.household_id (day * day_ms - window) (day * day_ms + day_ms) lake buckets []
        (sorted_set (keys buckets)) b
        (mem-sorted_set b (keys buckets) ∙ key_of_member r.household_id b buckets named) named
        (inr refl)
