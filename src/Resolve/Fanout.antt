-- ===== src/Resolve/Fanout.antt =====
-- What `resolve_one` emits, and that its counters account for it.
use ctv_attribution_pipeline.Base.{
  ℕ, ◌≡◌, ◌≤◌, refl, ap, ◌+◌, Bool, Option, none, some, List, [], ◌∷◌, ◌++◌, map, arith, ltb,
  if◌then◌else◌, length, length-append, All,
}
use ctv_attribution_pipeline.Dict.{lookup, get_or}
use ctv_attribution_pipeline.Model.{Ident, Conversion, ResolvedConversion, ip_fallback}
use ctv_attribution_pipeline.Resolve.{
  GraphIndex, resolved_as, resolve_by_owners, resolve_found, resolve_one, resolve_stream,
  ResolveMetrics, count_emitted, observe, resolve_loop,
}

abbrev pub found_or : List Ident → Option Ident → List Ident
found_or owners (some hid) = hid ∷ []
found_or owners none = owners

-- the households that a conversion may belong to: that of its device, or the owners of its address
abbrev pub candidates_of : Conversion → GraphIndex → List Ident
candidates_of conv index =
    found_or (get_or [] conv.ip index.owners_of) (lookup conv.device_id index.device_of)

unfoldable pub Fanned : Conversion → List Ident → ResolvedConversion → Type 0
Fanned conv hids r =
    (r.conversion ≡ conv) × (r.candidate_count ≡ length hids) × (r.ambiguous ≡ ltb 1 (length hids))

All-map-Fanned :
    (conv : Conversion) (b : Bool) (n : ℕ) (hids xs : List Ident)
    → n ≡ length hids
    → b ≡ ltb 1 (length hids)
    → All (Fanned conv hids) (map (λ o. resolved_as conv o ip_fallback b n) xs)
unfolding Fanned resolved_as
All-map-Fanned conv b n hids [] e f = tt
All-map-Fanned conv b n hids (x ∷ xs) e f = ((refl, e, f), All-map-Fanned conv b n hids xs e f)

households-map :
    (conv : Conversion) (b : Bool) (n : ℕ) (xs : List Ident)
    → map (λ r. r.household_id) (map (λ o. resolved_as conv o ip_fallback b n) xs) ≡ xs
unfolding resolved_as
households-map conv b n [] = refl
households-map conv b n (x ∷ xs) = ap (◌∷◌ x) (households-map conv b n xs)

fanout_at :
    (conv : Conversion) (os : List Ident) (o : Option Ident)
    → (map (λ r. r.household_id) (resolve_found conv os o) ≡ found_or os o)
      × All (Fanned conv (found_or os o)) (resolve_found conv os o)
unfolding resolve_found resolve_by_owners resolved_as Fanned
fanout_at conv os (some hid) = (refl, ((refl, refl, refl), tt))
fanout_at conv [] none = (refl, tt)
fanout_at conv (o ∷ os) none = (
  households-map conv (ltb 1 (length (o ∷ os))) (length (o ∷ os)) (o ∷ os),
  All-map-Fanned conv (ltb 1 (length (o ∷ os))) (length (o ∷ os)) (o ∷ os) (o ∷ os) refl refl,
)

-- One record for each candidate household, in their order, all of the one conversion, with the number
-- of candidates and the flag for more than one; the device graph goes before the address.
pub resolve_one-fanout :
    (conv : Conversion) (index : GraphIndex)
    → (map (λ r. r.household_id) (resolve_one conv index) ≡ candidates_of conv index)
      × All (Fanned conv (candidates_of conv index)) (resolve_one conv index)
unfolding resolve_one
resolve_one-fanout conv index =
    fanout_at conv (get_or [] conv.ip index.owners_of) (lookup conv.device_id index.device_of)

-- Every consumed conversion is counted resolved or unresolved, and every record by its resolution.
pub record IsBalanced (m : ResolveMetrics) (emitted : ℕ) : Type 0 where
  pub consumed : m.consumed ≡ m.resolved_total + m.unresolved
  pub emitted_all : m.emitted_device + m.emitted_ip ≡ emitted
  pub ambiguous_le : m.ambiguous_total ≤ m.resolved_total
  pub resolved_le : m.resolved_total ≤ emitted

count_emitted_lem :
    (rs : List ResolvedConversion) (m : ResolveMetrics)
    → let m' = count_emitted rs m in
      (m'.emitted_device + m'.emitted_ip ≡ m.emitted_device + m.emitted_ip + length rs)
      × (m'.consumed ≡ m.consumed)
      × (m'.resolved_total ≡ m.resolved_total)
      × (m'.unresolved ≡ m.unresolved)
      × (m'.ambiguous_total ≡ m.ambiguous_total)
unfolding count_emitted
count_emitted_lem [] m = (omega arith, refl, refl, refl, refl)
count_emitted_lem (r ∷ rs) m = ground (
  arith,
  count_emitted_lem rs (record m { emitted_device = m.emitted_device + 1 }),
  count_emitted_lem rs (record m { emitted_ip = m.emitted_ip + 1 }),
)

observe-IsBalanced :
    (rows : List ResolvedConversion) (m : ResolveMetrics) (n : ℕ)
    → IsBalanced m n
    → IsBalanced (observe rows m) (n + length rows)
unfolding observe
observe-IsBalanced [] m n h = ground arith
observe-IsBalanced (r ∷ rs) m n h = ground (
  arith,
  count_emitted_lem (r ∷ rs) (record m {
    consumed = m.consumed + 1;
    resolved_total = m.resolved_total + 1;
    ambiguous_total = if r.ambiguous then m.ambiguous_total + 1 else m.ambiguous_total;
  }),
)

-- Where the counters balance before a run of the resolve step, they balance after it: what was consumed
-- is resolved or unresolved, the emitted records are those of the two resolutions, and no more
-- conversions are ambiguous than resolved.
pub resolve_loop-IsBalanced :
    (convs : List Conversion) (index : GraphIndex) (m : ResolveMetrics) (n : ℕ)
    → IsBalanced m n
    → IsBalanced (resolve_loop convs index m).1 (n + length (resolve_loop convs index m).0)
unfolding resolve_loop
resolve_loop-IsBalanced [] index m n h = ground arith
resolve_loop-IsBalanced (c ∷ cs) index m n h =
    let rows = resolve_one c index in
    let m' = observe rows m in
    ground (
      arith,
      resolve_loop-IsBalanced cs index m' (n + length rows) (observe-IsBalanced rows m n h),
      length-append rows (resolve_loop cs index m').0,
    )

-- The records are those of the stateless map over the stream.
pub resolve_loop-eq-stream :
    (convs : List Conversion) (index : GraphIndex) (m : ResolveMetrics)
    → (resolve_loop convs index m).0 ≡ resolve_stream convs index
unfolding resolve_loop resolve_stream
resolve_loop-eq-stream [] index m = refl
resolve_loop-eq-stream (c ∷ cs) index m =
    ap (λ l. resolve_one c index ++ l)
      (resolve_loop-eq-stream cs index (observe (resolve_one c index) m))
