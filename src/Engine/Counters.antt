-- ===== src/Engine/Counters.antt =====
-- The counters of streaming/metrics.py after a run of the engine.
use ctv_attribution_pipeline.Base.{
  ℕ, ◌+◌, ◌≡◌, ◌≤◌, refl, ◌∙◌, List, [], ◌∷◌, ◌++◌, map, arith, length, length-append, ok,
  >>=-eq-ok, ok-eq, Bool-cases, inl, inr,
}
use mathlib.Core.Path.{subst}
use mathlib.Core.List.{Permᴰ}
use ctv_attribution_pipeline.Sort.Stable.{sort_by-perm, by_key}
use ctv_attribution_pipeline.Dict.{Dict, values}
use ctv_attribution_pipeline.Model.{Ident, Exposure, ResolvedConversion, AttributedConversion}
use ctv_attribution_pipeline.Attribute.Candidates.{
  one_row_per_conversion, candidate_households_by_conversion,
}
use ctv_attribution_pipeline.Attribute.LastTouch.{Candidate}
use ctv_attribution_pipeline.Attribute.Streaming.{Event, StreamState, attribute_household_streaming}
use ctv_attribution_pipeline.Attribute.Oracle.{hot_window, sort_rows, conversion_id_of}
use ctv_attribution_pipeline.Engine.{
  EngineMetrics, observe, observe_state, observe_rows, bucket_exposures, bucket_resolved,
  run_households, run_attribution,
}

-- What `n` more rows do to the counters: each is counted as processed and as attributed or not, and
-- only rows that are not attributed are deferred.
pub record Counted (m m' : EngineMetrics) (n : ℕ) : Type 0 where
  pub processed_by : m'.processed ≡ m.processed + n
  pub split : m'.attributed + m'.unattributed ≡ m.attributed + m.unattributed + n
  pub deferred : m'.ambiguous_deferred + m.unattributed ≤ m.ambiguous_deferred + m'.unattributed

observe-Counted : (row : AttributedConversion) (m : EngineMetrics) → Counted m (observe row m) 1
unfolding observe
observe-Counted row m = elim (Bool-cases row.attributed) [
  | inl e ↦
      rw e (record { processed_by = omega arith; split = omega arith; deferred = omega arith })
  | inr e ↦
      rw e (record { processed_by = omega arith; split = omega arith; deferred = ground arith })
]

Counted-trans :
    (m m' m'' : EngineMetrics) (a b : ℕ) → Counted m m' a → Counted m' m'' b → Counted m m'' (a + b)
Counted-trans m m' m'' a b h k = record {
  processed_by = omega (arith, h.processed_by, k.processed_by);
  split = omega (arith, h.split, k.split);
  deferred = omega (arith, h.deferred, k.deferred);
}

observe_state-Counted : (s : StreamState) (m : EngineMetrics) → Counted m (observe_state s m) 0
unfolding observe_state
observe_state-Counted s m = record {
  processed_by = omega arith;
  split = omega arith;
  deferred = omega arith;
}

observe_rows-Counted :
    (cs : List Candidate) (m : EngineMetrics) → Counted m (observe_rows cs m) (length cs)
unfolding observe_rows
observe_rows-Counted [] m = record {
  processed_by = omega arith;
  split = omega arith;
  deferred = omega arith;
}
observe_rows-Counted (c ∷ cs) m =
    let h =
      Counted-trans m (observe c.row m) _ 1 (length cs) (observe-Counted c.row m)
        (observe_rows-Counted cs (observe c.row m)) in
    record {
      processed_by = omega (arith, h.processed_by);
      split = omega (arith, h.split);
      deferred = h.deferred;
    }

length-map_row : (cs : List Candidate) → length (map (λ (c : Candidate). c.row) cs) ≡ length cs
length-map_row [] = refl
length-map_row (c ∷ cs) = omega (arith, length-map_row cs)

-- a run's rows and counters
abbrev Out : Type 0
Out = List AttributedConversion × EngineMetrics

abbrev CountedOut : EngineMetrics → Out → Type 0
CountedOut m out = Counted m out.1 (length out.0)

-- one household's pass, then the others
then-Counted :
    (state : StreamState) (cs : List Candidate) (m : EngineMetrics) (out : Out)
    → CountedOut (observe_rows cs (observe_state state m)) out
    → CountedOut m (map (λ (c : Candidate). c.row) cs ++ out.0, out.1)
then-Counted state cs m out h =
    let a = observe_state-Counted state m in
    let b = observe_rows-Counted cs (observe_state state m) in
    let n = length-append (map (λ (c : Candidate). c.row) cs) out.0 in
    record {
      processed_by =
          omega (arith, a.processed_by, b.processed_by, h.processed_by, n, length-map_row cs);
      split = omega (arith, a.split, b.split, h.split, n, length-map_row cs);
      deferred = omega (arith, a.deferred, b.deferred, h.deferred);
    }

run_households-Counted :
    (lateness : ℕ) (cands : Dict (List Ident)) (groups : List (List Event)) (m : EngineMetrics)
    (out : Out)
    → run_households lateness cands groups m ≡ ok out
    → CountedOut m out
unfolding run_households
run_households-Counted lateness cands [] m out h =
    subst (CountedOut m) (ok-eq h)
      (record { processed_by = omega arith; split = omega arith; deferred = omega arith })
run_households-Counted lateness cands (events ∷ rest) m out h =
    let (result, _, h') =
      >>=-eq-ok (attribute_household_streaming hot_window cands events lateness) _ h in
    let m2 = observe_rows result.candidates (observe_state result.state m) in
    let (out', ran, made) = >>=-eq-ok (run_households lateness cands rest m2) _ h' in
    subst (CountedOut m) (ok-eq made) (
      then-Counted result.state result.candidates m out'
        (run_households-Counted lateness cands rest m2 out' ran))

length-perm : (xs ys : List AttributedConversion) → Permᴰ xs ys → length xs ≡ length ys
length-perm _ _ Permᴰ.nil = refl
length-perm _ _ (Permᴰ.cons e p) = omega (arith, length-perm _ _ p)
length-perm _ _ (Permᴰ.swap e f) = omega arith
length-perm _ _ (Permᴰ.trans p q) = length-perm _ _ p ∙ length-perm _ _ q

-- After a run each returned row is counted once as processed and once as attributed or unattributed,
-- and no more rows are counted as deferred than as unattributed.
pub run_attribution-Counted :
    (exposures : List Exposure) (resolved : List ResolvedConversion) (lateness : ℕ)
    (m m' : EngineMetrics) (rows : List AttributedConversion)
    → run_attribution exposures resolved lateness m ≡ ok (rows, m')
    → Counted m m' (length rows)
unfolding run_attribution sort_rows
run_attribution-Counted exposures resolved lateness m m' rows h =
    let cands = candidate_households_by_conversion resolved in
    let events =
      bucket_resolved (bucket_exposures [] exposures) (one_row_per_conversion resolved) in
    let (out, ran, made) = >>=-eq-ok (run_households lateness cands (values events) m) _ h in
    let counted = run_households-Counted lateness cands (values events) m out ran in
    let n = length-perm _ _ (sort_by-perm (by_key conversion_id_of) out.0) in
    subst (CountedOut m) (ok-eq made) (record {
      processed_by = omega (arith, counted.processed_by, n);
      split = omega (arith, counted.split, n);
      deferred = counted.deferred;
    })
