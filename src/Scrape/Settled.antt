-- ===== src/Scrape/Settled.antt =====
-- What a settled scrape has seen.
use ctv_attribution_pipeline.Base.{
  ℕ, ◌+◌, ◌≡◌, refl, sym, ap, true, ◌&&◌, Option, some, List, [], ◌∷◌, ◌++◌, ◌==◌, ltb, Result, ok,
  arith, Bool-cases, inl, inr,
}
use ctv_attribution_pipeline.Dict.{Dict}
use ctv_attribution_pipeline.Scrape.{Sample, same_counts, Settling, Reading, settle_from, settle}

-- the counts read last, after some readings
abbrev last_counts : Dict (ℕ × ℕ) → List Reading → Dict (ℕ × ℕ)
last_counts previous [] = previous
last_counts previous (r ∷ rs) = last_counts r.sample.counts rs

-- Two reads in a row with the same counts, the second with no merge running and inside the cap: what
-- is reported is that second read, and `front` is what was read before it.
pub record Settled (deadline : ℕ) (previous : Dict (ℕ × ℕ)) (readings : List Reading) (s : Settling)
    : Type 0 where
  pub front : List Reading
  pub seen : Reading
  pub rest : List Reading
  pub splits : readings ≡ front ++ seen ∷ rest
  pub in_time : ltb seen.before deadline ≡ true
  pub counts_seen : s.counts ≡ seen.sample.counts
  pub repeated : same_counts seen.sample.counts (last_counts previous front) ≡ true
  pub no_merge : seen.sample.backlog ≡ 0

later :
    (deadline : ℕ) (previous : Dict (ℕ × ℕ)) (r : Reading) (rs : List Reading) (s : Settling)
    → Settled deadline r.sample.counts rs s
    → Settled deadline previous (r ∷ rs) s
later deadline previous r rs s h = record {
  front = r ∷ h.front;
  seen = h.seen;
  rest = h.rest;
  splits = ap (λ l. r ∷ l) h.splits;
  in_time = h.in_time;
  counts_seen = h.counts_seen;
  repeated = h.repeated;
  no_merge = h.no_merge;
}

some-ok_eq : {a b : Settling} → Path (Option (Result Settling)) (some (ok a)) (some (ok b)) → a ≡ b
some-ok_eq h = cc

settle_from-Settled :
    (deadline start : ℕ) (previous : Dict (ℕ × ℕ)) (readings : List Reading) (s : Settling)
    → settle_from deadline start previous readings ≡ some (ok s)
    → Settled deadline previous readings s
unfolding settle_from
settle_from-Settled deadline start previous [] s h = absurd cc
settle_from-Settled deadline start previous (r ∷ rs) s h =
    elim (Bool-cases (ltb r.before deadline)) [
      | inr e ↦ absurd (cc (rw e at h))
      | inl e ↦ elim (Bool-cases (same_counts r.sample.counts previous && r.sample.backlog == 0)) [
        | inr k ↦
            later deadline previous r rs s
              (settle_from-Settled deadline start r.sample.counts rs s (rw (e, k) at h))
        | inl k ↦ record {
          front = [];
          seen = r;
          rest = rs;
          splits = refl;
          in_time = e;
          counts_seen = sym (ap (λ (x : Settling). x.counts) (some-ok_eq (rw (e, k) at h)));
          repeated = ground (arith, k);
          no_merge = ground (arith, k);
        }
      ]
    ]

-- A scrape reports only a state that stood still: two reads in a row with the same counts, the second
-- with no merge running and begun before the cap.
pub settle-Settled :
    (timeout now start : ℕ) (first : Sample) (readings : List Reading) (s : Settling)
    → settle timeout now start first readings ≡ some (ok s)
    → Settled (now + timeout) first.counts readings s
unfolding settle
settle-Settled timeout now start first readings s h =
    settle_from-Settled (now + timeout) start first.counts readings s h
