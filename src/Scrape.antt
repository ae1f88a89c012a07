-- ===== src/Scrape.antt =====
-- observability/ch_scrape.py: the wait for the storage state to settle and the values that the scrape
-- reports. What ClickHouse answers and what the clock shows, read after read, are lists, parameters;
-- a run that uses them up has no result yet.
pub mod Settled
use ctv_attribution_pipeline.Base.{
  ℕ, ◌+◌, ◌-◌, Bool, true, false, ◌&&◌, Option, none, some, List, [], ◌∷◌, map, ◌==◌, ltb,
  if◌then◌else◌, Result, ok, err, unsettled,
}
use ctv_attribution_pipeline.Dict.{Dict, lookup, get_or}

-- `_sample`: the parts and the unmerged parts of each table, and the backlog of merges
pub record Sample : Type 0 where
  pub counts : Dict (ℕ × ℕ)
  pub backlog : ℕ

-- the equality of two dicts: the same keys with the same counts
abbrev holds_all : Dict (ℕ × ℕ) → Dict (ℕ × ℕ) → Bool
holds_all [] d = true
holds_all (e ∷ es) d =
    (elim (lookup e.0 d) [ none ↦ false | some c ↦ c.0 == e.1.0 && c.1 == e.1.1 ]) && holds_all es d

abbrev pub same_counts : Dict (ℕ × ℕ) → Dict (ℕ × ℕ) → Bool
same_counts a b = holds_all a b && holds_all b a

pub record Settling : Type 0 where
  pub counts : Dict (ℕ × ℕ)
  pub backlog : ℕ
  pub waited : ℕ

-- One turn of the loop reads the clock, the sample, and, at the end, the clock again.
pub record Reading : Type 0 where
  pub before : ℕ
  pub sample : Sample
  pub after : ℕ

-- the loop, with the deadline, the start and the previous counts
unfoldable pub settle_from : ℕ → ℕ → Dict (ℕ × ℕ) → List Reading → Option (Result Settling)
settle_from deadline start previous [] = none
settle_from deadline start previous (r ∷ rs) =
    let rest = settle_from deadline start r.sample.counts rs in
    if ltb r.before deadline
    then (if same_counts r.sample.counts previous && r.sample.backlog == 0
        then some (
            ok (record {
              counts = r.sample.counts;
              backlog = r.sample.backlog;
              waited = r.after - start;
            }))
        else rest)
    else some (err unsettled)

-- the clock is read twice before the first sample, for the deadline and for the start
unfoldable pub settle : ℕ → ℕ → ℕ → Sample → List Reading → Option (Result Settling)
settle timeout now start first readings = settle_from (now + timeout) start first.counts readings

-- the gauges of one table: zero where the table has no parts
unfoldable pub gauges : List ℕ → Dict (ℕ × ℕ) → List (ℕ × (ℕ × ℕ))
gauges tables counts = map (λ t. (t, get_or (0, 0) t counts)) tables

pub record Scraped : Type 0 where
  pub settle_seconds : ℕ
  pub tables : List (ℕ × (ℕ × ℕ))
  pub merge_backlog_seconds : ℕ

unfoldable pub scraped : List ℕ → Settling → Scraped
scraped tables s = record {
  settle_seconds = s.waited;
  tables = gauges tables s.counts;
  merge_backlog_seconds = s.backlog;
}

unfoldable pub scrape : List ℕ → ℕ → ℕ → ℕ → Sample → List Reading → Option (Result Scraped)
scrape tables timeout now start first readings = elim (settle timeout now start first readings) [
  | none ↦ none
  | some (ok s) ↦ some (ok (scraped tables s))
  | some (err e) ↦ some (err e)
]
