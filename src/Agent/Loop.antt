-- ===== src/Agent/Loop.antt =====
-- What the loop of agent/loop.py returns, for every model, database and schema check.
use ctv_attribution_pipeline.Base.{ℕ, ◌≤◌, ◌≡◌, ◌≢◌, true, List, [], mem, length, ◌⊎◌, All}
use ctv_attribution_pipeline.Agent.{ambiguous_needs_human, AgentRun, Turn, done, again}

-- a probe of the registry ran, or the finding is handed to a human
abbrev pub Backed : List ℕ → AgentRun → Type 0
Backed registry run =
    All (λ p. mem p registry ≡ true) run.probes_run
    × ((run.finding.verdict ≡ ambiguous_needs_human) ⊎ (run.probes_run ≢ []))

module _ (registry : List ℕ) where
  abbrev Known : List ℕ → Type 0
  Known = All (λ p. mem p registry ≡ true)

  -- what a turn leaves: a run that is backed, or a state with known probes and one more answer
  abbrev Sound : ℕ → Turn → Type 0
  Sound n (done run) = Backed registry run × (length run.usages ≤ n)
  Sound n (again st) = Known st.executed × (length st.usages ≤ n)
