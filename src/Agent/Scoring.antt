-- ===== src/Agent/Scoring.antt =====
-- agent/eval/scenarios.py, agent/eval/scoring.py and the loop of agent/eval/run_eval.py over the
-- repetitions of a scenario: the scenarios of the sweep and the scoring of its
-- repetitions. A name is the number of the string. A rate is its numerator and its denominator.
use ctv_attribution_pipeline.Base.{
  ℕ, suc, ◌+◌, ◌≡◌, ap, ◌∙◌, refl, Bool, true, false, Option, none, some, List, [], ◌∷◌, map, ◌==◌,
  if◌then◌else◌, filter, length, sum, arith, Result, ok, err, unknown_scenario,
}
use ctv_attribution_pipeline.Agent.{
  Hypothesis, device_graph_mismatch, window_edge_effect, co_view_inflation, late_arrival_distortion,
  real_performance_change, upstream_data_change, Verdict, confident, ambiguous_needs_human,
  AttributionFinding, Note, escalation,
}

pub data Kind : Type 0 where
  fault_recall negative_confirmation capability_boundary control : Kind

pub record Scenario : Type 0 where
  pub name : ℕ
  pub profile : ℕ
  pub kind : Kind
  pub expected : Option Hypothesis
  pub note : ℕ

unfoldable pub scenario_by_name : ℕ → List Scenario → Result Scenario
scenario_by_name name [] = err unknown_scenario
scenario_by_name name (s ∷ rest) = if s.name == name then ok s else scenario_by_name name rest

pub data Outcome : Type 0 where
  correct_diagnosis wrong_diagnosis abstained correct_abstention false_positive : Outcome

unfoldable pub is_abstention : AttributionFinding → Bool
is_abstention finding = elim finding.verdict [ ambiguous_needs_human ↦ true | confident ↦ false ]

abbrev number_of : Hypothesis → ℕ
number_of device_graph_mismatch = 0
number_of window_edge_effect = 1
number_of co_view_inflation = 2
number_of late_arrival_distortion = 3
number_of real_performance_change = 4
number_of upstream_data_change = 5

-- `finding.top_hypothesis == scenario.expected`
abbrev matches : Hypothesis → Option Hypothesis → Bool
matches top none = false
matches top (some e) = number_of top == number_of e

-- the outcome by the kind, by whether the finding abstains and by whether its cause is the expected one
abbrev outcome_of : Kind → Bool → Bool → Outcome
outcome_of fault_recall true hit = abstained
outcome_of fault_recall false true = correct_diagnosis
outcome_of fault_recall false false = wrong_diagnosis
outcome_of negative_confirmation true hit = correct_abstention
outcome_of negative_confirmation false true = correct_diagnosis
outcome_of negative_confirmation false false = wrong_diagnosis
outcome_of capability_boundary true hit = correct_abstention
outcome_of capability_boundary false hit = false_positive
outcome_of control true hit = correct_abstention
outcome_of control false hit = false_positive

unfoldable pub score_rep : Scenario → AttributionFinding → Outcome
score_rep scenario finding =
    outcome_of scenario.kind (is_abstention finding)
      (matches finding.top_hypothesis scenario.expected)

-- `CORRECT_OUTCOMES`
abbrev is_correct : Outcome → Bool
is_correct correct_diagnosis = true
is_correct correct_abstention = true
is_correct wrong_diagnosis = false
is_correct abstained = false
is_correct false_positive = false

abbrev is_false_positive : Outcome → Bool
is_false_positive false_positive = true
is_false_positive correct_diagnosis = false
is_false_positive correct_abstention = false
is_false_positive wrong_diagnosis = false
is_false_positive abstained = false

pub record RepResult : Type 0 where
  pub scenario : ℕ
  pub outcome : Outcome
  pub verdict : Verdict
  pub top_hypothesis : Hypothesis
  pub probes_run : List ℕ

pub record ScenarioResult : Type 0 where
  pub scenario : Scenario
  pub reps : List RepResult

unfoldable pub correct : ScenarioResult → ℕ
correct s = length (filter (λ (r : RepResult). is_correct r.outcome) s.reps)

unfoldable pub total : ScenarioResult → ℕ
total s = length s.reps

abbrev is_control : Kind → Bool
is_control control = true
is_control fault_recall = false
is_control negative_confirmation = false
is_control capability_boundary = false

unfoldable pub control_results : List ScenarioResult → List ScenarioResult
control_results = filter (λ (s : ScenarioResult). is_control s.scenario.kind)

unfoldable pub false_positive_counts : List ScenarioResult → ℕ × ℕ
false_positive_counts scenarios =
    let controls = control_results scenarios in
    (
      sum (
          map
            (λ (s : ScenarioResult).
              length (filter (λ (r : RepResult). is_false_positive r.outcome) s.reps))
            controls),
      sum (map total controls),
    )

unfoldable pub false_positive_rate : List ScenarioResult → Option (ℕ × ℕ)
false_positive_rate scenarios =
    let (fps, n) = false_positive_counts scenarios in if n == 0 then none else some (fps, n)

-- what a run of the agent gives the sweep: its finding, and the probes that it ran
abbrev pub AgentRun : Type 0
AgentRun = AttributionFinding × List ℕ

unfoldable pub rep_of : Scenario → AgentRun → RepResult
rep_of s run = record {
  scenario = s.name;
  outcome = score_rep s run.0;
  verdict = run.0.verdict;
  top_hypothesis = run.0.top_hypothesis;
  probes_run = run.1;
}

unfoldable pub scored : Scenario → List AgentRun → ScenarioResult
scored s runs = record { scenario = s; reps = map (rep_of s) runs }

-- how an escalation is scored
abbrev pub escalated : Kind → Outcome
escalated fault_recall = abstained
escalated negative_confirmation = correct_abstention
escalated capability_boundary = correct_abstention
escalated control = correct_abstention

outcome_of-abstention : (k : Kind) (hit : Bool) → outcome_of k true hit ≡ escalated k
outcome_of-abstention fault_recall hit = refl
outcome_of-abstention negative_confirmation hit = refl
outcome_of-abstention capability_boundary hit = refl
outcome_of-abstention control hit = refl

-- An escalation is never scored as a diagnosis or as a false positive, whatever cause the scenario
-- expects: it is correct everywhere but on a fault to recall, where it counts as an abstention.
pub score_rep-escalation :
    (s : Scenario) (profile : ℕ) (reason : Note) (probes : List ℕ)
    → score_rep s (escalation profile reason probes) ≡ escalated s.kind
unfolding score_rep is_abstention escalation
score_rep-escalation s profile reason probes = outcome_of-abstention s.kind _

-- a sweep: each scenario with the runs of its repetitions
abbrev pub Runs : Type 0
Runs = List (Scenario × List AgentRun)

abbrev pub results_of : Runs → List ScenarioResult
results_of = map (λ (r : Scenario × List AgentRun). scored r.0 r.1)

abbrev names_cause : Verdict → Bool
names_cause confident = true
names_cause ambiguous_needs_human = false

-- the confident findings on the controls, and all runs on them
abbrev pub confident_on_controls : Runs → ℕ
confident_on_controls [] = 0
confident_on_controls ((s, fs) ∷ runs) =
    let rest = confident_on_controls runs in
    elim s.kind [
      | control ↦ length (filter (λ (r : AgentRun). names_cause r.0.verdict) fs) + rest
      | fault_recall ↦ rest
      | negative_confirmation ↦ rest
      | capability_boundary ↦ rest
    ]

abbrev pub runs_on_controls : Runs → ℕ
runs_on_controls [] = 0
runs_on_controls ((s, fs) ∷ runs) =
    let rest = runs_on_controls runs in
    elim s.kind [
      | control ↦ length fs + rest
      | fault_recall ↦ rest
      | negative_confirmation ↦ rest
      | capability_boundary ↦ rest
    ]

-- the repetitions of a scenario that are false positives
abbrev fps_of : ScenarioResult → ℕ
fps_of s = length (filter (λ (r : RepResult). is_false_positive r.outcome) s.reps)

one_of_control :
    (hit : Bool) (v : Verdict)
    → is_false_positive
        (outcome_of control (elim v [ ambiguous_needs_human ↦ true | confident ↦ false ]) hit)
      ≡ names_cause v
one_of_control hit confident = refl
one_of_control hit ambiguous_needs_human = refl

fps_of-control :
    (s : Scenario) (fs : List AgentRun)
    → s.kind ≡ control
    → fps_of (scored s fs) ≡ length (filter (λ (r : AgentRun). names_cause r.0.verdict) fs)
unfolding scored rep_of score_rep is_abstention
fps_of-control s [] k = refl
fps_of-control s (f ∷ fs) k = ground (
  arith,
  fps_of-control s fs k,
  ap
        (λ kind.
          is_false_positive
            (outcome_of kind (is_abstention f.0) (matches f.0.top_hypothesis s.expected)))
        k
      ∙ one_of_control (matches f.0.top_hypothesis s.expected) f.0.verdict,
)

total-scored : (s : Scenario) (fs : List AgentRun) → total (scored s fs) ≡ length fs
unfolding total scored
total-scored s [] = refl
total-scored s (f ∷ fs) = ap suc (total-scored s fs)

-- one more scenario, of a known kind
counts-cons :
    (k : Kind) (s : Scenario) (fs : List AgentRun) (runs : Runs)
    → s.kind ≡ k
    → false_positive_counts (results_of runs) ≡ (confident_on_controls runs, runs_on_controls runs)
    → false_positive_counts (results_of ((s, fs) ∷ runs))
      ≡ (confident_on_controls ((s, fs) ∷ runs), runs_on_controls ((s, fs) ∷ runs))
unfolding false_positive_counts control_results scored
counts-cons fault_recall s fs runs e rest = rw e rest
counts-cons negative_confirmation s fs runs e rest = rw e rest
counts-cons capability_boundary s fs runs e rest = rw e rest
counts-cons control s fs runs e rest =
    let own = fps_of-control s fs e in let all = total-scored s fs in rw e (cc (rest, own, all))

-- The false positives that a sweep counts are its confident findings on the control scenarios, and the
-- repetitions that they are counted among are all its runs of the control scenarios: nothing of the
-- other kinds enters either number.
pub false_positive_counts-controls :
    (runs : Runs)
    → false_positive_counts (results_of runs) ≡ (confident_on_controls runs, runs_on_controls runs)
false_positive_counts-controls [] = unfold false_positive_counts control_results in refl
false_positive_counts-controls ((s, fs) ∷ runs) =
    counts-cons s.kind s fs runs refl (false_positive_counts-controls runs)
