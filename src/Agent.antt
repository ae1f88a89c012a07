-- ===== src/Agent.antt =====
-- agent/hypotheses.py, agent/finding.py and agent/loop.py: the bounded tool-use loop that reports on an
-- attribution context. The model's answers, the database behind the probes and the schema check of a
-- payload are not code of the repository: they are parameters. A name, a tool's input and a text are
-- each the number of the string, which is only passed on and compared; a weight, with which nothing
-- here computes, is the number of its encoding.
pub mod Loop
pub mod Scoring
use ctv_attribution_pipeline.Base.{
  ℕ, zero, suc, Bool, true, false, Option, none, some, List, [], ◌∷◌, ◌++◌, ◌==◌, if◌then◌else◌,
  mem,
}

pub data Hypothesis : Type 0 where
  device_graph_mismatch window_edge_effect co_view_inflation : Hypothesis
  late_arrival_distortion real_performance_change upstream_data_change : Hypothesis

pub data Verdict : Type 0 where
  confident ambiguous_needs_human : Verdict

-- the texts that the code builds, and those that the model wrote
pub data Note : Type 0 where
  written : ℕ → Note
  ended_without_finding submitted_twice_without_probe : Note
  budget_exhausted : ℕ → Note
  invalid_payload : ℕ → Note
  escalate_to_human : Note → Note

pub record RankedHypothesis : Type 0 where
  pub hypothesis : Hypothesis
  pub evidence_for : List Note
  pub evidence_against : List Note
  pub weight : ℕ

pub record AttributionFinding : Type 0 where
  pub profile : ℕ
  pub top_hypothesis : Hypothesis
  pub ranked : List RankedHypothesis
  pub ruled_out : List Hypothesis
  pub recommended_action : Note
  pub verdict : Verdict
  pub probes_run : List ℕ

unfoldable pub escalation : ℕ → Note → List ℕ → AttributionFinding
escalation profile reason probes_run = record {
  profile = profile;
  top_hypothesis = upstream_data_change;
  ranked =
      record {
        hypothesis = upstream_data_change;
        evidence_for = reason ∷ [];
        evidence_against = [];
        weight = 0;
      }
      ∷ [];
  ruled_out = [];
  recommended_action = escalate_to_human reason;
  verdict = ambiguous_needs_human;
  probes_run = probes_run;
}

-- a content block of an answer: a tool call with its id, the tool's name and the input, or another
pub data Block : Type 0 where
  tool_use : ℕ → ℕ → ℕ → Block
  other : Block

pub data Content : Type 0 where
  unknown_tool probe_error probe_failed rows_found : ℕ → Content
  run_a_probe_first : Content

pub record ToolResult : Type 0 where
  pub tool_use_id : ℕ
  pub content : Content
  pub is_error : Bool

pub data Message : Type 0 where
  context : Message
  assistant : List Block → Message
  user : List ToolResult → Message

pub record Response : Type 0 where
  pub content : List Block
  pub usage : ℕ

-- what a probe's query gives: the rows, an error that names bad parameters, or a driver's error
pub data Probed : Type 0 where
  found bad_parameters driver_error : ℕ → Probed

pub record AgentRun : Type 0 where
  pub finding : AttributionFinding
  pub usages : List ℕ
  pub probes_run : List ℕ

-- what the loop carries from round to round
pub record LoopState : Type 0 where
  pub messages : List Message
  pub usages : List ℕ
  pub executed : List ℕ
  pub rejected_empty_once : Bool

-- `list(dict.fromkeys(executed))`
unfoldable pub unique : List ℕ → List ℕ → List ℕ
unique seen [] = seen
unique seen (x ∷ xs) = unique (if mem x seen then seen else seen ++ x ∷ []) xs

-- one round's answers: what the tools returned, the probes that ran, and the last finding submitted
pub record Round : Type 0 where
  pub results : List ToolResult
  pub executed : List ℕ
  pub submit_block : Option (ℕ × ℕ)

pub data Turn : Type 0 where
  done : AgentRun → Turn
  again : LoopState → Turn

-- what `_run_probe` records of an outcome, for a block with this id and name
unfoldable pub record_probe : ℕ → ℕ → Round → Probed → Round
record_probe id name r (found rows) = record r {
  results =
      r.results ++ record { tool_use_id = id; content = rows_found rows; is_error = false } ∷ [];
  executed = r.executed ++ name ∷ [];
}
record_probe id name r (bad_parameters e) = record r {
  results = r.results ++ record { tool_use_id = id; content = probe_error e; is_error = true } ∷ [];
}
record_probe id name r (driver_error e) = record r {
  results =
      r.results ++ record { tool_use_id = id; content = probe_failed e; is_error = true } ∷ [];
}

-- `_finalize`, once the input is validated
unfoldable pub finalized : ℕ → ℕ → List ℕ → Option AttributionFinding → AttributionFinding
finalized profile input executed none = escalation profile (invalid_payload input) executed
finalized profile input executed (some finding) = record finding { probes_run = unique [] executed }

abbrev pub has_tool_use : List Block → Bool
has_tool_use [] = false
has_tool_use (tool_use id name input ∷ bs) = true
has_tool_use (other ∷ bs) = has_tool_use bs

-- the finding that ends the loop
unfoldable pub stop : AttributionFinding → List ℕ → List ℕ → Turn
stop finding usages executed =
    done (record { finding = finding; usages = usages; probes_run = executed })

-- a finding submitted before any probe ran: refused once, then escalated
unfoldable pub refuse : ℕ → List Message → List ℕ → Bool → ℕ → List ToolResult → Turn
refuse profile messages usages true id results =
    stop (escalation profile submitted_twice_without_probe []) usages []
refuse profile messages usages false id results = again (record {
  messages =
      messages
      ++ user (
          results ++ record { tool_use_id = id; content = run_a_probe_first; is_error = true } ∷ [])
        ∷ [];
  usages = usages;
  executed = [];
  rejected_empty_once = true;
})

-- The tools' names, the probes' registry, the database, the schema check and the model.
module _ (submit_finding : ℕ) (registry : List ℕ) (query : ℕ → ℕ → Probed)
    (model_validate : ℕ → Option AttributionFinding) (create : List Message → Response) where
  unfoldable pub dispatch : Block → Round → Round
  dispatch other r = r
  dispatch (tool_use id name input) r =
      if name == submit_finding
      then record r { submit_block = some (id, input) }
      else if mem name registry
      then record_probe id name r (query name input)
      else record r {
        results =
            r.results
            ++ record { tool_use_id = id; content = unknown_tool name; is_error = true } ∷ [];
      }

  unfoldable pub dispatch_all : List Block → Round → Round
  dispatch_all [] r = r
  dispatch_all (b ∷ bs) r = dispatch_all bs (dispatch b r)

  -- what follows the tools, by the finding that was submitted and the probes that ran
  unfoldable pub conclude :
      ℕ → List Message → List ℕ → Bool → List ToolResult → Option (ℕ × ℕ) → List ℕ → Turn
  conclude profile messages usages rejected results none executed = again (record {
    messages = messages ++ user results ∷ [];
    usages = usages;
    executed = executed;
    rejected_empty_once = rejected;
  })
  conclude profile messages usages rejected results (some s) [] =
      refuse profile messages usages rejected s.0 results
  conclude profile messages usages rejected results (some s) (p ∷ ps) =
      stop (finalized profile s.1 (p ∷ ps) (model_validate s.1)) usages (p ∷ ps)

  -- one round of the loop
  unfoldable pub turn : ℕ → LoopState → Turn
  turn profile st =
      let response = create st.messages in
      let usages = st.usages ++ response.usage ∷ [] in
      if has_tool_use response.content
      then (let r =
            dispatch_all response.content
              (record { results = []; executed = st.executed; submit_block = none }) in
          conclude profile (st.messages ++ assistant response.content ∷ []) usages
            st.rejected_empty_once r.results r.submit_block r.executed)
      else stop (escalation profile ended_without_finding st.executed) usages st.executed

  abbrev pub resume : Turn → (LoopState → AgentRun) → AgentRun
  resume (done run) k = run
  resume (again st) k = k st

  -- `for _ in range(max_rounds)`, with the rounds that are left
  unfoldable pub rounds : ℕ → ℕ → ℕ → LoopState → AgentRun
  rounds profile max_rounds zero st = record {
    finding = escalation profile (budget_exhausted max_rounds) st.executed;
    usages = st.usages;
    probes_run = st.executed;
  }
  rounds profile max_rounds (suc n) st = resume (turn profile st) (rounds profile max_rounds n)

  unfoldable pub run_agent : ℕ → ℕ → AgentRun
  run_agent profile max_rounds =
      rounds profile max_rounds max_rounds (record {
        messages = context ∷ [];
        usages = [];
        executed = [];
        rejected_empty_once = false;
      })
