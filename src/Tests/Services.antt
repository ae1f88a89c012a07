-- ===== src/Tests/Services.antt =====
-- The drain, the loop of the agent, the accuracy report, the scrape and the reset, at concrete inputs.
use ctv_attribution_pipeline.Base.{
  ℕ, ◌+◌, ◌≡◌, refl, false, none, some, List, [], ◌∷◌, ◌++◌, mem, Result, ok, ◌==◌,
}
use ctv_attribution_pipeline.Dict.{Dict, lookup}
use ctv_attribution_pipeline.Model.{Ident}
use ctv_attribution_pipeline.Kafka.{
  Poll, nothing, message, partition_eof, on_poll, drain_loop, drain_messages,
}
use ctv_attribution_pipeline.Kafka.Drain.{
  Complete, silence, drain_messages-Complete, drain_messages-Ends,
}
use ctv_attribution_pipeline.Agent.{
  escalation, ended_without_finding, device_graph_mismatch, confident, AttributionFinding, written,
  tool_use, other, Message, Response,
}
use ctv_attribution_pipeline.Agent.Scoring.{
  Scenario, control, false_positive_counts, Runs, results_of, false_positive_counts-controls,
  fault_recall,
}
use ctv_attribution_pipeline.Accuracy.{score}
use ctv_attribution_pipeline.Accuracy.Counts.{score-credited, score-truth_links}
use ctv_attribution_pipeline.LakeRoot.{
  Text, is_profile_char, rest_matches, profile_re_match, validate_profile, Environment, Root,
  of_profile, typed, lake_root_of, configure, confirm_or_abort, reset, is_set, main_reset, yes_text,
}
use ctv_attribution_pipeline.LakeRoot.Safety.{
  Agreed, without, validate_profile-safe, main_reset-removes,
}
use ctv_attribution_pipeline.Scrape.{Settling, Reading, settle_from, settle}
use ctv_attribution_pipeline.Scrape.Settled.{Settled, settle-Settled}

-- two partitions, an empty poll between their messages
abbrev polled : List Poll
polled = message 7 ∷ nothing ∷ partition_eof 0 ∷ message 8 ∷ partition_eof 1 ∷ message 9 ∷ []

drained : drain_messages (0 ∷ 1 ∷ []) polled ≡ some (ok (7 ∷ 8 ∷ []))
unfolding drain_messages drain_loop on_poll
drained = refl

drain_messages-Complete_example : Complete (0 ∷ 1 ∷ []) polled (7 ∷ 8 ∷ [])
drain_messages-Complete_example = drain_messages-Complete (0 ∷ 1 ∷ []) polled (7 ∷ 8 ∷ []) drained

drain_messages-Ends_example :
    (r : Result (List ℕ)) × (drain_messages (0 ∷ []) ((message 7 ∷ []) ++ silence 50) ≡ some r)
drain_messages-Ends_example = drain_messages-Ends (0 ∷ []) (message 7 ∷ [])

-- a model that runs the probe 4 in every answer and submits with it
abbrev keen : List Message → Response
keen messages = record { content = other ∷ tool_use 1 4 6 ∷ tool_use 2 9 5 ∷ []; usage = 100 }

abbrev report : AttributionFinding
report = record {
  profile = 1;
  top_hypothesis = device_graph_mismatch;
  ranked = [];
  ruled_out = [];
  recommended_action = written 3;
  verdict = confident;
  probes_run = [];
}

abbrev quiet : Scenario
quiet = record { name = 1; profile = 1; kind = control; expected = none; note = 0 }

-- a confident finding and an abstention on a control, and a confident one on a fault
abbrev sure : AttributionFinding
sure = record (escalation 1 ended_without_finding []) { verdict = confident }

abbrev runs_of_sweep : Runs
runs_of_sweep =
    (quiet, (sure, 4 ∷ []) ∷ (escalation 1 ended_without_finding [], []) ∷ [])
    ∷ (record quiet { kind = fault_recall }, (sure, 4 ∷ []) ∷ [])
    ∷ []

false_positive_counts-controls_example : false_positive_counts (results_of runs_of_sweep) ≡ (1, 2)
unfolding escalation
false_positive_counts-controls_example = false_positive_counts-controls runs_of_sweep

-- conversion 1 is credited to the right household, 2 to a wrong one, 3 is organic, and 4 is missed
abbrev credits : Dict (Ident × Ident)
credits = (1, (5, 11)) ∷ (2, (6, 12)) ∷ (3, (5, 11)) ∷ []

abbrev truths : Dict Ident
truths = (1, 11) ∷ (2, 13) ∷ (4, 14) ∷ []

abbrev homes : Dict Ident
homes = (11, 5) ∷ (13, 7) ∷ (14, 5) ∷ []

score-credited_example :
    let r = score credits truths homes 1 in
    r.household_correct + r.caused_wrong_household + r.organic_credited ≡ r.credited
score-credited_example = score-credited credits truths homes 1

score-truth_links_example :
    let r = score credits truths homes 1 in
    r.household_correct + r.caused_wrong_household + r.caused_missed ≡ r.truth_links
score-truth_links_example =
    score-truth_links credits truths homes 1 (refl, (refl, (refl, tt))) (refl, (refl, (refl, tt)))

-- `tiny`
abbrev tiny : Text
tiny = 116 ∷ 105 ∷ 110 ∷ 121 ∷ []

tiny_run : validate_profile tiny ≡ ok tiny
unfolding validate_profile profile_re_match rest_matches
tiny_run = refl

validate_profile-safe_example :
    (tiny ≡ tiny) × ((c : ℕ) → is_profile_char c ≡ false → (c == 10) ≡ false → mem c tiny ≡ false)
validate_profile-safe_example = validate_profile-safe tiny tiny tiny_run

abbrev plain : Environment
plain = record { lake_root = none; under_pytest = false }

abbrev lakes : List Root
lakes = of_profile tiny ∷ of_profile yes_text ∷ []

reset_run : main_reset plain tiny false (typed yes_text) lakes ≡ ok (of_profile yes_text ∷ [])
unfolding main_reset configure reset validate_profile profile_re_match rest_matches lake_root_of
    confirm_or_abort
reset_run = refl

main_reset-removes_example :
    (is_set none ≡ false)
    × Agreed false (typed yes_text)
    × (of_profile yes_text ∷ [] ≡ without (of_profile tiny) lakes)
main_reset-removes_example =
    main_reset-removes plain tiny false (typed yes_text) lakes (of_profile yes_text ∷ []) reset_run

-- the second read still merges, the third stands still
abbrev reads : List Reading
reads =
    record { before = 1; sample = record { counts = (1, (3, 0)) ∷ []; backlog = 2 }; after = 2 }
    ∷ record { before = 2; sample = record { counts = (1, (3, 0)) ∷ []; backlog = 0 }; after = 3 }
    ∷ []

abbrev at_rest : Settling
at_rest = record { counts = (1, (3, 0)) ∷ []; backlog = 0; waited = 3 }

settle_run :
    settle 30 0 0 (record { counts = (1, (4, 1)) ∷ []; backlog = 5 }) reads ≡ some (ok at_rest)
unfolding settle settle_from lookup
settle_run = refl

settle-Settled_example : Settled (0 + 30) ((1, (4, 1)) ∷ []) reads at_rest
settle-Settled_example =
    settle-Settled 30 0 0 (record { counts = (1, (4, 1)) ∷ []; backlog = 5 }) reads at_rest
      settle_run
