-- ===== src/Tests/Plans.antt =====
-- The mission graph on concrete plans and responses.
use lang_graph_uas.Prelude.{◌≡◌, refl, List, [], ◌∷◌, none, some, arith}
use lang_graph_uas.Calculations.Assessment.{assess_mission, build_assessment, resolved}
use lang_graph_uas.Schemas.Assessment.{operational, advisory, no_go, DeterministicAssessment}
use lang_graph_uas.Schemas.Requests.{MissionParams, confirm, edit}
use lang_graph_uas.Schemas.Responses.{Calculations}
use lang_graph_uas.Graph.State.{MissionState, Response}
use lang_graph_uas.Graph.Nodes.{apply_edits, calculate, vet_prose, narrative}
use lang_graph_uas.Graph.Workflow.{
  Stop, awaiting, finished, invoke, resume_with, begin_anew, begin_again,
}
use lang_graph_uas.Graph.Review.{review, IsSettled, review_terminates}
use lang_graph_uas.Graph.Edits.{figures, calculate-payload_edit_ignored}
use lang_graph_uas.Graph.Signing.{sealed, with_model, resume_with-sealed, edit_at_limit-briefs}
use lang_graph_uas.Graph.Restart.{fresh_assessment, restart_keeps_brief, restart_skips_review}
use lang_graph_uas.Graph.Brief.{Vetted, vet_prose-Vetted}
use lang_graph_uas.Tests.Values.{
  survey, whole, plus, Decimal, decimal, quad, camera, calm, dependencies, request, edits, response,
  shown,
}

abbrev five_edits : List (Response Decimal)
five_edits = response edit ∷ response edit ∷ response edit ∷ response edit ∷ response edit ∷ []

review_terminates_example : IsSettled dependencies (review dependencies five_edits (awaiting shown))
unfolding begin_anew
review_terminates_example =
    review_terminates dependencies five_edits shown (omega arith) (omega arith)

calculate-payload_edit_ignored_example :
    figures (calculate dependencies (apply_edits shown edits))
    ≡ figures (calculate dependencies (apply_edits shown (record edits { payload_id = none })))
calculate-payload_edit_ignored_example = calculate-payload_edit_ignored dependencies shown edits

resume_with-sealed_example :
    (t : Stop Decimal) × (u : Stop Decimal) × (resume_with dependencies (response confirm) shown
      ≡ some t)
    × (resume_with (with_model dependencies (λ v n w c cs. none)) (response confirm) shown ≡ some u)
    × (sealed dependencies u ≡ sealed dependencies t)
resume_with-sealed_example =
    resume_with-sealed dependencies (λ v n w c cs. none) (response confirm) shown

abbrev last_round : MissionState Decimal
last_round = record shown { ack_rounds = 4; report = "" }

abbrev higher : MissionParams Decimal
higher = record survey { target_altitude_m = whole 90 }

abbrev higher_figures : Calculations Decimal
higher_figures = assess_mission quad camera higher calm (whole 20) (whole 3) (plus 700)

edit_at_limit-briefs_example :
    (t : MissionState Decimal) × (u : MissionState Decimal) × (resume_with dependencies
        (response edit)
        last_round
      ≡ some (finished t))
    × (t.ack_action ≡ some confirm)
    × (t.ack_actor ≡ some "operator")
    × (t.calculations ≡ some higher_figures)
    × (t.assessment
        ≡ some (
            build_assessment dependencies.digest higher_figures
              (resolved quad camera higher calm operational)
              operational
              (some calm)
              (some quad)
              (some camera)
              (dependencies.has_open_quarantine "quad")))
    × (u.assessment ≡ t.assessment)
    × (u.calculations ≡ t.calculations)
    × (t.report ≡ (vet_prose dependencies (narrative dependencies u quad higher_figures calm) u).0)
unfolding begin_anew
edit_at_limit-briefs_example =
    edit_at_limit-briefs dependencies "operator" edits shown quad camera calm

abbrev briefed : MissionState Decimal
briefed = record shown { report = "Mission status: GO." }

restart_keeps_brief_example :
    (t : MissionState Decimal) × (u : MissionState Decimal) × (invoke dependencies
        (begin_again briefed request)
      ≡ some (awaiting t))
    × (resume_with dependencies (response confirm) t ≡ some (finished u))
    × (t.report ≡ "Mission status: GO.")
    × (u.report ≡ "Mission status: GO.")
    × (t.assessment ≡ some (fresh_assessment dependencies request quad camera calm))
    × (u.assessment ≡ t.assessment)
unfolding begin_anew
restart_keeps_brief_example =
    restart_keeps_brief dependencies briefed request quad camera refl refl calm refl refl
      (response confirm) refl (omega arith)

restart_skips_review_example :
    (t : MissionState Decimal) × (invoke dependencies
        (begin_again (record briefed { ack_rounds = 5 }) request)
      ≡ some (finished t))
    × (t.report ≡ "Mission status: GO.")
    × (t.ack_action ≡ some confirm)
unfolding begin_anew
restart_skips_review_example =
    restart_skips_review dependencies (record briefed { ack_rounds = 5 }) request quad camera refl
      refl calm refl refl (omega arith)

abbrev refused : DeterministicAssessment
refused = record {
  decision = no_go;
  reasons = "Payload mass exceeds the airframe limit." ∷ [];
  mode = advisory;
  blockers = [];
  inputs_hash = "sha256:inputs";
  calculator_version = "1.7.0";
}

vet_prose-Vetted_example :
    Vetted dependencies "Fly on 7 Wh."
      (record shown { assessment = some refused })
      refused
      (vet_prose dependencies "Fly on 7 Wh." (record shown { assessment = some refused }))
vet_prose-Vetted_example =
    vet_prose-Vetted dependencies "Fly on 7 Wh." (record shown { assessment = some refused })
      refused refl
