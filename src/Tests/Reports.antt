-- ===== src/Tests/Reports.antt =====
-- Who wrote a report, on a concrete plan.
use lang_graph_uas.Prelude.{refl, true, [], some}
use lang_graph_uas.Schemas.Assessment.{DeterministicAssessment, go, advisory}
use lang_graph_uas.Graph.State.{MissionState, Dependencies}
use lang_graph_uas.Graph.Nodes.{generate_report, calculate_with, vet_prose}
use lang_graph_uas.Graph.Seal.{find_contradiction, unsupported_numerics}
use lang_graph_uas.Graph.Workflow.{begin_anew}
use lang_graph_uas.Api.ReportSource.{report_source, IsAttributed, generate_report-IsAttributed}
use lang_graph_uas.Tests.Values.{
  Decimal, decimal, dependencies, patterns, quad, camera, calm, shown,
}

-- The texts of this model hold no numbers.
abbrev wordless : Dependencies Decimal
wordless = record dependencies { patterns = record patterns { unit_numerics = λ prose. [] } }

abbrev cleared : DeterministicAssessment
cleared = record {
  decision = go;
  reasons = [];
  mode = advisory;
  blockers = [];
  inputs_hash = "sha256:inputs";
  calculator_version = "1.7.0";
}

abbrev calculated : MissionState Decimal
calculated = record (calculate_with dependencies shown quad camera calm) {
  assessment = some cleared;
  is_viable = true;
}

abbrev told : MissionState Decimal
told = record calculated { report = "Cleared to fly on 7 Wh."; seal_violations = [] }

generate_report-IsAttributed_example : IsAttributed wordless calculated told
generate_report-IsAttributed_example =
    generate_report-IsAttributed wordless calculated told (unfold begin_anew in refl)
      (unfold generate_report begin_anew vet_prose find_contradiction unsupported_numerics in refl)
      (unfold report_source begin_anew in refl)
