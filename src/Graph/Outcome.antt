-- ===== src/Graph/Outcome.antt =====
-- What a plan and its review end in.
use lang_graph_uas.Prelude.{◌≡◌, ◌⊎◌, false, none, some}
use lang_graph_uas.Float.{Float}
use lang_graph_uas.Schemas.Requests.{MissionRequest}
use lang_graph_uas.Schemas.Responses.{Calculations}
use lang_graph_uas.Schemas.Assessment.{DeterministicAssessment, advisory}
use lang_graph_uas.Graph.State.{Dependencies}
use lang_graph_uas.Graph.Nodes.{fetch_weather, no_payload_id, invalid_aircraft_report}
use lang_graph_uas.Graph.Workflow.{
  Stop, awaiting, finished, raised, weather_node, calculations_node,
}

module _ {F : Type 0} ⦃f : Float F⦄ (d : Dependencies F) where
  -- What a request for a new thread may come to.
  abbrev pub Planned : MissionRequest F → Stop F → Type 0
  Planned r (awaiting t) =
      (t.report ≡ "")
      × (t.ack_rounds ≡ 0)
      × ((c : Calculations F) × (t.calculations ≡ some c))
      × ((a : DeterministicAssessment) × (t.assessment ≡ some a) × (a.mode ≡ advisory))
  Planned r (finished t) =
      (d.get_aircraft r.aircraft_id ≡ none)
      × (t.report ≡ invalid_aircraft_report)
      × (t.is_viable ≡ false)
      × (t.calculations ≡ none)
  Planned r (raised node) =
      ((node ≡ weather_node)
        × (d.fetch_weather r.mission_params.latitude r.mission_params.longitude ≡ none))
      ⊎ ((node ≡ calculations_node) × (d.get_payload no_payload_id ≡ none))
