-- ===== src/Graph/Workflow.antt =====
-- backend/suas/graph/workflow.py: the edges of the mission graph, and the runs of its compiled form.
use lang_graph_uas.Prelude.{ℕ, zero, suc, true, false, [], Option, none, some}
use lang_graph_uas.Float.{Float}
use lang_graph_uas.Schemas.Requests.{MissionRequest, AckAction, edit, abort}
use lang_graph_uas.Graph.State.{MissionState, Response, Dependencies}
use lang_graph_uas.Graph.Nodes.{
  Review, interrupted, returned, validate, fetch_weather, calculate, cite_limits, human_ack,
  generate_report,
}

pub data Node : Type 0 where
  validate_node weather_node calculations_node cite_limits_node human_ack_node report_node : Node
  end_node : Node

abbrev route_on : Option AckAction → Node
route_on (some edit) = calculations_node
route_on (some abort) = end_node
route_on _ = report_node

module _ {F : Type 0} where
  unfoldable pub route_after_validation : MissionState F → Node
  route_after_validation s = elim s.is_viable [ false ↦ report_node | true ↦ weather_node ]

  unfoldable pub route_after_ack : MissionState F → Node
  route_after_ack s = route_on s.ack_action

  -- The edges of `build_mission_graph`.
  unfoldable pub successor : Node → MissionState F → Node
  unfolding route_after_validation route_after_ack
  successor validate_node s = route_after_validation s
  successor weather_node s = calculations_node
  successor calculations_node s = cite_limits_node
  successor cite_limits_node s = human_ack_node
  successor human_ack_node s = route_after_ack s
  successor report_node s = end_node
  successor end_node s = end_node

-- Where a run of the graph stops: at the review step, at the end, or at a node that raised.
pub data Stop (F : Type 0) : Type 0 where
  awaiting : MissionState F → Stop F
  finished : MissionState F → Stop F
  raised : Node → Stop F

module _ {F : Type 0} where
  -- The rest of a run, once the review step or another node has been executed.
  abbrev pub after_review :
      MissionState F → (Node → MissionState F → Option (Stop F)) → Review F → Option (Stop F)
  after_review s rest interrupted = some (awaiting s)
  after_review s rest (returned t) = rest (successor human_ack_node t) t

  abbrev pub after_node :
      Node → (Node → MissionState F → Option (Stop F)) → Option (MissionState F) → Option (Stop F)
  after_node node rest none = some (raised node)
  after_node node rest (some t) = rest (successor node t) t

module _ {F : Type 0} ⦃f : Float F⦄ (d : Dependencies F) where
  -- A node other than the review step.
  unfoldable pub execute : Node → MissionState F → Option (MissionState F)
  execute validate_node s = some (validate d s)
  execute weather_node s = fetch_weather d s
  execute calculations_node s = calculate d s
  execute cite_limits_node s = some (cite_limits d s)
  execute human_ack_node s = some s
  execute report_node s = generate_report d s
  execute end_node s = some s

  -- A run from a node, with the response that the first interrupt met is resumed with, if any, and
  -- with fuel for so many nodes.
  unfoldable pub drive : ℕ → Option (Response F) → Node → MissionState F → Option (Stop F)
  drive zero r node s = none
  drive (suc n) r end_node s = some (finished s)
  drive (suc n) r human_ack_node s = after_review s (drive n none) (human_ack s r)
  drive (suc n) r node s = after_node node (drive n r) (execute node s)

  -- Seven nodes are enough for any run: see Graph/Runs.
  abbrev pub enough : ℕ
  enough = 8

  -- `graph.ainvoke(initial)`.
  unfoldable pub invoke : MissionState F → Option (Stop F)
  invoke s = drive enough none validate_node s

  -- `graph.ainvoke(Command(resume=...))` on a thread that awaits the review step.
  unfoldable pub resume_with : Response F → MissionState F → Option (Stop F)
  resume_with r s = drive enough (some r) human_ack_node s

-- The state that a request begins a new thread with, and the one that it begins with on a thread
-- whose checkpoint holds a state: the keys of the request are overwritten and all others are kept.
module _ {F : Type 0} where
  unfoldable pub begin_anew : MissionRequest F → MissionState F
  begin_anew r = record {
    aircraft_id = r.aircraft_id;
    payload_id = r.payload_id;
    mission_params = r.mission_params;
    aircraft = none;
    payload = none;
    weather = none;
    calculations = none;
    assessment = none;
    requested_mode = r.assessment_mode;
    ack_action = none;
    ack_actor = none;
    ack_rounds = 0;
    aborted = false;
    is_viable = true;
    seal_violations = [];
    citations = [];
    citation_status = none;
    report = "";
    error = none;
  }

  unfoldable pub begin_again : MissionState F → MissionRequest F → MissionState F
  begin_again s r = record s {
    aircraft_id = r.aircraft_id;
    payload_id = r.payload_id;
    mission_params = r.mission_params;
    requested_mode = r.assessment_mode;
    is_viable = true;
  }
