-- ===== src/Graph/Nodes/Ack.antt =====
-- backend/suas/graph/nodes.py: the review step, and the edits that it takes.
use lang_graph_uas.Prelude.{true, Option, none, some, String, is_blank, or_else, leb, if◌then◌else◌}
use Prim.Native.Nat.{◌+◌}
use lang_graph_uas.Schemas.Requests.{MissionParams, MissionEdits, AckAction, confirm, edit, abort}
use lang_graph_uas.Graph.State.{MissionState, Response}
use lang_graph_uas.Graph.Nodes.Texts.{max_ack_rounds, aborted_report}

-- What the review step does: it pauses at its interrupt, or returns.
pub data Review (F : Type 0) : Type 0 where
  interrupted : Review F
  returned : MissionState F → Review F

-- The payload of an edit, where it names one.
abbrev edited_payload_id : Option String → String → String
edited_payload_id none old = old
edited_payload_id (some new) old = if is_blank new then old else new

module _ {F : Type 0} where
  unfoldable pub apply_edits : MissionState F → MissionEdits F → MissionState F
  apply_edits s e = record s {
    mission_params = (record params {
      target_altitude_m = or_else e.target_altitude_m params.target_altitude_m;
      hover_time_s = or_else e.hover_time_s params.hover_time_s;
    });
    payload_id = edited_payload_id e.payload_id s.payload_id;
  }
    where
      params : MissionParams F
      params = s.mission_params

  -- What the review step returns once it has a response.
  abbrev pub answered : MissionState F → Response F → MissionState F
  answered s r = record s {
    ack_action = some r.action;
    ack_actor = some r.actor;
    ack_rounds = s.ack_rounds + 1;
  }

  abbrev pub respond : AckAction → MissionState F → Response F → MissionState F
  respond confirm s r = answered s r
  respond edit s r = apply_edits (answered s r) r.edits
  respond abort s r = record (answered s r) { aborted = true; report = aborted_report }

  abbrev pub resume : MissionState F → Option (Response F) → Review F
  resume s none = interrupted
  resume s (some r) = returned (respond r.action s r)

  unfoldable pub human_ack : MissionState F → Option (Response F) → Review F
  human_ack s r =
      if leb max_ack_rounds s.ack_rounds
      then returned (record s { ack_action = some confirm })
      else resume s r
