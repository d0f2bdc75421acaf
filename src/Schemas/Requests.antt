-- ===== src/Schemas/Requests.antt =====
-- backend/suas/schemas/requests.py: what a client sends.
use lang_graph_uas.Prelude.{Option, String}
use lang_graph_uas.Schemas.Assessment.{AssessmentMode}

pub record MissionParams (F : Type 0) : Type 0 where
  pub distance_m : F
  pub hover_time_s : F
  pub target_altitude_m : F
  pub elevation_m : F
  pub latitude : F
  pub longitude : F

pub record MissionRequest (F : Type 0) : Type 0 where
  pub aircraft_id : String
  pub payload_id : String
  pub mission_params : MissionParams F
  pub thread_id : Option String
  pub assessment_mode : AssessmentMode

pub record MissionEdits (F : Type 0) : Type 0 where
  pub target_altitude_m : Option F
  pub hover_time_s : Option F
  pub payload_id : Option String

-- The `Literal["confirm", "edit", "abort"]` of an `AckRequest`.
pub data AckAction : Type 0 where
  confirm edit abort : AckAction

pub record AckRequest (F : Type 0) : Type 0 where
  pub action : AckAction
  pub actor : String
  pub inputs_hash : Option String
  pub edits : Option (MissionEdits F)
