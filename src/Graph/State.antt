-- ===== src/Graph/State.antt =====
-- backend/suas/graph/state.py and dependencies.py: the state that the nodes thread, and what they
-- are given.
use lang_graph_uas.Prelude.{ℕ, Bool, List, Option, String}
use lang_graph_uas.Schemas.Domain.{Aircraft, Payload}
use lang_graph_uas.Schemas.Requests.{MissionParams, MissionEdits, AckAction}
use lang_graph_uas.Schemas.Responses.{WeatherReading, Calculations}
use lang_graph_uas.Schemas.Assessment.{AssessmentMode, DeterministicAssessment}
use lang_graph_uas.Calculations.Assessment.{Inputs}

pub record Citation : Type 0 where
  pub chunk_id : String
  pub field_path : String
  pub text : String
  pub page : Option ℕ

pub data CitationStatus : Type 0 where
  unavailable confirmed unconfirmed : CitationStatus

-- `MissionState`. A dumped model stands for its dump. Keys whose readers take a default where they
-- are absent hold that default then: `ack_rounds` 0, `aborted` false, `report` the empty text, and
-- the two lists the empty list.
pub record MissionState (F : Type 0) : Type 0 where
  pub aircraft_id : String
  pub payload_id : String
  pub mission_params : MissionParams F
  pub aircraft : Option (Aircraft F)
  pub payload : Option (Payload F)
  pub weather : Option (WeatherReading F)
  pub calculations : Option (Calculations F)
  pub assessment : Option DeterministicAssessment
  pub requested_mode : AssessmentMode
  pub ack_action : Option AckAction
  pub ack_actor : Option String
  pub ack_rounds : ℕ
  pub aborted : Bool
  pub is_viable : Bool
  pub seal_violations : List String
  pub citations : List Citation
  pub citation_status : Option CitationStatus
  pub report : String
  pub error : Option String

-- The value that the interrupt of the review step resumes with.
pub record Response (F : Type 0) : Type 0 where
  pub action : AckAction
  pub actor : String
  pub edits : MissionEdits F

-- What the text patterns of seal.py answer, and the JSON of the values that a brief may quote. The
-- engine that runs the patterns is a parameter.
pub record Patterns (F : Type 0) : Type 0 where
  -- `_NEGATED.sub(" ", prose)` and `_GO_LANGUAGE.search(scrubbed)`.
  pub scrub : String → String
  pub go_language : String → Option String
  -- `_UNIT_NUMERIC.findall` (the literal, its decimals and its value, and its unit), and the values
  -- that `_ANY_NUMERIC.findall` matches.
  pub unit_numerics :
      String → List (record { literal : String; decimals : ℕ; value : F; unit : String })
  pub any_numerics : String → List F
  pub lower : String → String
  pub dump_assessment : DeterministicAssessment → String
  pub dump_calculations : Calculations F → String
  pub dump_weather : WeatherReading F → String

-- `GraphDependencies`: the database's answers, the weather provider (`none` is an exception, which
-- Services/Weather gives for some bodies), the report service (`none` is
-- a `ReportGenerationError`), retrieval (`none` is a `SuasError`), and the configured figures.
pub record Dependencies (F : Type 0) : Type 0 where
  pub get_aircraft : String → Option (Aircraft F)
  pub get_payload : String → Option (Payload F)
  pub has_open_quarantine : String → Bool
  pub fetch_weather : F → F → Option (WeatherReading F)
  pub generate : Bool → String → WeatherReading F → Calculations F → List Citation → Option String
  pub has_embedder : Bool
  pub retrieve : String → String → Option (List Citation)
  pub reserve_percent : F
  pub vertical_speed_mps : F
  pub climb_efficiency : F
  pub digest : Inputs F → String
  pub patterns : Patterns F
