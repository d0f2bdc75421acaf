-- ===== src/Schemas/Assessment.antt =====
-- backend/suas/schemas/assessment.py: the sealed decision.
use lang_graph_uas.Prelude.{Bool, true, false, List, String}

pub data Decision : Type 0 where
  go no_go insufficient_data : Decision

pub data AssessmentMode : Type 0 where
  advisory operational : AssessmentMode

pub data Blocker : Type 0 where
  weather_not_live weather_degraded assessment_incomplete provenance_incomplete : Blocker
  power_not_operational_grade blue_list_snapshot_unavailable corpus_quarantined : Blocker

pub record DeterministicAssessment : Type 0 where
  pub decision : Decision
  pub reasons : List String
  pub mode : AssessmentMode
  pub blockers : List Blocker
  pub inputs_hash : String
  pub calculator_version : String

abbrev pub is_go : Decision → Bool
is_go go = true
is_go _ = false

abbrev pub is_viable : DeterministicAssessment → Bool
is_viable a = is_go a.decision

abbrev pub mode_is_operational : AssessmentMode → Bool
mode_is_operational operational = true
mode_is_operational advisory = false

abbrev pub is_operational : DeterministicAssessment → Bool
is_operational a = mode_is_operational a.mode

-- The values of the `StrEnum`s.
abbrev pub mode_value : AssessmentMode → String
mode_value advisory = "advisory"
mode_value operational = "operational"

abbrev pub blocker_value : Blocker → String
blocker_value weather_not_live = "WEATHER_NOT_LIVE"
blocker_value weather_degraded = "WEATHER_DEGRADED"
blocker_value assessment_incomplete = "ASSESSMENT_INCOMPLETE"
blocker_value provenance_incomplete = "PROVENANCE_INCOMPLETE"
blocker_value power_not_operational_grade = "POWER_NOT_OPERATIONAL_GRADE"
blocker_value blue_list_snapshot_unavailable = "BLUE_LIST_SNAPSHOT_UNAVAILABLE"
blocker_value corpus_quarantined = "CORPUS_QUARANTINED"
