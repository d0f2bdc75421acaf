-- ===== src/Calculations/Gate.antt =====
-- backend/suas/calculations/gate.py: may this plan carry operational weight.
pub mod Laws
use lang_graph_uas.Prelude.{
  Bool, false, ◌&&◌, not, List, [], ◌∷◌, ◌++◌, map, Option, none, some, String, all, lookup,
  has_key, if◌then◌else◌,
}
use lang_graph_uas.Schemas.Provenance.{FieldProvenance, is_operational_grade}
use lang_graph_uas.Schemas.Domain.{Provenance}
use lang_graph_uas.Schemas.Assessment.{
  AssessmentMode, advisory, operational, Blocker, weather_not_live, weather_degraded,
  assessment_incomplete, provenance_incomplete, power_not_operational_grade,
  blue_list_snapshot_unavailable, corpus_quarantined,
}

-- Sorted, as `power_is_operational_grade` reads them.
abbrev pub power_fields_aircraft : List String
power_fields_aircraft = "battery_wh" ∷ "cruise_power_w" ∷ "hover_power_w" ∷ []

abbrev pub power_fields_payload : List String
power_fields_payload = "power_draw_w" ∷ []

abbrev pub required_provenance_aircraft : List String
required_provenance_aircraft =
    "weight_kg" ∷ "max_payload_kg" ∷ "battery_wh" ∷ "max_wind_mps" ∷ "cruise_speed_mps"
    ∷ "hover_power_w" ∷ "cruise_power_w" ∷ "max_temp_c" ∷ "min_temp_c" ∷ []

abbrev pub required_provenance_payload : List String
required_provenance_payload = "weight_kg" ∷ "power_draw_w" ∷ []

-- `keys() >= required`.
abbrev pub covers : {F : Type 0} → Provenance F → List String → Bool
covers records required = all (λ field. has_key field records) required

module _ {F : Type 0} where
  unfoldable pub provenance_is_complete : Provenance F → Provenance F → Bool
  provenance_is_complete aircraft payload =
      covers aircraft required_provenance_aircraft && covers payload required_provenance_payload

  abbrev pub record_is_grade : Option (FieldProvenance F) → Bool
  record_is_grade none = false
  record_is_grade (some r) = is_operational_grade r

  unfoldable pub power_is_operational_grade : Provenance F → Provenance F → Bool
  power_is_operational_grade aircraft payload =
      let records = map (λ field. lookup field aircraft) power_fields_aircraft in
      let more = map (λ field. lookup field payload) power_fields_payload in
      all record_is_grade (records ++ more)

pub record GateInputs : Type 0 where
  pub weather_is_live : Bool
  pub weather_degraded : Bool
  pub assessment_is_complete : Bool
  pub provenance_is_complete : Bool
  pub power_is_operational_grade : Bool
  pub corpus_quarantined : Bool

-- `if test: blockers.append(b)`
abbrev pub append_if : Bool → Blocker → List Blocker → List Blocker
append_if test b blockers = if test then blockers ++ (b ∷ []) else blockers

unfoldable pub operational_blockers : GateInputs → List Blocker
operational_blockers i =
    let b₁ = append_if (not i.weather_is_live) Blocker.weather_not_live [] in
    let b₂ = append_if i.weather_degraded Blocker.weather_degraded b₁ in
    let b₃ = append_if (not i.assessment_is_complete) Blocker.assessment_incomplete b₂ in
    let b₄ = append_if (not i.provenance_is_complete) Blocker.provenance_incomplete b₃ in
    let b₅ = append_if (not i.power_is_operational_grade) Blocker.power_not_operational_grade b₄ in
    let b₆ = append_if i.corpus_quarantined Blocker.corpus_quarantined b₅ in
    b₆ ++ (Blocker.blue_list_snapshot_unavailable ∷ [])

unfoldable pub resolve_mode : AssessmentMode → List Blocker → AssessmentMode
resolve_mode operational [] = operational
resolve_mode _ _ = advisory
