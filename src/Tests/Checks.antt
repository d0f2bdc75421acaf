-- ===== src/Tests/Checks.antt =====
-- The calculator, the gate, the alerts and the weather service on concrete values.
use lang_graph_uas.Prelude.{◌≡◌, ◌≢◌, refl, ◌↔◌, true, false, [], ◌∷◌, some}
use lang_graph_uas.Schemas.Assessment.{
  corpus_quarantined, advisory, operational, insufficient_data, is_viable,
}
use lang_graph_uas.Calculations.Gate.{GateInputs, operational_blockers}
use lang_graph_uas.Calculations.Gate.Laws.{Holds, Blocks, operational_blockers_iff}
use lang_graph_uas.Calculations.Physics.{
  scale_power_for_conditions, calculate_climb_energy, calculate_descent_energy,
  calculate_energy_required, calculate_ground_speed, calculate_density_altitude,
  calculate_air_density_ratio,
}
use lang_graph_uas.Calculations.Battery.{
  check_battery_viability, calculate_temperature_capacity_factor,
}
use lang_graph_uas.Calculations.Assessment.{
  build_safety_flags, build_energy_breakdown, pack_temp_is_acceptable, assess_mission,
  is_mission_viable, build_assessment, resolved,
}
use lang_graph_uas.Calculations.Assessment.Laws.{
  IsWithinLimits, assess_mission-viable_iff, build_assessment_lem,
}
use lang_graph_uas.Schemas.Responses.{Calculations}
use lang_graph_uas.Services.Weather.{cache_key, Readings, CacheKey}
use lang_graph_uas.Tests.Values.{Decimal, decimal, whole, quad, camera, survey, calm}

abbrev quarantined : GateInputs
quarantined = record {
  weather_is_live = true;
  weather_degraded = false;
  assessment_is_complete = true;
  provenance_is_complete = true;
  power_is_operational_grade = true;
  corpus_quarantined = true;
}

operational_blockers_iff_example :
    Holds corpus_quarantined (operational_blockers quarantined)
    ↔ Blocks quarantined corpus_quarantined
operational_blockers_iff_example = operational_blockers_iff quarantined corpus_quarantined

open decimal use {◌+◌, ◌*◌, ◌/◌}

infixl 65 ◌+◌
infixl 70 ◌*◌ ◌/◌
abbrev surveyed : Calculations Decimal
surveyed = assess_mission quad camera survey calm (whole 20) (whole 3) (decimal.lit 7 1)

viable : is_mission_viable surveyed ≡ true
unfolding is_mission_viable assess_mission build_safety_flags check_battery_viability
    calculate_temperature_capacity_factor build_energy_breakdown calculate_climb_energy
    calculate_descent_energy calculate_energy_required calculate_ground_speed
    calculate_density_altitude calculate_air_density_ratio scale_power_for_conditions
    pack_temp_is_acceptable
viable = refl

assess_mission-viable_iff_example :
    (is_mission_viable surveyed ≡ true)
    ↔ IsWithinLimits quad camera calm (whole 20) surveyed.energy_required_wh
assess_mission-viable_iff_example =
    assess_mission-viable_iff quad camera survey calm (whole 20) (whole 3) (decimal.lit 7 1)

build_assessment_lem_example :
    let sealed =
      build_assessment
        (λ inputs. "sha256:inputs")
        surveyed
        (resolved quad camera survey calm operational)
        operational
        (some calm)
        (some quad)
        (some camera)
        false in
    (is_viable sealed ≡ is_mission_viable surveyed)
    × (sealed.decision ≢ insufficient_data)
    × (sealed.mode ≡ advisory)
    × (sealed.inputs_hash ≡ "sha256:inputs")
build_assessment_lem_example =
    build_assessment_lem (λ inputs. "sha256:inputs") surveyed
      (resolved quad camera survey calm operational) operational (some calm) (some quad)
      (some camera) false

abbrev cell : CacheKey Decimal
cell = cache_key (whole 52) (whole 4)

abbrev held : Readings Decimal
held = (cell, calm) ∷ []
