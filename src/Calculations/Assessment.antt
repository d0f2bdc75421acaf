-- ===== src/Calculations/Assessment.antt =====
-- backend/suas/calculations/assessment.py: the assessment of a mission, and its sealed decision.
pub mod Laws
use lang_graph_uas.Prelude.{
  Bool, true, false, ◌&&◌, List, [], ◌∷◌, map, Option, none, some, String, not, concat, or_else,
  lookup, keep_if,
}
use lang_graph_uas.Float.{Float, zero_f}
use lang_graph_uas.Schemas.Domain.{Aircraft, Payload, Provenance}
use lang_graph_uas.Schemas.Requests.{MissionParams}
use lang_graph_uas.Schemas.Responses.{
  WeatherReading, SafetyFlags, EnergyBreakdown, Calculations, is_operational_grade, degraded,
}
use lang_graph_uas.Schemas.Assessment.{
  Decision, go, no_go, insufficient_data, AssessmentMode, advisory, DeterministicAssessment,
}
use lang_graph_uas.Calculations.Battery.{check_battery_viability}
use lang_graph_uas.Calculations.Physics.{
  calculate_density_altitude, calculate_air_density_ratio, scale_power_for_conditions,
  calculate_ground_speed, calculate_energy_required, calculate_climb_energy,
  calculate_descent_energy,
}
use lang_graph_uas.Calculations.Gate.{
  GateInputs, operational_blockers, power_is_operational_grade, provenance_is_complete,
  resolve_mode,
}

abbrev pub calculator_version : String
calculator_version = "1.7.0"

-- `_FLAG_REASONS`.
flag_reasons : List (String × String)
flag_reasons =
    ("battery_viable", "Energy required exceeds usable battery capacity after reserve.")
    ∷ ("payload_within_limits", "Payload mass exceeds the airframe limit.")
    ∷ ("wind_within_limits", "Sustained wind exceeds the airframe limit.")
    ∷ ("gust_within_limits", "Gusts exceed the airframe wind limit.")
    ∷ ("temperature_within_limits", "Temperature is outside the airframe operating range.")
    ∷ (
      "pack_temp_within_takeoff_limits",
      "Ambient temperature is below the battery pack's documented takeoff minimum.",
    )
    ∷ ("cruise_achievable", "Headwind meets or exceeds cruise speed; no ground progress.")
    ∷ []

module _ {F : Type 0} ⦃f : Float F⦄ where
  open f use {◌+◌, ◌-◌, ◌/◌, lit, round, lt, le}

  infixl 65 ◌+◌ ◌-◌
  infixl 70 ◌/◌
  unfoldable pub pack_temp_is_acceptable : Aircraft F → WeatherReading F → Bool
  pack_temp_is_acceptable aircraft weather = elim aircraft.pack_min_takeoff_c [
    | none ↦ true
    | some least ↦ le least weather.temperature_c
  ]

  -- The keyword arguments in order: battery viable, payload margin, ground speed, weather, aircraft.
  unfoldable pub build_safety_flags : Bool → F → F → WeatherReading F → Aircraft F → SafetyFlags
  build_safety_flags viable payload_margin_kg ground_speed_mps weather aircraft = record {
    battery_viable = viable;
    payload_within_limits = le zero_f payload_margin_kg;
    wind_within_limits = le weather.wind_speed_mps aircraft.max_wind_mps;
    gust_within_limits = le weather.wind_gust_mps aircraft.max_wind_mps;
    temperature_within_limits =
        le aircraft.min_temp_c weather.temperature_c
        && le weather.temperature_c aircraft.max_temp_c;
    pack_temp_within_takeoff_limits = pack_temp_is_acceptable aircraft weather;
    cruise_achievable = lt zero_f ground_speed_mps;
  }

  -- Payload, parameters, hover power, cruise power, ground speed, all-up mass, vertical speed, climb
  -- efficiency.
  unfoldable pub build_energy_breakdown :
      Payload F → MissionParams F → F → F → F → F → F → F → EnergyBreakdown F
  build_energy_breakdown payload params hover cruise ground_speed mass vertical_speed efficiency =
      let draw = payload.power_draw_w in
      let climb_wh =
        calculate_climb_energy params.target_altitude_m mass hover draw vertical_speed efficiency in
      let descent_wh =
        calculate_descent_energy params.target_altitude_m hover draw vertical_speed in
      let hover_wh =
        calculate_energy_required zero_f params.hover_time_s ground_speed hover cruise draw in
      let cruise_wh =
        calculate_energy_required params.distance_m zero_f ground_speed hover cruise draw in
      record {
        climb_wh = climb_wh;
        cruise_wh = cruise_wh;
        hover_wh = hover_wh;
        descent_wh = descent_wh;
        total_wh = round (climb_wh + cruise_wh + hover_wh + descent_wh) 2;
      }

  -- Aircraft, payload, parameters, weather, reserve percent, vertical speed, climb efficiency.
  unfoldable pub assess_mission :
      Aircraft F → Payload F → MissionParams F → WeatherReading F → F → F → F → Calculations F
  assess_mission aircraft payload params weather reserve_percent vertical_speed efficiency =
      let altitude =
        calculate_density_altitude params.elevation_m weather.temperature_c
          params.target_altitude_m in
      let ratio = calculate_air_density_ratio altitude in
      let mass = round (aircraft.weight_kg + payload.weight_kg) 3 in
      let mass_ratio = mass / aircraft.weight_kg in
      let hover = scale_power_for_conditions aircraft.hover_power_w mass_ratio ratio in
      let cruise = scale_power_for_conditions aircraft.cruise_power_w mass_ratio ratio in
      let ground_speed = calculate_ground_speed aircraft.cruise_speed_mps weather.wind_speed_mps in
      let payload_margin = round (aircraft.max_payload_kg - payload.weight_kg) 2 in
      let breakdown =
        build_energy_breakdown payload params hover cruise ground_speed mass vertical_speed
          efficiency in
      let battery =
        check_battery_viability breakdown.total_wh aircraft.battery_wh reserve_percent
          weather.temperature_c in
      record {
        density_altitude_m = altitude;
        air_density_ratio = ratio;
        energy_required_wh = breakdown.total_wh;
        energy_breakdown = breakdown;
        payload_margin_kg = payload_margin;
        all_up_mass_kg = mass;
        ground_speed_mps = ground_speed;
        effective_hover_power_w = hover;
        battery_check = battery;
        safety_flags =
            build_safety_flags battery.is_viable payload_margin ground_speed weather aircraft;
      }

-- The conjunction over the flags of a calculation.
abbrev pub flags_pass : SafetyFlags → Bool
flags_pass flags =
    flags.battery_viable && flags.payload_within_limits && flags.wind_within_limits
    && flags.gust_within_limits && flags.temperature_within_limits
    && flags.pack_temp_within_takeoff_limits && flags.cruise_achievable

-- `sorted(flags.items())`: the names are in the order of the alphabet.
abbrev pub sorted_flags : SafetyFlags → List (String × Bool)
sorted_flags flags =
    ("battery_viable", flags.battery_viable)
    ∷ ("cruise_achievable", flags.cruise_achievable)
    ∷ ("gust_within_limits", flags.gust_within_limits)
    ∷ ("pack_temp_within_takeoff_limits", flags.pack_temp_within_takeoff_limits)
    ∷ ("payload_within_limits", flags.payload_within_limits)
    ∷ ("temperature_within_limits", flags.temperature_within_limits)
    ∷ ("wind_within_limits", flags.wind_within_limits)
    ∷ []

pub flag_reason : String → String
unfolding flag_reasons
flag_reason name =
    or_else (lookup name flag_reasons) (concat ("Safety flag " ∷ name ∷ " failed." ∷ []))

abbrev pub decision_of : List String → Decision × List String
decision_of [] = (go, [])
decision_of (r ∷ reasons) = (no_go, r ∷ reasons)

-- `inputs` that an assessment is computed from, and those of a mission that could not be assessed.
pub data Inputs (F : Type 0) : Type 0 where
  resolved : Aircraft F → Payload F → MissionParams F → WeatherReading F → AssessmentMode → Inputs F
  unresolved : String → String → MissionParams F → Inputs F

module _ {F : Type 0} where
  unfoldable pub is_mission_viable : Calculations F → Bool
  is_mission_viable calculations = flags_pass calculations.safety_flags

  unfoldable pub decide : Calculations F → Decision × List String
  decide calculations =
      let failed = keep_if (λ item. not item.1) (sorted_flags calculations.safety_flags) in
      decision_of (map (λ item. flag_reason item.0) failed)

  -- `aircraft.provenance if aircraft else {}`, and what the gate reads of the weather.
  abbrev aircraft_provenance : Option (Aircraft F) → Provenance F
  aircraft_provenance none = []
  aircraft_provenance (some a) = a.provenance

  abbrev payload_provenance : Option (Payload F) → Provenance F
  payload_provenance none = []
  payload_provenance (some p) = p.provenance

  abbrev weather_grade : Option (WeatherReading F) → Bool
  weather_grade none = false
  weather_grade (some w) = is_operational_grade w

  abbrev weather_is_degraded : Option (WeatherReading F) → Bool
  weather_is_degraded none = true
  weather_is_degraded (some w) = degraded w

  -- The gate's inputs for a completed calculation.
  abbrev pub gate_inputs :
      Option (WeatherReading F) → Option (Aircraft F) → Option (Payload F) → Bool → GateInputs
  gate_inputs weather aircraft payload corpus_quarantined =
      let a = aircraft_provenance aircraft in
      let p = payload_provenance payload in
      record {
        weather_is_live = weather_grade weather;
        weather_degraded = weather_is_degraded weather;
        assessment_is_complete = true;
        provenance_is_complete = provenance_is_complete a p;
        power_is_operational_grade = power_is_operational_grade a p;
        corpus_quarantined = corpus_quarantined;
      }

  -- `digest` is `compute_inputs_hash`: SHA-256 over the canonical JSON of the inputs.
  module _ (digest : Inputs F → String) where
    unfoldable pub build_assessment :
        Calculations F
        → Inputs F
        → AssessmentMode
        → Option (WeatherReading F)
        → Option (Aircraft F)
        → Option (Payload F)
        → Bool
        → DeterministicAssessment
    build_assessment calculations inputs requested_mode weather aircraft payload quarantined =
        let blockers = operational_blockers (gate_inputs weather aircraft payload quarantined) in
        record {
          decision = (decide calculations).0;
          reasons = (decide calculations).1;
          mode = resolve_mode requested_mode blockers;
          blockers = blockers;
          inputs_hash = digest inputs;
          calculator_version = calculator_version;
        }

    unfoldable pub insufficient_data_assessment : String → Inputs F → DeterministicAssessment
    insufficient_data_assessment reason inputs = record {
      decision = insufficient_data;
      reasons = reason ∷ [];
      mode = advisory;
      blockers = operational_blockers (record {
        weather_is_live = false;
        weather_degraded = true;
        assessment_is_complete = false;
        provenance_is_complete = false;
        power_is_operational_grade = false;
        corpus_quarantined = false;
      });
      inputs_hash = digest inputs;
      calculator_version = calculator_version;
    }
