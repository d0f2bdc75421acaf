-- ===== src/Calculations/Assessment/Laws.antt =====
-- What the calculator's decision promises.
use lang_graph_uas.Prelude.{
  ◌≡◌, refl, ◌≢◌, ◌↔◌, Bool, true, false, not, List, [], Option, none, some, String, arith, map,
  keep_if, Bool-cases,
}
use lang_graph_uas.Float.{Float, zero_f}
use lang_graph_uas.Schemas.Domain.{Aircraft, Payload}
use lang_graph_uas.Schemas.Requests.{MissionParams}
use lang_graph_uas.Schemas.Responses.{WeatherReading, SafetyFlags, Calculations}
use lang_graph_uas.Schemas.Assessment.{
  Decision, go, no_go, insufficient_data, AssessmentMode, advisory, is_viable,
}
use lang_graph_uas.Calculations.Physics.{
  calculate_ground_speed, calculate_energy_required, scale_power_for_conditions,
}
use lang_graph_uas.Calculations.Battery.{
  check_battery_viability, calculate_temperature_capacity_factor,
}
use lang_graph_uas.Calculations.Gate.Laws.{resolve_mode-advisory}
use lang_graph_uas.Calculations.Assessment.{
  Inputs, is_mission_viable, decide, decision_of, flags_pass, build_assessment, assess_mission,
  build_energy_breakdown, gate_inputs, pack_temp_is_acceptable, build_safety_flags, flag_reason,
  sorted_flags,
}

-- The two views of the flags: the conjunction of all, and the list of those that failed.
abbrev pub IsAgreed : Bool → Decision × List String → Type 0
IsAgreed viable (d, reasons) =
    ((viable ≡ true) ↔ ((d ≡ go) × (reasons ≡ [])))
    × ((viable ≡ false) ↔ ((d ≡ no_go) × (reasons ≢ [])))

decide_flags :
    (flags : SafetyFlags)
    → IsAgreed (flags_pass flags) (
        decision_of
          (map (λ item. flag_reason item.0) (keep_if (λ item. not item.1) (sorted_flags flags))))
decide_flags flags = ground arith

module _ {F : Type 0} where
  -- A mission is decided `go` with no reasons exactly when every safety constraint passed, and `no_go`
  -- with at least one reason exactly when one failed.
  pub decide_agrees : (c : Calculations F) → IsAgreed (is_mission_viable c) (decide c)
  unfolding decide is_mission_viable
  decide_agrees c = decide_flags c.safety_flags

module _ {F : Type 0} ⦃f : Float F⦄ where
  open f use {◌+◌, ◌-◌, ◌*◌, ◌/◌, lit, round, lt, le}

  infixl 65 ◌+◌ ◌-◌
  infixl 70 ◌*◌ ◌/◌
  -- The takeoff minimum of a pack, where one is documented.
  abbrev pub PackAllows : Option F → F → Type 0
  PackAllows none temperature = Unit {0}
  PackAllows (some least) temperature = le least temperature ≡ true

  -- The limits of the airframe, its pack and its budget, over the inputs of a mission.
  pub record IsWithinLimits (aircraft : Aircraft F) (payload : Payload F)
      (weather : WeatherReading F) (reserve_percent energy_wh : F) : Type 0 where
    pub wind : le weather.wind_speed_mps aircraft.max_wind_mps ≡ true
    pub gust : le weather.wind_gust_mps aircraft.max_wind_mps ≡ true
    pub not_cold : le aircraft.min_temp_c weather.temperature_c ≡ true
    pub not_hot : le weather.temperature_c aircraft.max_temp_c ≡ true
    pub pack : PackAllows aircraft.pack_min_takeoff_c weather.temperature_c
    pub load : le zero_f (round (aircraft.max_payload_kg - payload.weight_kg) 2) ≡ true
    pub progress : lt zero_f (round (aircraft.cruise_speed_mps - weather.wind_speed_mps) 2) ≡ true
    pub budget :
        le zero_f (
          aircraft.battery_wh
            * calculate_temperature_capacity_factor weather.temperature_c
            * (lit 10 1 - reserve_percent / lit 1000 1)
          - energy_wh)
        ≡ true

  pack_lem :
      (least : Option F) (aircraft : Aircraft F) (weather : WeatherReading F)
      → aircraft.pack_min_takeoff_c ≡ least
      → (pack_temp_is_acceptable aircraft weather ≡ true) ↔ PackAllows least weather.temperature_c
  unfolding pack_temp_is_acceptable
  pack_lem none aircraft weather e = (λ h. tt, λ h. ground arith)
  pack_lem (some least) aircraft weather e = (λ h. ground arith, λ h. ground arith)

  -- A mission is viable exactly when wind, gusts, temperature, pack temperature, payload, ground speed
  -- and the derated battery less its reserve all keep inside their limits for the planned energy.
  pub assess_mission-viable_iff :
      (a : Aircraft F) (p : Payload F) (m : MissionParams F) (w : WeatherReading F)
      (reserve v e : F)
      → let c = assess_mission a p m w reserve v e in
        (is_mission_viable c ≡ true) ↔ IsWithinLimits a p w reserve c.energy_required_wh
  unfolding assess_mission is_mission_viable build_safety_flags check_battery_viability
      calculate_ground_speed
  assess_mission-viable_iff a p m w reserve v e =
      let (to, from) = pack_lem a.pack_min_takeoff_c a w refl in
      (
        λ h. record {
          wind = ground arith;
          gust = ground arith;
          not_cold = ground arith;
          not_hot = ground arith;
          pack = to (ground arith);
          load = ground arith;
          progress = ground arith;
          budget = ground arith;
        },
        λ h. ground (arith, from h.pack),
      )

  -- A mission that is viable has been charged for its whole cruise leg at the ground speed that it
  -- makes: the branch that charges nothing where there is no headway never supports a `go`.
  pub assess_mission-cruise_charged :
      (a : Aircraft F) (p : Payload F) (m : MissionParams F) (w : WeatherReading F)
      (reserve v e : F)
      → is_mission_viable (assess_mission a p m w reserve v e) ≡ true
      → let c = assess_mission a p m w reserve v e in
        let cruise =
          scale_power_for_conditions a.cruise_power_w
            (c.all_up_mass_kg / a.weight_kg)
            c.air_density_ratio in
        c.energy_breakdown.cruise_wh
        ≡ round
            (((c.effective_hover_power_w + p.power_draw_w) * zero_f
                + (cruise + p.power_draw_w) * (m.distance_m / c.ground_speed_mps))
              / lit 36000 1)
            2
  unfolding assess_mission is_mission_viable build_safety_flags build_energy_breakdown
      calculate_energy_required
  assess_mission-cruise_charged a p m w reserve v e h = ground arith

module _ {F : Type 0} (digest : Inputs F → String) where
  -- The sealed assessment of a completed calculation permits flight exactly when every safety
  -- constraint passed, is never one of missing data, and is advisory whatever mode was requested.
  pub build_assessment_lem :
      (c : Calculations F) (i : Inputs F) (requested : AssessmentMode)
      (w : Option (WeatherReading F)) (a : Option (Aircraft F)) (p : Option (Payload F))
      (quarantined : Bool)
      → let sealed = build_assessment digest c i requested w a p quarantined in
        (is_viable sealed ≡ is_mission_viable c)
        × (sealed.decision ≢ insufficient_data)
        × (sealed.mode ≡ advisory)
        × (sealed.inputs_hash ≡ digest i)
  unfolding build_assessment
  build_assessment_lem c i requested w a p quarantined = (
    ground (arith, decide_agrees c, Bool-cases (is_mission_viable c)),
    ground (arith, decide_agrees c, Bool-cases (is_mission_viable c)),
    resolve_mode-advisory requested (gate_inputs w a p quarantined),
    refl,
  )
