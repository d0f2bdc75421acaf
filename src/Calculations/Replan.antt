-- ===== src/Calculations/Replan.antt =====
-- backend/suas/calculations/replan.py: a briefed plan against what the aircraft reports.
pub mod Laws
use lang_graph_uas.Prelude.{
  Bool, true, false, List, [], ◌∷◌, Option, none, some, String, concat, present, if◌then◌else◌,
}
use lang_graph_uas.Float.{Float, zero_f}
use lang_graph_uas.Schemas.Domain.{Aircraft, Payload}
use lang_graph_uas.Schemas.Telemetry.{TelemetrySnapshot}
use lang_graph_uas.Schemas.Alerts.{
  Alert, Severity, AlertCode, RecommendedAction, energy_below_reserve, energy_near_reserve,
  wind_exceeds_limit, soc_stale, weather_degraded, payload_mismatch, land_now, land_soon,
  advisory_only,
}
use lang_graph_uas.Calculations.Battery.{calculate_temperature_capacity_factor}
use lang_graph_uas.Calculations.Physics.{calculate_energy_required}

pub record LiveEnergy (F : Type 0) : Type 0 where
  pub available_wh : F
  pub reserve_wh : F
  pub required_wh : F
  pub residual_wh : F
  pub temperature_factor : F

-- A value of an alert's `briefed`, `live` or `delta` dictionary.
pub data Value (F : Type 0) : Type 0 where
  number : F → Value F
  flag : Bool → Value F
  text : String → Value F
  missing : Value F

-- `a == b` of two Booleans.
abbrev pub same : Bool → Bool → Bool
same true b = b
same false true = false
same false false = true

module _ {F : Type 0} ⦃f : Float F⦄ where
  open f use {lit, ◌+◌, ◌-◌, ◌*◌, ◌/◌, round, lt, le, show}

  infixl 65 ◌+◌ ◌-◌
  infixl 70 ◌*◌ ◌/◌
  abbrev pub max_operational_snapshot_age_s : F
  max_operational_snapshot_age_s = lit 300 1

  abbrev pub near_reserve_multiple : F
  near_reserve_multiple = lit 15 1

  abbrev pub is_below_reserve : LiveEnergy F → Bool
  is_below_reserve live = lt live.residual_wh live.reserve_wh

  abbrev pub is_near_reserve : LiveEnergy F → Bool
  is_near_reserve live = lt live.residual_wh (live.reserve_wh * near_reserve_multiple)

  pub compute_live_energy : Aircraft F → Payload F → TelemetrySnapshot F → F → LiveEnergy F
  compute_live_energy aircraft payload snapshot reserve_percent =
      let factor = calculate_temperature_capacity_factor snapshot.oat_c in
      let available_wh = aircraft.battery_wh * snapshot.soc_fraction * factor in
      let reserve_wh = aircraft.battery_wh * factor * (reserve_percent / lit 1000 1) in
      let payload_power_w = if snapshot.payload_attached then payload.power_draw_w else zero_f in
      let required_wh =
        calculate_energy_required snapshot.remaining_leg_m snapshot.remaining_hover_s
          aircraft.cruise_speed_mps aircraft.hover_power_w aircraft.cruise_power_w
          payload_power_w in
      record {
        available_wh = round available_wh 2;
        reserve_wh = round reserve_wh 2;
        required_wh = round required_wh 2;
        residual_wh = round (available_wh - required_wh) 2;
        temperature_factor = factor;
      }

  -- The two alerts of `_energy_alert` share their figures.
  abbrev energy_finding :
      LiveEnergy F → F → Severity → AlertCode → String → RecommendedAction → Alert (Value F)
  energy_finding live margin severity code message action = record {
    severity = severity;
    code = code;
    message = message;
    briefed = ("margin_wh", number margin) ∷ [];
    live =
        ("available_wh", number live.available_wh)
        ∷ ("required_wh", number live.required_wh)
        ∷ ("residual_wh", number live.residual_wh)
        ∷ ("reserve_wh", number live.reserve_wh)
        ∷ [];
    delta = ("residual_wh", number (round (live.residual_wh - margin) 2)) ∷ [];
    recommended_action = action;
  }

  pub energy_alert : LiveEnergy F → F → Option (Alert (Value F))
  energy_alert live briefed_margin_wh =
      let below = concat (
        "Remaining energy "
        ∷ show live.residual_wh
        ∷ " Wh is below the "
        ∷ show live.reserve_wh
        ∷ " Wh reserve for the leg still to fly."
        ∷ []) in
      let near = concat (
        "Remaining energy "
        ∷ show live.residual_wh
        ∷ " Wh is within "
        ∷ show near_reserve_multiple
        ∷ " x the "
        ∷ show live.reserve_wh
        ∷ " Wh reserve."
        ∷ []) in
      if is_below_reserve live
      then some
          (energy_finding live briefed_margin_wh Severity.abort energy_below_reserve below land_now)
      else if is_near_reserve live
      then some (
          energy_finding live briefed_margin_wh Severity.warning energy_near_reserve near land_soon)
      else none

  -- The three remaining kinds of finding, with the dictionaries that each gives.
  abbrev wind_unknown : Aircraft F → Alert (Value F)
  wind_unknown aircraft = record {
    severity = Severity.watch;
    code = weather_degraded;
    message = "Snapshot reports no wind, so the wind limit could not be checked.";
    briefed = ("max_wind_mps", number aircraft.max_wind_mps) ∷ [];
    live = ("wind_mps", missing) ∷ [];
    delta = [];
    recommended_action = advisory_only;
  }

  abbrev wind_excess : Aircraft F → F → Alert (Value F)
  wind_excess aircraft wind = record {
    severity = Severity.abort;
    code = wind_exceeds_limit;
    message = concat (
        "Reported wind "
        ∷ show wind
        ∷ " m/s exceeds the airframe limit of "
        ∷ show aircraft.max_wind_mps
        ∷ " m/s."
        ∷ []);
    briefed = ("max_wind_mps", number aircraft.max_wind_mps) ∷ [];
    live = ("wind_mps", number wind) ∷ [];
    delta = ("wind_mps", number (round (wind - aircraft.max_wind_mps) 2)) ∷ [];
    recommended_action = land_now;
  }

  pub wind_alert : Aircraft F → TelemetrySnapshot F → Option (Alert (Value F))
  wind_alert aircraft snapshot = elim snapshot.wind_mps [
    | none ↦ some (wind_unknown aircraft)
    | some wind ↦ if lt aircraft.max_wind_mps wind then some (wind_excess aircraft wind) else none
  ]

  pub staleness_alert : TelemetrySnapshot F → F → Option (Alert (Value F))
  staleness_alert snapshot age =
      if le age max_operational_snapshot_age_s
      then none
      else some (record {
        severity = Severity.watch;
        code = soc_stale;
        message = concat (
            "Snapshot is "
            ∷ show (round age 1)
            ∷ " s old, beyond the "
            ∷ show max_operational_snapshot_age_s
            ∷ " s limit for operational use."
            ∷ []);
        briefed = [];
        live = ("age_s", number (round age 1)) ∷ ("ts", text snapshot.ts_text) ∷ [];
        delta = [];
        recommended_action = advisory_only;
      })

  pub payload_alert : Payload F → TelemetrySnapshot F → Option (Alert (Value F))
  payload_alert payload snapshot =
      let briefed_has_payload = lt zero_f payload.weight_kg in
      if same briefed_has_payload snapshot.payload_attached
      then none
      else some (record {
        severity = Severity.watch;
        code = payload_mismatch;
        message = concat (
            "Aircraft reports a different payload state than was briefed; the "
            ∷ "energy budget below assumes the reported state." ∷ []);
        briefed =
            ("payload_attached", flag briefed_has_payload) ∷ ("payload_id", text payload.id) ∷ [];
        live = ("payload_attached", flag snapshot.payload_attached) ∷ [];
        delta = [];
        recommended_action = advisory_only;
      })

  -- Aircraft, payload, snapshot, briefed margin, reserve percent, age.
  unfoldable pub evaluate_replan :
      Aircraft F
      → Payload F
      → TelemetrySnapshot F
      → F
      → F
      → F
      → LiveEnergy F × List (Alert (Value F))
  evaluate_replan aircraft payload snapshot briefed_margin_wh reserve_percent age =
      let live = compute_live_energy aircraft payload snapshot reserve_percent in
      let candidates =
        energy_alert live briefed_margin_wh
        ∷ wind_alert aircraft snapshot
        ∷ staleness_alert snapshot age
        ∷ payload_alert payload snapshot
        ∷ [] in
      (live, present candidates)
