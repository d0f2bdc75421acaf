-- ===== src/Calculations/Replan/Laws.antt =====
-- What the alerts of a replan tell, and when there are none.
use lang_graph_uas.Prelude.{
  ◌≡◌, ◌↔◌, ◌⊎◌, inl, inr, true, false, [], none, some, arith, All, Option-cases, Bool-cases,
}
use lang_graph_uas.Float.{Float, zero_f}
use lang_graph_uas.Schemas.Domain.{Aircraft, Payload}
use lang_graph_uas.Schemas.Telemetry.{TelemetrySnapshot}
use lang_graph_uas.Schemas.Alerts.{
  Severity, RecommendedAction, worst_severity, strongest_action, max_by,
}
use lang_graph_uas.Schemas.Alerts.Order.{
  IsPaired, action_of-land_now, strongest_action-worst_severity,
}
use lang_graph_uas.Calculations.Replan.{
  LiveEnergy, is_below_reserve, is_near_reserve, max_operational_snapshot_age_s,
  compute_live_energy, energy_alert, wind_alert, staleness_alert, payload_alert, evaluate_replan,
}

module _ {F : Type 0} ⦃f : Float F⦄ where
  open f use {lt, le}

  -- What each check of a replan finds, in the words of the snapshot.
  abbrev pub IsQuiet : Aircraft F → Payload F → TelemetrySnapshot F → F → LiveEnergy F → Type 0
  IsQuiet aircraft payload snapshot age live =
      (is_below_reserve live ≡ false)
      × (is_near_reserve live ≡ false)
      × ((wind : F) × (snapshot.wind_mps ≡ some wind) × (lt aircraft.max_wind_mps wind ≡ false))
      × (le age max_operational_snapshot_age_s ≡ true)
      × (lt zero_f payload.weight_kg ≡ snapshot.payload_attached)

  abbrev pub IsUrgent : Aircraft F → TelemetrySnapshot F → LiveEnergy F → Type 0
  IsUrgent aircraft snapshot live =
      (is_below_reserve live ≡ true)
      ⊎ ((wind : F) × (snapshot.wind_mps ≡ some wind) × (lt aircraft.max_wind_mps wind ≡ true))

  wind_alert-none :
      (a : Aircraft F) (s : TelemetrySnapshot F)
      → wind_alert a s ≡ none
      → (wind : F) × (s.wind_mps ≡ some wind) × (lt a.max_wind_mps wind ≡ false)
  unfolding wind_alert
  wind_alert-none a s h = elim (Option-cases s.wind_mps) [
    | inl e ↦ absurd (ground arith)
    | inr (wind, e) ↦ (wind, e, ground arith)
  ]

  -- A replan raises no alert exactly when the residual keeps clear of the reserve and of one and a half
  -- times the reserve, the wind is reported and within the limit, the snapshot is fresh, and the
  -- payload is the one briefed.
  pub evaluate_replan-IsQuiet_iff :
      (a : Aircraft F) (p : Payload F) (s : TelemetrySnapshot F) (margin reserve age : F)
      → let (live, alerts) = evaluate_replan a p s margin reserve age in
        (alerts ≡ []) ↔ IsQuiet a p s age live
  unfolding evaluate_replan energy_alert wind_alert staleness_alert payload_alert
  evaluate_replan-IsQuiet_iff a p s margin reserve age = (
    λ h. (
      ground arith,
      ground arith,
      wind_alert-none a s (ground arith),
      ground arith,
      ground arith,
    ),
    λ h. ground arith,
  )

  evaluate_replan-IsPaired :
      (a : Aircraft F) (p : Payload F) (s : TelemetrySnapshot F) (margin reserve age : F)
      → All IsPaired (evaluate_replan a p s margin reserve age).1
  unfolding evaluate_replan energy_alert wind_alert staleness_alert payload_alert
  evaluate_replan-IsPaired a p s margin reserve age = ground arith

  worst_severity-abort :
      (a : Aircraft F) (p : Payload F) (s : TelemetrySnapshot F) (margin reserve age : F)
      → let (live, alerts) = evaluate_replan a p s margin reserve age in
        (worst_severity alerts ≡ Severity.abort) ↔ IsUrgent a s live
  unfolding evaluate_replan energy_alert wind_alert staleness_alert payload_alert worst_severity
      max_by
  worst_severity-abort a p s margin reserve age =
      let live = compute_live_energy a p s reserve in
      (
        λ h. elim (Bool-cases (is_below_reserve live)) [
          | inl below ↦ inl below
          | inr clear ↦ elim (Option-cases s.wind_mps) [
            | inl e ↦ absurd (ground arith)
            | inr (wind, e) ↦ inr (wind, e, ground arith)
          ]
        ],
        elim [ inl below ↦ ground arith | inr (wind, e, over) ↦ ground arith ],
      )

  -- The worst severity of a replan is an abort, and its strongest action is to land now, exactly when
  -- the residual is below the reserve or the reported wind exceeds the limit of the airframe.
  pub evaluate_replan-IsUrgent_iff :
      (a : Aircraft F) (p : Payload F) (s : TelemetrySnapshot F) (margin reserve age : F)
      → let (live, alerts) = evaluate_replan a p s margin reserve age in
        ((worst_severity alerts ≡ Severity.abort) ↔ IsUrgent a s live)
        × ((strongest_action alerts ≡ RecommendedAction.land_now) ↔ IsUrgent a s live)
  evaluate_replan-IsUrgent_iff a p s margin reserve age =
      let alerts = (evaluate_replan a p s margin reserve age).1 in
      let (to, from) = worst_severity-abort a p s margin reserve age in
      let paired = evaluate_replan-IsPaired a p s margin reserve age in
      let (abort, land) = action_of-land_now (worst_severity alerts) in
      (
        (to, from),
        rw (strongest_action-worst_severity alerts paired) (λ h. to (abort h), λ h. land (from h)),
      )
