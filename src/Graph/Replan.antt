-- ===== src/Graph/Replan.antt =====
-- backend/suas/graph/replan.py: the replan graph, a line of five nodes with no model in it.
use lang_graph_uas.Prelude.{◌≡◌, refl, ◌↔◌, Bool, true, List, [], ◌∷◌, Option, none, some, is_empty}
use lang_graph_uas.Float.{Float}
use lang_graph_uas.Schemas.Domain.{Aircraft, Payload}
use lang_graph_uas.Schemas.Telemetry.{TelemetrySnapshot}
use lang_graph_uas.Schemas.Assessment.{DeterministicAssessment}
use lang_graph_uas.Schemas.Alerts.{
  Alert, Severity, RecommendedAction, land_now, worst_severity, strongest_action,
}
use lang_graph_uas.Calculations.Replan.{LiveEnergy, Value, compute_live_energy, evaluate_replan}
use lang_graph_uas.Calculations.Replan.Laws.{
  IsQuiet, IsUrgent, evaluate_replan-IsQuiet_iff, evaluate_replan-IsUrgent_iff,
}

-- `ReplanState`. A key that no node has written yet holds what its reader takes by default.
pub record ReplanState (F : Type 0) : Type 0 where
  pub snapshot : TelemetrySnapshot F
  pub aircraft : Option (Aircraft F)
  pub payload : Option (Payload F)
  pub briefed_assessment : Option DeterministicAssessment
  pub briefed_margin_wh : F
  pub snapshot_age_s : F
  pub live_energy : Option (LiveEnergy F)
  pub alerts : List (Alert (Value F))
  pub severity : Severity
  pub recommended_action : RecommendedAction
  pub operational_ok : Bool

module _ {F : Type 0} where
  -- The snapshot of a typed state is valid, and its dump stands for it.
  abbrev pub ingest_telemetry : ReplanState F → ReplanState F
  ingest_telemetry s = s

  -- A missing assessment is logged, and stays missing.
  abbrev pub merge_briefed_state : ReplanState F → ReplanState F
  merge_briefed_state s = record s { briefed_assessment = s.briefed_assessment }

  unfoldable pub alert : ReplanState F → ReplanState F
  alert s = record s {
    severity = worst_severity s.alerts;
    recommended_action = strongest_action s.alerts;
    operational_ok = is_empty s.alerts;
  }

  abbrev pub then_node :
      (ReplanState F → Option (ReplanState F)) → Option (ReplanState F) → Option (ReplanState F)
  then_node node none = none
  then_node node (some s) = node s

module _ {F : Type 0} ⦃f : Float F⦄ (reserve_percent : F) where
  abbrev recalculated :
      ReplanState F → Option (Aircraft F) → Option (Payload F) → Option (ReplanState F)
  recalculated s (some a) (some p) =
      some (record s { live_energy = some (compute_live_energy a p s.snapshot reserve_percent) })
  recalculated s _ _ = none

  -- `none` is the validation error of a missing airframe or payload.
  unfoldable pub recalculate : ReplanState F → Option (ReplanState F)
  recalculate s = recalculated s s.aircraft s.payload

  abbrev compared :
      ReplanState F → Option (Aircraft F) → Option (Payload F) → Option (ReplanState F)
  compared s (some a) (some p) = some (record s {
    alerts =
        (evaluate_replan a p s.snapshot s.briefed_margin_wh reserve_percent s.snapshot_age_s).1;
  })
  compared s _ _ = none

  unfoldable pub compare : ReplanState F → Option (ReplanState F)
  compare s = compared s s.aircraft s.payload

  -- The edges of `build_replan_graph`, from its start to its end.
  unfoldable pub replan : ReplanState F → Option (ReplanState F)
  replan s =
      then_node (λ u. some (alert u))
        (then_node compare (recalculate (merge_briefed_state (ingest_telemetry s))))

  is_empty_iff : {A : Type 0} (xs : List A) → (is_empty xs ≡ true) ↔ (xs ≡ [])
  is_empty_iff [] = ((λ h. refl), (λ h. refl))
  is_empty_iff (x ∷ xs) = ((λ h. absurd (cc)), (λ h. absurd (cc)))

  -- A replan of a plan whose airframe and payload are known always ends. It is fit for operational use
  -- exactly when every check of the snapshot is quiet, and it tells the operator to land now exactly when
  -- the residual is below the reserve or the wind is over the limit. The assessment that was briefed is
  -- as it was.
  pub replan_lem :
      (s : ReplanState F) (a : Aircraft F) (p : Payload F)
      → s.aircraft ≡ some a
      → s.payload ≡ some p
      → (t : ReplanState F) × (live : LiveEnergy F) × (replan s ≡ some t)
        × (t.live_energy ≡ some live)
        × (t.briefed_assessment ≡ s.briefed_assessment)
        × ((t.operational_ok ≡ true) ↔ IsQuiet a p s.snapshot s.snapshot_age_s live)
        × ((t.recommended_action ≡ land_now) ↔ IsUrgent a s.snapshot live)
  unfolding replan recalculate compare alert evaluate_replan
  replan_lem s a p ha hp =
      let live = compute_live_energy a p s.snapshot reserve_percent in
      let found =
        (evaluate_replan a p s.snapshot s.briefed_margin_wh reserve_percent s.snapshot_age_s).1 in
      let (to, from) = is_empty_iff found in
      let (quiet, calm) =
        evaluate_replan-IsQuiet_iff a p s.snapshot s.briefed_margin_wh reserve_percent
          s.snapshot_age_s in
      (
        record s {
          live_energy = some live;
          alerts = found;
          severity = worst_severity found;
          recommended_action = strongest_action found;
          operational_ok = is_empty found;
        },
        live,
        rw (ha, hp) refl,
        refl,
        refl,
        (λ h. quiet (to h), λ h. from (calm h)),
        (evaluate_replan-IsUrgent_iff a p s.snapshot s.briefed_margin_wh reserve_percent
            s.snapshot_age_s).1,
      )
