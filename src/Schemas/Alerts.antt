-- ===== src/Schemas/Alerts.antt =====
-- backend/suas/schemas/alerts.py: what a replan tells an operator.
pub mod Order
use lang_graph_uas.Prelude.{ℕ, List, [], ◌∷◌, String, map, ltb, if◌then◌else◌}

pub data Severity : Type 0 where
  info watch warning abort : Severity

pub data AlertCode : Type 0 where
  energy_below_reserve energy_near_reserve wind_exceeds_limit soc_stale : AlertCode
  weather_degraded payload_mismatch : AlertCode

pub data RecommendedAction : Type 0 where
  continue land_soon land_now advisory_only : RecommendedAction

abbrev pub severity_order : Severity → ℕ
severity_order info = 0
severity_order watch = 1
severity_order warning = 2
severity_order abort = 3

abbrev pub action_order : RecommendedAction → ℕ
action_order continue = 0
action_order advisory_only = 1
action_order land_soon = 2
action_order land_now = 3

-- The `briefed`, `live` and `delta` dictionaries are lists of named values of the type `V`.
pub record Alert (V : Type 0) : Type 0 where
  pub severity : Severity
  pub code : AlertCode
  pub message : String
  pub briefed : List (String × V)
  pub live : List (String × V)
  pub delta : List (String × V)
  pub recommended_action : RecommendedAction

module _ {A : Type 0} where
  -- Python's `max(x, *xs, key=key)`: the first of the largest.
  unfoldable pub max_by : (A → ℕ) → A → List A → A
  max_by key best [] = best
  max_by key best (x ∷ xs) = max_by key (if ltb (key best) (key x) then x else best) xs

module _ {V : Type 0} where
  unfoldable pub worst_severity : List (Alert V) → Severity
  worst_severity [] = info
  worst_severity (a ∷ alerts) = max_by severity_order a.severity (map (λ b. b.severity) alerts)

  unfoldable pub strongest_action : List (Alert V) → RecommendedAction
  strongest_action [] = continue
  strongest_action (a ∷ alerts) =
      max_by action_order a.recommended_action (map (λ b. b.recommended_action) alerts)
