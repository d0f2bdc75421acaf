-- ===== src/Schemas/Alerts/Order.antt =====
-- The overall severity and action of a list of alerts.
use lang_graph_uas.Prelude.{
  ℕ, ◌≡◌, ◌≤◌, refl, List, [], ◌∷◌, map, arith, All, Any, ltb, Bool-cases, inl, inr, if◌then◌else◌,
  ◌⊎◌, ◌↔◌,
}
use lang_graph_uas.Schemas.Alerts.{
  Alert, Severity, RecommendedAction, severity_order, action_order, max_by, worst_severity,
  strongest_action,
}

-- The action that goes with a severity.
abbrev pub action_of : Severity → RecommendedAction
action_of Severity.info = RecommendedAction.continue
action_of Severity.watch = RecommendedAction.advisory_only
action_of Severity.warning = RecommendedAction.land_soon
action_of Severity.abort = RecommendedAction.land_now

abbrev pub IsPaired : {V : Type 0} → Alert V → Type 0
IsPaired a = a.recommended_action ≡ action_of a.severity

pub action_of-land_now :
    (s : Severity) → (action_of s ≡ RecommendedAction.land_now) ↔ (s ≡ Severity.abort)
action_of-land_now Severity.abort = ground arith
action_of-land_now _ = ground arith

action_order_of : (s : Severity) → action_order (action_of s) ≡ severity_order s
action_order_of Severity.info = refl
action_order_of _ = refl

module _ {A : Type 0} (key : A → ℕ) where
  max_by-ge :
      (best : A) (xs : List A) (m : A)
      → max_by key best xs ≡ m
      → (key best ≤ key m) × All (λ x. key x ≤ key m) xs
  unfolding max_by
  max_by-ge best [] m e = (ground arith, tt)
  max_by-ge best (x ∷ xs) m e =
      let (le, rest) = max_by-ge (if ltb (key best) (key x) then x else best) xs m e in
      (ground (arith, le), (ground (arith, le), rest))

  max_by-Any :
      (best : A) (xs : List A) (m : A) → max_by key best xs ≡ m → Any (λ x. x ≡ m) (best ∷ xs)
  unfolding max_by
  max_by-Any best [] m e = inl e
  max_by-Any best (x ∷ xs) m e =
      let larger = if ltb (key best) (key x) then x else best in
      elim (max_by-Any larger xs m e) [
        | inr r ↦ inr (inr r)
        | inl p ↦ elim (Bool-cases (ltb (key best) (key x))) [
          | inl q ↦ inr (inl (rw q at p))
          | inr q ↦ inl (rw q at p)
        ]
      ]

larger-action_of :
    (s t : Severity)
    → (if ltb (action_order (action_of s)) (action_order (action_of t))
        then action_of t
        else action_of s)
      ≡ action_of (if ltb (severity_order s) (severity_order t) then t else s)
larger-action_of Severity.info t = ground arith
larger-action_of _ t = ground arith

module _ {V : Type 0} where
  max_by-action_of :
      (s : Severity) (alerts : List (Alert V))
      → All IsPaired alerts
      → max_by action_order (action_of s) (map (λ b. b.recommended_action) alerts)
        ≡ action_of (max_by severity_order s (map (λ b. b.severity) alerts))
  unfolding max_by
  max_by-action_of s [] h = refl
  max_by-action_of s (a ∷ alerts) (h, hs) =
      rw (h, larger-action_of s a.severity)
        (max_by-action_of
          (if ltb (severity_order s) (severity_order a.severity) then a.severity else s) alerts hs)

  -- Where each alert recommends the action of its severity, the strongest action is that of the worst
  -- severity.
  pub strongest_action-worst_severity :
      (alerts : List (Alert V))
      → All IsPaired alerts
      → strongest_action alerts ≡ action_of (worst_severity alerts)
  unfolding strongest_action worst_severity
  strongest_action-worst_severity [] h = refl
  strongest_action-worst_severity (a ∷ alerts) (h, hs) =
      rw h (max_by-action_of a.severity alerts hs)

  map-All :
      (P : Severity → Type 0) (alerts : List (Alert V))
      → All P (map (λ b. b.severity) alerts)
      → All (λ b. P b.severity) alerts
  map-All P [] h = h
  map-All P (a ∷ alerts) (h, hs) = (h, map-All P alerts hs)

  map-Any :
      (P : Severity → Type 0) (alerts : List (Alert V))
      → Any P (map (λ b. b.severity) alerts)
      → Any (λ b. P b.severity) alerts
  map-Any P [] h = h
  map-Any P (a ∷ alerts) (inl h) = inl h
  map-Any P (a ∷ alerts) (inr h) = inr (map-Any P alerts h)

  -- No alert is worse than the overall severity, and that is the severity of some alert, or `info` where
  -- there is none.
  pub worst_severity_lem :
      (alerts : List (Alert V))
      → let worst = worst_severity alerts in
        All (λ a. severity_order a.severity ≤ severity_order worst) alerts
        × (((alerts ≡ []) × (worst ≡ Severity.info)) ⊎ Any (λ a. a.severity ≡ worst) alerts)
  unfolding worst_severity
  worst_severity_lem [] = (tt, inl (refl, refl))
  worst_severity_lem (a ∷ alerts) =
      let severities = map (λ b. b.severity) alerts in
      let worst = max_by severity_order a.severity severities in
      let (le, rest) = max_by-ge severity_order a.severity severities worst refl in
      (
        (le, map-All (λ s. severity_order s ≤ severity_order worst) alerts rest),
        inr (
            map-Any (λ s. s ≡ worst) (a ∷ alerts)
              (max_by-Any severity_order a.severity severities worst refl)),
      )
