-- ===== src/FlightLogs/Samples/Selected.antt =====
-- Which samples are selected as hover and as cruise.
use lang_graph_uas.Prelude.{
  suc, Bool, true, ◌&&◌, List, [], ◌∷◌, Option, none, some, length, All, Any, All-map, Bool-cases,
  and_lem, inl, inr, ◌≡◌, refl, ap,
}
use lang_graph_uas.Float.{Float}
use lang_graph_uas.FlightLogs.Samples.{
  FlightLogSample, speed_mps, climb_rates_mps, rates_after, zip, is_stationary, may_hover,
  may_cruise, is_hover, is_cruise, flies, chosen, select_hover_samples, select_cruise_samples,
  max_hover_climb_rate_mps, max_cruise_climb_rate_mps, min_cruise_speed_mps, max_hover_speed_mps,
  slow_or_none,
}

module _ {F : Type 0} ⦃f : Float F⦄ where
  open f use {le, lt, abs}

  length-rates_after :
      (previous : FlightLogSample F) (samples : List (FlightLogSample F))
      → length (rates_after previous samples) ≡ length samples
  unfolding rates_after
  length-rates_after previous [] = refl
  length-rates_after previous (s ∷ samples) = ap suc (length-rates_after s samples)

  -- There is one rate for each sample, so the strict `zip` never raises.
  pub length-climb_rates_mps :
      (samples : List (FlightLogSample F)) → length (climb_rates_mps samples) ≡ length samples
  unfolding climb_rates_mps
  length-climb_rates_mps [] = refl
  length-climb_rates_mps (s ∷ samples) = ap suc (length-rates_after s samples)

  -- The sample stands in the log, with the rate that was measured for it.
  abbrev pub WasMeasured : List (FlightLogSample F) → FlightLogSample F → F → Type 0
  WasMeasured samples s rate =
      Any (λ pair. pair ≡ (s, rate)) (zip samples (climb_rates_mps samples))

  -- Each chosen sample stands in the list with a rate that passes the test with it.
  chosen-All :
      (p : FlightLogSample F × F → Bool) (pairs : List (FlightLogSample F × F))
      → All
          (λ s. (rate : F) × Any (λ pair. pair ≡ (s, rate)) pairs × (p (s, rate) ≡ true))
          (chosen p pairs)
  chosen-All p [] = tt
  chosen-All p ((s, rate) ∷ pairs) =
      let rest =
        All-map (λ s. (rate : F) × Any (λ pair. pair ≡ (s, rate)) pairs × (p (s, rate) ≡ true))
          (λ s'. (r : F) × Any (λ pair. pair ≡ (s', r)) ((s, rate) ∷ pairs) × (p (s', r) ≡ true))
          (λ s' h. (h.0, inr h.1, h.2)) (chosen p pairs) (chosen-All p pairs) in
      elim (Bool-cases (p (s, rate))) [
        | inl e ↦ rw e ((rate, inl refl, e), rest)
        | inr e ↦ rw e rest
      ]

  -- A sample of the log in a hover: not marked as climb, descent or cruise, measured to rise or sink by at
  -- most 0.5 m/s, and with no speed or one of at most 1.5 m/s.
  pub record IsHovering (samples : List (FlightLogSample F)) (s : FlightLogSample F) : Type 0 where
    pub rate : F
    pub measured : WasMeasured samples s rate
    pub phase : may_hover s.phase ≡ true
    pub level : le (abs rate) max_hover_climb_rate_mps ≡ true
    pub still : is_stationary s max_hover_speed_mps ≡ true

  -- A sample of the log in level forward flight: not marked as climb, descent or hover, measured to rise or
  -- sink by at most 1 m/s, and with a speed of at least 3 m/s.
  pub record IsCruising (samples : List (FlightLogSample F)) (s : FlightLogSample F) : Type 0 where
    pub rate : F
    pub measured : WasMeasured samples s rate
    pub phase : may_cruise s.phase ≡ true
    pub level : le (abs rate) max_cruise_climb_rate_mps ≡ true
    pub moving : flies (speed_mps s) ≡ true

  pub select_hover_samples-IsHovering :
      (samples : List (FlightLogSample F)) → All (IsHovering samples) (select_hover_samples samples)
  unfolding select_hover_samples
  select_hover_samples-IsHovering samples =
      let pairs = zip samples (climb_rates_mps samples) in
      All-map (λ s. (rate : F) × Any (λ pair. pair ≡ (s, rate)) pairs × (is_hover (s, rate) ≡ true))
        (IsHovering samples)
        (λ s h.
          let last = and_lem (may_hover s.phase && le (abs h.0) max_hover_climb_rate_mps) _ h.2 in
          let first = and_lem (may_hover s.phase) _ last.0 in
          record { rate = h.0; measured = h.1; phase = first.0; level = first.1; still = last.1 })
        (chosen is_hover pairs) (chosen-All is_hover pairs)

  pub select_cruise_samples-IsCruising :
      (samples : List (FlightLogSample F))
      → All (IsCruising samples) (select_cruise_samples samples)
  unfolding select_cruise_samples
  select_cruise_samples-IsCruising samples =
      let pairs = zip samples (climb_rates_mps samples) in
      All-map
        (λ s. (rate : F) × Any (λ pair. pair ≡ (s, rate)) pairs × (is_cruise (s, rate) ≡ true))
        (IsCruising samples)
        (λ s h.
          let last = and_lem (may_cruise s.phase && flies (speed_mps s)) _ h.2 in
          let first = and_lem (may_cruise s.phase) _ last.0 in
          record { rate = h.0; measured = h.1; phase = first.0; moving = first.1; level = last.1 })
        (chosen is_cruise pairs) (chosen-All is_cruise pairs)

  -- Both selections take only samples of the log whose phase, measured rate and speed fit, and, where a
  -- speed of at most 1.5 is less than 3, no sample can be in both.
  pub selections_lem :
      (samples : List (FlightLogSample F))
      → ((x : F) → le x max_hover_speed_mps ≡ true → lt x min_cruise_speed_mps ≡ true)
      → All (IsHovering samples) (select_hover_samples samples)
        × All (IsCruising samples) (select_cruise_samples samples)
        × All (λ s. ¬ IsCruising samples s) (select_hover_samples samples)
  selections_lem samples apart = (
    select_hover_samples-IsHovering samples,
    select_cruise_samples-IsCruising samples,
    All-map (IsHovering samples) (λ s. ¬ IsCruising samples s)
        (λ s h c. at_speed (speed_mps s) h.still c.moving) (select_hover_samples samples)
        (select_hover_samples-IsHovering samples),
  )
    where
      at_speed :
          (speed : Option F)
          → slow_or_none max_hover_speed_mps speed ≡ true
          → flies speed ≡ true
          → ⊥
      at_speed none h c = absurd (cc)
      at_speed (some x) h c = let lower = apart x h in let c' = rw lower at c in absurd (cc)
