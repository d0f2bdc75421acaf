-- ===== src/FlightLogs/Samples.antt =====
-- backend/suas/schemas/flight_log.py, and the selection of samples of calculations/from_log.py.
pub mod Selected
use lang_graph_uas.Prelude.{
  ℕ, Bool, true, false, not, ◌&&◌, ◌||◌, List, [], ◌∷◌, ◌++◌, Option, none, some, String, is_some,
  if◌then◌else◌,
}
use lang_graph_uas.Float.{Float, zero_f}

pub data FlightPhase : Type 0 where
  hover climb cruise descent unknown : FlightPhase

-- A time is counted in microseconds.
pub record FlightLogSample (F : Type 0) : Type 0 where
  pub timestamp : ℕ
  pub alt_m : F
  pub power_w : Option F
  pub voltage_v : Option F
  pub current_a : Option F
  pub tas_mps : Option F
  pub groundspeed_mps : Option F
  pub wind_mps : Option F
  pub outside_temp_c : Option F
  pub payload_id : Option String
  pub phase : FlightPhase

-- Not `in` the set of phases that the selection leaves out.
abbrev pub may_hover : FlightPhase → Bool
may_hover climb = false
may_hover descent = false
may_hover cruise = false
may_hover _ = true

abbrev pub may_cruise : FlightPhase → Bool
may_cruise climb = false
may_cruise descent = false
may_cruise hover = false
may_cruise _ = true

module _ {F : Type 0} where
  -- `_require_a_power_figure`.
  abbrev pub has_power_figure : FlightLogSample F → Bool
  has_power_figure s = is_some s.power_w || (is_some s.voltage_v && is_some s.current_a)

  -- Airspeed, or else ground speed.
  abbrev pub speed_mps : FlightLogSample F → Option F
  speed_mps s = first s.tas_mps
    where
      first : Option F → Option F
      first none = s.groundspeed_mps
      first (some v) = some v

module _ {F : Type 0} ⦃f : Float F⦄ where
  open f use {lit, neg, ◌-◌, ◌*◌, ◌/◌, abs, le, lt, total_seconds}

  infixl 65 ◌-◌
  infixl 70 ◌*◌ ◌/◌
  abbrev pub product : Option F → Option F → Option F
  product none c = none
  product (some v) none = none
  product (some v) (some c) = some (v * c)

  abbrev pub power_or : Option F → Option F → Option F
  power_or none watts = watts
  power_or (some p) watts = some p

  -- `none` is the `ValueError` of a sample with no power figure.
  unfoldable pub effective_power_w : FlightLogSample F → Option F
  effective_power_w s = power_or s.power_w (product s.voltage_v s.current_a)

  abbrev pub max_hover_climb_rate_mps : F
  max_hover_climb_rate_mps = lit 5 1

  abbrev pub max_cruise_climb_rate_mps : F
  max_cruise_climb_rate_mps = lit 10 1

  abbrev pub min_cruise_speed_mps : F
  min_cruise_speed_mps = lit 30 1

  abbrev pub max_hover_speed_mps : F
  max_hover_speed_mps = lit 15 1

  -- The rate from one sample to the next.
  abbrev rate_between : FlightLogSample F → FlightLogSample F → F
  rate_between previous current =
      let seconds = total_seconds current.timestamp previous.timestamp in
      if le seconds zero_f then zero_f else (current.alt_m - previous.alt_m) / seconds

  unfoldable pub rates_after : FlightLogSample F → List (FlightLogSample F) → List F
  rates_after previous [] = []
  rates_after previous (current ∷ samples) =
      rate_between previous current ∷ rates_after current samples

  unfoldable pub climb_rates_mps : List (FlightLogSample F) → List F
  unfolding rates_after
  climb_rates_mps [] = []
  climb_rates_mps (sample ∷ samples) = zero_f ∷ rates_after sample samples

  abbrev pub slow_or_none : F → Option F → Bool
  slow_or_none limit none = true
  slow_or_none limit (some speed) = le speed limit

  abbrev pub is_stationary : FlightLogSample F → F → Bool
  is_stationary sample limit = slow_or_none limit (speed_mps sample)

  -- `zip(samples, rates, strict=True)`; the two are of one length.
  abbrev pub zip : List (FlightLogSample F) → List F → List (FlightLogSample F × F)
  zip (sample ∷ samples) (rate ∷ rates) = (sample, rate) ∷ zip samples rates
  zip _ _ = []

  abbrev pub is_hover : FlightLogSample F × F → Bool
  is_hover (sample, rate) =
      may_hover sample.phase
      && le (abs rate) max_hover_climb_rate_mps
      && is_stationary sample max_hover_speed_mps

  abbrev pub flies : Option F → Bool
  flies none = false
  flies (some speed) = not (lt speed min_cruise_speed_mps)

  abbrev pub is_cruise : FlightLogSample F × F → Bool
  is_cruise (sample, rate) =
      may_cruise sample.phase && flies (speed_mps sample) && le (abs rate) max_cruise_climb_rate_mps

  abbrev pub chosen :
      (FlightLogSample F × F → Bool) → List (FlightLogSample F × F) → List (FlightLogSample F)
  chosen p [] = []
  chosen p ((sample, rate) ∷ pairs) =
      if p (sample, rate) then sample ∷ chosen p pairs else chosen p pairs

  unfoldable pub select_hover_samples : List (FlightLogSample F) → List (FlightLogSample F)
  unfolding climb_rates_mps
  select_hover_samples samples = chosen is_hover (zip samples (climb_rates_mps samples))

  unfoldable pub select_cruise_samples : List (FlightLogSample F) → List (FlightLogSample F)
  unfolding climb_rates_mps
  select_cruise_samples samples = chosen is_cruise (zip samples (climb_rates_mps samples))
