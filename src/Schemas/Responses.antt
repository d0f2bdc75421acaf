-- ===== src/Schemas/Responses.antt =====
-- backend/suas/schemas/responses.py: weather readings and the results of a calculation.
use lang_graph_uas.Prelude.{ℕ, Bool, true, false, not, Option, String}

pub data WeatherSource : Type 0 where
  live cached_fresh cached_stale fallback error fixture : WeatherSource

-- `fetched_at` is a datetime, in microseconds.
pub record WeatherReading (F : Type 0) : Type 0 where
  pub temperature_c : F
  pub wind_speed_mps : F
  pub wind_gust_mps : F
  pub wind_direction : F
  pub humidity_percent : F
  pub conditions : String
  pub source : WeatherSource
  pub fetched_at : Option ℕ

-- Membership of `OPERATIONAL_WEATHER`.
abbrev pub source_is_operational : WeatherSource → Bool
source_is_operational live = true
source_is_operational cached_fresh = true
source_is_operational _ = false

abbrev pub is_operational_grade : {F : Type 0} → WeatherReading F → Bool
is_operational_grade r = source_is_operational r.source

abbrev pub degraded : {F : Type 0} → WeatherReading F → Bool
degraded r = not (is_operational_grade r)

pub record SafetyFlags : Type 0 where
  pub battery_viable : Bool
  pub payload_within_limits : Bool
  pub wind_within_limits : Bool
  pub gust_within_limits : Bool
  pub temperature_within_limits : Bool
  pub pack_temp_within_takeoff_limits : Bool
  pub cruise_achievable : Bool

pub record BatteryCheck (F : Type 0) : Type 0 where
  pub energy_required_wh : F
  pub usable_capacity_wh : F
  pub margin_wh : F
  pub reserve_percent : F
  pub temperature_factor : F
  pub is_viable : Bool

pub record EnergyBreakdown (F : Type 0) : Type 0 where
  pub climb_wh : F
  pub cruise_wh : F
  pub hover_wh : F
  pub descent_wh : F
  pub total_wh : F

pub record Calculations (F : Type 0) : Type 0 where
  pub density_altitude_m : F
  pub air_density_ratio : F
  pub energy_required_wh : F
  pub energy_breakdown : EnergyBreakdown F
  pub payload_margin_kg : F
  pub all_up_mass_kg : F
  pub ground_speed_mps : F
  pub effective_hover_power_w : F
  pub battery_check : BatteryCheck F
  pub safety_flags : SafetyFlags
