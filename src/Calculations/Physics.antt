-- ===== src/Calculations/Physics.antt =====
-- backend/suas/calculations/physics.py: powers, densities and energies.
use lang_graph_uas.Prelude.{◌||◌, if◌then◌else◌}
use lang_graph_uas.Float.{Float, zero_f}

module _ {F : Type 0} ⦃f : Float F⦄ where
  open f use {lit, ◌+◌, ◌-◌, ◌*◌, ◌/◌, pow, round, lt, le}

  infixl 65 ◌+◌ ◌-◌
  infixl 70 ◌*◌ ◌/◌
  abbrev meters_per_foot : F
  meters_per_foot = lit 3048 4

  abbrev isa_sea_level_temp_c : F
  isa_sea_level_temp_c = lit 150 1

  abbrev gravity_mps2 : F
  gravity_mps2 = lit 980665 5

  abbrev isa_lapse_rate_c_per_m : F
  isa_lapse_rate_c_per_m = lit 65 4

  abbrev density_altitude_m_per_c : F
  density_altitude_m_per_c = lit 1188 1 * meters_per_foot

  -- 2.25577e-5
  abbrev isa_density_lapse_per_m : F
  isa_density_lapse_per_m = lit 225577 10

  abbrev isa_density_exponent : F
  isa_density_exponent = lit 425588 5

  abbrev pub seconds_per_hour : F
  seconds_per_hour = lit 36000 1

  abbrev momentum_mass_exponent : F
  momentum_mass_exponent = lit 15 1

  unfoldable pub calculate_density_altitude : F → F → F → F
  calculate_density_altitude elevation_m temp_c agl_m =
      let operating_altitude_m = elevation_m + agl_m in
      let oat_at_altitude_c = temp_c - isa_lapse_rate_c_per_m * agl_m in
      let isa_temp_c = isa_sea_level_temp_c - isa_lapse_rate_c_per_m * operating_altitude_m in
      round (operating_altitude_m + density_altitude_m_per_c * (oat_at_altitude_c - isa_temp_c)) 2

  -- `min(ratio, 1.5)` is `1.5` only where that is the smaller.
  unfoldable pub calculate_air_density_ratio : F → F
  calculate_air_density_ratio density_altitude_m =
      let base = lit 10 1 - isa_density_lapse_per_m * density_altitude_m in
      let ratio = pow base isa_density_exponent in
      if le base zero_f then lit 1 2 else round (if lt (lit 15 1) ratio then lit 15 1 else ratio) 4

  unfoldable pub scale_power_for_conditions : F → F → F → F
  scale_power_for_conditions base_power_w mass_ratio density_ratio =
      let scaled =
        base_power_w * pow mass_ratio momentum_mass_exponent / pow density_ratio (lit 5 1) in
      if le mass_ratio zero_f || le density_ratio zero_f then base_power_w else round scaled 2

  unfoldable pub calculate_ground_speed : F → F → F
  calculate_ground_speed cruise_speed_mps wind_speed_mps =
      round (cruise_speed_mps - wind_speed_mps) 2

  -- The keyword arguments, in the order of the signature: distance, hover time, ground speed, hover
  -- power, cruise power, payload power.
  unfoldable pub calculate_energy_required : F → F → F → F → F → F → F
  calculate_energy_required distance_m hover_time_s ground_speed_mps hover_power_w cruise_power_w
        payload_power_w =
      let cruise_time_s =
        if lt zero_f ground_speed_mps then distance_m / ground_speed_mps else zero_f in
      let hover_energy_j = (hover_power_w + payload_power_w) * hover_time_s in
      let cruise_energy_j = (cruise_power_w + payload_power_w) * cruise_time_s in
      round ((hover_energy_j + cruise_energy_j) / seconds_per_hour) 2

  -- Height, mass, hover power, payload power, vertical speed, efficiency.
  unfoldable pub calculate_climb_energy : F → F → F → F → F → F → F
  calculate_climb_energy height_m mass_kg hover_power_w payload_power_w vertical_speed_mps
        efficiency =
      let climb_time_s = height_m / vertical_speed_mps in
      let hold_energy_j = (hover_power_w + payload_power_w) * climb_time_s in
      let potential_energy_j = mass_kg * gravity_mps2 * height_m / efficiency in
      if le height_m zero_f || le vertical_speed_mps zero_f || le efficiency zero_f
      then zero_f
      else round ((hold_energy_j + potential_energy_j) / seconds_per_hour) 2

  -- Height, hover power, payload power, vertical speed.
  unfoldable pub calculate_descent_energy : F → F → F → F → F
  calculate_descent_energy height_m hover_power_w payload_power_w vertical_speed_mps =
      let descent_time_s = height_m / vertical_speed_mps in
      if le height_m zero_f || le vertical_speed_mps zero_f
      then zero_f
      else round ((hover_power_w + payload_power_w) * descent_time_s / seconds_per_hour) 2
