-- ===== src/Calculations/Battery.antt =====
-- backend/suas/calculations/battery.py: the battery budget.
use lang_graph_uas.Prelude.{if◌then◌else◌}
use lang_graph_uas.Float.{Float, zero_f}
use lang_graph_uas.Schemas.Responses.{BatteryCheck}

module _ {F : Type 0} ⦃f : Float F⦄ where
  open f use {lit, neg, ◌+◌, ◌-◌, ◌*◌, ◌/◌, round, le}

  infixl 65 ◌+◌ ◌-◌
  infixl 70 ◌*◌ ◌/◌
  abbrev pub default_reserve_percent : F
  default_reserve_percent = lit 200 1

  abbrev pub warm_temp_c : F
  warm_temp_c = lit 200 1

  abbrev pub cold_temp_c : F
  cold_temp_c = neg (lit 100 1)

  abbrev pub cold_capacity_factor : F
  cold_capacity_factor = lit 65 2

  unfoldable pub calculate_temperature_capacity_factor : F → F
  calculate_temperature_capacity_factor temperature_c =
      let span = warm_temp_c - cold_temp_c in
      let fraction = (temperature_c - cold_temp_c) / span in
      let factor = cold_capacity_factor + fraction * (lit 10 1 - cold_capacity_factor) in
      if le warm_temp_c temperature_c
      then lit 10 1
      else if le temperature_c cold_temp_c
      then cold_capacity_factor
      else round factor 4

  unfoldable pub check_battery_viability : F → F → F → F → BatteryCheck F
  check_battery_viability energy_required_wh battery_capacity_wh reserve_percent temperature_c =
      let temperature_factor = calculate_temperature_capacity_factor temperature_c in
      let available_wh = battery_capacity_wh * temperature_factor in
      let usable_capacity_wh = available_wh * (lit 10 1 - reserve_percent / lit 1000 1) in
      let margin_wh = usable_capacity_wh - energy_required_wh in
      record {
        energy_required_wh = round energy_required_wh 2;
        usable_capacity_wh = round usable_capacity_wh 2;
        margin_wh = round margin_wh 2;
        reserve_percent = reserve_percent;
        temperature_factor = temperature_factor;
        is_viable = le zero_f margin_wh;
      }
