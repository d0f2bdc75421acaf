-- ===== src/Schemas/Domain.antt =====
-- backend/suas/schemas/domain.py: the airframe and its payload.
use lang_graph_uas.Prelude.{List, Option, String}
use lang_graph_uas.Schemas.Provenance.{FieldProvenance}

abbrev pub Provenance : Type 0 → Type 0
Provenance F = List (String × FieldProvenance F)

pub record Aircraft (F : Type 0) : Type 0 where
  pub id : String
  pub name : String
  pub weight_kg : F
  pub max_payload_kg : F
  pub battery_wh : F
  pub max_wind_mps : F
  pub cruise_speed_mps : F
  pub hover_power_w : F
  pub cruise_power_w : F
  pub max_temp_c : F
  pub min_temp_c : F
  pub pack_min_takeoff_c : Option F
  pub provenance : Provenance F

pub record Payload (F : Type 0) : Type 0 where
  pub id : String
  pub name : String
  pub weight_kg : F
  pub power_draw_w : F
  pub provenance : Provenance F
