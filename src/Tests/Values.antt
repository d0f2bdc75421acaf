-- ===== src/Tests/Values.antt =====
-- Concrete values that the definitions are run on: decimal numbers in place of floats, an airframe, a
-- payload, a calm day, and a service for each interface.
use lang_graph_uas.Prelude.{
  ℕ, zero, suc, true, false, List, [], ◌∷◌, Option, none, some, String, ltb, leb, if◌then◌else◌,
}
use Prim.Native.Nat.{◌+◌, ◌-◌, ◌*◌, ◌/◌}
use lang_graph_uas.Float.{Float}
use lang_graph_uas.Schemas.Provenance.{FieldProvenance, datasheet, high}
use lang_graph_uas.Schemas.Domain.{Aircraft, Payload, Provenance}
use lang_graph_uas.Schemas.Requests.{MissionParams, MissionRequest, MissionEdits, AckAction}
use lang_graph_uas.Schemas.Responses.{WeatherReading, live}
use lang_graph_uas.Schemas.Assessment.{operational}
use lang_graph_uas.Schemas.Telemetry.{TelemetrySnapshot}
use lang_graph_uas.Graph.State.{MissionState, Response, Dependencies, Patterns}
use lang_graph_uas.Graph.Workflow.{begin_anew}
use lang_graph_uas.Services.Weather.{
  Json, figure, Service, Instants, Exchange, answered, http_error,
}

-- Thousandths; `minus n` is the negative of `n + 1` of them.
pub data Decimal : Type 0 where
  plus : ℕ → Decimal
  minus : ℕ → Decimal

abbrev pub above : Decimal → ℕ
above (plus n) = n
above (minus n) = 0

abbrev pub below : Decimal → ℕ
below (plus n) = 0
below (minus n) = suc n

abbrev pub difference : ℕ → ℕ → Decimal
difference a b = if leb b a then plus (a - b) else minus (b - a - 1)

-- Ten to a power, and the quotient of two magnitudes, which is 0 over 0.
abbrev ten_to : ℕ → ℕ
ten_to zero = 1
ten_to (suc n) = 10 * ten_to n

abbrev over : ℕ → ℕ → ℕ
over a zero = 0
over a (suc b) = a * 1000 / suc b

abbrev total : List Decimal → Decimal
total [] = plus 0
total (x ∷ xs) = let y = total xs in difference (above x + above y) (below x + below y)

-- Rounding keeps the three digits, and a power and a root are their base.
instance abbrev pub decimal : Float Decimal
decimal = record {
  lit = λ m d. plus (m * 1000 / ten_to d);
  neg = λ x. difference (below x) (above x);
  ◌+◌ = λ x y. difference (above x + above y) (below x + below y);
  ◌-◌ = λ x y. difference (above x + below y) (below x + above y);
  ◌*◌ = λ x y.
      difference ((above x * above y + below x * below y) / 1000)
        ((above x * below y + below x * above y) / 1000);
  ◌/◌ = λ x y.
      difference (over (above x) (above y) + over (below x) (below y))
        (over (above x) (below y) + over (below x) (above y));
  pow = λ x y. x;
  abs = λ x. plus (above x + below x);
  sqrt = λ x. x;
  sum = total;
  round = λ x n. x;
  lt = λ x y. ltb (above x + below y) (below x + above y);
  le = λ x y. leb (above x + below y) (below x + above y);
  inf = plus 1000000000000000;
  is_finite = λ x. true;
  total_seconds = λ later earlier. difference (later / 1000) (earlier / 1000);
  show = λ x. "x";
}

abbrev pub whole : ℕ → Decimal
whole n = plus (n * 1000)

abbrev datasheet_figure : String → String × FieldProvenance Decimal
datasheet_figure field = (
  field,
  record {
    value = whole 1;
    unit = "W";
    source = datasheet;
    source_url = none;
    retrieved_at = none;
    confidence = high;
    notes = "";
  },
)

abbrev pub aircraft_figures : Provenance Decimal
aircraft_figures =
    datasheet_figure "battery_wh"
    ∷ datasheet_figure "cruise_power_w"
    ∷ datasheet_figure "hover_power_w"
    ∷ []

abbrev pub payload_figures : Provenance Decimal
payload_figures = datasheet_figure "power_draw_w" ∷ []

abbrev pub quad : Aircraft Decimal
quad = record {
  id = "quad";
  name = "Quad";
  weight_kg = whole 6;
  max_payload_kg = whole 2;
  battery_wh = whole 500;
  max_wind_mps = whole 12;
  cruise_speed_mps = whole 15;
  hover_power_w = whole 600;
  cruise_power_w = whole 500;
  max_temp_c = whole 40;
  min_temp_c = minus 9999;
  pack_min_takeoff_c = some (whole 5);
  provenance = aircraft_figures;
}

abbrev pub camera : Payload Decimal
camera = record {
  id = "camera";
  name = "Camera";
  weight_kg = whole 1;
  power_draw_w = whole 10;
  provenance = payload_figures;
}

abbrev pub survey : MissionParams Decimal
survey = record {
  distance_m = whole 3000;
  hover_time_s = whole 120;
  target_altitude_m = whole 60;
  elevation_m = whole 100;
  latitude = whole 52;
  longitude = whole 4;
}

abbrev pub calm : WeatherReading Decimal
calm = record {
  temperature_c = whole 18;
  wind_speed_mps = whole 3;
  wind_gust_mps = whole 5;
  wind_direction = whole 270;
  humidity_percent = whole 60;
  conditions = "Live meteorological feed";
  source = live;
  fetched_at = some 1000000;
}

abbrev pub patterns : Patterns Decimal
patterns = record {
  scrub = λ prose. prose;
  go_language = λ prose. none;
  unit_numerics =
      λ prose. record { literal = "7"; decimals = 0; value = whole 7; unit = "Wh" } ∷ [];
  any_numerics = λ prose. [];
  lower = λ prose. prose;
  dump_assessment = λ a. "{}";
  dump_calculations = λ c. "{}";
  dump_weather = λ w. "{}";
}

-- The catalogue holds the one airframe, and every payload is the camera.
abbrev pub catalogue : String → Option (Aircraft Decimal)
catalogue id = some quad

abbrev pub dependencies : Dependencies Decimal
dependencies = record {
  get_aircraft = catalogue;
  get_payload = λ id. some camera;
  has_open_quarantine = λ id. false;
  fetch_weather = λ latitude longitude. some calm;
  generate = λ viable name weather calculations citations. some "Cleared to fly on 7 Wh.";
  has_embedder = false;
  retrieve = λ question airframe. none;
  reserve_percent = whole 20;
  vertical_speed_mps = whole 3;
  climb_efficiency = plus 700;
  digest = λ inputs. "sha256:inputs";
  patterns = patterns;
}

abbrev pub request : MissionRequest Decimal
request = record {
  aircraft_id = "quad";
  payload_id = "camera";
  mission_params = survey;
  thread_id = none;
  assessment_mode = operational;
}

abbrev pub edits : MissionEdits Decimal
edits = record {
  target_altitude_m = some (whole 90);
  hover_time_s = none;
  payload_id = some "heavy";
}

abbrev pub response : AckAction → Response Decimal
response action = record { action = action; actor = "operator"; edits = edits }

-- A state that the review step has been reached with.
abbrev pub shown : MissionState Decimal
shown = record (begin_anew request) {
  aircraft = some quad;
  payload = some camera;
  weather = some calm;
}

abbrev pub snapshot : TelemetrySnapshot Decimal
snapshot = record {
  thread_id = "t";
  ts = 0;
  ts_text = "1970-01-01T00:00:00Z";
  soc_fraction = plus 600;
  remaining_leg_m = whole 1000;
  remaining_hover_s = whole 30;
  oat_c = whole 18;
  wind_mps = some (whole 4);
  payload_attached = true;
}

-- A provider's JSON numbers, and one that fails once before it answers.
abbrev pub json : Json Decimal Decimal
json = record { is_null = λ v. false; as_float = λ v. figure v }

abbrev pub service : Service Decimal
service = record { more_attempts = 1; cache_ttl_s = whole 300; stale_max_age_s = whole 3600 }

abbrev pub instants : Instants
instants = record { at_fresh_test = 10; at_stale_test = 11; at_parse = 12; at_store = 13 }

abbrev pub exchanges : ℕ → Exchange Decimal
exchanges zero = http_error
exchanges (suc k) = answered (
    ("temperature_2m", whole 18)
    ∷ ("wind_speed_10m", whole 3)
    ∷ ("wind_direction_10m", whole 270)
    ∷ ("relative_humidity_2m", whole 60)
    ∷ [])
