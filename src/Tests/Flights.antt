-- ===== src/Tests/Flights.antt =====
-- Flight logs on a small file.
use lang_graph_uas.Prelude.{
  true, false, List, [], ◌∷◌, none, some, String, str_eq, All, sort, sorted_in, take_chars, arith,
  ◌≡◌, refl, if◌then◌else◌,
}
use lang_graph_uas.Schemas.Provenance.{medium, high}
use lang_graph_uas.FlightLogs.Samples.{
  FlightLogSample, hover, select_hover_samples, select_cruise_samples,
}
use lang_graph_uas.FlightLogs.Samples.Selected.{IsHovering, IsCruising, selections_lem}
use lang_graph_uas.FlightLogs.Estimate.{PowerEstimate, estimated, estimate_power}
use lang_graph_uas.FlightLogs.Estimate.Trust.{IsEarned, estimate_power-IsTrusted}
use lang_graph_uas.FlightLogs.Import.{
  Texts, CsvFile, ParsedLog, parsed, parse_flight_log, build_row, read_rows,
}
use lang_graph_uas.FlightLogs.Import.Rows.{IsImport, parse_flight_log-IsImport}
use lang_graph_uas.FlightLogs.Store.{
  FlightLogRow, Tables, done, already_ingested, find_by_hash, store_flight_log, apply_flight_log,
}
use lang_graph_uas.FlightLogs.Store.Applied.{IsApplication, apply_flight_log-IsApplication}
use lang_graph_uas.FlightLogs.Store.Ingested.{store_flight_log-twice}
use lang_graph_uas.Tests.Values.{Decimal, plus, whole, decimal, quad}

-- Every number is 100, and a time is read from the one text that is a time.
abbrev texts : Texts Decimal
texts = record {
  strip = λ text. text;
  lower = λ text. text;
  to_float = λ text. if str_eq text "x" then none else some (whole 100);
  to_time = λ text. if str_eq text "T1" then some 1000000 else none;
  size = λ text. 20;
  digest = λ text. "hash";
}

abbrev sample : FlightLogSample Decimal
sample = record {
  timestamp = 1000000;
  alt_m = whole 100;
  power_w = some (whole 100);
  voltage_v = none;
  current_a = none;
  tas_mps = none;
  groundspeed_mps = none;
  wind_mps = none;
  outside_temp_c = none;
  payload_id = none;
  phase = hover;
}

-- The second row has no power, and is rejected.
abbrev csv : CsvFile
csv = record {
  fieldnames = some ("timestamp" ∷ "alt_m" ∷ "power_w" ∷ "phase" ∷ []);
  rows =
      (("timestamp", "T1") ∷ ("alt_m", "9") ∷ ("power_w", "9") ∷ ("phase", "hover") ∷ [])
      ∷ (("timestamp", "T1") ∷ ("alt_m", "9") ∷ ("power_w", "x") ∷ [])
      ∷ [];
}

abbrev log : ParsedLog Decimal
log = record { samples = sample ∷ []; rejected_rows = 1; sha256 = "hash" }

parse_run : parse_flight_log texts "file" csv ≡ parsed log
unfolding parse_flight_log read_rows build_row sort sorted_in take_chars
parse_run = refl

parse_flight_log-IsImport_example : IsImport texts csv.rows log
parse_flight_log-IsImport_example = parse_flight_log-IsImport texts "file" csv log parse_run

slower : (x : Decimal) → decimal.le x (plus 1500) ≡ true → decimal.lt x (plus 3000) ≡ true
slower x h = ground arith

selections_lem_example :
    All (IsHovering (sample ∷ [])) (select_hover_samples (sample ∷ []))
    × All (IsCruising (sample ∷ [])) (select_cruise_samples (sample ∷ []))
    × All (λ s. ¬ IsCruising (sample ∷ []) s) (select_hover_samples (sample ∷ []))
selections_lem_example = selections_lem (sample ∷ []) slower

estimate_power-IsTrusted_example :
    (e : PowerEstimate Decimal) × (estimate_power (sample ∷ []) ≡ estimated e)
    × (e.sample_count ≡ 1)
    × IsEarned e.confidence 1
estimate_power-IsTrusted_example = estimate_power-IsTrusted sample [] (refl, tt)

-- A log with enough samples for the hover figure alone.
abbrev row : FlightLogRow Decimal
row = record {
  log_id = "l";
  airframe_id = "quad";
  uploaded_at = 0;
  sha256 = "older";
  raw_csv = "";
  row_count = 40;
  rejected_rows = 0;
  hover = some (record { median_w = whole 620; samples = 40; confidence = high });
  cruise = some (record { median_w = whole 480; samples = 29; confidence = medium });
  applied = false;
}

abbrev tables : Tables Decimal
tables = record { aircraft = ("quad", quad) ∷ []; logs = ("l", row) ∷ []; samples = [] }

apply_flight_log-IsApplication_example :
    (changed : List String) × ((after : Tables Decimal) × (apply_flight_log
          (λ n. "40")
          "2026-01-01"
          "l"
          tables
        ≡ done changed after)
      × IsApplication (λ n. "40") "2026-01-01" "l" row "battery_wh" quad "other" tables after)
apply_flight_log-IsApplication_example =
    apply_flight_log-IsApplication (λ n. "40") "2026-01-01" "l" tables row "battery_wh" quad "other"
      refl refl refl refl refl

new_hash : find_by_hash "hash" tables.logs ≡ none
unfolding find_by_hash
new_hash = refl

store_flight_log-twice_example :
    (stored : FlightLogRow Decimal) × ((after : Tables Decimal) × (store_flight_log texts "n" 5
          "quad" "file" csv tables
        ≡ done stored after)
      × (store_flight_log texts "m" 6 "heavy" "file" csv after ≡ already_ingested "n"))
store_flight_log-twice_example =
    store_flight_log-twice texts "n" 5 "quad" "file" csv tables log "m" 6 "heavy" parse_run new_hash
