-- ===== src/FlightLogs/Import.antt =====
-- backend/suas/flight_log_import.py: the import of an uploaded CSV file.
pub mod Rows
use Prim.Native.Nat
use lang_graph_uas.Prelude.{
  ℕ, zero, suc, Bool, true, false, not, ◌&&◌, ◌||◌, List, [], ◌∷◌, Option, none, some, String,
  length, is_blank, is_some, str_eq, holds, lookup, or_else, leb, ltb, take_chars, sort,
  if◌then◌else◌,
}
use lang_graph_uas.Float.{Float, zero_f}
use lang_graph_uas.FlightLogs.Samples.{
  FlightPhase, hover, climb, cruise, descent, unknown, FlightLogSample, has_power_figure,
}

abbrev pub max_bytes : ℕ
max_bytes = 5242880

abbrev pub max_rows : ℕ
max_rows = 100000

-- What the standard library and the model library do with a text: `strip`, `lower`, `float`, which is
-- `none` where it raises, the reading of a timestamp, its size in UTF-8, and SHA-256.
pub record Texts (F : Type 0) : Type 0 where
  pub strip : String → String
  pub lower : String → String
  pub to_float : String → Option F
  pub to_time : String → Option ℕ
  pub size : String → ℕ
  pub digest : String → String

-- What `csv.DictReader` makes of the file: its header, and each row without the cells that are missing.
abbrev pub CsvRow : Type 0
CsvRow = List (String × String)

pub record CsvFile : Type 0 where
  pub fieldnames : Option (List String)
  pub rows : List CsvRow

pub record ParsedLog (F : Type 0) : Type 0 where
  pub samples : List (FlightLogSample F)
  pub rejected_rows : ℕ
  pub sha256 : String

unfoldable pub total_rows : {F : Type 0} → ParsedLog F → ℕ
total_rows log = Nat.◌+◌ (length log.samples) log.rejected_rows

-- `FlightPhase(value)`, or unknown where that raises.
abbrev pub phase_named : String → FlightPhase
phase_named value =
    if str_eq value "hover"
    then hover
    else if str_eq value "climb"
    then climb
    else if str_eq value "cruise"
    then cruise
    else if str_eq value "descent"
    then descent
    else unknown

-- The errors of `parse_flight_log`, each a `FlightLogError`.
pub data LogError : Type 0 where
  too_large no_header no_columns too_many_rows no_rows : LogError

pub data Parsed (F : Type 0) : Type 0 where
  parsed : ParsedLog F → Parsed F
  refused : LogError → Parsed F

module _ {F : Type 0} ⦃f : Float F⦄ (texts : Texts F) where
  open texts use {strip, lower, to_float, to_time}

  unfoldable pub coerce_number : String → Option F
  coerce_number raw = let text = strip raw in if is_blank text then none else to_float text

  unfoldable pub coerce_phase : Option String → FlightPhase
  coerce_phase none = unknown
  coerce_phase (some raw) = phase_named (lower (strip raw))

  -- A column that is missing gives nothing, as a cell that is no number does.
  abbrev number_of : Option String → Option F
  number_of none = none
  number_of (some raw) = coerce_number raw

  abbrev number : String → CsvRow → Option F
  number column row = number_of (lookup column row)

  -- `(row.get(column) or "").strip()`.
  abbrev text_of : String → CsvRow → String
  text_of column row = strip (or_else (lookup column row) "")

  abbrev or_none : String → Option String
  or_none text = if is_blank text then none else some text

  -- A figure is refused below zero, by a test that NaN passes.
  abbrev pub is_sound : Option F → Bool
  is_sound none = true
  is_sound (some v) = not (f.lt v zero_f)

  abbrev pub figures_sound : FlightLogSample F → Bool
  figures_sound s =
      is_sound s.power_w
      && is_sound s.voltage_v
      && is_sound s.current_a
      && is_sound s.tas_mps
      && is_sound s.groundspeed_mps
      && is_sound s.wind_mps

  abbrev pub sample_from : ℕ → F → CsvRow → FlightLogSample F
  sample_from time alt row = record {
    timestamp = time;
    alt_m = alt;
    power_w = number "power_w" row;
    voltage_v = number "voltage_v" row;
    current_a = number "current_a" row;
    tas_mps = number "tas_mps" row;
    groundspeed_mps = number "groundspeed_mps" row;
    wind_mps = number "wind_mps" row;
    outside_temp_c = number "outside_temp_c" row;
    payload_id = or_none (take_chars 100 (text_of "payload_id" row));
    phase = coerce_phase (lookup "phase" row);
  }

  abbrev pub validated : FlightLogSample F → Option (FlightLogSample F)
  validated s = if figures_sound s && has_power_figure s then some s else none

  abbrev pub with_required : Option ℕ → Option F → CsvRow → Option (FlightLogSample F)
  with_required none alt row = none
  with_required (some time) none row = none
  with_required (some time) (some alt) row = validated (sample_from time alt row)

  -- `FlightLogSample.model_validate(_build_row(row))`; `none` is a `ValidationError`.
  unfoldable pub build_row : CsvRow → Option (FlightLogSample F)
  unfolding coerce_number coerce_phase
  build_row row = with_required (to_time (text_of "timestamp" row)) (number "alt_m" row) row

  abbrev pub sorted_row :
      Option (FlightLogSample F) → List (FlightLogSample F) × ℕ → List (FlightLogSample F) × ℕ
  sorted_row none (samples, rejected) = (samples, suc rejected)
  sorted_row (some s) (samples, rejected) = (s ∷ samples, rejected)

  -- The loop over the rows: the samples in order, and how many rows were rejected.
  unfoldable pub read_rows : List CsvRow → List (FlightLogSample F) × ℕ
  read_rows [] = ([], 0)
  read_rows (row ∷ rows) = sorted_row (build_row row) (read_rows rows)

  abbrev pub is_earlier : FlightLogSample F → FlightLogSample F → Bool
  is_earlier a b = ltb a.timestamp b.timestamp

  abbrev pub collected : String → List (FlightLogSample F) × ℕ → Parsed F
  collected content ([], rejected) = refused no_rows
  collected content (s ∷ samples, rejected) = parsed (record {
    samples = sort is_earlier (s ∷ samples);
    rejected_rows = rejected;
    sha256 = texts.digest content;
  })

  abbrev pub with_header : String → Option (List String) → List CsvRow → Parsed F
  with_header content none rows = refused no_header
  with_header content (some names) rows =
      if not (holds "timestamp" names && holds "alt_m" names)
      then refused no_columns
      else if ltb max_rows (length rows)
      then refused too_many_rows
      else collected content (read_rows rows)

  -- `csv` is what the reader makes of `content`.
  unfoldable pub parse_flight_log : String → CsvFile → Parsed F
  parse_flight_log content csv =
      if ltb max_bytes (texts.size content)
      then refused too_large
      else with_header content csv.fieldnames csv.rows
