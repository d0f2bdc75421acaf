-- ===== src/FlightLogs/Store.antt =====
-- backend/suas/db/flight_logs.py: storing a log, and applying what it measured to its airframe.
pub mod Applied
pub mod Ingested
use Prim.Native.Nat
use lang_graph_uas.Prelude.{
  ℕ, zero, suc, Bool, true, false, not, ◌&&◌, ◌||◌, List, [], ◌∷◌, ◌++◌, Option, none, some, String,
  length, lookup, insert, str_eq, leb, ltb, is_empty, concat, if◌then◌else◌,
}
use lang_graph_uas.Float.{Float, zero_f}
use lang_graph_uas.Schemas.Provenance.{Confidence, low, FieldProvenance, flight_log}
use lang_graph_uas.Schemas.Domain.{Aircraft, Provenance}
use lang_graph_uas.FlightLogs.Samples.{FlightLogSample, FlightPhase, effective_power_w, speed_mps}
use lang_graph_uas.FlightLogs.Estimate.{
  PowerEstimate, Estimated, estimated, no_estimate, value_error, estimate_hover_power,
  estimate_cruise_power,
}
use lang_graph_uas.FlightLogs.Import.{
  Texts, CsvFile, ParsedLog, total_rows, LogError, Parsed, parsed, refused, parse_flight_log,
}

abbrev pub min_apply_samples : ℕ
min_apply_samples = 30

-- The three columns of an estimate are written together.
pub record Measured (F : Type 0) : Type 0 where
  pub median_w : F
  pub samples : ℕ
  pub confidence : Confidence

pub record FlightLogRow (F : Type 0) : Type 0 where
  pub log_id : String
  pub airframe_id : String
  pub uploaded_at : ℕ
  pub sha256 : String
  pub raw_csv : String
  pub row_count : ℕ
  pub rejected_rows : ℕ
  pub hover : Option (Measured F)
  pub cruise : Option (Measured F)
  pub applied : Bool

pub record FlightLogSampleRow (F : Type 0) : Type 0 where
  pub log_id : String
  pub sequence : ℕ
  pub recorded_at : ℕ
  pub alt_m : F
  pub power_w : F
  pub speed_mps : Option F
  pub phase : FlightPhase

pub record Tables (F : Type 0) : Type 0 where
  pub aircraft : List (String × Aircraft F)
  pub logs : List (String × FlightLogRow F)
  pub samples : List (FlightLogSampleRow F)

-- How a call ends: the value and the tables, or an error, which leaves the tables as they were.
pub data Outcome (F : Type 0) (A : Type 0) : Type 0 where
  done : A → Tables F → Outcome F A
  log_error : LogError → Outcome F A
  already_ingested : String → Outcome F A
  unknown_log : Outcome F A
  unknown_airframe : Outcome F A
  raised : Outcome F A

module _ {F : Type 0} where
  -- `_find_by_hash`.
  unfoldable pub find_by_hash : String → List (String × FlightLogRow F) → Option String
  find_by_hash sha256 [] = none
  find_by_hash sha256 ((id, row) ∷ logs) =
      if str_eq row.sha256 sha256 then some id else find_by_hash sha256 logs

  -- `none` where the estimate raised.
  abbrev pub measured : Estimated F → Option (Option (Measured F))
  measured (estimated e) =
      some (
        some
          (record { median_w = e.median_w; samples = e.sample_count; confidence = e.confidence }))
  measured no_estimate = some none
  measured value_error = none

module _ {F : Type 0} ⦃f : Float F⦄ where
  abbrev sample_row : String → ℕ → FlightLogSample F → F → FlightLogSampleRow F
  sample_row log_id sequence s watts = record {
    log_id = log_id;
    sequence = sequence;
    recorded_at = s.timestamp;
    alt_m = s.alt_m;
    power_w = watts;
    speed_mps = speed_mps s;
    phase = s.phase;
  }

  abbrev pub row_and :
      String
      → ℕ
      → FlightLogSample F
      → Option F
      → Option (List (FlightLogSampleRow F))
      → Option (List (FlightLogSampleRow F))
  row_and log_id sequence s none rows = none
  row_and log_id sequence s (some watts) none = none
  row_and log_id sequence s (some watts) (some rows) =
      some (sample_row log_id sequence s watts ∷ rows)

  abbrev pub sample_rows :
      String → ℕ → List (FlightLogSample F) → Option (List (FlightLogSampleRow F))
  sample_rows log_id sequence [] = some []
  sample_rows log_id sequence (s ∷ samples) =
      row_and log_id sequence s (effective_power_w s) (sample_rows log_id (suc sequence) samples)

  module _ (texts : Texts F) (log_id : String) (now : ℕ) (airframe_id content : String) where
    abbrev pub log_row : ParsedLog F → Option (Measured F) → Option (Measured F) → FlightLogRow F
    log_row log hover cruise = record {
      log_id = log_id;
      airframe_id = airframe_id;
      uploaded_at = now;
      sha256 = log.sha256;
      raw_csv = content;
      row_count = total_rows log;
      rejected_rows = log.rejected_rows;
      hover = hover;
      cruise = cruise;
      applied = false;
    }

    abbrev pub added :
        Tables F
        → ParsedLog F
        → Option (Option (Measured F))
        → Option (Option (Measured F))
        → Option (List (FlightLogSampleRow F))
        → Outcome F (FlightLogRow F)
    added tables log none cruise rows = raised
    added tables log (some hover) none rows = raised
    added tables log (some hover) (some cruise) none = raised
    added tables log (some hover) (some cruise) (some rows) =
        let row = log_row log hover cruise in
        done row
          (record tables { logs = (log_id, row) ∷ tables.logs; samples = rows ++ tables.samples })

    abbrev pub unless_ingested : Tables F → ParsedLog F → Option String → Outcome F (FlightLogRow F)
    unless_ingested tables log (some existing) = already_ingested existing
    unless_ingested tables log none =
        added tables log (measured (estimate_hover_power log.samples))
          (measured (estimate_cruise_power log.samples)) (sample_rows log_id 0 log.samples)

    abbrev pub stored_log : Tables F → Parsed F → Outcome F (FlightLogRow F)
    stored_log tables (refused e) = log_error e
    stored_log tables (parsed log) =
        unless_ingested tables log (find_by_hash log.sha256 tables.logs)

    -- `log_id` is the `uuid4` of the new row.
    unfoldable pub store_flight_log : CsvFile → Tables F → Outcome F (FlightLogRow F)
    store_flight_log csv tables = stored_log tables (parse_flight_log texts content csv)

  abbrev pub provenance_for : (ℕ → String) → String → String → PowerEstimate F → FieldProvenance F
  provenance_for digits today log_id e = record {
    value = e.median_w;
    unit = "W";
    source = flight_log;
    source_url = none;
    retrieved_at = some today;
    confidence = e.confidence;
    notes = concat (
        "Median of "
        ∷ digits e.sample_count
        ∷ " selected samples from log "
        ∷ log_id
        ∷ ". Interquartile range "
        ∷ f.show e.iqr_w
        ∷ " W."
        ∷ []);
  }

  -- `_usable_estimate`.
  abbrev pub usable_estimate : Option (Measured F) → Option (PowerEstimate F)
  usable_estimate none = none
  usable_estimate (some m) =
      if ltb m.samples min_apply_samples
      then none
      else some (record {
        median_w = m.median_w;
        sample_count = m.samples;
        iqr_w = zero_f;
        confidence = m.confidence;
      })

  abbrev pub set_hover : F → Provenance F → Aircraft F → Aircraft F
  set_hover watts provenance a = record a { hover_power_w = watts; provenance = provenance }

  abbrev pub set_cruise : F → Provenance F → Aircraft F → Aircraft F
  set_cruise watts provenance a = record a { cruise_power_w = watts; provenance = provenance }

  module _ (digits : ℕ → String) (today log_id : String) where
    -- One round of the loop of `apply_flight_log`: the airframe and the fields changed so far.
    abbrev pub apply_field :
        String
        → (F → Provenance F → Aircraft F → Aircraft F)
        → Option (PowerEstimate F)
        → Aircraft F × List String
        → Aircraft F × List String
    apply_field field set none (a, changed) = (a, changed)
    apply_field field set (some e) (a, changed) = (
      set e.median_w (insert field (provenance_for digits today log_id e) a.provenance) a,
      changed ++ (field ∷ []),
    )

    abbrev pub apply_fields : FlightLogRow F → Aircraft F → Aircraft F × List String
    apply_fields row a =
        apply_field "cruise_power_w" set_cruise (usable_estimate row.cruise)
          (apply_field "hover_power_w" set_hover (usable_estimate row.hover) (a, []))

    abbrev pub written :
        FlightLogRow F → Tables F → Aircraft F × List String → Outcome F (List String)
    written row tables (a, []) = done [] tables
    written row tables (a, field ∷ changed) = done (field ∷ changed) (record tables {
      aircraft = insert row.airframe_id a tables.aircraft;
      logs = insert log_id (record row { applied = true }) tables.logs;
    })

    abbrev pub with_airframe :
        FlightLogRow F → Tables F → Option (Aircraft F) → Outcome F (List String)
    with_airframe row tables none = unknown_airframe
    with_airframe row tables (some a) = written row tables (apply_fields row a)

    abbrev pub with_log : Tables F → Option (FlightLogRow F) → Outcome F (List String)
    with_log tables none = unknown_log
    with_log tables (some row) = with_airframe row tables (lookup row.airframe_id tables.aircraft)

    unfoldable pub apply_flight_log : Tables F → Outcome F (List String)
    apply_flight_log tables = with_log tables (lookup log_id tables.logs)
