-- ===== src/FlightLogs/Store/Ingested.antt =====
-- That an accepted log is stored, and stored once.
use text.Mathlib.TextPositions.{eq_refl}
use lang_graph_uas.Prelude.{
  ℕ, suc, Bool, true, false, List, [], ◌∷◌, ◌++◌, Option, none, some, String, length, is_some, All,
  All-map, Bool-cases, inl, inr, ◌≡◌, refl, ◌∙◌,
}
use lang_graph_uas.Float.{Float}
use lang_graph_uas.FlightLogs.Samples.{
  FlightLogSample, has_power_figure, effective_power_w, zip, chosen, climb_rates_mps, is_hover,
  is_cruise, select_hover_samples, select_cruise_samples,
}
use lang_graph_uas.FlightLogs.Estimate.{estimate_power, estimate_hover_power, estimate_cruise_power}
use lang_graph_uas.FlightLogs.Estimate.Trust.{effective_power_w-is_some, estimate_power-IsTrusted}
use lang_graph_uas.FlightLogs.Import.{
  Texts, CsvFile, ParsedLog, total_rows, parsed, parse_flight_log,
}
use lang_graph_uas.FlightLogs.Import.Rows.{IsValid, parse_flight_log-IsImport}
use lang_graph_uas.FlightLogs.Store.{
  Measured, FlightLogRow, FlightLogSampleRow, Tables, done, already_ingested, find_by_hash,
  measured, row_and, sample_rows, log_row, added, store_flight_log,
}

module _ {F : Type 0} ⦃f : Float F⦄ where
  -- What all samples have, the chosen ones have.
  chosen-keeps :
      (P : FlightLogSample F → Type 0) (p : FlightLogSample F × F → Bool)
      (samples : List (FlightLogSample F)) (rates : List F)
      → All P samples
      → All P (chosen p (zip samples rates))
  chosen-keeps P p [] rates h = tt
  chosen-keeps P p (s ∷ samples) [] h = tt
  chosen-keeps P p (s ∷ samples) (rate ∷ rates) h = elim (Bool-cases (p (s, rate))) [
    | inl e ↦ rw e (h.0, chosen-keeps P p samples rates h.1)
    | inr e ↦ rw e (chosen-keeps P p samples rates h.1)
  ]

  abbrev HasPower : FlightLogSample F → Type 0
  HasPower s = has_power_figure s ≡ true

  measured-is_some :
      (samples : List (FlightLogSample F))
      → All HasPower samples
      → is_some (measured (estimate_power samples)) ≡ true
  unfolding estimate_power
  measured-is_some [] h = refl
  measured-is_some (s ∷ samples) h = let e = estimate_power-IsTrusted s samples h in rw e.1 refl

  hover-is_some :
      (samples : List (FlightLogSample F))
      → All HasPower samples
      → is_some (measured (estimate_hover_power samples)) ≡ true
  unfolding estimate_hover_power select_hover_samples
  hover-is_some samples h =
      measured-is_some (select_hover_samples samples)
        (chosen-keeps HasPower is_hover samples (climb_rates_mps samples) h)

  cruise-is_some :
      (samples : List (FlightLogSample F))
      → All HasPower samples
      → is_some (measured (estimate_cruise_power samples)) ≡ true
  unfolding estimate_cruise_power select_cruise_samples
  cruise-is_some samples h =
      measured-is_some (select_cruise_samples samples)
        (chosen-keeps HasPower is_cruise samples (climb_rates_mps samples) h)

  sample_rows-is_some :
      (log_id : String) (n : ℕ) (samples : List (FlightLogSample F))
      → All HasPower samples
      → is_some (sample_rows log_id n samples) ≡ true
  sample_rows-is_some log_id n [] h = refl
  sample_rows-is_some log_id n (s ∷ samples) h =
      at_row (effective_power_w s) (sample_rows log_id (suc n) samples)
        (effective_power_w-is_some s h.0) (sample_rows-is_some log_id (suc n) samples h.1)
    where
      at_row :
          (watts : Option F) (rows : Option (List (FlightLogSampleRow F)))
          → is_some watts ≡ true
          → is_some rows ≡ true
          → is_some (row_and log_id n s watts rows) ≡ true
      at_row none rows h r = h
      at_row (some w) none h r = r
      at_row (some w) (some rows) h r = refl

  module _ (texts : Texts F) (log_id : String) (now : ℕ) (airframe_id content : String) where
    -- The new row is the first of the table, not applied, and has the log's counts and hash.
    abbrev IsStored : ParsedLog F → Tables F → FlightLogRow F → Tables F → Type 0
    IsStored log before row after =
        (after.logs ≡ (log_id, row) ∷ before.logs)
        × (after.aircraft ≡ before.aircraft)
        × (row.row_count ≡ total_rows log)
        × (row.rejected_rows ≡ log.rejected_rows)
        × (row.sha256 ≡ log.sha256)
        × (row.applied ≡ false)

    added-IsStored :
        (tables : Tables F) (log : ParsedLog F) (hover cruise : Option (Option (Measured F)))
        (rows : Option (List (FlightLogSampleRow F)))
        → is_some hover ≡ true
        → is_some cruise ≡ true
        → is_some rows ≡ true
        → (row : FlightLogRow F) × ((after : Tables F) × (added texts log_id now airframe_id content
                tables log hover cruise rows
              ≡ done row after)
            × IsStored log tables row after)
    added-IsStored tables log none cruise rows h c r = absurd (cc)
    added-IsStored tables log (some hover) none rows h c r = absurd (cc)
    added-IsStored tables log (some hover) (some cruise) none h c r = absurd (cc)
    added-IsStored tables log (some hover) (some cruise) (some rows) h c r = (
      log_row texts log_id now airframe_id content log hover cruise,
      (
        record tables {
          logs =
              (log_id, log_row texts log_id now airframe_id content log hover cruise) ∷ tables.logs;
          samples = rows ++ tables.samples;
        },
        refl,
        (refl, refl, refl, refl, refl, refl),
      ),
    )

    -- An accepted file whose hash is new is stored: estimating its power and writing its samples raise no
    -- error, the new row counts every row of the file, and no airframe changes.
    pub store_flight_log-IsStored :
        (csv : CsvFile) (tables : Tables F) (log : ParsedLog F)
        → parse_flight_log texts content csv ≡ parsed log
        → find_by_hash log.sha256 tables.logs ≡ none
        → (row : FlightLogRow F) × ((after : Tables F) × (store_flight_log texts log_id now
                airframe_id content csv tables
              ≡ done row after)
            × (after.logs ≡ (log_id, row) ∷ tables.logs)
            × (after.aircraft ≡ tables.aircraft)
            × (row.row_count ≡ length csv.rows)
            × (row.sha256 ≡ log.sha256)
            × (row.applied ≡ false))
    unfolding store_flight_log
    store_flight_log-IsStored csv tables log e new =
        let i = parse_flight_log-IsImport texts content csv log e in
        let powered = All-map (IsValid texts) HasPower (λ s h. h.0) log.samples i.all_valid in
        let s =
          added-IsStored tables log _ _ _ (hover-is_some log.samples powered)
            (cruise-is_some log.samples powered)
            (sample_rows-is_some log_id 0 log.samples powered) in
        rw (e, new)
          (s.0, (s.1.0, s.1.1, s.1.2.0, s.1.2.1, s.1.2.2 ∙ i.all_counted, s.1.2.4, s.1.2.5))

    find_by_hash-first :
        (row : FlightLogRow F) (older logs : List (String × FlightLogRow F)) {sha256 : String}
        → logs ≡ (log_id, row) ∷ older
        → row.sha256 ≡ sha256
        → find_by_hash sha256 logs ≡ some log_id
    unfolding find_by_hash
    find_by_hash-first row older logs {sha256} h same = rw (h, same, eq_refl sha256) refl

    -- A file that has just been stored is refused when it is uploaded again, for any airframe, at any time
    -- and under any new id, and the refusal names the row that has it.
    pub store_flight_log-twice :
        (csv : CsvFile) (tables : Tables F) (log : ParsedLog F) (id : String) (later : ℕ)
        (airframe : String)
        → parse_flight_log texts content csv ≡ parsed log
        → find_by_hash log.sha256 tables.logs ≡ none
        → (row : FlightLogRow F) × ((after : Tables F) × (store_flight_log texts log_id now
                airframe_id content csv tables
              ≡ done row after)
            × (store_flight_log texts id later airframe content csv after
                ≡ already_ingested log_id))
    unfolding store_flight_log
    store_flight_log-twice csv tables log id later airframe e new =
        let s = store_flight_log-IsStored csv tables log e new in
        let known = find_by_hash-first s.0 tables.logs s.1.0.logs s.1.2 s.1.5 in
        (s.0, (s.1.0, s.1.1, rw (e, known) refl))
