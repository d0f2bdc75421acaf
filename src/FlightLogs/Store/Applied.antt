-- ===== src/FlightLogs/Store/Applied.antt =====
-- What applying a log changes, and what it leaves alone.
use lang_graph_uas.Prelude.{
  ℕ, true, false, List, [], ◌∷◌, Option, none, some, String, lookup, insert, str_eq, ltb, is_empty,
  lookup-insert, lookup-insert_other, Bool-cases, inl, inr, arith, ◌≡◌, refl, ap, ◌≤◌, ◌<◌, ◌⊎◌,
  ◌∙◌,
}
use lang_graph_uas.Float.{Float, zero_f}
use lang_graph_uas.Schemas.Provenance.{FieldProvenance}
use lang_graph_uas.Schemas.Domain.{Aircraft}
use lang_graph_uas.Calculations.Gate.{record_is_grade}
use lang_graph_uas.FlightLogs.Estimate.{PowerEstimate}
use lang_graph_uas.FlightLogs.Store.{
  Measured, FlightLogRow, Tables, done, provenance_for, usable_estimate, set_hover, set_cruise,
  apply_field, apply_fields, written, apply_flight_log,
}

module _ {F : Type 0} ⦃f : Float F⦄ where
  -- A figure and its record, before and after: a median of at least 30 samples is written with a record of
  -- operational grade, and anything else changes nothing.
  abbrev pub IsApplied :
      Option (Measured F) → F → F → Option (FieldProvenance F) → Option (FieldProvenance F) → Type 0
  IsApplied none old new record_old record_new = (new ≡ old) × (record_new ≡ record_old)
  IsApplied (some m) old new record_old record_new =
      ((m.samples < 30) × (new ≡ old) × (record_new ≡ record_old))
      ⊎ ((30 ≤ m.samples) × (new ≡ m.median_w) × (record_is_grade record_new ≡ true))

  module _ (digits : ℕ → String) (today log_id : String) where
    -- Only the two power figures and the records differ.
    abbrev pub SameOtherwise : Aircraft F → Aircraft F → Type 0
    SameOtherwise a b = b ≡ record a {
      hover_power_w = b.hover_power_w;
      cruise_power_w = b.cruise_power_w;
      provenance = b.provenance;
    }

    SameOtherwise-trans :
        (a b c : Aircraft F) → SameOtherwise a b → SameOtherwise b c → SameOtherwise a c
    SameOtherwise-trans a b c h k =
        k
        ∙ ap
            (λ (x : Aircraft F). record x {
              hover_power_w = c.hover_power_w;
              cruise_power_w = c.cruise_power_w;
              provenance = c.provenance;
            })
            h

    abbrev estimate_of_measured : Measured F → PowerEstimate F
    estimate_of_measured m = record {
      median_w = m.median_w;
      sample_count = m.samples;
      iqr_w = zero_f;
      confidence = m.confidence;
    }

    hover_field : Option (Measured F) → Aircraft F × List String → Aircraft F × List String
    hover_field m = apply_field digits today log_id "hover_power_w" set_hover (usable_estimate m)

    cruise_field : Option (Measured F) → Aircraft F × List String → Aircraft F × List String
    cruise_field m = apply_field digits today log_id "cruise_power_w" set_cruise (usable_estimate m)

    -- One round for the hover figure leaves the cruise figure and its record alone.
    hover_lem :
        (m : Option (Measured F)) (a : Aircraft F) (changed : List String)
        → IsApplied m a.hover_power_w
            (hover_field m (a, changed)).0.hover_power_w
            (lookup "hover_power_w" a.provenance)
            (lookup "hover_power_w" (hover_field m (a, changed)).0.provenance)
          × ((hover_field m (a, changed)).0.cruise_power_w ≡ a.cruise_power_w)
          × (lookup "cruise_power_w" (hover_field m (a, changed)).0.provenance
              ≡ lookup "cruise_power_w" a.provenance)
          × SameOtherwise a (hover_field m (a, changed)).0
    unfolding hover_field
    hover_lem none a changed = ((refl, refl), refl, refl, refl)
    hover_lem (some m) a changed = elim (Bool-cases (ltb m.samples 30)) [
      | inl e ↦ rw e (inl (ground arith, refl, refl), refl, refl, refl)
      | inr e ↦
          let r = provenance_for digits today log_id (estimate_of_measured m) in
          rw e (
            inr (ground arith, refl, rw (lookup-insert "hover_power_w" r a.provenance) refl),
            refl,
            lookup-insert_other "hover_power_w" "cruise_power_w" r a.provenance refl,
            refl,
          )
    ]

    -- One round for the cruise figure leaves the hover figure and its record alone.
    cruise_lem :
        (m : Option (Measured F)) (a : Aircraft F) (changed : List String)
        → IsApplied m a.cruise_power_w
            (cruise_field m (a, changed)).0.cruise_power_w
            (lookup "cruise_power_w" a.provenance)
            (lookup "cruise_power_w" (cruise_field m (a, changed)).0.provenance)
          × ((cruise_field m (a, changed)).0.hover_power_w ≡ a.hover_power_w)
          × (lookup "hover_power_w" (cruise_field m (a, changed)).0.provenance
              ≡ lookup "hover_power_w" a.provenance)
          × SameOtherwise a (cruise_field m (a, changed)).0
    unfolding cruise_field
    cruise_lem none a changed = ((refl, refl), refl, refl, refl)
    cruise_lem (some m) a changed = elim (Bool-cases (ltb m.samples 30)) [
      | inl e ↦ rw e (inl (ground arith, refl, refl), refl, refl, refl)
      | inr e ↦
          let r = provenance_for digits today log_id (estimate_of_measured m) in
          rw e (
            inr (ground arith, refl, rw (lookup-insert "cruise_power_w" r a.provenance) refl),
            refl,
            lookup-insert_other "cruise_power_w" "hover_power_w" r a.provenance refl,
            refl,
          )
    ]

    -- A round leaves the records of all other fields alone.
    apply_field-lookup :
        (field other : String)
        (set : F → List (String × FieldProvenance F) → Aircraft F → Aircraft F)
        (o : Option (PowerEstimate F)) (a : Aircraft F) (changed : List String)
        → ((watts : F) (p : List (String × FieldProvenance F)) (b : Aircraft F)
            → (set watts p b).provenance ≡ p)
        → str_eq field other ≡ false
        → lookup other (apply_field digits today log_id field set o (a, changed)).0.provenance
          ≡ lookup other a.provenance
    apply_field-lookup field other set none a changed sets apart = refl
    apply_field-lookup field other set (some e) a changed sets apart =
        rw (sets e.median_w (insert field (provenance_for digits today log_id e) a.provenance) a) (
          lookup-insert_other field other (provenance_for digits today log_id e) a.provenance apart)

    -- What applying a log with these two measurements makes of an airframe, read for the record of one
    -- other field.
    pub record IsUpdated (row : FlightLogRow F) (field : String) (a b : Aircraft F) : Type 0 where
      pub hover :
          IsApplied row.hover a.hover_power_w b.hover_power_w
            (lookup "hover_power_w" a.provenance)
            (lookup "hover_power_w" b.provenance)
      pub cruise :
          IsApplied row.cruise a.cruise_power_w b.cruise_power_w
            (lookup "cruise_power_w" a.provenance)
            (lookup "cruise_power_w" b.provenance)
      pub same : SameOtherwise a b
      pub records : lookup field b.provenance ≡ lookup field a.provenance

    apply_fields-IsUpdated :
        (row : FlightLogRow F) (field : String) (a : Aircraft F)
        → str_eq "hover_power_w" field ≡ false
        → str_eq "cruise_power_w" field ≡ false
        → IsUpdated row field a (apply_fields digits today log_id row a).0
    unfolding hover_field cruise_field
    apply_fields-IsUpdated row field a not_hover not_cruise =
        let h = hover_lem row.hover a [] in
        let b = hover_field row.hover (a, []) in
        let c = cruise_lem row.cruise b.0 b.1 in
        record {
          hover = rw (c.1, c.2) h.0;
          cruise = rw (h.1, h.2) at c.0;
          same = SameOtherwise-trans a b.0 _ h.3 c.3;
          records =
              apply_field-lookup "cruise_power_w" field set_cruise (usable_estimate row.cruise) b.0
                b.1 (λ w p x. refl) not_cruise
              ∙ apply_field-lookup "hover_power_w" field set_hover (usable_estimate row.hover) a []
                  (λ w p x. refl) not_hover;
        }

    -- The end of a call that finds its log and its airframe, read for one other airframe.
    pub record IsApplication (row : FlightLogRow F) (field : String) (a : Aircraft F)
        (other : String) (before after : Tables F) : Type 0 where
      pub updated : Aircraft F
      pub found : lookup row.airframe_id after.aircraft ≡ some updated
      pub is_updated : IsUpdated row field a updated
      pub others : lookup other after.aircraft ≡ lookup other before.aircraft
      pub samples : after.samples ≡ before.samples

    written-IsApplication :
        (row : FlightLogRow F) (field : String) (a : Aircraft F) (other : String)
        (tables : Tables F) (r : Aircraft F × List String)
        → lookup row.airframe_id tables.aircraft ≡ some a
        → str_eq row.airframe_id other ≡ false
        → IsUpdated row field a r.0
        → (is_empty r.1 ≡ true → r.0 ≡ a)
        → (changed : List String) × ((after : Tables F) × (written digits today log_id row tables r
              ≡ done changed after)
            × IsApplication row field a other tables after)
    written-IsApplication row field a other tables (b, []) found apart u unchanged = (
      [],
      (
        tables,
        refl,
        record {
          updated = b;
          found = rw (unchanged refl) found;
          is_updated = u;
          others = refl;
          samples = refl;
        },
      ),
    )
    written-IsApplication row field a other tables (b, name ∷ changed) found apart u unchanged = (
      name ∷ changed,
      (
        record tables {
          aircraft = insert row.airframe_id b tables.aircraft;
          logs = insert log_id (record row { applied = true }) tables.logs;
        },
        refl,
        record {
          updated = b;
          found = lookup-insert row.airframe_id b tables.aircraft;
          is_updated = u;
          others = lookup-insert_other row.airframe_id other b tables.aircraft apart;
          samples = refl;
        },
      ),
    )

    unchanged_fields :
        (row : FlightLogRow F) (a : Aircraft F)
        → is_empty (apply_fields digits today log_id row a).1 ≡ true
        → (apply_fields digits today log_id row a).0 ≡ a
    unchanged_fields row a h =
        at_estimates (usable_estimate row.hover) (usable_estimate row.cruise) h
      where
        at_estimates :
            (e e' : Option (PowerEstimate F))
            → is_empty
                (apply_field digits today log_id "cruise_power_w" set_cruise e'
                  (apply_field digits today log_id "hover_power_w" set_hover e (a, []))).1
              ≡ true
            → (apply_field digits today log_id "cruise_power_w" set_cruise e'
                (apply_field digits today log_id "hover_power_w" set_hover e (a, []))).0
              ≡ a
        at_estimates none none h = refl
        at_estimates none (some e') h = absurd (cc)
        at_estimates (some e) none h = absurd (cc)
        at_estimates (some e) (some e') h = absurd (cc)

    -- Where the log and its airframe are known, applying the log ends without an error: each of the two
    -- power figures is written, with a record of operational grade, exactly when its estimate rests on at
    -- least 30 samples, and is left alone otherwise; no other figure of the airframe and no record of
    -- another field changes, nor any other airframe, nor the samples.
    pub apply_flight_log-IsApplication :
        (tables : Tables F) (row : FlightLogRow F) (field : String) (a : Aircraft F)
        (other : String)
        → lookup log_id tables.logs ≡ some row
        → lookup row.airframe_id tables.aircraft ≡ some a
        → str_eq row.airframe_id other ≡ false
        → str_eq "hover_power_w" field ≡ false
        → str_eq "cruise_power_w" field ≡ false
        → (changed : List String) × ((after : Tables F) × (apply_flight_log digits today log_id
                tables
              ≡ done changed after)
            × IsApplication row field a other tables after)
    unfolding apply_flight_log
    apply_flight_log-IsApplication tables row field a other log found apart not_hover not_cruise =
        rw (log, found)
          (written-IsApplication row field a other tables (apply_fields digits today log_id row a)
            found apart (apply_fields-IsUpdated row field a not_hover not_cruise)
            (unchanged_fields row a))
