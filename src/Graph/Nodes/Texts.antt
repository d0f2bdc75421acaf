-- ===== src/Graph/Nodes/Texts.antt =====
-- backend/suas/graph/nodes.py: its fixed texts, and the fields that are worth citing.
use lang_graph_uas.Prelude.{ℕ, Bool, true, false, List, [], ◌∷◌, String, is_some}
use lang_graph_uas.Schemas.Domain.{Aircraft}

abbrev pub no_payload_id : String
no_payload_id = "None"

abbrev pub invalid_aircraft_report : String
invalid_aircraft_report = "FATAL: Invalid aircraft selected."

abbrev pub aborted_report : String
aborted_report = "Mission aborted by the operator before any brief was generated."

abbrev pub max_ack_rounds : ℕ
max_ack_rounds = 5

abbrev pub narrative_unavailable_report : Bool → String
narrative_unavailable_report true = "Mission status: GO. Narrative unavailable."
narrative_unavailable_report false = "Mission status: NO-GO. Narrative unavailable."

abbrev pub validation_failed_report : Bool → String
validation_failed_report true = "Mission validation failed. Viable: True."
validation_failed_report false = "Mission validation failed. Viable: False."

-- `CITED_FIELDS`, with the value that `getattr` finds on an airframe.
abbrev pub cited_fields :
    {F : Type 0} → Aircraft F → List (record { field : String; question : String; known : Bool })
cited_fields a =
    record {
      field = "pack_min_takeoff_c";
      question = "battery pack minimum temperature at takeoff";
      known = is_some a.pack_min_takeoff_c;
    }
    ∷ record { field = "max_wind_mps"; question = "maximum wind speed limit"; known = true }
    ∷ record { field = "max_temp_c"; question = "maximum operating temperature"; known = true }
    ∷ record { field = "min_temp_c"; question = "minimum operating temperature"; known = true }
    ∷ record { field = "battery_wh"; question = "battery pack energy capacity"; known = true }
    ∷ []
