-- ===== src/Graph/Nodes.antt =====
-- backend/suas/graph/nodes.py: the nodes, each from a state to the state with its updates merged.
pub mod Texts
pub mod Ack
pub use Texts.*
unfoldable pub use Ack.*
use lang_graph_uas.Prelude.{
  ℕ, Bool, true, false, List, [], ◌∷◌, ◌++◌, map, Option, none, some, String, concat, is_blank,
  is_some, or_else, leb, if◌then◌else◌,
}
use Prim.Native.Nat.{◌+◌}
use lang_graph_uas.Float.{Float}
use lang_graph_uas.Schemas.Domain.{Aircraft, Payload}
use lang_graph_uas.Schemas.Requests.{MissionParams, MissionEdits, AckAction, confirm, edit, abort}
use lang_graph_uas.Schemas.Responses.{WeatherReading, Calculations}
use lang_graph_uas.Schemas.Assessment.{DeterministicAssessment}
use lang_graph_uas.Calculations.Assessment.{
  resolved, unresolved, assess_mission, build_assessment, insufficient_data_assessment,
  is_mission_viable,
}
use lang_graph_uas.Graph.State.{
  MissionState, Citation, CitationStatus, Response, Dependencies, unavailable, confirmed,
  unconfirmed,
}
use lang_graph_uas.Graph.Seal.{find_contradiction, unsupported_numerics, render_template_brief}

abbrev status_of : Option (List Citation) → CitationStatus
status_of none = unavailable
status_of (some []) = unconfirmed
status_of (some (c ∷ found)) = confirmed

-- The evidence found for one field, as the citation of that field.
abbrev for_field : String → Citation → Citation
for_field field c = record c { field_path = field }

module _ {F : Type 0} where
  abbrev pub weathered : MissionState F → Option (WeatherReading F) → Option (MissionState F)
  weathered s none = none
  weathered s (some reading) = some (record s { weather = some reading })

  abbrev pub with_citations : Option (List Citation) → MissionState F → MissionState F
  with_citations found s = record s {
    citations = or_else found [];
    citation_status = some (status_of found);
  }

module _ {F : Type 0} (d : Dependencies F) where
  abbrev pub payload_or_default : Option (Payload F) → Option (Payload F)
  payload_or_default none = d.get_payload no_payload_id
  payload_or_default (some payload) = some payload

  abbrev pub validated : MissionState F → Option (Aircraft F) → MissionState F
  validated s none = record s {
    assessment = some (
        insufficient_data_assessment d.digest
          (concat ("Unknown aircraft id: " ∷ s.aircraft_id ∷ "." ∷ []))
          (unresolved s.aircraft_id s.payload_id s.mission_params));
    is_viable = false;
    error = some "invalid_aircraft";
    report = invalid_aircraft_report;
  }
  validated s (some aircraft) = record s {
    aircraft = some aircraft;
    payload = payload_or_default (d.get_payload s.payload_id);
    is_viable = true;
  }

  unfoldable pub validate : MissionState F → MissionState F
  validate s = validated s (d.get_aircraft s.aircraft_id)

  unfoldable pub fetch_weather : MissionState F → Option (MissionState F)
  fetch_weather s =
      weathered s (d.fetch_weather s.mission_params.latitude s.mission_params.longitude)

  -- The loop over the cited fields: `none` where a lookup failed.
  unfoldable pub find_citations :
      String
      → List (record { field : String; question : String; known : Bool })
      → Option (List Citation)
  find_citations airframe [] = some []
  find_citations airframe (c ∷ cs) =
      let rest = find_citations airframe cs in
      if c.known
      then elim (d.retrieve c.question airframe) [
        | none ↦ none
        | some evidence ↦ elim rest [
          | none ↦ none
          | some more ↦ some (map (for_field c.field) evidence ++ more)
        ]
      ]
      else rest

  -- `none` is a lookup that was not possible, or that failed.
  unfoldable pub lookup_citations : Option (Aircraft F) → Option (List Citation)
  lookup_citations none = none
  lookup_citations (some aircraft) =
      if d.has_embedder then find_citations aircraft.id (cited_fields aircraft) else none

  unfoldable pub cite_limits : MissionState F → MissionState F
  cite_limits s = with_citations (lookup_citations s.aircraft) s

module _ {F : Type 0} ⦃f : Float F⦄ (d : Dependencies F) where
  abbrev pub calculate_with :
      MissionState F → Aircraft F → Payload F → WeatherReading F → MissionState F
  calculate_with s aircraft payload weather =
      let calculations =
        assess_mission aircraft payload s.mission_params weather d.reserve_percent
          d.vertical_speed_mps d.climb_efficiency in
      let inputs = resolved aircraft payload s.mission_params weather s.requested_mode in
      record s {
        calculations = some calculations;
        assessment = some (
            build_assessment d.digest calculations inputs s.requested_mode (some weather)
              (some aircraft) (some payload) (d.has_open_quarantine aircraft.id));
        is_viable = is_mission_viable calculations;
      }

  -- `none` is the validation error that a missing airframe, payload or reading raises.
  abbrev pub calculate_from :
      MissionState F
      → Option (Aircraft F)
      → Option (Payload F)
      → Option (WeatherReading F)
      → Option (MissionState F)
  calculate_from s (some aircraft) (some payload) (some weather) =
      some (calculate_with s aircraft payload weather)
  calculate_from s _ _ _ = none

  unfoldable pub calculate : MissionState F → Option (MissionState F)
  calculate s = calculate_from s s.aircraft s.payload s.weather

  -- `_supporting_text`: `" ".join(parts)`.
  abbrev dumped : {A : Type 0} → (A → String) → Option A → List String
  dumped dump none = []
  dumped dump (some a) = dump a ∷ []

  pub join_words : List String → String
  join_words [] = ""
  join_words (w ∷ []) = w
  join_words (w ∷ more ∷ words) = concat (w ∷ " " ∷ join_words (more ∷ words) ∷ [])

  pub supporting_text : MissionState F → String
  supporting_text s = join_words (
      dumped d.patterns.dump_assessment s.assessment
      ++ (dumped d.patterns.dump_calculations s.calculations
          ++ (dumped d.patterns.dump_weather s.weather ++ map (λ c. c.text) s.citations)))

  abbrev pub vet_numbers : String → DeterministicAssessment → List String → String × List String
  vet_numbers report a [] = (report, [])
  vet_numbers report a (n ∷ invented) = (
    render_template_brief a,
    map (λ value. concat ("unsupported_numeric:" ∷ d.patterns.lower value ∷ [])) (n ∷ invented),
  )

  abbrev pub vet_contradiction :
      String → MissionState F → DeterministicAssessment → Option String → String × List String
  vet_contradiction report s a none =
      vet_numbers report a (unsupported_numerics d.patterns report (supporting_text s))
  vet_contradiction report s a (some found) =
      (render_template_brief a, concat ("contradiction:" ∷ d.patterns.lower found ∷ []) ∷ [])

  abbrev pub vet_sealed :
      String → MissionState F → Option DeterministicAssessment → String × List String
  vet_sealed report s none = (report, [])
  vet_sealed report s (some a) =
      vet_contradiction report s a (find_contradiction d.patterns report a.decision)

  unfoldable pub vet_prose : String → MissionState F → String × List String
  vet_prose report s = vet_sealed report s s.assessment

  -- The prose of the report service, or the text that stands in where it raised.
  abbrev pub narrative : MissionState F → Aircraft F → Calculations F → WeatherReading F → String
  narrative s aircraft calculations weather =
      or_else (d.generate s.is_viable aircraft.name weather calculations s.citations)
        (narrative_unavailable_report s.is_viable)

  abbrev pub publish : MissionState F → String × List String → MissionState F
  publish s vetted = record s { report = vetted.0; seal_violations = vetted.1 }

  -- The brief of a run that has none yet; the last clause is the error where the weather is missing,
  -- which stands wherever calculations do.
  abbrev pub write_report :
      MissionState F
      → Option (Calculations F)
      → Option (Aircraft F)
      → Option (WeatherReading F)
      → Option (MissionState F)
  write_report s (some calculations) (some aircraft) (some weather) =
      some (publish s (vet_prose (narrative s aircraft calculations weather) s))
  write_report s (some calculations) (some aircraft) none = none
  write_report s _ _ _ = some (record s { report = validation_failed_report s.is_viable })

  unfoldable pub generate_report : MissionState F → Option (MissionState F)
  generate_report s =
      if is_blank s.report then write_report s s.calculations s.aircraft s.weather else some s
