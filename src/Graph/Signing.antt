-- ===== src/Graph/Signing.antt =====
-- What the report rests on: whose response, and which model.
use lang_graph_uas.Prelude.{
  ◌<◌, ◌≡◌, refl, ap, Bool, true, false, List, [], ◌∷◌, Option, none, some, String, leb, is_blank,
  or_else, if◌then◌else◌,
}
use lang_graph_uas.Float.{Float}
use lang_graph_uas.Schemas.Domain.{Aircraft, Payload}
use lang_graph_uas.Schemas.Responses.{Calculations, WeatherReading}
use lang_graph_uas.Schemas.Requests.{MissionParams, MissionEdits, AckAction, confirm, edit, abort}
use lang_graph_uas.Calculations.Assessment.{assess_mission, build_assessment, resolved}
use lang_graph_uas.Graph.State.{MissionState, Citation, Response, Dependencies}
use lang_graph_uas.Graph.Nodes.{
  calculate, calculate_from, cite_limits, find_citations, lookup_citations, with_citations,
  cited_fields, generate_report, write_report, max_ack_rounds, aborted_report, apply_edits, respond,
  vet_prose, narrative,
}
use lang_graph_uas.Graph.Workflow.{Stop, awaiting, finished, raised, resume_with}
use lang_graph_uas.Graph.Runs.{
  resume_with_lem, from_report, reported, calculated, from_review, answered_with,
}
use lang_graph_uas.Graph.Review.{resume_with-Progress}
use lang_graph_uas.Schemas.Assessment.{DeterministicAssessment}

module _ {F : Type 0} ⦃f : Float F⦄ (d : Dependencies F) where
  -- The decision on a stop, with the figures behind it.
  abbrev pub sealed :
      Stop F → Option (Option (Calculations F) × Option DeterministicAssessment × Bool)
  sealed (awaiting s) = some (s.calculations, s.assessment, s.is_viable)
  sealed (finished s) = some (s.calculations, s.assessment, s.is_viable)
  sealed (raised node) = none

  -- The same dependencies with another report service.
  abbrev pub with_model :
      (Bool → String → WeatherReading F → Calculations F → List Citation → Option String)
      → Dependencies F
  with_model g = record d { generate = g }

module _ {F : Type 0} ⦃f : Float F⦄ (d : Dependencies F)
    (g : Bool → String → WeatherReading F → Calculations F → List Citation → Option String) where
  abbrev e : Dependencies F
  e = with_model d g

  written-sealed :
      (t : MissionState F) (c : Option (Calculations F)) (a : Option (Aircraft F))
      (w : Option (WeatherReading F))
      → sealed d (reported e (write_report e t c a w))
        ≡ sealed d (reported d (write_report d t c a w))
  written-sealed t (some c) (some a) (some w) = refl
  written-sealed t (some c) (some a) none = refl
  written-sealed t _ _ _ = refl

  from_report-sealed :
      (t : MissionState F) → sealed d (from_report e t) ≡ sealed d (from_report d t)
  unfolding generate_report
  from_report-sealed t = at_blank (is_blank t.report)
    where
      at_blank :
          (b : Bool)
          → sealed d (
              reported e
                (if b then write_report e t t.calculations t.aircraft t.weather else some t))
            ≡ sealed d (
                reported d
                  (if b then write_report d t t.calculations t.aircraft t.weather else some t))
      at_blank true = written-sealed t t.calculations t.aircraft t.weather
      at_blank false = refl

  from_review-sealed :
      (t : MissionState F) → sealed d (from_review e t) ≡ sealed d (from_review d t)
  from_review-sealed t = at_limit (leb max_ack_rounds t.ack_rounds)
    where
      u : MissionState F
      u = record t { ack_action = some confirm }

      at_limit :
          (b : Bool)
          → sealed d (if b then from_report e u else awaiting t)
            ≡ sealed d (if b then from_report d u else awaiting t)
      at_limit true = from_report-sealed u
      at_limit false = refl

  find_citations_model :
      (airframe : String) (cs : List (record { field : String; question : String; known : Bool }))
      → find_citations e airframe cs ≡ find_citations d airframe cs
  unfolding find_citations
  find_citations_model airframe [] = refl
  find_citations_model airframe (c ∷ cs) = rw (find_citations_model airframe cs)

  cite_limits_model : (t : MissionState F) → cite_limits e t ≡ cite_limits d t
  unfolding cite_limits
  cite_limits_model t =
      ap (λ (found : Option (List Citation)). with_citations found t) (same t.aircraft)
    where
      same : (a : Option (Aircraft F)) → lookup_citations e a ≡ lookup_citations d a
      same none = unfold lookup_citations in refl
      same (some a) = unfold lookup_citations in rw (find_citations_model a.id (cited_fields a))

  calculated-sealed :
      (t : MissionState F) (a : Option (Aircraft F)) (p : Option (Payload F))
      (w : Option (WeatherReading F))
      → sealed d (calculated e (calculate_from e t a p w))
        ≡ sealed d (calculated d (calculate_from d t a p w))
  calculated-sealed t (some a) (some p) (some w) = rw (cite_limits_model _) (from_review-sealed _)
  calculated-sealed t _ _ _ = refl

  answered_with-sealed :
      (a : AckAction) (r : Response F) (s : MissionState F)
      → sealed d (answered_with e a r s) ≡ sealed d (answered_with d a r s)
  unfolding calculate
  answered_with-sealed confirm r s = from_report-sealed (respond confirm s r)
  answered_with-sealed edit r s =
      let t = respond edit s r in calculated-sealed t t.aircraft t.payload t.weather
  answered_with-sealed abort r s = refl

  -- Whatever the report service answers, a response leads to a stop with the same assessment, the same
  -- calculations and the same verdict, and raises only where it raises with any other report service.
  pub resume_with-sealed :
      (r : Response F) (s : MissionState F)
      → (t : Stop F) × (u : Stop F) × (resume_with d r s ≡ some t)
        × (resume_with e r s ≡ some u)
        × (sealed d u ≡ sealed d t)
  resume_with-sealed r s = (
    _,
    _,
    resume_with_lem d r s,
    resume_with_lem e r s,
    at_limit (leb max_ack_rounds s.ack_rounds),
  )
    where
      u : MissionState F
      u = record s { ack_action = some confirm }

      at_limit :
          (b : Bool)
          → sealed d (if b then from_report e u else answered_with e r.action r s)
            ≡ sealed d (if b then from_report d u else answered_with d r.action r s)
      at_limit true = from_report-sealed u
      at_limit false = answered_with-sealed r.action r s

module _ {F : Type 0} ⦃f : Float F⦄ (d : Dependencies F) where
  -- An abort ends the run with the fixed text and the decision that was shown, and no model has written
  -- anything.
  resume_with-abort :
      (r : Response F) (s : MissionState F)
      → r.action ≡ abort
      → s.ack_rounds < max_ack_rounds
      → (t : MissionState F) × (resume_with d r s ≡ some (finished t))
        × (t.report ≡ aborted_report)
        × (t.aborted ≡ true)
        × (sealed d (finished t) ≡ sealed d (awaiting s))
        × (t.seal_violations ≡ s.seal_violations)
  resume_with-abort r s e h =
      let (t, stops, is, _) = resume_with-Progress d r s h in
      (respond abort s r, rw (stops, is, e), refl, refl, refl, refl)

module _ {F : Type 0} where
  -- The parameters of a mission with the two figures that an edit may change.
  abbrev pub edited : MissionParams F → MissionEdits F → MissionParams F
  edited params edits = record params {
    target_altitude_m = or_else edits.target_altitude_m params.target_altitude_m;
    hover_time_s = or_else edits.hover_time_s params.hover_time_s;
  }

module _ {F : Type 0} ⦃f : Float F⦄ (d : Dependencies F) where
  -- The response to the fifth round is the last. An operator who answers it with an edit, and so
  -- confirms nothing, gets a finished run, where the airframe, the payload and the reading are there and
  -- no report is: the calculations and the assessment are those of the mission with the edited altitude
  -- and hover time, its brief is generated from them, and the state records a confirmation under the name
  -- of that operator.
  pub edit_at_limit-briefs :
      (actor : String) (edits : MissionEdits F) (before : MissionState F) (a : Aircraft F)
      (p : Payload F) (w : WeatherReading F)
      → let r : Response F = record { action = edit; actor = actor; edits = edits } in
        let s : MissionState F = record before {
          aircraft = some a;
          payload = some p;
          weather = some w;
          ack_rounds = 4;
          report = "";
        } in
        let params = edited before.mission_params edits in
        let c =
          assess_mission a p params w d.reserve_percent d.vertical_speed_mps d.climb_efficiency in
        (t : MissionState F) × (u : MissionState F) × (resume_with d r s ≡ some (finished t))
        × (t.ack_action ≡ some confirm)
        × (t.ack_actor ≡ some actor)
        × (t.calculations ≡ some c)
        × (t.assessment
            ≡ some (
                build_assessment d.digest c
                  (resolved a p params w before.requested_mode)
                  before.requested_mode
                  (some w)
                  (some a)
                  (some p)
                  (d.has_open_quarantine a.id)))
        × (u.assessment ≡ t.assessment)
        × (u.calculations ≡ t.calculations)
        × (t.report ≡ (vet_prose d (narrative d u a c w) u).0)
  unfolding calculate cite_limits generate_report apply_edits
  edit_at_limit-briefs actor edits before a p w =
      let r : Response F = record { action = edit; actor = actor; edits = edits } in
      let s : MissionState F = record before {
        aircraft = some a;
        payload = some p;
        weather = some w;
        ack_rounds = 4;
        report = "";
      } in
      (_, _, resume_with_lem d r s, refl, refl, refl, refl, refl, refl, refl)
