-- ===== src/Graph/Edits.antt =====
-- What an edit at the review step changes, and what a second plan on a thread keeps of the first.
use lang_graph_uas.Prelude.{
  ◌≡◌, refl, subst, Bool, true, false, List, [], ◌∷◌, Option, none, some, String, leb, is_blank,
  if◌then◌else◌,
}
use lang_graph_uas.Float.{Float}
use lang_graph_uas.Schemas.Domain.{Aircraft, Payload}
use lang_graph_uas.Schemas.Responses.{Calculations, WeatherReading}
use lang_graph_uas.Schemas.Requests.{MissionEdits, AckAction, confirm, edit, abort}
use lang_graph_uas.Graph.State.{MissionState, Response, Dependencies}
use lang_graph_uas.Graph.Nodes.{
  calculate, calculate_from, cite_limits, generate_report, write_report, max_ack_rounds,
  apply_edits, respond,
}
use lang_graph_uas.Graph.Workflow.{Stop, awaiting, finished, raised, resume_with}
use lang_graph_uas.Graph.Runs.{
  resume_with_lem, from_report, reported, calculated, from_review, answered_with,
}
use lang_graph_uas.Graph.Review.{review}
use lang_graph_uas.Schemas.Assessment.{DeterministicAssessment, AssessmentMode}

-- The parts of a state that the calculator writes.
abbrev pub Figures : Type 0 → Type 0
Figures F = Option (Calculations F) × Option DeterministicAssessment × Bool

abbrev pub figures : {F : Type 0} → Option (MissionState F) → Option (Figures F)
figures none = none
figures (some s) = some (s.calculations, s.assessment, s.is_viable)

-- What no review changes: what was resolved and observed before it, and all of the mission but its
-- target altitude and hover time.
abbrev pub Fixed : Type 0 → Type 0
Fixed F = record {
  aircraft_id : String;
  aircraft : Option (Aircraft F);
  payload : Option (Payload F);
  weather : Option (WeatherReading F);
  requested_mode : AssessmentMode;
  distance_m : F;
  elevation_m : F;
  latitude : F;
  longitude : F;
}

abbrev pub fixed : {F : Type 0} → MissionState F → Fixed F
fixed s = record {
  aircraft_id = s.aircraft_id;
  aircraft = s.aircraft;
  payload = s.payload;
  weather = s.weather;
  requested_mode = s.requested_mode;
  distance_m = s.mission_params.distance_m;
  elevation_m = s.mission_params.elevation_m;
  latitude = s.mission_params.latitude;
  longitude = s.mission_params.longitude;
}

abbrev pub Keeps : {F : Type 0} → Fixed F → Stop F → Type 0
Keeps x (awaiting t) = fixed t ≡ x
Keeps x (finished t) = fixed t ≡ x
Keeps x (raised node) = Unit {0}

module _ {F : Type 0} ⦃f : Float F⦄ (d : Dependencies F) where
  figures-payload_id :
      (s : MissionState F) (id : String) (a : Option (Aircraft F)) (p : Option (Payload F))
      (w : Option (WeatherReading F))
      → figures (calculate_from d (record s { payload_id = id }) a p w)
        ≡ figures (calculate_from d s a p w)
  figures-payload_id s id (some a) (some p) (some w) = refl
  figures-payload_id s id _ _ _ = refl

  -- The payload that an edit names has no part in the assessment that follows: the calculator reads the
  -- payload that was resolved before the review, so an edit of the payload is assessed as if it named none.
  pub calculate-payload_edit_ignored :
      (s : MissionState F) (e : MissionEdits F)
      → figures (calculate d (apply_edits s e))
        ≡ figures (calculate d (apply_edits s (record e { payload_id = none })))
  unfolding calculate apply_edits
  calculate-payload_edit_ignored s e =
      let t = apply_edits s (record e { payload_id = none }) in
      figures-payload_id t (apply_edits s e).payload_id t.aircraft t.payload t.weather

  written-Keeps :
      (t : MissionState F) (c : Option (Calculations F)) (a : Option (Aircraft F))
      (w : Option (WeatherReading F))
      → Keeps (fixed t) (reported d (write_report d t c a w))
  written-Keeps t (some c) (some a) (some w) = refl
  written-Keeps t (some c) (some a) none = tt
  written-Keeps t _ _ _ = refl

  from_report-Keeps : (t : MissionState F) → Keeps (fixed t) (from_report d t)
  unfolding generate_report
  from_report-Keeps t = at_blank (is_blank t.report)
    where
      at_blank :
          (b : Bool)
          → Keeps (fixed t) (
              reported d
                (if b then write_report d t t.calculations t.aircraft t.weather else some t))
      at_blank true = written-Keeps t t.calculations t.aircraft t.weather
      at_blank false = refl

  from_review-Keeps : (t : MissionState F) → Keeps (fixed t) (from_review d t)
  from_review-Keeps t = at_limit (leb max_ack_rounds t.ack_rounds)
    where
      u : MissionState F
      u = record t { ack_action = some confirm }

      at_limit : (b : Bool) → Keeps (fixed t) (if b then from_report d u else awaiting t)
      at_limit true = from_report-Keeps u
      at_limit false = refl

  calculated-Keeps :
      (t : MissionState F) (a : Option (Aircraft F)) (p : Option (Payload F))
      (w : Option (WeatherReading F))
      → Keeps (fixed t) (calculated d (calculate_from d t a p w))
  unfolding cite_limits
  calculated-Keeps t (some a) (some p) (some w) = from_review-Keeps _
  calculated-Keeps t _ _ _ = tt

  answered_with-Keeps :
      (a : AckAction) (r : Response F) (s : MissionState F)
      → Keeps (fixed s) (answered_with d a r s)
  unfolding apply_edits calculate
  answered_with-Keeps confirm r s = from_report-Keeps (respond confirm s r)
  answered_with-Keeps edit r s =
      let t = respond edit s r in calculated-Keeps t t.aircraft t.payload t.weather
  answered_with-Keeps abort r s = refl

  resume_with-Keeps :
      (r : Response F) (s : MissionState F)
      → (t : Stop F) × (resume_with d r s ≡ some t) × Keeps (fixed s) t
  resume_with-Keeps r s = (_, resume_with_lem d r s, at_limit (leb max_ack_rounds s.ack_rounds))
    where
      u : MissionState F
      u = record s { ack_action = some confirm }

      at_limit :
          (b : Bool) → Keeps (fixed s) (if b then from_report d u else answered_with d r.action r s)
      at_limit true = from_report-Keeps u
      at_limit false = answered_with-Keeps r.action r s

  review-Keeps :
      (rs : List (Response F)) (x : Fixed F) (stop : Stop F)
      → Keeps x stop
      → Keeps x (review d rs stop)
  unfolding review
  review-Keeps [] x stop k = k
  review-Keeps (r ∷ rs) x (finished s) k = k
  review-Keeps (r ∷ rs) x (raised node) k = tt
  review-Keeps (r ∷ rs) x (awaiting s) k =
      let (t, stops, kept) = resume_with-Keeps r s in
      rw stops (review-Keeps rs x t (subst (λ y. Keeps y t) k kept))

  -- However often the operator edits, the airframe, the payload, the weather, the mode asked for and all
  -- of the mission but its target altitude and hover time are, where the review stops, what they were
  -- when the plan was shown.
  review-fixed :
      (rs : List (Response F)) (s : MissionState F) → Keeps (fixed s) (review d rs (awaiting s))
  review-fixed rs s = review-Keeps rs (fixed s) (awaiting s) refl
