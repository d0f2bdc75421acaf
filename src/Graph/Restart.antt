-- ===== src/Graph/Restart.antt =====
-- A second plan on a thread that holds the state of a first.
use lang_graph_uas.Prelude.{
  ◌≤◌, ◌<◌, ◌≡◌, refl, ◌∙◌, ap, Bool, true, false, Option, some, arith, leb, is_blank,
  if◌then◌else◌,
}
use lang_graph_uas.Float.{Float}
use lang_graph_uas.Schemas.Domain.{Aircraft, Payload}
use lang_graph_uas.Schemas.Responses.{WeatherReading}
use lang_graph_uas.Schemas.Assessment.{DeterministicAssessment}
use lang_graph_uas.Calculations.Assessment.{
  assess_mission, build_assessment, resolved as resolved_inputs,
}
use lang_graph_uas.Schemas.Requests.{MissionRequest, AckAction, confirm}
use lang_graph_uas.Graph.State.{MissionState, Response, Dependencies}
use lang_graph_uas.Graph.Nodes.{
  calculate_with, validate, validated, payload_or_default, weathered, fetch_weather, calculate,
  cite_limits, generate_report, write_report, max_ack_rounds, respond,
}
use lang_graph_uas.Graph.Workflow.{Stop, awaiting, finished, invoke, resume_with, begin_again}
use lang_graph_uas.Graph.Runs.{
  invoke_lem, from_report, reported, forecast, from_review, from_validation, answered_with,
}
use lang_graph_uas.Graph.Review.{resume_with-Progress}

module _ {F : Type 0} ⦃f : Float F⦄ (d : Dependencies F) where
  -- A state whose airframe and payload are resolved.
  abbrev resolved : MissionState F → Aircraft F → Payload F → MissionState F
  resolved s a p = record s { aircraft = some a; payload = some p; is_viable = true }

  resolve_lem :
      (s : MissionState F) (a : Aircraft F) (p : Payload F)
      → d.get_aircraft s.aircraft_id ≡ some a
      → d.get_payload s.payload_id ≡ some p
      → validate d s ≡ resolved s a p
  unfolding validate
  resolve_lem s a p ha hp =
      ap (validated d s) ha
      ∙ ap
          (λ (o : Option (Payload F)). record s {
            aircraft = some a;
            payload = payload_or_default d o;
            is_viable = true;
          })
          hp

  -- The state that the calculator and the citations leave behind.
  abbrev assessed : MissionState F → Aircraft F → Payload F → WeatherReading F → MissionState F
  assessed s a p w =
      cite_limits d (calculate_with d (record (resolved s a p) { weather = some w }) a p w)

  from_resolved :
      (s : MissionState F) (a : Aircraft F) (p : Payload F) (w : WeatherReading F)
      → d.fetch_weather s.mission_params.latitude s.mission_params.longitude ≡ some w
      → from_validation d (resolved s a p) ≡ from_review d (assessed s a p w)
  unfolding fetch_weather calculate
  from_resolved s a p w h = ap (λ o. forecast d (weathered (resolved s a p) o)) h

  kept_report : (t : MissionState F) → is_blank t.report ≡ false → from_report d t ≡ finished t
  unfolding generate_report
  kept_report t h = at_blank (is_blank t.report) h
    where
      at_blank :
          (b : Bool)
          → b ≡ false
          → reported d (if b then write_report d t t.calculations t.aircraft t.weather else some t)
            ≡ finished t
      at_blank true e = absurd (cc)
      at_blank false e = refl

  rounds_left : (t : MissionState F) → t.ack_rounds < max_ack_rounds → from_review d t ≡ awaiting t
  rounds_left t h = at_limit (leb max_ack_rounds t.ack_rounds) (ground arith)
    where
      at_limit :
          (b : Bool)
          → b ≡ false
          → (if b then from_report d (record t { ack_action = some confirm }) else awaiting t)
            ≡ awaiting t
      at_limit true e = absurd (cc)
      at_limit false e = refl

  rounds_spent :
      (t : MissionState F)
      → max_ack_rounds ≤ t.ack_rounds
      → from_review d t ≡ from_report d (record t { ack_action = some confirm })
  rounds_spent t h = at_limit (leb max_ack_rounds t.ack_rounds) (ground arith)
    where
      u : Stop F
      u = from_report d (record t { ack_action = some confirm })

      at_limit : (b : Bool) → b ≡ true → (if b then u else awaiting t) ≡ u
      at_limit true e = refl
      at_limit false e = absurd (cc)

  -- What the calculator makes of a request, with no state of the thread in it.
  abbrev pub fresh_assessment :
      MissionRequest F → Aircraft F → Payload F → WeatherReading F → DeterministicAssessment
  fresh_assessment r a p w =
      build_assessment d.digest
        (assess_mission a p r.mission_params w d.reserve_percent d.vertical_speed_mps
          d.climb_efficiency)
        (resolved_inputs a p r.mission_params w r.assessment_mode) r.assessment_mode (some w)
        (some a) (some p) (d.has_open_quarantine a.id)

  module _ (old : MissionState F) (r : MissionRequest F) (a : Aircraft F) (p : Payload F)
      (known : d.get_aircraft r.aircraft_id ≡ some a)
      (mounted : d.get_payload r.payload_id ≡ some p) (w : WeatherReading F)
      (observed : d.fetch_weather r.mission_params.latitude r.mission_params.longitude ≡ some w)
      (briefed : is_blank old.report ≡ false) where
    start :
        from_validation d (validate d (begin_again old r))
        ≡ from_review d (assessed (begin_again old r) a p w)
    unfolding begin_again
    start =
        ap (from_validation d) (resolve_lem (begin_again old r) a p known mounted)
        ∙ from_resolved (begin_again old r) a p w observed

    -- A plan on a thread that already has a brief keeps that brief. With a known airframe and payload and
    -- an answer of the weather service, and rounds left, it awaits the operator with the assessment of the
    -- new request beside the old text, and once confirmed it ends with that assessment and the old text.
    pub restart_keeps_brief :
        (confirmation : Response F)
        → confirmation.action ≡ confirm
        → old.ack_rounds < max_ack_rounds
        → (t : MissionState F) × (u : MissionState F) × (invoke d (begin_again old r)
            ≡ some (awaiting t))
          × (resume_with d confirmation t ≡ some (finished u))
          × (t.report ≡ old.report)
          × (u.report ≡ old.report)
          × (t.assessment ≡ some (fresh_assessment r a p w))
          × (u.assessment ≡ t.assessment)
    unfolding begin_again fetch_weather cite_limits
    restart_keeps_brief confirmation e h =
        let t = assessed (begin_again old r) a p w in
        let (stop, stops, is, _) = resume_with-Progress d confirmation t h in
        (
          t,
          respond confirm t confirmation,
          invoke_lem d (begin_again old r) ∙ ap some (start ∙ rounds_left t h),
          stops
              ∙ ap some (
                  is
                  ∙ ap (λ (x : AckAction). answered_with d x confirmation t) e
                  ∙ kept_report _ briefed),
          refl,
          refl,
          refl,
          refl,
        )

    -- Where the rounds of that thread are used up, the new plan, of a known airframe and payload and with
    -- an answer of the weather service, ends at once, with the old brief and recorded as confirmed: no
    -- operator is asked about the new assessment.
    pub restart_skips_review :
        max_ack_rounds ≤ old.ack_rounds
        → (t : MissionState F) × (invoke d (begin_again old r) ≡ some (finished t))
          × (t.report ≡ old.report)
          × (t.ack_action ≡ some confirm)
    unfolding begin_again fetch_weather cite_limits
    restart_skips_review h =
        let t = assessed (begin_again old r) a p w in
        (
          record t { ack_action = some confirm },
          invoke_lem d (begin_again old r)
              ∙ ap some (start ∙ rounds_spent t h ∙ kept_report _ briefed),
          refl,
          refl,
        )
