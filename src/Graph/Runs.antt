-- ===== src/Graph/Runs.antt =====
-- Where the runs of the mission graph stop.
use lang_graph_uas.Prelude.{
  ℕ, suc, ◌≡◌, refl, Bool, true, false, Option, none, some, String, leb, if◌then◌else◌,
}
use lang_graph_uas.Float.{Float}
use lang_graph_uas.Schemas.Requests.{MissionEdits, AckAction, confirm, edit, abort}
use lang_graph_uas.Graph.State.{MissionState, Response, Dependencies}
use lang_graph_uas.Graph.Nodes.{
  returned, resume, validate, fetch_weather, calculate, cite_limits, human_ack, generate_report,
  max_ack_rounds, respond, apply_edits,
}
use lang_graph_uas.Graph.Workflow.{
  Stop, after_node, after_review, awaiting, finished, raised, drive, execute, successor, invoke,
  resume_with, weather_node, calculations_node, human_ack_node, report_node,
}

module _ {F : Type 0} ⦃f : Float F⦄ (d : Dependencies F) where
  -- From the report node on, and from the review step on with no response to come.
  abbrev pub reported : Option (MissionState F) → Stop F
  reported none = raised report_node
  reported (some t) = finished t

  abbrev pub from_report : MissionState F → Stop F
  from_report s = reported (generate_report d s)

  abbrev pub from_review : MissionState F → Stop F
  from_review s =
      if leb max_ack_rounds s.ack_rounds
      then from_report (record s { ack_action = some confirm })
      else awaiting s

  -- From the calculator on, and from the validation on.
  abbrev pub calculated : Option (MissionState F) → Stop F
  calculated none = raised calculations_node
  calculated (some t) = from_review (cite_limits d t)

  abbrev pub from_calculations : MissionState F → Stop F
  from_calculations s = calculated (calculate d s)

  -- From the weather on.
  abbrev pub forecast : Option (MissionState F) → Stop F
  forecast none = raised weather_node
  forecast (some t) = from_calculations t

  abbrev pub from_validation : MissionState F → Stop F
  from_validation s = if s.is_viable then forecast (fetch_weather d s) else from_report s

  -- What a response leads to where the review step still listens.
  abbrev pub answered_with : AckAction → Response F → MissionState F → Stop F
  answered_with confirm r s = from_report (respond confirm s r)
  answered_with edit r s = from_calculations (respond edit s r)
  answered_with abort r s = finished (respond abort s r)

  after_report :
      (n : ℕ) (r : Option (Response F)) (o : Option (MissionState F))
      → after_node report_node (drive d (suc n) r) o ≡ some (reported o)
  unfolding drive successor
  after_report n r none = refl
  after_report n r (some t) = refl

  drive-from_report :
      (n : ℕ) (r : Option (Response F)) (s : MissionState F)
      → drive d (suc (suc n)) r report_node s ≡ some (from_report s)
  unfolding drive execute
  drive-from_report n r s = after_report n r (generate_report d s)

  drive-from_review :
      (n : ℕ) (s : MissionState F)
      → drive d (suc (suc (suc n))) none human_ack_node s ≡ some (from_review s)
  unfolding drive human_ack
  drive-from_review n s = at_limit (leb max_ack_rounds s.ack_rounds)
    where
      t : MissionState F
      t = record s { ack_action = some confirm }

      at_limit :
          (b : Bool)
          → after_review s (drive d (suc (suc n)) none) (if b then returned t else resume s none)
            ≡ some (if b then from_report t else awaiting s)
      at_limit true = unfold successor in drive-from_report n none t
      at_limit false = refl

  after_calculations :
      (n : ℕ) (o : Option (MissionState F))
      → after_node calculations_node (drive d (suc (suc (suc (suc n)))) none) o
        ≡ some (calculated o)
  unfolding drive execute successor
  after_calculations n none = refl
  after_calculations n (some t) = drive-from_review n (cite_limits d t)

  drive-from_calculations :
      (n : ℕ) (s : MissionState F)
      → drive d (suc (suc (suc (suc (suc n))))) none calculations_node s
        ≡ some (from_calculations s)
  unfolding drive execute
  drive-from_calculations n s = after_calculations n (calculate d s)

  after_weather :
      (o : Option (MissionState F)) → after_node weather_node (drive d 6 none) o ≡ some (forecast o)
  unfolding drive execute successor
  after_weather none = refl
  after_weather (some t) = drive-from_calculations 1 t

  drive-from_validation :
      (b : Bool) (s : MissionState F)
      → drive d 7 none (elim b [ false ↦ report_node | true ↦ weather_node ]) s
        ≡ some (if b then forecast (fetch_weather d s) else from_report s)
  unfolding drive execute successor
  drive-from_validation true s = after_weather (fetch_weather d s)
  drive-from_validation false s = drive-from_report 5 none s

  -- A run of a request stops after the path that validation chooses.
  pub invoke_lem : (s : MissionState F) → invoke d s ≡ some (from_validation (validate d s))
  unfolding invoke drive execute successor
  invoke_lem s = drive-from_validation (validate d s).is_viable (validate d s)

  drive-answered :
      (a : AckAction) (actor : String) (edits : MissionEdits F) (s : MissionState F)
      → let r : Response F = record { action = a; actor = actor; edits = edits } in
        after_review s (drive d 7 none) (returned (respond a s r)) ≡ some (answered_with a r s)
  unfolding drive successor apply_edits
  drive-answered confirm actor edits s = drive-from_report 5 none _
  drive-answered edit actor edits s = drive-from_calculations 2 _
  drive-answered abort actor edits s = refl

  -- A resumed run stops after the path that the response chooses, unless the rounds are used up.
  pub resume_with_lem :
      (r : Response F) (s : MissionState F)
      → resume_with d r s
        ≡ some (
            if leb max_ack_rounds s.ack_rounds
            then from_report (record s { ack_action = some confirm })
            else answered_with r.action r s)
  unfolding resume_with drive human_ack
  resume_with_lem r s = at_limit (leb max_ack_rounds s.ack_rounds)
    where
      t : MissionState F
      t = record s { ack_action = some confirm }

      at_limit :
          (b : Bool)
          → after_review s
              (drive d 7 none)
              (if b then returned t else returned (respond r.action s r))
            ≡ some (if b then from_report t else answered_with r.action r s)
      at_limit true = unfold successor in drive-from_report 5 none t
      at_limit false = drive-answered r.action r.actor r.edits s
