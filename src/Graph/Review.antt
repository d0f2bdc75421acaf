-- ===== src/Graph/Review.antt =====
-- The review loop: the responses of an operator to a plan that awaits them.
use lang_graph_uas.Prelude.{
  ℕ, ◌≤◌, ◌<◌, ◌≡◌, refl, ◌∙◌, ap, Bool, true, false, List, [], ◌∷◌, Option, none, some, arith, leb,
  length, or_else, if◌then◌else◌,
}
use Prim.Native.Nat.{◌+◌}
use lang_graph_uas.Float.{Float}
use lang_graph_uas.Schemas.Domain.{Aircraft, Payload}
use lang_graph_uas.Schemas.Responses.{WeatherReading}
use lang_graph_uas.Schemas.Requests.{AckAction, confirm, edit, abort}
use lang_graph_uas.Graph.State.{MissionState, Response, Dependencies}
use lang_graph_uas.Graph.Nodes.{
  calculate, calculate_from, cite_limits, generate_report, max_ack_rounds, apply_edits, respond,
}
use lang_graph_uas.Graph.Workflow.{Stop, awaiting, finished, raised, resume_with}
use lang_graph_uas.Graph.Runs.{
  resume_with_lem, from_report, reported, calculated, from_review, answered_with,
}

module _ {F : Type 0} ⦃f : Float F⦄ (d : Dependencies F) where
  -- The responses in order, for as long as the run awaits one.
  unfoldable pub review : List (Response F) → Stop F → Stop F
  review [] stop = stop
  review (r ∷ rs) (awaiting s) = review rs (or_else (resume_with d r s) (awaiting s))
  review (r ∷ rs) (finished s) = finished s
  review (r ∷ rs) (raised node) = raised node

  -- The review step awaits nothing once the rounds are used up, and each response takes one.
  abbrev pub Progress : ℕ → Stop F → Type 0
  Progress n (awaiting t) = (t.ack_rounds ≡ n) × (n < max_ack_rounds)
  Progress n (finished t) = Unit {0}
  Progress n (raised node) = Unit {0}

  reported-Progress : (n : ℕ) (o : Option (MissionState F)) → Progress n (reported d o)
  reported-Progress n none = tt
  reported-Progress n (some t) = tt

  from_review-Progress :
      (n : ℕ) (s : MissionState F) → s.ack_rounds ≡ n → Progress n (from_review d s)
  from_review-Progress n s e = at_limit (leb max_ack_rounds s.ack_rounds) refl
    where
      t : MissionState F
      t = record s { ack_action = some confirm }

      at_limit :
          (b : Bool)
          → leb max_ack_rounds s.ack_rounds ≡ b
          → Progress n (if b then from_report d t else awaiting s)
      at_limit true h = reported-Progress n (generate_report d t)
      at_limit false h = (e, ground arith)

  calculated-Progress :
      (s : MissionState F) (a : Option (Aircraft F)) (p : Option (Payload F))
      (w : Option (WeatherReading F))
      → Progress s.ack_rounds (calculated d (calculate_from d s a p w))
  unfolding cite_limits
  calculated-Progress s (some a) (some p) (some w) = from_review-Progress s.ack_rounds _ refl
  calculated-Progress s _ _ _ = tt

  answered_with-Progress :
      (a : AckAction) (r : Response F) (s : MissionState F)
      → Progress (s.ack_rounds + 1) (answered_with d a r s)
  unfolding apply_edits calculate
  answered_with-Progress confirm r s = reported-Progress _ (generate_report d (respond confirm s r))
  answered_with-Progress edit r s =
      let t = respond edit s r in calculated-Progress t t.aircraft t.payload t.weather
  answered_with-Progress abort r s = tt

  pub resume_with-Progress :
      (r : Response F) (s : MissionState F)
      → s.ack_rounds < max_ack_rounds
      → (t : Stop F) × (resume_with d r s ≡ some t)
        × (t ≡ answered_with d r.action r s)
        × Progress (s.ack_rounds + 1) t
  resume_with-Progress r s h = (
    answered_with d r.action r s,
    resume_with_lem d r s ∙ ap some (open_rounds (leb max_ack_rounds s.ack_rounds) (ground arith)),
    refl,
    answered_with-Progress r.action r s,
  )
    where
      t : Stop F
      t = from_report d (record s { ack_action = some confirm })

      open_rounds :
          (b : Bool)
          → b ≡ false
          → (if b then t else answered_with d r.action r s) ≡ answered_with d r.action r s
      open_rounds true e = absurd (cc)
      open_rounds false e = refl

  abbrev pub IsSettled : Stop F → Type 0
  IsSettled (awaiting s) = ⊥
  IsSettled (finished s) = Unit {0}
  IsSettled (raised node) = Unit {0}

  review-IsSettled :
      (rs : List (Response F)) (n : ℕ) (stop : Stop F)
      → Progress n stop
      → max_ack_rounds ≤ n + length rs
      → IsSettled (review rs stop)
  unfolding review
  review-IsSettled [] n (awaiting s) p h = omega arith
  review-IsSettled [] n (finished s) p h = tt
  review-IsSettled [] n (raised node) p h = tt
  review-IsSettled (r ∷ rs) n (finished s) p h = tt
  review-IsSettled (r ∷ rs) n (raised node) p h = tt
  review-IsSettled (r ∷ rs) n (awaiting s) (e, lt) h =
      let (t, stops, _, q) = resume_with-Progress r s (omega arith) in
      rw stops (review-IsSettled rs (s.ack_rounds + 1) t q (omega arith))

  -- The review of a plan that awaits its operator ends, whatever the operator answers: five responses,
  -- less those already given, leave no run waiting.
  pub review_terminates :
      (rs : List (Response F)) (s : MissionState F)
      → s.ack_rounds < max_ack_rounds
      → max_ack_rounds ≤ s.ack_rounds + length rs
      → IsSettled (review rs (awaiting s))
  review_terminates rs s lt h = review-IsSettled rs s.ack_rounds (awaiting s) (refl, lt) h
